-- ===== src/Evaluator/Compare.antt =====
-- `compareEvaluations` of server/poker/evaluator.js. `Math.sign` gives -1, 0 or 1: here `lt`, `eq` or
-- `gt`. An evaluation's name is its category's, so it is left out.
use x_poker.Base.{ℕ, Ordering, compare, Bool, true, false, List, [], ◌∷◌, ◌==◌, if◌then◌else◌}

pub record Evaluation : Type 0 where
  pub category : ℕ
  pub tiebreak : List ℕ
  pub cards : List ℕ

-- The first difference that is not 0 decides.
abbrev pub or_next : Ordering → Ordering → Ordering
or_next Ordering.lt next = Ordering.lt
or_next Ordering.eq next = next
or_next Ordering.gt next = Ordering.gt

-- The loop over the tiebreaks, where a missing entry counts as 0.
unfoldable pub compare_tiebreaks : List ℕ → List ℕ → Ordering
compare_tiebreaks [] [] = Ordering.eq
compare_tiebreaks [] (y ∷ ys) = or_next (compare 0 y) (compare_tiebreaks [] ys)
compare_tiebreaks (x ∷ xs) [] = or_next (compare x 0) (compare_tiebreaks xs [])
compare_tiebreaks (x ∷ xs) (y ∷ ys) = or_next (compare x y) (compare_tiebreaks xs ys)

unfoldable pub compare_evaluations : Evaluation → Evaluation → Ordering
unfolding compare_tiebreaks
compare_evaluations left right =
    if left.category == right.category
    then compare_tiebreaks left.tiebreak right.tiebreak
    else compare left.category right.category

abbrev pub is_gt : Ordering → Bool
is_gt Ordering.gt = true
is_gt _ = false

abbrev pub is_eq : Ordering → Bool
is_eq Ordering.eq = true
is_eq _ = false
