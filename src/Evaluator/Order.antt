-- ===== src/Evaluator/Order.antt =====
-- `compareEvaluations` of server/poker/evaluator.js is a total order of hands, ties included.
use x_poker.Base.{ℕ, Ordering, compare, ◌≡◌, refl, false, List, [], ◌∷◌, arith}
use x_poker.Evaluator.Compare.{Evaluation, compare_tiebreaks, compare_evaluations, is_gt}

abbrev pub flip : Ordering → Ordering
flip Ordering.lt = Ordering.gt
flip Ordering.eq = Ordering.eq
flip Ordering.gt = Ordering.lt

compare-flip : (a b : ℕ) → compare b a ≡ flip (compare a b)
compare-flip a b = ground arith

compare_tiebreaks-flip : (xs ys : List ℕ) → compare_tiebreaks ys xs ≡ flip (compare_tiebreaks xs ys)
unfolding compare_tiebreaks
compare_tiebreaks-flip [] [] = refl
compare_tiebreaks-flip [] (y ∷ ys) = ground (arith, compare_tiebreaks-flip [] ys)
compare_tiebreaks-flip (x ∷ xs) [] = ground (arith, compare_tiebreaks-flip xs [])
compare_tiebreaks-flip (x ∷ xs) (y ∷ ys) = ground (arith, compare_tiebreaks-flip xs ys)

-- To compare the other way round turns the sign.
pub compare_evaluations-flip :
    (a b : Evaluation) → compare_evaluations b a ≡ flip (compare_evaluations a b)
unfolding compare_evaluations
compare_evaluations-flip a b = ground (arith, compare_tiebreaks-flip a.tiebreak b.tiebreak)

-- No better than.
abbrev pub AtMost : Ordering → Type 0
AtMost o = is_gt o ≡ false

compare_tiebreaks_trans :
    (xs ys zs : List ℕ)
    → AtMost (compare_tiebreaks xs ys)
    → AtMost (compare_tiebreaks ys zs)
    → AtMost (compare_tiebreaks xs zs)
unfolding compare_tiebreaks
compare_tiebreaks_trans [] [] [] h k = refl
compare_tiebreaks_trans [] [] (z ∷ zs) h k = k
compare_tiebreaks_trans [] (y ∷ ys) [] h k = refl
compare_tiebreaks_trans [] (y ∷ ys) (z ∷ zs) h k = ground (arith, compare_tiebreaks_trans [] ys zs)
compare_tiebreaks_trans (x ∷ xs) [] [] h k = h
compare_tiebreaks_trans (x ∷ xs) [] (z ∷ zs) h k = ground (arith, compare_tiebreaks_trans xs [] zs)
compare_tiebreaks_trans (x ∷ xs) (y ∷ ys) [] h k = ground (arith, compare_tiebreaks_trans xs ys [])
compare_tiebreaks_trans (x ∷ xs) (y ∷ ys) (z ∷ zs) h k =
    ground (arith, compare_tiebreaks_trans xs ys zs)

pub compare_evaluations_trans :
    (a b c : Evaluation)
    → AtMost (compare_evaluations a b)
    → AtMost (compare_evaluations b c)
    → AtMost (compare_evaluations a c)
unfolding compare_evaluations
compare_evaluations_trans a b c h k =
    ground (arith, compare_tiebreaks_trans a.tiebreak b.tiebreak c.tiebreak)

compare_tiebreaks_refl : (xs : List ℕ) → compare_tiebreaks xs xs ≡ Ordering.eq
unfolding compare_tiebreaks
compare_tiebreaks_refl [] = refl
compare_tiebreaks_refl (x ∷ xs) = ground (arith, compare_tiebreaks_refl xs)

pub compare_evaluations_refl : (a : Evaluation) → compare_evaluations a a ≡ Ordering.eq
unfolding compare_evaluations
compare_evaluations_refl a = ground (arith, compare_tiebreaks_refl a.tiebreak)
