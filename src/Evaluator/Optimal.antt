-- ===== src/Evaluator/Optimal.antt =====
-- `best` of server/poker/evaluator.js picks a best evaluation, and `combinations` gives the hands of five
-- to pick from.
-- Whether a list has an item, as a proposition of the model.
use x_poker.Base.{
  Ordering, ◌≡◌, refl, sym, subst, ◌∙◌, ◌⊎◌, inl, inr, true, false, some, List, [], ◌∷◌, arith,
  if◌then◌else◌, Bool-cases, some-injective, All,
}
use x_poker.Evaluator.Compare.{Evaluation, compare_evaluations, is_gt}
use x_poker.Evaluator.Best.{better_of, best}
use x_poker.Evaluator.Order.{
  flip, compare_evaluations-flip, AtMost, compare_evaluations_trans, compare_evaluations_refl,
}

abbrev pub Has : {A : Type 0} → A → List A → Type 0
Has a [] = ⊥
Has a (x ∷ xs) = (x ≡ a) ⊎ Has a xs

-- `current` or `candidate`, whichever is better.
abbrev better : Evaluation → Evaluation → Evaluation
better current e = if is_gt (compare_evaluations e current) then e else current

better-either : (current e : Evaluation) → (better current e ≡ current) ⊎ (better current e ≡ e)
better-either current e = elim (Bool-cases (is_gt (compare_evaluations e current))) [
  | inl gt ↦ inr (ground (arith, gt))
  | inr le ↦ inl (ground (arith, le))
]

not_gt-flip : (o : Ordering) → is_gt o ≡ true → is_gt (flip o) ≡ false
not_gt-flip Ordering.gt h = refl
not_gt-flip Ordering.lt h = cc
not_gt-flip Ordering.eq h = cc

pub compare_evaluations-le_refl : (a : Evaluation) → AtMost (compare_evaluations a a)
compare_evaluations-le_refl a = subst (λ o. is_gt o ≡ false) (sym (compare_evaluations_refl a)) refl

better-current : (current e : Evaluation) → AtMost (compare_evaluations current (better current e))
better-current current e = elim (Bool-cases (is_gt (compare_evaluations e current))) [
  | inl gt ↦
      rw gt
        (subst (λ o. is_gt o ≡ false) (sym (compare_evaluations-flip e current)) (not_gt-flip _ gt))
  | inr le ↦ rw le (compare_evaluations-le_refl current)
]

better-candidate : (current e : Evaluation) → AtMost (compare_evaluations e (better current e))
better-candidate current e = elim (Bool-cases (is_gt (compare_evaluations e current))) [
  | inl gt ↦ rw gt (compare_evaluations-le_refl e)
  | inr le ↦ rw le le
]

pub better_of-current :
    (current : Evaluation) (es : List Evaluation)
    → AtMost (compare_evaluations current (better_of current es))
unfolding better_of
better_of-current current [] = compare_evaluations-le_refl current
better_of-current current (e ∷ es) =
    compare_evaluations_trans current (better current e) (better_of (better current e) es)
      (better-current current e) (better_of-current (better current e) es)

pub better_of-all :
    (current : Evaluation) (es : List Evaluation)
    → All (λ e. AtMost (compare_evaluations e (better_of current es))) es
unfolding better_of
better_of-all current [] = tt
better_of-all current (e ∷ es) =
    let next = better current e in
    (
      compare_evaluations_trans e next (better_of next es) (better-candidate current e)
          (better_of-current next es),
      better_of-all next es,
    )

pub better_of-Has :
    (current : Evaluation) (es : List Evaluation) → Has (better_of current es) (current ∷ es)
unfolding better_of
better_of-Has current [] = inl refl
better_of-Has current (e ∷ es) = elim (better_of-Has (better current e) es) [
  | inl same ↦ elim (better-either current e) [
    | inl old ↦ inl (sym old ∙ same)
    | inr new ↦ inr (inl (sym new ∙ same))
  ]
  | inr there ↦ inr (inr there)
]

-- The best evaluation is one of those given, and none of them beats it.
pub best-IsBest :
    (es : List Evaluation) (b : Evaluation)
    → best es ≡ some b
    → Has b es × All (λ e. AtMost (compare_evaluations e b)) es
unfolding best
best-IsBest [] b h = cc
best-IsBest (e ∷ es) b h =
    let same : better_of e es ≡ b = some-injective h in
    subst (λ b. Has b (e ∷ es) × All (λ e. AtMost (compare_evaluations e b)) (e ∷ es)) same
      (better_of-Has e es, (better_of-current e es, better_of-all e es))
