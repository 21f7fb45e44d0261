-- ===== src/Pots/Winners.antt =====
-- The winners that `settlePots` of server/poker/pots.js finds for a pot on one board.
-- Whether the second of two ranks does not beat the first; a missing rank counts as beaten.
use x_poker.Base.{
  ℕ, Ordering, ◌≡◌, refl, sym, subst, ◌∙◌, inl, inr, Bool, true, false, not, Option, some, List, [],
  ◌∷◌, map, arith, if◌then◌else◌, Bool-cases, true≢false, all, All,
}
use x_poker.Evaluator.Compare.{Evaluation, compare_evaluations, is_gt, is_eq}
use x_poker.Evaluator.Best.{better_of}
use x_poker.Pots.Settle.{Rankings, Ranked, rank_for, best_from}
use x_poker.Evaluator.Order.{flip, compare_evaluations-flip, AtMost, compare_evaluations_trans}
use x_poker.Evaluator.Optimal.{Has}

abbrev pub at_least : Option Evaluation → Option Evaluation → Bool
at_least (some r) (some q) = not (is_gt (compare_evaluations q r))
at_least _ _ = false

-- Whether no eligible player has a better rank than this one.
abbrev pub unbeaten : Rankings → List ℕ → ℕ → Bool
unbeaten rankings ids id =
    all (λ other. at_least (rank_for rankings id) (rank_for rankings other)) ids

abbrev pub beats_none : List Ranked → Evaluation → Bool
beats_none ranked rank = all (λ (q : Ranked). not (is_gt (compare_evaluations q.rank rank))) ranked

abbrev pub ranks : List Ranked → List Evaluation
ranks = map (λ (r : Ranked). r.rank)

pub best_from-better_of :
    (b : Evaluation) (es : List Ranked) → best_from b es ≡ better_of b (ranks es)
unfolding best_from better_of
best_from-better_of b [] = refl
best_from-better_of b (e ∷ es) =
    best_from-better_of (if is_gt (compare_evaluations e.rank b) then e.rank else b) es

-- Two that do not beat each other are tied.
tied : (o : Ordering) → is_gt o ≡ false → is_gt (flip o) ≡ false → is_eq o ≡ true
tied Ordering.lt h k = cc
tied Ordering.eq h k = refl
tied Ordering.gt h k = cc

eq-not_gt : (o : Ordering) → is_eq o ≡ true → is_gt (flip o) ≡ false
eq-not_gt Ordering.lt h = cc
eq-not_gt Ordering.eq h = refl
eq-not_gt Ordering.gt h = cc

Has-beats_none :
    (b r : Evaluation) (ranked : List Ranked)
    → Has b (ranks ranked)
    → beats_none ranked r ≡ true
    → AtMost (compare_evaluations b r)
Has-beats_none b r [] h k = elim h [ ]
Has-beats_none b r (q ∷ qs) (inl e) k =
    subst (λ x. AtMost (compare_evaluations x r)) e (ground (arith, k))
Has-beats_none b r (q ∷ qs) (inr h) k = Has-beats_none b r qs h (ground (arith, k))

All-beats_none :
    (b r : Evaluation) (ranked : List Ranked)
    → All (λ e. AtMost (compare_evaluations e b)) (ranks ranked)
    → AtMost (compare_evaluations b r)
    → beats_none ranked r ≡ true
All-beats_none b r [] a h = refl
All-beats_none b r (q ∷ qs) a h =
    ground (arith, compare_evaluations_trans q.rank b r a.0 h, All-beats_none b r qs a.1 h)

-- To be tied with a best rank is to be beaten by none.
pub is_best_iff :
    (b r : Evaluation) (ranked : List Ranked)
    → Has b (ranks ranked)
    → All (λ e. AtMost (compare_evaluations e b)) (ranks ranked)
    → AtMost (compare_evaluations r b)
    → is_eq (compare_evaluations r b) ≡ beats_none ranked r
is_best_iff b r ranked there below le = elim (Bool-cases (is_eq (compare_evaluations r b))) [
  | inl same ↦
      let back =
        subst (λ o. is_gt o ≡ false) (sym (compare_evaluations-flip r b)) (eq-not_gt _ same) in
      same ∙ sym (All-beats_none b r ranked below back)
  | inr other ↦ elim (Bool-cases (beats_none ranked r)) [
    | inl most ↦
        let back =
          subst (λ o. is_gt o ≡ false) (compare_evaluations-flip r b)
            (Has-beats_none b r ranked there most) in
        absurd (true≢false (sym (tied _ le back) ∙ other))
    | inr less ↦ other ∙ sym less
  ]
]
