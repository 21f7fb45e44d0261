-- ===== src/Pots/Fair.antt =====
-- The winners of a pot on one board, in server/poker/pots.js, by the rankings alone.
-- Entries that `settlePots` makes for eligible players.
use x_poker.Base.{
  ℕ, ◌≡◌, refl, sym, ap, ap₂, subst, ◌∙◌, inl, inr, ◌&&◌, some, List, [], ◌∷◌, map, Bool-cases, ok,
  or_fail, >>=-eq-ok, ok-injective, or_fail-eq-ok, filter, All,
}
use x_poker.Evaluator.Compare.{Evaluation, compare_evaluations, is_eq}
use x_poker.Pots.Types.{missing_rank}
use x_poker.Evaluator.Best.{better_of}
use x_poker.Pots.Settle.{Rankings, Ranked, rank_for, rank_all, best_ids, winners_of}
use x_poker.Evaluator.Order.{AtMost}
use x_poker.Evaluator.Optimal.{Has, better_of-current, better_of-all, better_of-Has}
use x_poker.Pots.Winners.{at_least, unbeaten, beats_none, ranks, best_from-better_of, is_best_iff}

abbrev Matches : Rankings → List ℕ → List Ranked → Type 0
Matches rankings [] [] = Unit
Matches rankings [] (r ∷ rs) = ⊥
Matches rankings (id ∷ ids) [] = ⊥
Matches rankings (id ∷ ids) (r ∷ rs) =
    (r.player_id ≡ id) × (rank_for rankings id ≡ some r.rank) × Matches rankings ids rs

rank_all-Matches :
    (rankings : Rankings) (ids : List ℕ) {ranked : List Ranked}
    → rank_all rankings ids ≡ ok ranked
    → Matches rankings ids ranked
unfolding rank_all
rank_all-Matches rankings [] h = subst (Matches rankings []) (ok-injective h) tt
rank_all-Matches rankings (id ∷ ids) h =
    let (rank, found, h₁) = >>=-eq-ok (or_fail (rank_for rankings id) missing_rank) _ h in
    let (rest, all_of, h₂) = >>=-eq-ok (rank_all rankings ids) _ h₁ in
    let there : rank_for rankings id ≡ some rank =
      or_fail-eq-ok (rank_for rankings id) missing_rank found in
    subst (Matches rankings (id ∷ ids)) (ok-injective h₂)
      (refl, there, rank_all-Matches rankings ids all_of)

unbeaten-beats_none :
    (rankings : Rankings) (id : ℕ) (rank : Evaluation) (ids : List ℕ) (ranked : List Ranked)
    → rank_for rankings id ≡ some rank
    → Matches rankings ids ranked
    → unbeaten rankings ids id ≡ beats_none ranked rank
unbeaten-beats_none rankings id rank [] [] e m = refl
unbeaten-beats_none rankings id rank [] (r ∷ rs) e m = elim m [ ]
unbeaten-beats_none rankings id rank (i ∷ is) [] e m = elim m [ ]
unbeaten-beats_none rankings id rank (i ∷ is) (r ∷ rs) e (same, found, m) =
    ap₂ ◌&&◌ (ap₂ at_least e found) (unbeaten-beats_none rankings id rank is rs e m)

ids_of_best :
    (rankings : Rankings) (b : Evaluation) (ids : List ℕ) (ranked : List Ranked)
    → Has b (ranks ranked)
    → All (λ e. AtMost (compare_evaluations e b)) (ranks ranked)
    → Matches rankings ids ranked
    → (some_ids : List ℕ) (some_ranked : List Ranked)
    → All (λ e. AtMost (compare_evaluations e b)) (ranks some_ranked)
    → Matches rankings some_ids some_ranked
    → map
        (λ (r : Ranked). r.player_id)
        (filter (λ (r : Ranked). is_eq (compare_evaluations r.rank b)) some_ranked)
      ≡ filter (unbeaten rankings ids) some_ids
ids_of_best rankings b ids ranked there below m [] [] a n = refl
ids_of_best rankings b ids ranked there below m [] (r ∷ rs) a n = elim n [ ]
ids_of_best rankings b ids ranked there below m (i ∷ is) [] a n = elim n [ ]
ids_of_best rankings b ids ranked there below m (i ∷ is) (r ∷ rs) a (same, found, n) =
    let rest = ids_of_best rankings b ids ranked there below m is rs a.1 n in
    let here = is_best_iff b r.rank ranked there below a.0 in
    let test = unbeaten-beats_none rankings i r.rank ids ranked found m in
    elim (Bool-cases (beats_none ranked r.rank)) [
      | inl most ↦ let e = here ∙ most in let f = test ∙ most in rw (e, f) (ap₂ ◌∷◌ same rest)
      | inr less ↦ let e = here ∙ less in let f = test ∙ less in rw (e, f) rest
    ]

best_ids-unbeaten :
    (rankings : Rankings) (i : ℕ) (ids : List ℕ) (ranked : List Ranked)
    → Matches rankings (i ∷ ids) ranked
    → best_ids ranked ≡ filter (unbeaten rankings (i ∷ ids)) (i ∷ ids)
unfolding best_ids
best_ids-unbeaten rankings i ids [] m = elim m [ ]
best_ids-unbeaten rankings i ids (r ∷ rs) m =
    let b = better_of r.rank (ranks rs) in
    let below : All (λ e. AtMost (compare_evaluations e b)) (ranks (r ∷ rs)) =
      (better_of-current r.rank (ranks rs), better_of-all r.rank (ranks rs)) in
    ap
      (λ b.
        map (λ (r : Ranked). r.player_id)
          (filter (λ (r : Ranked). is_eq (compare_evaluations r.rank b)) (r ∷ rs)))
      (best_from-better_of r.rank rs)
    ∙ ids_of_best rankings b (i ∷ ids) (r ∷ rs) (better_of-Has r.rank (ranks rs)) below m (i ∷ ids)
        (r ∷ rs) below m

-- The winners of a pot with two or more eligible players are exactly the eligible players whose rank no
-- eligible player's rank beats, in the pot's order.
pub winners_of-unbeaten :
    (rankings : Rankings) (i j : ℕ) (ids : List ℕ) (winners : List ℕ)
    → winners_of rankings (i ∷ j ∷ ids) ≡ ok winners
    → winners ≡ filter (unbeaten rankings (i ∷ j ∷ ids)) (i ∷ j ∷ ids)
unfolding winners_of
winners_of-unbeaten rankings i j ids winners h =
    let (ranked, all_of, h₁) = >>=-eq-ok (rank_all rankings (i ∷ j ∷ ids)) _ h in
    sym (ok-injective h₁)
    ∙ best_ids-unbeaten rankings i (j ∷ ids) ranked (rank_all-Matches rankings (i ∷ j ∷ ids) all_of)
