-- ===== src/Betting/Opening.antt =====
-- The last step of `createBettingState` in server/poker/betting.js: the first actor is one who can act.
-- A table after the forced bets.
use x_poker.Base.{
  ℕ, ◌≡◌, refl, sym, ap, subst, subst₂, inl, inr, true, ◌&&◌, Option, none, some, [], map, arith,
  ◌==◌, Bool-cases, Option-cases, ok, ok-injective, some-injective, length, find?, any, All,
  Distinct, find?-test, find?-any, All-map,
}
use x_poker.Betting.State.{Player, BettingState, actionable}
use x_poker.Betting.Advance.{finish_or_advance}
use x_poker.Betting.Create.{at_seat, can_open, first_to_act, open_at, open_action}
use x_poker.Betting.Turns.{next_seat-some, seat_unique}
use x_poker.Betting.Outcome.{finish_or_advance-Kept}
use x_poker.Betting.Soundness.{Fits, IsSound, finish_or_advance-Waits}

pub record IsPosted (s : BettingState) : Type 0 where
  pub fits : All (Fits s.current_bet) s.players
  pub one_id : Distinct (map (λ (p : Player). p.player_id) s.players)
  pub one_seat : Distinct (map (λ (p : Player). p.seat) s.players)
  pub fresh : s.acted ≡ []

first_actor-IsSound :
    (s : BettingState) (seat : ℕ)
    → IsPosted s
    → any (λ p. actionable p && (p.seat == seat)) s.players ≡ true
    → IsSound (record s { action_seat = some seat })
first_actor-IsSound s seat v can = record {
  fits = v.fits;
  one_id = v.one_id;
  one_seat = v.one_seat;
  waits =
      All-map s.players
        (λ p free e.
          let f = free (sym (some-injective e)) in let n = v.fresh in ground (arith, f, n))
        (seat_unique s.players actionable seat v.one_seat can);
}

can_open-any :
    (s : BettingState)
    → can_open s ≡ true
    → any (λ p. actionable p && (p.seat == s.small_blind_seat)) s.players ≡ true
can_open-any s h = elim (Option-cases (find? (at_seat s.small_blind_seat) s.players)) [
  | inl e ↦ ground (arith, e)
  | inr (p, e) ↦
      let free : actionable p ≡ true = ground (arith, e) in
      let here = find?-test (at_seat s.small_blind_seat) s.players e in
      find?-any (at_seat s.small_blind_seat) (λ q. actionable q && (q.seat == s.small_blind_seat))
        s.players e (ground (arith, free, here))
]

finish-IsSound :
    (s : BettingState) (seat : ℕ) {t : BettingState}
    → IsPosted s
    → finish_or_advance s seat ≡ ok t
    → IsSound t × (t.players ≡ s.players)
finish-IsSound s seat v h =
    let kept = finish_or_advance-Kept s seat h in
    (
      record {
        fits =
            subst₂ (λ target ps. All (Fits target) ps) (sym kept.current_bet) (sym kept.players)
              v.fits;
        one_id =
            subst (λ ps. Distinct (map (λ (p : Player). p.player_id) ps)) (sym kept.players)
              v.one_id;
        one_seat =
            subst (λ ps. Distinct (map (λ (p : Player). p.seat) ps)) (sym kept.players) v.one_seat;
        waits = finish_or_advance-Waits s seat v.one_seat h;
      },
      kept.players,
    )

-- The seat that opens, if there is one.
open_at-IsSound :
    (s : BettingState) (o : Option ℕ) {t : BettingState}
    → IsPosted s
    → ((seat : ℕ) → o ≡ some seat → any (λ p. actionable p && (p.seat == seat)) s.players ≡ true)
    → open_at s o ≡ ok t
    → IsSound t × (t.players ≡ s.players)
open_at-IsSound s none v can h = finish-IsSound s s.big_blind_seat v h
open_at-IsSound s (some seat) v can h =
    let e = ok-injective h in
    (
      subst IsSound e (first_actor-IsSound s seat v (can seat refl)),
      sym (ap (λ (u : BettingState). u.players) e),
    )

pub open_action-IsSound :
    (s : BettingState) (last_forced : ℕ) {t : BettingState}
    → IsPosted s
    → open_action s last_forced ≡ ok t
    → IsSound t × (t.players ≡ s.players)
unfolding open_action
open_action-IsSound s last_forced v h =
    open_at-IsSound s (first_to_act s last_forced) v
      (λ seat e. elim (Bool-cases ((length s.players == 2) && can_open s)) [
        | inl heads_up ↦
            let same : s.small_blind_seat ≡ seat = ground (arith, heads_up) in
            subst (λ k. any (λ p. actionable p && (p.seat == k)) s.players ≡ true) same
              (can_open-any s (ground (arith, heads_up)))
        | inr ring ↦ next_seat-some s.players last_forced actionable (ground (arith, ring))
      ])
      h
