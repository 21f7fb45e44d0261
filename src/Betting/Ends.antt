-- ===== src/Betting/Ends.antt =====
-- How an accepted action of server/poker/betting.js ends: `finishOrAdvance` after it.
use x_poker.Base.{
  ℕ, ◌+◌, ◌≤◌, ◌≡◌, refl, sym, ap, subst, ◌∙◌, ◌≢◌, inl, inr, true, false, none, some, arith, ◌==◌,
  if◌then◌else◌, ==_iff, Bool-cases, ok, ok-injective, some-injective, length, filter, all, All,
  find?-All, All-map,
}
use x_poker.Betting.State.{
  betting, awaiting_runout, showdown, complete, Player, BettingState, is_river, active, actionable,
  player_by_id,
}
use x_poker.Betting.Advance.{
  is_pending, next_pending_actor, is_settled, first_id, one_matched, close_round, set_actor,
  finish_or_advance,
}
use x_poker.Betting.Actions.{Action, apply_action}
use x_poker.Betting.Nearest.{next_seat_nearest}
use x_poker.Betting.Outcome.{apply_action-Accepted}
use x_poker.Betting.Bankroll.{Performed-bankrolls}
use x_poker.Betting.Soundness.{same_seats}
use x_poker.Betting.Board.{Performed-board}
use x_poker.Betting.Blinds.{All-seats, seats-All}
use x_poker.Betting.Endings.{
  able, Ended, wins, goes_on, waits_for_street, runs_out, shows, one_left, all-actionable,
  all_matched-Matched, nobody-matched, one_matched-matched, settled-matched, settled-quiet, several,
  length-filter_le, pending-live,
}

-- The round closes when the last one who can act has matched and acted.
close_round-Ended :
    (s : BettingState) (seat : ℕ)
    → length (filter active s.players) ≢ 1
    → able s ≢ 0
    → one_matched s (filter actionable (filter active s.players)) ≡ false
    → all (is_settled s) (filter actionable (filter active s.players)) ≡ true
    → Ended seat (close_round s)
close_round-Ended s seat not_one some_one more settled =
    let can_act = filter actionable (filter active s.players) in
    let two = several s can_act some_one more settled in
    let fewer = length-filter_le actionable (filter active s.players) in
    let matched = all_matched-Matched s (settled-matched s can_act settled) in
    elim (Bool-cases (is_river s.phase)) [
      | inl last ↦
          rw last (shows (omega (arith, two, fewer)) (omega (arith, two)) refl last refl matched)
      | inr early ↦
          let quiet =
            All-map s.players (λ p. settled-quiet s p)
              (all-actionable (is_settled s) s.players settled) in
          rw early
            (waits_for_street (omega (arith, two, fewer)) two refl early refl refl quiet matched)
    ]

-- One alone can act, and has matched the bet: nothing is left to decide.
one_matched-Ended :
    (s : BettingState) (seat : ℕ)
    → length (filter active s.players) ≢ 1
    → one_matched s (filter actionable (filter active s.players)) ≡ true
    → Ended seat (record s {
      status = if is_river s.phase then showdown else awaiting_runout;
      action_seat = none;
    })
one_matched-Ended s seat not_one alone =
    let (same, one) = one_matched-matched s (filter actionable (filter active s.players)) alone in
    let matched = all_matched-Matched s same in
    let fewer = length-filter_le actionable (filter active s.players) in
    elim (Bool-cases (is_river s.phase)) [
      | inl last ↦
          rw last
            (shows (omega (arith, one, fewer, not_one)) (omega (arith, one)) refl last refl matched)
      | inr early ↦ rw early (runs_out not_one (omega (arith, one)) refl refl matched)
    ]

module _ (seat : ℕ) (here : seat ≤ 8) (s : BettingState) where
  set_actor-Ended :
      {t : BettingState}
      → s.status ≡ betting
      → All (λ p. p.seat ≤ 8) s.players
      → length (filter active s.players) ≢ 1
      → set_actor s (next_pending_actor s seat) ≡ ok t
      → Ended seat t
  unfolding next_pending_actor
  set_actor-Ended running table not_one h =
      elim (next_seat_nearest seat here s.players (is_pending s) table) [
        | inl (nobody, missed) ↦ absurd (ground (arith, missed))
        | inr (next, found, sits, nearest) ↦
            let some_live = pending-live s next s.players sits in
            let e : ok (record s { action_seat = some next }) ≡ ok _ = rw found at h in
            subst (Ended seat) (ok-injective e)
              (goes_on next (omega (arith, some_live, not_one)) running refl sits nearest)
      ]

  finish_or_advance-Ended :
      {t : BettingState}
      → s.status ≡ betting
      → All (λ p. p.seat ≤ 8) s.players
      → finish_or_advance s seat ≡ ok t
      → Ended seat t
  unfolding finish_or_advance
  finish_or_advance-Ended {t} running table h =
      let remaining = filter active s.players in
      let can_act = filter actionable remaining in
      elim (Bool-cases (length remaining == 1)) [
        | inl one ↦
            let (p, alone) = one_left remaining ((==_iff _ _).0 one) in
            let e : ok (record s {
              status = complete;
              winner_id = first_id remaining;
              action_seat = none;
            })
                ≡ ok t =
              rw one at h in
            subst (Ended seat) (ok-injective e) (wins p alone refl (ap first_id alone) refl)
        | inr more ↦ elim (Bool-cases (length can_act == 0)) [
          | inl nobody ↦
              let empty = (==_iff _ _).0 nobody in
              let e : ok (record s { status = awaiting_runout; action_seat = none }) ≡ ok t =
                rw (more, nobody) at h in
              subst (Ended seat) (ok-injective e) (
                runs_out (ground (arith, more)) (omega (arith, empty)) refl refl
                  (all_matched-Matched s (nobody-matched _ can_act empty)))
          | inr some_one ↦ elim (Bool-cases (one_matched s can_act)) [
            | inl alone ↦
                let e : ok (record s {
                  status = if is_river s.phase then showdown else awaiting_runout;
                  action_seat = none;
                })
                    ≡ ok t =
                  rw (more, some_one, alone) at h in
                subst (Ended seat) (ok-injective e)
                  (one_matched-Ended s seat (ground (arith, more)) alone)
            | inr several_left ↦ elim (Bool-cases (all (is_settled s) can_act)) [
              | inl settled ↦
                  let e : ok (close_round s) ≡ ok t =
                    rw (more, some_one, several_left, settled) at h in
                  subst (Ended seat) (ok-injective e) (
                    close_round-Ended s seat (ground (arith, more)) (ground (arith, some_one))
                      several_left settled)
              | inr unsettled ↦
                  set_actor-Ended running table (ground (arith, more))
                    (rw (more, some_one, several_left, unsettled) at h)
            ]
          ]
        ]
      ]

-- Any accepted action, at a table of seats 0 to 8, ends in one of five ways. The one player who
-- has not folded wins; or the nearest seat clockwise of a player who is short of the bet, or has not acted
-- since the last full raise, is to act; or, with two at least who can act, all of them with the bet matched
-- and having acted since, the next street is waited for; or, with one at most who can act and the bet matched,
-- the board is run out; or, on the river, with the bet matched by all who can act, the hands are shown.
pub apply_action-Ended :
    (s : BettingState) (a : Action) {p : Player} {t : BettingState}
    → All (λ q. q.seat ≤ 8) s.players
    → player_by_id s a.player_id ≡ some p
    → apply_action s a ≡ ok t
    → Ended p.seat t
apply_action-Ended s a {p} {t} table is_p h =
    let r = apply_action-Accepted s a h in
    let here =
      find?-All (λ q. q.player_id == r.actor.player_id) (λ q. q.seat ≤ 8) s.players table r.found in
    let same = same_seats s.players r.after.players (Performed-bankrolls r.found r.performed) in
    let after_table =
      seats-All (λ k. k ≤ 8) r.after.players
        (subst (All (λ k. k ≤ 8)) (sym same) (All-seats (λ k. k ≤ 8) s.players table)) in
    let is_actor : some r.actor ≡ some p = sym r.found ∙ ap (player_by_id s) r.same_id ∙ is_p in
    subst (λ q. Ended q.seat t) (some-injective is_actor)
      (finish_or_advance-Ended r.actor.seat here (record r.after { version = r.after.version + 1 })
        ((Performed-board r.performed).2 ∙ r.running) after_table r.advanced)
