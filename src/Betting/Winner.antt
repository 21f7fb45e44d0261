-- ===== src/Betting/Winner.antt =====
-- An error of server/poker/betting.js that cannot come up: the betting never lacks a next actor.
use x_poker.Base.{
  ◌≡◌, sym, ◌∙◌, ◌≢◌, inl, inr, none, some, arith, ◌==◌, ==_iff, Bool-cases, err, Result-cases,
  err≢ok,
}
use x_poker.Betting.State.{Player, BettingState, no_next_actor}
use x_poker.Betting.Chips.{pay_to}
use x_poker.Betting.Actions.{
  ActionKind, fold, check, call, all_in_action, unknown_action, bet_to, raise_to, Action,
  describe_actions, find_actor, apply_increase, pay_and_mark, perform, apply_action,
}
use x_poker.Betting.Soundness.{IsSound}
use x_poker.Betting.Progress.{perform-accepted}

perform-not-stuck :
    (s : BettingState) (p : Player) (kind : ActionKind)
    → perform s p (describe_actions s p) kind ≡ err no_next_actor
    → ⊥
unfolding perform apply_increase pay_and_mark pay_to
perform-not-stuck s p fold h = ground arith
perform-not-stuck s p check h = ground arith
perform-not-stuck s p call h = ground arith
perform-not-stuck s p (bet_to none) h = ground arith
perform-not-stuck s p (bet_to (some n)) h = ground arith
perform-not-stuck s p (raise_to none) h = ground arith
perform-not-stuck s p (raise_to (some n)) h = ground arith
perform-not-stuck s p all_in_action h = ground arith
perform-not-stuck s p unknown_action h = ground arith

-- In a sound hand no action whatever runs into "Betting round has no valid next actor".
pub apply_action-not_stuck :
    (s : BettingState) (a : Action) → IsSound s → apply_action s a ≢ err no_next_actor
unfolding apply_action find_actor
apply_action-not_stuck s a v h = elim (Result-cases (find_actor s a.player_id)) [
  | inr (e, bad) ↦ ground (arith, bad)
  | inl (p, found) ↦ elim (Result-cases (perform s p (describe_actions s p) a.kind)) [
    | inr (e, bad) ↦ let other = perform-not-stuck s p a.kind in ground (arith, found, bad, other)
    | inl (after, done) ↦ elim (Bool-cases (a.expected_version == s.version)) [
      | inl same ↦
          let accepted = perform-accepted s a v ((==_iff _ _).0 same) found done in
          err≢ok (sym h ∙ accepted.1)
      | inr stale ↦ ground (arith, stale)
    ]
  ]
]
