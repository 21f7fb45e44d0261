-- ===== src/Betting/Bankroll.antt =====
-- No action of server/poker/betting.js makes or loses a chip: what a player has behind and in the pot.
-- A player's identity and chips, wherever the chips are.
use x_poker.Base.{
  ℕ, ◌+◌, ◌≤◌, ◌≡◌, refl, ap, ◌∙◌, some, List, map, arith, ◌==◌, ok, map-modify_first,
}
use x_poker.Betting.State.{Player, BettingState, player_by_id}
use x_poker.Betting.Chips.{pay}
use x_poker.Betting.Actions.{Action, apply_action}
use x_poker.Betting.Outcome.{
  Performed, folds, checks, pays, increases, finish_or_advance-Kept, apply_action-Accepted,
  raise_bet-players,
}

abbrev pub bankroll : Player → ℕ × ℕ × ℕ
bankroll p = (p.player_id, p.seat, p.stack + p.contributed)

abbrev pub bankrolls : BettingState → List (ℕ × ℕ × ℕ)
bankrolls s = map bankroll s.players

bankroll-pay : (p : Player) (n : ℕ) → n ≤ p.stack → bankroll (pay p n) ≡ bankroll p
bankroll-pay p n fits = ground arith

pub Performed-bankrolls :
    {s : BettingState} {p : Player} {after : BettingState}
    → player_by_id s p.player_id ≡ some p
    → Performed s p after
    → bankrolls after ≡ bankrolls s
Performed-bankrolls {s} {p} found (folds due e) =
    rw e (map-modify_first (λ x. x.player_id == p.player_id) bankroll _ s.players found refl)
Performed-bankrolls {s} {p} found (checks due e) = rw e refl
Performed-bankrolls {s} {p} found (pays n fits pos low whole e) = rw e (
    map-modify_first (λ x. x.player_id == p.player_id) bankroll _ s.players found
      (bankroll-pay p n fits))
Performed-bankrolls {s} {p} found (increases n fits more rights most least e) =
    rw (e, raise_bet-players)
      (map-modify_first (λ x. x.player_id == p.player_id) bankroll _ s.players found
        (bankroll-pay p n fits))

-- An accepted action keeps every player's id, seat and chips, the chips counted in the stack and in
-- the pot together, in the order of the players.
pub apply_action-bankrolls :
    (s : BettingState) (a : Action) {t : BettingState}
    → apply_action s a ≡ ok t
    → bankrolls t ≡ bankrolls s
apply_action-bankrolls s a h =
    let r = apply_action-Accepted s a h in
    let kept = finish_or_advance-Kept _ r.actor.seat r.advanced in
    ap (map bankroll) kept.players ∙ Performed-bankrolls r.found r.performed
