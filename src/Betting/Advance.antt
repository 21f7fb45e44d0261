-- ===== src/Betting/Advance.antt =====
-- `nextPendingActor` and `finishOrAdvance` of server/poker/betting.js: what follows an action.
use x_poker.Base.{
  ℕ, Bool, false, not, ◌&&◌, ◌||◌, Option, none, some, List, [], ◌∷◌, ltb, ◌==◌, if◌then◌else◌, ok,
  err, length, filter, all, includes,
}
use x_poker.Betting.State.{
  awaiting_deal, awaiting_runout, showdown, complete, Player, BettingState, no_next_actor, Attempt,
  is_river, next_street, active, actionable,
}
use x_poker.Betting.Clockwise.{next_seat}

-- Who still has to act: one who can, and is short of the bet or has not acted since the last full raise.
abbrev pub is_pending : BettingState → Player → Bool
is_pending s p =
    actionable p && (ltb p.street_contribution s.current_bet || not (includes s.acted p.player_id))

unfoldable pub next_pending_actor : BettingState → ℕ → Option ℕ
next_pending_actor s after_seat = next_seat s.players after_seat (is_pending s)

-- `player.streetContribution === state.currentBet && state.actedSinceFullRaise.includes(...)`
abbrev pub is_settled : BettingState → Player → Bool
is_settled s p = (p.street_contribution == s.current_bet) && includes s.acted p.player_id

abbrev pub first_id : List Player → Option ℕ
first_id [] = none
first_id (p ∷ ps) = some p.player_id

-- `canAct.length === 1 && canAct[0].streetContribution === state.currentBet`
abbrev pub one_matched : BettingState → List Player → Bool
one_matched s [] = false
one_matched s (p ∷ []) = p.street_contribution == s.current_bet
one_matched s (p ∷ q ∷ ps) = false

abbrev pub close_round : BettingState → BettingState
close_round s =
    if is_river s.phase then record s { status = showdown; action_seat = none } else record s {
      status = awaiting_deal;
      pending_street = next_street s.phase;
      action_seat = none;
    }

abbrev pub set_actor : BettingState → Option ℕ → Attempt BettingState
set_actor s none = err no_next_actor
set_actor s (some seat) = ok (record s { action_seat = some seat })

unfoldable pub finish_or_advance : BettingState → ℕ → Attempt BettingState
finish_or_advance s actor_seat =
    let remaining = filter active s.players in
    let can_act = filter actionable remaining in
    if length remaining == 1
    then ok (record s { status = complete; winner_id = first_id remaining; action_seat = none })
    else if length can_act == 0
    then ok (record s { status = awaiting_runout; action_seat = none })
    else if one_matched s can_act
    then ok (record s {
      status = if is_river s.phase then showdown else awaiting_runout;
      action_seat = none;
    })
    else if all (is_settled s) can_act
    then ok (close_round s)
    else set_actor s (next_pending_actor s actor_seat)
