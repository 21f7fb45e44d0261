-- ===== src/Betting/Tests.antt =====
-- A three-handed hand of server/poker/betting.js, and the theorems at it.
use x_poker.Base.{
  ℕ, ◌+◌, ◌≤◌, ◌<◌, ◌≡◌, refl, ◌≢◌, ◌⊎◌, Bool, true, false, ◌&&◌, none, some, [], ◌∷◌, arith, ◌==◌,
  err, ok, any, All,
}
use x_poker.Betting.State.{
  plo4, preflop, river, betting, awaiting_runout, showdown, Player, BettingState, exceeds_maximum,
  no_next_actor, actionable,
}
use x_poker.Betting.Clockwise.{next_seat}
use x_poker.Betting.Advance.{next_pending_actor, finish_or_advance}
use x_poker.Betting.Create.{Seating, Setup, create_betting_state}
use x_poker.Betting.Actions.{ActionKind, fold, call, raise_to, Action, apply_action, apply_timeout}
use x_poker.Betting.Deal.{deal_remaining_board}
use x_poker.Betting.Nearest.{clockwise_distance, next_seat_nearest}
use x_poker.Betting.Bankroll.{bankrolls, apply_action-bankrolls}
use x_poker.Betting.Soundness.{IsSound}
use x_poker.Betting.Progress.{timed_out, apply_timeout-accepted}
use x_poker.Betting.Raises.{is_full_raise, Rights, apply_action-Rights}
use x_poker.Betting.Limits.{Bounded, apply_action-Bounded, pot_limit}
use x_poker.Betting.Termination.{measure, rounds_left, idle, play, Plays-bounded}
use x_poker.Betting.Started.{IsNew, create_betting_state-IsNew}
use x_poker.Betting.Hand.{Reach, create, act, run_out, IsHand, Reach-IsHand}
use x_poker.Betting.Endings.{Ended}
use x_poker.Betting.Ends.{apply_action-Ended}
use x_poker.Betting.Winner.{apply_action-not_stuck}

abbrev person : ℕ → ℕ → Seating
person seat stack = record { player_id = 100 + seat; seat = seat; stack = stack }

abbrev ring : Setup
ring = record {
  hand_id = 1;
  game = plo4;
  players = person 0 100 ∷ person 1 100 ∷ person 2 35 ∷ [];
  button_seat = 0;
  small_blind = 5;
  big_blind = 10;
  ante = 0;
  straddle = none;
}

abbrev do_it : ℕ → ℕ → ActionKind → Action
do_it id version kind = record { player_id = id; expected_version = version; kind = kind }

abbrev at_table : ℕ → ℕ → ℕ → Bool → Bool → Player
at_table seat stack paid folded all_in = record {
  player_id = 100 + seat;
  seat = seat;
  stack = stack;
  street_contribution = paid;
  contributed = paid;
  folded = folded;
  all_in = all_in;
}

abbrev button_player : Player
button_player = at_table 0 100 0 false false

abbrev opened : BettingState
opened = record {
  version = 0;
  hand_id = 1;
  game = plo4;
  phase = preflop;
  status = betting;
  pending_street = none;
  button_seat = 0;
  small_blind = 5;
  big_blind = 10;
  ante = 0;
  current_bet = 10;
  last_full_raise_size = 10;
  acted = [];
  action_seat = some 0;
  board = [];
  winner_id = none;
  players = button_player ∷ at_table 1 95 5 false false ∷ at_table 2 25 10 false false ∷ [];
  small_blind_seat = 1;
  big_blind_seat = 2;
  straddle = none;
}

-- The button makes a pot-sized raise to 35, the small blind folds, the big blind calls with its last chip.
abbrev raised : BettingState
raised = record opened {
  version = 1;
  current_bet = 35;
  last_full_raise_size = 25;
  acted = 100 ∷ [];
  action_seat = some 1;
  players =
      at_table 0 65 35 false false
      ∷ at_table 1 95 5 false false
      ∷ at_table 2 25 10 false false
      ∷ [];
}

abbrev folded_once : BettingState
folded_once = record raised {
  version = 2;
  acted = 100 ∷ 101 ∷ [];
  action_seat = some 2;
  players =
      at_table 0 65 35 false false ∷ at_table 1 95 5 true false ∷ at_table 2 25 10 false false ∷ [];
}

abbrev called : BettingState
called = record folded_once {
  version = 3;
  status = awaiting_runout;
  acted = 100 ∷ 101 ∷ 102 ∷ [];
  action_seat = none;
  players =
      at_table 0 65 35 false false ∷ at_table 1 95 5 true false ∷ at_table 2 0 35 false true ∷ [];
}

abbrev shown : BettingState
shown = record called {
  version = 4;
  phase = river;
  status = showdown;
  board = 0 ∷ 1 ∷ 2 ∷ 3 ∷ 51 ∷ [];
}

-- Named by the tests that run the engine.
engine : Unit {0}
unfolding create_betting_state next_seat finish_or_advance apply_action next_pending_actor
    deal_remaining_board apply_timeout is_full_raise rounds_left measure clockwise_distance Bounded
engine = tt

opens : create_betting_state ring ≡ ok opened
unfolding engine
opens = refl

raises : apply_action opened (do_it 100 0 (raise_to (some 35))) ≡ ok raised
unfolding engine
raises = refl

folds_once : apply_action raised (do_it 101 1 fold) ≡ ok folded_once
unfolding engine
folds_once = refl

calls : apply_action folded_once (do_it 102 2 call) ≡ ok called
unfolding engine
calls = refl

runs_out : deal_remaining_board called 3 (0 ∷ 1 ∷ 2 ∷ 3 ∷ 51 ∷ []) ≡ ok shown
unfolding engine
runs_out = refl

opened_IsSound : IsSound opened
opened_IsSound = ground arith

-- One chip more than the pot is refused.
over_pot : apply_action opened (do_it 100 0 (raise_to (some 36))) ≡ err exceeds_maximum
unfolding engine
over_pot = refl

-- The hand, command by command.
opened_Reach : Reach ring opened
opened_Reach = create opens

raised-Reach : Reach ring raised
raised-Reach = act (do_it 100 0 (raise_to (some 35))) opened_Reach raises

folded_Reach : Reach ring folded_once
folded_Reach = act (do_it 101 1 fold) raised-Reach folds_once

called-Reach : Reach ring called
called-Reach = act (do_it 102 2 call) folded_Reach calls

shown_Reach : Reach ring shown
shown_Reach = run_out 3 (0 ∷ 1 ∷ 2 ∷ 3 ∷ 51 ∷ []) called-Reach runs_out

Reach-IsHand_example : IsHand ring shown
Reach-IsHand_example = Reach-IsHand ring shown_Reach

create_betting_state-IsNew_example : IsNew ring opened
create_betting_state-IsNew_example = create_betting_state-IsNew ring opens

apply_action-bankrolls_example : bankrolls raised ≡ bankrolls opened
apply_action-bankrolls_example =
    apply_action-bankrolls opened (do_it 100 0 (raise_to (some 35))) raises

apply_action-not_stuck_example : apply_action raised (do_it 101 1 fold) ≢ err no_next_actor
apply_action-not_stuck_example =
    apply_action-not_stuck raised (do_it 101 1 fold) (Reach-IsHand ring raised-Reach).sound

-- Three accepted actions of the at most 942 that the chips allow.
Plays-bounded_example : 3 + rounds_left called ≤ rounds_left opened
Plays-bounded_example = Plays-bounded opened_IsSound (
    play (do_it 102 2 call)
      (play (do_it 101 1 fold) (play (do_it 100 0 (raise_to (some 35))) idle raises) folds_once)
      calls)

apply_action-Rights_example : Rights opened button_player raised
unfolding engine
apply_action-Rights_example =
    apply_action-Rights opened (do_it 100 0 (raise_to (some 35))) {p = button_player} refl raises

apply_action-Bounded_example :
    (raised.current_bet ≡ opened.current_bet)
    ⊎ ((opened.current_bet < raised.current_bet) × Bounded opened button_player raised.current_bet)
unfolding engine
apply_action-Bounded_example =
    apply_action-Bounded opened (do_it 100 0 (raise_to (some 35))) {p = button_player} refl raises

pot_limit_example : raised.current_bet ≤ 10 + (15 + 10)
unfolding engine
pot_limit_example =
    pot_limit opened (do_it 100 0 (raise_to (some 35))) {p = button_player} refl refl (omega arith)
      raises

apply_timeout-accepted_example :
    (t : BettingState) × (apply_timeout opened 100 0 ≡ ok t)
    × (t.players ≡ timed_out opened button_player)
    × (t.current_bet ≡ 10)
    × (t.version ≡ 1)
unfolding engine
apply_timeout-accepted_example =
    apply_timeout-accepted opened 100 {p = button_player} opened_IsSound refl

next_seat_nearest_example :
    ((any actionable opened.players ≡ false) × (next_seat opened.players 2 actionable ≡ none))
    ⊎ ((seat : ℕ) × (next_seat opened.players 2 actionable ≡ some seat)
        × (any (λ p. actionable p && (p.seat == seat)) opened.players ≡ true)
        × All
            (λ q. actionable q ≡ true → clockwise_distance 2 seat ≤ clockwise_distance 2 q.seat)
            opened.players)
next_seat_nearest_example =
    next_seat_nearest 2 (omega arith) opened.players actionable (omega arith)

apply_action-Ended_example : Ended 2 called
apply_action-Ended_example =
    apply_action-Ended folded_once (do_it 102 2 call) {p = at_table 2 25 10 false false}
      (omega arith) refl calls
