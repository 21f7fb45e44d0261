-- ===== src/Betting/Create.antt =====
-- `createBettingState` of server/poker/betting.js: the checks, the forced bets and the first actor.
use x_poker.Base.{
  ℕ, ◌-◌, ◌*◌, Bool, true, false, ◌&&◌, Option, none, some, List, [], ◌∷◌, map, ltb, leb, ◌==◌,
  if◌then◌else◌, ok, err, ◌>>=◌, ◌>>◌, assert, or_fail, length, find?, any, modify_first,
  all_distinct,
}
use x_poker.Betting.State.{
  Game, unknown_game, preflop, betting, Player, Straddle, BettingState, bad_game, bad_player_count,
  duplicate_player, duplicate_seat, button_not_active, bad_small_blind, bad_big_blind, bad_stack,
  bad_seat, straddle_needs_three, straddle_too_small, straddle_wrong_seat, straddle_not_covered,
  type_error, Attempt, active, actionable,
}
use x_poker.Betting.Clockwise.{next_seat}
use x_poker.Betting.Chips.{post_forced_bet, post_ante}
use x_poker.Betting.Advance.{finish_or_advance}

pub record Seating : Type 0 where
  pub player_id : ℕ
  pub seat : ℕ
  pub stack : ℕ

-- The argument of `createBettingState`. An absent ante is 0.
pub record Setup : Type 0 where
  pub hand_id : ℕ
  pub game : Game
  pub players : List Seating
  pub button_seat : ℕ
  pub small_blind : ℕ
  pub big_blind : ℕ
  pub ante : ℕ
  pub straddle : Option Straddle

abbrev pub is_known_game : Game → Bool
is_known_game unknown_game = false
is_known_game _ = true

-- The loop of assertions over the players.
unfoldable pub check_players : List Seating → Attempt (Unit {0})
check_players [] = ok tt
check_players (p ∷ ps) = do
  assert (ltb 0 p.stack) bad_stack
  assert (leb p.seat 8) bad_seat
  check_players ps

unfoldable pub check_setup : Setup → Attempt (Unit {0})
unfolding check_players
check_setup c = do
  assert (is_known_game c.game) bad_game
  assert (leb 2 (length c.players) && leb (length c.players) 9) bad_player_count
  assert (all_distinct (map (λ (p : Seating). p.player_id) c.players)) duplicate_player
  assert (all_distinct (map (λ (p : Seating). p.seat) c.players)) duplicate_seat
  assert (any (λ (p : Seating). p.seat == c.button_seat) c.players) button_not_active
  assert (ltb 0 c.small_blind) bad_small_blind
  assert (leb c.small_blind c.big_blind) bad_big_blind
  check_players c.players

abbrev pub sit : Seating → Player
sit p = record {
  player_id = p.player_id;
  seat = p.seat;
  stack = p.stack;
  street_contribution = 0;
  contributed = 0;
  folded = false;
  all_in = false;
}

abbrev pub anyone : Player → Bool
anyone p = true

abbrev pub at_seat : ℕ → Player → Bool
at_seat seat p = p.seat == seat

-- The write to the player that `players.find((player) => player.seat === seat)` returns: a property
-- read of `undefined` throws.
unfoldable pub force_bet : ℕ → ℕ → List Player → Attempt (List Player)
unfolding post_forced_bet
force_bet seat amount players =
    if any (at_seat seat) players
    then ok (modify_first (at_seat seat) (post_forced_bet amount) players)
    else err type_error

abbrev pub initial_state : Setup → List Player → ℕ → ℕ → BettingState
initial_state c players small_seat big_seat = record {
  version = 0;
  hand_id = c.hand_id;
  game = c.game;
  phase = preflop;
  status = betting;
  pending_street = none;
  button_seat = c.button_seat;
  small_blind = c.small_blind;
  big_blind = c.big_blind;
  ante = c.ante;
  current_bet = c.big_blind;
  last_full_raise_size = c.big_blind;
  acted = [];
  action_seat = none;
  board = [];
  winner_id = none;
  players = players;
  small_blind_seat = small_seat;
  big_blind_seat = big_seat;
  straddle = none;
}

unfoldable pub same_seat : Option ℕ → ℕ → Bool
same_seat none seat = false
same_seat (some expected) seat = seat == expected

-- The live straddle: the state afterwards, and the seat of the last forced bet.
unfoldable pub post_straddle : BettingState → Option Straddle → Attempt (BettingState × ℕ)
unfolding same_seat force_bet
post_straddle s none = ok (s, s.big_blind_seat)
post_straddle s (some st) = do
  assert (leb 3 (length s.players)) straddle_needs_three
  assert (leb (s.big_blind * 2) st.amount) straddle_too_small
  assert (same_seat (next_seat s.players s.big_blind_seat active) st.seat) straddle_wrong_seat
  straddler ← or_fail (find? (at_seat st.seat) s.players) type_error
  assert (leb st.amount straddler.stack) straddle_not_covered
  players ← force_bet st.seat st.amount s.players
  ok (
    record s {
      players = players;
      straddle = some st;
      current_bet = st.amount;
      last_full_raise_size = st.amount - s.big_blind;
    },
    st.seat,
  )

abbrev pub can_open : BettingState → Bool
can_open s = elim (find? (at_seat s.small_blind_seat) s.players) [
  | none ↦ false
  | some p ↦ actionable p
]

-- The first actor: heads-up the small blind, otherwise the first live seat after the forced bets.
abbrev pub first_to_act : BettingState → ℕ → Option ℕ
first_to_act s last_forced =
    if (length s.players == 2) && can_open s
    then some s.small_blind_seat
    else next_seat s.players last_forced actionable

abbrev pub open_at : BettingState → Option ℕ → Attempt BettingState
open_at s none = finish_or_advance s s.big_blind_seat
open_at s (some seat) = ok (record s { action_seat = some seat })

unfoldable pub open_action : BettingState → ℕ → Attempt BettingState
open_action s last_forced = open_at s (first_to_act s last_forced)

abbrev pub ante_up : ℕ → List Player → List Player
ante_up ante players = if ltb 0 ante then map (post_ante ante) players else players

-- What follows the checks.
unfoldable pub deal_in : Setup → Attempt BettingState
unfolding post_straddle open_action force_bet
deal_in c = do
  let players = ante_up c.ante (map sit c.players)
  small_seat ←
      or_fail
        (if length c.players == 2
          then some c.button_seat
          else next_seat players c.button_seat anyone)
        type_error
  big_seat ← or_fail (next_seat players small_seat anyone) type_error
  after_small ← force_bet small_seat c.small_blind players
  after_big ← force_bet big_seat c.big_blind after_small
  (straddled, last_forced) ←
      post_straddle (initial_state c after_big small_seat big_seat) c.straddle
  open_action straddled last_forced

unfoldable pub create_betting_state : Setup → Attempt BettingState
unfolding check_setup deal_in
create_betting_state c = do check_setup c; deal_in c
