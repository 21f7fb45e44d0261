-- ===== src/Betting/State.antt =====
-- The state of server/poker/betting.js. Ids and seats are numbers, since they are only compared;
-- amounts (JavaScript's bigints) are numbers too, since every guard keeps them from falling below 0.
use x_poker.Base.{
  ℕ, ◌≡◌, Bool, true, false, not, ◌&&◌, Option, none, some, List, [], ◌∷◌, ◌++◌, ◌==◌,
  if◌then◌else◌, Result, find?, includes, sum_by,
}

pub data Game : Type 0 where
  nlh plo4 unknown_game : Game

-- `STREETS`
pub data Street : Type 0 where
  preflop flop turn river : Street

pub data Status : Type 0 where
  betting awaiting_deal awaiting_runout showdown complete : Status

pub record Player : Type 0 where
  pub player_id : ℕ
  pub seat : ℕ
  pub stack : ℕ
  pub street_contribution : ℕ
  pub contributed : ℕ
  pub folded : Bool
  pub all_in : Bool

pub record Straddle : Type 0 where
  pub seat : ℕ
  pub amount : ℕ

pub record BettingState : Type 0 where
  pub version : ℕ
  pub hand_id : ℕ
  pub game : Game
  pub phase : Street
  pub status : Status
  pub pending_street : Option Street
  pub button_seat : ℕ
  pub small_blind : ℕ
  pub big_blind : ℕ
  pub ante : ℕ
  pub current_bet : ℕ
  pub last_full_raise_size : ℕ
  pub acted : List ℕ
  pub action_seat : Option ℕ
  pub board : List ℕ
  pub winner_id : Option ℕ
  pub players : List Player
  pub small_blind_seat : ℕ
  pub big_blind_seat : ℕ
  pub straddle : Option Straddle

-- The messages of the module's `assert` calls, and `type_error` for a property read of `undefined`.
pub data BettingError : Type 0 where
  bad_game bad_player_count duplicate_player duplicate_seat button_not_active : BettingError
  bad_small_blind bad_big_blind bad_stack bad_seat : BettingError
  straddle_needs_three straddle_too_small straddle_wrong_seat straddle_not_covered : BettingError
  not_betting not_in_hand out_of_turn version_conflict : BettingError
  fold_illegal check_illegal call_illegal bet_illegal raise_illegal unsupported_action :
      BettingError
  exceeds_stack target_not_bigint not_increase exceeds_maximum not_reopened below_minimum :
      BettingError
  no_next_actor type_error : BettingError
  not_awaiting_deal unexpected_street wrong_card_count invalid_card duplicate_card : BettingError
  not_awaiting_runout : BettingError

abbrev pub Attempt : Type 0 → Type 0
Attempt A = Result BettingError A

abbrev pub is_betting : Status → Bool
is_betting betting = true
is_betting _ = false

abbrev pub is_awaiting_deal : Status → Bool
is_awaiting_deal awaiting_deal = true
is_awaiting_deal _ = false

abbrev pub is_awaiting_runout : Status → Bool
is_awaiting_runout awaiting_runout = true
is_awaiting_runout _ = false

abbrev pub is_river : Street → Bool
is_river river = true
is_river _ = false

-- `STREETS[STREETS.indexOf(phase) + 1]`
abbrev pub next_street : Street → Option Street
next_street preflop = some flop
next_street flop = some turn
next_street turn = some river
next_street river = none

abbrev pub same_street : Street → Street → Bool
same_street preflop preflop = true
same_street flop flop = true
same_street turn turn = true
same_street river river = true
same_street _ _ = false

-- `active`
abbrev pub active : Player → Bool
active p = not p.folded

abbrev pub actionable : Player → Bool
actionable p = not p.folded && not p.all_in

abbrev pub player_by_id : BettingState → ℕ → Option Player
player_by_id s id = find? (λ p. p.player_id == id) s.players

-- `addActed`: the list afterwards.
abbrev pub add_acted : List ℕ → ℕ → List ℕ
add_acted acted id = if includes acted id then acted else acted ++ id ∷ []

abbrev pub pot_size : BettingState → ℕ
pot_size s = sum_by (λ p. p.contributed) s.players

pub betting≢awaiting_deal : ◌≡◌ {A = Status} betting awaiting_deal → ⊥
betting≢awaiting_deal h = cc

pub betting≢showdown : ◌≡◌ {A = Status} betting showdown → ⊥
betting≢showdown h = cc
