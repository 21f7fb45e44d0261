-- ===== src/Pots/Types.antt =====
-- The data of server/poker/pots.js and server/poker/showdown.js.
-- A player of a finished hand.
use x_poker.Base.{ℕ, ◌+◌, Bool, Option, List, [], ◌∷◌, ◌==◌, if◌then◌else◌, Result, Amounts}

pub record Contestant : Type 0 where
  pub player_id : ℕ
  pub seat : ℕ
  pub contributed : ℕ
  pub folded : Bool
  pub hole_cards : List ℕ

-- `rake` and `netAmount` are set by `applyRake`.
pub record Pot : Type 0 where
  pub index : ℕ
  pub amount : ℕ
  pub contribution_cap : ℕ
  pub participant_ids : List ℕ
  pub eligible_ids : List ℕ
  pub rake : ℕ
  pub net_amount : Option ℕ

-- The errors of the settlement and of the evaluator; `division_by_zero` is what a bigint division throws.
pub data SettleError : Type 0 where
  too_few_players duplicate_player no_eligible_player unconserved_pots : SettleError
  bad_rake unconserved_rake : SettleError
  no_pots bad_board_count duplicate_order missing_rank incomplete_order division_by_zero :
      SettleError
  unconserved_settlement unconserved_showdown : SettleError
  unknown_game bad_boards bad_hole_cards not_uncontested : SettleError
  wrong_card_count invalid_card duplicate_card : SettleError

abbrev pub Outcome : Type 0 → Type 0
Outcome A = Result SettleError A

-- `addAmount`
abbrev pub add_amount : ℕ → ℕ → Amounts → Amounts
add_amount id amount [] = (id, amount) ∷ []
add_amount id amount (e ∷ m) =
    if e.0 == id then (id, e.1 + amount) ∷ m else e ∷ add_amount id amount m
