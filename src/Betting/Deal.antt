-- ===== src/Betting/Deal.antt =====
-- `dealStreet` and `dealRemainingBoard` of server/poker/betting.js. A card is a number.
use x_poker.Base.{
  ℕ, ◌+◌, Bool, true, false, Option, none, some, List, [], ◌++◌, map, ltb, ◌==◌, if◌then◌else◌, ok,
  ◌>>◌, assert, length, all, to_set, all_distinct,
}
use x_poker.Betting.State.{
  Street, flop, river, betting, awaiting_runout, showdown, Player, BettingState, version_conflict,
  not_awaiting_deal, unexpected_street, wrong_card_count, invalid_card, duplicate_card,
  not_awaiting_runout, Attempt, is_awaiting_deal, is_awaiting_runout, is_river, same_street,
  actionable,
}
use x_poker.Betting.Clockwise.{next_seat}

abbrev is_flop : Street → Bool
is_flop flop = true
is_flop _ = false

abbrev pub cards_of : Street → ℕ
cards_of street = if is_flop street then 3 else 1

abbrev pub expects : Option Street → Street → Bool
expects none street = false
expects (some pending) street = same_street street pending

-- `for (const player of state.players) player.streetContribution = 0n`
abbrev pub new_street : Player → Player
new_street p = record p { street_contribution = 0 }

abbrev pub has_actor : Option ℕ → Bool
has_actor none = false
has_actor (some seat) = true

-- The state once the cards are checked.
unfoldable pub open_street : BettingState → Street → List ℕ → BettingState
open_street s street cards =
    let players = map new_street s.players in
    let first = next_seat players s.button_seat actionable in
    record s {
      version = s.version + 1;
      phase = street;
      status =
          if has_actor first
          then betting
          else if is_river street
          then showdown
          else awaiting_runout;
      pending_street = none;
      board = s.board ++ cards;
      current_bet = 0;
      last_full_raise_size = s.big_blind;
      acted = [];
      players = players;
      action_seat = first;
    }

unfoldable pub deal_street : BettingState → ℕ → Street → List ℕ → Attempt BettingState
unfolding open_street
deal_street s expected_version street cards = do
  assert (expected_version == s.version) version_conflict
  assert (is_awaiting_deal s.status) not_awaiting_deal
  assert (expects s.pending_street street) unexpected_street
  assert (length cards == cards_of street) wrong_card_count
  assert (all (λ card. ltb card 52) cards) invalid_card
  assert (all_distinct (s.board ++ cards)) duplicate_card
  ok (open_street s street cards)

-- `cards.length === 5 - board.length`, which no longer board meets.
unfoldable pub deal_remaining_board : BettingState → ℕ → List ℕ → Attempt BettingState
deal_remaining_board s expected_version cards = do
  assert (expected_version == s.version) version_conflict
  assert (is_awaiting_runout s.status) not_awaiting_runout
  assert (length cards + length s.board == 5) wrong_card_count
  assert (all (λ card. ltb card 52) cards) invalid_card
  assert (length (to_set (s.board ++ cards)) == 5) duplicate_card
  ok (record s {
    version = s.version + 1;
    board = s.board ++ cards;
    phase = river;
    status = showdown;
    action_seat = none;
  })
