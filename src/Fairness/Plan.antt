-- ===== src/Fairness/Plan.antt =====
-- Which deck position goes where: `activeSeatOrder`, `runoutPlan` and `dealPlan` of fairness/protocol.js.
use x_poker.Base.{
  ℕ, zero, suc, ◌+◌, ◌%◌, ◌&&◌, List, [], ◌∷◌, ◌++◌, ltb, leb, ◌==◌, if◌then◌else◌, ok, assert,
  ◌>>=◌, ◌>>◌, length, modify_first,
}
use x_poker.Fairness.Fields.{
  invalid_position, invalid_seats, invalid_button, invalid_boards, deck_exhausted, Checked,
}

pub data Round : Type 0 where
  preflop flop turn river : Round

pub data Game : Type 0 where
  nlh plo4 : Game

-- `Array.from({ length }, () => position++)`, which leaves the position advanced by the length
abbrev pub positions_from : ℕ → ℕ → List ℕ
positions_from position zero = []
positions_from position (suc more) = position ∷ positions_from (position + 1) more

abbrev pub seats_from : ℕ → ℕ → ℕ → ℕ → List ℕ
seats_from first seats index zero = []
seats_from first seats index (suc more) =
    (first + index) % seats ∷ seats_from first seats (index + 1) more

-- `activeSeatOrder`
unfoldable pub active_seat_order : ℕ → ℕ → Checked (List ℕ)
active_seat_order seats button = do
  assert (leb 2 seats && leb seats 9) invalid_seats
  assert (ltb button seats) invalid_button
  let first = if seats == 2 then button else (button + 1) % seats
  ok (seats_from first seats 0 seats)

pub record Burn : Type 0 where
  pub before : Round
  pub position : ℕ

pub record BoardPlan : Type 0 where
  pub board : ℕ
  pub burns : List Burn
  pub flop_cards : List ℕ
  pub turn_cards : List ℕ
  pub river_cards : List ℕ

pub record Runout : Type 0 where
  pub boards : List BoardPlan
  pub next_position : ℕ

-- The streets that are still to be dealt.
abbrev pub remaining : Round → List Round
remaining preflop = flop ∷ turn ∷ river ∷ []
remaining flop = turn ∷ river ∷ []
remaining turn = river ∷ []
remaining river = []

abbrev pub card_count : Round → ℕ
card_count flop = 3
card_count _ = 1

-- `plan[nextStreet] = cards`; no plan has cards before the flop.
abbrev pub put_street : Round → List ℕ → BoardPlan → BoardPlan
put_street preflop cards plan = plan
put_street flop cards plan = record plan { flop_cards = cards }
put_street turn cards plan = record plan { turn_cards = cards }
put_street river cards plan = record plan { river_cards = cards }

abbrev pub new_plan : ℕ → BoardPlan
new_plan board = record {
  board = board;
  burns = [];
  flop_cards = [];
  turn_cards = [];
  river_cards = [];
}

-- The loop over the streets of a board.
unfoldable pub plan_streets : List Round → ℕ → BoardPlan → BoardPlan × ℕ
plan_streets [] position plan = (plan, position)
plan_streets (s ∷ ss) position plan =
    let burnt = record plan {
      burns = plan.burns ++ record { before = s; position = position } ∷ [];
    } in
    plan_streets ss (position + 1 + card_count s)
      (put_street s (positions_from (position + 1) (card_count s)) burnt)

-- The loop over the boards.
unfoldable pub plan_boards : List Round → ℕ → ℕ → ℕ → List BoardPlan × ℕ
unfolding plan_streets
plan_boards streets index zero position = ([], position)
plan_boards streets index (suc more) position =
    let planned = plan_streets streets position (new_plan (index + 1)) in
    let others = plan_boards streets (index + 1) more planned.1 in (planned.0 ∷ others.0, others.1)

-- `runoutPlan`
unfoldable pub runout_plan : ℕ → Round → ℕ → Checked Runout
unfolding plan_boards
runout_plan start street boards = do
  assert (ltb start 52) invalid_position
  assert (leb 1 boards && leb boards 2) invalid_boards
  let planned = plan_boards (remaining street) 0 boards start
  assert (leb planned.1 52) deck_exhausted
  ok (record { boards = planned.0; next_position = planned.1 })

-- The hole cards' positions of each seat, in the order of the deal.
abbrev pub HoleCards : Type 0
HoleCards = List (ℕ × List ℕ)

abbrev pub no_hole_cards : List ℕ → HoleCards
no_hole_cards [] = []
no_hole_cards (s ∷ ss) = (s, []) ∷ no_hole_cards ss

-- `holeCards[seat].push(position)`
abbrev pub push_card : ℕ → ℕ → HoleCards → HoleCards
push_card seat position = modify_first (λ h. h.0 == seat) (λ h. (h.0, h.1 ++ position ∷ []))

-- One round of cards, to every seat in order.
unfoldable pub deal_round : List ℕ → ℕ → HoleCards → HoleCards
deal_round [] position holes = holes
deal_round (s ∷ ss) position holes = deal_round ss (position + 1) (push_card s position holes)

unfoldable pub deal_rounds : ℕ → List ℕ → ℕ → HoleCards → HoleCards × ℕ
unfolding deal_round
deal_rounds zero order position holes = (holes, position)
deal_rounds (suc rounds) order position holes =
    deal_rounds rounds order (position + length order) (deal_round order position holes)

pub record DealPlan : Type 0 where
  pub game : Game
  pub seats : ℕ
  pub button_seat : ℕ
  pub dealing_order : List ℕ
  pub hole_cards : HoleCards
  pub boards : List BoardPlan
  pub next_position : ℕ

abbrev pub rounds_of : Game → ℕ
rounds_of nlh = 2
rounds_of plo4 = 4

-- `dealPlan`
unfoldable pub deal_plan : Game → ℕ → ℕ → ℕ → Checked DealPlan
unfolding active_seat_order deal_rounds runout_plan
deal_plan game seats button boards = do
  order ← active_seat_order seats button
  let dealt = deal_rounds (rounds_of game) order 0 (no_hole_cards order)
  runout ← runout_plan dealt.1 preflop boards
  ok (record {
    game = game;
    seats = seats;
    button_seat = button;
    dealing_order = order;
    hole_cards = dealt.0;
    boards = runout.boards;
    next_position = runout.next_position;
  })
