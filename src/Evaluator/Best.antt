-- ===== src/Evaluator/Best.antt =====
-- `combinations`, `best`, `evaluateHoldem` and `evaluateOmaha4` of server/poker/evaluator.js.
-- `choose`, by the number of items still to select and the items from `start` on. The bound of its loop
-- leaves out starts from which too few items remain; here these give no selection.
use x_poker.Base.{
  ℕ, zero, suc, Option, none, some, List, [], ◌∷◌, ◌++◌, map, if◌then◌else◌, ok, ◌>>=◌, ◌>>◌,
  assert, all_distinct,
}
use x_poker.Evaluator.Compare.{Evaluation, compare_evaluations, is_gt}
use x_poker.Pots.Types.{duplicate_card, Outcome}
use x_poker.Evaluator.Five.{check_cards, evaluate_five}

unfoldable pub choose : List ℕ → ℕ → List ℕ → List (List ℕ)
choose selected zero rest = selected ∷ []
choose selected (suc n) [] = []
choose selected (suc n) (x ∷ xs) = choose (selected ++ x ∷ []) n xs ++ choose selected (suc n) xs

unfoldable pub combinations : List ℕ → ℕ → List (List ℕ)
unfolding choose
combinations items count = choose [] count items

-- The `reduce` of `best`, once there is a first evaluation.
unfoldable pub better_of : Evaluation → List Evaluation → Evaluation
better_of current [] = current
better_of current (e ∷ es) =
    better_of (if is_gt (compare_evaluations e current) then e else current) es

unfoldable pub best : List Evaluation → Option Evaluation
unfolding better_of
best [] = none
best (e ∷ es) = some (better_of e es)

unfoldable pub evaluate_all : List (List ℕ) → Outcome (List Evaluation)
unfolding evaluate_five
evaluate_all [] = ok []
evaluate_all (hand ∷ hands) = do e ← evaluate_five hand; es ← evaluate_all hands; ok (e ∷ es)

-- `undefined`, where there is no hand to evaluate, is `none`.
unfoldable pub evaluate_holdem : List ℕ → List ℕ → Outcome (Option Evaluation)
unfolding check_cards combinations evaluate_all best
evaluate_holdem hole_cards board = do
  check_cards hole_cards 2
  check_cards board 5
  assert (all_distinct (hole_cards ++ board)) duplicate_card
  es ← evaluate_all (combinations (hole_cards ++ board) 5)
  ok (best es)

-- Each pair of hole cards with each three of the board.
unfoldable pub with_boards : List (List ℕ) → List (List ℕ) → List (List ℕ)
with_boards [] boards = []
with_boards (hole ∷ holes) boards = map (λ board. hole ++ board) boards ++ with_boards holes boards

unfoldable pub evaluate_omaha4 : List ℕ → List ℕ → Outcome (Option Evaluation)
unfolding check_cards combinations evaluate_all best with_boards
evaluate_omaha4 hole_cards board = do
  check_cards hole_cards 4
  check_cards board 5
  assert (all_distinct (hole_cards ++ board)) duplicate_card
  es ← evaluate_all (with_boards (combinations hole_cards 2) (combinations board 3))
  ok (best es)
