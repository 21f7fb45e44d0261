-- ===== src/Showdown/Tests.antt =====
-- A hand of three with an all-in player, settled by server/poker/pots.js, server/poker/evaluator.js and
-- server/poker/showdown.js, and the theorems at it.
use x_poker.Base.{
  ℕ, ◌+◌, min, ◌≡◌, refl, ◌↔◌, Bool, true, false, none, some, List, [], ◌∷◌, ◌++◌, map, arith, ok,
  length, filter, sum_by,
}
use x_poker.Evaluator.Compare.{Evaluation, compare_evaluations}
use x_poker.Pots.Types.{Contestant, Pot}
use x_poker.Evaluator.Five.{check_cards, value_of, evaluate_five}
use x_poker.Evaluator.Best.{combinations, evaluate_holdem, evaluate_omaha4}
use x_poker.Pots.Build.{build_pots}
use x_poker.Pots.Rake.{net, rake_target, apply_rake}
use x_poker.Pots.Settle.{Rankings, winners_of, settle_pots}
use x_poker.Showdown.Finish.{odd_chip_order, nlh, settle_showdown}
use x_poker.Pots.Refusals.{Gives}
use x_poker.Pots.Conserved.{Holds, build_pots-conserves}
use x_poker.Pots.Raked.{identity, apply_rake-exact}
use x_poker.Evaluator.Order.{AtMost}
use x_poker.Pots.Settled.{AwardsAll, settle_pots-conserves}
use x_poker.Evaluator.Optimal.{Has}
use x_poker.Evaluator.Selections.{Selection, combinations_iff}
use x_poker.Evaluator.Hands.{IsBestOf, evaluate_holdem-IsBestOf}
use x_poker.Evaluator.Omaha.{omaha_hands, evaluate_omaha4-IsBestOf}
use x_poker.Showdown.Paid.{PaysOut, settle_showdown-PaysOut}
use x_poker.Pots.Winners.{unbeaten}
use x_poker.Pots.Fair.{winners_of-unbeaten}

abbrev contestant : ℕ → ℕ → ℕ → Bool → List ℕ → Contestant
contestant id seat contributed folded hole_cards = record {
  player_id = id;
  seat = seat;
  contributed = contributed;
  folded = folded;
  hole_cards = hole_cards;
}

-- Player 1 is all in for 35, players 2 and 3 are in for 101 and 80; 3 has folded.
abbrev players : List Contestant
players =
    contestant 1 0 35 false (12 ∷ 25 ∷ [])
    ∷ contestant 2 1 101 false (11 ∷ 24 ∷ [])
    ∷ contestant 3 2 80 true []
    ∷ []

abbrev main_pot : Pot
main_pot = record {
  index = 0;
  amount = 105;
  contribution_cap = 35;
  participant_ids = 1 ∷ 2 ∷ 3 ∷ [];
  eligible_ids = 1 ∷ 2 ∷ [];
  rake = 0;
  net_amount = none;
}

abbrev side_pot : Pot
side_pot = record {
  index = 1;
  amount = 90;
  contribution_cap = 80;
  participant_ids = 2 ∷ 3 ∷ [];
  eligible_ids = 2 ∷ [];
  rake = 0;
  net_amount = none;
}

abbrev pots : List Pot
pots = main_pot ∷ side_pot ∷ []

-- The side pot of 80, and 21 back to player 2.
build_pots_test : build_pots players ≡ ok (pots, (2, 21) ∷ [])
unfolding build_pots
build_pots_test = refl

-- Aces and kings on a dry board.
abbrev board : List ℕ
board = 0 ∷ 14 ∷ 28 ∷ 45 ∷ 20 ∷ []

abbrev aces : Evaluation
aces = record { category = 1; tiebreak = 12 ∷ 7 ∷ 6 ∷ 2 ∷ []; cards = 12 ∷ 25 ∷ 28 ∷ 45 ∷ 20 ∷ [] }

abbrev kings : Evaluation
kings = record { category = 1; tiebreak = 11 ∷ 7 ∷ 6 ∷ 2 ∷ []; cards = 11 ∷ 24 ∷ 28 ∷ 45 ∷ 20 ∷ [] }

evaluate_five_test : evaluate_five (12 ∷ 25 ∷ 28 ∷ 45 ∷ 20 ∷ []) ≡ ok aces
unfolding evaluate_five
evaluate_five_test = refl

-- A wheel is a straight to the five.
wheel_test : value_of (12 ∷ 13 ∷ 27 ∷ 41 ∷ 3 ∷ []) ≡ (4, 3 ∷ [])
unfolding value_of
wheel_test = refl

full_house_test : value_of (12 ∷ 25 ∷ 38 ∷ 2 ∷ 15 ∷ []) ≡ (6, 12 ∷ 2 ∷ [])
unfolding value_of
full_house_test = refl

straight_flush_test : value_of (8 ∷ 9 ∷ 10 ∷ 11 ∷ 12 ∷ []) ≡ (8, 12 ∷ [])
unfolding value_of
straight_flush_test = refl

evaluate_holdem_test : evaluate_holdem (12 ∷ 25 ∷ []) board ≡ ok (some aces)
unfolding evaluate_holdem compare_evaluations
evaluate_holdem_test = refl

abbrev rankings : Rankings
rankings = (1, some aces) ∷ (2, some kings) ∷ []

-- An odd chip goes to the first winner in order.
odd_chip_test :
    settle_pots (main_pot ∷ []) (((1, some aces) ∷ (2, some aces) ∷ []) ∷ []) (2 ∷ 3 ∷ 1 ∷ [])
    ≡ ok (
      (1, 52) ∷ (2, 53) ∷ [],
      record { pot_index = 0; board = 1; amount = 105; winner_ids = 1 ∷ 2 ∷ [] } ∷ [],
    )
unfolding settle_pots compare_evaluations
odd_chip_test = refl

odd_chip_order_test : odd_chip_order players 0 ≡ 2 ∷ 3 ∷ 1 ∷ []
unfolding odd_chip_order
odd_chip_order_test = refl

build_pots-conserves_example : Gives (Holds players) (build_pots players)
build_pots-conserves_example = build_pots-conserves players

apply_rake-exact_example :
    (raked : List Pot) × (apply_rake pots 500 3 true
      ≡ ok (raked, min (rake_target pots 500 true) 3))
    × (sum_by net raked + min (rake_target pots 500 true) 3 ≡ sum_by (λ (p : Pot). p.amount) pots)
    × (map identity raked ≡ map identity pots)
apply_rake-exact_example = apply_rake-exact pots 500 3 true (omega arith)

settle_pots-conserves_example :
    Gives (AwardsAll pots) (settle_pots pots (rankings ∷ []) (2 ∷ 3 ∷ 1 ∷ []))
settle_pots-conserves_example = settle_pots-conserves pots (rankings ∷ []) (2 ∷ 3 ∷ 1 ∷ [])

aces_win : winners_of rankings (1 ∷ 2 ∷ []) ≡ ok (1 ∷ [])
unfolding winners_of compare_evaluations
aces_win = refl

winners_of-unbeaten_example : 1 ∷ [] ≡ filter (unbeaten rankings (1 ∷ 2 ∷ [])) (1 ∷ 2 ∷ [])
winners_of-unbeaten_example = winners_of-unbeaten rankings 1 2 [] (1 ∷ []) aces_win

kings_below : AtMost (compare_evaluations kings aces)
unfolding compare_evaluations
kings_below = refl

valid_two : check_cards (12 ∷ 25 ∷ []) 2 ≡ ok tt
unfolding check_cards
valid_two = refl

valid_four : check_cards (12 ∷ 25 ∷ 11 ∷ 24 ∷ []) 4 ≡ ok tt
unfolding check_cards
valid_four = refl

valid_board : check_cards board 5 ≡ ok tt
unfolding check_cards
valid_board = refl

evaluate_holdem-IsBestOf_example :
    (b : Evaluation) × (evaluate_holdem (12 ∷ 25 ∷ []) board ≡ ok (some b))
    × IsBestOf (combinations ((12 ∷ 25 ∷ []) ++ board) 5) b
evaluate_holdem-IsBestOf_example =
    evaluate_holdem-IsBestOf (12 ∷ 25 ∷ []) board valid_two valid_board refl

evaluate_omaha4-IsBestOf_example :
    (b : Evaluation) × (evaluate_omaha4 (12 ∷ 25 ∷ 11 ∷ 24 ∷ []) board ≡ ok (some b))
    × IsBestOf (omaha_hands (12 ∷ 25 ∷ 11 ∷ 24 ∷ []) board) b
evaluate_omaha4-IsBestOf_example =
    evaluate_omaha4-IsBestOf (12 ∷ 25 ∷ 11 ∷ 24 ∷ []) board valid_four valid_board refl

abbrev pair : List ℕ
pair = 1 ∷ 3 ∷ []

combinations_iff_example :
    Has pair (combinations (1 ∷ 2 ∷ 3 ∷ []) 2)
    ↔ (Selection pair (1 ∷ 2 ∷ 3 ∷ []) × (length pair ≡ 2))
combinations_iff_example = combinations_iff (1 ∷ 2 ∷ 3 ∷ []) 2 pair

settle_showdown-PaysOut_example :
    Gives (PaysOut players) (settle_showdown nlh players (board ∷ []) 0 500 3)
settle_showdown-PaysOut_example = settle_showdown-PaysOut nlh players (board ∷ []) 0 500 3
