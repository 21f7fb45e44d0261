-- ===== src/Showdown/Finish.antt =====
-- server/poker/showdown.js: the payouts of a hand, at a showdown or when all but one have folded.
-- Where a stable sort by seat puts one more player in front of a sorted list.
use x_poker.Base.{
  ℕ, ◌+◌, Bool, true, false, ◌&&◌, ◌||◌, Option, none, some, List, [], ◌∷◌, ◌++◌, map, ltb, leb,
  ◌==◌, if◌then◌else◌, ok, ◌>>=◌, ◌>>◌, assert, length, filter, all, take, drop, find_index?,
  sum_by, Amounts, total,
}
use x_poker.Evaluator.Compare.{Evaluation}
use x_poker.Pots.Types.{
  Contestant, Pot, unconserved_showdown, unknown_game, bad_boards, bad_hole_cards, not_uncontested,
  Outcome, add_amount,
}
use x_poker.Evaluator.Best.{evaluate_holdem, evaluate_omaha4}
use x_poker.Pots.Build.{live, build_pots}
use x_poker.Pots.Rake.{apply_rake}
use x_poker.Pots.Settle.{Rankings, Detail, settle_pots}

abbrev pub insert_seat : Contestant → List Contestant → List Contestant
insert_seat p [] = p ∷ []
insert_seat p (q ∷ qs) = if leb p.seat q.seat then p ∷ q ∷ qs else q ∷ insert_seat p qs

unfoldable pub sort_seats : List Contestant → List Contestant
sort_seats [] = []
sort_seats (p ∷ ps) = insert_seat p (sort_seats ps)

abbrev pub split_at : Option ℕ → List Contestant → List Contestant
split_at none sorted = sorted
split_at (some split) sorted = drop split sorted ++ take split sorted

-- `oddChipOrder`: the ids clockwise from the button.
unfoldable pub odd_chip_order : List Contestant → ℕ → List ℕ
unfolding sort_seats
odd_chip_order players button_seat =
    let sorted = sort_seats players in
    map (λ (p : Contestant). p.player_id)
      (split_at (find_index? (λ (p : Contestant). ltb button_seat p.seat) sorted) sorted)

-- A game's name: "NLH", "PLO4" or another.
pub data Variant : Type 0 where
  nlh plo4 other_variant : Variant

abbrev pub is_nlh : Variant → Bool
is_nlh nlh = true
is_nlh _ = false

abbrev pub is_known : Variant → Bool
is_known other_variant = false
is_known _ = true

unfoldable pub evaluate : Variant → List ℕ → List ℕ → Outcome (Option Evaluation)
unfolding evaluate_holdem evaluate_omaha4
evaluate game hole_cards board =
    if is_nlh game then evaluate_holdem hole_cards board else evaluate_omaha4 hole_cards board

-- `validatePlayers`; every seat of the model is an integer.
unfoldable pub validate_players : List Contestant → Variant → Outcome (Unit {0})
validate_players players game =
    let expected = if is_nlh game then 2 else 4 in
    assert (all (λ (p : Contestant). p.folded || length p.hole_cards == expected) players)
      bad_hole_cards

-- `for (const [playerId, amount] of refunds) add(payouts, playerId, amount)`
unfoldable pub add_refunds : Amounts → Amounts → Amounts
add_refunds [] payouts = payouts
add_refunds (e ∷ refunds) payouts = add_refunds refunds (add_amount e.0 e.1 payouts)

pub record Settled : Type 0 where
  pub payouts : Amounts
  pub refunds : Amounts
  pub total_rake : ℕ
  pub pots : List Pot
  pub details : List Detail
  pub rankings : List Rankings

unfoldable pub finalize :
    List Contestant → List Pot → Amounts → List Rankings → ℕ → ℕ → Outcome Settled
unfolding add_refunds odd_chip_order settle_pots
finalize players pots refunds rankings button_seat total_rake = do
  (awards, details) ← settle_pots pots rankings (odd_chip_order players button_seat)
  let payouts = add_refunds refunds awards
  assert (total payouts + total_rake == sum_by (λ (p : Contestant). p.contributed) players)
      unconserved_showdown
  ok (record {
    payouts = payouts;
    refunds = refunds;
    total_rake = total_rake;
    pots = pots;
    details = details;
    rankings = rankings;
  })

-- The evaluations of the live players on one board.
unfoldable pub rank_board : Variant → List ℕ → List Contestant → Outcome Rankings
unfolding evaluate
rank_board game board [] = ok []
rank_board game board (p ∷ ps) = do
  e ← evaluate game p.hole_cards board
  rest ← rank_board game board ps
  ok ((p.player_id, e) ∷ rest)

unfoldable pub rank_boards : Variant → List (List ℕ) → List Contestant → Outcome (List Rankings)
unfolding rank_board
rank_boards game [] players = ok []
rank_boards game (board ∷ boards) players = do
  rankings ← rank_board game board (filter live players)
  rest ← rank_boards game boards players
  ok (rankings ∷ rest)

unfoldable pub settle_showdown :
    Variant → List Contestant → List (List ℕ) → ℕ → ℕ → ℕ → Outcome Settled
unfolding validate_players build_pots apply_rake rank_boards finalize
settle_showdown game players boards button_seat rake_bps rake_cap = do
  assert (is_known game) unknown_game
  assert (leb 1 (length boards) && leb (length boards) 2 && all (λ board. length board == 5) boards)
      bad_boards
  validate_players players game
  (pots, refunds) ← build_pots players
  (raked, total_rake) ← apply_rake pots rake_bps rake_cap true
  rankings ← rank_boards game boards players
  finalize players raked refunds rankings button_seat total_rake

unfoldable pub settle_uncontested : List Contestant → ℕ → Bool → ℕ → ℕ → Outcome Settled
unfolding build_pots apply_rake finalize
settle_uncontested players button_seat flop_dealt rake_bps rake_cap = do
  assert (length (filter live players) == 1) not_uncontested
  (pots, refunds) ← build_pots players
  (raked, total_rake) ← apply_rake pots rake_bps rake_cap flop_dealt
  finalize players raked refunds ([] ∷ []) button_seat total_rake
