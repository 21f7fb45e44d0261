-- ===== src/Pots/Settle.antt =====
-- `settlePots` of server/poker/pots.js.
-- A board's rankings, as a `Map` or an object from ids to evaluations; `none` is `undefined`.
use x_poker.Base.{
  ℕ, zero, suc, ◌+◌, ◌-◌, ◌/◌, ◌%◌, ◌&&◌, Option, none, List, [], ◌∷◌, ◌++◌, map, ltb, leb, ◌==◌,
  if◌then◌else◌, ok, err, ◌>>=◌, ◌>>◌, assert, or_fail, length, filter, includes, sum_by, Amounts,
  total, all_distinct,
}
use x_poker.Evaluator.Compare.{Evaluation, compare_evaluations, is_gt, is_eq}
use x_poker.Pots.Types.{
  Pot, no_pots, bad_board_count, duplicate_order, missing_rank, incomplete_order, division_by_zero,
  unconserved_settlement, Outcome, add_amount,
}
use x_poker.Evaluator.Best.{best}
use x_poker.Pots.Rake.{net}

abbrev pub Rankings : Type 0
Rankings = List (ℕ × Option Evaluation)

pub record Ranked : Type 0 where
  pub player_id : ℕ
  pub rank : Evaluation

pub record Detail : Type 0 where
  pub pot_index : ℕ
  pub board : ℕ
  pub amount : ℕ
  pub winner_ids : List ℕ

-- `rankFor`
abbrev pub rank_for : Rankings → ℕ → Option Evaluation
rank_for [] id = none
rank_for (e ∷ es) id = if e.0 == id then e.1 else rank_for es id

-- The eligible players with their ranks, all of which must be there.
unfoldable pub rank_all : Rankings → List ℕ → Outcome (List Ranked)
rank_all rankings [] = ok []
rank_all rankings (id ∷ ids) = do
  rank ← or_fail (rank_for rankings id) missing_rank
  rest ← rank_all rankings ids
  ok (record { player_id = id; rank = rank } ∷ rest)

-- The `reduce` that keeps the better of two entries, the earlier one on a tie.
unfoldable pub best_from : Evaluation → List Ranked → Evaluation
best_from best [] = best
best_from best (e ∷ es) =
    best_from (if is_gt (compare_evaluations e.rank best) then e.rank else best) es

unfoldable pub best_ids : List Ranked → List ℕ
unfolding best_from
best_ids [] = []
best_ids (e ∷ es) =
    let best = best_from e.rank es in
    map (λ (r : Ranked). r.player_id)
      (filter (λ (r : Ranked). is_eq (compare_evaluations r.rank best)) (e ∷ es))

unfoldable pub winners_of : Rankings → List ℕ → Outcome (List ℕ)
unfolding rank_all best_ids
winners_of rankings (id ∷ []) = ok (id ∷ [])
winners_of rankings ids = do ranked ← rank_all rankings ids; ok (best_ids ranked)

-- `orderedWinners`
unfoldable pub ordered_winners : List ℕ → List ℕ → Outcome (List ℕ)
ordered_winners winners odd_chip_order =
    let ordered = filter (includes winners) odd_chip_order in
    if length ordered == length winners then ok ordered else err incomplete_order

unfoldable pub add_shares : ℕ → List ℕ → Amounts → Amounts
add_shares share [] awards = awards
add_shares share (id ∷ ids) awards = add_shares share ids (add_amount id share awards)

-- One odd chip each, in order, while there are any.
unfoldable pub add_odd_chips : ℕ → List ℕ → Amounts → Amounts
add_odd_chips zero ids awards = awards
add_odd_chips (suc odd) [] awards = awards
add_odd_chips (suc odd) (id ∷ ids) awards = add_odd_chips odd ids (add_amount id 1 awards)

-- One board's part of a pot.
unfoldable pub award_board :
    Pot → ℕ → ℕ → Rankings → List ℕ → Amounts × List Detail → Outcome (Amounts × List Detail)
unfolding winners_of ordered_winners add_shares add_odd_chips
award_board pot board amount rankings odd_chip_order (awards, details) = do
  winners ← winners_of rankings pot.eligible_ids
  assert (ltb 0 (length winners)) division_by_zero
  let shared = add_shares (amount / length winners) winners awards
  ordered ← ordered_winners winners odd_chip_order
  ok (
    add_odd_chips (amount % length winners) ordered shared,
    details
        ++ record { pot_index = pot.index; board = board; amount = amount; winner_ids = winners }
          ∷ [],
  )

-- The loop over the boards: the first `remainder` of them get one chip more.
unfoldable pub award_boards :
    Pot
    → ℕ
    → ℕ
    → ℕ
    → List Rankings
    → List ℕ
    → Amounts × List Detail
    → Outcome (Amounts × List Detail)
unfolding award_board
award_boards pot board base remainder [] odd_chip_order acc = ok acc
award_boards pot board base remainder (rankings ∷ rest) odd_chip_order acc = do
  next ←
      award_board pot board (base + (if ltb 0 remainder then 1 else 0)) rankings odd_chip_order acc
  award_boards pot (board + 1) base (remainder - 1) rest odd_chip_order next

unfoldable pub award_pots :
    List Pot → List Rankings → List ℕ → Amounts × List Detail → Outcome (Amounts × List Detail)
unfolding award_boards
award_pots [] rankings odd_chip_order acc = ok acc
award_pots (pot ∷ pots) rankings odd_chip_order acc = do
  let boards = length rankings
  next ← award_boards pot 1 (net pot / boards) (net pot % boards) rankings odd_chip_order acc
  award_pots pots rankings odd_chip_order next

unfoldable pub settle_pots : List Pot → List Rankings → List ℕ → Outcome (Amounts × List Detail)
unfolding award_pots
settle_pots pots rankings odd_chip_order = do
  assert (ltb 0 (length pots)) no_pots
  assert (leb 1 (length rankings) && leb (length rankings) 2) bad_board_count
  assert (all_distinct odd_chip_order) duplicate_order
  (awards, details) ← award_pots pots rankings odd_chip_order ([], [])
  assert (total awards == sum_by net pots) unconserved_settlement
  ok (awards, details)
