-- ===== src/Pots/Settled.antt =====
-- `settlePots` of server/poker/pots.js ends in an error that is no failed check, or it awards all chips.
use x_poker.Base.{
  ℕ, ◌+◌, ◌-◌, ◌/◌, ◌%◌, ◌≡◌, ◌&&◌, List, [], ◌∷◌, arith, ltb, leb, ◌==◌, if◌then◌else◌, ok,
  or_fail, length, filter, includes, sum_by, Amounts, total, all_distinct,
}
use x_poker.Pots.Types.{
  Pot, no_pots, bad_board_count, duplicate_order, missing_rank, division_by_zero,
  unconserved_settlement,
}
use x_poker.Pots.Rake.{net}
use x_poker.Pots.Settle.{
  Rankings, Detail, rank_for, rank_all, best_ids, winners_of, ordered_winners, award_board,
  award_boards, award_pots, settle_pots,
}
use x_poker.Pots.Refusals.{
  Gives, Gives-bind, Gives-assert, Gives-check, Gives-or_fail, Gives-if, Gives-map,
}
use x_poker.Pots.Awards.{award_pots-total}

rank_all-Gives : (rankings : Rankings) (ids : List ℕ) → Gives (λ _. Unit) (rank_all rankings ids)
unfolding rank_all
rank_all-Gives rankings [] = tt
rank_all-Gives rankings (id ∷ ids) =
    Gives-bind _ _ (or_fail (rank_for rankings id) missing_rank) _
      (Gives-or_fail (rank_for rankings id) missing_rank tt)
      (λ rank _.
        Gives-bind (λ _. Unit) _ (rank_all rankings ids) _ (rank_all-Gives rankings ids)
          (λ rest _. tt))

winners_of-Gives :
    (rankings : Rankings) (ids : List ℕ) → Gives (λ _. Unit) (winners_of rankings ids)
unfolding winners_of
winners_of-Gives rankings [] = tt
winners_of-Gives rankings (id ∷ []) = tt
winners_of-Gives rankings (i ∷ j ∷ ids) =
    Gives-bind (λ _. Unit) _ (rank_all rankings (i ∷ j ∷ ids)) (λ ranked. ok (best_ids ranked))
      (rank_all-Gives rankings (i ∷ j ∷ ids)) (λ r _. tt)

ordered_winners-Gives : (winners order : List ℕ) → Gives (λ _. Unit) (ordered_winners winners order)
unfolding ordered_winners
ordered_winners-Gives winners order =
    Gives-if _ (length (filter (includes winners) order) == length winners) _ _ tt tt

award_board-Gives :
    (pot : Pot) (board amount : ℕ) (rankings : Rankings) (order : List ℕ)
    (acc : Amounts × List Detail)
    → Gives (λ _. Unit) (award_board pot board amount rankings order acc)
unfolding award_board
award_board-Gives pot board amount rankings order (awards, details) =
    Gives-bind (λ _. Unit) _ (winners_of rankings pot.eligible_ids) _
      (winners_of-Gives rankings pot.eligible_ids)
      (λ winners _. Gives-assert _ (ltb 0 (length winners)) division_by_zero _ tt λ _.
        Gives-bind _ _ (ordered_winners winners order) _ (ordered_winners-Gives winners order)
          (λ ordered _. tt))

award_boards-Gives :
    (pot : Pot) (board base remainder : ℕ) (rankings : List Rankings) (order : List ℕ)
    (acc : Amounts × List Detail)
    → Gives (λ _. Unit) (award_boards pot board base remainder rankings order acc)
unfolding award_boards
award_boards-Gives pot board base remainder [] order acc = tt
award_boards-Gives pot board base remainder (r ∷ rs) order acc =
    let share = base + (if ltb 0 remainder then 1 else 0) in
    Gives-bind (λ _. Unit) _ (award_board pot board share r order acc) _
      (award_board-Gives pot board share r order acc)
      (λ next _. award_boards-Gives pot (board + 1) base (remainder - 1) rs order next)

award_pots-Gives :
    (pots : List Pot) (rankings : List Rankings) (order : List ℕ) (acc : Amounts × List Detail)
    → Gives (λ _. Unit) (award_pots pots rankings order acc)
unfolding award_pots
award_pots-Gives [] rankings order acc = tt
award_pots-Gives (p ∷ ps) rankings order acc =
    let boards = length rankings in
    Gives-bind (λ _. Unit) _ (award_boards p 1 (net p / boards) (net p % boards) rankings order acc)
      _ (award_boards-Gives p 1 (net p / boards) (net p % boards) rankings order acc)
      (λ next _. award_pots-Gives ps rankings order next)

-- The awards are what the pots hold after rake.
abbrev pub AwardsAll : List Pot → Amounts × List Detail → Type 0
AwardsAll pots r = total r.0 ≡ sum_by net pots

-- "Settlement failed conservation check" is never thrown: whatever the pots, rankings and order of odd
-- chips, `settlePots` ends in one of its other errors, or it awards exactly what the pots hold after rake.
pub settle_pots-conserves :
    (pots : List Pot) (rankings : List Rankings) (odd_chip_order : List ℕ)
    → Gives (AwardsAll pots) (settle_pots pots rankings odd_chip_order)
unfolding settle_pots
settle_pots-conserves pots rankings odd_chip_order =
    let awarded = award_pots pots rankings odd_chip_order ([], []) in
    Gives-assert _ (ltb 0 (length pots)) no_pots _ tt λ _.
      Gives-assert _ (leb 1 (length rankings) && leb (length rankings) 2) bad_board_count _ tt
        λ boards. Gives-assert _ (all_distinct odd_chip_order) duplicate_order _ tt λ _.
          Gives-bind _ _ awarded _
            (Gives-map _ _ awarded (award_pots-Gives pots rankings odd_chip_order ([], [])) (λ r h.
              omega (
                arith,
                award_pots-total pots rankings odd_chip_order ([], []) (ground (arith, boards)) h,
              )))
            (λ r whole. Gives-check _ (total r.0) _ unconserved_settlement _ whole whole)
