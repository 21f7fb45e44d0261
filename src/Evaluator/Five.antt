-- ===== src/Evaluator/Five.antt =====
-- `evaluateFive` of server/poker/evaluator.js. A card is a number below 52, with its rank modulo 13 and
-- its suit by division.
-- `assertCardIds`: a card of the model is a number, so it is an integer of at least 0.
use x_poker.Base.{
  ℕ, zero, suc, ◌+◌, ◌-◌, ◌/◌, ◌%◌, Bool, true, false, not, ◌&&◌, Option, none, some, List, [], ◌∷◌,
  map, ltb, leb, ◌==◌, if◌then◌else◌, ok, ◌>>◌, assert, length, find?, filter, all, any, includes,
  Amounts, to_set, all_distinct,
}
use x_poker.Evaluator.Compare.{Evaluation}
use x_poker.Pots.Types.{wrong_card_count, invalid_card, duplicate_card, Outcome, add_amount}

unfoldable pub check_cards : List ℕ → ℕ → Outcome (Unit {0})
check_cards cards expected = do
  assert (length cards == expected) wrong_card_count
  assert (not (any (λ card. leb 52 card) cards)) invalid_card
  assert (all_distinct cards) duplicate_card

abbrev pub rank_of : ℕ → ℕ
rank_of card = card % 13

abbrev pub suit_of : ℕ → ℕ
suit_of card = card / 13

-- How often each rank comes, in a `Map`.
unfoldable pub count_ranks : List ℕ → Amounts → Amounts
count_ranks [] counts = counts
count_ranks (rank ∷ ranks) counts = count_ranks ranks (add_amount rank 1 counts)

-- The order of the groups: by count, then by rank, both falling.
abbrev pub goes_before : ℕ × ℕ → ℕ × ℕ → Bool
goes_before left right = if left.1 == right.1 then leb right.0 left.0 else ltb right.1 left.1

abbrev pub insert_group : ℕ × ℕ → Amounts → Amounts
insert_group g [] = g ∷ []
insert_group g (h ∷ hs) = if goes_before g h then g ∷ h ∷ hs else h ∷ insert_group g hs

unfoldable pub sort_groups : Amounts → Amounts
sort_groups [] = []
sort_groups (g ∷ gs) = insert_group g (sort_groups gs)

-- `sort((left, right) => right - left)`
abbrev pub insert_falling : ℕ → List ℕ → List ℕ
insert_falling x [] = x ∷ []
insert_falling x (y ∷ ys) = if leb y x then x ∷ y ∷ ys else y ∷ insert_falling x ys

unfoldable pub sort_falling : List ℕ → List ℕ
sort_falling [] = []
sort_falling (x ∷ xs) = insert_falling x (sort_falling xs)

abbrev pub run_at : List ℕ → ℕ → Bool
run_at ranks high = all (λ offset. includes ranks (high - offset)) (0 ∷ 1 ∷ 2 ∷ 3 ∷ 4 ∷ [])

-- The loop from `high = 12` down to 4, by the rounds that are left, and the wheel after it.
unfoldable pub straight_from : List ℕ → ℕ → Option ℕ
straight_from ranks zero = if all (includes ranks) (12 ∷ 0 ∷ 1 ∷ 2 ∷ 3 ∷ []) then some 3 else none
straight_from ranks (suc n) = if run_at ranks (n + 4) then some (n + 4) else straight_from ranks n

unfoldable pub straight_high : List ℕ → Option ℕ
unfolding straight_from
straight_high ranks = straight_from ranks 9

-- `groups[i][1]`, with 0 for a group that is not there; `evaluateFive` reads the second group only
-- beside a group of three of its five cards, so that there is one.
abbrev pub count_at : ℕ → Amounts → ℕ
count_at i [] = 0
count_at zero (g ∷ gs) = g.1
count_at (suc i) (g ∷ gs) = count_at i gs

abbrev pub rank_at : ℕ → Amounts → ℕ
rank_at i [] = 0
rank_at zero (g ∷ gs) = g.0
rank_at (suc i) (g ∷ gs) = rank_at i gs

-- The ranks of the groups of one size, falling.
abbrev pub ranks_of_size : ℕ → Amounts → List ℕ
ranks_of_size n groups =
    sort_falling (map (λ (g : ℕ × ℕ). g.0) (filter (λ (g : ℕ × ℕ). g.1 == n) groups))

-- `groups.find((group) => group[1] === 1)[0]`
abbrev pub first_single : Amounts → ℕ
first_single groups = elim (find? (λ (g : ℕ × ℕ). g.1 == 1) groups) [ none ↦ 0 | some g ↦ g.0 ]

abbrev pub classify_pairs : List ℕ → Amounts → List ℕ → ℕ × List ℕ
classify_pairs (high ∷ low ∷ []) groups ranks = (2, high ∷ low ∷ first_single groups ∷ [])
classify_pairs (pair ∷ []) groups ranks = (1, pair ∷ ranks_of_size 1 groups)
classify_pairs pairs groups ranks = (0, sort_falling ranks)

abbrev pub after_straights : Bool → List ℕ → Amounts → Option ℕ → ℕ × List ℕ
after_straights flush ranks groups high =
    if count_at 0 groups == 4
    then (7, rank_at 0 groups ∷ first_single groups ∷ [])
    else if (count_at 0 groups == 3) && (count_at 1 groups == 2)
    then (6, rank_at 0 groups ∷ rank_at 1 groups ∷ [])
    else if flush
    then (5, sort_falling ranks)
    else elim high [
      | some top ↦ (4, top ∷ [])
      | none ↦
          if count_at 0 groups == 3
          then (3, rank_at 0 groups ∷ ranks_of_size 1 groups)
          else classify_pairs (ranks_of_size 2 groups) groups ranks
    ]

-- The category and the tiebreak.
unfoldable pub classify : Bool → List ℕ → Amounts → Option ℕ → ℕ × List ℕ
unfolding sort_falling
classify true ranks groups (some top) = (8, top ∷ [])
classify true ranks groups none = after_straights true ranks groups none
classify false ranks groups high = after_straights false ranks groups high

unfoldable pub value_of : List ℕ → ℕ × List ℕ
unfolding classify count_ranks sort_groups straight_high
value_of cards =
    let ranks = map rank_of cards in
    classify (length (to_set (map suit_of cards)) == 1) ranks (sort_groups (count_ranks ranks []))
      (straight_high ranks)

unfoldable pub evaluate_five : List ℕ → Outcome Evaluation
unfolding check_cards value_of
evaluate_five cards = do
  check_cards cards 5
  ok (record { category = (value_of cards).0; tiebreak = (value_of cards).1; cards = cards })
