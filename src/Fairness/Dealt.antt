-- ===== src/Fairness/Dealt.antt =====
-- Deal plans of tables of all sizes.
use x_poker.Base.{
  ℕ, zero, suc, ◌+◌, ◌*◌, ◌%◌, ◌≤◌, ◌<◌, ◌≡◌, refl, ap, subst, List, arith, ◌==◌, if◌then◌else◌,
  lt→ltb, le→leb, ok, length,
}
use x_poker.Fairness.Plan.{
  preflop, Game, nlh, plo4, seats_from, active_seat_order, remaining, plan_boards, runout_plan,
  HoleCards, no_hole_cards, deal_rounds, DealPlan, rounds_of, deal_plan,
}
use x_poker.Fairness.Swaps.{count_card, within, within_split, count_by-append}
use x_poker.Fairness.Positions.{
  boards_positions, holes_positions, plan_positions, plan_boards-next, plan_boards-count,
}
use x_poker.Fairness.Holes.{deal_rounds-count, no_hole_cards-AllSeated, no_hole_cards-count}

length-seats_from : (first seats index more : ℕ) → length (seats_from first seats index more) ≡ more
length-seats_from first seats index zero = refl
length-seats_from first seats index (suc more) =
    ap suc (length-seats_from first seats (index + 1) more)

active_seat_order-ok :
    (seats button : ℕ)
    → 2 ≤ seats
    → seats ≤ 9
    → button < seats
    → (order : List ℕ) × (active_seat_order seats button ≡ ok order) × (length order ≡ seats)
unfolding active_seat_order
active_seat_order-ok seats button h k b = (
  seats_from (if seats == 2 then button else (button + 1) % seats) seats 0 seats,
  rw (active_seat_order, le→leb 2 seats h, le→leb seats 9 k, lt→ltb button seats b) refl,
  length-seats_from _ seats 0 seats,
)

runout_plan-ok :
    (start boards : ℕ)
    → start < 52
    → 1 ≤ boards
    → boards ≤ 2
    → start + boards * 8 ≤ 52
    → runout_plan start preflop boards
      ≡ ok (record {
        boards = (plan_boards (remaining preflop) 0 boards start).0;
        next_position = (plan_boards (remaining preflop) 0 boards start).1;
      })
unfolding runout_plan
runout_plan-ok start boards s h k fits =
    let within_deck : (plan_boards (remaining preflop) 0 boards start).1 ≤ 52 =
      omega (arith, plan_boards-next 0 boards start, fits) in
    rw
      (
        runout_plan,
        lt→ltb start 52 s,
        le→leb 1 boards h,
        le→leb boards 2 k,
        le→leb (plan_boards (remaining preflop) 0 boards start).1 52 within_deck,
      )
      refl

rounds-dealt :
    (game : Game) (order : List ℕ) (holes : HoleCards)
    → (deal_rounds (rounds_of game) order 0 holes).1 ≡ rounds_of game * length order
unfolding deal_rounds
rounds-dealt nlh order holes = omega arith
rounds-dealt plo4 order holes = omega arith

rounds-below : (game : Game) (n : ℕ) → 2 ≤ n → n ≤ 9 → rounds_of game * n ≤ 36
rounds-below nlh n h k = omega (arith, k)
rounds-below plo4 n h k = omega (arith, k)

-- With two to nine seats, a button among them and one or two boards there is a plan. It gives each position
-- of the deck, from the first up to the next one, to one hole card, burn or board card, and no other.
pub deal_plan-Deals :
    (game : Game) (seats button boards : ℕ)
    → 2 ≤ seats
    → seats ≤ 9
    → button < seats
    → 1 ≤ boards
    → boards ≤ 2
    → (plan : DealPlan) × (deal_plan game seats button boards ≡ ok plan)
      × ((k : ℕ) → count_card k (plan_positions plan) ≡ within 0 plan.next_position k)
      × (plan.next_position ≡ rounds_of game * seats + boards * 8)
unfolding deal_plan
deal_plan-Deals game seats button boards h k b l m =
    let (order, ordered, many) = active_seat_order-ok seats button h k b in
    let holes = no_hole_cards order in
    let dealt = deal_rounds (rounds_of game) order 0 holes in
    let next : dealt.1 ≡ rounds_of game * seats =
      subst (λ n. dealt.1 ≡ rounds_of game * n) many (rounds-dealt game order holes) in
    let low = rounds-below game seats h k in
    let ran =
      runout_plan-ok dealt.1 boards (omega (arith, next, low)) l m (omega (arith, next, low, m)) in
    let end = (plan_boards (remaining preflop) 0 boards dealt.1).1 in
    let total = plan_boards-next 0 boards dealt.1 in
    (
      record {
        game = game;
        seats = seats;
        button_seat = button;
        dealing_order = order;
        hole_cards = dealt.0;
        boards = (plan_boards (remaining preflop) 0 boards dealt.1).0;
        next_position = end;
      },
      rw (deal_plan, ordered, ran) refl,
      λ c.
          let split =
            count_by-append (λ x. x == c) (holes_positions dealt.0)
              (boards_positions (plan_boards (remaining preflop) 0 boards dealt.1).0) in
          let first =
            deal_rounds-count c (rounds_of game) order 0 holes (no_hole_cards-AllSeated order) in
          let none = no_hole_cards-count c order in
          let second = plan_boards-count 0 boards dealt.1 c in
          let joined = within_split 0 dealt.1 end c (omega arith) (omega (arith, total)) in
          omega (arith, split, first, none, second, joined),
      omega (arith, total, next),
    )
