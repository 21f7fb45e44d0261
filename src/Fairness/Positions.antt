-- ===== src/Fairness/Positions.antt =====
-- A deal plan uses each position of the deck once, up to the next one.
use x_poker.Base.{
  ℕ, zero, suc, ◌+◌, ◌*◌, ◌≤◌, ◌≡◌, refl, List, [], ◌∷◌, ◌++◌, map, arith, ◌==◌, if◌then◌else◌,
}
use x_poker.Fairness.Plan.{
  preflop, Burn, BoardPlan, remaining, plan_streets, plan_boards, HoleCards, DealPlan,
}
use x_poker.Fairness.Swaps.{count_card, within}

abbrev pub board_positions : BoardPlan → List ℕ
board_positions plan =
    map (λ (b : Burn). b.position) plan.burns
    ++ plan.flop_cards
    ++ plan.turn_cards
    ++ plan.river_cards

abbrev pub boards_positions : List BoardPlan → List ℕ
boards_positions [] = []
boards_positions (b ∷ bs) = board_positions b ++ boards_positions bs

abbrev pub holes_positions : HoleCards → List ℕ
holes_positions [] = []
holes_positions (h ∷ hs) = h.1 ++ holes_positions hs

-- All positions of a plan: hole cards, burns and boards.
abbrev pub plan_positions : DealPlan → List ℕ
plan_positions plan = holes_positions plan.hole_cards ++ boards_positions plan.boards

abbrev pub hit : ℕ → ℕ → ℕ
hit p k = if p == k then 1 else 0

-- One position more at the front.
pub hit-within :
    (p next end k n : ℕ)
    → next ≡ p + 1
    → next ≤ end
    → n ≡ within next end k
    → hit p k + n ≡ within p end k
hit-within p next end k n e h r = ground arith

-- A board takes eight positions, three of them burns, in whatever order they are counted.
eight-within :
    (p end k n : ℕ)
    → p + 8 ≤ end
    → n ≡ within (p + 1 + 3 + 1 + 1 + 1 + 1) end k
    → hit p k
        + (hit (p + 1 + 3) k
            + (hit (p + 1 + 3 + 1 + 1) k
                + (hit (p + 1) k
                    + (hit (p + 1 + 1) k
                        + (hit (p + 1 + 1 + 1) k
                            + (hit (p + 1 + 3 + 1) k + (hit (p + 1 + 3 + 1 + 1 + 1) k + n)))))))
      ≡ within p end k
eight-within p end k n h r =
    let n7 =
      hit-within (p + 1 + 3 + 1 + 1 + 1) (p + 1 + 3 + 1 + 1 + 1 + 1) end k n refl (omega (arith, h))
        r in
    let n6 =
      hit-within (p + 1 + 3 + 1 + 1) (p + 1 + 3 + 1 + 1 + 1) end k _ refl (omega (arith, h)) n7 in
    let n5 = hit-within (p + 1 + 3 + 1) (p + 1 + 3 + 1 + 1) end k _ refl (omega (arith, h)) n6 in
    let n4 = hit-within (p + 1 + 3) (p + 1 + 3 + 1) end k _ refl (omega (arith, h)) n5 in
    let n3 = hit-within (p + 1 + 1 + 1) (p + 1 + 3) end k _ (omega arith) (omega (arith, h)) n4 in
    let n2 = hit-within (p + 1 + 1) (p + 1 + 1 + 1) end k _ refl (omega (arith, h)) n3 in
    let n1 = hit-within (p + 1) (p + 1 + 1) end k _ refl (omega (arith, h)) n2 in
    let n0 = hit-within p (p + 1) end k _ refl (omega (arith, h)) n1 in omega (arith, n0)

pub plan_boards-next :
    (index more p : ℕ) → (plan_boards (remaining preflop) index more p).1 ≡ p + more * 8
unfolding plan_boards plan_streets
plan_boards-next index zero p = omega arith
plan_boards-next index (suc more) p =
    let rest = plan_boards-next (index + 1) more (p + 1 + 3 + 1 + 1 + 1 + 1) in omega (arith, rest)

pub plan_boards-count :
    (index more p k : ℕ)
    → count_card k (boards_positions (plan_boards (remaining preflop) index more p).0)
      ≡ within p (plan_boards (remaining preflop) index more p).1 k
unfolding plan_boards plan_streets
plan_boards-count index zero p k = ground arith
plan_boards-count index (suc more) p k =
    let q = p + 1 + 3 + 1 + 1 + 1 + 1 in
    eight-within p (plan_boards (remaining preflop) (index + 1) more q).1 k _
      (omega (arith, plan_boards-next (index + 1) more q)) (plan_boards-count (index + 1) more q k)
