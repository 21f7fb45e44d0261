-- ===== src/Fairness/Holes.antt =====
-- The rounds of hole cards use each position once.
-- A seat that is dealt to.
use x_poker.Base.{
  ℕ, zero, suc, ◌+◌, ◌≤◌, ◌≡◌, refl, ap, ◌∙◌, inl, inr, Bool, true, List, [], ◌∷◌, ◌++◌, arith,
  ◌==◌, Bool-cases, length, any, All, All-map,
}
use x_poker.Fairness.Plan.{HoleCards, no_hole_cards, push_card, deal_round, deal_rounds}
use x_poker.Fairness.Swaps.{count_card, within, within_split, count_by-append}
use x_poker.Fairness.Positions.{holes_positions, hit, hit-within}

abbrev pub seated : ℕ → HoleCards → Bool
seated seat = any (λ h. h.0 == seat)

push_card-seated :
    (seat other p : ℕ) (holes : HoleCards)
    → seated other (push_card seat p holes) ≡ seated other holes
push_card-seated seat other p [] = refl
push_card-seated seat other p (h ∷ hs) = ground (arith, push_card-seated seat other p hs)

push_card-count :
    (k seat p : ℕ) (holes : HoleCards)
    → seated seat holes ≡ true
    → count_card k (holes_positions (push_card seat p holes))
      ≡ count_card k (holes_positions holes) + hit p k
push_card-count k seat p [] h = cc
push_card-count k seat p (e ∷ holes) h =
    let test = λ (x : ℕ). x == k in
    elim (Bool-cases (e.0 == seat)) [
      | inl here ↦
          let pushed = count_by-append test (e.1 ++ p ∷ []) (holes_positions holes) in
          let grown = count_by-append test e.1 (p ∷ []) in
          let whole = count_by-append test e.1 (holes_positions holes) in
          rw here (omega (arith, pushed, grown, whole))
      | inr there ↦
          let rest = push_card-count k seat p holes (ground (arith, h, there)) in
          let after = count_by-append test e.1 (holes_positions (push_card seat p holes)) in
          let whole = count_by-append test e.1 (holes_positions holes) in
          rw there (omega (arith, after, whole, rest))
    ]

abbrev pub AllSeated : List ℕ → HoleCards → Type 0
AllSeated order holes = All (λ s. seated s holes ≡ true) order

push_card-AllSeated :
    (seat p : ℕ) (holes : HoleCards) (order : List ℕ)
    → AllSeated order holes
    → AllSeated order (push_card seat p holes)
push_card-AllSeated seat p holes order a =
    All-map order (λ s h. push_card-seated seat s p holes ∙ h) a

deal_round-count :
    (k : ℕ) (order : List ℕ) (p : ℕ) (holes : HoleCards)
    → AllSeated order holes
    → count_card k (holes_positions (deal_round order p holes))
      ≡ count_card k (holes_positions holes) + within p (p + length order) k
unfolding deal_round
deal_round-count k [] p holes a =
    let none_more : within p (p + 0) k ≡ 0 = ground arith in omega (arith, none_more)
deal_round-count k (s ∷ ss) p holes a =
    let pushed = push_card-count k s p holes a.0 in
    let rest =
      deal_round-count k ss (p + 1) (push_card s p holes) (push_card-AllSeated s p holes ss a.1) in
    let front = hit-within p (p + 1) (p + 1 + length ss) k _ refl (omega arith) refl in
    let end : within p (p + 1 + length ss) k ≡ within p (p + suc (length ss)) k =
      ap (λ e. within p e k) (omega arith) in
    omega (arith, pushed, rest, front, end)

deal_round-AllSeated :
    (order seats : List ℕ) (p : ℕ) (holes : HoleCards)
    → AllSeated seats holes
    → AllSeated seats (deal_round order p holes)
unfolding deal_round
deal_round-AllSeated [] seats p holes a = a
deal_round-AllSeated (s ∷ ss) seats p holes a =
    deal_round-AllSeated ss seats (p + 1) (push_card s p holes)
      (push_card-AllSeated s p holes seats a)

deal_rounds-le :
    (rounds : ℕ) (order : List ℕ) (p : ℕ) (holes : HoleCards)
    → p ≤ (deal_rounds rounds order p holes).1
unfolding deal_rounds
deal_rounds-le zero order p holes = omega arith
deal_rounds-le (suc rounds) order p holes =
    omega (arith, deal_rounds-le rounds order (p + length order) (deal_round order p holes))

pub deal_rounds-count :
    (k rounds : ℕ) (order : List ℕ) (p : ℕ) (holes : HoleCards)
    → AllSeated order holes
    → count_card k (holes_positions (deal_rounds rounds order p holes).0)
      ≡ count_card k (holes_positions holes) + within p (deal_rounds rounds order p holes).1 k
unfolding deal_rounds
deal_rounds-count k zero order p holes a =
    let none_more : within p p k ≡ 0 = ground arith in omega (arith, none_more)
deal_rounds-count k (suc rounds) order p holes a =
    let q = p + length order in
    let dealt = deal_round order p holes in
    let one = deal_round-count k order p holes a in
    let rest =
      deal_rounds-count k rounds order q dealt (deal_round-AllSeated order order p holes a) in
    let joined =
      within_split p q (deal_rounds rounds order q dealt).1 k (omega arith)
        (deal_rounds-le rounds order q dealt) in
    omega (arith, one, rest, joined)

pub no_hole_cards-AllSeated : (order : List ℕ) → AllSeated order (no_hole_cards order)
no_hole_cards-AllSeated [] = tt
no_hole_cards-AllSeated (s ∷ ss) =
    (ground arith, All-map ss (λ x h. ground (arith, h)) (no_hole_cards-AllSeated ss))

pub no_hole_cards-count :
    (k : ℕ) (order : List ℕ) → count_card k (holes_positions (no_hole_cards order)) ≡ 0
no_hole_cards-count k [] = refl
no_hole_cards-count k (s ∷ ss) = no_hole_cards-count k ss
