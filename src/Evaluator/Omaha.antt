-- ===== src/Evaluator/Omaha.antt =====
-- `evaluateOmaha4` of server/poker/evaluator.js gives the best hand of two hole cards and three board
-- cards.
-- The hands of `evaluateOmaha4`.
use x_poker.Base.{
  ℕ, zero, suc, ◌≤◌, ◌≡◌, refl, sym, ap, subst, ◌∙◌, ◌↔◌, inl, inr, true, some, List, [], ◌∷◌, ◌++◌,
  map, arith, ok, length, take, length-append, all_distinct,
}
use x_poker.Evaluator.Compare.{Evaluation}
use x_poker.Evaluator.Five.{check_cards}
use x_poker.Evaluator.Best.{combinations, with_boards, evaluate_omaha4}
use x_poker.Evaluator.Optimal.{Has}
use x_poker.Evaluator.Selections.{
  Selection, nil-Selection, Has-left, Has-right, Has-append, combinations_iff,
}
use x_poker.Evaluator.Valid.{IsValid, check_cards-inverse, check_cards-Selection, Selection-append}
use x_poker.Evaluator.Hands.{Valid, All-Has, IsBestOf, IsBestOf-hands, hole_board-IsValid}

abbrev pub omaha_hands : List ℕ → List ℕ → List (List ℕ)
omaha_hands hole_cards board = with_boards (combinations hole_cards 2) (combinations board 3)

Has-map_append :
    (hole hand : List ℕ) (boards : List (List ℕ))
    → Has hand (map (λ board. hole ++ board) boards)
      ↔ ((three : List ℕ) × Has three boards × (hand ≡ hole ++ three))
Has-map_append hole hand [] = (λ h. elim h [ ], λ (three, h, e). elim h [ ])
Has-map_append hole hand (b ∷ bs) = (
  λ h. elim h [
    | inl e ↦ (b, inl refl, sym e)
    | inr there ↦ let (three, k, e) = (Has-map_append hole hand bs).0 there in (three, inr k, e)
  ],
  λ (three, h, e). elim h [
    | inl same ↦ inl (ap (λ l. hole ++ l) same ∙ sym e)
    | inr there ↦ inr ((Has-map_append hole hand bs).1 (three, there, e))
  ],
)

-- The hands are each pair with each three.
with_boards_iff :
    (hand : List ℕ) (holes boards : List (List ℕ))
    → Has hand (with_boards holes boards) ↔ (
        (two : List ℕ) × (three : List ℕ) × Has two holes
        × Has three boards
        × (hand ≡ two ++ three))
unfolding with_boards
with_boards_iff hand [] boards = (λ h. elim h [ ], λ (two, three, h, k, e). elim h [ ])
with_boards_iff hand (hole ∷ holes) boards = (
  λ h. elim (Has-append hand (map (λ board. hole ++ board) boards) (with_boards holes boards) h) [
    | inl here ↦
        let (three, k, e) = (Has-map_append hole hand boards).0 here in
        (hole, three, inl refl, k, e)
    | inr there ↦
        let (two, three, j, k, e) = (with_boards_iff hand holes boards).0 there in
        (two, three, inr j, k, e)
  ],
  λ (two, three, h, k, e). elim h [
    | inl same ↦
        Has-left hand (map (λ board. hole ++ board) boards) (with_boards holes boards)
          ((Has-map_append hole hand boards).1 (three, k, e ∙ ap (λ l. l ++ three) (sym same)))
    | inr there ↦
        Has-right hand (map (λ board. hole ++ board) boards) (with_boards holes boards)
          ((with_boards_iff hand holes boards).1 (two, three, there, k, e))
  ],
)

-- The hands of Omaha are exactly two of the hole cards, in order, before three of the board.
omaha_hands_iff :
    (hole_cards board hand : List ℕ)
    → Has hand (omaha_hands hole_cards board) ↔ (
        (two : List ℕ) × (three : List ℕ) × Selection two hole_cards
        × (length two ≡ 2)
        × Selection three board
        × (length three ≡ 3)
        × (hand ≡ two ++ three))
omaha_hands_iff hole_cards board hand =
    let (split, join) = with_boards_iff hand (combinations hole_cards 2) (combinations board 3) in
    (
      λ h.
          let (two, three, j, k, e) = split h in
          let (from_hole, size) = (combinations_iff hole_cards 2 two).0 j in
          let (from_board, size') = (combinations_iff board 3 three).0 k in
          (two, three, from_hole, size, from_board, size', e),
      λ (two, three, from_hole, size, from_board, size', e). join (
        two,
        three,
        (combinations_iff hole_cards 2 two).1 (from_hole, size),
        (combinations_iff board 3 three).1 (from_board, size'),
        e,
      ),
    )

take-Selection : (n : ℕ) (xs : List ℕ) → Selection (take n xs) xs
take-Selection zero xs = nil-Selection xs
take-Selection (suc n) [] = refl
take-Selection (suc n) (x ∷ xs) = inr (take n xs, refl, take-Selection n xs)

length-take-le : (n : ℕ) (xs : List ℕ) → n ≤ length xs → length (take n xs) ≡ n
length-take-le zero xs h = refl
length-take-le (suc n) [] h = omega (arith, h)
length-take-le (suc n) (x ∷ xs) h = ap suc (length-take-le n xs (omega (arith, h)))

omaha_hand-Valid :
    (hole_cards board hand : List ℕ)
    → IsValid (hole_cards ++ board)
    → Has hand (omaha_hands hole_cards board)
    → Valid hand
omaha_hand-Valid hole_cards board hand valid there =
    let (two, three, from_hole, size, from_board, size', e) =
      (omaha_hands_iff hole_cards board hand).0 there in
    let inside = Selection-append two hole_cards three board from_hole from_board in
    let five : length hand ≡ 5 =
      ap length e ∙ omega (arith, length-append two three, size, size') in
    subst (λ n. check_cards hand n ≡ ok tt) five
      (check_cards-Selection hand (hole_cards ++ board)
        (subst (λ l. Selection l (hole_cards ++ board)) (sym e) inside) valid)

-- Four different valid hole cards and five board cards, none of them among the hole cards, are evaluated:
-- the result is the evaluation of some two of the hole cards with some three of the board, and no two with
-- three are better.
pub evaluate_omaha4-IsBestOf :
    (hole_cards board : List ℕ)
    → check_cards hole_cards 4 ≡ ok tt
    → check_cards board 5 ≡ ok tt
    → all_distinct (hole_cards ++ board) ≡ true
    → (b : Evaluation) × (evaluate_omaha4 hole_cards board ≡ ok (some b))
      × IsBestOf (omaha_hands hole_cards board) b
unfolding evaluate_omaha4
evaluate_omaha4-IsBestOf hole_cards board h k d =
    let hands = omaha_hands hole_cards board in
    let valid = hole_board-IsValid hole_cards board 4 h k d in
    let (four, _) = check_cards-inverse hole_cards 4 h in
    let (five, _) = check_cards-inverse board 5 k in
    let there = (omaha_hands_iff hole_cards board (take 2 hole_cards ++ take 3 board)).1 (
      take 2 hole_cards,
      take 3 board,
      take-Selection 2 hole_cards,
      length-take-le 2 hole_cards (omega (arith, four)),
      take-Selection 3 board,
      length-take-le 3 board (omega (arith, five)),
      refl,
    ) in
    let (b, found, is_best) =
      IsBestOf-hands hands (take 2 hole_cards ++ take 3 board)
        (All-Has hands (λ hand inside. omaha_hand-Valid hole_cards board hand valid inside))
        there in
    (b, rw (h, k, d) found, is_best)
