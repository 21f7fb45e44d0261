-- ===== src/Evaluator/Hands.antt =====
-- `evaluateHoldem` of server/poker/evaluator.js gives the best hand of five of the seven cards.
-- The evaluation of five valid cards.
use x_poker.Base.{
  ℕ, ◌≡◌, refl, ap, subst, ◌∙◌, inl, inr, true, some, List, [], ◌∷◌, ◌++◌, map, leb, ok, ◌>>=◌, All,
  all_distinct, all_distinct→Distinct, any-append,
}
use x_poker.Evaluator.Compare.{Evaluation, compare_evaluations}
use x_poker.Evaluator.Five.{check_cards, value_of, evaluate_five}
use x_poker.Evaluator.Best.{combinations, best, evaluate_all, evaluate_holdem}
use x_poker.Evaluator.Order.{AtMost}
use x_poker.Evaluator.Optimal.{Has, best-IsBest}
use x_poker.Evaluator.Selections.{nil-Selection, combinations_iff}
use x_poker.Evaluator.Valid.{
  IsValid, check_cards-inverse, check_cards-Selection, all-Selection, Selection-append,
}

abbrev evaluation : List ℕ → Evaluation
unfolding value_of
evaluation cards = record {
  category = (value_of cards).0;
  tiebreak = (value_of cards).1;
  cards = cards;
}

abbrev pub Valid : List ℕ → Type 0
Valid hand = check_cards hand 5 ≡ ok tt

evaluate_five-Valid : (hand : List ℕ) → Valid hand → evaluate_five hand ≡ ok (evaluation hand)
unfolding evaluate_five
evaluate_five-Valid hand h = rw h refl

evaluate_all-Valid :
    (hands : List (List ℕ)) → All Valid hands → evaluate_all hands ≡ ok (map evaluation hands)
unfolding evaluate_all
evaluate_all-Valid [] a = refl
evaluate_all-Valid (h ∷ hs) a = rw (evaluate_five-Valid h a.0, evaluate_all-Valid hs a.1) refl

Has-map :
    (b : Evaluation) (hands : List (List ℕ))
    → Has b (map evaluation hands)
    → (hand : List ℕ) × Has hand hands × (evaluation hand ≡ b)
Has-map b [] h = elim h [ ]
Has-map b (x ∷ xs) (inl e) = (x, inl refl, e)
Has-map b (x ∷ xs) (inr h) = let (hand, there, e) = Has-map b xs h in (hand, inr there, e)

pub All-Has :
    {P : List ℕ → Type 0} (hands : List (List ℕ))
    → ((hand : List ℕ) → Has hand hands → P hand)
    → All P hands
All-Has [] f = tt
All-Has (x ∷ xs) f = (f x (inl refl), All-Has xs (λ hand there. f hand (inr there)))

Has-All :
    (P : List ℕ → Type 0) (hand : List ℕ) (hands : List (List ℕ))
    → All P hands
    → Has hand hands
    → P hand
Has-All P hand [] a h = elim h [ ]
Has-All P hand (x ∷ xs) a (inl e) = subst P e a.0
Has-All P hand (x ∷ xs) a (inr h) = Has-All P hand xs a.1 h

-- An evaluation of one of the hands that no hand of theirs beats, each of which has an evaluation.
abbrev pub IsBestOf : List (List ℕ) → Evaluation → Type 0
IsBestOf hands b =
    ((hand : List ℕ) × Has hand hands × (evaluate_five hand ≡ ok b))
    × All
        (λ hand. (e : Evaluation) × (evaluate_five hand ≡ ok e) × AtMost (compare_evaluations e b))
        hands

best-some : (e : Evaluation) (es : List Evaluation) → (b : Evaluation) × (best (e ∷ es) ≡ some b)
unfolding best
best-some e es = (_, refl)

evaluations-AtMost :
    (hands : List (List ℕ)) (b : Evaluation)
    → All Valid hands
    → All (λ e. AtMost (compare_evaluations e b)) (map evaluation hands)
    → All
        (λ hand. (e : Evaluation) × (evaluate_five hand ≡ ok e) × AtMost (compare_evaluations e b))
        hands
evaluations-AtMost [] b a below = tt
evaluations-AtMost (h ∷ hs) b a below =
    ((evaluation h, evaluate_five-Valid h a.0, below.0), evaluations-AtMost hs b a.1 below.1)

-- The best of valid hands, of which there is one, is found.
pub IsBestOf-hands :
    (hands : List (List ℕ)) (hand : List ℕ)
    → All Valid hands
    → Has hand hands
    → (b : Evaluation) × ((evaluate_all hands >>= λ es. ok (best es)) ≡ ok (some b))
      × IsBestOf hands b
IsBestOf-hands [] hand a h = elim h [ ]
IsBestOf-hands (x ∷ xs) hand a h =
    let (b, found) = best-some (evaluation x) (map evaluation xs) in
    let (given, below) = best-IsBest (map evaluation (x ∷ xs)) b found in
    let (hand', there, e) = Has-map b (x ∷ xs) given in
    (
      b,
      rw (evaluate_all-Valid (x ∷ xs) a) (ap ok found),
      (
        (hand', there, evaluate_five-Valid hand' (Has-All Valid hand' (x ∷ xs) a there) ∙ ap ok e),
        evaluations-AtMost (x ∷ xs) b a below,
      ),
    )

-- Hole cards and board, all valid and different.
pub hole_board-IsValid :
    (hole_cards board : List ℕ) (n : ℕ)
    → check_cards hole_cards n ≡ ok tt
    → check_cards board 5 ≡ ok tt
    → all_distinct (hole_cards ++ board) ≡ true
    → IsValid (hole_cards ++ board)
hole_board-IsValid hole_cards board n h k d =
    let (_, low) = check_cards-inverse hole_cards n h in
    let (_, low') = check_cards-inverse board 5 k in
    (
      any-append (λ card. leb 52 card) hole_cards board ∙ rw (low, low') refl,
      all_distinct→Distinct (hole_cards ++ board) d,
    )

-- Two different valid hole cards and five board cards, none of them among the hole cards, are evaluated:
-- the result is the evaluation of some five of the seven cards, and no five of them are better.
pub evaluate_holdem-IsBestOf :
    (hole_cards board : List ℕ)
    → check_cards hole_cards 2 ≡ ok tt
    → check_cards board 5 ≡ ok tt
    → all_distinct (hole_cards ++ board) ≡ true
    → (b : Evaluation) × (evaluate_holdem hole_cards board ≡ ok (some b))
      × IsBestOf (combinations (hole_cards ++ board) 5) b
unfolding evaluate_holdem
evaluate_holdem-IsBestOf hole_cards board h k d =
    let cards = hole_cards ++ board in
    let valid = hole_board-IsValid hole_cards board 2 h k d in
    let (five, _) = check_cards-inverse board 5 k in
    let (b, found, is_best) =
      IsBestOf-hands (combinations cards 5) board
        (All-Has (combinations cards 5) (λ hand there.
          let (inside, size) = (combinations_iff cards 5 hand).0 there in
          subst (λ n. check_cards hand n ≡ ok tt) size
            (check_cards-Selection hand cards inside valid)))
        ((combinations_iff cards 5 board).1 (
          Selection-append [] hole_cards board board (nil-Selection hole_cards)
              (all-Selection board),
          five,
        )) in
    (b, rw (h, k, d) found, is_best)
