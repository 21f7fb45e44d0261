-- ===== src/Evaluator/Valid.antt =====
-- `assertCardIds` of server/poker/evaluator.js holds of every selection of valid, different cards.
use x_poker.Base.{
  ℕ, ◌≡◌, refl, sym, ap, subst, inl, inr, Bool, false, not, List, [], ◌∷◌, ◌++◌, arith, leb, ◌==◌,
  ==_iff, ==_refl, ok, assert-eq-ok, length, any, includes, Distinct, Distinct→all-Distinct,
}
use x_poker.Pots.Types.{wrong_card_count, invalid_card}
use x_poker.Evaluator.Five.{check_cards}
use x_poker.Evaluator.Selections.{Selection}

Selection-any :
    (f : ℕ → Bool) (zs xs : List ℕ) → Selection zs xs → any f xs ≡ false → any f zs ≡ false
Selection-any f zs [] h e = rw h refl
Selection-any f zs (x ∷ xs) (inl h) e = Selection-any f zs xs h (ground (arith, e))
Selection-any f zs (x ∷ xs) (inr (ys, same, h)) e =
    rw same (ground (arith, e, Selection-any f ys xs h (ground (arith, e))))

Selection-includes :
    (a : ℕ) (zs xs : List ℕ) → Selection zs xs → includes xs a ≡ false → includes zs a ≡ false
Selection-includes a zs [] h e = rw h refl
Selection-includes a zs (x ∷ xs) (inl h) e = Selection-includes a zs xs h (ground (arith, e))
Selection-includes a zs (x ∷ xs) (inr (ys, same, h)) e =
    rw same (ground (arith, e, Selection-includes a ys xs h (ground (arith, e))))

Selection-Distinct : (zs xs : List ℕ) → Selection zs xs → Distinct xs → Distinct zs
Selection-Distinct zs [] h d = subst Distinct (sym h) tt
Selection-Distinct zs (x ∷ xs) (inl h) d = Selection-Distinct zs xs h d.1
Selection-Distinct zs (x ∷ xs) (inr (ys, same, h)) d =
    subst Distinct (sym same) (Selection-includes x ys xs h d.0, Selection-Distinct ys xs h d.1)

-- Cards of the deck, all different.
abbrev pub IsValid : List ℕ → Type 0
IsValid cards = (any (λ card. leb 52 card) cards ≡ false) × Distinct cards

pub check_cards-inverse :
    (cards : List ℕ) (n : ℕ)
    → check_cards cards n ≡ ok tt
    → (length cards ≡ n) × (any (λ card. leb 52 card) cards ≡ false)
unfolding check_cards
check_cards-inverse cards n h =
    let (size, h₁) = assert-eq-ok (length cards == n) wrong_card_count _ h in
    let (low, h₂) = assert-eq-ok (not (any (λ card. leb 52 card) cards)) invalid_card _ h₁ in
    ((==_iff _ _).0 size, ground (arith, low))

pub check_cards-Selection :
    (hand cards : List ℕ)
    → Selection hand cards
    → IsValid cards
    → check_cards hand (length hand) ≡ ok tt
unfolding check_cards
check_cards-Selection hand cards h (low, distinct) =
    let size = ==_refl (length hand) in
    let valid = Selection-any (λ card. leb 52 card) hand cards h low in
    let apart = Distinct→all-Distinct hand (Selection-Distinct hand cards h distinct) in
    rw (size, valid, apart) refl

pub all-Selection : (xs : List ℕ) → Selection xs xs
all-Selection [] = refl
all-Selection (x ∷ xs) = inr (xs, refl, all-Selection xs)

pub Selection-append :
    (ys xs zs ws : List ℕ) → Selection ys xs → Selection zs ws → Selection (ys ++ zs) (xs ++ ws)
Selection-append ys [] zs ws h k = subst (λ l. Selection (l ++ zs) ws) (sym h) k
Selection-append ys (x ∷ xs) zs ws (inl h) k = inl (Selection-append ys xs zs ws h k)
Selection-append ys (x ∷ xs) zs ws (inr (us, same, h)) k =
    inr (us ++ zs, ap (λ l. l ++ zs) same, Selection-append us xs zs ws h k)
