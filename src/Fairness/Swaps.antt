-- ===== src/Fairness/Swaps.antt =====
-- Swaps keep what a deck holds.
use x_poker.Base.{
  ℕ, zero, suc, ◌+◌, ◌*◌, ◌≤◌, ◌<◌, ◌≡◌, refl, ap, ap₂, subst, ◌∙◌, inl, inr, Bool, some, List, [],
  ◌∷◌, ◌++◌, arith, ltb, leb, ◌==◌, if◌then◌else◌, Option-cases, some-injective, length, get_elem?,
  All, count_by,
}
use x_poker.Fairness.Deck.{ranks_from, suits_from, create_deck, set_at, swap}

abbrev pub count_card : ℕ → List ℕ → ℕ
count_card c = count_by (λ x. x == c)

-- One if the number is at least the first and below the second.
abbrev pub within : ℕ → ℕ → ℕ → ℕ
within a b c = if leb a c then if ltb c b then 1 else 0 else 0

pub within_split : (a b d c : ℕ) → a ≤ b → b ≤ d → within a b c + within b d c ≡ within a d c
within_split a b d c h k = ground arith

ranks_from-count :
    (suit rank more a c : ℕ)
    → suit * 13 + rank ≡ a
    → count_card c (ranks_from suit rank more) ≡ within a (a + more) c
ranks_from-count suit rank zero a c h = ground arith
ranks_from-count suit rank (suc more) a c h =
    let rest = ranks_from-count suit (rank + 1) more (a + 1) c (omega (arith, h)) in
    ground (arith, rest)

pub count_by-append {ℓ} :
    {A : Type ℓ} (f : A → Bool) (xs ys : List A)
    → count_by f (xs ++ ys) ≡ count_by f xs + count_by f ys
count_by-append f [] ys = omega arith
count_by-append f (x ∷ xs) ys = omega (arith, count_by-append f xs ys)

suits_from-count :
    (suit more a c : ℕ)
    → suit * 13 ≡ a
    → count_card c (suits_from suit more) ≡ within a (a + more * 13) c
suits_from-count suit zero a c h = ground arith
suits_from-count suit (suc more) a c h =
    let tail = suits_from (suit + 1) more in
    let split = count_by-append (λ x. x == c) (ranks_from suit 0 13) tail in
    let one = ranks_from-count suit 0 13 a c (omega (arith, h)) in
    let rest = suits_from-count (suit + 1) more (a + 13) c (omega (arith, h)) in
    let joined = within_split a (a + 13) (a + 13 + more * 13) c (omega arith) (omega arith) in
    let end : within a (a + 13 + more * 13) c ≡ within a (a + suc more * 13) c =
      ap (λ d. within a d c) (omega arith) in
    split ∙ ap₂ ◌+◌ one rest ∙ joined ∙ end

pub create_deck-count : (c : ℕ) → count_card c create_deck ≡ within 0 52 c
unfolding create_deck
create_deck-count c = suits_from-count 0 4 0 c refl

module _ {ℓ} {A : Type ℓ} where
  pub get_elem?-set_at :
      (i j : ℕ) (y : A) (xs : List A)
      → get_elem? xs j ≡ some y
      → get_elem? (set_at i y xs) j ≡ some y
  get_elem?-set_at i j y [] h = h
  get_elem?-set_at zero zero y (x ∷ xs) h = refl
  get_elem?-set_at zero (suc j) y (x ∷ xs) h = h
  get_elem?-set_at (suc i) zero y (x ∷ xs) h = h
  get_elem?-set_at (suc i) (suc j) y (x ∷ xs) h = get_elem?-set_at i j y xs h

  pub length-set_at : (i : ℕ) (y : A) (xs : List A) → length (set_at i y xs) ≡ length xs
  length-set_at i y [] = refl
  length-set_at zero y (x ∷ xs) = refl
  length-set_at (suc i) y (x ∷ xs) = ap suc (length-set_at i y xs)

  pub count_by-set_at :
      (f : A → Bool) (i : ℕ) (y : A) (xs : List A) {x : A}
      → get_elem? xs i ≡ some x
      → count_by f (set_at i y xs) + (if f x then 1 else 0) ≡ count_by f xs + (if f y then 1 else 0)
  count_by-set_at f i y [] h = cc
  count_by-set_at f zero y (z ∷ xs) {x} h =
      let same : z ≡ x = some-injective h in
      subst
        (λ w.
          (if f y then 1 else 0) + count_by f xs + (if f w then 1 else 0)
          ≡ (if f z then 1 else 0) + count_by f xs + (if f y then 1 else 0))
        same (omega arith)
  count_by-set_at f (suc i) y (z ∷ xs) {x} h =
      let rest = count_by-set_at f i y xs {x = x} h in omega (arith, rest)

  pub get_elem?-All {κ} :
      (P : A → Type κ) (xs : List A) (i : ℕ) {x : A} → All P xs → get_elem? xs i ≡ some x → P x
  get_elem?-All P [] i a h = cc
  get_elem?-All P (y ∷ xs) zero a h = subst P (some-injective h) a.0
  get_elem?-All P (y ∷ xs) (suc i) a h = get_elem?-All P xs i a.1 h

  set_at-All {κ} :
      (P : A → Type κ) (i : ℕ) (y : A) (xs : List A) → P y → All P xs → All P (set_at i y xs)
  set_at-All P i y [] p a = tt
  set_at-All P zero y (x ∷ xs) p a = (p, a.1)
  set_at-All P (suc i) y (x ∷ xs) p a = (a.0, set_at-All P i y xs p a.1)

  -- An index below the length has an item.
  pub get_elem?-some : (xs : List A) (i : ℕ) → i < length xs → (x : A) × (get_elem? xs i ≡ some x)
  get_elem?-some [] i h = absurd (omega (arith, h))
  get_elem?-some (x ∷ xs) zero h = (x, refl)
  get_elem?-some (x ∷ xs) (suc i) h = get_elem?-some xs i (omega (arith, h))

pub swap-count : (c i j : ℕ) (deck : List ℕ) → count_card c (swap i j deck) ≡ count_card c deck
unfolding swap
swap-count c i j deck = elim (Option-cases (get_elem? deck i)) [
  | inl absent ↦ rw (swap, absent) refl
  | inr (x, at_i) ↦ elim (Option-cases (get_elem? deck j)) [
    | inl absent ↦ rw (swap, at_i, absent) refl
    | inr (y, at_j) ↦
        let first = count_by-set_at (λ z. z == c) i y deck at_i in
        let second =
          count_by-set_at (λ z. z == c) j x (set_at i y deck) {x = y}
            (get_elem?-set_at i j y deck at_j) in
        rw (swap, at_i, at_j) (omega (arith, first, second))
  ]
]

pub length-swap : (i j : ℕ) (deck : List ℕ) → length (swap i j deck) ≡ length deck
unfolding swap
length-swap i j deck = elim (Option-cases (get_elem? deck i)) [
  | inl absent ↦ rw (swap, absent) refl
  | inr (x, at_i) ↦ elim (Option-cases (get_elem? deck j)) [
    | inl absent ↦ rw (swap, at_i, absent) refl
    | inr (y, at_j) ↦
        rw (swap, at_i, at_j) (length-set_at j x (set_at i y deck) ∙ length-set_at i y deck)
  ]
]

pub swap-All {κ} : (P : ℕ → Type κ) (i j : ℕ) (deck : List ℕ) → All P deck → All P (swap i j deck)
unfolding swap
swap-All P i j deck a = elim (Option-cases (get_elem? deck i)) [
  | inl absent ↦ rw (swap, absent) a
  | inr (x, at_i) ↦ elim (Option-cases (get_elem? deck j)) [
    | inl absent ↦ rw (swap, at_i, absent) a
    | inr (y, at_j) ↦
        rw (swap, at_i, at_j)
          (set_at-All P j x (set_at i y deck) (get_elem?-All P deck i a at_i)
            (set_at-All P i y deck (get_elem?-All P deck j a at_j) a))
  ]
]
