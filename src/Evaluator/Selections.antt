-- ===== src/Evaluator/Selections.antt =====
-- `combinations` of server/poker/evaluator.js gives exactly the selections of a number of items, each in
-- the items' order.
-- Whether a list is the other with some items left out.
use x_poker.Base.{
  ℕ, zero, suc, ◌≡◌, refl, sym, ap, subst, ◌∙◌, ◌↔◌, ◌⊎◌, inl, inr, List, [], ◌∷◌, ◌++◌, arith,
  length,
}
use x_poker.Evaluator.Best.{choose, combinations}
use x_poker.Evaluator.Optimal.{Has}

abbrev pub Selection : List ℕ → List ℕ → Type 0
Selection ys [] = ys ≡ []
Selection ys (x ∷ xs) = Selection ys xs ⊎ ((zs : List ℕ) × (ys ≡ x ∷ zs) × Selection zs xs)

append-assoc_one : (xs : List ℕ) (y : ℕ) (zs : List ℕ) → (xs ++ y ∷ []) ++ zs ≡ xs ++ y ∷ zs
append-assoc_one [] y zs = refl
append-assoc_one (x ∷ xs) y zs = ap (◌∷◌ x) (append-assoc_one xs y zs)

append-nil : (xs : List ℕ) → xs ++ [] ≡ xs
append-nil [] = refl
append-nil (x ∷ xs) = ap (◌∷◌ x) (append-nil xs)

pub nil-Selection : (xs : List ℕ) → Selection [] xs
nil-Selection [] = refl
nil-Selection (x ∷ xs) = inl (nil-Selection xs)

module _ {A : Type 0} where
  pub Has-left : (a : A) (xs ys : List A) → Has a xs → Has a (xs ++ ys)
  Has-left a [] ys h = elim h [ ]
  Has-left a (x ∷ xs) ys (inl e) = inl e
  Has-left a (x ∷ xs) ys (inr h) = inr (Has-left a xs ys h)

  pub Has-right : (a : A) (xs ys : List A) → Has a ys → Has a (xs ++ ys)
  Has-right a [] ys h = h
  Has-right a (x ∷ xs) ys h = inr (Has-right a xs ys h)

  pub Has-append : (a : A) (xs ys : List A) → Has a (xs ++ ys) → Has a xs ⊎ Has a ys
  Has-append a [] ys h = inr h
  Has-append a (x ∷ xs) ys (inl e) = inl (inl e)
  Has-append a (x ∷ xs) ys (inr h) = elim (Has-append a xs ys h) [
    | inl k ↦ inl (inr k)
    | inr k ↦ inr k
  ]

choose_complete :
    (selected : List ℕ) (n : ℕ) (xs zs : List ℕ)
    → Selection zs xs
    → length zs ≡ n
    → Has (selected ++ zs) (choose selected n xs)
unfolding choose
choose_complete selected zero xs [] h e = inl (sym (append-nil selected))
choose_complete selected zero xs (z ∷ zs) h e = omega (arith, e)
choose_complete selected (suc n) [] zs h e = let bad = sym (ap length h) ∙ e in omega (arith, bad)
choose_complete selected (suc n) (x ∷ xs) zs (inl h) e =
    Has-right (selected ++ zs) (choose (selected ++ x ∷ []) n xs) _
      (choose_complete selected (suc n) xs zs h e)
choose_complete selected (suc n) (x ∷ xs) zs (inr (ys, same, h)) e =
    let size : length ys ≡ n = let k = ap length same in omega (arith, k, e) in
    let there = choose_complete (selected ++ x ∷ []) n xs ys h size in
    Has-left (selected ++ zs) (choose (selected ++ x ∷ []) n xs) _ (
      subst (λ l. Has l (choose (selected ++ x ∷ []) n xs))
        (append-assoc_one selected x ys ∙ ap (λ l. selected ++ l) (sym same)) there)

choose_sound :
    (selected : List ℕ) (n : ℕ) (xs hand : List ℕ)
    → Has hand (choose selected n xs)
    → (zs : List ℕ) × (hand ≡ selected ++ zs) × Selection zs xs × (length zs ≡ n)
unfolding choose
choose_sound selected zero xs hand (inl e) =
    ([], sym e ∙ sym (append-nil selected), nil-Selection xs, refl)
choose_sound selected zero xs hand (inr h) = elim h [ ]
choose_sound selected (suc n) [] hand h = elim h [ ]
choose_sound selected (suc n) (x ∷ xs) hand h =
    elim (Has-append hand (choose (selected ++ x ∷ []) n xs) _ h) [
      | inl with_x ↦
          let (zs, same, inside, size) = choose_sound (selected ++ x ∷ []) n xs hand with_x in
          (
            x ∷ zs,
            same ∙ append-assoc_one selected x zs,
            inr (zs, refl, inside),
            omega (arith, size),
          )
      | inr without ↦
          let (zs, same, inside, size) = choose_sound selected (suc n) xs hand without in
          (zs, same, inl inside, size)
    ]

-- The combinations of a number of items are exactly the selections of that length.
pub combinations_iff :
    (items : List ℕ) (count : ℕ) (hand : List ℕ)
    → Has hand (combinations items count) ↔ (Selection hand items × (length hand ≡ count))
unfolding combinations
combinations_iff items count hand = (
  λ h.
      let (zs, same, inside, size) = choose_sound [] count items hand h in
      subst (λ l. Selection l items × (length l ≡ count)) (sym same) (inside, size),
  λ (inside, size). choose_complete [] count items hand inside size,
)
