-- ===== src/Base/Order.antt =====
-- Lists in ascending order of a measure.
use Prim.Native.Nat.{ℕ, zero, suc, ◌≤◌}
use mathlib.Core.Path.{◌≡◌, subst}
use mathlib.Core.Logic.{inl, inr}
use mathlib.Core.Bool.{Bool, true}
use mathlib.Core.Option.{some}
use mathlib.Core.List.{List, [], ◌∷◌, ◌++◌}
use native.Mathlib.Omega.{arith}
use x_poker.Base.Tests.{Bool-cases}
use x_poker.Base.Lists.{find?, take, drop, All}
use x_poker.Base.Quantifiers.{All-map, All-zip, All-append}

module _ {ℓ} {A : Type ℓ} (f : A → ℕ) where
  abbrev pub Ordered : List A → Type 0
  Ordered [] = Unit
  Ordered (x ∷ xs) = All (λ y. f x ≤ f y) xs × Ordered xs

  pub Ordered-append :
      (xs ys : List A)
      → Ordered xs
      → Ordered ys
      → All (λ x. All (λ y. f x ≤ f y) ys) xs
      → Ordered (xs ++ ys)
  Ordered-append [] ys h k c = k
  Ordered-append (x ∷ xs) ys h k c =
      (All-append (λ y. f x ≤ f y) xs ys h.0 c.0, Ordered-append xs ys h.1 k c.1)

  -- The first item that passes a test measures least among those that do.
  pub find?-least :
      (test : A → Bool) (xs : List A) {p : A}
      → Ordered xs
      → find? test xs ≡ some p
      → All (λ q. test q ≡ true → f p ≤ f q) xs
  find?-least test [] o h = tt
  find?-least test (x ∷ xs) {p} o h = elim (Bool-cases (test x)) [
    | inl hit ↦
        let same : x ≡ p = ground arith in
        subst (λ z. (test x ≡ true → f z ≤ f x) × All (λ q. test q ≡ true → f z ≤ f q) xs) same
          ((λ e. omega arith), All-map xs (λ q le e. le) o.0)
    | inr miss ↦ ((λ e. cc), find?-least test xs o.1 (ground arith))
  ]

  pub take-All {κ} : (P : A → Type κ) (k : ℕ) (xs : List A) → All P xs → All P (take k xs)
  take-All P zero xs h = tt
  take-All P (suc k) [] h = tt
  take-All P (suc k) (x ∷ xs) h = (h.0, take-All P k xs h.1)

  pub drop-All {κ} : (P : A → Type κ) (k : ℕ) (xs : List A) → All P xs → All P (drop k xs)
  drop-All P zero xs h = h
  drop-All P (suc k) [] h = tt
  drop-All P (suc k) (x ∷ xs) h = drop-All P k xs h.1

  pub Ordered-take : (k : ℕ) (xs : List A) → Ordered xs → Ordered (take k xs)
  Ordered-take zero xs h = tt
  Ordered-take (suc k) [] h = tt
  Ordered-take (suc k) (x ∷ xs) h = (take-All (λ y. f x ≤ f y) k xs h.0, Ordered-take k xs h.1)

  pub Ordered-drop : (k : ℕ) (xs : List A) → Ordered xs → Ordered (drop k xs)
  Ordered-drop zero xs h = h
  Ordered-drop (suc k) [] h = tt
  Ordered-drop (suc k) (x ∷ xs) h = Ordered-drop k xs h.1

-- Another measure that agrees with the order of the first on the list's items.
pub Ordered-map {ℓ κ} :
    {A : Type ℓ} (f g : A → ℕ) {P : A → Type κ} (xs : List A)
    → ((x y : A) → P x → P y → f x ≤ f y → g x ≤ g y)
    → All P xs
    → Ordered f xs
    → Ordered g xs
Ordered-map f g [] keep a o = tt
Ordered-map f g {P} (x ∷ xs) keep a o = (
  All-map xs (λ y h. keep x y a.0 h.0 h.1) (All-zip P (λ y. f x ≤ f y) xs a.1 o.0),
  Ordered-map f g xs keep a.1 o.1,
)
