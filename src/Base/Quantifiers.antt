-- ===== src/Base/Quantifiers.antt =====
-- Tests over lists, `any` and `all`, and the predicate `All`.
use Prim.Native.Nat.{ℕ, suc}
use mathlib.Core.Path.{◌≡◌, refl, ap}
use mathlib.Core.Logic.{◌≢◌, inl, inr}
use mathlib.Core.Bool.{Bool, true, false, ◌&&◌, ◌||◌}
use mathlib.Core.Option.{none, some}
use mathlib.Core.List.{List, [], ◌∷◌, ◌++◌, map}
use native.Mathlib.Omega.{arith}
use x_poker.Base.Tests.{◌==◌, Bool-cases, Option-cases}
use x_poker.Base.Lists.{find?, any, take, drop, find_index?, All, take-append-drop, includes}

module _ {ℓ} {A : Type ℓ} where
  pub any-append : (f : A → Bool) (xs ys : List A) → any f (xs ++ ys) ≡ (any f xs || any f ys)
  any-append f [] ys = refl
  any-append f (x ∷ xs) ys = ground (arith, any-append f xs ys)

  -- A rotation passes the same tests.
  pub any-rotate : (f : A → Bool) (k : ℕ) (xs : List A) → any f (drop k xs ++ take k xs) ≡ any f xs
  any-rotate f k xs = ground (
    arith,
    any-append f (drop k xs) (take k xs),
    any-append f (take k xs) (drop k xs),
    ap (any f) (take-append-drop k xs),
  )

  -- What no item passes.
  pub any-eq-false→All : (f : A → Bool) (xs : List A) → any f xs ≡ false → All (λ x. f x ≡ false) xs
  any-eq-false→All f [] h = tt
  any-eq-false→All f (x ∷ xs) h = (ground arith, any-eq-false→All f xs (ground arith))

  pub All→any-eq-false : (f : A → Bool) (xs : List A) → All (λ x. f x ≡ false) xs → any f xs ≡ false
  All→any-eq-false f [] h = refl
  All→any-eq-false f (x ∷ xs) h = ground (arith, All→any-eq-false f xs h.1)

  pub find_index?-suc :
      (f : A → Bool) (x : A) (xs : List A) {k : ℕ}
      → find_index? f (x ∷ xs) ≡ some (suc k)
      → (f x ≡ false) × (find_index? f xs ≡ some k)
  find_index?-suc f x xs {k} h = elim (Bool-cases (f x)) [
    | inl hit ↦ ground (arith, hit)
    | inr miss ↦ elim (Option-cases (find_index? f xs)) [
      | inl absent ↦ ground (arith, miss, absent)
      | inr (i, found) ↦ ground (arith, miss, found)
    ]
  ]

  pub find_index?-zero :
      (f : A → Bool) (x : A) (xs : List A) → find_index? f (x ∷ xs) ≡ some 0 → f x ≡ true
  find_index?-zero f x xs h = elim (Bool-cases (f x)) [
    | inl hit ↦ hit
    | inr miss ↦ elim (Option-cases (find_index? f xs)) [
      | inl absent ↦ ground (arith, miss, absent)
      | inr (i, found) ↦ ground (arith, miss, found)
    ]
  ]

  pub find_index?-none→any :
      (f : A → Bool) (xs : List A) → find_index? f xs ≡ none → any f xs ≡ false
  find_index?-none→any f [] h = refl
  find_index?-none→any f (x ∷ xs) h = elim (Option-cases (find_index? f xs)) [
    | inl absent ↦ ground (arith, absent, find_index?-none→any f xs)
    | inr (i, found) ↦ ground (arith, found)
  ]

  pub find?-none→any : (f : A → Bool) (xs : List A) → find? f xs ≡ none → any f xs ≡ false
  find?-none→any f [] h = refl
  find?-none→any f (x ∷ xs) h = ground (arith, find?-none→any f xs)

  -- The item that is found passes every test that follows from the one it was found by.
  pub find?-any :
      (f g : A → Bool) (xs : List A) {x : A} → find? f xs ≡ some x → g x ≡ true → any g xs ≡ true
  find?-any f g [] h e = cc
  find?-any f g (y ∷ xs) {x} h e = elim (Bool-cases (f y)) [
    | inl hit ↦ let same : y ≡ x = ground arith in rw (same, e)
    | inr miss ↦ ground (arith, find?-any f g xs {x = x} (ground arith) e)
  ]

  pub All-of {κ} : {P : A → Type κ} (xs : List A) → ((x : A) → P x) → All P xs
  All-of [] f = tt
  All-of (x ∷ xs) f = (f x, All-of xs f)

  pub All-map {κ μ} :
      {P : A → Type κ} {Q : A → Type μ} (xs : List A) → ((x : A) → P x → Q x) → All P xs → All Q xs
  All-map [] f h = tt
  All-map (x ∷ xs) f h = (f x h.0, All-map xs f h.1)

  pub All-zip {κ μ} :
      (P : A → Type κ) (Q : A → Type μ) (xs : List A)
      → All P xs
      → All Q xs
      → All (λ x. P x × Q x) xs
  All-zip P Q [] h k = tt
  All-zip P Q (x ∷ xs) h k = ((h.0, k.0), All-zip P Q xs h.1 k.1)

  pub All-append {κ} : (P : A → Type κ) (xs ys : List A) → All P xs → All P ys → All P (xs ++ ys)
  All-append P [] ys h k = k
  All-append P (x ∷ xs) ys h k = (h.0, All-append P xs ys h.1 k)

  pub any-of-All :
      (f g : A → Bool) (xs : List A)
      → All (λ x. f x ≡ true → g x ≡ true) xs
      → any f xs ≡ true
      → any g xs ≡ true
  any-of-All f g [] h e = cc
  any-of-All f g (x ∷ xs) h e = elim (Bool-cases (f x)) [
    | inl hit ↦ rw (h.0 hit) refl
    | inr miss ↦ ground (arith, any-of-All f g xs h.1)
  ]

  -- An item of a list, by what `g` shows of it.
  pub not-includes-map :
      (g : A → ℕ) (k : ℕ) (xs : List A) → includes (map g xs) k ≡ false → All (λ x. g x ≢ k) xs
  not-includes-map g k [] h = tt
  not-includes-map g k (x ∷ xs) h = (λ e. ground arith, not-includes-map g k xs (ground arith))

  pub any→includes-map :
      (g : A → ℕ) (f : A → Bool) (k : ℕ) (xs : List A)
      → any (λ x. f x && (g x == k)) xs ≡ true
      → includes (map g xs) k ≡ true
  any→includes-map g f k [] h = cc
  any→includes-map g f k (x ∷ xs) h = ground (arith, any→includes-map g f k xs)
