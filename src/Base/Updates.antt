-- ===== src/Base/Updates.antt =====
-- How `find?` and `modify_first` go together: the item that is found, and a write to it.
use Prim.Native.Nat.{ℕ, ◌+◌}
use mathlib.Core.Path.{◌≡◌, refl, subst}
use mathlib.Core.Logic.{inl, inr}
use mathlib.Core.Bool.{Bool, true}
use mathlib.Core.Option.{some}
use mathlib.Core.List.{List, [], ◌∷◌, map}
use native.Mathlib.Omega.{arith}
use x_poker.Base.Tests.{Bool-cases}
use x_poker.Base.Lists.{find?, modify_first, All}
use x_poker.Base.Sums.{sum_by}

module _ {ℓ} {A : Type ℓ} (p : A → Bool) where
  -- The item that is found passes the test.
  pub find?-test : (xs : List A) {x : A} → find? p xs ≡ some x → p x ≡ true
  find?-test [] h = cc
  find?-test (y ∷ xs) h = elim (Bool-cases (p y)) [
    | inl hit ↦ ground (arith, hit)
    | inr miss ↦ find?-test xs (ground arith)
  ]

  -- What holds of all items holds of the one that is found.
  pub find?-All {κ} : (P : A → Type κ) (xs : List A) {x : A} → All P xs → find? p xs ≡ some x → P x
  find?-All P [] a h = cc
  find?-All P (y ∷ xs) {x} a h = elim (Bool-cases (p y)) [
    | inl hit ↦ subst P (ground arith) a.0
    | inr miss ↦ find?-All P xs a.1 (ground arith)
  ]

  pub All-modify_first {κ} :
      (P : A → Type κ) (y : A) (xs : List A) → All P xs → P y → All P (modify_first p (λ _. y) xs)
  All-modify_first P y [] a h = tt
  All-modify_first P y (x ∷ xs) a h = elim (Bool-cases (p x)) [
    | inl hit ↦ rw hit (h, a.1)
    | inr miss ↦ rw miss (a.0, All-modify_first P y xs a.1 h)
  ]

  -- A write that keeps what `g` shows is not seen through `g`.
  pub map-modify_first {κ} :
      {B : Type κ} (g : A → B) (y : A) (xs : List A) {x : A}
      → find? p xs ≡ some x
      → g y ≡ g x
      → map g (modify_first p (λ _. y) xs) ≡ map g xs
  map-modify_first g y [] h e = refl
  map-modify_first g y (z ∷ xs) h e = elim (Bool-cases (p z)) [
    | inl hit ↦ ground (arith, hit)
    | inr miss ↦ ground (arith, miss, map-modify_first g y xs (ground arith) e)
  ]

  -- A write moves a sum by the difference at the item.
  pub sum_by-modify_first :
      (f : A → ℕ) (y : A) (xs : List A) {x : A}
      → find? p xs ≡ some x
      → sum_by f (modify_first p (λ _. y) xs) + f x ≡ sum_by f xs + f y
  sum_by-modify_first f y [] h = cc
  sum_by-modify_first f y (z ∷ xs) {x} h = elim (Bool-cases (p z)) [
    | inl hit ↦ ground (arith, hit)
    | inr miss ↦ ground (arith, miss, sum_by-modify_first f y xs {x = x} (ground arith))
  ]
