-- ===== src/Base/Counts.antt =====
-- How many items of a list pass a test.
use Prim.Native.Nat.{ℕ, ◌+◌, ◌≤◌, ◌<◌}
use mathlib.Core.Path.{◌≡◌, refl, ap, ◌∙◌}
use mathlib.Core.Logic.{inl, inr}
use mathlib.Core.Bool.{Bool, true, false}
use mathlib.Core.Option.{some}
use mathlib.Core.List.{List, [], ◌∷◌}
use native.Mathlib.Omega.{arith}
use x_poker.Base.Tests.{if◌then◌else◌, Bool-cases}
use x_poker.Base.Lists.{length, find?, modify_first}

module _ {ℓ} {A : Type ℓ} where
  abbrev pub count_by : (A → Bool) → List A → ℕ
  count_by f [] = 0
  count_by f (x ∷ xs) = (if f x then 1 else 0) + count_by f xs

  pub count_by-le-length : (f : A → Bool) (xs : List A) → count_by f xs ≤ length xs
  count_by-le-length f [] = omega arith
  count_by-le-length f (x ∷ xs) = ground (arith, count_by-le-length f xs)

  pub length-modify_first :
      (test : A → Bool) (f : A → A) (xs : List A) → length (modify_first test f xs) ≡ length xs
  length-modify_first test f [] = refl
  length-modify_first test f (x ∷ xs) = ground (arith, length-modify_first test f xs)

  module _ (f g : A → Bool) (less : (x : A) → g x ≡ true → f x ≡ true) where
    pub count_by_mono : (xs : List A) → count_by g xs ≤ count_by f xs
    count_by_mono [] = omega arith
    count_by_mono (x ∷ xs) = ground (arith, less x, count_by_mono xs)

    -- An item that passes the wider test alone makes the difference.
    pub count_by-lt :
        (test : A → Bool) (xs : List A) {p : A}
        → find? test xs ≡ some p
        → f p ≡ true
        → g p ≡ false
        → count_by g xs < count_by f xs
    count_by-lt test [] h wide narrow = cc
    count_by-lt test (x ∷ xs) {p} h wide narrow = elim (Bool-cases (test x)) [
      | inl hit ↦
          let same : x ≡ p = ground arith in
          let fx : f x ≡ true = ap f same ∙ wide in
          let gx : g x ≡ false = ap g same ∙ narrow in ground (arith, fx, gx, count_by_mono xs)
      | inr miss ↦
          let rest = count_by-lt test xs {p = p} (ground arith) wide narrow in
          ground (arith, less x, rest)
    ]

    -- So does an item that is overwritten by one that fails the narrower test.
    pub count_by-write :
        (test : A → Bool) (q : A) (xs : List A) {p : A}
        → find? test xs ≡ some p
        → f p ≡ true
        → g q ≡ false
        → count_by g (modify_first test (λ _. q) xs) < count_by f xs
    count_by-write test q [] h wide narrow = cc
    count_by-write test q (x ∷ xs) {p} h wide narrow = elim (Bool-cases (test x)) [
      | inl hit ↦
          let same : x ≡ p = ground arith in
          let fx : f x ≡ true = ap f same ∙ wide in
          ground (arith, hit, fx, narrow, count_by_mono xs)
      | inr miss ↦
          let rest = count_by-write test q xs {p = p} (ground arith) wide narrow in
          ground (arith, miss, less x, rest)
    ]
