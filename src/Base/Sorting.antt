-- ===== src/Base/Sorting.antt =====
-- `xs.sort(compare)`, a stable sort, by the test `compare(x, y) <= 0`.
use Prim.Native.Nat.{suc}
use mathlib.Core.Path.{◌≡◌, refl, ap, subst, ◌∙◌}
use mathlib.Core.Logic.{inl, inr}
use mathlib.Core.Bool.{Bool, true, false, ◌||◌}
use mathlib.Core.List.{List, [], ◌∷◌}
use native.Mathlib.Omega.{arith}
use x_poker.Base.Tests.{if◌then◌else◌, Bool-cases}
use x_poker.Base.Lists.{length, any, All}

module _ {ℓ} {A : Type ℓ} (precedes : A → A → Bool) where
  abbrev pub insert_by : A → List A → List A
  insert_by x [] = x ∷ []
  insert_by x (y ∷ ys) = if precedes x y then x ∷ y ∷ ys else y ∷ insert_by x ys

  abbrev pub sort_by : List A → List A
  sort_by [] = []
  sort_by (x ∷ xs) = insert_by x (sort_by xs)

  -- Each item is before the next one.
  abbrev pub Sorted : List A → Type 0
  Sorted [] = Unit
  Sorted (x ∷ []) = Unit
  Sorted (x ∷ y ∷ ys) = (precedes x y ≡ true) × Sorted (y ∷ ys)

  pub sort_by_kept : (xs : List A) → Sorted xs → sort_by xs ≡ xs
  sort_by_kept [] s = refl
  sort_by_kept (x ∷ []) s = refl
  sort_by_kept (x ∷ y ∷ ys) (le, s) = rw (sort_by_kept (y ∷ ys) s, le) refl

  module _ (total : (x y : A) → precedes x y ≡ false → precedes y x ≡ true) where
    insert_by-below :
        (x y : A) (ys : List A)
        → precedes y x ≡ true
        → Sorted (y ∷ ys)
        → Sorted (insert_by x ys)
        → Sorted (y ∷ insert_by x ys)
    insert_by-below x y [] le s t = (le, tt)
    insert_by-below x y (z ∷ zs) le s t = elim (Bool-cases (precedes x z)) [
      | inl before ↦ rw before (le, (before, s.1))
      | inr after ↦
          let kept : Sorted (if false then x ∷ z ∷ zs else z ∷ insert_by x zs) =
            subst (λ b. Sorted (if b then x ∷ z ∷ zs else z ∷ insert_by x zs)) after t in
          rw after (s.0, kept)
    ]

    insert_by-Sorted : (x : A) (ys : List A) → Sorted ys → Sorted (insert_by x ys)
    insert_by-Sorted x [] s = tt
    insert_by-Sorted x (y ∷ []) s = elim (Bool-cases (precedes x y)) [
      | inl before ↦ rw before (before, tt)
      | inr after ↦ rw after (total x y after, tt)
    ]
    insert_by-Sorted x (y ∷ z ∷ zs) s = elim (Bool-cases (precedes x y)) [
      | inl before ↦ rw before (before, s)
      | inr after ↦
          rw after
            (insert_by-below x y (z ∷ zs) (total x y after) s (insert_by-Sorted x (z ∷ zs) s.1))
    ]

    pub sort_by-Sorted : (xs : List A) → Sorted (sort_by xs)
    sort_by-Sorted [] = tt
    sort_by-Sorted (x ∷ xs) = insert_by-Sorted x (sort_by xs) (sort_by-Sorted xs)

    pub sort_by_idempotent : (xs : List A) → sort_by (sort_by xs) ≡ sort_by xs
    sort_by_idempotent xs = sort_by_kept (sort_by xs) (sort_by-Sorted xs)

  insert_by-any : (f : A → Bool) (x : A) (ys : List A) → any f (insert_by x ys) ≡ (f x || any f ys)
  insert_by-any f x [] = refl
  insert_by-any f x (y ∷ ys) = ground (arith, insert_by-any f x ys)

  -- A sorted list has the same items.
  pub sort_by-any : (f : A → Bool) (xs : List A) → any f (sort_by xs) ≡ any f xs
  sort_by-any f [] = refl
  sort_by-any f (x ∷ xs) = ground (arith, insert_by-any f x (sort_by xs), sort_by-any f xs)

  insert_by-All {κ} :
      (P : A → Type κ) (x : A) (ys : List A) → P x → All P ys → All P (insert_by x ys)
  insert_by-All P x [] p h = (p, tt)
  insert_by-All P x (y ∷ ys) p h = elim (Bool-cases (precedes x y)) [
    | inl before ↦ rw before (p, h)
    | inr after ↦ rw after (h.0, insert_by-All P x ys p h.1)
  ]

  pub sort_by-All {κ} : (P : A → Type κ) (xs : List A) → All P xs → All P (sort_by xs)
  sort_by-All P [] h = tt
  sort_by-All P (x ∷ xs) h = insert_by-All P x (sort_by xs) h.0 (sort_by-All P xs h.1)

  length-insert_by : (x : A) (ys : List A) → length (insert_by x ys) ≡ suc (length ys)
  length-insert_by x [] = refl
  length-insert_by x (y ∷ ys) = ground (arith, length-insert_by x ys)

  pub length-sort_by : (xs : List A) → length (sort_by xs) ≡ length xs
  length-sort_by [] = refl
  length-sort_by (x ∷ xs) = length-insert_by x (sort_by xs) ∙ ap suc (length-sort_by xs)
