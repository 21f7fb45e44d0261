-- ===== src/Base/Sets.antt =====
-- `new Set(xs)`, and the test `new Set(xs).size === xs.length`.
use Prim.Native.Nat.{ℕ, ◌≤◌}
use mathlib.Core.Path.{◌≡◌, refl}
use mathlib.Core.Bool.{Bool, true, false}
use mathlib.Core.List.{List, [], ◌∷◌}
use native.Mathlib.Omega.{arith}
use x_poker.Base.Tests.{◌==◌, if◌then◌else◌}
use x_poker.Base.Lists.{length, includes}

-- The items of `new Set(xs)`: an item that comes again later is kept once.
abbrev pub to_set : List ℕ → List ℕ
to_set [] = []
to_set (x ∷ xs) = if includes xs x then to_set xs else x ∷ to_set xs

-- `new Set(xs).size === xs.length`
abbrev pub all_distinct : List ℕ → Bool
all_distinct xs = length (to_set xs) == length xs

-- No item comes twice.
abbrev pub Distinct : List ℕ → Type 0
Distinct [] = Unit
Distinct (x ∷ xs) = (includes xs x ≡ false) × Distinct xs

pub length-to_set-le : (xs : List ℕ) → length (to_set xs) ≤ length xs
length-to_set-le [] = omega arith
length-to_set-le (x ∷ xs) = ground (arith, length-to_set-le xs)

pub all_distinct→Distinct : (xs : List ℕ) → all_distinct xs ≡ true → Distinct xs
all_distinct→Distinct [] h = tt
all_distinct→Distinct (x ∷ xs) h = ground (arith, all_distinct→Distinct xs, length-to_set-le xs)

pub Distinct→all-Distinct : (xs : List ℕ) → Distinct xs → all_distinct xs ≡ true
Distinct→all-Distinct [] h = refl
Distinct→all-Distinct (x ∷ xs) h = ground (arith, Distinct→all-Distinct xs h.1)
