-- ===== src/Base/Sums.antt =====
-- Sums over lists, and a `Map` of amounts with the update that adds to a key.
use Prim.Native.Nat.{ℕ, ◌+◌}
use mathlib.Core.Path.{◌≡◌}
use mathlib.Core.List.{List, [], ◌∷◌, ◌++◌}
use native.Mathlib.Omega.{arith}
use x_poker.Base.Tests.{if◌then◌else◌, ◌==◌}

-- `xs.reduce((sum, x) => sum + f(x), 0n)`
abbrev pub sum_by {ℓ} : {A : Type ℓ} → (A → ℕ) → List A → ℕ
sum_by f [] = 0
sum_by f (x ∷ xs) = f x + sum_by f xs

pub sum_by-append {ℓ} :
    {A : Type ℓ} (f : A → ℕ) (xs ys : List A) → sum_by f (xs ++ ys) ≡ sum_by f xs + sum_by f ys
sum_by-append f [] ys = omega arith
sum_by-append f (x ∷ xs) ys = omega (arith, sum_by-append f xs ys)

-- A `Map` from ids to amounts, in insertion order.
abbrev pub Amounts : Type 0
Amounts = List (ℕ × ℕ)

-- `[...map.values()].reduce((sum, amount) => sum + amount, 0n)`
abbrev pub total : Amounts → ℕ
total = sum_by (λ e. e.1)

-- `map.get(key) ?? 0n`
abbrev pub amount_of : ℕ → Amounts → ℕ
amount_of k [] = 0
amount_of k (e ∷ m) = if e.0 == k then e.1 else amount_of k m
