-- ===== src/Base/Buffers.antt =====
-- Byte strings, with the operations of `Buffer` that the source uses.
use Prim.Native.Nat.{ℕ, zero, suc, ◌/◌, ◌%◌}
use mathlib.Core.Path.{◌≡◌, refl}
use mathlib.Core.Bool.{Bool, true, false, not, ◌&&◌, ◌||◌}
use mathlib.Core.List.{List, [], ◌∷◌, ◌++◌}
use native.Mathlib.Omega.{arith}
use x_poker.Base.Tests.{ltb, ◌==◌, if◌then◌else◌}

abbrev pub Bytes : Type 0
Bytes = List ℕ

-- `Buffer.compare(first, second) <= 0`
abbrev pub le_bytes : Bytes → Bytes → Bool
le_bytes [] ys = true
le_bytes (x ∷ xs) [] = false
le_bytes (x ∷ xs) (y ∷ ys) = if x == y then le_bytes xs ys else ltb x y

abbrev pub same_bytes : Bytes → Bytes → Bool
same_bytes [] [] = true
same_bytes (x ∷ xs) (y ∷ ys) = (x == y) && same_bytes xs ys
same_bytes _ _ = false

-- The last bytes of a number, the highest first.
unfoldable pub bytes_be : ℕ → ℕ → Bytes
bytes_be zero v = []
bytes_be (suc n) v = bytes_be n (v / 256) ++ v % 256 ∷ []

pub same_bytes_refl : (xs : Bytes) → same_bytes xs xs ≡ true
same_bytes_refl [] = refl
same_bytes_refl (x ∷ xs) = ground (arith, same_bytes_refl xs)

pub same_bytes→eq : (xs ys : Bytes) → same_bytes xs ys ≡ true → xs ≡ ys
same_bytes→eq [] [] h = refl
same_bytes→eq [] (y ∷ ys) h = cc
same_bytes→eq (x ∷ xs) [] h = cc
same_bytes→eq (x ∷ xs) (y ∷ ys) h = ground (arith, same_bytes→eq xs ys)

pub le_bytes_total : (xs ys : Bytes) → le_bytes xs ys ≡ false → le_bytes ys xs ≡ true
le_bytes_total [] ys h = cc
le_bytes_total (x ∷ xs) [] h = refl
le_bytes_total (x ∷ xs) (y ∷ ys) h = ground (arith, le_bytes_total xs ys)

-- No text comes twice.
abbrev pub has_bytes : List Bytes → Bytes → Bool
has_bytes [] a = false
has_bytes (x ∷ xs) a = same_bytes x a || has_bytes xs a

-- `new Set(xs).size === xs.length`, for texts
abbrev pub unique_bytes : List Bytes → Bool
unique_bytes [] = true
unique_bytes (x ∷ xs) = not (has_bytes xs x) && unique_bytes xs
