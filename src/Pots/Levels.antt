-- ===== src/Pots/Levels.antt =====
-- The levels of `buildPots` in server/poker/pots.js: ascending, positive, and every contribution is one.
-- Each level is above the one before it.
use x_poker.Base.{
  ℕ, ◌+◌, ◌-◌, ◌≤◌, ◌<◌, ◌≡◌, refl, ap, ◌∙◌, ◌⊎◌, inl, inr, true, false, ◌||◌, List, [], ◌∷◌, map,
  arith, ltb, leb, ◌==◌, if◌then◌else◌, Bool-cases, filter, All, includes, to_set, Distinct,
}
use x_poker.Pots.Types.{Contestant}
use x_poker.Pots.Build.{insert_level, sort_levels, levels}

abbrev pub Ascends : ℕ → List ℕ → Type 0
Ascends previous [] = Unit
Ascends previous (level ∷ rest) = (previous < level) × Ascends level rest

includes-insert_level :
    (k x : ℕ) (ys : List ℕ) → includes (insert_level x ys) k ≡ (x == k || includes ys k)
includes-insert_level k x [] = refl
includes-insert_level k x (y ∷ ys) = ground (arith, includes-insert_level k x ys)

pub includes-sort_levels : (k : ℕ) (xs : List ℕ) → includes (sort_levels xs) k ≡ includes xs k
unfolding sort_levels
includes-sort_levels k [] = refl
includes-sort_levels k (x ∷ xs) =
    includes-insert_level k x (sort_levels xs) ∙ ap (λ b. x == k || b) (includes-sort_levels k xs)

Ascends-insert_level :
    (previous x : ℕ) (ys : List ℕ)
    → previous < x
    → includes ys x ≡ false
    → Ascends previous ys
    → Ascends previous (insert_level x ys)
Ascends-insert_level previous x [] lt new a = (lt, tt)
Ascends-insert_level previous x (y ∷ ys) lt new a = elim (Bool-cases (leb x y)) [
  | inl low ↦ rw low (lt, (ground arith, a.1))
  | inr high ↦ rw high (a.0, Ascends-insert_level y x ys (ground arith) (ground arith) a.1)
]

pub Ascends-sort_levels :
    (previous : ℕ) (xs : List ℕ)
    → All (λ x. previous < x) xs
    → Distinct xs
    → Ascends previous (sort_levels xs)
unfolding sort_levels
Ascends-sort_levels previous [] a d = tt
Ascends-sort_levels previous (x ∷ xs) a d =
    Ascends-insert_level previous x (sort_levels xs) a.0 (includes-sort_levels x xs ∙ d.0)
      (Ascends-sort_levels previous xs a.1 d.1)

includes-to_set : (k : ℕ) (xs : List ℕ) → includes (to_set xs) k ≡ includes xs k
includes-to_set k [] = refl
includes-to_set k (x ∷ xs) = ground (arith, includes-to_set k xs)

Distinct-to_set : (xs : List ℕ) → Distinct (to_set xs)
Distinct-to_set [] = tt
Distinct-to_set (x ∷ xs) = ground (arith, includes-to_set x xs, Distinct-to_set xs)

All-to_set {κ} : (P : ℕ → Type κ) (xs : List ℕ) → All P xs → All P (to_set xs)
All-to_set P [] a = tt
All-to_set P (x ∷ xs) a = elim (Bool-cases (includes xs x)) [
  | inl again ↦ rw again (All-to_set P xs a.1)
  | inr new ↦ rw new (a.0, All-to_set P xs a.1)
]

positive-filter : (xs : List ℕ) → All (λ x. 0 < x) (filter (λ x. ltb 0 x) xs)
positive-filter [] = tt
positive-filter (x ∷ xs) = ground (arith, positive-filter xs)

pub levels-Ascends : (players : List Contestant) → Ascends 0 (levels players)
unfolding levels
levels-Ascends players =
    let stakes = map (λ (p : Contestant). p.contributed) players in
    let positive = filter (λ x. ltb 0 x) stakes in
    Ascends-sort_levels 0 (to_set positive)
      (All-to_set (λ x. 0 < x) positive (positive-filter stakes)) (Distinct-to_set positive)

includes-filter_positive :
    (k : ℕ) (xs : List ℕ) → 0 < k → includes (filter (λ x. ltb 0 x) xs) k ≡ includes xs k
includes-filter_positive k [] h = refl
includes-filter_positive k (x ∷ xs) h = ground (arith, includes-filter_positive k xs h)

-- A positive contribution is among the levels.
pub includes-levels :
    (players : List Contestant) (k : ℕ)
    → 0 < k
    → includes (map (λ (p : Contestant). p.contributed) players) k ≡ true
    → includes (levels players) k ≡ true
unfolding levels
includes-levels players k h e =
    let positive = filter (λ x. ltb 0 x) (map (λ (p : Contestant). p.contributed) players) in
    includes-sort_levels k (to_set positive)
    ∙ includes-to_set k positive
    ∙ includes-filter_positive k (map (λ (p : Contestant). p.contributed) players) h
    ∙ e

pub Ascends-includes :
    (previous k : ℕ) (ls : List ℕ) → Ascends previous ls → includes ls k ≡ true → previous < k
Ascends-includes previous k [] a h = cc
Ascends-includes previous k (l ∷ ls) a h = ground (arith, a.0, Ascends-includes l k ls a.1)

-- How much of a contribution `k` the levels from `previous` up take, a level at a time.
abbrev pub slices : ℕ → List ℕ → ℕ → ℕ
slices previous [] k = 0
slices previous (l ∷ ls) k = (if leb l k then l - previous else 0) + slices l ls k

-- All of it, if it is one of the levels or used up before them.
pub slices-eq :
    (previous : ℕ) (ls : List ℕ) (k : ℕ)
    → Ascends previous ls
    → (k ≤ previous) ⊎ (includes ls k ≡ true)
    → slices previous ls k ≡ k - previous
slices-eq previous [] k a (inl low) = omega arith
slices-eq previous [] k a (inr h) = cc
slices-eq previous (l ∷ ls) k a (inl low) =
    let rest = slices-eq l ls k a.1 (inl (omega (arith, a.0))) in ground (arith, rest, a.0)
slices-eq previous (l ∷ ls) k a (inr h) = elim (Bool-cases (l == k)) [
  | inl here ↦ let rest = slices-eq l ls k a.1 (inl (ground arith)) in ground (arith, rest, a.0)
  | inr later ↦
      let there : includes ls k ≡ true = ground arith in
      let above = Ascends-includes l k ls a.1 there in
      let rest = slices-eq l ls k a.1 (inr there) in ground (arith, rest, a.0, above)
]
