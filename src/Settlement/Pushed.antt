-- ===== src/Settlement/Pushed.antt =====
-- What the proofs of the leaves in server/settlement/merkle.js lead to, and what a push changes.
use x_poker.Base.{
  ℕ, zero, suc, ◌≡◌, refl, sym, ap, ap₂, ◌∙◌, inl, inr, true, false, Option, none, some, List, [],
  ◌∷◌, ◌++◌, arith, ◌==◌, Bool-cases, some-injective, All, includes, Distinct, All-of, All-map,
  Bytes, le_bytes,
}
use x_poker.Settlement.Merkle.{Leaf, modify_at, push_each, hash_node, climb}

pub le_bytes-total : (a b : Bytes) → le_bytes a b ≡ false → le_bytes b a ≡ true
le_bytes-total [] b h = cc
le_bytes-total (x ∷ xs) [] h = refl
le_bytes-total (x ∷ xs) (y ∷ ys) h = ground (arith, le_bytes-total xs ys)

pub le_bytes-antisym : (a b : Bytes) → le_bytes a b ≡ true → le_bytes b a ≡ true → a ≡ b
le_bytes-antisym [] [] h k = refl
le_bytes-antisym [] (y ∷ ys) h k = cc
le_bytes-antisym (x ∷ xs) [] h k = cc
le_bytes-antisym (x ∷ xs) (y ∷ ys) h k =
    let same : x ≡ y = ground arith in
    ap₂ ◌∷◌ same (le_bytes-antisym xs ys (ground (arith, same)) (ground (arith, same)))

-- The leaf of an index.
abbrev pub get_leaf : ℕ → List Leaf → Option Leaf
get_leaf i [] = none
get_leaf zero (l ∷ ls) = some l
get_leaf (suc i) (l ∷ ls) = get_leaf i ls

pub get_leaf-modify_at :
    (i : ℕ) (f : Leaf → Leaf) (ls : List Leaf) {l : Leaf}
    → get_leaf i ls ≡ some l
    → get_leaf i (modify_at i f ls) ≡ some (f l)
get_leaf-modify_at i f [] h = cc
get_leaf-modify_at zero f (l ∷ ls) h = ap (λ l. some (f l)) (some-injective h)
get_leaf-modify_at (suc i) f (l ∷ ls) h = get_leaf-modify_at i f ls h

pub get_leaf-modify_at_other :
    (i j : ℕ) (f : Leaf → Leaf) (ls : List Leaf)
    → (i == j) ≡ false
    → get_leaf i (modify_at j f ls) ≡ get_leaf i ls
get_leaf-modify_at_other i j f [] h = refl
get_leaf-modify_at_other zero zero f (l ∷ ls) h = cc
get_leaf-modify_at_other zero (suc j) f (l ∷ ls) h = refl
get_leaf-modify_at_other (suc i) zero f (l ∷ ls) h = refl
get_leaf-modify_at_other (suc i) (suc j) f (l ∷ ls) h =
    get_leaf-modify_at_other i j f ls (ground arith)

pub get_leaf-push_each :
    (i : ℕ) (is : List ℕ) (s : Bytes) (ls : List Leaf)
    → includes is i ≡ false
    → get_leaf i (push_each is s ls) ≡ get_leaf i ls
unfolding push_each
get_leaf-push_each i [] s ls h = refl
get_leaf-push_each i (j ∷ is) s ls h =
    get_leaf-push_each i is s _ (ground (arith, h))
    ∙ get_leaf-modify_at_other i j _ ls (ground (arith, h))

pub includes-append-eq-false :
    (xs ys : List ℕ) (a : ℕ)
    → includes (xs ++ ys) a ≡ false
    → (includes xs a ≡ false) × (includes ys a ≡ false)
includes-append-eq-false [] ys a h = (refl, h)
includes-append-eq-false (x ∷ xs) ys a h =
    let rest = includes-append-eq-false xs ys a (ground (arith, h)) in
    (ground (arith, h, rest), rest.1)

-- Two lists of different indexes have none in common.
pub Distinct-append :
    (xs ys : List ℕ)
    → Distinct (xs ++ ys)
    → Distinct xs
      × Distinct ys
      × All (λ y. includes xs y ≡ false) ys
      × All (λ x. includes ys x ≡ false) xs
Distinct-append [] ys d = (tt, d, All-of ys (λ y. refl), tt)
Distinct-append (x ∷ xs) ys (new, d) =
    let (dx, dy, apart, apart') = Distinct-append xs ys d in
    let (here, there) = includes-append-eq-false xs ys x new in
    ((here, dx), dy, All-map ys (λ y h. h) (apart_from x xs ys there apart), (there, apart'))
  where
    apart_from :
        (x : ℕ) (xs ys : List ℕ)
        → includes ys x ≡ false
        → All (λ y. includes xs y ≡ false) ys
        → All (λ y. includes (x ∷ xs) y ≡ false) ys
    apart_from x xs [] h a = tt
    apart_from x xs (y ∷ ys) h a =
        (ground (arith, h, a.0), apart_from x xs ys (ground (arith, h)) a.1)

module _ (sha256 : List Bytes → Bytes) where
  pub hash_node_comm : (a b : Bytes) → hash_node sha256 a b ≡ hash_node sha256 b a
  hash_node_comm a b = elim (Bool-cases (le_bytes a b)) [
    | inl le ↦ elim (Bool-cases (le_bytes b a)) [
      | inl ge ↦
          ap₂ (hash_node sha256) (le_bytes-antisym a b le ge) (sym (le_bytes-antisym a b le ge))
      | inr lt ↦ rw (le, lt) refl
    ]
    | inr gt ↦ let ge = le_bytes-total a b gt in rw (gt, ge) refl
  ]

  pub climb-append :
      (c : Bytes) (proof : List Bytes) (s : Bytes)
      → climb sha256 c (proof ++ s ∷ []) ≡ hash_node sha256 (climb sha256 c proof) s
  climb-append c [] s = refl
  climb-append c (p ∷ proof) s = climb-append (hash_node sha256 c p) proof s

  -- The leaf of an index climbs to a hash.
  abbrev pub Climbs : List Leaf → Bytes → ℕ → Type 0
  Climbs leaves h i = (l : Leaf) × (get_leaf i leaves ≡ some l) × (climb sha256 l.hash l.proof ≡ h)

  pub push_each-Climbs :
      (is : List ℕ) (s h : Bytes) (leaves : List Leaf)
      → Distinct is
      → All (Climbs leaves h) is
      → All (Climbs (push_each is s leaves) (hash_node sha256 h s)) is
  unfolding push_each
  push_each-Climbs [] s h leaves d a = tt
  push_each-Climbs (i ∷ is) s h leaves (new, d) ((l, found, top), a) =
      let pushed = modify_at i (λ l. record l { proof = l.proof ++ s ∷ [] }) leaves in
      (
        (
          record l { proof = l.proof ++ s ∷ [] },
          get_leaf-push_each i is s pushed new ∙ get_leaf-modify_at i _ leaves found,
          climb-append l.hash l.proof s ∙ ap (λ c. hash_node sha256 c s) top,
        ),
        push_each-Climbs is s h pushed d (kept_by i is new a),
      )
    where
      kept_by :
          (i : ℕ) (is : List ℕ)
          → includes is i ≡ false
          → All (Climbs leaves h) is
          → All (Climbs (modify_at i (λ l. record l { proof = l.proof ++ s ∷ [] }) leaves) h) is
      kept_by i [] new a = tt
      kept_by i (j ∷ js) new ((l, found, top), a) = (
        (l, get_leaf-modify_at_other j i _ leaves (ground (arith, new)) ∙ found, top),
        kept_by i js (ground (arith, new)) a,
      )

  -- A push at other indexes changes nothing.
  pub push_each-Climbs_other :
      (is js : List ℕ) (s h : Bytes) (leaves : List Leaf)
      → All (λ j. includes is j ≡ false) js
      → All (Climbs leaves h) js
      → All (Climbs (push_each is s leaves) h) js
  push_each-Climbs_other is [] s h leaves apart a = tt
  push_each-Climbs_other is (j ∷ js) s h leaves (away, apart) ((l, found, top), a) = (
    (l, get_leaf-push_each j is s leaves away ∙ found, top),
    push_each-Climbs_other is js s h leaves apart a,
  )
