-- ===== src/Settlement/Kept.antt =====
-- What the rounds of `buildSettlementTree`, in server/settlement/merkle.js, keep of every leaf.
use x_poker.Base.{
  ℕ, zero, suc, ◌+◌, ◌*◌, ◌≤◌, ◌≡◌, refl, ap, ◌∙◌, inl, inr, Bool, true, List, [], ◌∷◌, ◌++◌, arith,
  ◌==◌, ==_iff, Bool-cases, ok, length, all, All, Bytes, le_bytes,
}
use x_poker.Settlement.Merkle.{
  Leaf, Node, modify_at, push_each, hash_node, settlement_leaf, pair_level,
}

All-modify_at :
    (P : Leaf → Type 0) (i : ℕ) (f : Leaf → Leaf) (ls : List Leaf)
    → ((l : Leaf) → P l → P (f l))
    → All P ls
    → All P (modify_at i f ls)
All-modify_at P i f [] k a = tt
All-modify_at P zero f (l ∷ ls) k a = (k l a.0, a.1)
All-modify_at P (suc i) f (l ∷ ls) k a = (a.0, All-modify_at P i f ls k a.1)

length-modify_at :
    (i : ℕ) (f : Leaf → Leaf) (ls : List Leaf) → length (modify_at i f ls) ≡ length ls
length-modify_at i f [] = refl
length-modify_at zero f (l ∷ ls) = refl
length-modify_at (suc i) f (l ∷ ls) = ap suc (length-modify_at i f ls)

all-append-one :
    (p : Bytes → Bool) (xs : List Bytes) (x : Bytes)
    → all p xs ≡ true
    → p x ≡ true
    → all p (xs ++ x ∷ []) ≡ true
all-append-one p [] x h k = rw k refl
all-append-one p (y ∷ xs) x h k = ground (arith, h, all-append-one p xs x (ground (arith, h)) k)

module _ (sha256 : List Bytes → Bytes) (session : Bytes) where
  -- A leaf of the session, with a proof of hashes.
  abbrev pub IsLeaf : Leaf → Type 0
  IsLeaf l =
      (settlement_leaf sha256 session l.player l.amount ≡ ok l.hash)
      × (all (λ sibling. length sibling == 32) l.proof ≡ true)

  pub push_each-IsLeaf :
      (is : List ℕ) (s : Bytes) (ls : List Leaf)
      → length s ≡ 32
      → All IsLeaf ls
      → All IsLeaf (push_each is s ls) × (length (push_each is s ls) ≡ length ls)
  unfolding push_each
  push_each-IsLeaf [] s ls h a = (a, refl)
  push_each-IsLeaf (i ∷ is) s ls h a =
      let pushed = modify_at i (λ l. record l { proof = l.proof ++ s ∷ [] }) ls in
      let (rest, size) = push_each-IsLeaf is s pushed h (
        All-modify_at IsLeaf i _ ls
          (λ l (e, hashes). (e, all-append-one _ l.proof s hashes ((==_iff _ _).1 h))) a) in
      (rest, size ∙ length-modify_at i _ ls)

  -- Every node's hash has 32 bytes.
  abbrev pub Hashes : List Node → Type 0
  Hashes level = All (λ (n : Node). length n.hash ≡ 32) level

  module _ (size : (parts : List Bytes) → length (sha256 parts) ≡ 32) where
    pub length-hash_node : (a b : Bytes) → length (hash_node sha256 a b) ≡ 32
    length-hash_node a b = elim (Bool-cases (le_bytes a b)) [
      | inl le ↦ rw le (size _)
      | inr gt ↦ rw gt (size _)
    ]

    pub pair_level-IsLeaf :
        (level : List Node) (leaves : List Leaf)
        → Hashes level
        → All IsLeaf leaves
        → All IsLeaf (pair_level sha256 level leaves).1
          × (length (pair_level sha256 level leaves).1 ≡ length leaves)
          × Hashes (pair_level sha256 level leaves).0
    unfolding pair_level
    pair_level-IsLeaf [] leaves h a = (a, refl, tt)
    pair_level-IsLeaf (n ∷ []) leaves h a = (a, refl, h)
    pair_level-IsLeaf (l ∷ r ∷ rest) leaves (hl, (hr, h)) a =
        let (once, e) = push_each-IsLeaf l.indexes r.hash leaves hr a in
        let (twice, f) =
          push_each-IsLeaf r.indexes l.hash (push_each l.indexes r.hash leaves) hl once in
        let (kept, g, hashes) = pair_level-IsLeaf rest _ h twice in
        (kept, g ∙ f ∙ e, (length-hash_node l.hash r.hash, hashes))

-- A round halves a level of two nodes or more.
pub length-pair_level :
    (sha256 : List Bytes → Bytes) (level : List Node) (leaves : List Leaf)
    → length (pair_level sha256 level leaves).0 * 2 ≤ length level + 1
unfolding pair_level
length-pair_level sha256 [] leaves = omega arith
length-pair_level sha256 (n ∷ []) leaves = omega arith
length-pair_level sha256 (l ∷ r ∷ rest) leaves = omega (
  arith,
  length-pair_level sha256 rest (push_each r.indexes l.hash (push_each l.indexes r.hash leaves)),
)
