-- ===== src/Settlement/Loop.antt =====
-- The `while` loop of `buildSettlementTree`, in server/settlement/merkle.js, from its first level to its end.
use x_poker.Base.{
  ℕ, zero, suc, ◌+◌, ◌≤◌, ◌<◌, ◌≡◌, refl, sym, ap, subst, ◌∙◌, false, some, List, [], ◌∷◌, arith,
  some-injective, length, All, includes, Distinct, All-append, Bytes,
}
use x_poker.Settlement.Merkle.{Leaf, Node, nodes_from, pair_level, reduce_levels, climb}
use x_poker.Settlement.Pushed.{get_leaf, Climbs}
use x_poker.Settlement.Rounds.{all_indexes, Stands, pair_level-indexes, pair_level-Stands}
use x_poker.Settlement.Kept.{IsLeaf, Hashes, pair_level-IsLeaf, length-pair_level}

-- The first nodes have the indexes in order.
index-from : (k j : ℕ) (ls : List Leaf) → j < k → includes (all_indexes (nodes_from k ls)) j ≡ false
index-from k j [] h = refl
index-from k j (l ∷ ls) h = ground (arith, h, index-from (k + 1) j ls (omega (arith, h)))

pub nodes_from-Distinct : (k : ℕ) (ls : List Leaf) → Distinct (all_indexes (nodes_from k ls))
nodes_from-Distinct k [] = tt
nodes_from-Distinct k (l ∷ ls) =
    (index-from (k + 1) k ls (omega arith), nodes_from-Distinct (k + 1) ls)

pub length-nodes_from : (k : ℕ) (ls : List Leaf) → length (nodes_from k ls) ≡ length ls
length-nodes_from k [] = refl
length-nodes_from k (l ∷ ls) = ap suc (length-nodes_from (k + 1) ls)

module _ (sha256 : List Bytes → Bytes) where
  abbrev pub Proofless : Leaf → Type 0
  Proofless l = l.proof ≡ []

  pub nodes_from-Stands :
      (leaves : List Leaf) (k : ℕ) (ls : List Leaf)
      → ((i : ℕ) (l : Leaf) → get_leaf i ls ≡ some l → get_leaf (k + i) leaves ≡ some l)
      → All Proofless ls
      → Stands sha256 leaves (nodes_from k ls)
  nodes_from-Stands leaves k [] at a = tt
  nodes_from-Stands leaves k (l ∷ ls) at (none_yet, a) = (
    (
      (
        l,
        subst (λ n. get_leaf n leaves ≡ some l) (omega arith) (at 0 l refl),
        ap (climb sha256 l.hash) none_yet,
      ),
      tt,
    ),
    nodes_from-Stands leaves (k + 1) ls
        (λ i m h. subst (λ n. get_leaf n leaves ≡ some m) (omega arith) (at (suc i) m h)) a,
  )

  -- If all indexes climb to a hash, all leaves do.
  pub every_leaf :
      (leaves : List Leaf) (h : Bytes) (k : ℕ) (ls rest : List Leaf)
      → length rest ≡ length ls
      → ((i : ℕ) → get_leaf (k + i) leaves ≡ get_leaf i rest)
      → All (Climbs sha256 leaves h) (all_indexes (nodes_from k ls))
      → All (λ (l : Leaf). climb sha256 l.hash l.proof ≡ h) rest
  every_leaf leaves h k ls [] e at a = tt
  every_leaf leaves h k [] (m ∷ rest) e at a = absurd (omega (arith, e))
  every_leaf leaves h k (l ∷ ls) (m ∷ rest) e at ((l', found, top), a) =
      let same : m ≡ l' =
        some-injective
          (sym (at 0) ∙ subst (λ n. get_leaf n leaves ≡ some l') (omega arith) found) in
      (
        subst (λ (l : Leaf). climb sha256 l.hash l.proof ≡ h) (sym same) top,
        every_leaf leaves h (k + 1) ls rest (omega (arith, e))
            (λ i. subst (λ n. get_leaf n leaves ≡ get_leaf i rest) (omega arith) (at (suc i))) a,
      )

  length-pair_level-pos :
      (l r : Node) (rest : List Node) (leaves : List Leaf)
      → 0 < length (pair_level sha256 (l ∷ r ∷ rest) leaves).0
  unfolding pair_level
  length-pair_level-pos l r rest leaves = omega arith

  reduce_levels-one :
      (fuel : ℕ) (n : Node) (leaves : List Leaf)
      → reduce_levels sha256 fuel (n ∷ []) leaves ≡ some (n.hash, leaves)
  unfolding reduce_levels
  reduce_levels-one zero n leaves = refl
  reduce_levels-one (suc fuel) n leaves = refl

  module _ (session : Bytes) (size : (parts : List Bytes) → length (sha256 parts) ≡ 32) where
    -- The rounds end, within the fuel, in one node, above all the leaves of the first level.
    pub reduce_levels-Stands :
        (fuel : ℕ) (level : List Node) (leaves : List Leaf)
        → 0 < length level
        → length level ≤ fuel + 1
        → Distinct (all_indexes level)
        → Stands sha256 leaves level
        → Hashes sha256 session level
        → All (IsLeaf sha256 session) leaves
        → (root : Bytes) × (claims : List Leaf) × (reduce_levels sha256 fuel level leaves
            ≡ some (root, claims))
          × (length root ≡ 32)
          × All (Climbs sha256 claims root) (all_indexes level)
          × All (IsLeaf sha256 session) claims
          × (length claims ≡ length leaves)
    unfolding reduce_levels
    reduce_levels-Stands fuel [] leaves some_node enough d s h a = absurd (omega (arith, some_node))
    reduce_levels-Stands fuel (n ∷ []) leaves some_node enough d (s, _) (h, _) a = (
      n.hash,
      leaves,
      reduce_levels-one fuel n leaves,
      h,
      All-append _ n.indexes [] s tt,
      a,
      refl,
    )
    reduce_levels-Stands zero (l ∷ r ∷ rest) leaves some_node enough d s h a =
        absurd (omega (arith, enough))
    reduce_levels-Stands (suc fuel) (l ∷ r ∷ rest) leaves some_node enough d s h a =
        let level = l ∷ r ∷ rest in
        let indexes = pair_level-indexes sha256 level leaves in
        let (kept, same, hashes) = pair_level-IsLeaf sha256 session size level leaves h a in
        let (root, claims, done, long, climbs, all_of, count) =
          reduce_levels-Stands fuel (pair_level sha256 level leaves).0
            (pair_level sha256 level leaves).1 (length-pair_level-pos l r rest leaves)
            (omega (arith, length-pair_level sha256 level leaves, enough))
            (subst Distinct (sym indexes) d) (pair_level-Stands sha256 level leaves d s) hashes
            kept in
        (
          root,
          claims,
          done,
          long,
          subst (All (Climbs sha256 claims root)) indexes climbs,
          all_of,
          count ∙ same,
        )
