-- ===== src/Settlement/Merkle.antt =====
-- server/settlement/merkle.js, over a hash function. A key is its 32 bytes (`publicKeyBytes` gives them for
-- its canonical text) and a hash its bytes (`decodeHash` gives them for its hexadecimal text).
use x_poker.Base.{
  ℕ, zero, suc, ◌+◌, Bool, not, ◌&&◌, Option, none, some, List, [], ◌∷◌, ◌++◌, ltb, leb, ◌==◌,
  if◌then◌else◌, Result, ok, assert, ◌>>=◌, ◌>>◌, length, all, any, sum_by, Bytes, le_bytes,
  same_bytes, bytes_be,
}

-- `LEAF_DOMAIN` and `NODE_DOMAIN`
abbrev pub leaf_domain : Bytes
leaf_domain =
    120 ∷ 112 ∷ 111 ∷ 107 ∷ 101 ∷ 114 ∷ 58 ∷ 115 ∷ 101 ∷ 116 ∷ 116 ∷ 108 ∷ 101 ∷ 109 ∷ 101 ∷ 110
    ∷ 116 ∷ 58 ∷ 108 ∷ 101 ∷ 97 ∷ 102 ∷ 58 ∷ 118 ∷ 49 ∷ []

abbrev pub node_domain : Bytes
node_domain =
    120 ∷ 112 ∷ 111 ∷ 107 ∷ 101 ∷ 114 ∷ 58 ∷ 115 ∷ 101 ∷ 116 ∷ 116 ∷ 108 ∷ 101 ∷ 109 ∷ 101 ∷ 110
    ∷ 116 ∷ 58 ∷ 110 ∷ 111 ∷ 100 ∷ 101 ∷ 58 ∷ 118 ∷ 49 ∷ []

abbrev pub u64_max : ℕ
u64_max = 18446744073709551615

pub data TreeError : Type 0 where
  bad_key bad_amount no_payouts duplicate_player total_exceeds_u64 unexpected_total : TreeError

abbrev pub Built : Type 0 → Type 0
Built A = Result TreeError A

pub record Payout : Type 0 where
  pub player : Bytes
  pub amount : ℕ

pub record Leaf : Type 0 where
  pub player : Bytes
  pub amount : ℕ
  pub hash : Bytes
  pub proof : List Bytes

pub record Node : Type 0 where
  pub hash : Bytes
  pub indexes : List ℕ

abbrev pub check_key : Bytes → Built (Unit {0})
check_key key = assert (length key == 32) bad_key

-- `atomicU64`
abbrev pub check_amount : ℕ → Built (Unit {0})
check_amount amount = assert (leb 1 amount && leb amount u64_max) bad_amount

abbrev pub modify_at : ℕ → (Leaf → Leaf) → List Leaf → List Leaf
modify_at i f [] = []
modify_at zero f (l ∷ ls) = f l ∷ ls
modify_at (suc i) f (l ∷ ls) = l ∷ modify_at i f ls

-- `for (const leafIndex of indexes) leaves[leafIndex].proof.push(hash)`
unfoldable pub push_each : List ℕ → Bytes → List Leaf → List Leaf
push_each [] hash leaves = leaves
push_each (i ∷ is) hash leaves =
    push_each is hash (modify_at i (λ l. record l { proof = l.proof ++ hash ∷ [] }) leaves)

abbrev pub insert_leaf : Leaf → List Leaf → List Leaf
insert_leaf l [] = l ∷ []
insert_leaf l (m ∷ ms) = if le_bytes l.player m.player then l ∷ m ∷ ms else m ∷ insert_leaf l ms

unfoldable pub sort_leaves : List Leaf → List Leaf
sort_leaves [] = []
sort_leaves (l ∷ ls) = insert_leaf l (sort_leaves ls)

abbrev pub nodes_from : ℕ → List Leaf → List Node
nodes_from index [] = []
nodes_from index (l ∷ ls) =
    record { hash = l.hash; indexes = index ∷ [] } ∷ nodes_from (index + 1) ls

pub record Tree : Type 0 where
  pub root : Bytes
  pub total : ℕ
  pub claims : List Leaf

module _ (sha256 : List Bytes → Bytes) where
  abbrev pub hash_node : Bytes → Bytes → Bytes
  hash_node first second =
      if le_bytes first second
      then sha256 (node_domain ∷ first ∷ second ∷ [])
      else sha256 (node_domain ∷ second ∷ first ∷ [])

  abbrev pub leaf_hash : Bytes → Bytes → ℕ → Bytes
  leaf_hash session player amount = sha256 (leaf_domain ∷ session ∷ player ∷ bytes_be 8 amount ∷ [])

  -- `settlementLeaf`
  unfoldable pub settlement_leaf : Bytes → Bytes → ℕ → Built Bytes
  settlement_leaf session player amount = do
    check_key session
    check_key player
    check_amount amount
    ok (leaf_hash session player amount)

  -- The `map` over the payouts, with the players seen so far.
  unfoldable pub make_leaves : Bytes → List Bytes → List Payout → Built (List Leaf)
  make_leaves session seen [] = ok []
  make_leaves session seen (p ∷ ps) = do
    check_key p.player
    assert (not (any (same_bytes p.player) seen)) duplicate_player
    check_amount p.amount
    rest ← make_leaves session (p.player ∷ seen) ps
    ok (
        record {
          player = p.player;
          amount = p.amount;
          hash = leaf_hash session p.player p.amount;
          proof = [];
        }
        ∷ rest)

  -- One round of the `while` loop.
  unfoldable pub pair_level : List Node → List Leaf → List Node × List Leaf
  unfolding push_each
  pair_level [] leaves = ([], leaves)
  pair_level (n ∷ []) leaves = (n ∷ [], leaves)
  pair_level (l ∷ r ∷ rest) leaves =
      let pushed = push_each r.indexes l.hash (push_each l.indexes r.hash leaves) in
      let next = pair_level rest pushed in
      (record { hash = hash_node l.hash r.hash; indexes = l.indexes ++ r.indexes } ∷ next.0, next.1)

  -- The `while` loop, on fuel; `none` is fuel that ran out.
  unfoldable pub reduce_levels : ℕ → List Node → List Leaf → Option (Bytes × List Leaf)
  unfolding pair_level
  reduce_levels fuel (n ∷ []) leaves = some (n.hash, leaves)
  reduce_levels zero level leaves = none
  reduce_levels (suc fuel) level leaves =
      let next = pair_level level leaves in reduce_levels fuel next.0 next.1

  abbrev pub check_expected : Option ℕ → ℕ → Built (Unit {0})
  check_expected none total = ok tt
  check_expected (some expected) total = do
    check_amount expected
    assert (total == expected) unexpected_total

  -- `buildSettlementTree`; the loop gets as many rounds as there are leaves.
  unfoldable pub build_tree : Bytes → List Payout → Option ℕ → Built (Option Tree)
  unfolding make_leaves reduce_levels sort_leaves
  build_tree session payouts expected = do
    check_key session
    assert (ltb 0 (length payouts)) no_payouts
    made ← make_leaves session [] payouts
    let leaves = sort_leaves made
    let total = sum_by (λ (l : Leaf). l.amount) leaves
    assert (leb total u64_max) total_exceeds_u64
    check_expected expected total
    ok (elim (reduce_levels (length leaves) (nodes_from 0 leaves) leaves) [
      | none ↦ none
      | some (root, claims) ↦ some (record { root = root; total = total; claims = claims })
    ])

  -- The loop over a proof.
  abbrev pub climb : Bytes → List Bytes → Bytes
  climb current [] = current
  climb current (sibling ∷ proof) = climb (hash_node current sibling) proof

  -- `verifySettlementClaim`: a proof node or a root that is no hash of 32 bytes is a false claim.
  unfoldable pub verify_claim : Bytes → Bytes → Bytes → ℕ → List Bytes → Built Bool
  unfolding settlement_leaf
  verify_claim session root player amount proof = do
    leaf ← settlement_leaf session player amount
    ok (
        leb (length proof) 32
        && (all (λ sibling. length sibling == 32) proof
            && (length root == 32 && same_bytes (climb leaf proof) root)))
