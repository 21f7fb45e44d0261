-- ===== src/Fairness/Tree.antt =====
-- The Merkle tree over the cards, from fairness/protocol.js.
use x_poker.Base.{
  ℕ, zero, suc, ◌+◌, ◌-◌, ◌/◌, ◌%◌, true, false, List, [], ◌∷◌, ltb, leb, ◌==◌, if◌then◌else◌, err,
  ok, assert, or_fail, ◌>>=◌, ◌>>◌, length, get_elem?, Bytes,
}
use x_poker.Fairness.Fields.{
  Crypto, empty_tree, undefined_read, out_of_rounds, Checked, merkle_node_domain, from_hex,
  domain_hash,
}

pub data Side : Type 0 where
  left right : Side

pub record ProofItem : Type 0 where
  pub side : Side
  pub hash : Bytes

-- The sibling's index; a node without a right neighbour is its own sibling.
abbrev pub sibling_index : ℕ → ℕ → ℕ
sibling_index size index =
    if index % 2 == 1 then index - 1 else if leb size (index + 1) then index else index + 1

abbrev pub side_of : ℕ → Side
side_of index = if index % 2 == 1 then left else right

-- `merkleProof`
unfoldable pub merkle_proof : List (List Bytes) → ℕ → Checked (List ProofItem)
merkle_proof [] index = ok []
merkle_proof (layer ∷ []) index = ok []
merkle_proof (layer ∷ next ∷ rest) index = do
  hash ← or_fail (get_elem? layer (sibling_index (length layer) index)) undefined_read
  proof ← merkle_proof (next ∷ rest) (index / 2)
  ok (record { side = side_of index; hash = hash } ∷ proof)

-- `layers.at(-1)[0]`
abbrev pub root_of : List (List Bytes) → Checked Bytes
root_of [] = err undefined_read
root_of (layer ∷ []) = or_fail (get_elem? layer 0) undefined_read
root_of (layer ∷ next ∷ rest) = root_of (next ∷ rest)

module _ (crypto : Crypto) where
  abbrev pub merkle_parent : Bytes → Bytes → Bytes
  merkle_parent l r = domain_hash crypto merkle_node_domain (l ∷ r ∷ [])

  -- One round of the `while` loop.
  abbrev pub pair_up : List Bytes → List Bytes
  pair_up [] = []
  pair_up (l ∷ []) = merkle_parent l l ∷ []
  pair_up (l ∷ r ∷ rest) = merkle_parent l r ∷ pair_up rest

  unfoldable pub layers_from : ℕ → List Bytes → Checked (List (List Bytes))
  layers_from zero layer = do assert (leb (length layer) 1) out_of_rounds; ok (layer ∷ [])
  layers_from (suc rounds) layer = elim (ltb 1 (length layer)) [
    | false ↦ ok (layer ∷ [])
    | true ↦ do above ← layers_from rounds (pair_up layer); ok (layer ∷ above)
  ]

  -- `buildMerkleLayers`, with a round for each leaf
  unfoldable pub build_merkle_layers : List Bytes → Checked (List (List Bytes))
  unfolding layers_from
  build_merkle_layers leaves = do
    assert (ltb 0 (length leaves)) empty_tree
    layers_from (length leaves) leaves

  abbrev pub step_up : Side → Bytes → Bytes → Bytes
  step_up left sibling current = merkle_parent sibling current
  step_up right sibling current = merkle_parent current sibling

  -- The loop over a proof in `verifyCardReveal`.
  unfoldable pub climb_proof : Bytes → List ProofItem → Checked Bytes
  climb_proof current [] = ok current
  climb_proof current (p ∷ proof) = do
    sibling ← from_hex p.hash
    climb_proof (step_up p.side sibling current) proof
