-- ===== src/Fairness/Paths.antt =====
-- Every leaf of a Merkle tree climbs to the root by its proof.
-- The outside functions give as many bytes as SHA-256 does.
use x_poker.Base.{
  ℕ, zero, suc, ◌+◌, ◌*◌, ◌/◌, ◌≤◌, ◌<◌, ◌≡◌, refl, sym, ap, subst, true, some, List, [], ◌∷◌,
  arith, ltb, lt→ltb, ==_iff, ok, some-injective, length, get_elem?, All, Bytes,
}
use x_poker.Fairness.Fields.{Crypto, from_hex, domain_hash}
use x_poker.Fairness.Tree.{
  ProofItem, sibling_index, side_of, merkle_proof, root_of, merkle_parent, pair_up, layers_from,
  step_up, climb_proof,
}
use x_poker.Fairness.Swaps.{get_elem?-All}

pub record Lawful (crypto : Crypto) : Type 0 where
  pub sha256_long : (message : Bytes) → length (crypto.sha256 message) ≡ 32
  pub hmac_long : (key message : Bytes) → length (crypto.hmac key message) ≡ 32
  pub hkdf_long : (input salt info : Bytes) → length (crypto.hkdf input salt info) ≡ 32

abbrev pub IsHash : Bytes → Type 0
IsHash h = length h ≡ 32

sibling_index-pair :
    (n i : ℕ) → suc (suc (sibling_index n i)) ≡ sibling_index (suc (suc n)) (suc (suc i))
sibling_index-pair n i = ground arith

sibling_index-zero : (n : ℕ) → 1 ≡ sibling_index (suc (suc n)) 0
sibling_index-zero n = ground arith

side_of-pair : (i : ℕ) → side_of (suc (suc i)) ≡ side_of i
side_of-pair i = ground arith

half-pair : (i : ℕ) → suc (suc i) / 2 ≡ suc (i / 2)
half-pair i = omega arith

pub from_hex-IsHash : (h : Bytes) → IsHash h → from_hex h ≡ ok h
from_hex-IsHash h long = rw ((==_iff (length h) 32).1 long) refl

module _ (crypto : Crypto) where
  -- A node's sibling, and the parent of the two in the next layer.
  abbrev HasParent : List Bytes → ℕ → Bytes → Type 0
  HasParent layer i node =
      (sibling : Bytes) × (get_elem? layer (sibling_index (length layer) i) ≡ some sibling)
      × (get_elem? (pair_up crypto layer) (i / 2) ≡ some (step_up crypto (side_of i) sibling node))

  pair_up-HasParent :
      (layer : List Bytes) (i : ℕ) {node : Bytes}
      → get_elem? layer i ≡ some node
      → HasParent layer i node
  pair_up-HasParent [] i h = cc
  pair_up-HasParent (l ∷ []) zero {node} h =
      (node, h, ap (λ n. some (merkle_parent crypto n n)) (some-injective h))
  pair_up-HasParent (l ∷ []) (suc i) h = cc
  pair_up-HasParent (l ∷ r ∷ rest) zero h = (
    r,
    subst (λ k. get_elem? (l ∷ r ∷ rest) k ≡ some r) (sibling_index-zero (length rest)) refl,
    ap (λ n. some (merkle_parent crypto n r)) (some-injective h),
  )
  pair_up-HasParent (l ∷ r ∷ rest) (suc zero) h =
      (l, refl, ap (λ n. some (merkle_parent crypto l n)) (some-injective h))
  pair_up-HasParent (l ∷ r ∷ rest) (suc (suc i)) {node} h =
      let (sibling, beside, above) = pair_up-HasParent rest i {node = node} h in
      (
        sibling,
        subst (λ k. get_elem? (l ∷ r ∷ rest) k ≡ some sibling) (sibling_index-pair (length rest) i)
            beside,
        subst
            (λ k.
              get_elem? (pair_up crypto (l ∷ r ∷ rest)) k
              ≡ some (step_up crypto (side_of (suc (suc i))) sibling node))
            (sym (half-pair i))
            (subst
              (λ s. get_elem? (pair_up crypto rest) (i / 2) ≡ some (step_up crypto s sibling node))
              (sym (side_of-pair i)) above),
      )

  length-pair_up : (layer : List Bytes) → length (pair_up crypto layer) * 2 ≤ length layer + 1
  length-pair_up [] = omega arith
  length-pair_up (l ∷ []) = omega arith
  length-pair_up (l ∷ r ∷ rest) = omega (arith, length-pair_up rest)

  length-pair_up-pos : (layer : List Bytes) → 0 < length layer → 0 < length (pair_up crypto layer)
  length-pair_up-pos [] h = absurd (omega (arith, h))
  length-pair_up-pos (l ∷ []) h = omega arith
  length-pair_up-pos (l ∷ r ∷ rest) h = omega arith

  -- The way of one leaf up the layers.
  abbrev pub LeadsTo : List (List Bytes) → Bytes → ℕ → Bytes → Type 0
  LeadsTo layers root i node =
      (proof : List ProofItem) × (merkle_proof layers i ≡ ok proof)
      × (climb_proof crypto node proof ≡ ok root)

  -- What the layers above a layer are.
  abbrev pub Climbable : List Bytes → List (List Bytes) → Bytes → Type 0
  Climbable layer above root =
      (root_of (layer ∷ above) ≡ ok root)
      × IsHash root
      × ((i : ℕ) (node : Bytes)
          → get_elem? layer i ≡ some node
          → LeadsTo (layer ∷ above) root i node)

  layers_from-step :
      (rounds : ℕ) (layer : List Bytes) (layers : List (List Bytes))
      → ltb 1 (length layer) ≡ true
      → layers_from crypto rounds (pair_up crypto layer) ≡ ok layers
      → layers_from crypto (suc rounds) layer ≡ ok (layer ∷ layers)
  unfolding layers_from
  layers_from-step rounds layer layers many built = rw (layers_from, many, built) refl

  module _ (lawful : Lawful crypto) where
    merkle_parent-IsHash : (l r : Bytes) → IsHash (merkle_parent crypto l r)
    unfolding domain_hash
    merkle_parent-IsHash l r = lawful.sha256_long _

    pair_up-IsHash : (layer : List Bytes) → All IsHash (pair_up crypto layer)
    pair_up-IsHash [] = tt
    pair_up-IsHash (l ∷ []) = (merkle_parent-IsHash l l, tt)
    pair_up-IsHash (l ∷ r ∷ rest) = (merkle_parent-IsHash l r, pair_up-IsHash rest)

    one-LeadsTo :
        (root : Bytes) (i : ℕ) (node : Bytes)
        → get_elem? (root ∷ []) i ≡ some node
        → LeadsTo ((root ∷ []) ∷ []) root i node
    unfolding merkle_proof climb_proof
    one-LeadsTo root zero node h = ([], refl, ap ok (sym (some-injective h)))
    one-LeadsTo root (suc i) node h = cc

    step_up-LeadsTo :
        (layer next : List Bytes) (above : List (List Bytes)) (root : Bytes) (i : ℕ) (node : Bytes)
        → All IsHash layer
        → HasParent layer i node
        → ((m : Bytes) → get_elem? next (i / 2) ≡ some m → LeadsTo (next ∷ above) root (i / 2) m)
        → pair_up crypto layer ≡ next
        → LeadsTo (layer ∷ next ∷ above) root i node
    unfolding merkle_proof climb_proof
    step_up-LeadsTo layer next above root i node long (sibling, beside, parent) up same =
        let moved : get_elem? next (i / 2) ≡ some (step_up crypto (side_of i) sibling node) =
          subst (λ xs. get_elem? xs (i / 2) ≡ some (step_up crypto (side_of i) sibling node)) same
            parent in
        let (proof, found, climbs) = up (step_up crypto (side_of i) sibling node) moved in
        (
          record { side = side_of i; hash = sibling } ∷ proof,
          rw (beside, found) refl,
          rw (from_hex-IsHash sibling (get_elem?-All IsHash layer _ long beside)) climbs,
        )

    -- The rounds end at a root, which every node of the layer leads to.
    pub layers_from-Climbable :
        (rounds : ℕ) (layer : List Bytes)
        → 0 < length layer
        → length layer ≤ rounds + 1
        → All IsHash layer
        → (above : List (List Bytes)) × (root : Bytes) × (layers_from crypto rounds layer
            ≡ ok (layer ∷ above))
          × Climbable layer above root
    unfolding layers_from
    layers_from-Climbable rounds [] some_node enough long = absurd (omega (arith, some_node))
    layers_from-Climbable zero (n ∷ []) some_node enough long =
        ([], n, refl, (refl, long.0, one-LeadsTo n))
    layers_from-Climbable (suc rounds) (n ∷ []) some_node enough long =
        ([], n, refl, (refl, long.0, one-LeadsTo n))
    layers_from-Climbable zero (l ∷ r ∷ rest) some_node enough long = absurd (omega (arith, enough))
    layers_from-Climbable (suc rounds) (l ∷ r ∷ rest) some_node enough long =
        let layer = l ∷ r ∷ rest in
        let (above, root, built, (top, hashed, up)) =
          layers_from-Climbable rounds (pair_up crypto layer) (length-pair_up-pos layer some_node)
            (omega (arith, length-pair_up rest, enough)) (pair_up-IsHash layer) in
        (
          pair_up crypto layer ∷ above,
          root,
          layers_from-step rounds layer _ (lt→ltb 1 (length layer) (omega arith)) built,
          (
            top,
            hashed,
            λ i node h.
                step_up-LeadsTo layer (pair_up crypto layer) above root i node long
                  (pair_up-HasParent layer i h) (λ m g. up (i / 2) m g) refl,
          ),
        )
