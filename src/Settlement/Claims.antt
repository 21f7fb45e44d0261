-- ===== src/Settlement/Claims.antt =====
-- `buildSettlementTree` and `verifySettlementClaim` of server/settlement/merkle.js agree.
use x_poker.Base.{
  ℕ, suc, ◌+◌, ◌<◌, ◌≡◌, refl, sym, ap, subst, ◌∙◌, inl, inr, Bool, true, false, not, ◌&&◌, Option,
  some, List, [], ◌∷◌, arith, ltb, leb, ◌==◌, ltb→lt, ==_iff, Bool-cases, ok, >>=-eq-ok,
  assert-eq-ok, ok-injective, length, any, All, sum_by, All-map, Bytes, le_bytes, same_bytes,
  same_bytes_refl,
}
use x_poker.Settlement.Merkle.{
  u64_max, bad_key, bad_amount, no_payouts, duplicate_player, total_exceeds_u64, Built, Payout,
  Leaf, check_key, insert_leaf, sort_leaves, nodes_from, Tree, leaf_hash, settlement_leaf,
  make_leaves, reduce_levels, check_expected, build_tree, climb, verify_claim,
}
use x_poker.Settlement.Pushed.{get_leaf}
use x_poker.Settlement.Kept.{IsLeaf, Hashes}
use x_poker.Settlement.Loop.{
  nodes_from-Distinct, length-nodes_from, nodes_from-Stands, every_leaf, reduce_levels-Stands,
}

All-insert_leaf :
    (P : Leaf → Type 0) (l : Leaf) (ls : List Leaf) → P l → All P ls → All P (insert_leaf l ls)
All-insert_leaf P l [] p a = (p, tt)
All-insert_leaf P l (m ∷ ms) p a = elim (Bool-cases (le_bytes l.player m.player)) [
  | inl before ↦ rw before (p, a)
  | inr after ↦ rw after (a.0, All-insert_leaf P l ms p a.1)
]

All-sort_leaves : (P : Leaf → Type 0) (ls : List Leaf) → All P ls → All P (sort_leaves ls)
unfolding sort_leaves
All-sort_leaves P [] a = tt
All-sort_leaves P (l ∷ ls) a = All-insert_leaf P l (sort_leaves ls) a.0 (All-sort_leaves P ls a.1)

measure-insert_leaf :
    (f : Leaf → ℕ) (l : Leaf) (ls : List Leaf) → sum_by f (insert_leaf l ls) ≡ f l + sum_by f ls
measure-insert_leaf f l [] = refl
measure-insert_leaf f l (m ∷ ms) = ground (arith, measure-insert_leaf f l ms)

measure-sort_leaves : (f : Leaf → ℕ) (ls : List Leaf) → sum_by f (sort_leaves ls) ≡ sum_by f ls
unfolding sort_leaves
measure-sort_leaves f [] = refl
measure-sort_leaves f (l ∷ ls) =
    omega (arith, measure-insert_leaf f l (sort_leaves ls), measure-sort_leaves f ls)

length-insert_leaf : (l : Leaf) (ls : List Leaf) → length (insert_leaf l ls) ≡ suc (length ls)
length-insert_leaf l [] = refl
length-insert_leaf l (m ∷ ms) = ground (arith, length-insert_leaf l ms)

length-sort_leaves : (ls : List Leaf) → length (sort_leaves ls) ≡ length ls
unfolding sort_leaves
length-sort_leaves [] = refl
length-sort_leaves (l ∷ ls) = length-insert_leaf l (sort_leaves ls) ∙ ap suc (length-sort_leaves ls)

module _ (sha256 : List Bytes → Bytes) (session : Bytes) where
  -- A leaf as the `map` over the payouts makes it.
  abbrev IsNew : Leaf → Type 0
  IsNew l = IsLeaf sha256 session l × (l.proof ≡ [])

  make_leaves-IsNew :
      (seen : List Bytes) (ps : List Payout) {ls : List Leaf}
      → check_key session ≡ ok tt
      → make_leaves sha256 session seen ps ≡ ok ls
      → All IsNew ls
        × (length ls ≡ length ps)
        × (sum_by (λ (l : Leaf). l.amount) ls ≡ sum_by (λ (p : Payout). p.amount) ps)
  unfolding make_leaves settlement_leaf
  make_leaves-IsNew seen [] key h =
      subst (λ ls. All IsNew ls × (length ls ≡ 0) × (sum_by (λ (l : Leaf). l.amount) ls ≡ 0))
        (ok-injective h) (tt, refl, refl)
  make_leaves-IsNew seen (p ∷ ps) {ls} key h =
      let (long, h₁) = assert-eq-ok (length p.player == 32) bad_key _ h in
      let (_, h₂) = assert-eq-ok (not (any (same_bytes p.player) seen)) duplicate_player _ h₁ in
      let (fits, h₃) = assert-eq-ok (leb 1 p.amount && leb p.amount u64_max) bad_amount _ h₂ in
      let (rest, made, h₄) = >>=-eq-ok (make_leaves sha256 session (p.player ∷ seen) ps) _ h₃ in
      let (new, count, sum) = make_leaves-IsNew (p.player ∷ seen) ps key made in
      let leaf : Leaf = record {
        player = p.player;
        amount = p.amount;
        hash = leaf_hash sha256 session p.player p.amount;
        proof = [];
      } in
      let checked : settlement_leaf sha256 session p.player p.amount
          ≡ ok (leaf_hash sha256 session p.player p.amount) =
        rw (key, long, fits) refl in
      subst
        (λ (ls : List Leaf).
          All IsNew ls
          × (length ls ≡ suc (length ps))
          × (sum_by (λ (l : Leaf). l.amount) ls ≡ p.amount + sum_by (λ (p : Payout). p.amount) ps))
        (ok-injective h₄) ((((checked, refl), refl), new), ap suc count, omega (arith, sum))

  -- The claim of a leaf against a root.
  abbrev pub Verifies : Bytes → Leaf → Type 0
  Verifies root l =
      verify_claim sha256 session root l.player l.amount l.proof ≡ ok (leb (length l.proof) 32)

  climbs-Verifies :
      (root : Bytes) (ls : List Leaf)
      → length root ≡ 32
      → All (IsLeaf sha256 session) ls
      → All (λ (l : Leaf). climb sha256 l.hash l.proof ≡ root) ls
      → All (Verifies root) ls
  unfolding verify_claim
  climbs-Verifies root [] long a c = tt
  climbs-Verifies root (l ∷ ls) long ((made, hashes), a) (top, c) =
      let size = (==_iff (length root) 32).1 long in
      let same = ap (λ h. same_bytes h root) top ∙ same_bytes_refl root in
      (
        rw (made, hashes, size, same) (and-true (leb (length l.proof) 32)),
        climbs-Verifies root ls long a c,
      )
    where
      and-true : (b : Bool) → ◌≡◌ {A = Built Bool} (ok (b && true)) (ok b)
      and-true true = refl
      and-true false = refl

  module _ (size : (parts : List Bytes) → length (sha256 parts) ≡ 32) where
    leaves-Hashes :
        (k : ℕ) (ls : List Leaf) → All IsNew ls → Hashes sha256 session (nodes_from k ls)
    unfolding settlement_leaf
    leaves-Hashes k [] a = tt
    leaves-Hashes k (l ∷ ls) (((made, _), _), a) =
        let (_, h₁) = assert-eq-ok (length session == 32) bad_key _ made in
        let (_, h₂) = assert-eq-ok (length l.player == 32) bad_key _ h₁ in
        let (_, h₃) = assert-eq-ok (leb 1 l.amount && leb l.amount u64_max) bad_amount _ h₂ in
        (ap length (sym (ok-injective h₃)) ∙ size _, leaves-Hashes (k + 1) ls a)

    -- The loop on new leaves.
    new-Verifies :
        (leaves : List Leaf)
        → 0 < length leaves
        → All IsNew leaves
        → (root : Bytes) × (claims : List Leaf) × (reduce_levels sha256
              (length leaves)
              (nodes_from 0 leaves)
              leaves
            ≡ some (root, claims))
          × All (Verifies root) claims
          × (length claims ≡ length leaves)
    new-Verifies leaves some_leaf a =
        let proofless = All-map leaves (λ l h. h.1) a in
        let made = All-map leaves (λ l h. h.0) a in
        let count = length-nodes_from 0 leaves in
        let stands =
          nodes_from-Stands sha256 leaves 0 leaves
            (λ i l h. subst (λ n. get_leaf n leaves ≡ some l) (omega arith) h) proofless in
        let (root, claims, done, long, climbs, all_of, same) =
          reduce_levels-Stands sha256 session size (length leaves) (nodes_from 0 leaves) leaves
            (omega (arith, some_leaf, count)) (omega (arith, count)) (nodes_from-Distinct 0 leaves)
            stands (leaves-Hashes 0 leaves a) made in
        let tops =
          every_leaf sha256 claims root 0 leaves claims same
            (λ i. ap (λ n. get_leaf n claims) (omega arith)) climbs in
        (root, claims, done, climbs-Verifies root claims long all_of tops, same)

    -- A settlement tree that is built has a claim for each payout, and its total is that of the payouts.
    -- Every claim is verified against the root, at its player and amount, unless its proof has more than
    -- 32 hashes. The hash function gives 32 bytes.
    pub build_tree-Verifies :
        (payouts : List Payout) (expected : Option ℕ) {built : Option Tree}
        → build_tree sha256 session payouts expected ≡ ok built
        → (tree : Tree) × (built ≡ some tree)
          × All (Verifies tree.root) tree.claims
          × (length tree.claims ≡ length payouts)
          × (tree.total ≡ sum_by (λ (p : Payout). p.amount) payouts)
    unfolding build_tree
    build_tree-Verifies payouts expected h =
        let (key, h₁) = assert-eq-ok (length session == 32) bad_key _ h in
        let (some_one, h₂) = assert-eq-ok (ltb 0 (length payouts)) no_payouts _ h₁ in
        let (made, e, h₃) = >>=-eq-ok (make_leaves sha256 session [] payouts) _ h₂ in
        let leaves = sort_leaves made in
        let (_, h₄) =
          assert-eq-ok (leb (sum_by (λ (l : Leaf). l.amount) leaves) u64_max) total_exceeds_u64 _
            h₃ in
        let (_, _, h₅) =
          >>=-eq-ok (check_expected sha256 expected (sum_by (λ (l : Leaf). l.amount) leaves)) _
            h₄ in
        let keyed : check_key session ≡ ok tt = rw key refl in
        let (new, count, sum) = make_leaves-IsNew [] payouts keyed e in
        let size_of = length-sort_leaves made in
        let pos = ltb→lt 0 (length payouts) some_one in
        let (root, claims, done, all_of, same) =
          new-Verifies leaves (omega (arith, size_of, count, pos))
            (All-sort_leaves IsNew made new) in
        (
          record { root = root; total = sum_by (λ (l : Leaf). l.amount) leaves; claims = claims },
          sym (ok-injective h₅) ∙ rw done refl,
          all_of,
          same ∙ size_of ∙ count,
          measure-sort_leaves (λ (l : Leaf). l.amount) made ∙ sum,
        )
