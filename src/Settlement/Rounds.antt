-- ===== src/Settlement/Rounds.antt =====
-- A round of the `while` loop of `buildSettlementTree`, in server/settlement/merkle.js, and all of them.
use x_poker.Base.{
  ℕ, ◌≡◌, refl, ap, subst, ◌∙◌, false, List, [], ◌∷◌, ◌++◌, All, includes, Distinct, All-map,
  All-zip, All-append, Bytes,
}
use x_poker.Settlement.Merkle.{Leaf, Node, push_each, hash_node, pair_level}
use x_poker.Settlement.Pushed.{
  get_leaf, get_leaf-push_each, includes-append-eq-false, Distinct-append, hash_node_comm, Climbs,
  push_each-Climbs, push_each-Climbs_other,
}

abbrev pub all_indexes : List Node → List ℕ
all_indexes [] = []
all_indexes (n ∷ ns) = n.indexes ++ all_indexes ns

append_assoc : (xs ys zs : List ℕ) → (xs ++ ys) ++ zs ≡ xs ++ (ys ++ zs)
append_assoc [] ys zs = refl
append_assoc (x ∷ xs) ys zs = ap (◌∷◌ x) (append_assoc xs ys zs)

All-split : (P : ℕ → Type 0) (xs ys : List ℕ) → All P (xs ++ ys) → All P xs × All P ys
All-split P [] ys a = (tt, a)
All-split P (x ∷ xs) ys a = let (b, c) = All-split P xs ys a.1 in ((a.0, b), c)

module _ (sha256 : List Bytes → Bytes) where
  -- All leaves below a node climb to its hash.
  abbrev pub Stands : List Leaf → List Node → Type 0
  Stands leaves level = All (λ (n : Node). All (Climbs sha256 leaves n.hash) n.indexes) level

  pair_level-get_leaf :
      (level : List Node) (leaves : List Leaf) (i : ℕ)
      → includes (all_indexes level) i ≡ false
      → get_leaf i (pair_level sha256 level leaves).1 ≡ get_leaf i leaves
  unfolding pair_level
  pair_level-get_leaf [] leaves i h = refl
  pair_level-get_leaf (n ∷ []) leaves i h = refl
  pair_level-get_leaf (l ∷ r ∷ rest) leaves i h =
      let (off_l, h₁) = includes-append-eq-false l.indexes (r.indexes ++ all_indexes rest) i h in
      let (off_r, off) = includes-append-eq-false r.indexes (all_indexes rest) i h₁ in
      pair_level-get_leaf rest _ i off
      ∙ get_leaf-push_each i r.indexes l.hash (push_each l.indexes r.hash leaves) off_r
      ∙ get_leaf-push_each i l.indexes r.hash leaves off_l

  pub pair_level-indexes :
      (level : List Node) (leaves : List Leaf)
      → all_indexes (pair_level sha256 level leaves).0 ≡ all_indexes level
  unfolding pair_level
  pair_level-indexes [] leaves = refl
  pair_level-indexes (n ∷ []) leaves = refl
  pair_level-indexes (l ∷ r ∷ rest) leaves =
      ap (λ k. (l.indexes ++ r.indexes) ++ k) (pair_level-indexes rest _)
      ∙ append_assoc l.indexes r.indexes (all_indexes rest)

  -- Leaves that a change does not touch still climb.
  unmoved :
      (before after : List Leaf) (h : Bytes) (is : List ℕ)
      → All (λ i. get_leaf i after ≡ get_leaf i before) is
      → All (Climbs sha256 before h) is
      → All (Climbs sha256 after h) is
  unmoved before after h [] same a = tt
  unmoved before after h (i ∷ is) (e, same) ((l, found, top), a) =
      ((l, e ∙ found, top), unmoved before after h is same a)

  stand_on :
      (before after : List Leaf) (level : List Node)
      → All (λ i. get_leaf i after ≡ get_leaf i before) (all_indexes level)
      → Stands before level
      → Stands after level
  stand_on before after [] same a = tt
  stand_on before after (n ∷ ns) same a =
      let (own, others) =
        All-split (λ i. get_leaf i after ≡ get_leaf i before) n.indexes (all_indexes ns) same in
      (unmoved before after n.hash n.indexes own a.0, stand_on before after ns others a.1)

  pub pair_level-Stands :
      (level : List Node) (leaves : List Leaf)
      → Distinct (all_indexes level)
      → Stands leaves level
      → Stands (pair_level sha256 level leaves).1 (pair_level sha256 level leaves).0
  unfolding pair_level
  pair_level-Stands [] leaves d a = tt
  pair_level-Stands (n ∷ []) leaves d a = a
  pair_level-Stands (l ∷ r ∷ rest) leaves d (al, (ar, a)) =
      let (dl, dr_rest, apart, apart') =
        Distinct-append l.indexes (r.indexes ++ all_indexes rest) d in
      let (dr, d_rest, off, off') = Distinct-append r.indexes (all_indexes rest) dr_rest in
      let (apart_r, apart_rest) =
        All-split (λ y. includes l.indexes y ≡ false) r.indexes (all_indexes rest) apart in
      let once = push_each l.indexes r.hash leaves in
      let pushed = push_each r.indexes l.hash once in
      let top = hash_node sha256 l.hash r.hash in
      let swap = hash_node_comm sha256 r.hash l.hash in
      let left_once = push_each-Climbs sha256 l.indexes r.hash l.hash leaves dl al in
      let off_r =
        All-map l.indexes (λ i h. (includes-append-eq-false r.indexes (all_indexes rest) i h).0)
          apart' in
      let off_rest =
        All-map l.indexes (λ i h. (includes-append-eq-false r.indexes (all_indexes rest) i h).1)
          apart' in
      let left =
        push_each-Climbs_other sha256 r.indexes l.indexes l.hash top once off_r left_once in
      let right_once =
        push_each-Climbs_other sha256 l.indexes r.indexes r.hash r.hash leaves apart_r ar in
      let right =
        subst (λ h. All (Climbs sha256 pushed h) r.indexes) swap
          (push_each-Climbs sha256 r.indexes l.hash r.hash once dr right_once) in
      let after = (pair_level sha256 rest pushed).1 in
      let still = λ (i : ℕ) (h : includes (all_indexes rest) i ≡ false).
        pair_level-get_leaf rest pushed i h in
      (
        All-append (Climbs sha256 after top) l.indexes r.indexes
            (unmoved pushed after top l.indexes (All-map l.indexes still off_rest) left)
            (unmoved pushed after top r.indexes (All-map r.indexes still off') right),
        pair_level-Stands rest pushed d_rest (
            stand_on leaves pushed rest
              (All-map (all_indexes rest)
                (λ i (h, k).
                  get_leaf-push_each i r.indexes l.hash once k
                  ∙ get_leaf-push_each i l.indexes r.hash leaves h)
                (All-zip (λ i. includes l.indexes i ≡ false) (λ i. includes r.indexes i ≡ false)
                  (all_indexes rest) apart_rest off))
              a),
      )
