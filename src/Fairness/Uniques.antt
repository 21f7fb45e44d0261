-- ===== src/Fairness/Uniques.antt =====
-- Sorting keeps which texts come twice; a text that comes once is found where it stands.
use x_poker.Base.{
  ◌≡◌, refl, sym, subst, Bool, true, false, not, ◌&&◌, ◌||◌, some, List, [], ◌∷◌, map, arith, find?,
  All, All-map, All-zip, Bytes, same_bytes, same_bytes_refl, has_bytes, unique_bytes, insert_by,
  sort_by,
}

pub same_bytes_comm : (xs ys : Bytes) → same_bytes xs ys ≡ same_bytes ys xs
same_bytes_comm [] [] = refl
same_bytes_comm [] (y ∷ ys) = refl
same_bytes_comm (x ∷ xs) [] = refl
same_bytes_comm (x ∷ xs) (y ∷ ys) = ground (arith, same_bytes_comm xs ys)

module _ {ℓ} {A : Type ℓ} (g : A → Bytes) (precedes : A → A → Bool) where
  has_bytes-insert_by :
      (a : Bytes) (x : A) (ys : List A)
      → has_bytes (map g (insert_by precedes x ys)) a
        ≡ (same_bytes (g x) a || has_bytes (map g ys) a)
  has_bytes-insert_by a x [] = refl
  has_bytes-insert_by a x (y ∷ ys) = ground (arith, has_bytes-insert_by a x ys)

  has_bytes-sort_by :
      (a : Bytes) (xs : List A) → has_bytes (map g (sort_by precedes xs)) a ≡ has_bytes (map g xs) a
  has_bytes-sort_by a [] = refl
  has_bytes-sort_by a (x ∷ xs) =
      ground (arith, has_bytes-insert_by a x (sort_by precedes xs), has_bytes-sort_by a xs)

  unique_bytes-insert_by :
      (x : A) (ys : List A)
      → unique_bytes (map g (insert_by precedes x ys))
        ≡ (not (has_bytes (map g ys) (g x)) && unique_bytes (map g ys))
  unique_bytes-insert_by x [] = refl
  unique_bytes-insert_by x (y ∷ ys) =
      let rest = unique_bytes-insert_by x ys in
      let has = has_bytes-insert_by (g y) x ys in
      let turn = same_bytes_comm (g x) (g y) in ground (arith, rest, has, turn)

  pub unique_bytes-sort_by :
      (xs : List A) → unique_bytes (map g (sort_by precedes xs)) ≡ unique_bytes (map g xs)
  unique_bytes-sort_by [] = refl
  unique_bytes-sort_by (x ∷ xs) =
      let inserted = unique_bytes-insert_by x (sort_by precedes xs) in
      let has = has_bytes-sort_by (g x) xs in
      let rest = unique_bytes-sort_by xs in ground (arith, inserted, has, rest)

module _ {ℓ} {A : Type ℓ} (g : A → Bytes) where
  pub has_bytes-eq-false :
      (a : Bytes) (xs : List A)
      → has_bytes (map g xs) a ≡ false
      → All (λ x. same_bytes a (g x) ≡ false) xs
  has_bytes-eq-false a [] h = tt
  has_bytes-eq-false a (x ∷ xs) h =
      let turn = same_bytes_comm a (g x) in
      (ground (arith, h, turn), has_bytes-eq-false a xs (ground (arith, h)))

module _ {ℓ κ} {A : Type ℓ} {B : Type κ} (g : A → Bytes) (f : A → B) (key : B → Bytes)
    (keeps : (x : A) → key (f x) ≡ g x) where
  -- Where no text comes twice, each item's image is found by its text.
  pub unique_bytes→find? :
      (xs : List A)
      → unique_bytes (map g xs) ≡ true
      → All (λ x. find? (λ b. same_bytes (key b) (g x)) (map f xs) ≡ some (f x)) xs
  unique_bytes→find? [] u = tt
  unique_bytes→find? (x ∷ xs) u =
      let alone : has_bytes (map g xs) (g x) ≡ false = ground (arith, u) in
      let others : unique_bytes (map g xs) ≡ true = ground (arith, u) in
      let first : same_bytes (key (f x)) (g x) ≡ true =
        subst (λ k. same_bytes k (g x) ≡ true) (sym (keeps x)) (same_bytes_refl (g x)) in
      (
        rw first refl,
        All-map xs
            (λ y h.
              let (apart, found) = h in
              let missed : same_bytes (key (f x)) (g y) ≡ false =
                subst (λ k. same_bytes k (g y) ≡ false) (sym (keeps x)) apart in
              rw missed found)
            (All-zip _ _ xs (has_bytes-eq-false g (g x) xs alone) (unique_bytes→find? xs others)),
      )
