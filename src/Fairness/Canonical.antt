-- ===== src/Fairness/Canonical.antt =====
-- A value whose objects have been sorted is sorted.
use x_poker.Base.{
  ◌≡◌, refl, ap, ap₂, subst, ◌∙◌, inl, inr, true, false, if◌then◌else◌, Bool-cases, Bytes, le_bytes,
  le_bytes_total,
}
use x_poker.Fairness.Fields.{
  Json, null, boolean, number, text, array, object, Items, no_items, item, Fields, no_fields, field,
  insert_field, sort_object, sort_items, sort_fields,
}

abbrev FieldsSorted : Fields → Type 0
FieldsSorted no_fields = Unit
FieldsSorted (field k v no_fields) = Unit
FieldsSorted (field k v (field l w fs)) = (le_bytes k l ≡ true) × FieldsSorted (field l w fs)

insert_field-front :
    (k : Bytes) (v : Json) (fs : Fields)
    → FieldsSorted (field k v fs)
    → insert_field k v fs ≡ field k v fs
insert_field-front k v no_fields s = refl
insert_field-front k v (field l w fs) s = rw s.0 refl

insert_field-below :
    (k : Bytes) (v : Json) (l : Bytes) (w : Json) (fs : Fields)
    → le_bytes l k ≡ true
    → FieldsSorted (field l w fs)
    → FieldsSorted (insert_field k v fs)
    → FieldsSorted (field l w (insert_field k v fs))
insert_field-below k v l w no_fields le s t = (le, tt)
insert_field-below k v l w (field m u fs) le s t = elim (Bool-cases (le_bytes k m)) [
  | inl before ↦ rw before (le, (before, s.1))
  | inr after ↦
      let kept : FieldsSorted
          (if false then field k v (field m u fs) else field m u (insert_field k v fs)) =
        subst
          (λ b.
            FieldsSorted (if b then field k v (field m u fs) else field m u (insert_field k v fs)))
          after t in
      rw after (s.0, kept)
]

insert_field-FieldsSorted :
    (k : Bytes) (v : Json) (fs : Fields) → FieldsSorted fs → FieldsSorted (insert_field k v fs)
insert_field-FieldsSorted k v no_fields s = tt
insert_field-FieldsSorted k v (field l w no_fields) s = elim (Bool-cases (le_bytes k l)) [
  | inl before ↦ rw before (before, tt)
  | inr after ↦ rw after (le_bytes_total k l after, tt)
]
insert_field-FieldsSorted k v (field l w (field m u fs)) s = elim (Bool-cases (le_bytes k l)) [
  | inl before ↦ rw before (before, s)
  | inr after ↦ rw after (
      insert_field-below k v l w (field m u fs) (le_bytes_total k l after) s
        (insert_field-FieldsSorted k v (field m u fs) s.1))
]

sort_fields-FieldsSorted : (fs : Fields) → FieldsSorted (sort_fields fs)
unfolding sort_fields
sort_fields-FieldsSorted no_fields = tt
sort_fields-FieldsSorted (field k v fs) =
    insert_field-FieldsSorted k (sort_object v) (sort_fields fs) (sort_fields-FieldsSorted fs)

-- Every value of the fields is sorted already.
abbrev ValuesSorted : Fields → Type 0
ValuesSorted no_fields = Unit
ValuesSorted (field k v fs) = (sort_object v ≡ v) × ValuesSorted fs

insert_field-ValuesSorted :
    (k : Bytes) (v : Json) (fs : Fields)
    → sort_object v ≡ v
    → ValuesSorted fs
    → ValuesSorted (insert_field k v fs)
insert_field-ValuesSorted k v no_fields e a = (e, tt)
insert_field-ValuesSorted k v (field l w fs) e a = elim (Bool-cases (le_bytes k l)) [
  | inl before ↦ rw before (e, a)
  | inr after ↦ rw after (a.0, insert_field-ValuesSorted k v fs e a.1)
]

sort_fields_kept : (fs : Fields) → FieldsSorted fs → ValuesSorted fs → sort_fields fs ≡ fs
unfolding sort_fields
sort_fields_kept no_fields s a = refl
sort_fields_kept (field k v no_fields) s a = ap (λ w. field k w no_fields) a.0
sort_fields_kept (field k v (field l w fs)) s a =
    ap₂ (insert_field k) a.0 (sort_fields_kept (field l w fs) s.1 a.1)
    ∙ insert_field-front k v (field l w fs) s

mutual
  unfolding sort_object sort_items sort_fields

  -- Sorting twice is sorting once.
  pub sort_object_idempotent : (j : Json) → sort_object (sort_object j) ≡ sort_object j
  sort_object_idempotent null = refl
  sort_object_idempotent (boolean b) = refl
  sort_object_idempotent (number n) = refl
  sort_object_idempotent (text t) = refl
  sort_object_idempotent (array xs) = ap array (sort_items_idempotent xs)
  sort_object_idempotent (object fs) = ap object (
      sort_fields_kept (sort_fields fs) (sort_fields-FieldsSorted fs) (sort_fields-ValuesSorted fs))

  sort_items_idempotent : (xs : Items) → sort_items (sort_items xs) ≡ sort_items xs
  sort_items_idempotent no_items = refl
  sort_items_idempotent (item x xs) = ap₂ item (sort_object_idempotent x) (sort_items_idempotent xs)

  sort_fields-ValuesSorted : (fs : Fields) → ValuesSorted (sort_fields fs)
  sort_fields-ValuesSorted no_fields = tt
  sort_fields-ValuesSorted (field k v fs) =
      insert_field-ValuesSorted k (sort_object v) (sort_fields fs) (sort_object_idempotent v)
        (sort_fields-ValuesSorted fs)
