-- ===== src/Hands/Maps.antt =====
-- What a map of texts gives after a write.
use x_poker.Base.{
  ◌≡◌, refl, sym, ap, subst, inl, inr, false, none, some, [], ◌∷◌, arith, Bool-cases, All, Bytes,
  same_bytes, same_bytes_refl, same_bytes→eq,
}
use x_poker.Hands.Stores.{TextMap, get_text, set_text, delete_text}

module _ {ℓ} {A : Type ℓ} where
  pub get_text-set_text :
      (key : Bytes) (value : A) (m : TextMap A) → get_text key (set_text key value m) ≡ some value
  get_text-set_text key value [] = rw (same_bytes_refl key) refl
  get_text-set_text key value (e ∷ m) = elim (Bool-cases (same_bytes e.0 key)) [
    | inl here ↦ rw (here, here) refl
    | inr there ↦ rw (there, there) (get_text-set_text key value m)
  ]

  pub get_text-set_text_other :
      (key other : Bytes) (value : A) (m : TextMap A)
      → same_bytes key other ≡ false
      → get_text other (set_text key value m) ≡ get_text other m
  get_text-set_text_other key other value [] apart = rw apart refl
  get_text-set_text_other key other value (e ∷ m) apart = elim (Bool-cases (same_bytes e.0 key)) [
    | inl here ↦
        let same : e.0 ≡ key = same_bytes→eq e.0 key here in
        let missed : same_bytes e.0 other ≡ false =
          subst (λ k. same_bytes k other ≡ false) (sym same) apart in
        rw (here, missed) refl
    | inr there ↦ ground (arith, there, get_text-set_text_other key other value m apart)
  ]

  -- A write of a key that was not there is undone by its removal.
  pub delete_text-set_text :
      (key : Bytes) (value : A) (m : TextMap A)
      → get_text key m ≡ none
      → delete_text key (set_text key value m) ≡ m
  delete_text-set_text key value [] absent = rw (same_bytes_refl key) refl
  delete_text-set_text key value (e ∷ m) absent = elim (Bool-cases (same_bytes e.0 key)) [
    | inl here ↦ ground (arith, here, absent)
    | inr there ↦
        let rest : get_text key m ≡ none = ground (arith, there, absent) in
        rw (there, there) (ap (◌∷◌ e) (delete_text-set_text key value m rest))
  ]

  -- What holds of all values of a map.
  pub set_text-All {κ} :
      (P : A → Type κ) (m : TextMap A) (key : Bytes) (value : A)
      → P value
      → All (λ e. P e.1) m
      → All (λ e. P e.1) (set_text key value m)
  set_text-All P [] key value p a = (p, tt)
  set_text-All P (e ∷ m) key value p a = elim (Bool-cases (same_bytes e.0 key)) [
    | inl here ↦ rw here (p, a.1)
    | inr there ↦ rw there (a.0, set_text-All P m key value p a.1)
  ]

  pub delete_text-All {κ} :
      (P : A → Type κ) (m : TextMap A) (key : Bytes)
      → All (λ e. P e.1) m
      → All (λ e. P e.1) (delete_text key m)
  delete_text-All P [] key a = tt
  delete_text-All P (e ∷ m) key a = elim (Bool-cases (same_bytes e.0 key)) [
    | inl here ↦ rw here a.1
    | inr there ↦ rw there (a.0, delete_text-All P m key a.1)
  ]

  pub get_text-All {κ} :
      (P : A → Type κ) (m : TextMap A) (key : Bytes) {value : A}
      → All (λ e. P e.1) m
      → get_text key m ≡ some value
      → P value
  get_text-All P [] key a h = cc
  get_text-All P (e ∷ m) key a h = elim (Bool-cases (same_bytes e.0 key)) [
    | inl here ↦ subst P (ground (arith, here, h)) a.0
    | inr there ↦ get_text-All P m key a.1 (ground (arith, there, h))
  ]
