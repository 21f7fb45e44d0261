-- ===== src/Compliance/Allowlist.antt =====
-- The policies that server/compliance/policy.js accepts.
use x_poker.Base.{
  ℕ, ◌+◌, ◌-◌, ◌≤◌, ◌<◌, ◌≡◌, refl, sym, ap, subst, ◌∙◌, ◌⊎◌, inl, inr, true, false, not, ◌&&◌,
  ◌||◌, List, [], ◌∷◌, arith, leb, ◌==◌, Bool-cases, ok, >>=-eq-ok, assert-eq-ok, ok-injective, any,
  All, includes, to_set, Distinct, any-eq-false→All, All-map, Bytes,
}
use x_poker.Compliance.Policy.{
  code, hard_blocked_countries, Policy, PolicyInput, bad_country, blocked_country, bad_minimum_age,
  bad_evidence_age, bad_decision_ttl, is_letter, to_upper_case, country, normalize_countries,
  insert_country, sort_countries, create_policy,
}

-- A character is a letter, in either case.
abbrev pub Letter : ℕ → ℕ → Type 0
Letter c i = (i < 26) × ((c ≡ 65 + i) ⊎ (c ≡ 97 + i))

-- A text is the two letters of a country, each in either case.
pub record Spells (text : Bytes) (land : ℕ) : Type 0 where
  pub one : ℕ
  pub two : ℕ
  pub first : ℕ
  pub second : ℕ
  pub is : text ≡ one ∷ two ∷ []
  pub first_letter : Letter one first
  pub second_letter : Letter two second
  pub land_is : land ≡ code first second

-- Each text spells its country.
abbrev pub Spell : List Bytes → List ℕ → Type 0
Spell [] [] = Unit
Spell [] (land ∷ lands) = ⊥
Spell (text ∷ texts) [] = ⊥
Spell (text ∷ texts) (land ∷ lands) = Spells text land × Spell texts lands

abbrev pub Ascending : List ℕ → Type 0
Ascending [] = Unit
Ascending (x ∷ xs) = All (λ y. x < y) xs × Ascending xs

pub record IsLaunchable (input : PolicyInput) (p : Policy) : Type 0 where
  pub lands : List ℕ
  pub spelled : Spell input.allowed_countries lands
  pub same : (land : ℕ) → includes p.allowed_countries land ≡ includes lands land
  pub sorted : Ascending p.allowed_countries
  pub open_countries :
      All (λ land. includes hard_blocked_countries land ≡ false) p.allowed_countries
  pub age : (18 ≤ p.minimum_age) × (p.minimum_age ≤ 25)
  pub evidence_age : (300 ≤ p.evidence_max_age_seconds) × (p.evidence_max_age_seconds ≤ 2592000)
  pub life : (60 ≤ p.decision_ttl_seconds) × (p.decision_ttl_seconds ≤ 86400)
  pub kept :
      (p.version ≡ input.version)
      × (p.policy_sha256 ≡ input.policy_sha256)
      × (p.minimum_age ≡ input.minimum_age)
      × (p.evidence_max_age_seconds ≡ input.evidence_max_age_seconds)
      × (p.decision_ttl_seconds ≡ input.decision_ttl_seconds)
      × (p.require_qualified_investor ≡ input.require_qualified_investor)

is_letter-Letter : (c : ℕ) → is_letter c ≡ true → Letter c (to_upper_case c - 65)
is_letter-Letter c h = ground arith

country-Spells : (text : Bytes) {land : ℕ} → country text ≡ ok land → Spells text land
unfolding country
country-Spells [] h = cc
country-Spells (c ∷ []) h = cc
country-Spells (c ∷ d ∷ []) {land} h =
    let (letters, e) = assert-eq-ok (is_letter c && is_letter d) bad_country _ h in
    record {
      one = c;
      two = d;
      first = to_upper_case c - 65;
      second = to_upper_case d - 65;
      is = refl;
      first_letter = is_letter-Letter c (ground arith);
      second_letter = is_letter-Letter d (ground arith);
      land_is = sym (ok-injective e);
    }
country-Spells (c ∷ d ∷ e ∷ text) h = cc

normalize_countries-Spell :
    (texts : List Bytes) {lands : List ℕ} → normalize_countries texts ≡ ok lands → Spell texts lands
unfolding normalize_countries
normalize_countries-Spell [] h = subst (Spell []) (ok-injective h) tt
normalize_countries-Spell (text ∷ texts) h =
    let (land, one, h₁) = >>=-eq-ok (country text) _ h in
    let (lands, rest, e) = >>=-eq-ok (normalize_countries texts) _ h₁ in
    subst (Spell (text ∷ texts)) (ok-injective e)
      (country-Spells text one, normalize_countries-Spell texts rest)

includes-insert_country :
    (y x : ℕ) (ys : List ℕ) → includes (insert_country y ys) x ≡ ((y == x) || includes ys x)
includes-insert_country y x [] = refl
includes-insert_country y x (z ∷ zs) = ground (arith, includes-insert_country y x zs)

includes-sort_countries : (x : ℕ) (xs : List ℕ) → includes (sort_countries xs) x ≡ includes xs x
unfolding sort_countries
includes-sort_countries x [] = refl
includes-sort_countries x (y ∷ ys) =
    includes-insert_country y x (sort_countries ys)
    ∙ ap (◌||◌ (y == x)) (includes-sort_countries x ys)

includes-to_set : (x : ℕ) (xs : List ℕ) → includes (to_set xs) x ≡ includes xs x
includes-to_set x [] = refl
includes-to_set x (y ∷ ys) = ground (arith, includes-to_set x ys)

to_set-Distinct : (xs : List ℕ) → Distinct (to_set xs)
to_set-Distinct [] = tt
to_set-Distinct (x ∷ xs) = elim (Bool-cases (includes xs x)) [
  | inl again ↦ rw again (to_set-Distinct xs)
  | inr new ↦ rw new (includes-to_set x xs ∙ new, to_set-Distinct xs)
]

All-insert_country :
    (n y : ℕ) (ys : List ℕ) → n < y → All (λ z. n < z) ys → All (λ z. n < z) (insert_country y ys)
All-insert_country n y [] h a = (h, tt)
All-insert_country n y (z ∷ zs) h a = elim (Bool-cases (leb y z)) [
  | inl low ↦ rw low (h, a)
  | inr high ↦ rw high (a.0, All-insert_country n y zs h a.1)
]

insert_country-Ascending :
    (y : ℕ) (ys : List ℕ) → includes ys y ≡ false → Ascending ys → Ascending (insert_country y ys)
insert_country-Ascending y [] new a = (tt, tt)
insert_country-Ascending y (z ∷ zs) new a = elim (Bool-cases (leb y z)) [
  | inl low ↦
      let less : y < z = ground arith in rw low ((less, All-map zs (λ x more. omega arith) a.0), a)
  | inr high ↦ rw high (
    All-insert_country z y zs (ground arith) a.0,
    insert_country-Ascending y zs (ground arith) a.1,
  )
]

sort_countries-Ascending : (xs : List ℕ) → Distinct xs → Ascending (sort_countries xs)
unfolding sort_countries
sort_countries-Ascending [] d = tt
sort_countries-Ascending (x ∷ xs) d =
    insert_country-Ascending x (sort_countries xs) (includes-sort_countries x xs ∙ d.0)
      (sort_countries-Ascending xs d.1)

-- A policy that is accepted allows exactly the countries that its input spells, each of two letters in
-- either case, once each and in order. None of them is one that the issuer blocks, however it was spelled.
-- The age that it asks for is from 18 to 25, evidence may be from five minutes to thirty days old, a decision
-- lives from a minute to a day, and all else is as in the input.
pub create_policy-IsLaunchable :
    (input : PolicyInput) {p : Policy} → create_policy input ≡ ok p → IsLaunchable input p
unfolding create_policy
create_policy-IsLaunchable input {p} h =
    let (lands, normal, h₀) = >>=-eq-ok (normalize_countries input.allowed_countries) _ h in
    let countries = sort_countries (to_set lands) in
    let (free, h₁) =
      assert-eq-ok (not (any (includes hard_blocked_countries) countries)) blocked_country _ h₀ in
    let (age, h₂) =
      assert-eq-ok (leb 18 input.minimum_age && leb input.minimum_age 25) bad_minimum_age _ h₁ in
    let (evidence, h₃) =
      assert-eq-ok
        (leb 300 input.evidence_max_age_seconds && leb input.evidence_max_age_seconds 2592000)
        bad_evidence_age _ h₂ in
    let (ttl, h₄) =
      assert-eq-ok (leb 60 input.decision_ttl_seconds && leb input.decision_ttl_seconds 86400)
        bad_decision_ttl _ h₃ in
    subst (IsLaunchable input) (ok-injective h₄) (record {
      lands = lands;
      spelled = normalize_countries-Spell input.allowed_countries normal;
      same = λ land. includes-sort_countries land (to_set lands) ∙ includes-to_set land lands;
      sorted = sort_countries-Ascending (to_set lands) (to_set-Distinct lands);
      open_countries =
          any-eq-false→All (includes hard_blocked_countries) countries (ground (arith, free));
      age = (ground (arith, age), ground (arith, age));
      evidence_age = (ground (arith, evidence), ground (arith, evidence));
      life = (ground (arith, ttl), ground (arith, ttl));
      kept = (refl, refl, refl, refl, refl, refl);
    })
