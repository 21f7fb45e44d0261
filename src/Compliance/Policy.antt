-- ===== src/Compliance/Policy.antt =====
-- `createCompliancePolicy` of server/compliance/policy.js. A country comes as the codes of its characters;
-- one that is accepted is its two upper-case letters, each from 0 for `A` to 25, in one number. The
-- patterns for the version's and the digest's text are left out.
use x_poker.Base.{
  ℕ, ◌+◌, ◌-◌, ◌*◌, Bool, not, ◌&&◌, ◌||◌, List, [], ◌∷◌, leb, if◌then◌else◌, Result, err, ok,
  assert, ◌>>=◌, ◌>>◌, any, includes, to_set, Bytes,
}

abbrev pub code : ℕ → ℕ → ℕ
code first second = first * 26 + second

-- `XSTOCKS_HARD_BLOCKED_COUNTRIES`
abbrev pub hard_blocked_countries : List ℕ
hard_blocked_countries =
    code 0 5
    ∷ code 1 24
    ∷ code 2 5
    ∷ code 2 3
    ∷ code 2 20
    ∷ code 4 19
    ∷ code 6 1
    ∷ code 7 19
    ∷ code 8 16
    ∷ code 8 17
    ∷ code 10 15
    ∷ code 11 1
    ∷ code 11 24
    ∷ code 12 11
    ∷ code 12 12
    ∷ code 12 25
    ∷ code 13 6
    ∷ code 13 8
    ∷ code 15 7
    ∷ code 17 20
    ∷ code 18 3
    ∷ code 18 14
    ∷ code 18 18
    ∷ code 18 24
    ∷ code 20 18
    ∷ code 21 4
    ∷ code 24 4
    ∷ code 25 22
    ∷ []

pub record Policy : Type 0 where
  pub version : ℕ
  pub policy_sha256 : ℕ
  pub allowed_countries : List ℕ
  pub minimum_age : ℕ
  pub evidence_max_age_seconds : ℕ
  pub decision_ttl_seconds : ℕ
  pub require_qualified_investor : Bool

-- What a policy is made from: its countries as they are written.
pub record PolicyInput : Type 0 where
  pub version : ℕ
  pub policy_sha256 : ℕ
  pub allowed_countries : List Bytes
  pub minimum_age : ℕ
  pub evidence_max_age_seconds : ℕ
  pub decision_ttl_seconds : ℕ
  pub require_qualified_investor : Bool

pub data ComplianceError : Type 0 where
  bad_country blocked_country bad_minimum_age bad_evidence_age bad_decision_ttl : ComplianceError
  bad_wallet bad_amount : ComplianceError

abbrev pub Checked : Type 0 → Type 0
Checked A = Result ComplianceError A

-- `[A-Za-z]`
abbrev pub is_letter : ℕ → Bool
is_letter c = (leb 65 c && leb c 90) || (leb 97 c && leb c 122)

-- `toUpperCase` of a letter
abbrev pub to_upper_case : ℕ → ℕ
to_upper_case c = if leb 97 c && leb c 122 then c - 32 else c

-- `country`
unfoldable pub country : Bytes → Checked ℕ
country (c ∷ d ∷ []) = do
  assert (is_letter c && is_letter d) bad_country
  ok (code (to_upper_case c - 65) (to_upper_case d - 65))
country _ = err bad_country

-- `allowedCountries.map((value) => country(value, ...))`
unfoldable pub normalize_countries : List Bytes → Checked (List ℕ)
unfolding country
normalize_countries [] = ok []
normalize_countries (value ∷ values) = do
  land ← country value
  lands ← normalize_countries values
  ok (land ∷ lands)

abbrev pub insert_country : ℕ → List ℕ → List ℕ
insert_country x [] = x ∷ []
insert_country x (y ∷ ys) = if leb x y then x ∷ y ∷ ys else y ∷ insert_country x ys

-- Letters that are compared one after the other are compared as the one number.
unfoldable pub sort_countries : List ℕ → List ℕ
sort_countries [] = []
sort_countries (x ∷ xs) = insert_country x (sort_countries xs)

-- `positiveInteger`
abbrev pub positive_integer : ℕ → ℕ → ℕ → ComplianceError → Checked (Unit {0})
positive_integer value minimum maximum e = assert (leb minimum value && leb value maximum) e

unfoldable pub create_policy : PolicyInput → Checked Policy
unfolding normalize_countries sort_countries
create_policy input = do
  lands ← normalize_countries input.allowed_countries
  let countries = sort_countries (to_set lands)
  assert (not (any (includes hard_blocked_countries) countries)) blocked_country
  positive_integer input.minimum_age 18 25 bad_minimum_age
  positive_integer input.evidence_max_age_seconds 300 2592000 bad_evidence_age
  positive_integer input.decision_ttl_seconds 60 86400 bad_decision_ttl
  ok (record {
    version = input.version;
    policy_sha256 = input.policy_sha256;
    allowed_countries = countries;
    minimum_age = input.minimum_age;
    evidence_max_age_seconds = input.evidence_max_age_seconds;
    decision_ttl_seconds = input.decision_ttl_seconds;
    require_qualified_investor = input.require_qualified_investor;
  })
