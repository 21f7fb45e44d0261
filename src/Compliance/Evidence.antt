-- ===== src/Compliance/Evidence.antt =====
-- `latestEvidence`, `activeEvidence` and `effectiveEvidenceExpiry` of server/compliance/policy.js. A time
-- is in milliseconds; `instant`, which refuses a text that is no time, is left out. A country is in the
-- form that `country` gives.
use x_poker.Base.{
  ℕ, ◌+◌, ◌-◌, ◌*◌, min, Bool, true, false, ◌&&◌, Option, none, some, List, [], ◌∷◌, ltb, leb, ◌==◌,
  if◌then◌else◌, filter,
}
use x_poker.Compliance.Policy.{Policy}

pub data EvidenceKind : Type 0 where
  identity sanctions geolocation source_of_funds xstocks_eligibility : EvidenceKind

-- The status is "pass" or another text.
pub data EvidenceStatus : Type 0 where
  pass : EvidenceStatus
  other_status : ℕ → EvidenceStatus

-- A property that is `undefined` is `none`; a region is a country and a number for the part after it.
pub record Evidence : Type 0 where
  pub id : Option ℕ
  pub kind : EvidenceKind
  pub status : EvidenceStatus
  pub observed_at : ℕ
  pub expires_at : ℕ
  pub country_code : Option ℕ
  pub region_code : Option (ℕ × ℕ)
  pub minimum_age_met : Option Bool
  pub verified_minimum_age : Option ℕ
  pub us_person : Option Bool
  pub sanctions_match : Option Bool
  pub pep_match : Option Bool
  pub wallet_eligible : Option Bool
  pub qualified_investor : Option Bool

abbrev pub kind_index : EvidenceKind → ℕ
kind_index identity = 0
kind_index sanctions = 1
kind_index geolocation = 2
kind_index source_of_funds = 3
kind_index xstocks_eligibility = 4

abbrev pub same_kind : EvidenceKind → EvidenceKind → Bool
same_kind a b = kind_index a == kind_index b

abbrev pub is_pass : EvidenceStatus → Bool
is_pass pass = true
is_pass (other_status text) = false

-- The stable sort by the time of observation, the latest first.
abbrev pub insert_latest : Evidence → List Evidence → List Evidence
insert_latest e [] = e ∷ []
insert_latest e (f ∷ fs) =
    if leb f.observed_at e.observed_at then e ∷ f ∷ fs else f ∷ insert_latest e fs

unfoldable pub sort_latest : List Evidence → List Evidence
sort_latest [] = []
sort_latest (e ∷ es) = insert_latest e (sort_latest es)

abbrev pub first_of : List Evidence → Option Evidence
first_of [] = none
first_of (e ∷ es) = some e

unfoldable pub latest_evidence : List Evidence → EvidenceKind → Option Evidence
unfolding sort_latest
latest_evidence evidence kind =
    first_of (sort_latest (filter (λ (e : Evidence). same_kind e.kind kind) evidence))

-- `Math.min(policy.evidenceMaxAgeSeconds, EVIDENCE_MAX_AGE_CAP_SECONDS[item.kind] ?? ...)`
abbrev pub maximum_age_seconds : Policy → EvidenceKind → ℕ
maximum_age_seconds policy identity = policy.evidence_max_age_seconds
maximum_age_seconds policy sanctions = min policy.evidence_max_age_seconds 86400
maximum_age_seconds policy geolocation = min policy.evidence_max_age_seconds 300
maximum_age_seconds policy source_of_funds = policy.evidence_max_age_seconds
maximum_age_seconds policy xstocks_eligibility = min policy.evidence_max_age_seconds 86400

abbrev pub is_active : Policy → ℕ → Evidence → Bool
is_active policy now e =
    is_pass e.status
    && (leb e.observed_at now
        && (ltb now e.expires_at
            && ltb (now - e.observed_at) (maximum_age_seconds policy e.kind * 1000)))

abbrev pub effective_expiry : Policy → Evidence → ℕ
effective_expiry policy e =
    min e.expires_at (e.observed_at + maximum_age_seconds policy e.kind * 1000)
