-- ===== src/Compliance/Reasons.antt =====
-- The reasons that `evaluateCompliance` of server/compliance/policy.js collects. They are listed as they
-- are added, where the source sorts their texts.
use x_poker.Base.{
  ℕ, ◌+◌, Bool, true, false, not, ◌&&◌, Option, none, some, List, [], ◌∷◌, ◌++◌, ltb, leb, ◌==◌,
  if◌then◌else◌, err, ok, ◌>>=◌, length, includes,
}
use x_poker.Compliance.Policy.{code, hard_blocked_countries, Policy, bad_amount, Checked}
use x_poker.Compliance.Evidence.{
  EvidenceKind, identity, sanctions, geolocation, source_of_funds, xstocks_eligibility,
  EvidenceStatus, Evidence, is_pass, latest_evidence, is_active,
}

pub data Product : Type 0 where
  real_value_poker deposit withdrawal table_buy_in : Product
  xstocks_primary_market xstocks_secondary_transfer : Product

pub data Period : Type 0 where
  daily weekly monthly : Period

pub data Reason : Type 0 where
  launch_jurisdiction_unconfigured : Reason
  evidence_missing evidence_stale : EvidenceKind → Reason
  evidence_not_passed : EvidenceKind → EvidenceStatus → Reason
  age_not_verified us_person_prohibited sanctions_not_clear pep_manual_review : Reason
  residency_unknown location_unknown : Reason
  issuer_restricted_residency issuer_restricted_location issuer_restricted_region : Reason
  residency_not_launch_approved location_not_launch_approved : Reason
  xstocks_wallet_not_eligible qualified_investor_required : Reason
  self_excluded cooling_off : Reason
  deposit_amount_invalid : Reason
  deposit_limit : Period → Reason

-- `responsibleGaming` and `rollingDeposits`, with what is absent as `none`.
pub record Limits : Type 0 where
  pub self_excluded_until : Option ℕ
  pub cooling_off_until : Option ℕ
  pub limit_of : Period → Option ℕ
  pub used_in : Period → Option ℕ

pub record Request : Type 0 where
  pub wallet : List ℕ
  pub product : Product
  pub evidence : List Evidence
  pub limits : Limits
  pub amount_usd_minor : Option ℕ
  pub now : ℕ

pub record Decision : Type 0 where
  pub eligible : Bool
  pub reasons : List Reason
  pub jurisdiction_country : Option ℕ
  pub evidence_ids : List ℕ
  pub decided_at : ℕ
  pub expires_at : ℕ

-- `REQUIRED_EVIDENCE`
abbrev pub required_evidence : List EvidenceKind
required_evidence = identity ∷ sanctions ∷ geolocation ∷ source_of_funds ∷ xstocks_eligibility ∷ []

-- `XSTOCKS_HARD_BLOCKED_REGIONS`, all of them in `UA`.
abbrev pub is_blocked_region : ℕ × ℕ → Bool
is_blocked_region (land, part) = (land == code 20 0) && includes (9 ∷ 14 ∷ 23 ∷ 43 ∷ 65 ∷ []) part

-- `add`
abbrev pub when : Bool → Reason → List Reason
when condition reason = if condition then reason ∷ [] else []

abbrev pub is_some_true : Option Bool → Bool
is_some_true (some true) = true
is_some_true _ = false

abbrev pub is_some_false : Option Bool → Bool
is_some_false (some false) = true
is_some_false _ = false

-- A property of evidence that may be absent.
abbrev pub flag_of : Option Evidence → (Evidence → Option Bool) → Option Bool
flag_of none field = none
flag_of (some e) field = field e

abbrev pub country_of : Option Evidence → Option ℕ
country_of none = none
country_of (some e) = e.country_code

abbrev pub region_of : Option Evidence → Option (ℕ × ℕ)
region_of none = none
region_of (some e) = e.region_code

abbrev pub evidence_reasons : Policy → ℕ → EvidenceKind → Option Evidence → List Reason
evidence_reasons policy now kind none = evidence_missing kind ∷ []
evidence_reasons policy now kind (some e) =
    if is_pass e.status
    then when (not (is_active policy now e)) (evidence_stale kind)
    else evidence_not_passed kind e.status ∷ []

-- The loop over the required kinds.
unfoldable pub all_evidence_reasons : Policy → ℕ → List Evidence → List EvidenceKind → List Reason
all_evidence_reasons policy now evidence [] = []
all_evidence_reasons policy now evidence (kind ∷ kinds) =
    evidence_reasons policy now kind (latest_evidence evidence kind)
    ++ all_evidence_reasons policy now evidence kinds

abbrev pub age_verified : Policy → Option Evidence → Bool
age_verified policy none = false
age_verified policy (some e) =
    is_some_true e.minimum_age_met
    && elim e.verified_minimum_age [ none ↦ false | some age ↦ leb policy.minimum_age age ]

-- The reasons that a country, of residence or of location, gives.
abbrev pub country_reasons : Policy → Reason → Reason → Reason → Option ℕ → List Reason
country_reasons policy unknown restricted not_approved none = unknown ∷ []
country_reasons policy unknown restricted not_approved (some land) =
    when (includes hard_blocked_countries land) restricted
    ++ when (not (includes policy.allowed_countries land)) not_approved

abbrev pub region_reasons : Option (ℕ × ℕ) → List Reason
region_reasons none = []
region_reasons (some region) = when (is_blocked_region region) issuer_restricted_region

unfoldable pub person_reasons : Policy → List Evidence → List Reason
person_reasons policy evidence =
    let identity_item = latest_evidence evidence identity in
    let sanctions_item = latest_evidence evidence sanctions in
    let location_item = latest_evidence evidence geolocation in
    let xstocks_item = latest_evidence evidence xstocks_eligibility in
    when (not (age_verified policy identity_item)) age_not_verified
    ++ (when (not (is_some_false (flag_of identity_item (λ e. e.us_person)))) us_person_prohibited
        ++ (when (not (is_some_false (flag_of sanctions_item (λ e. e.sanctions_match))))
              sanctions_not_clear
            ++ (when (is_some_true (flag_of sanctions_item (λ e. e.pep_match))) pep_manual_review
                ++ (country_reasons policy residency_unknown issuer_restricted_residency
                      residency_not_launch_approved (country_of identity_item)
                    ++ (country_reasons policy location_unknown issuer_restricted_location
                          location_not_launch_approved (country_of location_item)
                        ++ (region_reasons (region_of location_item)
                            ++ (when
                                  (not
                                    (is_some_true (flag_of xstocks_item (λ e. e.wallet_eligible))))
                                  xstocks_wallet_not_eligible
                                ++ when
                                    (policy.require_qualified_investor
                                      && not (
                                          is_some_true
                                            (flag_of identity_item (λ e. e.qualified_investor))))
                                    qualified_investor_required)))))))

abbrev pub is_gambling_entry : Product → Bool
is_gambling_entry real_value_poker = true
is_gambling_entry deposit = true
is_gambling_entry table_buy_in = true
is_gambling_entry _ = false

-- `until ? instant(until) : 0`
abbrev pub or_zero : Option ℕ → ℕ
or_zero none = 0
or_zero (some n) = n

abbrev pub exclusion_reasons : Request → List Reason
exclusion_reasons r =
    when (is_gambling_entry r.product && ltb r.now (or_zero r.limits.self_excluded_until))
      self_excluded
    ++ when (is_gambling_entry r.product && ltb r.now (or_zero r.limits.cooling_off_until))
        cooling_off

-- `atomic`: an amount fits 64 bits.
abbrev pub atomic : Option ℕ → Checked (Option ℕ)
atomic none = ok none
atomic (some n) = if leb n 18446744073709551615 then ok (some n) else err bad_amount

abbrev pub period_reasons : Period → Option ℕ → Option ℕ → ℕ → List Reason
period_reasons period (some limit) (some amount) used =
    when (ltb limit (used + amount)) (deposit_limit period)
period_reasons period _ _ used = []

-- A period whose limit or amount is absent is passed over before its deposits are read.
unfoldable pub limit_reasons : Limits → Option ℕ → List Period → Checked (List Reason)
limit_reasons limits amount [] = ok []
limit_reasons limits none (period ∷ periods) = do
  limit ← atomic (limits.limit_of period)
  limit_reasons limits none periods
limit_reasons limits (some amount) (period ∷ periods) = do
  limit ← atomic (limits.limit_of period)
  used ← elim limit [ none ↦ ok none | some n ↦ atomic (limits.used_in period) ]
  rest ← limit_reasons limits (some amount) periods
  ok (period_reasons period limit (some amount) (or_zero used) ++ rest)

abbrev pub amount_reasons : Option ℕ → List Reason
amount_reasons amount = when (or_zero amount == 0) deposit_amount_invalid

unfoldable pub deposit_reasons : Request → Checked (List Reason)
unfolding limit_reasons
deposit_reasons r = elim r.product [
  | deposit ↦ do
    amount ← atomic r.amount_usd_minor
    over ← limit_reasons r.limits amount (daily ∷ weekly ∷ monthly ∷ [])
    ok (amount_reasons amount ++ over)
  | _ ↦ ok []
]

unfoldable pub all_reasons : Policy → Request → List Reason → List Reason
unfolding all_evidence_reasons person_reasons
all_reasons policy r over =
    when (length policy.allowed_countries == 0) launch_jurisdiction_unconfigured
    ++ (all_evidence_reasons policy r.now r.evidence required_evidence
        ++ (person_reasons policy r.evidence ++ (exclusion_reasons r ++ over)))
