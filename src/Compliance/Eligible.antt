-- ===== src/Compliance/Eligible.antt =====
-- What an eligible decision of server/compliance/policy.js rests on.
use x_poker.Base.{
  ℕ, ◌≡◌, refl, ap, subst, ◌∙◌, inl, inr, Bool, true, false, not, ◌&&◌, Option, none, some, List,
  [], ◌∷◌, ◌++◌, ltb, leb, ◌==◌, if◌then◌else◌, Bool-cases, ok, >>=-eq-ok, assert-eq-ok,
  ok-injective, length, All, includes,
}
use x_poker.Compliance.Policy.{hard_blocked_countries, Policy, bad_wallet}
use x_poker.Compliance.Evidence.{
  EvidenceKind, identity, sanctions, geolocation, xstocks_eligibility, Evidence, is_pass,
  latest_evidence, is_active,
}
use x_poker.Compliance.Reasons.{
  Reason, evidence_stale, evidence_not_passed, age_not_verified, us_person_prohibited,
  sanctions_not_clear, pep_manual_review, xstocks_wallet_not_eligible, qualified_investor_required,
  self_excluded, Request, Decision, required_evidence, is_blocked_region, when, is_some_true,
  is_some_false, flag_of, country_of, region_of, evidence_reasons, all_evidence_reasons,
  age_verified, country_reasons, region_reasons, person_reasons, is_gambling_entry, or_zero,
  exclusion_reasons, deposit_reasons, all_reasons,
}
use x_poker.Compliance.Decide.{is_nil, evaluate_compliance}

append-eq-nil : (xs ys : List Reason) → xs ++ ys ≡ [] → (xs ≡ []) × (ys ≡ [])
append-eq-nil [] ys h = (refl, h)
append-eq-nil (x ∷ xs) ys h = cc

when-eq-nil : (c : Bool) (r : Reason) → when c r ≡ [] → c ≡ false
when-eq-nil true r h = cc
when-eq-nil false r h = refl

is_nil-eq-true : (rs : List Reason) → is_nil rs ≡ true → rs ≡ []
is_nil-eq-true [] h = refl
is_nil-eq-true (r ∷ rs) h = cc

not-eq-false : (b : Bool) → not b ≡ false → b ≡ true
not-eq-false true h = refl
not-eq-false false h = cc

-- The latest evidence of a kind is there and active at a time.
abbrev pub Covers : Policy → List Evidence → ℕ → EvidenceKind → Type 0
Covers policy evidence now kind =
    (e : Evidence) × (latest_evidence evidence kind ≡ some e) × (is_active policy now e ≡ true)

evidence_reasons-eq-nil :
    (policy : Policy) (now : ℕ) (kind : EvidenceKind) (item : Option Evidence)
    → evidence_reasons policy now kind item ≡ []
    → (e : Evidence) × (item ≡ some e) × (is_active policy now e ≡ true)
evidence_reasons-eq-nil policy now kind none h = cc
evidence_reasons-eq-nil policy now kind (some e) h = elim (Bool-cases (is_pass e.status)) [
  | inl passed ↦
      let quiet : when (not (is_active policy now e)) (evidence_stale kind) ≡ [] =
        subst
          (λ b.
            (if b
              then when (not (is_active policy now e)) (evidence_stale kind)
              else evidence_not_passed kind e.status ∷ [])
            ≡ [])
          passed h in
      (e, refl, not-eq-false _ (when-eq-nil _ _ quiet))
  | inr failed ↦
      let loud : evidence_not_passed kind e.status ∷ [] ≡ [] =
        subst
          (λ b.
            (if b
              then when (not (is_active policy now e)) (evidence_stale kind)
              else evidence_not_passed kind e.status ∷ [])
            ≡ [])
          failed h in
      cc
]

all_evidence_reasons-eq-nil :
    (policy : Policy) (now : ℕ) (evidence : List Evidence) (kinds : List EvidenceKind)
    → all_evidence_reasons policy now evidence kinds ≡ []
    → All (Covers policy evidence now) kinds
unfolding all_evidence_reasons
all_evidence_reasons-eq-nil policy now evidence [] h = tt
all_evidence_reasons-eq-nil policy now evidence (kind ∷ kinds) h =
    let (here, rest) =
      append-eq-nil (evidence_reasons policy now kind (latest_evidence evidence kind)) _ h in
    (
      evidence_reasons-eq-nil policy now kind (latest_evidence evidence kind) here,
      all_evidence_reasons-eq-nil policy now evidence kinds rest,
    )

-- A country that the policy allows and the issuer does not block.
abbrev pub Permits : Policy → Option ℕ → Type 0
Permits policy at =
    (land : ℕ) × (at ≡ some land)
    × (includes policy.allowed_countries land ≡ true)
    × (includes hard_blocked_countries land ≡ false)

country_reasons-eq-nil :
    (policy : Policy) (a b c : Reason) (at : Option ℕ)
    → country_reasons policy a b c at ≡ []
    → Permits policy at
country_reasons-eq-nil policy a b c none h = cc
country_reasons-eq-nil policy a b c (some land) h =
    let (free, approved) = append-eq-nil (when (includes hard_blocked_countries land) b) _ h in
    (land, refl, not-eq-false _ (when-eq-nil _ _ approved), when-eq-nil _ _ free)

-- A region that the issuer does not block, or none.
abbrev pub OutsideBlocked : Option (ℕ × ℕ) → Type 0
OutsideBlocked none = Unit
OutsideBlocked (some region) = is_blocked_region region ≡ false

region_reasons-eq-nil :
    (region : Option (ℕ × ℕ)) → region_reasons region ≡ [] → OutsideBlocked region
region_reasons-eq-nil none h = tt
region_reasons-eq-nil (some region) h = when-eq-nil _ _ h

-- What makes a request eligible: active evidence of every kind, a permitted country of residence and of
-- location, a verified age, no US person and no match with sanctions, a wallet of the issuer's, a region
-- that is not blocked, a qualified investor where the policy wants one; and for gambling no exclusion by
-- the player that still lasts.
pub record IsCleared (policy : Policy) (r : Request) : Type 0 where
  pub covered : All (Covers policy r.evidence r.now) required_evidence
  pub residency : Permits policy (country_of (latest_evidence r.evidence identity))
  pub location : Permits policy (country_of (latest_evidence r.evidence geolocation))
  pub of_age : age_verified policy (latest_evidence r.evidence identity) ≡ true
  pub not_us :
      is_some_false (flag_of (latest_evidence r.evidence identity) (λ e. e.us_person)) ≡ true
  pub not_sanctioned :
      is_some_false (flag_of (latest_evidence r.evidence sanctions) (λ e. e.sanctions_match)) ≡ true
  pub wallet :
      is_some_true
        (flag_of (latest_evidence r.evidence xstocks_eligibility) (λ e. e.wallet_eligible))
      ≡ true
  pub open_region : OutsideBlocked (region_of (latest_evidence r.evidence geolocation))
  pub qualified :
      policy.require_qualified_investor
        && not (
            is_some_true
              (flag_of (latest_evidence r.evidence identity) (λ e. e.qualified_investor)))
      ≡ false
  pub not_excluded :
      is_gambling_entry r.product && ltb r.now (or_zero r.limits.self_excluded_until) ≡ false
  pub not_cooling_off :
      is_gambling_entry r.product && ltb r.now (or_zero r.limits.cooling_off_until) ≡ false

all_reasons-eq-nil :
    (policy : Policy) (r : Request) (over : List Reason)
    → all_reasons policy r over ≡ []
    → IsCleared policy r
unfolding all_reasons person_reasons
all_reasons-eq-nil policy r over h =
    let (_, h₁) = append-eq-nil (when (length policy.allowed_countries == 0) _) _ h in
    let (covered, h₂) =
      append-eq-nil (all_evidence_reasons policy r.now r.evidence required_evidence) _ h₁ in
    let (person, h₃) = append-eq-nil (person_reasons policy r.evidence) _ h₂ in
    let (outside, _) = append-eq-nil (exclusion_reasons r) over h₃ in
    let (age, p₁) = append-eq-nil (when _ age_not_verified) _ person in
    let (us, p₂) = append-eq-nil (when _ us_person_prohibited) _ p₁ in
    let (clear, p₃) = append-eq-nil (when _ sanctions_not_clear) _ p₂ in
    let (_, p₄) = append-eq-nil (when _ pep_manual_review) _ p₃ in
    let (home, p₅) =
      append-eq-nil
        (country_reasons policy _ _ _ (country_of (latest_evidence r.evidence identity))) _ p₄ in
    let (place, p₆) =
      append-eq-nil
        (country_reasons policy _ _ _ (country_of (latest_evidence r.evidence geolocation))) _ p₅ in
    let (region, p₇) =
      append-eq-nil (region_reasons (region_of (latest_evidence r.evidence geolocation))) _ p₆ in
    let (wallet, p₈) =
      append-eq-nil
        (when
          (not (
            is_some_true
              (flag_of (latest_evidence r.evidence xstocks_eligibility) (λ e. e.wallet_eligible))))
          xstocks_wallet_not_eligible)
        (when
          (policy.require_qualified_investor
            && not (
                is_some_true
                  (flag_of (latest_evidence r.evidence identity) (λ e. e.qualified_investor))))
          qualified_investor_required)
        p₇ in
    let (excluded, cooling) = append-eq-nil (when _ self_excluded) _ outside in
    record {
      covered = all_evidence_reasons-eq-nil policy r.now r.evidence required_evidence covered;
      residency =
          country_reasons-eq-nil policy _ _ _ (country_of (latest_evidence r.evidence identity))
            home;
      location =
          country_reasons-eq-nil policy _ _ _ (country_of (latest_evidence r.evidence geolocation))
            place;
      of_age = not-eq-false _ (when-eq-nil _ _ age);
      not_us = not-eq-false _ (when-eq-nil _ _ us);
      not_sanctioned = not-eq-false _ (when-eq-nil _ _ clear);
      wallet = not-eq-false _ (when-eq-nil _ _ wallet);
      open_region =
          region_reasons-eq-nil (region_of (latest_evidence r.evidence geolocation)) region;
      qualified = when-eq-nil _ _ p₈;
      not_excluded = when-eq-nil _ _ excluded;
      not_cooling_off = when-eq-nil _ _ cooling;
    }

pub evaluate_compliance-IsCleared :
    (policy : Policy) (r : Request) {d : Decision}
    → evaluate_compliance policy r ≡ ok d
    → d.eligible ≡ true
    → IsCleared policy r
unfolding evaluate_compliance
evaluate_compliance-IsCleared policy r h eligible =
    let (_, h₁) =
      assert-eq-ok (leb 32 (length r.wallet) && leb (length r.wallet) 64) bad_wallet _ h in
    let (over, _, h₂) = >>=-eq-ok (deposit_reasons r) _ h₁ in
    all_reasons-eq-nil policy r over
      (is_nil-eq-true _ (ap (λ (d : Decision). d.eligible) (ok-injective h₂) ∙ eligible))
