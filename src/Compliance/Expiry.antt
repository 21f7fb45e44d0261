-- ===== src/Compliance/Expiry.antt =====
-- How long a decision of server/compliance/policy.js lives.
-- Evidence that is active stays so until its effective expiry.
use x_poker.Base.{
  ℕ, ◌+◌, ◌-◌, ◌*◌, ◌≤◌, ◌<◌, ◌≡◌, refl, sym, ap, subst, true, ◌&&◌, Option, none, some, List, [],
  ◌∷◌, arith, leb, lt→ltb, le→leb, ok, >>=-eq-ok, assert-eq-ok, ok-injective, length, All,
}
use x_poker.Compliance.Policy.{Policy, bad_wallet}
use x_poker.Compliance.Evidence.{
  EvidenceKind, Evidence, is_pass, latest_evidence, maximum_age_seconds, is_active,
  effective_expiry,
}
use x_poker.Compliance.Reasons.{Request, Decision, required_evidence, deposit_reasons}
use x_poker.Compliance.Decide.{sooner, decision_expiry, evaluate_compliance}
use x_poker.Compliance.Eligible.{Covers, evaluate_compliance-IsCleared}

active_until :
    (policy : Policy) (now t : ℕ) (e : Evidence)
    → is_active policy now e ≡ true
    → now ≤ t
    → t < effective_expiry policy e
    → is_active policy t e ≡ true
active_until policy now t e h le lt =
    let span = maximum_age_seconds policy e.kind * 1000 in
    let passed : is_pass e.status ≡ true = ground (arith, h) in
    let seen : e.observed_at ≤ now = ground (arith, h) in
    let early : t < e.expires_at = omega (arith, lt) in
    let fresh : t < e.observed_at + span = omega (arith, lt) in
    rw
      (
        passed,
        le→leb e.observed_at t (omega (arith, seen, le)),
        lt→ltb t e.expires_at early,
        lt→ltb (t - e.observed_at) span (omega (arith, fresh, seen, le)),
      )
      refl

sooner-le :
    (policy : Policy) (now expiry : ℕ) (item : Option Evidence)
    → sooner policy now item expiry ≤ expiry
sooner-le policy now expiry none = omega arith
sooner-le policy now expiry (some e) = ground arith

sooner-le-effective_expiry :
    (policy : Policy) (now expiry : ℕ) (e : Evidence)
    → is_active policy now e ≡ true
    → sooner policy now (some e) expiry ≤ effective_expiry policy e
sooner-le-effective_expiry policy now expiry e h = rw h (omega arith)

decision_expiry-le :
    (policy : Policy) (now : ℕ) (evidence : List Evidence) (kinds : List EvidenceKind)
    → decision_expiry policy now evidence kinds ≤ now + policy.decision_ttl_seconds * 1000
unfolding decision_expiry
decision_expiry-le policy now evidence [] = omega arith
decision_expiry-le policy now evidence (kind ∷ kinds) = omega (
  arith,
  sooner-le policy now (decision_expiry policy now evidence kinds) (latest_evidence evidence kind),
  decision_expiry-le policy now evidence kinds,
)

covered_until :
    (policy : Policy) (now t : ℕ) (evidence : List Evidence) (kinds : List EvidenceKind)
    → All (Covers policy evidence now) kinds
    → now ≤ t
    → t < decision_expiry policy now evidence kinds
    → All (Covers policy evidence t) kinds
unfolding decision_expiry
covered_until policy now t evidence [] a le lt = tt
covered_until policy now t evidence (kind ∷ kinds) ((e, found, active), a) le lt =
    let rest = decision_expiry policy now evidence kinds in
    let here : t < sooner policy now (some e) rest =
      subst (λ o. t < sooner policy now o rest) found lt in
    let own = sooner-le-effective_expiry policy now rest e active in
    let others = sooner-le policy now rest (some e) in
    (
      (e, found, active_until policy now t e active le (omega (arith, here, own))),
      covered_until policy now t evidence kinds a le (omega (arith, here, others)),
    )

-- An eligible decision does not outlive what it rests on: it lives no longer than the policy's time, and
-- at every moment until it expires the evidence of each required kind is still active.
pub evaluate_compliance-Covers :
    (policy : Policy) (r : Request) (t : ℕ) {d : Decision}
    → evaluate_compliance policy r ≡ ok d
    → d.eligible ≡ true
    → r.now ≤ t
    → t < d.expires_at
    → All (Covers policy r.evidence t) required_evidence
      × (d.expires_at ≤ r.now + policy.decision_ttl_seconds * 1000)
unfolding evaluate_compliance
evaluate_compliance-Covers policy r t {d} h eligible le lt =
    let cleared = evaluate_compliance-IsCleared policy r h eligible in
    let (_, h₁) =
      assert-eq-ok (leb 32 (length r.wallet) && leb (length r.wallet) 64) bad_wallet _ h in
    let (over, _, h₂) = >>=-eq-ok (deposit_reasons r) _ h₁ in
    let same : decision_expiry policy r.now r.evidence required_evidence ≡ d.expires_at =
      ap (λ (d : Decision). d.expires_at) (ok-injective h₂) in
    let before : t < decision_expiry policy r.now r.evidence required_evidence =
      subst (λ n. t < n) (sym same) lt in
    (
      covered_until policy r.now t r.evidence required_evidence cleared.covered le before,
      subst (λ n. n ≤ r.now + policy.decision_ttl_seconds * 1000) same
          (decision_expiry-le policy r.now r.evidence required_evidence),
    )
