-- ===== src/Compliance/Decide.antt =====
-- `evaluateCompliance` of server/compliance/policy.js: the decision and its expiry. A decision without a
-- reason has the one reason "eligible" in the source.
-- The expiry of a decision: its time to live, and the active evidence.
use x_poker.Base.{
  ℕ, ◌+◌, ◌*◌, min, Bool, true, false, ◌&&◌, Option, none, some, List, [], ◌∷◌, ◌++◌, leb,
  if◌then◌else◌, ok, assert, ◌>>=◌, ◌>>◌, length,
}
use x_poker.Compliance.Policy.{Policy, bad_wallet, Checked}
use x_poker.Compliance.Evidence.{
  EvidenceKind, geolocation, Evidence, latest_evidence, is_active, effective_expiry,
}
use x_poker.Compliance.Reasons.{
  Reason, Request, Decision, required_evidence, country_of, deposit_reasons, all_reasons,
}

abbrev pub sooner : Policy → ℕ → Option Evidence → ℕ → ℕ
sooner policy now none expiry = expiry
sooner policy now (some e) expiry =
    if is_active policy now e then min (effective_expiry policy e) expiry else expiry

unfoldable pub decision_expiry : Policy → ℕ → List Evidence → List EvidenceKind → ℕ
decision_expiry policy now evidence [] = now + policy.decision_ttl_seconds * 1000
decision_expiry policy now evidence (kind ∷ kinds) =
    sooner policy now (latest_evidence evidence kind) (decision_expiry policy now evidence kinds)

unfoldable pub ids_of : List Evidence → List EvidenceKind → List ℕ
ids_of evidence [] = []
ids_of evidence (kind ∷ kinds) =
    elim (latest_evidence evidence kind) [
      | none ↦ []
      | some e ↦ elim e.id [ none ↦ [] | some id ↦ id ∷ [] ]
    ]
    ++ ids_of evidence kinds

abbrev pub is_nil : List Reason → Bool
is_nil [] = true
is_nil (r ∷ rs) = false

unfoldable pub evaluate_compliance : Policy → Request → Checked Decision
unfolding all_reasons deposit_reasons decision_expiry ids_of latest_evidence
evaluate_compliance policy r = do
  assert (leb 32 (length r.wallet) && leb (length r.wallet) 64) bad_wallet
  over ← deposit_reasons r
  let reasons = all_reasons policy r over
  ok (record {
    eligible = is_nil reasons;
    reasons = reasons;
    jurisdiction_country = country_of (latest_evidence r.evidence geolocation);
    evidence_ids = ids_of r.evidence required_evidence;
    decided_at = r.now;
    expires_at = decision_expiry policy r.now r.evidence required_evidence;
  })
