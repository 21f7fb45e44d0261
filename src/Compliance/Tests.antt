-- ===== src/Compliance/Tests.antt =====
-- A request of server/compliance/policy.js that is eligible, one that is not, and the theorems at it.
use x_poker.Base.{
  ℕ, ◌+◌, ◌*◌, ◌≤◌, ◌≡◌, refl, true, false, none, some, List, [], ◌∷◌, arith, err, ok, All,
}
use x_poker.Compliance.Policy.{
  code, Policy, PolicyInput, bad_country, blocked_country, create_policy,
}
use x_poker.Compliance.Evidence.{
  EvidenceKind, identity, sanctions, geolocation, source_of_funds, xstocks_eligibility, pass,
  Evidence,
}
use x_poker.Compliance.Reasons.{
  table_buy_in, self_excluded, Limits, Request, Decision, required_evidence, exclusion_reasons,
}
use x_poker.Compliance.Decide.{evaluate_compliance}
use x_poker.Compliance.Allowlist.{IsLaunchable, create_policy-IsLaunchable}
use x_poker.Compliance.Eligible.{Covers}
use x_poker.Compliance.Expiry.{evaluate_compliance-Covers}

-- Germany.
abbrev home : ℕ
home = code 3 4

-- France once, and Germany in two spellings: `FR`, `De` and `DE`.
abbrev draft : PolicyInput
draft = record {
  version = 1;
  policy_sha256 = 7;
  allowed_countries = (70 ∷ 82 ∷ []) ∷ (68 ∷ 101 ∷ []) ∷ (68 ∷ 69 ∷ []) ∷ [];
  minimum_age = 21;
  evidence_max_age_seconds = 3600;
  decision_ttl_seconds = 900;
  require_qualified_investor = false;
}

abbrev policy : Policy
policy = record {
  version = 1;
  policy_sha256 = 7;
  allowed_countries = home ∷ code 5 17 ∷ [];
  minimum_age = 21;
  evidence_max_age_seconds = 3600;
  decision_ttl_seconds = 900;
  require_qualified_investor = false;
}

policy_accepted : create_policy draft ≡ ok policy
unfolding create_policy
policy_accepted = refl

-- The issuer blocks Zimbabwe, in lower case too: `zw`.
policy_refused :
    create_policy (record draft { allowed_countries = (122 ∷ 119 ∷ []) ∷ [] }) ≡ err blocked_country
unfolding create_policy
policy_refused = refl

-- A country has two letters.
policy_misspelled :
    create_policy (record draft { allowed_countries = (122 ∷ 57 ∷ []) ∷ [] }) ≡ err bad_country
unfolding create_policy
policy_misspelled = refl

abbrev item : EvidenceKind → ℕ → Evidence
item kind observed_at = record {
  id = some observed_at;
  kind = kind;
  status = pass;
  observed_at = observed_at;
  expires_at = 9000000;
  country_code = some home;
  region_code = none;
  minimum_age_met = some true;
  verified_minimum_age = some 21;
  us_person = some false;
  sanctions_match = some false;
  pep_match = some false;
  wallet_eligible = some true;
  qualified_investor = none;
}

abbrev evidence : List Evidence
evidence =
    item identity 100
    ∷ item sanctions 200
    ∷ item geolocation 300
    ∷ item source_of_funds 400
    ∷ item xstocks_eligibility 500
    ∷ []

abbrev no_limits : Limits
no_limits = record {
  self_excluded_until = none;
  cooling_off_until = none;
  limit_of = λ period. none;
  used_in = λ period. none;
}

abbrev request : Request
request = record {
  wallet =
      1 ∷ 2 ∷ 3 ∷ 4 ∷ 5 ∷ 6 ∷ 7 ∷ 8 ∷ 9 ∷ 10 ∷ 11 ∷ 12 ∷ 13 ∷ 14 ∷ 15 ∷ 16 ∷ 17 ∷ 18 ∷ 19 ∷ 20 ∷ 21
      ∷ 22 ∷ 23 ∷ 24 ∷ 25 ∷ 26 ∷ 27 ∷ 28 ∷ 29 ∷ 30 ∷ 31 ∷ 32 ∷ [];
  product = table_buy_in;
  evidence = evidence;
  limits = no_limits;
  amount_usd_minor = none;
  now = 1000;
}

-- The location is the first to go stale, after 300 seconds.
abbrev decision : Decision
decision = record {
  eligible = true;
  reasons = [];
  jurisdiction_country = some home;
  evidence_ids = 100 ∷ 200 ∷ 300 ∷ 400 ∷ 500 ∷ [];
  decided_at = 1000;
  expires_at = 300300;
}

eligible_test : evaluate_compliance policy request ≡ ok decision
unfolding evaluate_compliance
eligible_test = refl

excluded_test :
    exclusion_reasons
      (record request { limits = record no_limits { self_excluded_until = some 2000 } })
    ≡ self_excluded ∷ []
excluded_test = refl

create_policy-IsLaunchable_example : IsLaunchable draft policy
create_policy-IsLaunchable_example = create_policy-IsLaunchable draft policy_accepted

evaluate_compliance-Covers_example :
    All (Covers policy evidence 300000) required_evidence × (300300 ≤ 1000 + 900 * 1000)
evaluate_compliance-Covers_example =
    evaluate_compliance-Covers policy request 300000 eligible_test refl (omega arith) (omega arith)
