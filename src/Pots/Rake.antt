-- ===== src/Pots/Rake.antt =====
-- `applyRake` of server/poker/pots.js.
-- The rake of the pots in turn, from what of the rake remains.
use x_poker.Base.{
  ℕ, ◌+◌, ◌-◌, ◌*◌, ◌/◌, Bool, none, some, List, [], ◌∷◌, ltb, leb, ◌==◌, if◌then◌else◌, ok, ◌>>◌,
  assert, sum_by,
}
use x_poker.Pots.Types.{Pot, bad_rake, unconserved_rake, Outcome}

unfoldable pub rake_pots : ℕ → List Pot → List Pot
rake_pots remaining [] = []
rake_pots remaining (p ∷ ps) =
    let rake = if ltb remaining p.amount then remaining else p.amount in
    record p { rake = rake; net_amount = some (p.amount - rake) } ∷ rake_pots (remaining - rake) ps

-- `pot.netAmount ?? pot.amount`
abbrev pub net : Pot → ℕ
net p = elim p.net_amount [ none ↦ p.amount | some n ↦ n ]

abbrev pub rake_target : List Pot → ℕ → Bool → ℕ
rake_target pots rake_bps flop_dealt =
    if flop_dealt then sum_by (λ (p : Pot). p.amount) pots * rake_bps / 10000 else 0

unfoldable pub apply_rake : List Pot → ℕ → ℕ → Bool → Outcome (List Pot × ℕ)
unfolding rake_pots
apply_rake pots rake_bps cap_atomic flop_dealt = do
  assert (leb rake_bps 10000) bad_rake
  let gross = sum_by (λ (p : Pot). p.amount) pots
  let target = rake_target pots rake_bps flop_dealt
  let remaining = if ltb target cap_atomic then target else cap_atomic
  let raked = rake_pots remaining pots
  let total_rake = sum_by (λ (p : Pot). p.rake) raked
  assert (sum_by net raked + total_rake == gross) unconserved_rake
  ok (raked, total_rake)
