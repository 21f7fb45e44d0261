-- ===== src/Pots/Raked.antt =====
-- The rake of server/poker/pots.js: what is taken, and that nothing else is lost.
use x_poker.Base.{
  ℕ, ◌+◌, ◌-◌, ◌*◌, ◌≤◌, min, ◌≡◌, refl, sym, ap, ◌∙◌, inl, inr, Bool, true, false, List, [], ◌∷◌,
  map, arith, ltb, leb, if◌then◌else◌, ltb→lt, le→leb, ==_iff, Bool-cases, ok, sum_by,
}
use x_poker.Pots.Types.{Pot, bad_rake, unconserved_rake}
use x_poker.Pots.Rake.{rake_pots, net, rake_target, apply_rake}
use x_poker.Pots.Refusals.{Gives, Gives-assert, Gives-check}

sum_rake :
    (remaining : ℕ) (pots : List Pot)
    → remaining ≤ sum_by (λ (p : Pot). p.amount) pots
    → sum_by (λ (p : Pot). p.rake) (rake_pots remaining pots) ≡ remaining
unfolding rake_pots
sum_rake remaining [] h = omega arith
sum_rake remaining (p ∷ ps) h = elim (Bool-cases (ltb remaining p.amount)) [
  | inl last ↦
      let rest = sum_rake (remaining - remaining) ps (omega arith) in rw last (omega (arith, rest))
  | inr whole ↦
      let le : p.amount ≤ remaining = ground (arith, whole) in
      let rest = sum_rake (remaining - p.amount) ps (omega arith) in rw whole (omega (arith, rest))
]

sum_net :
    (remaining : ℕ) (pots : List Pot)
    → sum_by net (rake_pots remaining pots)
        + sum_by (λ (p : Pot). p.rake) (rake_pots remaining pots)
      ≡ sum_by (λ (p : Pot). p.amount) pots
unfolding rake_pots
sum_net remaining [] = refl
sum_net remaining (p ∷ ps) = elim (Bool-cases (ltb remaining p.amount)) [
  | inl last ↦
      let lt = ltb→lt remaining p.amount last in
      rw last (omega (arith, sum_net (remaining - remaining) ps, lt))
  | inr whole ↦ rw whole (omega (arith, sum_net (remaining - p.amount) ps))
]

-- What a pot is, apart from its rake.
abbrev pub identity : Pot → ℕ × ℕ × ℕ × List ℕ × List ℕ
identity p = (p.index, p.amount, p.contribution_cap, p.participant_ids, p.eligible_ids)

rake_pots-identity :
    (remaining : ℕ) (pots : List Pot) → map identity (rake_pots remaining pots) ≡ map identity pots
unfolding rake_pots
rake_pots-identity remaining [] = refl
rake_pots-identity remaining (p ∷ ps) =
    ap (◌∷◌ (identity p))
      (rake_pots-identity (remaining - (if ltb remaining p.amount then remaining else p.amount)) ps)

rake_target-le-gross :
    (pots : List Pot) (rake_bps : ℕ) (flop_dealt : Bool)
    → rake_bps ≤ 10000
    → rake_target pots rake_bps flop_dealt ≤ sum_by (λ (p : Pot). p.amount) pots
rake_target-le-gross pots rake_bps false h = omega arith
rake_target-le-gross pots rake_bps true h =
    let gross = sum_by (λ (p : Pot). p.amount) pots in
    let le : gross * rake_bps ≤ gross * 10000 = grind arith in omega (arith, le)

-- With valid basis points the rake succeeds, so that its conservation check never fails; it takes exactly
-- the smaller of the percentage and the cap, nothing before the flop; the pots' net amounts and the rake
-- add up to what the pots held; and apart from rake and net amount the pots are as they were.
pub apply_rake-exact :
    (pots : List Pot) (rake_bps cap_atomic : ℕ) (flop_dealt : Bool)
    → rake_bps ≤ 10000
    → (raked : List Pot) × (apply_rake pots rake_bps cap_atomic flop_dealt
        ≡ ok (raked, min (rake_target pots rake_bps flop_dealt) cap_atomic))
      × (sum_by net raked + min (rake_target pots rake_bps flop_dealt) cap_atomic
          ≡ sum_by (λ (p : Pot). p.amount) pots)
      × (map identity raked ≡ map identity pots)
unfolding apply_rake
apply_rake-exact pots rake_bps cap_atomic flop_dealt h =
    let target = rake_target pots rake_bps flop_dealt in
    let remaining = if ltb target cap_atomic then target else cap_atomic in
    let small = rake_target-le-gross pots rake_bps flop_dealt h in
    let least : remaining ≡ min target cap_atomic = ground arith in
    let taken = sum_rake remaining pots (omega (arith, least, small)) ∙ least in
    let kept = sum_net remaining pots in
    let whole = (==_iff _ _).1 kept in
    let valid = le→leb rake_bps 10000 h in
    (
      rake_pots remaining pots,
      rw (valid, whole, taken) refl,
      ap (λ n. sum_by net (rake_pots remaining pots) + n) (sym taken) ∙ kept,
      rake_pots-identity remaining pots,
    )

-- The net amounts and the rake are what the pots held.
abbrev pub KeepsGross : List Pot → List Pot × ℕ → Type 0
KeepsGross pots r = sum_by net r.0 + r.1 ≡ sum_by (λ (p : Pot). p.amount) pots

pub apply_rake-KeepsGross :
    (pots : List Pot) (rake_bps cap_atomic : ℕ) (flop_dealt : Bool)
    → Gives (KeepsGross pots) (apply_rake pots rake_bps cap_atomic flop_dealt)
unfolding apply_rake
apply_rake-KeepsGross pots rake_bps cap_atomic flop_dealt =
    let target = rake_target pots rake_bps flop_dealt in
    let remaining = if ltb target cap_atomic then target else cap_atomic in
    let kept = sum_net remaining pots in
    Gives-assert _ (leb rake_bps 10000) bad_rake _ tt
      λ _. Gives-check _ _ _ unconserved_rake _ kept kept
