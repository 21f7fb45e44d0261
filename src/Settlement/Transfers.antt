-- ===== src/Settlement/Transfers.antt =====
-- What server/settlement/custody.js accepts.
use x_poker.Base.{
  ℕ, zero, suc, ◌+◌, ◌≤◌, ◌≡◌, sym, subst, subst₂, inl, inr, true, ◌&&◌, none, some, arith, leb,
  ◌==◌, ==_iff, Option-cases, ok, >>=-eq-ok, assert-eq-ok, ok-injective,
}
use x_poker.Settlement.Custody.{
  Operation, deposit, withdrawal, other_operation, Vault, Transfer, Expectation, bad_operation,
  minimum_above_amount, not_finalized, transfer_mismatch, invalid_token_program,
  reconciliation_invalid, is_transfer_operation, u64, minimum_of, check_endpoints,
  validate_finalized_transfer, ℤ, pos, negsuc, difference_of, Balance, balanced, surplus, shortfall,
  balance_of, Reconciliation, reconcile_custody,
}

-- The least that a deposit brings: the whole amount, where nothing less is named.

abbrev pub least_credit : Expectation → ℕ
least_credit x = elim x.minimum_credit [ none ↦ x.amount | some minimum ↦ minimum ]

-- What a transfer that is credited as a deposit, or debited as a withdrawal, has moved.

abbrev pub Moves : Vault → Expectation → Transfer → Operation → Type 0
Moves vault x t deposit =
    (t.source_owner ≡ x.wallet)
    × (t.destination_token_account ≡ vault.vault_address)
    × (t.destination_owner ≡ vault.authority_address)
    × (t.source_delta ≡ x.amount)
    × (least_credit x ≤ t.destination_delta)
    × (t.destination_delta ≤ x.amount)
Moves vault x t withdrawal =
    (t.source_token_account ≡ vault.vault_address)
    × (t.source_owner ≡ vault.authority_address)
    × (t.destination_owner ≡ x.wallet)
    × (t.source_delta ≡ x.amount)
    × (t.destination_delta ≡ x.amount)
Moves vault x t other_operation = ⊥

u64-eq-ok : (lowest value : ℕ) {n : ℕ} → u64 lowest value ≡ ok n → (n ≡ value) × (lowest ≤ value)
u64-eq-ok lowest value h = ground arith

endpoints-Moves :
    (vault : Vault) (x : Expectation) (t : Transfer) (o : Operation)
    → is_transfer_operation o ≡ true
    → check_endpoints o vault x.wallet x.amount (least_credit x) t ≡ ok tt
    → Moves vault x t o
endpoints-Moves vault x t deposit o h = let least = least_credit x in ground (arith, h)
endpoints-Moves vault x t withdrawal o h = ground (arith, h)
endpoints-Moves vault x t other_operation o h = cc

minimum_of-eq-ok :
    (x : Expectation) {n : ℕ} → minimum_of x.minimum_credit x.amount ≡ ok n → n ≡ least_credit x
minimum_of-eq-ok x {n} h = elim (Option-cases x.minimum_credit) [
  | inl absent ↦ rw absent (sym (ok-injective (subst (λ o. minimum_of o x.amount ≡ ok n) absent h)))
  | inr (m, given) ↦ rw given (u64-eq-ok 1 m (subst (λ o. minimum_of o x.amount ≡ ok n) given h)).0
]

-- A transfer that is accepted was finalised with success, on the vault's chain, in its asset and by the
-- given token program. As a deposit it went from the wallet to the vault, took the expected amount and
-- brought no more than that, and no less than the least credit; as a withdrawal it went from the vault to the wallet, for exactly the amount.
pub validate_finalized_transfer-Moves :
    (token_2022 : ℕ) (vault : Vault) (x : Expectation) (t : Transfer) {r : Transfer}
    → validate_finalized_transfer token_2022 vault x t ≡ ok r
    → (r ≡ t)
      × (t.finalized ≡ true)
      × (t.succeeded ≡ true)
      × (t.chain_id ≡ vault.chain_id)
      × (t.mint ≡ vault.asset_mint)
      × (t.token_program ≡ token_2022)
      × Moves vault x t x.operation
unfolding validate_finalized_transfer
validate_finalized_transfer-Moves token_2022 vault x t h =
    let (known, h₁) = assert-eq-ok (is_transfer_operation x.operation) bad_operation _ h in
    let (expected, e, h₂) = >>=-eq-ok (u64 1 x.amount) _ h₁ in
    let (minimum, m, h₃) = >>=-eq-ok (minimum_of x.minimum_credit expected) _ h₂ in
    let (_, h₄) = assert-eq-ok (leb minimum expected) minimum_above_amount _ h₃ in
    let (final, h₅) = assert-eq-ok (t.finalized && t.succeeded) not_finalized _ h₄ in
    let (chain, h₆) = assert-eq-ok (t.chain_id == vault.chain_id) transfer_mismatch _ h₅ in
    let (_, _, h₇) = >>=-eq-ok (u64 1 t.finalized_slot) _ h₆ in
    let (program, h₈) = assert-eq-ok (t.token_program == token_2022) invalid_token_program _ h₇ in
    let (mint, h₉) = assert-eq-ok (t.mint == vault.asset_mint) transfer_mismatch _ h₈ in
    let (_, _, h₁₀) = >>=-eq-ok (u64 1 t.source_delta) _ h₉ in
    let (_, _, h₁₁) = >>=-eq-ok (u64 1 t.destination_delta) _ h₁₀ in
    let (_, ends, h₁₂) =
      >>=-eq-ok (check_endpoints x.operation vault x.wallet expected minimum t) _ h₁₁ in
    let same = (u64-eq-ok 1 x.amount e).0 in
    let least =
      minimum_of-eq-ok x (subst (λ n. minimum_of x.minimum_credit n ≡ ok minimum) same m) in
    (
      sym (ok-injective h₁₂),
      ground (arith, final),
      ground (arith, final),
      (==_iff _ _).0 chain,
      (==_iff _ _).0 mint,
      (==_iff _ _).0 program,
      endpoints-Moves vault x t x.operation known (
          subst₂ (λ n k. check_endpoints x.operation vault x.wallet n k t ≡ ok tt) same least ends),
    )

-- What a difference says of the vault and of what is owed.
abbrev pub Reconciles : Reconciliation → ℤ → Balance → Type 0
Reconciles r (pos zero) b =
    (b ≡ balanced) × (r.vault_balance ≡ r.player_liability + r.escrow_liability)
Reconciles r (pos (suc n)) b =
    (b ≡ surplus) × (r.vault_balance ≡ r.player_liability + r.escrow_liability + suc n)
Reconciles r (negsuc n) b =
    (b ≡ shortfall) × (r.vault_balance + suc n ≡ r.player_liability + r.escrow_liability)

difference-Reconciles :
    (r : Reconciliation)
    → Reconciles r
        (difference_of r.vault_balance (r.player_liability + r.escrow_liability))
        (balance_of (difference_of r.vault_balance (r.player_liability + r.escrow_liability)))
difference-Reconciles r = ground arith

-- A vault that is found balanced holds exactly what is owed to players and escrow; one with a surplus
-- holds more by the difference, and one with a shortfall less. Pending withdrawals are within what is
-- owed to players.
pub reconcile_custody-Reconciles :
    (vault player escrow pending : ℕ) {r : Reconciliation}
    → reconcile_custody vault player escrow pending ≡ ok r
    → Reconciles r r.difference r.status
      × (r.vault_balance ≡ vault)
      × (r.player_liability ≡ player)
      × (r.escrow_liability ≡ escrow)
      × (pending ≤ player)
unfolding reconcile_custody
reconcile_custody-Reconciles vault player escrow pending h =
    let (a, ea, h₁) = >>=-eq-ok (u64 0 vault) _ h in
    let (b, eb, h₂) = >>=-eq-ok (u64 0 player) _ h₁ in
    let (c, ec, h₃) = >>=-eq-ok (u64 0 escrow) _ h₂ in
    let (d, ed, h₄) = >>=-eq-ok (u64 0 pending) _ h₃ in
    let (within, h₅) = assert-eq-ok (leb d b) reconciliation_invalid _ h₄ in
    let same_b = (u64-eq-ok 0 player eb).0 in
    let same_d = (u64-eq-ok 0 pending ed).0 in
    subst
      (λ (r : Reconciliation).
        Reconciles r r.difference r.status
        × (r.vault_balance ≡ vault)
        × (r.player_liability ≡ player)
        × (r.escrow_liability ≡ escrow)
        × (pending ≤ player))
      (ok-injective h₅)
      (
        difference-Reconciles (record {
          vault_balance = a;
          player_liability = b;
          escrow_liability = c;
          pending_withdrawal = d;
          difference = difference_of a (b + c);
          status = balance_of (difference_of a (b + c));
        }),
        (u64-eq-ok 0 vault ea).0,
        same_b,
        (u64-eq-ok 0 escrow ec).0,
        ground (arith, within, same_b, same_d),
      )
