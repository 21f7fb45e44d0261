-- ===== src/Settlement/Custody.antt =====
-- `validateFinalizedTransfer` and `reconcileCustody` of server/settlement/custody.js. Keys, signatures and
-- programs are numbers, for they are only compared; their texts are taken as canonical.
use x_poker.Base.{
  ℕ, zero, suc, ◌+◌, ◌-◌, Bool, true, false, ◌&&◌, Option, none, some, leb, ◌==◌, if◌then◌else◌,
  Result, err, ok, assert, ◌>>=◌, ◌>>◌,
}

pub data Operation : Type 0 where
  deposit withdrawal other_operation : Operation

pub record Vault : Type 0 where
  pub chain_id : ℕ
  pub asset_mint : ℕ
  pub vault_address : ℕ
  pub authority_address : ℕ

pub record Transfer : Type 0 where
  pub finalized : Bool
  pub succeeded : Bool
  pub chain_id : ℕ
  pub signature : ℕ
  pub instruction_index : ℕ
  pub finalized_slot : ℕ
  pub mint : ℕ
  pub token_program : ℕ
  pub source_token_account : ℕ
  pub destination_token_account : ℕ
  pub source_owner : ℕ
  pub destination_owner : ℕ
  pub source_delta : ℕ
  pub destination_delta : ℕ

pub record Expectation : Type 0 where
  pub operation : Operation
  pub wallet : ℕ
  pub amount : ℕ
  pub minimum_credit : Option ℕ

pub data CustodyError : Type 0 where
  bad_operation bad_u64 minimum_above_amount not_finalized transfer_mismatch : CustodyError
  invalid_token_program amount_mismatch reconciliation_invalid : CustodyError

abbrev pub Verdict : Type 0 → Type 0
Verdict A = Result CustodyError A

abbrev pub is_transfer_operation : Operation → Bool
is_transfer_operation other_operation = false
is_transfer_operation _ = true

-- `u64`, by its lowest value.
abbrev pub u64 : ℕ → ℕ → Verdict ℕ
u64 lowest value =
    if leb lowest value && leb value 18446744073709551615 then ok value else err bad_u64

abbrev pub minimum_of : Option ℕ → ℕ → Verdict ℕ
minimum_of none expected = ok expected
minimum_of (some minimum) expected = u64 1 minimum

abbrev pub check_deposit : Vault → ℕ → ℕ → ℕ → Transfer → Verdict (Unit {0})
check_deposit vault wallet expected minimum t = do
  assert
      ((t.source_owner == wallet)
        && ((t.destination_token_account == vault.vault_address)
            && (t.destination_owner == vault.authority_address)))
      transfer_mismatch
  assert
      ((t.source_delta == expected)
        && (leb minimum t.destination_delta && leb t.destination_delta expected))
      amount_mismatch

abbrev pub check_withdrawal : Vault → ℕ → ℕ → Transfer → Verdict (Unit {0})
check_withdrawal vault wallet expected t = do
  assert
      ((t.source_token_account == vault.vault_address)
        && ((t.source_owner == vault.authority_address) && (t.destination_owner == wallet)))
      transfer_mismatch
  assert ((t.source_delta == expected) && (t.destination_delta == expected)) amount_mismatch

abbrev pub check_endpoints : Operation → Vault → ℕ → ℕ → ℕ → Transfer → Verdict (Unit {0})
check_endpoints deposit vault wallet expected minimum t =
    check_deposit vault wallet expected minimum t
check_endpoints _ vault wallet expected minimum t = check_withdrawal vault wallet expected t

-- A validated transfer, as it was given; `token_2022` is the constant `TOKEN_2022_PROGRAM`.
unfoldable pub validate_finalized_transfer : ℕ → Vault → Expectation → Transfer → Verdict Transfer
validate_finalized_transfer token_2022 vault x t = do
  assert (is_transfer_operation x.operation) bad_operation
  expected ← u64 1 x.amount
  minimum ← minimum_of x.minimum_credit expected
  assert (leb minimum expected) minimum_above_amount
  assert (t.finalized && t.succeeded) not_finalized
  assert (t.chain_id == vault.chain_id) transfer_mismatch
  slot ← u64 1 t.finalized_slot
  assert (t.token_program == token_2022) invalid_token_program
  assert (t.mint == vault.asset_mint) transfer_mismatch
  source_delta ← u64 1 t.source_delta
  destination_delta ← u64 1 t.destination_delta
  check_endpoints x.operation vault x.wallet expected minimum t
  ok t

-- A whole number of either sign: `negsuc n` is -(n + 1).
pub data ℤ : Type 0 where
  pos negsuc : ℕ → ℤ

abbrev pub difference_of : ℕ → ℕ → ℤ
difference_of a b = if leb b a then pos (a - b) else negsuc (b - a - 1)

pub data Balance : Type 0 where
  balanced surplus shortfall : Balance

abbrev pub balance_of : ℤ → Balance
balance_of (pos zero) = balanced
balance_of (pos (suc n)) = surplus
balance_of (negsuc n) = shortfall

pub record Reconciliation : Type 0 where
  pub vault_balance : ℕ
  pub player_liability : ℕ
  pub escrow_liability : ℕ
  pub pending_withdrawal : ℕ
  pub difference : ℤ
  pub status : Balance

unfoldable pub reconcile_custody : ℕ → ℕ → ℕ → ℕ → Verdict Reconciliation
reconcile_custody vault player escrow pending = do
  vault ← u64 0 vault
  player ← u64 0 player
  escrow ← u64 0 escrow
  pending ← u64 0 pending
  assert (leb pending player) reconciliation_invalid
  let difference = difference_of vault (player + escrow)
  ok (record {
    vault_balance = vault;
    player_liability = player;
    escrow_liability = escrow;
    pending_withdrawal = pending;
    difference = difference;
    status = balance_of difference;
  })
