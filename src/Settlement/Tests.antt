-- ===== src/Settlement/Tests.antt =====
-- A settlement tree of server/settlement/merkle.js for three payouts, over a stand-in for the hash, and a
-- deposit and a vault of server/settlement/custody.js.
use x_poker.Base.{
  ℕ, ◌+◌, ◌*◌, ◌%◌, ◌≤◌, ◌≡◌, refl, true, Option, none, some, List, [], ◌∷◌, err, ok, length, All,
  sum_by, Bytes,
}
use x_poker.Settlement.Merkle.{duplicate_player, Payout, Tree, build_tree}
use x_poker.Settlement.Claims.{Verifies, build_tree-Verifies}
use x_poker.Settlement.Custody.{
  deposit, Vault, Transfer, Expectation, amount_mismatch, validate_finalized_transfer, negsuc,
  shortfall, Reconciliation, reconcile_custody,
}
use x_poker.Settlement.Transfers.{
  Moves, validate_finalized_transfer-Moves, Reconciles, reconcile_custody-Reconciles,
}

abbrev zeros : Bytes
zeros =
    0 ∷ 0 ∷ 0 ∷ 0 ∷ 0 ∷ 0 ∷ 0 ∷ 0 ∷ 0 ∷ 0 ∷ 0 ∷ 0 ∷ 0 ∷ 0 ∷ 0 ∷ 0 ∷ 0 ∷ 0 ∷ 0 ∷ 0 ∷ 0 ∷ 0 ∷ 0 ∷ 0
    ∷ 0 ∷ 0 ∷ 0 ∷ 0 ∷ 0 ∷ 0 ∷ 0 ∷ []

abbrev key : ℕ → Bytes
key n = n ∷ zeros

abbrev checksum : List Bytes → ℕ
checksum [] = 7
checksum (part ∷ parts) = (sum_by (λ b. b) part + 31 * checksum parts) % 251

-- 32 bytes that depend on the parts.
abbrev stand_in : List Bytes → Bytes
stand_in parts = checksum parts ∷ zeros

stand_in_size : (parts : List Bytes) → length (stand_in parts) ≡ 32
stand_in_size parts = refl

abbrev payouts : List Payout
payouts =
    record { player = key 3; amount = 500 }
    ∷ record { player = key 1; amount = 20 }
    ∷ record { player = key 2; amount = 4 }
    ∷ []

abbrev built : Option Tree
unfolding build_tree
built = elim (build_tree stand_in (key 9) payouts (some 524)) [ ok tree ↦ tree | err e ↦ none ]

built_ok : build_tree stand_in (key 9) payouts (some 524) ≡ ok built
unfolding build_tree built
built_ok = refl

duplicate_refused :
    build_tree stand_in
      (key 9)
      (record { player = key 1; amount = 1 } ∷ record { player = key 1; amount = 2 } ∷ [])
      none
    ≡ err duplicate_player
unfolding build_tree
duplicate_refused = refl

build_tree-Verifies_example :
    (tree : Tree) × (built ≡ some tree)
    × All (Verifies stand_in (key 9) tree.root) tree.claims
    × (length tree.claims ≡ 3)
    × (tree.total ≡ 524)
build_tree-Verifies_example =
    build_tree-Verifies stand_in (key 9) stand_in_size payouts (some 524) built_ok

abbrev vault : Vault
vault = record { chain_id = 1; asset_mint = 2; vault_address = 3; authority_address = 4 }

abbrev expectation : Expectation
expectation = record { operation = deposit; wallet = 5; amount = 1000; minimum_credit = some 990 }

-- A deposit whose mint keeps a fee of 5.
abbrev transfer : Transfer
transfer = record {
  finalized = true;
  succeeded = true;
  chain_id = 1;
  signature = 6;
  instruction_index = 0;
  finalized_slot = 77;
  mint = 2;
  token_program = 8;
  source_token_account = 9;
  destination_token_account = 3;
  source_owner = 5;
  destination_owner = 4;
  source_delta = 1000;
  destination_delta = 995;
}

deposit_accepted : validate_finalized_transfer 8 vault expectation transfer ≡ ok transfer
unfolding validate_finalized_transfer
deposit_accepted = refl

short_refused :
    validate_finalized_transfer 8 vault expectation (record transfer { destination_delta = 989 })
    ≡ err amount_mismatch
unfolding validate_finalized_transfer
short_refused = refl

validate_finalized_transfer-Moves_example :
    (transfer ≡ transfer)
    × (transfer.finalized ≡ true)
    × (transfer.succeeded ≡ true)
    × (transfer.chain_id ≡ vault.chain_id)
    × (transfer.mint ≡ vault.asset_mint)
    × (transfer.token_program ≡ 8)
    × Moves vault expectation transfer deposit
validate_finalized_transfer-Moves_example =
    validate_finalized_transfer-Moves 8 vault expectation transfer deposit_accepted

abbrev short : Reconciliation
short = record {
  vault_balance = 90;
  player_liability = 80;
  escrow_liability = 30;
  pending_withdrawal = 10;
  difference = negsuc 19;
  status = shortfall;
}

short_found : reconcile_custody 90 80 30 10 ≡ ok short
unfolding reconcile_custody
short_found = refl

reconcile_custody-Reconciles_example :
    Reconciles short (negsuc 19) shortfall
    × (short.vault_balance ≡ 90)
    × (short.player_liability ≡ 80)
    × (short.escrow_liability ≡ 30)
    × (10 ≤ 80)
reconcile_custody-Reconciles_example = reconcile_custody-Reconciles 90 80 30 10 short_found
