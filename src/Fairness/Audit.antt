-- ===== src/Fairness/Audit.antt =====
-- The audit of a hand, from fairness/protocol.js.
use x_poker.Base.{
  ℕ, Bool, ◌&&◌, Option, none, some, List, [], ◌∷◌, map, ◌==◌, err, ok, assert, or_fail, ◌>>=◌,
  ◌>>◌, length, to_set, Bytes, same_bytes, unique_bytes,
}
use x_poker.Fairness.Fields.{
  Crypto, FairError, unsupported_version, server_commitment_mismatch, duplicate_commitments,
  player_count_mismatch, unexpected_player, player_commitment_mismatch, rules_mismatch,
  deck_root_mismatch, duplicate_card, Checked, protocol_version, equal_hex, rules_hash,
  verify_server_reveal, verify_player_reveal,
}
use x_poker.Fairness.Cards.{Card, card_from_id, Deck, commit_deck}
use x_poker.Fairness.Hand.{
  PlayerSeed, PlayerCommitment, PublicRecord, CommittedHand, commitment_for, derive_hand_seed,
}

pub record AuditBundle : Type 0 where
  pub public_record : PublicRecord
  pub server_seed : Bytes
  pub player_seeds : List PlayerSeed

-- `createAuditBundle`
abbrev pub create_audit_bundle : CommittedHand → AuditBundle
create_audit_bundle hand = record {
  public_record = hand.public_record;
  server_seed = hand.secret_state.server_seed;
  player_seeds = hand.secret_state.player_seeds;
}

-- The result, without its note, which repeats `beaconSignatureVerified`.
pub record Audit : Type 0 where
  pub accepted : Bool
  pub local_checks_passed : Bool
  pub errors : List FairError
  pub deck : Option (List Card)
  pub beacon_signature_verified : Bool

unfoldable pub cards_from : List ℕ → Checked (List Card)
unfolding card_from_id
cards_from [] = ok []
cards_from (c ∷ cs) = do card ← card_from_id c; rest ← cards_from cs; ok (card ∷ rest)

abbrev pub audit_of : Bool → List FairError → Option (List Card) → Audit
audit_of signature errors cards = record {
  accepted = (length errors == 0) && signature;
  local_checks_passed = length errors == 0;
  errors = errors;
  deck = cards;
  beacon_signature_verified = signature;
}

module _ (crypto : Crypto) where
  -- The loop over the players' reveals.
  unfoldable pub check_reveals :
      Bytes → List PlayerCommitment → List PlayerSeed → Checked (Unit {0})
  check_reveals hand_id commitments [] = ok tt
  check_reveals hand_id commitments (p ∷ ps) = do
    found ← or_fail (commitment_for p.player_id commitments) unexpected_player
    matches ← verify_player_reveal crypto hand_id p.player_id found.commitment p.seed
    assert matches player_commitment_mismatch
    check_reveals hand_id commitments ps

  -- The `try` of `verifyAuditBundle` up to the reconstruction of the deck.
  unfoldable pub reconstruct_deck : ℕ → AuditBundle → Checked Deck
  unfolding check_reveals derive_hand_seed commit_deck
  reconstruct_deck tries bundle = do
    let public = bundle.public_record
    assert (same_bytes public.version protocol_version) unsupported_version
    server_matches ←
        verify_server_reveal crypto public.hand_id public.server_commitment bundle.server_seed
    assert server_matches server_commitment_mismatch
    let ids = map (λ (c : PlayerCommitment). c.player_id) public.player_commitments
    assert (unique_bytes ids) duplicate_commitments
    assert (length bundle.player_seeds == length public.player_commitments) player_count_mismatch
    check_reveals public.hand_id public.player_commitments bundle.player_seeds
    assert (equal_hex (rules_hash crypto public.rules) public.rules_digest) rules_mismatch
    hand_seed ←
        derive_hand_seed crypto public.hand_id public.rules_digest bundle.server_seed public.beacon
          bundle.player_seeds
    commit_deck crypto tries hand_seed

  -- The rest of the `try`.
  abbrev pub check_deck : AuditBundle → Deck → Checked (Unit {0})
  check_deck bundle deck = do
    assert (equal_hex deck.root bundle.public_record.deck_root) deck_root_mismatch
    assert (length (to_set deck.order) == 52) duplicate_card

  -- `verifyAuditBundle`
  unfoldable pub verify_audit_bundle : ℕ → AuditBundle → Bool → Checked Audit
  unfolding reconstruct_deck cards_from
  verify_audit_bundle tries bundle signature = elim (reconstruct_deck tries bundle) [
    | err e ↦ ok (audit_of signature (e ∷ []) none)
    | ok deck ↦ do
      cards ← cards_from deck.order
      elim (check_deck bundle deck) [
        | err e ↦ ok (audit_of signature (e ∷ []) (some cards))
        | ok _ ↦ ok (audit_of signature [] (some cards))
      ]
  ]
