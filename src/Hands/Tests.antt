-- ===== src/Hands/Tests.antt =====
-- Witnesses of the coordinator's properties: a hand of two players, up to its first public card.
use x_poker.Base.{
  ◌≡◌, refl, ap, Bool, true, false, Option, none, some, List, [], ◌∷◌, map, ltb, ltb→lt, err, ok,
  length, All, Bytes, bytes_be, same_bytes_refl,
}
use x_poker.Fairness.Fields.{sort_object, domain_hash}
use x_poker.Fairness.Deck.{shuffle_deck}
use x_poker.Fairness.Cards.{Card, check_card_reveal, verify_card_reveal, reveal_card}
use x_poker.Fairness.Plan.{deal_plan}
use x_poker.Fairness.Hand.{PublicRecord, CommittedHand, create_committed_hand}
use x_poker.Fairness.Audit.{create_audit_bundle, cards_from, audit_of, verify_audit_bundle}
use x_poker.Hands.Events.{
  Payload, player_committed, Event, Platform, HandError, version_conflict, undefined_property,
  Handled,
}
use x_poker.Hands.Transcript.{previous_hash_of, append_event, verify_transcript}
use x_poker.Hands.Stores.{get_text, Reply, load, append_to, put_secret}
use x_poker.Hands.State.{apply_payload, reduce_from}
use x_poker.Hands.Coordinator.{
  last_event, request_digest_of, record_event, replay, state_of, open_hand,
  submit_player_commitment, reserve_beacon,
}
use x_poker.Hands.Dealing.{Served, check_seeds, commit_deck_for, reveal_public_card}
use x_poker.Fairness.Samples.{
  blank, small_crypto, small_crypto-Lawful, test_seed, test_hand_id, test_beacon, test_players,
  test_rules,
}
use x_poker.Hands.Steps.{Histories}
use x_poker.Hands.Verified.{Signs}
use x_poker.Hands.Reach.{Reach-Histories}
use x_poker.Hands.Invariant.{is_closed}
use x_poker.Hands.Order.{InOrder}
use x_poker.Hands.Safety.{Reach-Verifies, Reach-Committed, Reach-InOrder}
use x_poker.Hands.Requests.{Request, submitting, completing, on_store, carry_out}
use x_poker.Hands.Undone.{commit_deck_for-Undone}
use x_poker.Hands.Repeated.{Repeats, carry_out-once}
use x_poker.Hands.Answers.{answer_known, carry_out-answers}
use x_poker.Hands.Dealer.{Reach-Audited}
use x_poker.Hands.Pinned.{NoCollision, verify_transcript_pinned}
use x_poker.Hands.Samples.{
  small_platform, command, commitment, store_after, opening, first_commitment, reserving, is_ok,
  reply_after, with_store, first_commitment-ok, revealed, revealed-Reach, first_commitment-Follows,
}

reserved : is_ok reserving ≡ true
unfolding reserve_beacon submit_player_commitment open_hand record_event append_event append_to
    replay domain_hash apply_payload reduce_from
reserved = refl

Reach-Histories_example : Histories small_platform 1 revealed.store
Reach-Histories_example = Reach-Histories small_platform 1 revealed revealed-Reach

small_platform-Signs : Signs small_platform
small_platform-Signs message = same_bytes_refl message

has_events : ltb 0 (length (load revealed.store test_hand_id)) ≡ true
unfolding bytes_be reveal_public_card commit_deck_for check_seeds put_secret create_committed_hand
    sort_object shuffle_deck deal_plan reveal_card verify_card_reveal check_card_reveal
    reserve_beacon submit_player_commitment open_hand record_event append_event append_to replay
    domain_hash apply_payload reduce_from
has_events = refl

Reach-Verifies_example :
    (head : Bytes) × (verify_transcript small_platform
        (load revealed.store test_hand_id)
        (some head)
        (some (length (load revealed.store test_hand_id)))
      ≡ ok (head, some test_hand_id))
    × ((state_of small_platform revealed.store test_hand_id).version
        ≡ length (load revealed.store test_hand_id))
Reach-Verifies_example =
    Reach-Verifies small_platform 1 revealed test_hand_id small_platform-Signs revealed-Reach
      (ltb→lt 0 (length (load revealed.store test_hand_id)) has_events)

is_dealt : is_closed (state_of small_platform revealed.store test_hand_id).status ≡ true
unfolding bytes_be reveal_public_card commit_deck_for check_seeds put_secret create_committed_hand
    sort_object shuffle_deck deal_plan reveal_card verify_card_reveal check_card_reveal
    reserve_beacon submit_player_commitment open_hand record_event append_event append_to replay
    domain_hash apply_payload reduce_from
is_dealt = refl

Reach-Committed_example :
    All
      (λ player.
        (commitment : Bytes) × (get_text player
            (state_of small_platform revealed.store test_hand_id).player_commitments
          ≡ some commitment))
      (state_of small_platform revealed.store test_hand_id).players
Reach-Committed_example =
    Reach-Committed small_platform 1 revealed test_hand_id revealed-Reach is_dealt

Reach-InOrder_example : InOrder (state_of small_platform revealed.store test_hand_id)
Reach-InOrder_example = Reach-InOrder small_platform 1 revealed test_hand_id revealed-Reach

abbrev first_payload : Payload
first_payload = player_committed (98 ∷ []) (commitment (98 ∷ []) (1 ∷ blank 31))

abbrev first_request : Request
first_request = submitting (command 1) (98 ∷ []) (commitment (98 ∷ []) (1 ∷ blank 31))

first_carried :
    carry_out small_platform 1 2 (with_store (store_after opening)) first_request
    ≡ (ok (reply_after first_commitment), with_store (store_after first_commitment))
unfolding submit_player_commitment
first_carried = ap (λ r. on_store r (with_store (store_after opening))) first_commitment-ok

carry_out-answers_example : carry_out small_platform 1 90 revealed first_request ≡ (
  answer_known small_platform 1
      (request_digest_of small_platform first_payload)
      (reply_after first_commitment).event
      (request_digest_of small_platform first_payload),
  revealed,
)
carry_out-answers_example =
    carry_out-answers small_platform 1 2 90 (with_store (store_after opening))
      (with_store (store_after first_commitment)) revealed first_request first_request first_payload
      first_payload (reply_after first_commitment) refl refl first_carried first_commitment-Follows
      refl

carry_out-once_example :
    Repeats
      (reply_after first_commitment).event
      revealed
      (carry_out small_platform 1 90 revealed (completing (command 1)))
carry_out-once_example =
    carry_out-once small_platform 1 2 90 (with_store (store_after opening))
      (with_store (store_after first_commitment)) revealed first_request (completing (command 1))
      (reply_after first_commitment) first_carried first_commitment-Follows refl

-- A commitment of the deck with a version that is no longer the hand's.
abbrev conflicting : Served (Reply × PublicRecord)
conflicting =
    commit_deck_for small_platform 1 11 (with_store (store_after reserving)) (command 9) test_beacon
      test_seed test_players

abbrev error_of : Handled (Reply × PublicRecord) → HandError
error_of (err e) = e
error_of (ok answer) = undefined_property

error_of-eq : (r : Handled (Reply × PublicRecord)) → is_ok r ≡ false → r ≡ err (error_of r)
error_of-eq (err e) h = refl
error_of-eq (ok answer) h = cc

conflicts : (is_ok conflicting.0 ≡ false) × (error_of conflicting.0 ≡ version_conflict)
unfolding bytes_be commit_deck_for check_seeds put_secret create_committed_hand sort_object
    shuffle_deck reserve_beacon submit_player_commitment open_hand record_event append_event
    append_to replay domain_hash apply_payload reduce_from
conflicts = (refl, refl)

commit_deck_for-Undone_example : conflicting.1 ≡ with_store (store_after reserving)
commit_deck_for-Undone_example =
    commit_deck_for-Undone small_platform 1 11 (with_store (store_after reserving)) (command 9)
      test_beacon test_seed test_players (error_of conflicting.0)
      (error_of-eq conflicting.0 conflicts.0)

abbrev or_no_hand : Option CommittedHand → CommittedHand
or_no_hand none = record {
  public_record = record {
    version = [];
    hand_id = [];
    rules = test_rules;
    rules_digest = [];
    server_commitment = [];
    player_commitments = [];
    beacon = test_beacon;
    deck_root = [];
  };
  secret_state = record {
    server_seed = [];
    player_seeds = [];
    hand_seed = [];
    deck = record { order = []; nonces = []; layers = []; root = [] };
  };
}
or_no_hand (some hand) = hand

abbrev is_some : Option CommittedHand → Bool
is_some none = false
is_some (some hand) = true

or_no_hand-eq : (o : Option CommittedHand) → is_some o ≡ true → o ≡ some (or_no_hand o)
or_no_hand-eq none h = cc
or_no_hand-eq (some hand) h = refl

abbrev kept_hand : Option CommittedHand
kept_hand = get_text test_hand_id revealed.dealer

is_kept : is_some kept_hand ≡ true
unfolding bytes_be commit_deck_for check_seeds put_secret create_committed_hand sort_object
    shuffle_deck reserve_beacon submit_player_commitment open_hand record_event append_event
    append_to replay domain_hash apply_payload reduce_from
is_kept = refl

Reach-Audited_example :
    (cards : List Card) × (cards_from (or_no_hand kept_hand).secret_state.deck.order ≡ ok cards)
    × (verify_audit_bundle small_crypto 1 (create_audit_bundle (or_no_hand kept_hand)) true
        ≡ ok (audit_of true [] (some cards)))
Reach-Audited_example =
    Reach-Audited small_platform 1 revealed test_hand_id (or_no_hand kept_hand) small_crypto-Lawful
      revealed-Reach (or_no_hand-eq kept_hand is_kept)

-- A verifier that accepts every signature, and the first event with another one.
abbrev lenient_platform : Platform
lenient_platform = record small_platform { verify = λ message signature. true }

abbrev opened_events : List Event
opened_events = load (store_after opening) test_hand_id

abbrev resigned_events : List Event
resigned_events = map (λ (e : Event). record e { signature = 9 ∷ [] }) opened_events

abbrev opened_head : Bytes
opened_head = previous_hash_of (last_event opened_events)

opened_events-verify :
    verify_transcript lenient_platform opened_events (some opened_head) (some 1)
    ≡ ok (opened_head, some test_hand_id)
unfolding bytes_be verify_transcript open_hand record_event append_event append_to replay
    domain_hash sort_object
opened_events-verify = refl

resigned_events-verify :
    verify_transcript lenient_platform resigned_events (some opened_head) (some 1)
    ≡ ok (opened_head, some test_hand_id)
unfolding bytes_be verify_transcript open_hand record_event append_event append_to replay
    domain_hash sort_object
resigned_events-verify = refl

opened_events-NoCollision : NoCollision lenient_platform opened_events resigned_events
unfolding open_hand record_event append_event append_to replay domain_hash
opened_events-NoCollision = ((λ h. refl, tt), tt)

verify_transcript_pinned_example :
    map (λ (e : Event). e.base) opened_events ≡ map (λ (e : Event). e.base) resigned_events
verify_transcript_pinned_example =
    verify_transcript_pinned lenient_platform opened_events resigned_events opened_head 1
      (opened_head, some test_hand_id) (opened_head, some test_hand_id) opened_events-NoCollision
      opened_events-verify resigned_events-verify
