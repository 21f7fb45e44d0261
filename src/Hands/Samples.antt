-- ===== src/Hands/Samples.antt =====
-- Data for tests of the coordinator: a small platform, and a hand of two players up to its first public card.
use x_poker.Base.{
  ℕ, ◌≡◌, refl, Bool, true, false, none, some, [], ◌∷◌, err, ok, Bytes, same_bytes, bytes_be,
}
use x_poker.Fairness.Fields.{
  number, text, Checked, sort_object, domain_hash, commit_server_seed, commit_player_seed,
}
use x_poker.Fairness.Deck.{shuffle_deck}
use x_poker.Fairness.Cards.{Reveal, check_card_reveal, verify_card_reveal, reveal_card}
use x_poker.Fairness.Plan.{nlh, deal_plan}
use x_poker.Fairness.Hand.{PublicRecord, create_committed_hand}
use x_poker.Hands.Events.{
  Rules, Reservation, Payload, hand_opened, player_committed, beacon_reserved, deck_committed,
  public_card_revealed, hand_completed, hand_aborted, Event, Platform, Handled,
}
use x_poker.Hands.Transcript.{append_event}
use x_poker.Hands.Stores.{HandStore, Reply, append_to, put_secret}
use x_poker.Hands.State.{apply_payload, reduce_from}
use x_poker.Hands.Coordinator.{
  Command, record_event, replay, open_hand, submit_player_commitment, reserve_beacon,
}
use x_poker.Hands.Dealing.{Services, Served, check_seeds, commit_deck_for, reveal_public_card}
use x_poker.Fairness.Samples.{
  blank, small_crypto, test_seed, test_hand_id, test_beacon, test_players, test_rules,
}
use x_poker.Hands.Reach.{Follows, starts, opens, submits, reserves, commits, reveals, Reach}

abbrev pub payload_number : Payload → ℕ
payload_number (hand_opened room rules players commitment) = 1
payload_number (player_committed player commitment) = 2
payload_number (beacon_reserved reservation) = 3
payload_number (deck_committed beacon root) = 4
payload_number (public_card_revealed reveal) = 5
payload_number (hand_completed digest root) = 6
payload_number (hand_aborted reason refunds) = 7

abbrev pub small_platform : Platform
small_platform = record {
  crypto = small_crypto;
  key_id = 1 ∷ [];
  sign = λ message. message;
  verify = same_bytes;
  verify_beacon = λ beacon reservation. true;
  request_json = λ payload. number (payload_number payload);
  base_json = λ base. number base.sequence;
  unsigned_json = λ base event_hash. number base.sequence;
  record_json = λ published. text published.deck_root;
  bundle_json = λ bundle. text bundle.server_seed;
}

abbrev pub key : ℕ → Bytes
key n = n ∷ blank 15

abbrev pub command : ℕ → Command
command version = record { hand_id = test_hand_id; expected_version = version; key = key version }

abbrev pub or_blank : Checked Bytes → Bytes
or_blank (ok commitment) = commitment
or_blank (err e) = []

abbrev pub commitment : Bytes → Bytes → Bytes
commitment player seed = or_blank (commit_player_seed small_crypto test_hand_id player seed)

abbrev pub room : Bytes
room =
    49 ∷ 49 ∷ 49 ∷ 49 ∷ 49 ∷ 49 ∷ 49 ∷ 49 ∷ 45 ∷ 49 ∷ 49 ∷ 49 ∷ 49 ∷ 45 ∷ 52 ∷ 49 ∷ 49 ∷ 49 ∷ 45
    ∷ 97 ∷ 49 ∷ 49 ∷ 49 ∷ 45 ∷ 49 ∷ 49 ∷ 49 ∷ 49 ∷ 49 ∷ 49 ∷ 49 ∷ 49 ∷ 49 ∷ 49 ∷ 49 ∷ 49 ∷ []

abbrev pub rules : Rules
rules = record { game = some nlh; seats = 2; button_seat = none; boards = none; json = test_rules }

abbrev pub reservation : Reservation
reservation = record { source = 100 ∷ []; chain_hash = []; round = 12; not_before = 10 }

abbrev pub store_after : Handled (Reply × HandStore) → HandStore
store_after (ok answer) = answer.1
store_after (err e) = record { hands = []; idempotency = [] }

abbrev pub opening : Handled (Reply × HandStore)
opening =
    open_hand small_platform 1 (record { hands = []; idempotency = [] }) test_hand_id (key 0) room
      rules ((98 ∷ []) ∷ (97 ∷ []) ∷ [])
      (or_blank (commit_server_seed small_crypto test_hand_id test_seed))

abbrev pub first_commitment : Handled (Reply × HandStore)
first_commitment =
    submit_player_commitment small_platform 2 (store_after opening) (command 1) (98 ∷ [])
      (commitment (98 ∷ []) (1 ∷ blank 31))

abbrev pub second_commitment : Handled (Reply × HandStore)
second_commitment =
    submit_player_commitment small_platform 3 (store_after first_commitment) (command 2) (97 ∷ [])
      (commitment (97 ∷ []) (2 ∷ blank 31))

abbrev pub reserving : Handled (Reply × HandStore)
reserving = reserve_beacon small_platform 4 (store_after second_commitment) (command 3) reservation

abbrev pub is_ok {ℓ} : {A : Type ℓ} → Handled A → Bool
is_ok (ok a) = true
is_ok (err e) = false

abbrev pub some_event : Event
some_event = record {
  base = record {
    version = [];
    hand_id = [];
    sequence = 0;
    payload = player_committed [] [];
    occurred_at = 0;
    previous_hash = [];
    signer_key_id = [];
  };
  event_hash = [];
  signature = [];
}

abbrev pub reply_after : Handled (Reply × HandStore) → Reply
reply_after (ok answer) = answer.0
reply_after (err e) = record { event = some_event; duplicate = false }

abbrev pub with_store : HandStore → Services
with_store store = record { store = store; dealer = [] }

abbrev pub committing_deck : Served (Reply × PublicRecord)
committing_deck =
    commit_deck_for small_platform 1 11 (with_store (store_after reserving)) (command 4) test_beacon
      test_seed test_players

abbrev pub no_reveal : Reveal
no_reveal = record {
  position = 0;
  card = record { id = 0; rank = 0; suit = []; symbol = 0; code = [] };
  nonce = [];
  proof = [];
}

abbrev pub revealing : Handled ((Reply × Reveal) × HandStore)
revealing = reveal_public_card small_platform 1 12 committing_deck.1 (command 5) 5

abbrev pub shown_after : Handled ((Reply × Reveal) × HandStore) → (Reply × Reveal) × HandStore
shown_after (ok answer) = answer
shown_after (err e) = (
  (record { event = some_event; duplicate = false }, no_reveal),
  record { hands = []; idempotency = [] },
)

pub opening-ok : opening ≡ ok (reply_after opening, store_after opening)
unfolding open_hand record_event append_event append_to replay domain_hash
opening-ok = refl

pub first_commitment-ok :
    first_commitment ≡ ok (reply_after first_commitment, store_after first_commitment)
unfolding submit_player_commitment open_hand record_event append_event append_to replay domain_hash
    apply_payload reduce_from
first_commitment-ok = refl

pub second_commitment-ok :
    second_commitment ≡ ok (reply_after second_commitment, store_after second_commitment)
unfolding submit_player_commitment open_hand record_event append_event append_to replay domain_hash
    apply_payload reduce_from
second_commitment-ok = refl

pub reserving-ok : reserving ≡ ok (reply_after reserving, store_after reserving)
unfolding reserve_beacon submit_player_commitment open_hand record_event append_event append_to
    replay domain_hash apply_payload reduce_from
reserving-ok = refl

pub reserved-Reach : Reach small_platform 1 (with_store (store_after reserving))
reserved-Reach =
    reserves {reply = reply_after reserving} 4 (command 3) reservation
      (submits {reply = reply_after second_commitment} 3 (command 2) (97 ∷ [])
        (commitment (97 ∷ []) (2 ∷ blank 31))
        (submits {reply = reply_after first_commitment} 2 (command 1) (98 ∷ [])
          (commitment (98 ∷ []) (1 ∷ blank 31))
          (opens {reply = reply_after opening} 1 test_hand_id (key 0) room rules
            ((98 ∷ []) ∷ (97 ∷ []) ∷ [])
            (or_blank (commit_server_seed small_crypto test_hand_id test_seed)) starts opening-ok)
          first_commitment-ok)
        second_commitment-ok)
      reserving-ok

pub committed-Reach : Reach small_platform 1 committing_deck.1
committed-Reach = commits 11 (command 4) test_beacon test_seed test_players reserved-Reach

pub shown_after-ok :
    (r : Handled ((Reply × Reveal) × HandStore))
    → is_ok r ≡ true
    → r ≡ ok ((shown_after r).0, (shown_after r).1)
shown_after-ok (ok answer) h = refl
shown_after-ok (err e) h = cc

pub is_ok-revealing : is_ok revealing ≡ true
unfolding bytes_be reveal_public_card commit_deck_for check_seeds put_secret create_committed_hand
    sort_object shuffle_deck deal_plan reveal_card verify_card_reveal check_card_reveal
    reserve_beacon submit_player_commitment open_hand record_event append_event append_to replay
    domain_hash apply_payload reduce_from
is_ok-revealing = refl

abbrev pub revealed : Services
revealed = record committing_deck.1 { store = (shown_after revealing).1 }

pub revealed-Reach : Reach small_platform 1 revealed
revealed-Reach = reveals 12 (command 5) 5 committed-Reach (shown_after-ok revealing is_ok-revealing)

-- What comes after the first commitment.
pub first_commitment-Follows :
    Follows small_platform 1 (with_store (store_after first_commitment)) revealed
first_commitment-Follows =
    reveals 12 (command 5) 5
      (commits 11 (command 4) test_beacon test_seed test_players (
        reserves {reply = reply_after reserving} 4 (command 3) reservation
          (submits {reply = reply_after second_commitment} 3 (command 2) (97 ∷ [])
            (commitment (97 ∷ []) (2 ∷ blank 31)) starts second_commitment-ok)
          reserving-ok))
      (shown_after-ok revealing is_ok-revealing)
