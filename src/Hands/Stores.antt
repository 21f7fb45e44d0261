-- ===== src/Hands/Stores.antt =====
-- The stores of server/hand-coordinator.js, `MemoryHandEventStore` and `MemoryDealerSecretStore`.
use x_poker.Base.{
  ℕ, Bool, true, false, Option, none, some, List, [], ◌∷◌, ◌++◌, ◌==◌, if◌then◌else◌, ok, assert,
  ◌>>=◌, ◌>>◌, length, Bytes, same_bytes,
}
use x_poker.Fairness.Hand.{PublicRecord, CommittedHand}
use x_poker.Hands.Events.{Event, key_reused, version_conflict, secret_differs, Handled}

pub record Prior : Type 0 where
  pub request_digest : Bytes
  pub event : Event

-- A `Map` of texts, in insertion order.
abbrev pub TextMap {ℓ} : Type ℓ → Type ℓ
TextMap A = List (Bytes × A)

module _ {ℓ} {A : Type ℓ} where
  -- `map.get(key)`
  abbrev pub get_text : Bytes → TextMap A → Option A
  get_text key [] = none
  get_text key (e ∷ m) = if same_bytes e.0 key then some e.1 else get_text key m

  -- `map.set(key, value)`
  abbrev pub set_text : Bytes → A → TextMap A → TextMap A
  set_text key value [] = (key, value) ∷ []
  set_text key value (e ∷ m) =
      if same_bytes e.0 key then (e.0, value) ∷ m else e ∷ set_text key value m

  -- `map.delete(key)`
  abbrev pub delete_text : Bytes → TextMap A → TextMap A
  delete_text key [] = []
  delete_text key (e ∷ m) = if same_bytes e.0 key then m else e ∷ delete_text key m

pub record HandStore : Type 0 where
  pub hands : TextMap (List Event)
  pub idempotency : TextMap Prior

pub record Reply : Type 0 where
  pub event : Event
  pub duplicate : Bool

-- `${handId}:${idempotencyKey}`
abbrev pub prior_key : Bytes → Bytes → Bytes
prior_key hand_id key = hand_id ++ 58 ∷ key

abbrev pub or_empty {ℓ} : {A : Type ℓ} → Option (List A) → List A
or_empty none = []
or_empty (some xs) = xs

-- `load`
abbrev pub load : HandStore → Bytes → List Event
load store hand_id = or_empty (get_text hand_id store.hands)

-- `findIdempotency`
abbrev pub find_idempotency : HandStore → Bytes → Bytes → Option Prior
find_idempotency store hand_id key = get_text (prior_key hand_id key) store.idempotency

abbrev pub answer_prior : Prior → Bytes → Handled Reply
answer_prior prior request_digest = do
  assert (same_bytes prior.request_digest request_digest) key_reused
  ok (record { event = prior.event; duplicate = true })

abbrev pub append_after :
    Option Prior → HandStore → Bytes → ℕ → Bytes → Bytes → Event → Handled (Reply × HandStore)
append_after (some prior) store hand_id expected_version key request_digest event = do
  reply ← answer_prior prior request_digest
  ok (reply, store)
append_after none store hand_id expected_version key request_digest event = do
  let events = load store hand_id
  assert (length events == expected_version) version_conflict
  ok (
      (
        record { event = event; duplicate = false },
        record {
          hands = set_text hand_id (events ++ event ∷ []) store.hands;
          idempotency =
              set_text (prior_key hand_id key)
                (record { request_digest = request_digest; event = event }) store.idempotency;
        },
      ))

-- `append`
unfoldable pub append_to :
    HandStore → Bytes → ℕ → Bytes → Bytes → Event → Handled (Reply × HandStore)
append_to store hand_id expected_version key request_digest event =
    append_after (find_idempotency store hand_id key) store hand_id expected_version key
      request_digest event

abbrev pub DealerStore : Type 0
DealerStore = TextMap CommittedHand

abbrev pub put_after :
    (PublicRecord → Bytes)
    → Option CommittedHand
    → DealerStore
    → Bytes
    → CommittedHand
    → Handled (Bool × DealerStore)
put_after record_text (some existing) dealer hand_id hand = do
  assert (same_bytes (record_text existing.public_record) (record_text hand.public_record))
      secret_differs
  ok (false, dealer)
put_after record_text none dealer hand_id hand = ok (true, set_text hand_id hand dealer)

-- `put`, with whether it stored anything; the text of a public record is a parameter
unfoldable pub put_secret :
    (PublicRecord → Bytes) → DealerStore → Bytes → CommittedHand → Handled (Bool × DealerStore)
put_secret record_text dealer hand_id hand =
    put_after record_text (get_text hand_id dealer) dealer hand_id hand
