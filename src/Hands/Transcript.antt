-- ===== src/Hands/Transcript.antt =====
-- Signed hand transcripts: `eventBase`, `TranscriptSigner.append` and `verifyTranscript` of server/transcript.js.
use x_poker.Base.{
  ℕ, zero, suc, ◌+◌, Bool, true, false, not, ◌&&◌, ◌||◌, Option, none, some, List, [], ◌∷◌, ltb,
  leb, ◌==◌, Result, ok, assert, ◌>>=◌, ◌>>◌, length, all, Bytes, same_bytes,
}
use x_poker.Fairness.Fields.{canonical_json}
use x_poker.Hands.Events.{
  Payload, EventBase, Event, Platform, invalid_hand_id, not_monotonic, Handled,
}

abbrev pub transcript_version : Bytes
transcript_version =
    120 ∷ 112 ∷ 111 ∷ 107 ∷ 101 ∷ 114 ∷ 45 ∷ 104 ∷ 97 ∷ 110 ∷ 100 ∷ 45 ∷ 116 ∷ 114 ∷ 97 ∷ 110 ∷ 115
    ∷ 99 ∷ 114 ∷ 105 ∷ 112 ∷ 116 ∷ 47 ∷ 118 ∷ 49 ∷ []

abbrev pub zero_bytes : ℕ → Bytes
zero_bytes zero = []
zero_bytes (suc n) = 0 ∷ zero_bytes n

-- `GENESIS_HASH`
abbrev pub genesis_hash : Bytes
genesis_hash = zero_bytes 32

abbrev pub is_between : ℕ → ℕ → ℕ → Bool
is_between low high c = leb low c && leb c high

abbrev pub is_alphanumeric : ℕ → Bool
is_alphanumeric c = is_between 48 57 c || (is_between 65 90 c || is_between 97 122 c)

abbrev pub is_id_character : ℕ → Bool
is_id_character c = is_alphanumeric c || ((c == 58) || ((c == 95) || (c == 45)))

-- `/^[a-z0-9][a-z0-9:_-]{7,127}$/i`
abbrev pub is_hand_id : Bytes → Bool
is_hand_id [] = false
is_hand_id (c ∷ cs) =
    is_alphanumeric c && (all is_id_character cs && (leb 7 (length cs) && leb (length cs) 127))

abbrev pub check_time : Option Event → ℕ → Handled (Unit {0})
check_time none occurred_at = ok tt
check_time (some previous) occurred_at =
    assert (leb previous.base.occurred_at occurred_at) not_monotonic

abbrev pub next_sequence : Option Event → ℕ
next_sequence none = 1
next_sequence (some previous) = previous.base.sequence + 1

abbrev pub previous_hash_of : Option Event → Bytes
previous_hash_of none = genesis_hash
previous_hash_of (some previous) = previous.event_hash

-- `eventBase`
unfoldable pub event_base : Bytes → Bytes → Payload → Option Event → ℕ → Handled EventBase
event_base key_id hand_id payload previous occurred_at = do
  assert (is_hand_id hand_id) invalid_hand_id
  check_time previous occurred_at
  ok (record {
    version = transcript_version;
    hand_id = hand_id;
    sequence = next_sequence previous;
    payload = payload;
    occurred_at = occurred_at;
    previous_hash = previous_hash_of previous;
    signer_key_id = key_id;
  })

-- The errors of `verifyTranscript`.
pub data TranscriptError : Type 0 where
  empty_transcript wrong_version not_contiguous broken_chain unexpected_key : TranscriptError
  several_hands invalid_times invalid_event_hash invalid_signature : TranscriptError
  length_differs head_differs : TranscriptError

abbrev pub Verified {ℓ} : Type ℓ → Type ℓ
Verified A = Result TranscriptError A

-- The variables of the loop of `verifyTranscript`; a time before all times is `none`.
pub record Cursor : Type 0 where
  pub index : ℕ
  pub previous_hash : Bytes
  pub hand_id : Option Bytes
  pub previous_time : Option ℕ

abbrev pub first_cursor : Cursor
first_cursor = record {
  index = 0;
  previous_hash = genesis_hash;
  hand_id = none;
  previous_time = none;
}

-- `!(handId && event.handId !== handId)`
abbrev pub is_same_hand : Option Bytes → Bytes → Bool
is_same_hand none hand_id = true
is_same_hand (some known) hand_id = not (ltb 0 (length known)) || same_bytes hand_id known

abbrev pub is_not_before : Option ℕ → ℕ → Bool
is_not_before none time = true
is_not_before (some previous) time = leb previous time

module _ (platform : Platform) where
  -- `hash(signingPayload(base))`
  abbrev pub hash_of : EventBase → Bytes
  hash_of base = platform.crypto.sha256 (canonical_json platform.crypto (platform.base_json base))

  -- `signingPayload(unsigned)`
  abbrev pub signed_text : EventBase → Bytes → Bytes
  signed_text base event_hash =
      canonical_json platform.crypto (platform.unsigned_json base event_hash)

  -- `TranscriptSigner.append`
  unfoldable pub append_event : Bytes → Payload → Option Event → ℕ → Handled Event
  unfolding event_base
  append_event hand_id payload previous occurred_at = do
    base ← event_base platform.key_id hand_id payload previous occurred_at
    ok (record {
      base = base;
      event_hash = hash_of base;
      signature = platform.sign (signed_text base (hash_of base));
    })

  -- One round of the loop of `verifyTranscript`.
  unfoldable pub verify_event : Cursor → Event → Verified Cursor
  verify_event at event = do
    let base = event.base
    assert (same_bytes base.version transcript_version) wrong_version
    assert (base.sequence == at.index + 1) not_contiguous
    assert (same_bytes base.previous_hash at.previous_hash) broken_chain
    assert (same_bytes base.signer_key_id platform.key_id) unexpected_key
    assert (is_same_hand at.hand_id base.hand_id) several_hands
    assert (is_not_before at.previous_time base.occurred_at) invalid_times
    assert (same_bytes (hash_of base) event.event_hash) invalid_event_hash
    assert (platform.verify (signed_text base event.event_hash) event.signature) invalid_signature
    ok (record {
      index = at.index + 1;
      previous_hash = event.event_hash;
      hand_id = some base.hand_id;
      previous_time = some base.occurred_at;
    })

  unfoldable pub verify_events : Cursor → List Event → Verified Cursor
  unfolding verify_event
  verify_events at [] = ok at
  verify_events at (e ∷ es) = do next ← verify_event at e; verify_events next es

  abbrev pub check_length : Option ℕ → ℕ → Verified (Unit {0})
  check_length none size = ok tt
  check_length (some expected) size = assert (size == expected) length_differs

  abbrev pub check_head : Option Bytes → Bytes → Verified (Unit {0})
  check_head none head = ok tt
  check_head (some expected) head = assert (same_bytes head expected) head_differs

  -- `verifyTranscript`, with the head and the hand of a transcript that is right
  unfoldable pub verify_transcript :
      List Event → Option Bytes → Option ℕ → Verified (Bytes × Option Bytes)
  unfolding verify_events
  verify_transcript events expected_head expected_length = do
    assert (ltb 0 (length events)) empty_transcript
    end ← verify_events first_cursor events
    check_length expected_length (length events)
    check_head expected_head end.previous_hash
    ok (end.previous_hash, end.hand_id)
