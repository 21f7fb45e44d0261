-- ===== src/Hands/Coordinator.antt =====
-- `AuthoritativeHandCoordinator` of server/hand-coordinator.js, up to the reservation of the beacon. Each
-- operation takes the store and the time and gives an error or its reply with the store after it.
use x_poker.Base.{
  ℕ, zero, suc, Bool, true, false, not, ◌&&◌, ◌||◌, Option, none, some, List, [], ◌∷◌, ◌++◌, ltb,
  leb, ◌==◌, ok, assert, ◌>>=◌, ◌>>◌, length, Bytes, has_bytes, unique_bytes,
}
use x_poker.Fairness.Fields.{text_length, canonical_json}
use x_poker.Fairness.Plan.{Game}
use x_poker.Fairness.Hand.{max_safe_integer}
use x_poker.Hands.Events.{
  Rules, Reservation, Payload, hand_opened, player_committed, beacon_reserved, Event, Platform,
  weak_key, invalid_room, invalid_server_commitment, unsupported_game, invalid_seat_count,
  player_count_differs, players_not_unique, commitments_closed, not_seated, already_committed,
  invalid_commitment, too_early, commitments_missing, missing_round, round_not_future, Handled,
}
use x_poker.Hands.Transcript.{is_between, append_event}
use x_poker.Hands.Stores.{
  Prior, get_text, HandStore, Reply, load, find_idempotency, answer_prior, append_to,
}
use x_poker.Hands.State.{HandState, reduce_hand, is_committing}

abbrev pub is_hex_digit : ℕ → Bool
is_hex_digit c = is_between 48 57 c || (is_between 65 70 c || is_between 97 102 c)

abbrev pub is_version_digit : ℕ → Bool
is_version_digit c = is_between 49 56 c

abbrev pub is_variant_digit : ℕ → Bool
is_variant_digit c = is_between 56 57 c || (is_between 65 66 c || is_between 97 98 c)

abbrev pub is_dash : ℕ → Bool
is_dash c = c == 45

-- The tests of a text's characters in turn.
abbrev pub matches : List (ℕ → Bool) → Bytes → Bool
matches [] [] = true
matches (t ∷ ts) (c ∷ cs) = t c && matches ts cs
matches _ _ = false

abbrev pub times_test : ℕ → (ℕ → Bool) → List (ℕ → Bool)
times_test zero t = []
times_test (suc n) t = t ∷ times_test n t

-- The pattern of a room id.
abbrev pub is_room_id : Bytes → Bool
is_room_id = matches (
    times_test 8 is_hex_digit
    ++ is_dash ∷ times_test 4 is_hex_digit
    ++ is_dash ∷ is_version_digit ∷ times_test 3 is_hex_digit
    ++ is_dash ∷ is_variant_digit ∷ times_test 3 is_hex_digit
    ++ is_dash ∷ times_test 12 is_hex_digit)

abbrev pub last_event : List Event → Option Event
last_event [] = none
last_event (e ∷ []) = some e
last_event (e ∷ f ∷ es) = last_event (f ∷ es)

abbrev pub is_supported : Option Game → Bool
is_supported none = false
is_supported (some game) = true

-- `!state.playerCommitments[playerId]`, negated: the empty text is false
abbrev pub has_committed : Option Bytes → Bool
has_committed none = false
has_committed (some commitment) = ltb 0 (length commitment)

-- The caller's part of an operation: the hand, the version that it expects and its key.
pub record Command : Type 0 where
  pub hand_id : Bytes
  pub expected_version : ℕ
  pub key : Bytes

module _ (platform : Platform) where
  -- `digest({ type, payload })`
  abbrev pub request_digest_of : Payload → Bytes
  request_digest_of payload =
      platform.crypto.sha256 (canonical_json platform.crypto (platform.request_json payload))

  -- `#record`
  unfoldable pub record_event : ℕ → HandStore → Command → Payload → Handled (Reply × HandStore)
  unfolding append_event append_to
  record_event now store command payload = do
    assert (leb 16 (text_length command.key)) weak_key
    let previous = last_event (load store command.hand_id)
    event ← append_event platform command.hand_id payload previous now
    append_to store command.hand_id command.expected_version command.key (request_digest_of payload)
        event

  abbrev pub replay_of : Option Prior → Payload → Handled (Option Reply)
  replay_of none payload = ok none
  replay_of (some prior) payload = do
    reply ← answer_prior prior (request_digest_of payload)
    ok (some reply)

  -- `#replay`
  unfoldable pub replay : HandStore → Command → Payload → Handled (Option Reply)
  replay store command payload =
      replay_of (find_idempotency store command.hand_id command.key) payload

  abbrev pub unless_replayed :
      Option Reply → HandStore → Handled (Reply × HandStore) → Handled (Reply × HandStore)
  unless_replayed (some reply) store recorded = ok (reply, store)
  unless_replayed none store recorded = recorded

  -- A replay, or else the guards of an operation and the record of its event.
  abbrev pub replay_or :
      ℕ → HandStore → Command → Payload → Handled (Unit {0}) → Handled (Reply × HandStore)
  replay_or now store command payload guards = do
    prior ← replay store command payload
    unless_replayed prior store (guards >> record_event now store command payload)

  -- `state`
  abbrev pub state_of : HandStore → Bytes → HandState
  state_of store hand_id = reduce_hand (load store hand_id)

  abbrev pub check_opening : Bytes → Rules → List Bytes → Bytes → Handled (Unit {0})
  check_opening room rules players server_commitment = do
    assert (is_room_id room) invalid_room
    assert (length server_commitment == 32) invalid_server_commitment
    assert (is_supported rules.game) unsupported_game
    assert (leb 2 rules.seats && leb rules.seats 9) invalid_seat_count
    assert (length players == rules.seats) player_count_differs
    assert (unique_bytes players) players_not_unique

  -- `openHand`, which expects no events
  unfoldable pub open_hand :
      ℕ
      → HandStore
      → Bytes
      → Bytes
      → Bytes
      → Rules
      → List Bytes
      → Bytes
      → Handled (Reply × HandStore)
  unfolding record_event replay
  open_hand now store hand_id key room rules players server_commitment =
      replay_or now store (record { hand_id = hand_id; expected_version = 0; key = key })
        (hand_opened room rules players server_commitment)
        (check_opening room rules players server_commitment)

  abbrev pub check_commitment : HandState → Bytes → Bytes → Handled (Unit {0})
  check_commitment state player_id commitment = do
    assert (is_committing state.status) commitments_closed
    assert (has_bytes state.players player_id) not_seated
    assert (not (has_committed (get_text player_id state.player_commitments))) already_committed
    assert (length commitment == 32) invalid_commitment

  -- `submitPlayerCommitment`
  unfoldable pub submit_player_commitment :
      ℕ → HandStore → Command → Bytes → Bytes → Handled (Reply × HandStore)
  unfolding record_event replay
  submit_player_commitment now store command player_id commitment =
      replay_or now store command (player_committed player_id commitment)
        (check_commitment (state_of store command.hand_id) player_id commitment)

  abbrev pub check_reservation : ℕ → HandState → Reservation → Handled (Unit {0})
  check_reservation now state reservation = do
    assert (is_committing state.status) too_early
    assert (length state.player_commitments == length state.players) commitments_missing
    assert (leb reservation.round max_safe_integer && ltb 0 reservation.round) missing_round
    assert (ltb now reservation.not_before) round_not_future

  -- `reserveBeacon`
  unfoldable pub reserve_beacon :
      ℕ → HandStore → Command → Reservation → Handled (Reply × HandStore)
  unfolding record_event replay
  reserve_beacon now store command reservation =
      replay_or now store command (beacon_reserved reservation)
        (check_reservation now (state_of store command.hand_id) reservation)
