-- ===== src/Hands/Steps.antt =====
-- Every sequence of operations of the coordinator gives each hand a history.
use x_poker.Base.{
  ℕ, ◌≡◌, sym, subst, inl, inr, List, Bool-cases, ok, length, Bytes, same_bytes, same_bytes→eq,
}
use x_poker.Hands.Events.{
  Rules, Reservation, Payload, hand_opened, player_committed, beacon_reserved, Event, Platform,
  Handled,
}
use x_poker.Hands.Transcript.{append_event}
use x_poker.Hands.Stores.{HandStore, Reply, load}
use x_poker.Hands.Coordinator.{
  last_event, Command, record_event, replay_or, state_of, check_opening, open_hand,
  check_commitment, submit_player_commitment, check_reservation, reserve_beacon,
}
use x_poker.Hands.History.{Allowed, History, after_event}
use x_poker.Hands.Records.{Grown, record_event-Grown, replay_or-cases}

module _ (platform : Platform) (tries : ℕ) where
  -- Each hand that the store has is a history.
  abbrev pub Histories : HandStore → Type 0
  Histories store = (hand_id : Bytes) → History platform tries hand_id (load store hand_id)

  Histories-Grown :
      (now : ℕ) (store : HandStore) (command : Command) (payload : Payload) (event : Event)
      (store' : HandStore)
      → Histories store
      → append_event platform command.hand_id payload (last_event (load store command.hand_id)) now
        ≡ ok event
      → Allowed platform tries command.hand_id now (load store command.hand_id) payload
      → Grown store command.hand_id command.expected_version event store'
      → Histories store'
  Histories-Grown now store command payload event store' h signed allowed (_, grown, others)
        hand_id =
      elim (Bool-cases (same_bytes command.hand_id hand_id)) [
        | inl here ↦
            subst (λ k. History platform tries k (load store' k))
              (same_bytes→eq command.hand_id hand_id here)
              (subst (History platform tries command.hand_id) (sym grown)
                (after_event now payload event (h command.hand_id) signed allowed))
        | inr there ↦
            subst (History platform tries hand_id) (sym (others hand_id there)) (h hand_id)
      ]

  pub record_event-Histories :
      (now : ℕ) (store : HandStore) (command : Command) (payload : Payload)
      {answer : Reply × HandStore}
      → Histories store
      → (length (load store command.hand_id) ≡ command.expected_version
          → Allowed platform tries command.hand_id now (load store command.hand_id) payload)
      → record_event platform now store command payload ≡ ok answer
      → Histories answer.1
  record_event-Histories now store command payload {answer} h allowed r =
      elim (record_event-Grown platform now store command payload {answer = answer} r) [
        | inl same ↦ subst Histories (sym same) h
        | inr (event, signed, grown) ↦
            Histories-Grown now store command payload event answer.1 h signed (allowed grown.0)
              grown
      ]

  pub replay_or-Histories :
      (now : ℕ) (store : HandStore) (command : Command) (payload : Payload)
      (guards : Handled (Unit {0})) {answer : Reply × HandStore}
      → Histories store
      → (guards ≡ ok tt
          → length (load store command.hand_id) ≡ command.expected_version
          → Allowed platform tries command.hand_id now (load store command.hand_id) payload)
      → replay_or platform now store command payload guards ≡ ok answer
      → Histories answer.1
  replay_or-Histories now store command payload guards {answer} h allowed r =
      elim (replay_or-cases platform now store command payload guards {answer = answer} r) [
        | inl same ↦ subst Histories (sym same) h
        | inr (passed, recorded) ↦
            record_event-Histories now store command payload h (allowed passed) recorded
      ]

  pub open_hand-Histories :
      (now : ℕ) (store : HandStore) (hand_id key room : Bytes) (rules : Rules)
      (players : List Bytes) (server_commitment : Bytes) {answer : Reply × HandStore}
      → Histories store
      → open_hand platform now store hand_id key room rules players server_commitment ≡ ok answer
      → Histories answer.1
  unfolding open_hand
  open_hand-Histories now store hand_id key room rules players server_commitment h r =
      replay_or-Histories now store (record { hand_id = hand_id; expected_version = 0; key = key })
        (hand_opened room rules players server_commitment)
        (check_opening platform room rules players server_commitment) h (λ p e. (e, p)) r

  pub submit_player_commitment-Histories :
      (now : ℕ) (store : HandStore) (command : Command) (player_id commitment : Bytes)
      {answer : Reply × HandStore}
      → Histories store
      → submit_player_commitment platform now store command player_id commitment ≡ ok answer
      → Histories answer.1
  unfolding submit_player_commitment
  submit_player_commitment-Histories now store command player_id commitment h r =
      replay_or-Histories now store command (player_committed player_id commitment)
        (check_commitment platform (state_of platform store command.hand_id) player_id commitment) h
        (λ p e. p) r

  pub reserve_beacon-Histories :
      (now : ℕ) (store : HandStore) (command : Command) (reservation : Reservation)
      {answer : Reply × HandStore}
      → Histories store
      → reserve_beacon platform now store command reservation ≡ ok answer
      → Histories answer.1
  unfolding reserve_beacon
  reserve_beacon-Histories now store command reservation h r =
      replay_or-Histories now store command (beacon_reserved reservation)
        (check_reservation platform now (state_of platform store command.hand_id) reservation) h
        (λ p e. p) r
