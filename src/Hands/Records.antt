-- ===== src/Hands/Records.antt =====
-- What a record of an event does to the store.
use x_poker.Base.{
  ℕ, ◌≡◌, sym, ap, subst, ◌⊎◌, inl, inr, false, Option, none, some, [], ◌∷◌, ◌++◌, leb, ◌==◌,
  ==_iff, ok, ◌>>◌, >>=-eq-ok, assert-eq-ok, ok-injective, length, Bytes, same_bytes,
}
use x_poker.Fairness.Fields.{text_length}
use x_poker.Hands.Events.{Payload, Event, Platform, version_conflict, weak_key, Handled}
use x_poker.Hands.Transcript.{append_event}
use x_poker.Hands.Stores.{
  Prior, HandStore, Reply, or_empty, load, find_idempotency, answer_prior, append_after, append_to,
}
use x_poker.Hands.Coordinator.{
  last_event, Command, request_digest_of, record_event, replay, unless_replayed, replay_or,
}
use x_poker.Hands.Maps.{get_text-set_text, get_text-set_text_other}

abbrev pub Grown : HandStore → Bytes → ℕ → Event → HandStore → Type 0
Grown store hand_id expected event store' =
    (length (load store hand_id) ≡ expected)
    × (load store' hand_id ≡ load store hand_id ++ event ∷ [])
    × ((other : Bytes) → same_bytes hand_id other ≡ false → load store' other ≡ load store other)

append_after-Grown :
    (prior : Option Prior) (store : HandStore) (hand_id : Bytes) (expected : ℕ) (key digest : Bytes)
    (event : Event) {answer : Reply × HandStore}
    → append_after prior store hand_id expected key digest event ≡ ok answer
    → (answer.1 ≡ store) ⊎ Grown store hand_id expected event answer.1
append_after-Grown (some prior) store hand_id expected key digest event h =
    let (r, _, e) = >>=-eq-ok (answer_prior prior digest) _ h in
    inl (ap (λ (x : Reply × HandStore). x.1) (sym (ok-injective e)))
append_after-Grown none store hand_id expected key digest event {answer} h =
    let events = load store hand_id in
    let (size, e) = assert-eq-ok (length events == expected) version_conflict _ h in
    inr (
      subst (λ (x : Reply × HandStore). Grown store hand_id expected event x.1) (ok-injective e)
        (
          (==_iff (length events) expected).0 size,
          ap or_empty (get_text-set_text hand_id (events ++ event ∷ []) store.hands),
          λ other apart.
              ap or_empty
                (get_text-set_text_other hand_id other (events ++ event ∷ []) store.hands apart),
        ))

module _ (platform : Platform) where
  -- An event that is recorded is signed after the last one; or the record was a replay.
  pub record_event-Grown :
      (now : ℕ) (store : HandStore) (command : Command) (payload : Payload)
      {answer : Reply × HandStore}
      → record_event platform now store command payload ≡ ok answer
      → (answer.1 ≡ store)
        ⊎ ((event : Event) × (append_event platform command.hand_id payload
                (last_event (load store command.hand_id))
                now
              ≡ ok event)
            × Grown store command.hand_id command.expected_version event answer.1)
  unfolding record_event append_to
  record_event-Grown now store command payload {answer} h =
      let (_, h1) = assert-eq-ok (leb 16 (text_length command.key)) weak_key _ h in
      let (event, signed, h2) =
        >>=-eq-ok
          (append_event platform command.hand_id payload (last_event (load store command.hand_id))
            now)
          _ h1 in
      elim (append_after-Grown (find_idempotency store command.hand_id command.key) store
        command.hand_id command.expected_version command.key (request_digest_of platform payload)
        event h2) [ inl same ↦ inl same | inr grown ↦ inr (event, signed, grown) ]

  unless_replayed-cases :
      (prior : Option Reply) (store : HandStore) (guards : Handled (Unit {0}))
      (recorded : Handled (Reply × HandStore)) {answer : Reply × HandStore}
      → unless_replayed platform prior store (guards >> recorded) ≡ ok answer
      → (answer.1 ≡ store) ⊎ ((guards ≡ ok tt) × (recorded ≡ ok answer))
  unless_replayed-cases (some reply) store guards recorded h =
      inl (ap (λ (x : Reply × HandStore). x.1) (sym (ok-injective h)))
  unless_replayed-cases none store guards recorded h =
      let (u, passed, rest) = >>=-eq-ok guards _ h in inr (passed, rest)

  -- An operation that succeeds has left the store as it was, or has passed its guards and recorded its event.
  pub replay_or-cases :
      (now : ℕ) (store : HandStore) (command : Command) (payload : Payload)
      (guards : Handled (Unit {0})) {answer : Reply × HandStore}
      → replay_or platform now store command payload guards ≡ ok answer
      → (answer.1 ≡ store)
        ⊎ ((guards ≡ ok tt) × (record_event platform now store command payload ≡ ok answer))
  replay_or-cases now store command payload guards h =
      let (prior, _, rest) = >>=-eq-ok (replay platform store command payload) _ h in
      unless_replayed-cases prior store guards (record_event platform now store command payload)
        rest
