-- ===== src/Hands/Replays.antt =====
-- What the store of server/hand-coordinator.js remembers of a command that succeeded.
use x_poker.Base.{
  ℕ, ◌≡◌, refl, sym, ap, subst, ◌∙◌, ◌⊎◌, inl, inr, true, Option, none, some, leb, ◌==◌,
  Option-cases, ok, ◌>>=◌, ◌>>◌, >>=-eq-ok, assert-eq-ok, ok-injective, length, same_bytes,
  same_bytes→eq,
}
use x_poker.Fairness.Fields.{text_length}
use x_poker.Hands.Events.{Payload, Event, Platform, key_reused, version_conflict, weak_key, Handled}
use x_poker.Hands.Transcript.{append_event}
use x_poker.Hands.Stores.{
  Prior, HandStore, Reply, prior_key, load, find_idempotency, answer_prior, append_after, append_to,
}
use x_poker.Hands.Coordinator.{
  last_event, Command, request_digest_of, record_event, replay_of, replay, unless_replayed,
}
use x_poker.Hands.Maps.{get_text-set_text}

module _ (platform : Platform) where
  -- The store has the command's event, under the digest of its payload.
  abbrev pub Remembers : HandStore → Command → Payload → Event → Type 0
  Remembers store command payload event =
      (prior : Prior) × (find_idempotency store command.hand_id command.key ≡ some prior)
      × (prior.event ≡ event)
      × (prior.request_digest ≡ request_digest_of platform payload)

  append_after-Remembers :
      (store : HandStore) (command : Command) (payload : Payload) (event : Event)
      {answer : Reply × HandStore}
      → append_after none store command.hand_id command.expected_version command.key
          (request_digest_of platform payload)
          event
        ≡ ok answer
      → Remembers answer.1 command payload answer.0.event
  append_after-Remembers store command payload event {answer} h =
      let events = load store command.hand_id in
      let digest = request_digest_of platform payload in
      let (_, e) = assert-eq-ok (length events == command.expected_version) version_conflict _ h in
      let prior : Prior = record { request_digest = digest; event = event } in
      subst (λ (x : Reply × HandStore). Remembers x.1 command payload x.0.event) (ok-injective e)
        (
          prior,
          get_text-set_text (prior_key command.hand_id command.key) prior store.idempotency,
          refl,
          refl,
        )

  pub record_event-Remembers :
      (now : ℕ) (store : HandStore) (command : Command) (payload : Payload)
      {answer : Reply × HandStore}
      → find_idempotency store command.hand_id command.key ≡ none
      → record_event platform now store command payload ≡ ok answer
      → Remembers answer.1 command payload answer.0.event
  unfolding record_event append_to
  record_event-Remembers now store command payload {answer} fresh h =
      let (_, h1) = assert-eq-ok (leb 16 (text_length command.key)) weak_key _ h in
      let (event, _, h2) =
        >>=-eq-ok
          (append_event platform command.hand_id payload (last_event (load store command.hand_id))
            now)
          _ h1 in
      append_after-Remembers store command payload event (
        subst
          (λ o.
            append_after o store command.hand_id command.expected_version command.key
              (request_digest_of platform payload) event
            ≡ ok answer)
          fresh h2)

  pub replayed-Remembers :
      (prior : Option Prior) (now : ℕ) (store : HandStore) (command : Command) (payload : Payload)
      (guards : Handled (Unit {0})) {answer : Reply × HandStore}
      → find_idempotency store command.hand_id command.key ≡ prior
      → (replay_of platform prior payload >>= λ reply.
          unless_replayed platform reply store
            (guards >> record_event platform now store command payload))
        ≡ ok answer
      → Remembers answer.1 command payload answer.0.event
  replayed-Remembers none now store command payload guards fresh h =
      let (_, _, recorded) = >>=-eq-ok guards _ h in
      record_event-Remembers now store command payload fresh recorded
  replayed-Remembers (some prior) now store command payload guards {answer} found h =
      let digest = request_digest_of platform payload in
      let (reply, replied, e) = >>=-eq-ok (replay_of platform (some prior) payload) _ h in
      let (again, checked, _) = >>=-eq-ok (answer_prior prior digest) _ replied in
      let (same, _) = assert-eq-ok (same_bytes prior.request_digest digest) key_reused _ checked in
      let first : Reply = record { event = prior.event; duplicate = true } in
      let done : ◌≡◌ {A = Handled (Reply × HandStore)} (ok (first, store)) (ok answer) =
        rw same at h in
      subst (λ (x : Reply × HandStore). Remembers x.1 command payload x.0.event) (ok-injective done)
        (prior, found, refl, same_bytes→eq prior.request_digest digest same)

  -- What `replay` finds.
  pub replay-cases :
      (store : HandStore) (command : Command) (payload : Payload) {answer : Option Reply}
      → replay platform store command payload ≡ ok answer
      → ((find_idempotency store command.hand_id command.key ≡ none) × (answer ≡ none))
        ⊎ ((prior : Prior) × (find_idempotency store command.hand_id command.key ≡ some prior)
            × (prior.request_digest ≡ request_digest_of platform payload)
            × (answer ≡ some (record { event = prior.event; duplicate = true })))
  unfolding replay
  replay-cases store command payload {answer} h =
      elim (Option-cases (find_idempotency store command.hand_id command.key)) [
        | inl absent ↦
            let e : ◌≡◌ {A = Handled (Option Reply)} (ok none) (ok answer) = rw absent at h in
            inl (absent, sym (ok-injective e))
        | inr (prior, found) ↦
            let digest = request_digest_of platform payload in
            let h' : replay_of platform (some prior) payload ≡ ok answer = rw found at h in
            let (again, checked, e) = >>=-eq-ok (answer_prior prior digest) _ h' in
            let (same, e') =
              assert-eq-ok (same_bytes prior.request_digest digest) key_reused _ checked in
            inr (
              prior,
              found,
              same_bytes→eq prior.request_digest digest same,
              sym (ok-injective e) ∙ ap some (sym (ok-injective e')),
            )
      ]
