-- ===== src/Hands/Known.antt =====
-- After any request of server/hand-coordinator.js that succeeds the store knows its event under its key.
use x_poker.Base.{
  ℕ, ◌≡◌, refl, sym, ap, subst, ◌∙◌, inl, inr, Bool, Option, none, some, ok, ◌>>◌, >>=-eq-ok,
  ok-injective, err≢ok, some-injective, Bytes,
}
use x_poker.Hands.Events.{
  AbortReason, Payload, hand_opened, player_committed, beacon_reserved, hand_aborted, Platform,
}
use x_poker.Hands.Stores.{delete_text, Reply, prior_key, find_idempotency}
use x_poker.Hands.Coordinator.{
  Command, record_event, replay, state_of, check_opening, open_hand, check_commitment,
  submit_player_commitment, check_reservation, reserve_beacon,
}
use x_poker.Hands.Dealing.{Services, Served, serve, commit_deck_for, reveal_public_card}
use x_poker.Hands.Ending.{complete_hand, check_abort, abort_unless, abort_hand}
use x_poker.Hands.Requests.{
  Request, opening, submitting, reserving, committing, revealing, completing, aborting,
  prior_key_of, payload_of, on_store, carry_out, Replayed, reveal_public_card-Replayed,
  complete_hand-Replayed,
}
use x_poker.Hands.Replays.{record_event-Remembers, replayed-Remembers, replay-cases}
use x_poker.Hands.Remembered.{
  serve-elim, on_store-ok, reply_of-ok, Knows, replay_or-Knows, commit_deck_for-Known,
}

module _ (platform : Platform) (tries : ℕ) where
  -- What an abort, if it succeeds, leaves in the store.
  abbrev AbortKnown : Bytes → Payload → Served Reply → Type 0
  AbortKnown key payload served =
      (reply : Reply)
      → served.0 ≡ ok reply
      → Knows platform served.1.store key reply.event (some payload)

  abort_unless-Known :
      (now : ℕ) (services : Services) (command : Command) (reason : Option AbortReason)
      (refunds_scheduled : Bool) (prior : Option Reply)
      → replay platform services.store command (hand_aborted reason refunds_scheduled) ≡ ok prior
      → AbortKnown (prior_key command.hand_id command.key) (hand_aborted reason refunds_scheduled) (
          abort_unless platform tries prior services (
            serve
              (check_abort platform tries
                  (state_of platform services.store command.hand_id)
                  reason
                  refunds_scheduled
                >> record_event platform now services.store command
                    (hand_aborted reason refunds_scheduled))
              services
              (λ answer. (
                ok answer.0,
                record { store = answer.1; dealer = delete_text command.hand_id services.dealer },
              ))))
  abort_unless-Known now services command reason refunds_scheduled (some again) h = λ reply e.
      elim (replay-cases platform services.store command _ h) [
        | inl (_, nothing) ↦ cc
        | inr (prior, found, digest, is) ↦
            let first = ap (λ (r : Reply). r.event) (some-injective is) in
            let given = ap (λ (r : Reply). r.event) (ok-injective e) in
            (prior, found, sym first ∙ given, digest)
      ]
  abort_unless-Known now services command reason refunds_scheduled none h =
      let payload = hand_aborted reason refunds_scheduled in
      let state = state_of platform services.store command.hand_id in
      elim (replay-cases platform services.store command payload h) [
        | inr (prior, found, digest, is) ↦ cc
        | inl (absent, _) ↦
            serve-elim (AbortKnown (prior_key command.hand_id command.key) payload)
              (check_abort platform tries state reason refunds_scheduled
                >> record_event platform now services.store command payload)
              services _ (λ e _ reply f. absurd (err≢ok f))
              (λ answer r reply f.
                let (_, _, recorded) =
                  >>=-eq-ok (check_abort platform tries state reason refunds_scheduled) _ r in
                let (prior, found, is, digest) =
                  record_event-Remembers platform now services.store command payload absent
                    recorded in
                (prior, found, is ∙ ap (λ (x : Reply). x.event) (ok-injective f), digest))
      ]

  abort_hand-Known :
      (now : ℕ) (services : Services) (command : Command) (reason : Option AbortReason)
      (refunds_scheduled : Bool)
      → AbortKnown
          (prior_key command.hand_id command.key)
          (hand_aborted reason refunds_scheduled)
          (abort_hand platform tries now services command reason refunds_scheduled)
  unfolding abort_hand
  abort_hand-Known now services command reason refunds_scheduled =
      let payload = hand_aborted reason refunds_scheduled in
      serve-elim (AbortKnown (prior_key command.hand_id command.key) payload)
        (replay platform services.store command payload) services _
        (λ e _ reply f. absurd (err≢ok f))
        (λ prior h. abort_unless-Known now services command reason refunds_scheduled prior h)

  known-Replayed :
      (now : ℕ) (services services' : Services) (command : Command) {reply : Reply}
      → Replayed platform tries now services.store command (reply, services'.store)
      → Knows platform services'.store (prior_key command.hand_id command.key) reply.event none
  unfolding replay
  known-Replayed now services services' command {reply} (payload, guards, h) =
      let (prior, found, is, _) =
        replayed-Remembers platform (find_idempotency services.store command.hand_id command.key)
          now services.store command payload guards {answer = (reply, services'.store)} refl h in
      (prior, found, is, tt)

  -- A request that succeeds is known by its key.
  pub carry_out-Knows :
      (now : ℕ) (services : Services) (r : Request) {reply : Reply} {services' : Services}
      → carry_out platform tries now services r ≡ (ok reply, services')
      → Knows platform services'.store (prior_key_of r) reply.event (payload_of r)
  unfolding open_hand submit_player_commitment reserve_beacon
  carry_out-Knows now services (opening hand_id key room rules players server_commitment) h =
      replay_or-Knows platform now services
        (record { hand_id = hand_id; expected_version = 0; key = key })
        (hand_opened room rules players server_commitment)
        (check_opening platform room rules players server_commitment) h
  carry_out-Knows now services (submitting command player_id commitment) h =
      replay_or-Knows platform now services command (player_committed player_id commitment)
        (check_commitment platform (state_of platform services.store command.hand_id) player_id
          commitment)
        h
  carry_out-Knows now services (reserving command reservation) h =
      replay_or-Knows platform now services command (beacon_reserved reservation)
        (check_reservation platform now (state_of platform services.store command.hand_id)
          reservation)
        h
  carry_out-Knows now services (committing command beacon server_seed player_seeds) {reply}
        {services'} h =
      let c = commit_deck_for platform tries now services command beacon server_seed player_seeds in
      let (published, done) = reply_of-ok c h in
      let known =
        commit_deck_for-Known platform tries now services command beacon server_seed player_seeds
          reply published (ap (λ x. x.0) done) in
      subst
        (λ (s : Services).
          Knows platform s.store (prior_key command.hand_id command.key) reply.event none)
        (ap (λ x. x.1) done) known
  carry_out-Knows now services (revealing command position) {reply} {services'} h =
      let shown = reveal_public_card platform tries now services command position in
      let (reveal, done) = reply_of-ok (on_store shown services) h in
      known-Replayed now services services' command (
        reveal_public_card-Replayed platform tries now services command position
          {answer = ((reply, reveal), services'.store)} (on_store-ok shown services done))
  carry_out-Knows now services (completing command) {reply} {services'} h =
      let ended = complete_hand platform tries now services command in
      let (bundle, done) = reply_of-ok (on_store ended services) h in
      known-Replayed now services services' command (
        complete_hand-Replayed platform tries now services command
          {answer = ((reply, bundle), services'.store)} (on_store-ok ended services done))
  carry_out-Knows now services (aborting command reason refunds_scheduled) {reply} h =
      subst
        (λ (s : Services).
          Knows platform s.store (prior_key command.hand_id command.key) reply.event
            (some (hand_aborted reason refunds_scheduled)))
        (ap (λ x. x.1) h)
        (abort_hand-Known now services command reason refunds_scheduled reply (ap (λ x. x.0) h))
