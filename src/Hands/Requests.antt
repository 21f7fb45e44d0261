-- ===== src/Hands/Requests.antt =====
-- The operations of server/hand-coordinator.js as one type of requests, and what they have in common.
use x_poker.Base.{
  ℕ, ◌≡◌, subst, Bool, true, Option, none, some, List, err, ok, assert, or_fail, >>=-eq-ok,
  assert-eq-ok, ok-injective, includes, Bytes,
}
use x_poker.Fairness.Cards.{Reveal, reveal_card}
use x_poker.Fairness.Hand.{Beacon, PlayerInput}
use x_poker.Fairness.Audit.{AuditBundle, create_audit_bundle, verify_audit_bundle}
use x_poker.Hands.Events.{
  Rules, Reservation, AbortReason, Payload, hand_opened, player_committed, beacon_reserved,
  public_card_revealed, hand_completed, hand_aborted, Platform, not_public, secret_unavailable,
  audit_root_differs, audit_rejected, cannot_complete, undefined_property, Handled, from_fair,
}
use x_poker.Hands.Stores.{get_text, HandStore, Reply, prior_key}
use x_poker.Hands.State.{is_dealing}
use x_poker.Hands.Coordinator.{
  Command, replay_or, state_of, open_hand, submit_player_commitment, reserve_beacon,
}
use x_poker.Hands.Dealing.{
  Services, Served, plan_for, public_sequence, commit_deck_for, check_public_reveal,
  reveal_public_card,
}
use x_poker.Hands.Ending.{is_text, bundle_digest, complete_hand, abort_hand}

pub data Request : Type 0 where
  opening :
      (hand_id key room : Bytes) (rules : Rules) (players : List Bytes) (server_commitment : Bytes)
      → Request
  submitting : (command : Command) (player_id commitment : Bytes) → Request
  reserving : (command : Command) (reservation : Reservation) → Request
  committing :
      (command : Command) (beacon : Beacon) (server_seed : Bytes) (player_seeds : List PlayerInput)
      → Request
  revealing : (command : Command) (position : ℕ) → Request
  completing : (command : Command) → Request
  aborting : (command : Command) (reason : Option AbortReason) (refunds_scheduled : Bool) → Request

abbrev key_of : Command → Bytes
key_of command = prior_key command.hand_id command.key

-- The key under which the store remembers a request.
abbrev pub prior_key_of : Request → Bytes
prior_key_of (opening hand_id key room rules players server_commitment) = prior_key hand_id key
prior_key_of (submitting command player_id commitment) = key_of command
prior_key_of (reserving command reservation) = key_of command
prior_key_of (committing command beacon server_seed player_seeds) = key_of command
prior_key_of (revealing command position) = key_of command
prior_key_of (completing command) = key_of command
prior_key_of (aborting command reason refunds_scheduled) = key_of command

-- The payload of a request that says it all; the others work it out from the dealer's secrets.
abbrev pub payload_of : Request → Option Payload
payload_of (opening hand_id key room rules players server_commitment) =
    some (hand_opened room rules players server_commitment)
payload_of (submitting command player_id commitment) = some (player_committed player_id commitment)
payload_of (reserving command reservation) = some (beacon_reserved reservation)
payload_of (committing command beacon server_seed player_seeds) = none
payload_of (revealing command position) = none
payload_of (completing command) = none
payload_of (aborting command reason refunds_scheduled) =
    some (hand_aborted reason refunds_scheduled)

-- The answer of an operation on the events alone, with the services after it.
abbrev pub on_store : {A : Type 0} → Handled (A × HandStore) → Services → Served A
on_store (err e) services = (err e, services)
on_store (ok answer) services = (ok answer.0, record services { store = answer.1 })

abbrev pub reply_of : {A : Type 0} → Served (Reply × A) → Served Reply
reply_of (err e, services) = (err e, services)
reply_of (ok answer, services) = (ok answer.0, services)

module _ (platform : Platform) (tries : ℕ) where
  abbrev pub carry_out : ℕ → Services → Request → Served Reply
  carry_out now services (opening hand_id key room rules players server_commitment) =
      on_store
        (open_hand platform now services.store hand_id key room rules players server_commitment)
        services
  carry_out now services (submitting command player_id commitment) =
      on_store (submit_player_commitment platform now services.store command player_id commitment)
        services
  carry_out now services (reserving command reservation) =
      on_store (reserve_beacon platform now services.store command reservation) services
  carry_out now services (committing command beacon server_seed player_seeds) =
      reply_of (commit_deck_for platform tries now services command beacon server_seed player_seeds)
  carry_out now services (revealing command position) =
      reply_of (on_store (reveal_public_card platform tries now services command position) services)
  carry_out now services (completing command) =
      reply_of (on_store (complete_hand platform tries now services command) services)
  carry_out now services (aborting command reason refunds_scheduled) =
      abort_hand platform tries now services command reason refunds_scheduled

  -- An operation that succeeds on the events alone has replayed or recorded, after guards.
  abbrev pub Replayed : ℕ → HandStore → Command → Reply × HandStore → Type 0
  Replayed now store command answer =
      (payload : Payload) × (guards : Handled (Unit {0})) × (replay_or platform now store command
          payload guards
        ≡ ok answer)

  pub reveal_public_card-Replayed :
      (now : ℕ) (services : Services) (command : Command) (position : ℕ)
      {answer : (Reply × Reveal) × HandStore}
      → reveal_public_card platform tries now services command position ≡ ok answer
      → Replayed now services.store command (answer.0.0, answer.1)
  unfolding reveal_public_card
  reveal_public_card-Replayed now services command position {answer} r =
      let state = state_of platform services.store command.hand_id in
      let (rules, _, r1) = >>=-eq-ok (or_fail state.rules undefined_property) _ r in
      let (plan, _, r2) = >>=-eq-ok (plan_for rules) _ r1 in
      let sequence = public_sequence plan.boards in
      let (_, r3) = assert-eq-ok (includes sequence position) not_public _ r2 in
      let (hand, _, r4) =
        >>=-eq-ok (or_fail (get_text command.hand_id services.dealer) secret_unavailable) _ r3 in
      let (reveal, _, r5) =
        >>=-eq-ok (from_fair (reveal_card hand.secret_state.deck position)) _ r4 in
      let payload = public_card_revealed reveal in
      let guards = check_public_reveal platform tries state sequence reveal position in
      let ((reply, store), recorded, e) =
        >>=-eq-ok (replay_or platform now services.store command payload guards) _ r5 in
      subst (λ (x : (Reply × Reveal) × HandStore). Replayed now services.store command (x.0.0, x.1))
        (ok-injective e) (payload, guards, recorded)

  pub complete_hand-Replayed :
      (now : ℕ) (services : Services) (command : Command)
      {answer : (Reply × AuditBundle) × HandStore}
      → complete_hand platform tries now services command ≡ ok answer
      → Replayed now services.store command (answer.0.0, answer.1)
  unfolding complete_hand
  complete_hand-Replayed now services command {answer} r =
      let state = state_of platform services.store command.hand_id in
      let (hand, _, r1) =
        >>=-eq-ok (or_fail (get_text command.hand_id services.dealer) secret_unavailable) _ r in
      let bundle = create_audit_bundle hand in
      let (_, r2) =
        assert-eq-ok (is_text state.deck_root bundle.public_record.deck_root) audit_root_differs _
          r1 in
      let (audit, _, r3) =
        >>=-eq-ok (from_fair (verify_audit_bundle platform.crypto tries bundle true)) _ r2 in
      let (_, r4) = assert-eq-ok audit.accepted audit_rejected _ r3 in
      let payload =
        hand_completed (bundle_digest platform tries bundle) bundle.public_record.deck_root in
      let guards = assert (is_dealing state.status) cannot_complete in
      let ((reply, store), recorded, e) =
        >>=-eq-ok (replay_or platform now services.store command payload guards) _ r4 in
      subst
        (λ (x : (Reply × AuditBundle) × HandStore).
          Replayed now services.store command (x.0.0, x.1))
        (ok-injective e) (payload, guards, recorded)
