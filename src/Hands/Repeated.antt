-- ===== src/Hands/Repeated.antt =====
-- A command of server/hand-coordinator.js that is sent again, at whatever later time.
use x_poker.Base.{
  ℕ, ◌≡◌, refl, sym, ap, subst, ◌∙◌, ◌⊎◌, inl, inr, true, Option, none, some, err, ok, ◌>>◌,
  >>=-eq-ok, ok-injective, some-injective,
}
use x_poker.Fairness.Hand.{PublicRecord}
use x_poker.Hands.Events.{
  Payload, deck_committed, hand_aborted, Event, Platform, HandError, Handled,
}
use x_poker.Hands.Stores.{Prior, HandStore, Reply, prior_key}
use x_poker.Hands.Coordinator.{
  Command, record_event, replay, unless_replayed, replay_or, state_of, open_hand,
  submit_player_commitment, reserve_beacon,
}
use x_poker.Hands.Dealing.{
  Services, Served, check_seeds, commit_unless, commit_deck_for, reveal_public_card,
}
use x_poker.Hands.Ending.{complete_hand, abort_unless, abort_hand}
use x_poker.Hands.Reach.{Follows}
use x_poker.Hands.Requests.{
  Request, opening, submitting, reserving, committing, revealing, completing, aborting,
  prior_key_of, on_store, reply_of, carry_out, reveal_public_card-Replayed, complete_hand-Replayed,
}
use x_poker.Hands.Kept.{Holds, Follows-Keeps}
use x_poker.Hands.Replays.{replay-cases}
use x_poker.Hands.Remembered.{serve-elim}
use x_poker.Hands.Known.{carry_out-Knows}

-- The first event again, marked as a duplicate.
abbrev pub again : Event → Reply
again event = record { event = event; duplicate = true }

-- An answer that does nothing: an error, or the first event again.
abbrev pub Repeats : Event → Services → Served Reply → Type 0
Repeats event services served =
    (served.1 ≡ services) × (((e : HandError) × (served.0 ≡ err e)) ⊎ (served.0 ≡ ok (again event)))

thrown-Repeats :
    (event : Event) (services : Services) (e : HandError) → Repeats event services (err e, services)
thrown-Repeats event services e = (refl, inl (e, refl))

on_store-Repeats :
    (event : Event) (services : Services) (r : Handled (Reply × HandStore))
    → ((answer : Reply × HandStore) → r ≡ ok answer → answer ≡ (again event, services.store))
    → Repeats event services (on_store r services)
on_store-Repeats event services (err e) f = thrown-Repeats event services e
on_store-Repeats event services (ok answer) f =
    let same = f answer refl in
    (
      ap (λ (x : Reply × HandStore). record services { store = x.1 }) same,
      inr (ap (λ (x : Reply × HandStore). ok x.0) same),
    )

reply_of-Repeats :
    {A : Type 0} (event : Event) (services : Services) (r : Handled ((Reply × A) × HandStore))
    → ((answer : (Reply × A) × HandStore)
        → r ≡ ok answer
        → ◌≡◌ {A = Reply × HandStore} (answer.0.0, answer.1) (again event, services.store))
    → Repeats event services (reply_of (on_store r services))
reply_of-Repeats event services (err e) f = thrown-Repeats event services e
reply_of-Repeats event services (ok answer) f =
    let same = f answer refl in
    (
      ap (λ (x : Reply × HandStore). record services { store = x.1 }) same,
      inr (ap (λ (x : Reply × HandStore). ok x.0) same),
    )

module _ (platform : Platform) (tries : ℕ) where
  -- What `replay` gives where the key is known.
  replay-held :
      (store : HandStore) (command : Command) (payload : Payload) (prior : Prior)
      {answer : Option Reply}
      → Holds store (prior_key command.hand_id command.key) prior
      → replay platform store command payload ≡ ok answer
      → answer ≡ some (again prior.event)
  replay-held store command payload prior holds h =
      elim (replay-cases platform store command payload h) [
        | inl (absent, _) ↦
            let clash : ◌≡◌ {A = Option Prior} none (some prior) = sym absent ∙ holds in cc
        | inr (found_prior, found, digest, is) ↦
            is ∙ ap (λ (p : Prior). some (again p.event)) (some-injective (sym found ∙ holds))
      ]

  replay_or-held :
      (now : ℕ) (store : HandStore) (command : Command) (payload : Payload)
      (guards : Handled (Unit {0})) (prior : Prior) {answer : Reply × HandStore}
      → Holds store (prior_key command.hand_id command.key) prior
      → replay_or platform now store command payload guards ≡ ok answer
      → answer ≡ (again prior.event, store)
  replay_or-held now store command payload guards prior {answer} holds h =
      let (found, replayed, rest) = >>=-eq-ok (replay platform store command payload) _ h in
      let recorded = guards >> record_event platform now store command payload in
      let is = replay-held store command payload prior holds replayed in
      let done = subst (λ o. unless_replayed platform o store recorded ≡ ok answer) is rest in
      sym (ok-injective done)

  abort_unless-Repeats :
      (event : Event) (found : Option Reply) (services : Services) (rest : Served Reply)
      → found ≡ some (again event)
      → Repeats event services (abort_unless platform tries found services rest)
  abort_unless-Repeats event none services rest h = cc
  abort_unless-Repeats event (some reply) services rest h = (refl, inr (ap ok (some-injective h)))

  commit_unless-Repeats :
      (event : Event) (found : Option Reply) (services : Services) (published : PublicRecord)
      (rest : Served (Reply × PublicRecord))
      → found ≡ some (again event)
      → Repeats event services
          (reply_of (commit_unless platform tries found services published rest))
  commit_unless-Repeats event none services published rest h = cc
  commit_unless-Repeats event (some reply) services published rest h =
      (refl, inr (ap ok (some-injective h)))

  -- A request with a known key does nothing.
  carry_out-Repeats :
      (now : ℕ) (services : Services) (q : Request) (prior : Prior)
      → Holds services.store (prior_key_of q) prior
      → Repeats prior.event services (carry_out platform tries now services q)
  unfolding open_hand submit_player_commitment reserve_beacon commit_deck_for abort_hand
  carry_out-Repeats now services (opening hand_id key room rules players server_commitment) prior
        holds =
      on_store-Repeats prior.event services _ (λ answer h.
        replay_or-held now services.store
          (record { hand_id = hand_id; expected_version = 0; key = key }) _ _ prior holds h)
  carry_out-Repeats now services (submitting command player_id commitment) prior holds =
      on_store-Repeats prior.event services _
        (λ answer h. replay_or-held now services.store command _ _ prior holds h)
  carry_out-Repeats now services (reserving command reservation) prior holds =
      on_store-Repeats prior.event services _
        (λ answer h. replay_or-held now services.store command _ _ prior holds h)
  carry_out-Repeats now services (committing command beacon server_seed player_seeds) prior holds =
      let Quiet =
        λ (c : Served (Reply × PublicRecord)). Repeats prior.event services (reply_of c) in
      let state = state_of platform services.store command.hand_id in
      serve-elim Quiet
        (check_seeds platform tries state command.hand_id beacon server_seed player_seeds) services
        _ (λ e _. thrown-Repeats prior.event services e)
        (λ hand _.
          let payload = deck_committed beacon hand.public_record.deck_root in
          serve-elim Quiet (replay platform services.store command payload) services _
            (λ e _. thrown-Repeats prior.event services e)
            (λ found h.
              commit_unless-Repeats prior.event found services hand.public_record _
                (replay-held services.store command payload prior holds h)))
  carry_out-Repeats now services (revealing command position) prior holds =
      reply_of-Repeats prior.event services
        (reveal_public_card platform tries now services command position)
        (λ answer h.
          let (payload, guards, replayed) =
            reveal_public_card-Replayed platform tries now services command position h in
          replay_or-held now services.store command payload guards prior holds replayed)
  carry_out-Repeats now services (completing command) prior holds =
      reply_of-Repeats prior.event services (complete_hand platform tries now services command)
        (λ answer h.
          let (payload, guards, replayed) =
            complete_hand-Replayed platform tries now services command h in
          replay_or-held now services.store command payload guards prior holds replayed)
  carry_out-Repeats now services (aborting command reason refunds_scheduled) prior holds =
      let payload = hand_aborted reason refunds_scheduled in
      serve-elim (Repeats prior.event services) (replay platform services.store command payload)
        services _ (λ e _. thrown-Repeats prior.event services e)
        (λ found h.
          abort_unless-Repeats prior.event found services _
            (replay-held services.store command payload prior holds h))

  -- A request that succeeded, any operations, and then a request of any kind with the same hand and key: it
  -- changes neither the events nor the dealer's secrets, and ends in an error or answers with the event of
  -- the first one, marked as a duplicate.
  pub carry_out-once :
      (now later_now : ℕ) (services services' later : Services) (r q : Request) (reply : Reply)
      → carry_out platform tries now services r ≡ (ok reply, services')
      → Follows platform tries services' later
      → prior_key_of r ≡ prior_key_of q
      → Repeats reply.event later (carry_out platform tries later_now later q)
  carry_out-once now later_now services services' later r q reply h follows same_key =
      let (prior, holds, is, _) = carry_out-Knows platform tries now services r h in
      let kept =
        Follows-Keeps platform tries services' later follows (prior_key_of r) prior holds in
      subst (λ event. Repeats event later (carry_out platform tries later_now later q)) is
        (carry_out-Repeats later_now later q prior
          (subst (λ key. Holds later.store key prior) same_key kept))
