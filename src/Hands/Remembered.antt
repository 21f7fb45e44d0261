-- ===== src/Hands/Remembered.antt =====
-- After a `commitDeck` of server/hand-coordinator.js that succeeds the store knows its event under its key.
use x_poker.Base.{
  ℕ, ◌≡◌, refl, sym, ap, ap₂, ◌∙◌, inl, inr, Bool, Option, none, some, List, err, ok, ok-injective,
  err≢ok, some-injective, Bytes,
}
use x_poker.Fairness.Hand.{Beacon, PlayerInput, PublicRecord, CommittedHand}
use x_poker.Hands.Events.{Payload, deck_committed, Event, Platform, HandError, Handled}
use x_poker.Hands.Stores.{
  Prior, HandStore, Reply, prior_key, find_idempotency, DealerStore, put_secret,
}
use x_poker.Hands.State.{HandState}
use x_poker.Hands.Coordinator.{
  Command, request_digest_of, record_event, replay, replay_or, state_of,
}
use x_poker.Hands.Dealing.{
  Services, Served, serve, record_text, check_seeds, check_beacon, record_or_undo, store_and_record,
  commit_unless, commit_deck_for,
}
use x_poker.Hands.Requests.{on_store, reply_of}
use x_poker.Hands.Kept.{Holds}
use x_poker.Hands.Replays.{Remembers, record_event-Remembers, replayed-Remembers, replay-cases}

-- A rest that runs only if the statement before it does not throw.
pub serve-elim {κ} :
    {A B : Type 0} (P : Served B → Type κ) (r : Handled A) (services : Services)
    (rest : A → Served B)
    → ((e : HandError) → r ≡ err e → P (err e, services))
    → ((a : A) → r ≡ ok a → P (rest a))
    → P (serve r services rest)
serve-elim P (err e) services rest f g = f e refl
serve-elim P (ok a) services rest f g = g a refl

pub on_store-ok :
    {A : Type 0} (r : Handled (A × HandStore)) (services : Services) {a : A} {services' : Services}
    → on_store r services ≡ (ok a, services')
    → r ≡ ok (a, services'.store)
on_store-ok (err e) services h = absurd (err≢ok (ap (λ x. x.0) h))
on_store-ok (ok (b, store)) services {a} {services'} h =
    let same : b ≡ a = ok-injective (ap (λ x. x.0) h) in
    let stored : store ≡ services'.store = ap (λ x. x.1.store) h in
    ap ok (ap₂ (λ x y. (x, y)) same stored)

pub reply_of-ok :
    {A : Type 0} (served : Served (Reply × A)) {reply : Reply} {services' : Services}
    → reply_of served ≡ (ok reply, services')
    → (a : A) × (served ≡ (ok (reply, a), services'))
reply_of-ok (err e, services) h = absurd (err≢ok (ap (λ x. x.0) h))
reply_of-ok (ok (first, a), services) {reply} {services'} h =
    let same : first ≡ reply = ok-injective (ap (λ x. x.0) h) in
    (a, ap₂ (λ x y. (ok (x, a), y)) same (ap (λ x. x.1) h))

module _ (platform : Platform) where
  -- The digest that is kept with an event, where the request tells its payload.
  abbrev pub IsDigest : Option Payload → Prior → Type 0
  IsDigest none prior = Unit
  IsDigest (some payload) prior = prior.request_digest ≡ request_digest_of platform payload

  abbrev pub Knows : HandStore → Bytes → Event → Option Payload → Type 0
  Knows store key event payload =
      (prior : Prior) × Holds store key prior × (prior.event ≡ event) × IsDigest payload prior

  -- An operation on the events alone.
  pub replay_or-Knows :
      (now : ℕ) (services : Services) (command : Command) (payload : Payload)
      (guards : Handled (Unit {0})) {reply : Reply} {services' : Services}
      → on_store (replay_or platform now services.store command payload guards) services
        ≡ (ok reply, services')
      → Knows services'.store (prior_key command.hand_id command.key) reply.event (some payload)
  unfolding replay
  replay_or-Knows now services command payload guards {reply} {services'} h =
      let done =
        on_store-ok (replay_or platform now services.store command payload guards) services h in
      replayed-Remembers platform (find_idempotency services.store command.hand_id command.key) now
        services.store command payload guards {answer = (reply, services'.store)} refl done

module _ (platform : Platform) (tries : ℕ) where
  -- What an answer, if it is one, leaves in the store.
  abbrev pub Known : {A : Type 0} → Bytes → Served (Reply × A) → Type 0
  Known {A} key served =
      (reply : Reply) (a : A)
      → served.0 ≡ ok (reply, a)
      → Knows platform served.1.store key reply.event none

  known_event :
      (store : HandStore) (command : Command) (payload : Payload) (event other : Event)
      → event ≡ other
      → Remembers platform store command payload event
      → Knows platform store (prior_key command.hand_id command.key) other none
  known_event store command payload event other same (prior, found, is, _) =
      (prior, found, is ∙ same, tt)

  record_or_undo-Known :
      (r : Handled (Reply × HandStore)) (services : Services) (dealer : DealerStore)
      (inserted : Bool) (command : Command) (payload : Payload) (published : PublicRecord)
      → ((answer : Reply × HandStore)
          → r ≡ ok answer
          → Remembers platform answer.1 command payload answer.0.event)
      → Known
          (prior_key command.hand_id command.key)
          (record_or_undo platform tries r services.store dealer inserted command.hand_id published)
  record_or_undo-Known (err e) services dealer inserted command payload published f =
      λ reply a h. absurd (err≢ok h)
  record_or_undo-Known (ok answer) services dealer inserted command payload published f =
      λ reply a h.
        known_event answer.1 command payload answer.0.event reply.event
          (ap (λ (x : Reply × PublicRecord). x.0.event) (ok-injective h)) (f answer refl)

  thrown-Known :
      {A : Type 0} (key : Bytes) (e : HandError) (services : Services)
      → Known {A = A} key (err e, services)
  thrown-Known key e services = λ reply a h. absurd (err≢ok h)

  commit_unless-Known :
      (now : ℕ) (services : Services) (command : Command) (payload : Payload) (state : HandState)
      (beacon : Beacon) (hand : CommittedHand) (prior : Option Reply)
      → replay platform services.store command payload ≡ ok prior
      → Known (prior_key command.hand_id command.key) (
          commit_unless platform tries prior services hand.public_record
            (store_and_record platform tries now services command payload state beacon hand))
  commit_unless-Known now services command payload state beacon hand (some again) h = λ reply a e.
      elim (replay-cases platform services.store command payload h) [
        | inl (_, nothing) ↦ cc
        | inr (prior, found, digest, is) ↦
            let first = ap (λ (r : Reply). r.event) (some-injective is) in
            let given = ap (λ (x : Reply × PublicRecord). x.0.event) (ok-injective e) in
            (prior, found, sym first ∙ given, tt)
      ]
  commit_unless-Known now services command payload state beacon hand none h =
      let key = prior_key command.hand_id command.key in
      elim (replay-cases platform services.store command payload h) [
        | inr (prior, found, digest, is) ↦ cc
        | inl (absent, _) ↦
            serve-elim (Known key) (check_beacon platform tries state beacon) services _
              (λ e _. thrown-Known key e services)
              (λ _ _.
                serve-elim (Known key)
                  (put_secret (record_text platform tries) services.dealer command.hand_id hand)
                  services _ (λ e _. thrown-Known key e services)
                  (λ put _.
                    record_or_undo-Known (record_event platform now services.store command payload)
                      services put.1 put.0 command payload hand.public_record
                      (λ answer r.
                        record_event-Remembers platform now services.store command payload absent
                          r)))
      ]

  pub commit_deck_for-Known :
      (now : ℕ) (services : Services) (command : Command) (beacon : Beacon) (server_seed : Bytes)
      (player_seeds : List PlayerInput)
      → Known
          (prior_key command.hand_id command.key)
          (commit_deck_for platform tries now services command beacon server_seed player_seeds)
  unfolding commit_deck_for
  commit_deck_for-Known now services command beacon server_seed player_seeds =
      let key = prior_key command.hand_id command.key in
      let state = state_of platform services.store command.hand_id in
      serve-elim (Known key)
        (check_seeds platform tries state command.hand_id beacon server_seed player_seeds) services
        _ (λ e _. thrown-Known key e services)
        (λ hand _.
          let payload = deck_committed beacon hand.public_record.deck_root in
          serve-elim (Known key) (replay platform services.store command payload) services _
            (λ e _. thrown-Known key e services)
            (λ prior h. commit_unless-Known now services command payload state beacon hand prior h))
