-- ===== src/Hands/Kept.antt =====
-- What the store of server/hand-coordinator.js remembers of a command, no operation forgets or overwrites.
use x_poker.Base.{
  ℕ, ◌≡◌, refl, sym, ap, subst, ◌∙◌, inl, inr, Bool, Option, none, some, List, leb, ◌==◌,
  Bool-cases, err, ok, ◌>>◌, >>=-eq-ok, assert-eq-ok, ok-injective, length, Bytes, same_bytes,
  same_bytes→eq,
}
use x_poker.Fairness.Fields.{text_length}
use x_poker.Fairness.Hand.{Beacon, PlayerInput, PublicRecord}
use x_poker.Hands.Events.{
  AbortReason, Payload, deck_committed, hand_aborted, Event, Platform, version_conflict, weak_key,
  Handled,
}
use x_poker.Hands.Transcript.{append_event}
use x_poker.Hands.Stores.{
  Prior, TextMap, get_text, set_text, HandStore, Reply, prior_key, load, find_idempotency,
  answer_prior, append_after, append_to, DealerStore, put_secret,
}
use x_poker.Hands.Coordinator.{
  last_event, Command, request_digest_of, record_event, replay, replay_or, state_of, open_hand,
  submit_player_commitment, reserve_beacon,
}
use x_poker.Hands.Dealing.{
  Services, Served, record_text, check_seeds, check_beacon, record_or_undo, commit_unless,
  commit_deck_for,
}
use x_poker.Hands.Ending.{check_abort, abort_unless, abort_hand}
use x_poker.Hands.Maps.{get_text-set_text_other}
use x_poker.Hands.Records.{replay_or-cases}
use x_poker.Hands.Served.{serve-keeps}
use x_poker.Hands.Reach.{
  Follows, starts, opens, submits, reserves, commits, reveals, completes, aborts,
}
use x_poker.Hands.Requests.{reveal_public_card-Replayed, complete_hand-Replayed}

-- What is remembered under a key.
abbrev pub Holds : HandStore → Bytes → Prior → Type 0
Holds store key prior = get_text key store.idempotency ≡ some prior

abbrev pub Keeps : HandStore → HandStore → Type 0
Keeps store store' = (key : Bytes) (prior : Prior) → Holds store key prior → Holds store' key prior

set_text-keeps :
    (m : TextMap Prior) (key : Bytes) (new : Prior) (other : Bytes) (prior : Prior)
    → get_text key m ≡ none
    → get_text other m ≡ some prior
    → get_text other (set_text key new m) ≡ some prior
set_text-keeps m key new other prior absent found = elim (Bool-cases (same_bytes key other)) [
  | inl same ↦
      let clash : ◌≡◌ {A = Option Prior} none (some prior) =
        sym absent ∙ ap (λ k. get_text k m) (same_bytes→eq key other same) ∙ found in
      cc
  | inr apart ↦ get_text-set_text_other key other new m apart ∙ found
]

append_after-Keeps :
    (o : Option Prior) (store : HandStore) (hand_id : Bytes) (expected : ℕ) (key digest : Bytes)
    (event : Event) {answer : Reply × HandStore}
    → find_idempotency store hand_id key ≡ o
    → append_after o store hand_id expected key digest event ≡ ok answer
    → Keeps store answer.1
append_after-Keeps (some prior) store hand_id expected key digest event found h =
    let (r, _, e) = >>=-eq-ok (answer_prior prior digest) _ h in
    subst (λ (x : Reply × HandStore). Keeps store x.1) (ok-injective e) (λ k p holds. holds)
append_after-Keeps none store hand_id expected key digest event absent h =
    let (_, e) = assert-eq-ok (length (load store hand_id) == expected) version_conflict _ h in
    subst (λ (x : Reply × HandStore). Keeps store x.1) (ok-injective e)
      (λ k p holds. set_text-keeps store.idempotency (prior_key hand_id key) _ k p absent holds)

module _ (platform : Platform) where
  record_event-Keeps :
      (now : ℕ) (store : HandStore) (command : Command) (payload : Payload)
      {answer : Reply × HandStore}
      → record_event platform now store command payload ≡ ok answer
      → Keeps store answer.1
  unfolding record_event append_to
  record_event-Keeps now store command payload h =
      let (_, h1) = assert-eq-ok (leb 16 (text_length command.key)) weak_key _ h in
      let (event, _, h2) =
        >>=-eq-ok
          (append_event platform command.hand_id payload (last_event (load store command.hand_id))
            now)
          _ h1 in
      append_after-Keeps (find_idempotency store command.hand_id command.key) store command.hand_id
        command.expected_version command.key (request_digest_of platform payload) event refl h2

  pub replay_or-Keeps :
      (now : ℕ) (store : HandStore) (command : Command) (payload : Payload)
      (guards : Handled (Unit {0})) {answer : Reply × HandStore}
      → replay_or platform now store command payload guards ≡ ok answer
      → Keeps store answer.1
  replay_or-Keeps now store command payload guards h =
      elim (replay_or-cases platform now store command payload guards h) [
        | inl same ↦ subst (Keeps store) (sym same) (λ k p holds. holds)
        | inr (_, recorded) ↦ record_event-Keeps now store command payload recorded
      ]

module _ (platform : Platform) (tries : ℕ) (first : HandStore) where
  abbrev Still : Services → Type 0
  Still services = Keeps first services.store

  pub still :
      (store store' : HandStore) → Keeps first store → Keeps store store' → Keeps first store'
  still store store' kept more = λ k p holds. more k p (kept k p holds)

  record_or_undo-Still :
      (r : Handled (Reply × HandStore)) (store : HandStore) (dealer : DealerStore) (inserted : Bool)
      (hand_id : Bytes) (published : PublicRecord)
      → Keeps first store
      → ((answer : Reply × HandStore) → r ≡ ok answer → Keeps store answer.1)
      → Still (record_or_undo platform tries r store dealer inserted hand_id published).1
  record_or_undo-Still (ok answer) store dealer inserted hand_id published k f =
      still store answer.1 k (f answer refl)
  record_or_undo-Still (err e) store dealer inserted hand_id published k f = k

  commit_unless-Still :
      (prior : Option Reply) (services : Services) (published : PublicRecord)
      (rest : Served (Reply × PublicRecord))
      → Still services
      → Still rest.1
      → Still (commit_unless platform tries prior services published rest).1
  commit_unless-Still (some reply) services published rest k l = k
  commit_unless-Still none services published rest k l = l

  pub commit_deck_for-Still :
      (now : ℕ) (services : Services) (command : Command) (beacon : Beacon) (server_seed : Bytes)
      (player_seeds : List PlayerInput)
      → Still services
      → Still
          (commit_deck_for platform tries now services command beacon server_seed player_seeds).1
  unfolding commit_deck_for
  commit_deck_for-Still now services command beacon server_seed player_seeds k =
      let state = state_of platform services.store command.hand_id in
      serve-keeps platform tries Still
        (check_seeds platform tries state command.hand_id beacon server_seed player_seeds) services
        _ k
        (λ hand _.
          let payload = deck_committed beacon hand.public_record.deck_root in
          serve-keeps platform tries Still (replay platform services.store command payload) services
            _ k
            (λ prior _. commit_unless-Still prior services hand.public_record _ k (
              serve-keeps platform tries Still (check_beacon platform tries state beacon) services _
                k
                (λ _ _.
                  serve-keeps platform tries Still
                    (put_secret (record_text platform tries) services.dealer command.hand_id hand)
                    services _ k
                    (λ put _.
                      record_or_undo-Still
                        (record_event platform now services.store command payload) services.store
                        put.1 put.0 command.hand_id hand.public_record k
                        (λ answer r.
                          record_event-Keeps platform now services.store command payload r))))))

  abort_unless-Still :
      (prior : Option Reply) (services : Services) (rest : Served Reply)
      → Still services
      → Still rest.1
      → Still (abort_unless platform tries prior services rest).1
  abort_unless-Still (some reply) services rest k l = k
  abort_unless-Still none services rest k l = l

  pub abort_hand-Still :
      (now : ℕ) (services : Services) (command : Command) (reason : Option AbortReason)
      (refunds_scheduled : Bool)
      → Still services
      → Still (abort_hand platform tries now services command reason refunds_scheduled).1
  unfolding abort_hand
  abort_hand-Still now services command reason refunds_scheduled k =
      let payload = hand_aborted reason refunds_scheduled in
      let state = state_of platform services.store command.hand_id in
      serve-keeps platform tries Still (replay platform services.store command payload) services _ k
        (λ prior _. abort_unless-Still prior services _ k (
          serve-keeps platform tries Still
            (check_abort platform tries state reason refunds_scheduled
              >> record_event platform now services.store command payload)
            services _ k
            (λ answer r.
              let (_, _, recorded) =
                >>=-eq-ok (check_abort platform tries state reason refunds_scheduled) _ r in
              still services.store answer.1 k
                (record_event-Keeps platform now services.store command payload recorded))))

module _ (platform : Platform) (tries : ℕ) where
  -- What is known stays known.
  pub Follows-Keeps :
      (first services : Services)
      → Follows platform tries first services
      → Keeps first.store services.store
  unfolding open_hand submit_player_commitment reserve_beacon
  Follows-Keeps first _ starts = λ key prior holds. holds
  Follows-Keeps first _
        (opens {services} {store} {reply} now hand_id key room rules players server_commitment r
          e) =
      still platform tries first.store services.store store (Follows-Keeps first services r) (
        replay_or-Keeps platform now services.store
          (record { hand_id = hand_id; expected_version = 0; key = key }) _ _
          {answer = (reply, store)} e)
  Follows-Keeps first _ (submits {services} {store} {reply} now command player_id commitment r e) =
      still platform tries first.store services.store store (Follows-Keeps first services r)
        (replay_or-Keeps platform now services.store command _ _ {answer = (reply, store)} e)
  Follows-Keeps first _ (reserves {services} {store} {reply} now command reservation r e) =
      still platform tries first.store services.store store (Follows-Keeps first services r)
        (replay_or-Keeps platform now services.store command _ _ {answer = (reply, store)} e)
  Follows-Keeps first _ (commits {services} now command beacon server_seed player_seeds r) =
      commit_deck_for-Still platform tries first.store now services command beacon server_seed
        player_seeds (Follows-Keeps first services r)
  Follows-Keeps first _ (reveals {services} {store} {shown} now command position r e) =
      let (payload, guards, h) =
        reveal_public_card-Replayed platform tries now services command position
          {answer = (shown, store)} e in
      still platform tries first.store services.store store (Follows-Keeps first services r)
        (replay_or-Keeps platform now services.store command payload guards h)
  Follows-Keeps first _ (completes {services} {store} {done} now command r e) =
      let (payload, guards, h) =
        complete_hand-Replayed platform tries now services command {answer = (done, store)} e in
      still platform tries first.store services.store store (Follows-Keeps first services r)
        (replay_or-Keeps platform now services.store command payload guards h)
  Follows-Keeps first _ (aborts {services} now command reason refunds_scheduled r) =
      abort_hand-Still platform tries first.store now services command reason refunds_scheduled
        (Follows-Keeps first services r)
