-- ===== src/Hands/Reach.antt =====
-- The services that any sequence of operations leads to, and the histories that they hold.
use x_poker.Base.{ℕ, ◌≡◌, Bool, Option, List, [], ok, Bytes}
use x_poker.Fairness.Cards.{Reveal}
use x_poker.Fairness.Hand.{Beacon, PlayerInput}
use x_poker.Fairness.Audit.{AuditBundle}
use x_poker.Hands.Events.{Rules, Reservation, AbortReason, Platform}
use x_poker.Hands.Stores.{HandStore, Reply}
use x_poker.Hands.Coordinator.{Command, open_hand, submit_player_commitment, reserve_beacon}
use x_poker.Hands.Dealing.{Services, commit_deck_for, reveal_public_card}
use x_poker.Hands.Ending.{complete_hand, abort_hand}
use x_poker.Hands.History.{no_events}
use x_poker.Hands.Steps.{
  Histories, open_hand-Histories, submit_player_commitment-Histories, reserve_beacon-Histories,
}
use x_poker.Hands.Served.{
  commit_deck_for-Histories, reveal_public_card-Histories, complete_hand-Histories,
  abort_hand-Histories,
}

module _ (platform : Platform) (tries : ℕ) where
  abbrev pub no_services : Services
  no_services = record { store = record { hands = []; idempotency = [] }; dealer = [] }

  -- The services after any operations, from the first ones on. One constructor for each operation that changes something. An operation that throws leaves
  -- the store as it is; those that change the dealer's secrets are taken with their errors.
  pub data Follows (first : Services) : Services → Type 0 where
    starts : Follows first first
    opens :
        {services : Services} {store : HandStore} {reply : Reply}
        → (now : ℕ) → (hand_id key room : Bytes) → (rules : Rules) → (players : List Bytes)
        → (server_commitment : Bytes) → Follows first services
        → open_hand platform now services.store hand_id key room rules players server_commitment
          ≡ ok (reply, store)
        → Follows first (record services { store = store })
    submits :
        {services : Services} {store : HandStore} {reply : Reply}
        → (now : ℕ) → (command : Command) → (player_id commitment : Bytes) → Follows first services
        → submit_player_commitment platform now services.store command player_id commitment
          ≡ ok (reply, store)
        → Follows first (record services { store = store })
    reserves :
        {services : Services} {store : HandStore} {reply : Reply}
        → (now : ℕ) → (command : Command) → (reservation : Reservation) → Follows first services
        → reserve_beacon platform now services.store command reservation ≡ ok (reply, store)
        → Follows first (record services { store = store })
    commits :
        {services : Services}
        → (now : ℕ) → (command : Command) → (beacon : Beacon) → (server_seed : Bytes)
        → (player_seeds : List PlayerInput) → Follows first services
        → Follows first
            (commit_deck_for platform tries now services command beacon server_seed player_seeds).1
    reveals :
        {services : Services} {store : HandStore} {shown : Reply × Reveal}
        → (now : ℕ) → (command : Command) → (position : ℕ) → Follows first services
        → reveal_public_card platform tries now services command position ≡ ok (shown, store)
        → Follows first (record services { store = store })
    completes :
        {services : Services} {store : HandStore} {done : Reply × AuditBundle}
        → (now : ℕ) → (command : Command) → Follows first services
        → complete_hand platform tries now services command ≡ ok (done, store)
        → Follows first (record services { store = store })
    aborts :
        {services : Services}
        → (now : ℕ) → (command : Command) → (reason : Option AbortReason)
        → (refunds_scheduled : Bool) → Follows first services
        → Follows first (abort_hand platform tries now services command reason refunds_scheduled).1

  -- The services after any operations on empty stores.
  abbrev pub Reach : Services → Type 0
  Reach services = Follows no_services services

  -- After any operations in any order, each hand of the store is a history: its events were signed one after
  -- another, each when the guards of its operation allowed it for the state of the events before.
  pub Reach-Histories :
      (services : Services) → Reach services → Histories platform tries services.store
  Reach-Histories _ starts = λ hand_id. no_events
  Reach-Histories _
        (opens {services} {store} {reply} now hand_id key room rules players server_commitment r
          e) =
      open_hand-Histories platform tries now services.store hand_id key room rules players
        server_commitment {answer = (reply, store)} (Reach-Histories services r) e
  Reach-Histories _ (submits {services} {store} {reply} now command player_id commitment r e) =
      submit_player_commitment-Histories platform tries now services.store command player_id
        commitment {answer = (reply, store)} (Reach-Histories services r) e
  Reach-Histories _ (reserves {services} {store} {reply} now command reservation r e) =
      reserve_beacon-Histories platform tries now services.store command reservation
        {answer = (reply, store)} (Reach-Histories services r) e
  Reach-Histories _ (commits {services} now command beacon server_seed player_seeds r) =
      commit_deck_for-Histories platform tries now services command beacon server_seed player_seeds
        (Reach-Histories services r)
  Reach-Histories _ (reveals {services} {store} {shown} now command position r e) =
      reveal_public_card-Histories platform tries now services command position
        {answer = (shown, store)} (Reach-Histories services r) e
  Reach-Histories _ (completes {services} {store} {done} now command r e) =
      complete_hand-Histories platform tries now services command {answer = (done, store)}
        (Reach-Histories services r) e
  Reach-Histories _ (aborts {services} now command reason refunds_scheduled r) =
      abort_hand-Histories platform tries now services command reason refunds_scheduled
        (Reach-Histories services r)
