-- ===== src/Hands/History.antt =====
-- The histories of a hand: what the coordinator's guards let happen, one signed event after another.
use x_poker.Base.{ℕ, ◌≡◌, true, some, List, [], ◌∷◌, ◌++◌, ok, length, Bytes}
use x_poker.Fairness.Plan.{DealPlan}
use x_poker.Fairness.Hand.{PlayerInput, CommittedHand}
use x_poker.Hands.Events.{
  Rules, Payload, hand_opened, player_committed, beacon_reserved, deck_committed,
  public_card_revealed, hand_completed, hand_aborted, Event, Platform,
}
use x_poker.Hands.Transcript.{append_event}
use x_poker.Hands.State.{reduce_hand, is_dealing}
use x_poker.Hands.Coordinator.{last_event, check_opening, check_commitment, check_reservation}
use x_poker.Hands.Dealing.{
  plan_for, public_sequence, check_seeds, check_beacon, check_public_reveal,
}
use x_poker.Hands.Ending.{check_abort}

module _ (platform : Platform) (tries : ℕ) where
  -- What may come after some events.
  abbrev pub Allowed : Bytes → ℕ → List Event → Payload → Type 0
  Allowed hand_id now events (hand_opened room rules players commitment) =
      (length events ≡ 0) × (check_opening platform room rules players commitment ≡ ok tt)
  Allowed hand_id now events (player_committed player_id commitment) =
      check_commitment platform (reduce_hand events) player_id commitment ≡ ok tt
  Allowed hand_id now events (beacon_reserved reservation) =
      check_reservation platform now (reduce_hand events) reservation ≡ ok tt
  Allowed hand_id now events (deck_committed beacon root) =
      (check_beacon platform tries (reduce_hand events) beacon ≡ ok tt)
      × ((server_seed : Bytes) × (seeds : List PlayerInput) × (hand : CommittedHand) × (check_seeds
              platform tries (reduce_hand events) hand_id beacon server_seed seeds
            ≡ ok hand)
          × (root ≡ hand.public_record.deck_root))
  Allowed hand_id now events (public_card_revealed reveal) =
      (rules : Rules) × (plan : DealPlan) × ((reduce_hand events).rules ≡ some rules)
      × (plan_for rules ≡ ok plan)
      × (check_public_reveal platform tries (reduce_hand events) (public_sequence plan.boards)
            reveal reveal.position
          ≡ ok tt)
  Allowed hand_id now events (hand_completed digest root) =
      is_dealing (reduce_hand events).status ≡ true
  Allowed hand_id now events (hand_aborted reason refunds) =
      check_abort platform tries (reduce_hand events) reason refunds ≡ ok tt

  pub data History (hand_id : Bytes) : List Event → Type 0 where
    no_events : History hand_id []
    after_event :
        {events : List Event}
        → (now : ℕ) → (payload : Payload) → (event : Event) → History hand_id events
        → append_event platform hand_id payload (last_event events) now ≡ ok event
        → Allowed hand_id now events payload
        → History hand_id (events ++ event ∷ [])
