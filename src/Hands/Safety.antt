-- ===== src/Hands/Safety.antt =====
-- What holds of the hands that the coordinator leads to.
use x_poker.Base.{ℕ, ◌<◌, ◌≡◌, refl, sym, ap, ◌∙◌, true, some, List, ok, length, All, Bytes}
use x_poker.Hands.Events.{
  Payload, hand_opened, player_committed, beacon_reserved, deck_committed, public_card_revealed,
  hand_completed, hand_aborted, Event, Platform,
}
use x_poker.Hands.Transcript.{verify_transcript}
use x_poker.Hands.Stores.{get_text, load}
use x_poker.Hands.State.{HandState, missing_hand, apply_payload, reduce_from, reduce_hand}
use x_poker.Hands.Coordinator.{last_event, state_of}
use x_poker.Hands.Dealing.{Services}
use x_poker.Hands.History.{History, no_events, after_event}
use x_poker.Hands.Verified.{cursor_of, last_event-append, Signs, History-cursor, History-Verifies}
use x_poker.Hands.Reach.{Reach, Reach-Histories}
use x_poker.Hands.Committed.{uncommitted-zero}
use x_poker.Hands.Invariant.{reduce_from-append, is_closed, History-IsSeated}
use x_poker.Hands.Order.{InOrder, History-InOrder}

apply_payload-version : (s : HandState) (p : Payload) → (apply_payload s p).version ≡ s.version
unfolding apply_payload
apply_payload-version s (hand_opened room rules players commitment) = refl
apply_payload-version s (player_committed player commitment) = refl
apply_payload-version s (beacon_reserved reservation) = refl
apply_payload-version s (deck_committed beacon root) = refl
apply_payload-version s (public_card_revealed reveal) = refl
apply_payload-version s (hand_completed digest root) = refl
apply_payload-version s (hand_aborted reason refunds) = refl

module _ (platform : Platform) (tries : ℕ) where
  reduce_hand-version :
      (hand_id : Bytes) (events : List Event)
      → History platform tries hand_id events
      → (reduce_hand events).version ≡ (cursor_of (last_event events)).index
  unfolding reduce_from
  reduce_hand-version hand_id _ no_events = refl
  reduce_hand-version hand_id _ (after_event {events} now payload event h signed allowed) =
      ap (λ (s : HandState). s.version) (reduce_from-append missing_hand events event)
      ∙ apply_payload-version _ event.base.payload
      ∙ ap (λ o. (cursor_of o).index) (sym (last_event-append events event))

  -- If the verifier accepts what the signer signs, then after any operations the events of each hand are a
  -- transcript that verifies, with its own length and some head, and the hand's version is their number.
  pub Reach-Verifies :
      (services : Services) (hand_id : Bytes)
      → Signs platform
      → Reach platform tries services
      → 0 < length (load services.store hand_id)
      → (head : Bytes) × (verify_transcript platform
            (load services.store hand_id)
            (some head)
            (some (length (load services.store hand_id)))
          ≡ ok (head, some hand_id))
        × ((state_of platform services.store hand_id).version
            ≡ length (load services.store hand_id))
  Reach-Verifies services hand_id signs r some_event =
      let events = load services.store hand_id in
      let h = Reach-Histories platform tries services r hand_id in
      let (head, verified) = History-Verifies platform tries hand_id events signs h some_event in
      let (_, _, many) = History-cursor platform tries hand_id events signs h in
      (head, verified, reduce_hand-version hand_id events h ∙ many)

  -- After any operations, a hand whose beacon is reserved, or that is dealt or complete, has a committed seed of
  -- each of its players.
  pub Reach-Committed :
      (services : Services) (hand_id : Bytes)
      → Reach platform tries services
      → is_closed (state_of platform services.store hand_id).status ≡ true
      → All
          (λ player.
            (commitment : Bytes) × (get_text player
                (state_of platform services.store hand_id).player_commitments
              ≡ some commitment))
          (state_of platform services.store hand_id).players
  Reach-Committed services hand_id r closed =
      let (_, _, _, none_left) =
        History-IsSeated platform tries hand_id (load services.store hand_id)
          (Reach-Histories platform tries services r hand_id) in
      uncommitted-zero (state_of platform services.store hand_id).player_commitments
        (state_of platform services.store hand_id).players (none_left closed)

  -- After any operations, the positions that a hand has shown are none, or the first of those that the deal plan
  -- of its rules shows, in the plan's order.
  pub Reach-InOrder :
      (services : Services) (hand_id : Bytes)
      → Reach platform tries services
      → InOrder (state_of platform services.store hand_id)
  Reach-InOrder services hand_id r =
      History-InOrder platform tries hand_id (load services.store hand_id)
        (Reach-Histories platform tries services r hand_id)
