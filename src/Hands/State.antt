-- ===== src/Hands/State.antt =====
-- The state of a hand, which `reduceHand` of server/hand-coordinator.js computes from its events.
use x_poker.Base.{ℕ, Bool, true, false, Option, none, some, List, [], ◌∷◌, ◌++◌, Bytes}
use x_poker.Fairness.Hand.{Beacon}
use x_poker.Hands.Events.{
  Rules, Reservation, Payload, hand_opened, player_committed, beacon_reserved, deck_committed,
  public_card_revealed, hand_completed, hand_aborted, Event,
}
use x_poker.Hands.Stores.{TextMap, set_text}

pub data HandStatus : Type 0 where
  missing committing awaiting_beacon dealing complete aborted : HandStatus

pub record HandState : Type 0 where
  pub version : ℕ
  pub status : HandStatus
  pub hand_id : Option Bytes
  pub rules : Option Rules
  pub players : List Bytes
  pub server_commitment : Option Bytes
  pub player_commitments : TextMap Bytes
  pub beacon_reservation : Option Reservation
  pub verified_beacon : Option Beacon
  pub deck_root : Option Bytes
  pub public_positions : List ℕ

abbrev pub missing_hand : HandState
missing_hand = record {
  version = 0;
  status = missing;
  hand_id = none;
  rules = none;
  players = [];
  server_commitment = none;
  player_commitments = [];
  beacon_reservation = none;
  verified_beacon = none;
  deck_root = none;
  public_positions = [];
}

-- The `switch`.
unfoldable pub apply_payload : HandState → Payload → HandState
apply_payload state (hand_opened room rules players commitment) = record state {
  status = committing;
  rules = some rules;
  players = players;
  server_commitment = some commitment;
}
apply_payload state (player_committed player_id commitment) = record state {
  player_commitments = set_text player_id commitment state.player_commitments;
}
apply_payload state (beacon_reserved reservation) = record state {
  status = awaiting_beacon;
  beacon_reservation = some reservation;
}
apply_payload state (deck_committed beacon root) = record state {
  status = dealing;
  verified_beacon = some beacon;
  deck_root = some root;
}
apply_payload state (public_card_revealed reveal) = record state {
  public_positions = state.public_positions ++ reveal.position ∷ [];
}
apply_payload state (hand_completed digest root) = record state { status = complete }
apply_payload state (hand_aborted reason refunds) = record state { status = aborted }

-- One round of the loop.
abbrev pub apply_event : HandState → Event → HandState
apply_event state event =
    apply_payload
      (record state { version = event.base.sequence; hand_id = some event.base.hand_id })
      event.base.payload

unfoldable pub reduce_from : HandState → List Event → HandState
unfolding apply_payload
reduce_from state [] = state
reduce_from state (e ∷ es) = reduce_from (apply_event state e) es

-- `reduceHand`
abbrev pub reduce_hand : List Event → HandState
reduce_hand events = reduce_from missing_hand events

abbrev pub is_missing : HandStatus → Bool
is_missing missing = true
is_missing _ = false

abbrev pub is_committing : HandStatus → Bool
is_committing committing = true
is_committing _ = false

abbrev pub is_awaiting_beacon : HandStatus → Bool
is_awaiting_beacon awaiting_beacon = true
is_awaiting_beacon _ = false

abbrev pub is_dealing : HandStatus → Bool
is_dealing dealing = true
is_dealing _ = false

-- `TERMINAL.has(status)`
abbrev pub is_terminal : HandStatus → Bool
is_terminal complete = true
is_terminal aborted = true
is_terminal _ = false
