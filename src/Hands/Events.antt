-- ===== src/Hands/Events.antt =====
-- The events of a hand, and what server/hand-coordinator.js and server/transcript.js get from outside.
-- Hexadecimal texts are bytes, times are milliseconds, and a game that is not supported is `none`.
use x_poker.Base.{ℕ, Bool, Option, List, Result, err, ok, Bytes}
use x_poker.Fairness.Fields.{Json, Crypto, FairError, Checked}
use x_poker.Fairness.Cards.{Reveal}
use x_poker.Fairness.Plan.{Game}
use x_poker.Fairness.Hand.{Beacon, PublicRecord}
use x_poker.Fairness.Audit.{AuditBundle}

pub record Rules : Type 0 where
  pub game : Option Game
  pub seats : ℕ
  pub button_seat : Option ℕ
  pub boards : Option ℕ
  pub json : Json

pub record Reservation : Type 0 where
  pub source : Bytes
  pub chain_hash : Bytes
  pub round : ℕ
  pub not_before : ℕ

-- `ABORT_REASONS`
pub data AbortReason : Type 0 where
  beacon_unavailable commitment_timeout dealer_failure : AbortReason
  integrity_failure operator_shutdown : AbortReason

-- `TRANSCRIPT_EVENT_TYPES`, each with its payload
pub data Payload : Type 0 where
  hand_opened : Bytes → Rules → List Bytes → Bytes → Payload
  player_committed : Bytes → Bytes → Payload
  beacon_reserved : Reservation → Payload
  deck_committed : Beacon → Bytes → Payload
  public_card_revealed : Reveal → Payload
  hand_completed : Bytes → Bytes → Payload
  hand_aborted : Option AbortReason → Bool → Payload

-- What `eventBase` returns.
pub record EventBase : Type 0 where
  pub version : Bytes
  pub hand_id : Bytes
  pub sequence : ℕ
  pub payload : Payload
  pub occurred_at : ℕ
  pub previous_hash : Bytes
  pub signer_key_id : Bytes

pub record Event : Type 0 where
  pub base : EventBase
  pub event_hash : Bytes
  pub signature : Bytes

-- The keys of the signer, the beacon verifier, and the values that JavaScript's objects are as JSON:
-- a request with its type and payload, an event without hash and signature, one without signature,
-- a public record and an audit bundle.
pub record Platform : Type 0 where
  pub crypto : Crypto
  pub key_id : Bytes
  pub sign : Bytes → Bytes
  pub verify : Bytes → Bytes → Bool
  pub verify_beacon : Beacon → Reservation → Bool
  pub request_json : Payload → Json
  pub base_json : EventBase → Json
  pub unsigned_json : EventBase → Bytes → Json
  pub record_json : PublicRecord → Json
  pub bundle_json : AuditBundle → Json

-- The errors of the signer, the stores and the coordinator, one for each message; `fair` is one of the
-- protocol, and `undefined_property` the TypeError of a read of what the state does not have.
pub data HandError : Type 0 where
  invalid_hand_id not_monotonic key_reused version_conflict secret_differs weak_key : HandError
  invalid_room invalid_server_commitment unsupported_game invalid_seat_count : HandError
  player_count_differs players_not_unique commitments_closed not_seated : HandError
  already_committed invalid_commitment too_early commitments_missing missing_round : HandError
  round_not_future unverified_beacon source_differs chain_differs round_differs : HandError
  server_seed_differs reveal_count_differs player_seed_differs cannot_commit : HandError
  beacon_not_reverified not_public secret_unavailable cannot_reveal already_revealed : HandError
  out_of_order invalid_proof cards_unavailable deck_differs invalid_private_proof : HandError
  audit_root_differs audit_rejected cannot_complete cannot_abort unknown_reason : HandError
  refunds_missing undefined_property : HandError
  fair : FairError → HandError

abbrev pub Handled {ℓ} : Type ℓ → Type ℓ
Handled A = Result HandError A

-- An error of the protocol, passed on.
abbrev pub from_fair {ℓ} : {A : Type ℓ} → Checked A → Handled A
from_fair (err e) = err (fair e)
from_fair (ok a) = ok a
