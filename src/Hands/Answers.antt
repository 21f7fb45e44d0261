-- ===== src/Hands/Answers.antt =====
-- The answer of server/hand-coordinator.js to a command that is sent again, where the request tells its payload.
use x_poker.Base.{
  ℕ, ◌≡◌, refl, subst, subst₂, inl, inr, Bool, Option, some, if◌then◌else◌, Bool-cases, err, ok,
  some-injective, Bytes, same_bytes,
}
use x_poker.Hands.Events.{AbortReason, Payload, hand_aborted, Event, Platform, key_reused, Handled}
use x_poker.Hands.Stores.{Prior, Reply, prior_key}
use x_poker.Hands.Coordinator.{
  Command, request_digest_of, replay, replay_or, open_hand, submit_player_commitment,
  reserve_beacon,
}
use x_poker.Hands.Dealing.{Services}
use x_poker.Hands.Ending.{abort_hand}
use x_poker.Hands.Reach.{Follows}
use x_poker.Hands.Requests.{
  Request, opening, submitting, reserving, committing, revealing, completing, aborting,
  prior_key_of, payload_of, on_store, carry_out,
}
use x_poker.Hands.Kept.{Holds, Follows-Keeps}
use x_poker.Hands.Remembered.{IsDigest}
use x_poker.Hands.Known.{carry_out-Knows}
use x_poker.Hands.Repeated.{again}

module _ (platform : Platform) (tries : ℕ) where
  -- The answer to a payload, by the digest that is known.
  abbrev pub answer_known : Bytes → Event → Bytes → Handled Reply
  answer_known digest event other =
      if same_bytes digest other then ok (again event) else err key_reused

  on_store-answer :
      (now : ℕ) (services : Services) (command : Command) (payload : Payload)
      (guards : Handled (Unit {0})) (prior : Prior)
      → Holds services.store (prior_key command.hand_id command.key) prior
      → on_store (replay_or platform now services.store command payload guards) services ≡ (
        answer_known prior.request_digest prior.event (request_digest_of platform payload),
        services,
      )
  unfolding replay
  on_store-answer now services command payload guards prior holds =
      elim (Bool-cases (same_bytes prior.request_digest (request_digest_of platform payload))) [
        | inl same ↦ rw (replay, holds, same) refl
        | inr differs ↦ rw (replay, holds, differs) refl
      ]

  abort_hand-answer :
      (now : ℕ) (services : Services) (command : Command) (reason : Option AbortReason)
      (refunds_scheduled : Bool) (prior : Prior)
      → Holds services.store (prior_key command.hand_id command.key) prior
      → abort_hand platform tries now services command reason refunds_scheduled ≡ (
        answer_known prior.request_digest prior.event
            (request_digest_of platform (hand_aborted reason refunds_scheduled)),
        services,
      )
  unfolding abort_hand replay
  abort_hand-answer now services command reason refunds_scheduled prior holds =
      let payload = hand_aborted reason refunds_scheduled in
      elim (Bool-cases (same_bytes prior.request_digest (request_digest_of platform payload))) [
        | inl same ↦ rw (holds, same) refl
        | inr differs ↦ rw (holds, differs) refl
      ]

  abbrev Answers : ℕ → Services → Request → Prior → Payload → Type 0
  Answers now services q prior other =
      carry_out platform tries now services q
      ≡ (answer_known prior.request_digest prior.event (request_digest_of platform other), services)

  -- The answer to a request with a known key.
  carry_out-answer :
      (now : ℕ) (services : Services) (q : Request) (other : Payload) (prior : Prior)
      → payload_of q ≡ some other
      → Holds services.store (prior_key_of q) prior
      → Answers now services q prior other
  unfolding open_hand submit_player_commitment reserve_beacon
  carry_out-answer now services (opening hand_id key room rules players server_commitment) other
        prior h holds =
      subst (Answers now services (opening hand_id key room rules players server_commitment) prior)
        (some-injective h)
        (on_store-answer now services
          (record { hand_id = hand_id; expected_version = 0; key = key }) _ _ prior holds)
  carry_out-answer now services (submitting command player_id commitment) other prior h holds =
      subst (Answers now services (submitting command player_id commitment) prior)
        (some-injective h) (on_store-answer now services command _ _ prior holds)
  carry_out-answer now services (reserving command reservation) other prior h holds =
      subst (Answers now services (reserving command reservation) prior) (some-injective h)
        (on_store-answer now services command _ _ prior holds)
  carry_out-answer now services (committing command beacon server_seed player_seeds) other prior h
        holds =
      cc
  carry_out-answer now services (revealing command position) other prior h holds = cc
  carry_out-answer now services (completing command) other prior h holds = cc
  carry_out-answer now services (aborting command reason refunds_scheduled) other prior h holds =
      subst (Answers now services (aborting command reason refunds_scheduled) prior)
        (some-injective h)
        (abort_hand-answer now services command reason refunds_scheduled prior holds)

  -- A request to open a hand, to commit a seed, to reserve the beacon or to abort that succeeded, any operations,
  -- and then such a request with the same hand and key: it changes neither the events nor the dealer's
  -- secrets. If its payload has the digest of the first one's, whatever the hand's state is by then, it is
  -- answered with the event of the first one, marked as a duplicate; otherwise it is refused because the key is
  -- in use.
  pub carry_out-answers :
      (now later_now : ℕ) (services services' later : Services) (r q : Request)
      (payload other : Payload) (reply : Reply)
      → payload_of r ≡ some payload
      → payload_of q ≡ some other
      → carry_out platform tries now services r ≡ (ok reply, services')
      → Follows platform tries services' later
      → prior_key_of r ≡ prior_key_of q
      → carry_out platform tries later_now later q ≡ (
        answer_known
            (request_digest_of platform payload)
            reply.event
            (request_digest_of platform other),
        later,
      )
  carry_out-answers now later_now services services' later r q payload other reply is_payload
        is_other h follows same_key =
      let (prior, holds, is, digests) = carry_out-Knows platform tries now services r h in
      let digest : prior.request_digest ≡ request_digest_of platform payload =
        subst (λ o. IsDigest platform o prior) is_payload digests in
      let kept =
        Follows-Keeps platform tries services' later follows (prior_key_of r) prior holds in
      subst₂
        (λ d event.
          carry_out platform tries later_now later q
          ≡ (answer_known d event (request_digest_of platform other), later))
        digest is
        (carry_out-answer later_now later q other prior is_other
          (subst (λ key. Holds later.store key prior) same_key kept))
