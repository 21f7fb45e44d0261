-- ===== src/Hands/Ending.antt =====
-- `holeCardsFor`, `completeHand` and `abortHand` of server/hand-coordinator.js.
-- `existing === value`, where the first may be undefined
use x_poker.Base.{
  ℕ, Bool, true, false, not, ◌&&◌, Option, none, some, List, [], ◌∷◌, ◌==◌, if◌then◌else◌, ok,
  assert, or_fail, ◌>>=◌, ◌>>◌, all, Bytes, same_bytes,
}
use x_poker.Fairness.Fields.{canonical_json}
use x_poker.Fairness.Cards.{verify_card_reveal}
use x_poker.Fairness.Plan.{HoleCards}
use x_poker.Fairness.Audit.{AuditBundle, create_audit_bundle, verify_audit_bundle}
use x_poker.Hands.Events.{
  AbortReason, hand_completed, hand_aborted, Platform, not_seated, secret_unavailable,
  cards_unavailable, deck_differs, invalid_private_proof, audit_root_differs, audit_rejected,
  cannot_complete, cannot_abort, unknown_reason, refunds_missing, undefined_property, Handled,
  from_fair,
}
use x_poker.Hands.Stores.{get_text, delete_text, HandStore, Reply}
use x_poker.Hands.State.{HandState, is_missing, is_dealing, is_terminal}
use x_poker.Hands.Coordinator.{Command, record_event, replay, replay_or, state_of}
use x_poker.Hands.Dealing.{Services, Served, serve, plan_for, index_of, reveal_all, PrivateDeal}

abbrev pub is_text : Option Bytes → Bytes → Bool
is_text none value = false
is_text (some existing) value = same_bytes value existing

-- `plan.holeCards[seat]`
abbrev pub hole_positions : ℕ → HoleCards → Option (List ℕ)
hole_positions seat [] = none
hole_positions seat (h ∷ hs) = if h.0 == seat then some h.1 else hole_positions seat hs

abbrev pub is_allowed_reason : Option AbortReason → Bool
is_allowed_reason none = false
is_allowed_reason (some reason) = true

module _ (platform : Platform) (tries : ℕ) where
  -- `holeCardsFor`
  unfoldable pub hole_cards_for : Services → Bytes → Bytes → Handled PrivateDeal
  hole_cards_for services hand_id player_id = do
    let state = state_of platform services.store hand_id
    assert (is_dealing state.status) cards_unavailable
    seat ← or_fail (index_of player_id state.players) not_seated
    hand ← or_fail (get_text hand_id services.dealer) secret_unavailable
    assert (is_text state.deck_root hand.public_record.deck_root) deck_differs
    rules ← or_fail state.rules undefined_property
    plan ← plan_for rules
    positions ← or_fail (hole_positions seat plan.hole_cards) undefined_property
    reveals ← reveal_all hand.secret_state.deck positions
    root ← or_fail state.deck_root deck_differs
    assert (all (verify_card_reveal platform.crypto root) reveals) invalid_private_proof
    ok (record {
      hand_id = hand_id;
      player_id = player_id;
      game = rules.game;
      deck_root = root;
      reveals = reveals;
    })

  -- `digest(auditBundle)`
  abbrev pub bundle_digest : AuditBundle → Bytes
  bundle_digest bundle =
      platform.crypto.sha256 (canonical_json platform.crypto (platform.bundle_json bundle))

  -- `completeHand`
  unfoldable pub complete_hand :
      ℕ → Services → Command → Handled ((Reply × AuditBundle) × HandStore)
  unfolding replay record_event
  complete_hand now services command = do
    let state = state_of platform services.store command.hand_id
    hand ← or_fail (get_text command.hand_id services.dealer) secret_unavailable
    let bundle = create_audit_bundle hand
    assert (is_text state.deck_root bundle.public_record.deck_root) audit_root_differs
    audit ← from_fair (verify_audit_bundle platform.crypto tries bundle true)
    assert audit.accepted audit_rejected
    (reply, store) ←
        replay_or platform now services.store command
          (hand_completed (bundle_digest bundle) bundle.public_record.deck_root)
          (assert (is_dealing state.status) cannot_complete)
    ok ((reply, bundle), store)

  abbrev pub check_abort : HandState → Option AbortReason → Bool → Handled (Unit {0})
  check_abort state reason refunds_scheduled = do
    assert (not (is_missing state.status) && not (is_terminal state.status)) cannot_abort
    assert (is_allowed_reason reason) unknown_reason
    assert refunds_scheduled refunds_missing

  abbrev pub abort_unless : Option Reply → Services → Served Reply → Served Reply
  abort_unless (some reply) services rest = (ok reply, services)
  abort_unless none services rest = rest

  -- `abortHand`, which deletes the dealer's secret unless it replays
  unfoldable pub abort_hand : ℕ → Services → Command → Option AbortReason → Bool → Served Reply
  unfolding replay record_event
  abort_hand now services command reason refunds_scheduled =
      let payload = hand_aborted reason refunds_scheduled in
      let state = state_of platform services.store command.hand_id in
      serve (replay platform services.store command payload) services (λ prior.
        abort_unless prior services (
          serve
            (check_abort state reason refunds_scheduled
              >> record_event platform now services.store command payload)
            services
            (λ answer. (
              ok answer.0,
              record { store = answer.1; dealer = delete_text command.hand_id services.dealer },
            ))))
