-- ===== src/Hands/Served.antt =====
-- The operations that use the dealer's secrets keep the histories.
use x_poker.Base.{
  ℕ, ◌≡◌, refl, sym, ap, subst, Bool, true, false, Option, none, some, List, ltb, err, ok, assert,
  or_fail, ◌>>◌, >>=-eq-ok, assert-eq-ok, ok-injective, or_fail-eq-ok, get_elem?, includes, Bytes,
}
use x_poker.Fairness.Fields.{invalid_position, undefined_read, Checked}
use x_poker.Fairness.Tree.{merkle_proof}
use x_poker.Fairness.Cards.{card_from_id, Deck, Reveal, reveal_card}
use x_poker.Fairness.Hand.{Beacon, PlayerInput, PublicRecord}
use x_poker.Fairness.Audit.{AuditBundle, create_audit_bundle, verify_audit_bundle}
use x_poker.Hands.Events.{
  AbortReason, deck_committed, public_card_revealed, hand_completed, hand_aborted, Platform,
  not_public, secret_unavailable, audit_root_differs, audit_rejected, cannot_complete,
  undefined_property, Handled, from_fair,
}
use x_poker.Hands.Stores.{get_text, HandStore, Reply, DealerStore, put_secret}
use x_poker.Hands.State.{is_dealing}
use x_poker.Hands.Coordinator.{Command, record_event, replay, replay_or, state_of}
use x_poker.Hands.Dealing.{
  Services, Served, serve, plan_for, public_sequence, record_text, check_seeds, check_beacon,
  record_or_undo, store_and_record, commit_unless, commit_deck_for, check_public_reveal,
  reveal_public_card,
}
use x_poker.Hands.Ending.{
  is_text, bundle_digest, complete_hand, check_abort, abort_unless, abort_hand,
}
use x_poker.Hands.Steps.{Histories, record_event-Histories, replay_or-Histories}

pub from_fair-eq-ok {ℓ} : {A : Type ℓ} (r : Checked A) {a : A} → from_fair r ≡ ok a → r ≡ ok a
from_fair-eq-ok (ok a) h = cc
from_fair-eq-ok (err e) h = cc

reveal_card-position :
    (deck : Deck) (position : ℕ) {reveal : Reveal}
    → from_fair (reveal_card deck position) ≡ ok reveal
    → reveal.position ≡ position
unfolding reveal_card
reveal_card-position deck position h =
    let r = from_fair-eq-ok (reveal_card deck position) h in
    let (_, r1) = assert-eq-ok (ltb position 52) invalid_position _ r in
    let (id, _, r2) = >>=-eq-ok (or_fail (get_elem? deck.order position) undefined_read) _ r1 in
    let (card, _, r3) = >>=-eq-ok (card_from_id id) _ r2 in
    let (nonce, _, r4) = >>=-eq-ok (or_fail (get_elem? deck.nonces position) undefined_read) _ r3 in
    let (proof, _, r5) = >>=-eq-ok (merkle_proof deck.layers position) _ r4 in
    ap (λ (x : Reveal). x.position) (sym (ok-injective r5))

pub assert-passed : {E : Type 0} (c : Bool) (e : E) → assert c e ≡ ok tt → c ≡ true
assert-passed true e h = refl
assert-passed false e h = cc

module _ (platform : Platform) (tries : ℕ) where
  abbrev HasHistories : Services → Type 0
  HasHistories services = Histories platform tries services.store

  -- A statement that throws changes nothing.
  pub serve-keeps :
      {A B : Type 0} (P : Services → Type 0) (r : Handled A) (services : Services)
      (rest : A → Served B)
      → P services
      → ((a : A) → r ≡ ok a → P (rest a).1)
      → P (serve r services rest).1
  serve-keeps P (err e) services rest p f = p
  serve-keeps P (ok a) services rest p f = f a refl

  record_or_undo-Histories :
      (r : Handled (Reply × HandStore)) (store : HandStore) (dealer : DealerStore) (inserted : Bool)
      (hand_id : Bytes) (published : PublicRecord)
      → Histories platform tries store
      → ((answer : Reply × HandStore) → r ≡ ok answer → Histories platform tries answer.1)
      → Histories platform tries
          (record_or_undo platform tries r store dealer inserted hand_id published).1.store
  record_or_undo-Histories (ok answer) store dealer inserted hand_id published h f = f answer refl
  record_or_undo-Histories (err e) store dealer inserted hand_id published h f = h

  commit_unless-Histories :
      (prior : Option Reply) (services : Services) (published : PublicRecord)
      (rest : Served (Reply × PublicRecord))
      → HasHistories services
      → HasHistories rest.1
      → HasHistories (commit_unless platform tries prior services published rest).1
  commit_unless-Histories (some reply) services published rest h k = h
  commit_unless-Histories none services published rest h k = k

  pub commit_deck_for-Histories :
      (now : ℕ) (services : Services) (command : Command) (beacon : Beacon) (server_seed : Bytes)
      (player_seeds : List PlayerInput)
      → Histories platform tries services.store
      → Histories platform tries
          (commit_deck_for platform tries now services command beacon server_seed
            player_seeds).1.store
  unfolding commit_deck_for
  commit_deck_for-Histories now services command beacon server_seed player_seeds h =
      let state = state_of platform services.store command.hand_id in
      serve-keeps HasHistories
        (check_seeds platform tries state command.hand_id beacon server_seed player_seeds) services
        _ h
        (λ hand seeds.
          let payload = deck_committed beacon hand.public_record.deck_root in
          serve-keeps HasHistories (replay platform services.store command payload) services _ h
            (λ prior _.
              commit_unless-Histories prior services hand.public_record
                (store_and_record platform tries now services command payload state beacon hand) h
                (serve-keeps HasHistories (check_beacon platform tries state beacon) services _ h
                  (λ _ reverified.
                    serve-keeps HasHistories
                      (put_secret (record_text platform tries) services.dealer command.hand_id hand)
                      services _ h
                      (λ put _.
                        record_or_undo-Histories
                          (record_event platform now services.store command payload) services.store
                          put.1 put.0 command.hand_id hand.public_record h
                          (λ answer r.
                            record_event-Histories platform tries now services.store command payload
                              h (λ _. (reverified, (server_seed, player_seeds, hand, seeds, refl)))
                              r))))))

  pub reveal_public_card-Histories :
      (now : ℕ) (services : Services) (command : Command) (position : ℕ)
      {answer : (Reply × Reveal) × HandStore}
      → Histories platform tries services.store
      → reveal_public_card platform tries now services command position ≡ ok answer
      → Histories platform tries answer.1
  unfolding reveal_public_card
  reveal_public_card-Histories now services command position {answer} h r =
      let state = state_of platform services.store command.hand_id in
      let (rules, ruled, r1) = >>=-eq-ok (or_fail state.rules undefined_property) _ r in
      let (plan, planned, r2) = >>=-eq-ok (plan_for rules) _ r1 in
      let sequence = public_sequence plan.boards in
      let (_, r3) = assert-eq-ok (includes sequence position) not_public _ r2 in
      let (hand, _, r4) =
        >>=-eq-ok (or_fail (get_text command.hand_id services.dealer) secret_unavailable) _ r3 in
      let (reveal, shown, r5) =
        >>=-eq-ok (from_fair (reveal_card hand.secret_state.deck position)) _ r4 in
      let at = reveal_card-position hand.secret_state.deck position shown in
      let ((reply, store), recorded, e) =
        >>=-eq-ok
          (replay_or platform now services.store command (public_card_revealed reveal)
            (check_public_reveal platform tries state sequence reveal position))
          _ r5 in
      subst (λ (x : (Reply × Reveal) × HandStore). Histories platform tries x.1) (ok-injective e)
        (replay_or-Histories platform tries now services.store command (public_card_revealed reveal)
          (check_public_reveal platform tries state sequence reveal position)
          {answer = (reply, store)} h
          (λ passed _. (
            rules,
            plan,
            or_fail-eq-ok state.rules undefined_property ruled,
            planned,
            subst (λ p. check_public_reveal platform tries state sequence reveal p ≡ ok tt) (sym at)
                passed,
          ))
          recorded)

  pub complete_hand-Histories :
      (now : ℕ) (services : Services) (command : Command)
      {answer : (Reply × AuditBundle) × HandStore}
      → Histories platform tries services.store
      → complete_hand platform tries now services command ≡ ok answer
      → Histories platform tries answer.1
  unfolding complete_hand
  complete_hand-Histories now services command {answer} h r =
      let state = state_of platform services.store command.hand_id in
      let (hand, _, r1) =
        >>=-eq-ok (or_fail (get_text command.hand_id services.dealer) secret_unavailable) _ r in
      let bundle = create_audit_bundle hand in
      let (_, r2) =
        assert-eq-ok (is_text state.deck_root bundle.public_record.deck_root) audit_root_differs _
          r1 in
      let (audit, _, r3) =
        >>=-eq-ok (from_fair (verify_audit_bundle platform.crypto tries bundle true)) _ r2 in
      let (_, r4) = assert-eq-ok audit.accepted audit_rejected _ r3 in
      let payload =
        hand_completed (bundle_digest platform tries bundle) bundle.public_record.deck_root in
      let ((reply, store), recorded, e) =
        >>=-eq-ok
          (replay_or platform now services.store command payload
            (assert (is_dealing state.status) cannot_complete))
          _ r4 in
      subst (λ (x : (Reply × AuditBundle) × HandStore). Histories platform tries x.1)
        (ok-injective e)
        (replay_or-Histories platform tries now services.store command payload
          (assert (is_dealing state.status) cannot_complete) {answer = (reply, store)} h
          (λ passed _. assert-passed (is_dealing state.status) cannot_complete passed) recorded)

  abort_unless-Histories :
      (prior : Option Reply) (services : Services) (rest : Served Reply)
      → HasHistories services
      → HasHistories rest.1
      → HasHistories (abort_unless platform tries prior services rest).1
  abort_unless-Histories (some reply) services rest h k = h
  abort_unless-Histories none services rest h k = k

  pub abort_hand-Histories :
      (now : ℕ) (services : Services) (command : Command) (reason : Option AbortReason)
      (refunds_scheduled : Bool)
      → HasHistories services
      → HasHistories (abort_hand platform tries now services command reason refunds_scheduled).1
  unfolding abort_hand
  abort_hand-Histories now services command reason refunds_scheduled h =
      let payload = hand_aborted reason refunds_scheduled in
      let state = state_of platform services.store command.hand_id in
      serve-keeps HasHistories (replay platform services.store command payload) services _ h
        (λ prior _. abort_unless-Histories prior services _ h (
          serve-keeps HasHistories
            (check_abort platform tries state reason refunds_scheduled
              >> record_event platform now services.store command payload)
            services _ h
            (λ answer r.
              let (_, passed, recorded) =
                >>=-eq-ok (check_abort platform tries state reason refunds_scheduled) _ r in
              record_event-Histories platform tries now services.store command payload h
                (λ _. passed) recorded)))
