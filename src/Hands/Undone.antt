-- ===== src/Hands/Undone.antt =====
-- A commitment of the deck that throws leaves everything as it was.
use x_poker.Base.{
  ℕ, ◌≡◌, refl, ap, subst, Bool, Option, none, some, List, if◌then◌else◌, err, ok, assert-eq-ok,
  ok-injective, Bytes, same_bytes,
}
use x_poker.Fairness.Hand.{Beacon, PlayerInput, PublicRecord, CommittedHand}
use x_poker.Hands.Events.{deck_committed, Platform, HandError, secret_differs, Handled}
use x_poker.Hands.Stores.{
  get_text, delete_text, HandStore, Reply, DealerStore, put_after, put_secret,
}
use x_poker.Hands.Coordinator.{Command, replay, state_of}
use x_poker.Hands.Dealing.{
  Services, Served, serve, record_text, check_seeds, check_beacon, record_or_undo, commit_unless,
  commit_deck_for,
}
use x_poker.Hands.Maps.{delete_text-set_text}

serve-unchanged :
    {A B : Type 0} (r : Handled A) (services : Services) (rest : A → Served B) (e : HandError)
    → ((a : A) → r ≡ ok a → (rest a).0 ≡ err e → (rest a).1 ≡ services)
    → (serve r services rest).0 ≡ err e
    → (serve r services rest).1 ≡ services
serve-unchanged (err thrown) services rest e f h = refl
serve-unchanged (ok a) services rest e f h = f a refl h

module _ (platform : Platform) (tries : ℕ) where
  put_after-undone :
      (existing : Option CommittedHand) (dealer : DealerStore) (hand_id : Bytes)
      (hand : CommittedHand) {put : Bool × DealerStore}
      → get_text hand_id dealer ≡ existing
      → put_after (record_text platform tries) existing dealer hand_id hand ≡ ok put
      → (if put.0 then delete_text hand_id put.1 else put.1) ≡ dealer
  put_after-undone (some existing) dealer hand_id hand found h =
      let (_, e) =
        assert-eq-ok
          (same_bytes (record_text platform tries existing.public_record)
            (record_text platform tries hand.public_record))
          secret_differs _ h in
      subst (λ (x : Bool × DealerStore). (if x.0 then delete_text hand_id x.1 else x.1) ≡ dealer)
        (ok-injective e) refl
  put_after-undone none dealer hand_id hand found h =
      subst (λ (x : Bool × DealerStore). (if x.0 then delete_text hand_id x.1 else x.1) ≡ dealer)
        (ok-injective h) (delete_text-set_text hand_id hand dealer found)

  record_or_undo-undone :
      (r : Handled (Reply × HandStore)) (services : Services) (dealer : DealerStore)
      (inserted : Bool) (hand_id : Bytes) (published : PublicRecord) (e : HandError)
      → (if inserted then delete_text hand_id dealer else dealer) ≡ services.dealer
      → (record_or_undo platform tries r services.store dealer inserted hand_id published).0 ≡ err e
      → (record_or_undo platform tries r services.store dealer inserted hand_id published).1
        ≡ services
  record_or_undo-undone (ok answer) services dealer inserted hand_id published e back h = cc
  record_or_undo-undone (err thrown) services dealer inserted hand_id published e back h =
      ap (λ d. record { store = services.store; dealer = d }) back

  commit_unless-unchanged :
      (prior : Option Reply) (services : Services) (published : PublicRecord)
      (rest : Served (Reply × PublicRecord)) (e : HandError)
      → (rest.0 ≡ err e → rest.1 ≡ services)
      → (commit_unless platform tries prior services published rest).0 ≡ err e
      → (commit_unless platform tries prior services published rest).1 ≡ services
  commit_unless-unchanged (some reply) services published rest e f h = refl
  commit_unless-unchanged none services published rest e f h = f h

  -- A commitment of the deck that ends in an error, wherever that was thrown, leaves the events and the dealer's
  -- secrets exactly as they were: a secret that it had stored is deleted again.
  pub commit_deck_for-Undone :
      (now : ℕ) (services : Services) (command : Command) (beacon : Beacon) (server_seed : Bytes)
      (player_seeds : List PlayerInput) (e : HandError)
      → (commit_deck_for platform tries now services command beacon server_seed player_seeds).0
        ≡ err e
      → (commit_deck_for platform tries now services command beacon server_seed player_seeds).1
        ≡ services
  unfolding commit_deck_for put_secret
  commit_deck_for-Undone now services command beacon server_seed player_seeds e =
      let state = state_of platform services.store command.hand_id in
      serve-unchanged
        (check_seeds platform tries state command.hand_id beacon server_seed player_seeds) services
        _ e
        (λ hand _.
          serve-unchanged
            (replay platform services.store command
              (deck_committed beacon hand.public_record.deck_root))
            services _ e
            (λ prior _. commit_unless-unchanged prior services hand.public_record _ e (
              serve-unchanged (check_beacon platform tries state beacon) services _ e (λ _ _.
                serve-unchanged
                  (put_secret (record_text platform tries) services.dealer command.hand_id hand)
                  services _ e
                  (λ put stored.
                    record_or_undo-undone _ services put.1 put.0 command.hand_id hand.public_record
                      e
                      (put_after-undone (get_text command.hand_id services.dealer) services.dealer
                        command.hand_id hand refl stored))))))
