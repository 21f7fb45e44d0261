-- ===== src/Hands/Dealer.antt =====
-- The dealer keeps hands that pass their audit.
use x_poker.Base.{
  ℕ, ◌≡◌, subst, Bool, true, false, Option, none, some, List, [], ◌==◌, err, ok, or_fail, >>=-eq-ok,
  assert-eq-ok, ok-injective, length, All, Bytes, same_bytes,
}
use x_poker.Fairness.Fields.{Json}
use x_poker.Fairness.Cards.{Card}
use x_poker.Fairness.Hand.{Beacon, PlayerInput, PublicRecord, CommittedHand, create_committed_hand}
use x_poker.Fairness.Audit.{create_audit_bundle, cards_from, audit_of, verify_audit_bundle}
use x_poker.Hands.Events.{
  AbortReason, deck_committed, hand_aborted, Platform, secret_differs, unverified_beacon,
  source_differs, chain_differs, round_differs, server_seed_differs, reveal_count_differs,
  undefined_property, Handled, from_fair,
}
use x_poker.Hands.Stores.{get_text, HandStore, Reply, DealerStore, put_after, put_secret}
use x_poker.Hands.State.{HandState}
use x_poker.Hands.Coordinator.{Command, replay, state_of}
use x_poker.Hands.Dealing.{
  Services, Served, check_player_seeds, record_text, check_seeds, check_beacon, record_or_undo,
  commit_unless, commit_deck_for,
}
use x_poker.Hands.Ending.{abort_unless, abort_hand}
use x_poker.Fairness.Paths.{Lawful}
use x_poker.Fairness.Accepted.{verify_audit_bundle-Accepts}
use x_poker.Hands.Maps.{set_text-All, delete_text-All, get_text-All}
use x_poker.Hands.Served.{from_fair-eq-ok, serve-keeps}
use x_poker.Hands.Reach.{
  starts, opens, submits, reserves, commits, reveals, completes, aborts, Reach,
}

module _ (platform : Platform) (tries : ℕ) where
  -- A hand that `createCommittedHand` made.
  abbrev IsMade : CommittedHand → Type 0
  IsMade hand =
      (hand_id : Bytes) × (rules : Json) × (beacon : Beacon) × (players : List PlayerInput)
      × (server_seed : Bytes) × (create_committed_hand platform.crypto tries hand_id rules beacon
            players server_seed
          ≡ ok hand)

  check_seeds-IsMade :
      (state : HandState) (hand_id : Bytes) (beacon : Beacon) (server_seed : Bytes)
      (seeds : List PlayerInput) {hand : CommittedHand}
      → check_seeds platform tries state hand_id beacon server_seed seeds ≡ ok hand
      → IsMade hand
  unfolding check_seeds
  check_seeds-IsMade state hand_id beacon server_seed seeds {hand} h =
      let (_, h1) = assert-eq-ok beacon.signature_verified unverified_beacon _ h in
      let (r, _, h2) = >>=-eq-ok (or_fail state.beacon_reservation undefined_property) _ h1 in
      let (_, h3) = assert-eq-ok (same_bytes beacon.source r.source) source_differs _ h2 in
      let (_, h4) = assert-eq-ok (same_bytes beacon.chain_hash r.chain_hash) chain_differs _ h3 in
      let (_, h5) = assert-eq-ok (beacon.round == r.round) round_differs _ h4 in
      let (rules, _, h6) = >>=-eq-ok (or_fail state.rules undefined_property) _ h5 in
      let created =
        create_committed_hand platform.crypto tries hand_id rules.json beacon seeds server_seed in
      let (made, m, h7) = >>=-eq-ok (from_fair created) _ h6 in
      let (expected, _, h8) =
        >>=-eq-ok (or_fail state.server_commitment server_seed_differs) _ h7 in
      let (_, h9) =
        assert-eq-ok (same_bytes made.public_record.server_commitment expected) server_seed_differs
          _ h8 in
      let (_, h10) =
        assert-eq-ok
          (length made.public_record.player_commitments == length state.player_commitments)
          reveal_count_differs _ h9 in
      let (_, _, h11) =
        >>=-eq-ok
          (check_player_seeds state.player_commitments made.public_record.player_commitments) _
          h10 in
      let same : made ≡ hand = ok-injective h11 in
      (
        hand_id,
        rules.json,
        beacon,
        seeds,
        server_seed,
        subst (λ x. created ≡ ok x) same (from_fair-eq-ok created m),
      )

  -- All secrets are of hands that were made.
  abbrev Made : Services → Type 0
  Made services = All (λ e. IsMade e.1) services.dealer

  put_after-Made :
      (existing : Option CommittedHand) (dealer : DealerStore) (hand_id : Bytes)
      (hand : CommittedHand) {put : Bool × DealerStore}
      → IsMade hand
      → All (λ e. IsMade e.1) dealer
      → put_after (record_text platform tries) existing dealer hand_id hand ≡ ok put
      → All (λ e. IsMade e.1) put.1
  put_after-Made (some existing) dealer hand_id hand made m h =
      let (_, e) =
        assert-eq-ok
          (same_bytes (record_text platform tries existing.public_record)
            (record_text platform tries hand.public_record))
          secret_differs _ h in
      subst (λ (x : Bool × DealerStore). All (λ e. IsMade e.1) x.1) (ok-injective e) m
  put_after-Made none dealer hand_id hand made m h =
      subst (λ (x : Bool × DealerStore). All (λ e. IsMade e.1) x.1) (ok-injective h)
        (set_text-All IsMade dealer hand_id hand made m)

  record_or_undo-Made :
      (r : Handled (Reply × HandStore)) (store : HandStore) (dealer : DealerStore) (inserted : Bool)
      (hand_id : Bytes) (published : PublicRecord)
      → All (λ e. IsMade e.1) dealer
      → Made (record_or_undo platform tries r store dealer inserted hand_id published).1
  record_or_undo-Made (ok answer) store dealer inserted hand_id published m = m
  record_or_undo-Made (err e) store dealer true hand_id published m =
      delete_text-All IsMade dealer hand_id m
  record_or_undo-Made (err e) store dealer false hand_id published m = m

  commit_unless-Made :
      (prior : Option Reply) (services : Services) (published : PublicRecord)
      (rest : Served (Reply × PublicRecord))
      → Made services
      → Made rest.1
      → Made (commit_unless platform tries prior services published rest).1
  commit_unless-Made (some reply) services published rest m k = m
  commit_unless-Made none services published rest m k = k

  commit_deck_for-Made :
      (now : ℕ) (services : Services) (command : Command) (beacon : Beacon) (server_seed : Bytes)
      (player_seeds : List PlayerInput)
      → Made services
      → Made (commit_deck_for platform tries now services command beacon server_seed player_seeds).1
  unfolding commit_deck_for put_secret
  commit_deck_for-Made now services command beacon server_seed player_seeds m =
      let state = state_of platform services.store command.hand_id in
      serve-keeps platform tries Made
        (check_seeds platform tries state command.hand_id beacon server_seed player_seeds) services
        _ m
        (λ hand seeds.
          serve-keeps platform tries Made
            (replay platform services.store command
              (deck_committed beacon hand.public_record.deck_root))
            services _ m
            (λ prior _. commit_unless-Made prior services hand.public_record _ m (
              serve-keeps platform tries Made (check_beacon platform tries state beacon) services _
                m
                (λ _ _.
                  serve-keeps platform tries Made
                    (put_secret (record_text platform tries) services.dealer command.hand_id hand)
                    services _ m
                    (λ put stored.
                      record_or_undo-Made _ services.store put.1 put.0 command.hand_id
                        hand.public_record
                        (put_after-Made (get_text command.hand_id services.dealer) services.dealer
                          command.hand_id hand
                          (check_seeds-IsMade state command.hand_id beacon server_seed player_seeds
                            seeds)
                          m stored))))))

  abort_unless-Made :
      (prior : Option Reply) (services : Services) (rest : Served Reply)
      → Made services
      → Made rest.1
      → Made (abort_unless platform tries prior services rest).1
  abort_unless-Made (some reply) services rest m k = m
  abort_unless-Made none services rest m k = k

  abort_hand-Made :
      (now : ℕ) (services : Services) (command : Command) (reason : Option AbortReason)
      (refunds_scheduled : Bool)
      → Made services
      → Made (abort_hand platform tries now services command reason refunds_scheduled).1
  unfolding abort_hand
  abort_hand-Made now services command reason refunds_scheduled m =
      serve-keeps platform tries Made
        (replay platform services.store command (hand_aborted reason refunds_scheduled)) services _
        m
        (λ prior _. abort_unless-Made prior services _ m (
          serve-keeps platform tries Made _ services _ m
            (λ answer _. delete_text-All IsMade services.dealer command.hand_id m)))

  Reach-Made : (services : Services) → Reach platform tries services → Made services
  Reach-Made _ starts = tt
  Reach-Made _ (opens {services} now hand_id key room rules players server_commitment r e) =
      Reach-Made services r
  Reach-Made _ (submits {services} now command player_id commitment r e) = Reach-Made services r
  Reach-Made _ (reserves {services} now command reservation r e) = Reach-Made services r
  Reach-Made _ (commits {services} now command beacon server_seed player_seeds r) =
      commit_deck_for-Made now services command beacon server_seed player_seeds
        (Reach-Made services r)
  Reach-Made _ (reveals {services} now command position r e) = Reach-Made services r
  Reach-Made _ (completes {services} now command r e) = Reach-Made services r
  Reach-Made _ (aborts {services} now command reason refunds_scheduled r) =
      abort_hand-Made now services command reason refunds_scheduled (Reach-Made services r)

  -- After any operations, each hand whose secret the dealer keeps passes the audit by which it is completed: its
  -- bundle is accepted without errors, with the cards of its committed order. The outside functions give as
  -- many bytes as SHA-256 does.
  pub Reach-Audited :
      (services : Services) (hand_id : Bytes) (hand : CommittedHand)
      → Lawful platform.crypto
      → Reach platform tries services
      → get_text hand_id services.dealer ≡ some hand
      → (cards : List Card) × (cards_from hand.secret_state.deck.order ≡ ok cards)
        × (verify_audit_bundle platform.crypto tries (create_audit_bundle hand) true
            ≡ ok (audit_of true [] (some cards)))
  Reach-Audited services hand_id hand lawful r kept =
      let (id, rules, beacon, players, server_seed, made) =
        get_text-All IsMade services.dealer hand_id (Reach-Made services r) kept in
      verify_audit_bundle-Accepts platform.crypto lawful tries id rules beacon players server_seed
        hand true made
