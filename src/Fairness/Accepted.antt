-- ===== src/Fairness/Accepted.antt =====
-- A hand's own audit bundle is accepted.
use x_poker.Base.{
  ℕ, suc, ◌≡◌, refl, sym, ap, subst, ◌∙◌, Bool, true, some, List, [], ◌∷◌, map, ◌==◌, ==_iff, ok,
  length, All, to_set, Distinct→all-Distinct, Bytes, unique_bytes,
}
use x_poker.Fairness.Fields.{
  Json, Crypto, protocol_version, rules_domain, equal_hex, sort_object, domain_hash, rules_hash,
  commit_server_seed,
}
use x_poker.Fairness.Cards.{Card, Deck, commit_deck}
use x_poker.Fairness.Hand.{
  Beacon, PlayerSeed, PlayerCommitment, PlayerInput, CommittedPlayer, PublicRecord, CommittedHand,
  seed_of, commitment_of, derive_hand_seed, create_committed_hand,
}
use x_poker.Fairness.Audit.{
  AuditBundle, create_audit_bundle, cards_from, audit_of, reconstruct_deck, check_deck,
  verify_audit_bundle,
}
use x_poker.Fairness.Shuffle.{IsDeck, IsDeck-Distinct}
use x_poker.Fairness.Paths.{Lawful, IsHash}
use x_poker.Fairness.Reveals.{equal_hex_refl, commit_deck-Commits}
use x_poker.Fairness.Created.{create_committed_hand-MadeOf}
use x_poker.Fairness.Uniques.{unique_bytes→find?}
use x_poker.Fairness.Canonical.{sort_object_idempotent}
use x_poker.Fairness.Audited.{
  cards_from-ok, IsCommitted, normalize_players-IsCommitted, verify_server_reveal-ok,
  check_reveals-ok, derive_hand_seed_unique,
}

seed_ids :
    (ps : List CommittedPlayer)
    → map (λ (p : PlayerSeed). p.player_id) (map seed_of ps)
      ≡ map (λ (p : CommittedPlayer). p.player_id) ps
seed_ids [] = refl
seed_ids (p ∷ ps) = ap (◌∷◌ p.player_id) (seed_ids ps)

commitment_ids :
    (ps : List CommittedPlayer)
    → map (λ (p : PlayerCommitment). p.player_id) (map commitment_of ps)
      ≡ map (λ (p : CommittedPlayer). p.player_id) ps
commitment_ids [] = refl
commitment_ids (p ∷ ps) = ap (◌∷◌ p.player_id) (commitment_ids ps)

same_size : (ps : List CommittedPlayer) → length (map seed_of ps) ≡ length (map commitment_of ps)
same_size [] = refl
same_size (p ∷ ps) = ap suc (same_size ps)

module _ (crypto : Crypto) (lawful : Lawful crypto) (tries : ℕ) where
  rules_hash-sort_object :
      (rules : Json) → rules_hash crypto (sort_object rules) ≡ rules_hash crypto rules
  rules_hash-sort_object rules =
      ap (λ j. domain_hash crypto rules_domain (crypto.stringify j ∷ []))
        (sort_object_idempotent rules)

  rules_hash-IsHash : (rules : Json) → IsHash (rules_hash crypto rules)
  unfolding domain_hash
  rules_hash-IsHash rules = lawful.sha256_long _

  -- The bundle of a hand, from its parts.
  abbrev bundle_of :
      Bytes → Json → Bytes → Bytes → Beacon → List CommittedPlayer → Deck → AuditBundle
  bundle_of hand_id rules server_seed server_commitment normalized committed deck = record {
    public_record = record {
      version = protocol_version;
      hand_id = hand_id;
      rules = sort_object rules;
      rules_digest = rules_hash crypto rules;
      server_commitment = server_commitment;
      player_commitments = map commitment_of committed;
      beacon = normalized;
      deck_root = deck.root;
    };
    server_seed = server_seed;
    player_seeds = map seed_of committed;
  }

  reconstruct_deck-ok :
      (hand_id : Bytes) (rules : Json) (server_seed server_commitment : Bytes) (normalized : Beacon)
      (committed : List CommittedPlayer) (hand_seed : Bytes) (deck : Deck)
      → All (IsCommitted crypto lawful hand_id) committed
      → commit_server_seed crypto hand_id server_seed ≡ ok server_commitment
      → derive_hand_seed crypto hand_id
          (rules_hash crypto rules)
          server_seed
          normalized
          (map seed_of committed)
        ≡ ok hand_seed
      → commit_deck crypto tries hand_seed ≡ ok deck
      → reconstruct_deck crypto tries
          (bundle_of hand_id rules server_seed server_commitment normalized committed deck)
        ≡ ok deck
  unfolding reconstruct_deck
  reconstruct_deck-ok hand_id rules server_seed server_commitment normalized committed hand_seed
        deck each server derived dealt =
      let ids : List Bytes = map (λ (p : CommittedPlayer). p.player_id) committed in
      let unique : unique_bytes ids ≡ true =
        ap unique_bytes (sym (seed_ids committed))
        ∙ derive_hand_seed_unique crypto lawful hand_id (rules_hash crypto rules) server_seed
            normalized (map seed_of committed) derived in
      let found =
        unique_bytes→find? (λ (p : CommittedPlayer). p.player_id) commitment_of
          (λ (c : PlayerCommitment). c.player_id) (λ p. refl) committed unique in
      let rules_same : equal_hex (rules_hash crypto (sort_object rules)) (rules_hash crypto rules)
          ≡ true =
        subst (λ h. equal_hex h (rules_hash crypto rules) ≡ true)
          (sym (rules_hash-sort_object rules))
          (equal_hex_refl (rules_hash crypto rules) (rules_hash-IsHash rules)) in
      let unique' = ap unique_bytes (commitment_ids committed) ∙ unique in
      let size = (==_iff _ _).1 (same_size committed) in
      rw
        (
          reconstruct_deck,
          verify_server_reveal-ok crypto lawful hand_id server_seed server,
          unique',
          size,
          check_reveals-ok crypto lawful hand_id (map commitment_of committed) committed each found,
          rules_same,
          derived,
        )
        dealt

  check_deck-ok :
      (bundle : AuditBundle) (deck : Deck)
      → IsDeck deck.order
      → IsHash deck.root
      → bundle.public_record.deck_root ≡ deck.root
      → check_deck crypto bundle deck ≡ ok tt
  check_deck-ok bundle deck whole hashed root =
      let same : equal_hex deck.root bundle.public_record.deck_root ≡ true =
        subst (λ h. equal_hex deck.root h ≡ true) (sym root) (equal_hex_refl deck.root hashed) in
      let all_of : (length (to_set deck.order) == length deck.order) ≡ true =
        Distinct→all-Distinct deck.order (IsDeck-Distinct deck.order whole) in
      let size : (length (to_set deck.order) == 52) ≡ true =
        subst (λ n. (length (to_set deck.order) == n) ≡ true) whole.0 all_of in
      rw (same, size) refl

  verify_audit_bundle-of_deck :
      (bundle : AuditBundle) (signature : Bool) (deck : Deck) (cards : List Card)
      → reconstruct_deck crypto tries bundle ≡ ok deck
      → cards_from deck.order ≡ ok cards
      → check_deck crypto bundle deck ≡ ok tt
      → verify_audit_bundle crypto tries bundle signature ≡ ok (audit_of signature [] (some cards))
  unfolding verify_audit_bundle
  verify_audit_bundle-of_deck bundle signature deck cards r c k =
      rw (verify_audit_bundle, r, c, k) refl

  -- A hand that was committed is found to be right by the audit of its own bundle: no errors, its cards are
  -- those of the committed order, and the verdict is that of the beacon's signature.
  pub verify_audit_bundle-Accepts :
      (hand_id : Bytes) (rules : Json) (beacon : Beacon) (players : List PlayerInput)
      (server_seed : Bytes) (hand : CommittedHand) (signature : Bool)
      → create_committed_hand crypto tries hand_id rules beacon players server_seed ≡ ok hand
      → (cards : List Card) × (cards_from hand.secret_state.deck.order ≡ ok cards)
        × (verify_audit_bundle crypto tries (create_audit_bundle hand) signature
            ≡ ok (audit_of signature [] (some cards)))
  verify_audit_bundle-Accepts hand_id rules beacon players server_seed hand signature h =
      let (normalized, committed, server_commitment, n, c, made) =
        create_committed_hand-MadeOf crypto tries hand_id rules beacon players server_seed h in
      let (server, derived, dealt, public, seed_same, seeds_same) = made in
      let deck = hand.secret_state.deck in
      let (whole, _, (_, _, (_, hashed, _))) = commit_deck-Commits crypto lawful tries _ dealt in
      let (cards, shown) = cards_from-ok deck.order whole.1 in
      let bundle =
        bundle_of hand_id rules server_seed server_commitment normalized committed deck in
      let same : bundle ≡ create_audit_bundle hand =
        ap
          (λ (p : PublicRecord). record {
            public_record = p;
            server_seed = server_seed;
            player_seeds = map seed_of committed;
          })
          (sym public)
        ∙ ap
            (λ (s : Bytes). record {
              public_record = hand.public_record;
              server_seed = s;
              player_seeds = map seed_of committed;
            })
            (sym seed_same)
        ∙ ap
            (λ (s : List PlayerSeed). record {
              public_record = hand.public_record;
              server_seed = hand.secret_state.server_seed;
              player_seeds = s;
            })
            (sym seeds_same) in
      let accepted =
        verify_audit_bundle-of_deck bundle signature deck cards
          (reconstruct_deck-ok hand_id rules server_seed server_commitment normalized committed _
            deck (normalize_players-IsCommitted crypto lawful hand_id players c) server derived
            dealt)
          shown (check_deck-ok bundle deck whole hashed refl) in
      (
        cards,
        shown,
        subst
            (λ b.
              verify_audit_bundle crypto tries b signature
              ≡ ok (audit_of signature [] (some cards)))
            same accepted,
      )
