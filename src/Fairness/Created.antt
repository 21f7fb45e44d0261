-- ===== src/Fairness/Created.antt =====
-- What a committed hand is made of.
use x_poker.Base.{ℕ, ◌≡◌, refl, subst, List, map, ok, >>=-eq-ok, ok-injective, Bytes}
use x_poker.Fairness.Fields.{
  Json, Crypto, protocol_version, sort_object, rules_hash, commit_server_seed,
}
use x_poker.Fairness.Cards.{commit_deck}
use x_poker.Fairness.Hand.{
  Beacon, PlayerInput, CommittedPlayer, CommittedHand, normalize_beacon, seed_of, commitment_of,
  derive_hand_seed, normalize_players, create_committed_hand,
}

module _ (crypto : Crypto) (tries : ℕ) where
  -- The parts of a committed hand, with the equations that gave them.
  abbrev pub MadeOf :
      Bytes → Json → Bytes → CommittedHand → Beacon → List CommittedPlayer → Bytes → Type 0
  MadeOf hand_id rules server_seed hand normalized committed server_commitment =
      (commit_server_seed crypto hand_id server_seed ≡ ok server_commitment)
      × (derive_hand_seed crypto hand_id (rules_hash crypto rules) server_seed normalized
            (map seed_of committed)
          ≡ ok hand.secret_state.hand_seed)
      × (commit_deck crypto tries hand.secret_state.hand_seed ≡ ok hand.secret_state.deck)
      × (hand.public_record ≡ record {
        version = protocol_version;
        hand_id = hand_id;
        rules = sort_object rules;
        rules_digest = rules_hash crypto rules;
        server_commitment = server_commitment;
        player_commitments = map commitment_of committed;
        beacon = normalized;
        deck_root = hand.secret_state.deck.root;
      })
      × (hand.secret_state.server_seed ≡ server_seed)
      × (hand.secret_state.player_seeds ≡ map seed_of committed)

  pub create_committed_hand-MadeOf :
      (hand_id : Bytes) (rules : Json) (beacon : Beacon) (players : List PlayerInput)
      (server_seed : Bytes) {hand : CommittedHand}
      → create_committed_hand crypto tries hand_id rules beacon players server_seed ≡ ok hand
      → (normalized : Beacon) × (committed : List CommittedPlayer) × (server_commitment : Bytes)
        × (normalize_beacon beacon ≡ ok normalized)
        × (normalize_players crypto hand_id players ≡ ok committed)
        × MadeOf hand_id rules server_seed hand normalized committed server_commitment
  unfolding create_committed_hand
  create_committed_hand-MadeOf hand_id rules beacon players server_seed {hand} h =
      let (normalized, n, h1) = >>=-eq-ok (normalize_beacon beacon) _ h in
      let (committed, c, h2) = >>=-eq-ok (normalize_players crypto hand_id players) _ h1 in
      let (server_commitment, s, h3) =
        >>=-eq-ok (commit_server_seed crypto hand_id server_seed) _ h2 in
      let (hand_seed, d, h4) =
        >>=-eq-ok
          (derive_hand_seed crypto hand_id (rules_hash crypto rules) server_seed normalized
            (map seed_of committed))
          _ h3 in
      let (deck, k, h5) = >>=-eq-ok (commit_deck crypto tries hand_seed) _ h4 in
      (
        normalized,
        committed,
        server_commitment,
        n,
        c,
        subst
            (λ (x : CommittedHand).
              MadeOf hand_id rules server_seed x normalized committed server_commitment)
            (ok-injective h5) (s, d, k, refl, refl, refl),
      )
