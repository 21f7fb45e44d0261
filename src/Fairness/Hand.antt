-- ===== src/Fairness/Hand.antt =====
-- Committed hands and their audit, from fairness/protocol.js.
use x_poker.Base.{
  ℕ, Bool, not, ◌&&◌, Option, none, some, List, [], ◌∷◌, map, ltb, leb, ok, assert, ◌>>=◌, ◌>>◌,
  length, find?, Bytes, same_bytes, has_bytes, unique_bytes, sort_by,
}
use x_poker.Fairness.Fields.{
  Json, Crypto, invalid_player_count, missing_player_id, duplicate_player, missing_beacon_source,
  invalid_beacon_round, short_hand_id, too_few_seeds, Checked, protocol_version, input_domain,
  salt_domain, seed_info, text_length, uint64, from_hex, sort_object, domain_hash, rules_hash,
  commit_server_seed, commit_player_seed,
}
use x_poker.Fairness.Cards.{Deck, commit_deck}

pub record Beacon : Type 0 where
  pub source : Bytes
  pub round : ℕ
  pub randomness : Bytes
  pub chain_hash : Bytes
  pub signature_verified : Bool

pub record PlayerSeed : Type 0 where
  pub player_id : Bytes
  pub seed : Bytes

pub record PlayerCommitment : Type 0 where
  pub player_id : Bytes
  pub commitment : Bytes

-- A player as the caller gives it, with the `secret` that `generateSecret` gives if there is no seed.
pub record PlayerInput : Type 0 where
  pub player_id : Bytes
  pub seed : Option Bytes
  pub secret : Bytes

pub record CommittedPlayer : Type 0 where
  pub player_id : Bytes
  pub seed : Bytes
  pub commitment : Bytes

pub record PublicRecord : Type 0 where
  pub version : Bytes
  pub hand_id : Bytes
  pub rules : Json
  pub rules_digest : Bytes
  pub server_commitment : Bytes
  pub player_commitments : List PlayerCommitment
  pub beacon : Beacon
  pub deck_root : Bytes

pub record SecretState : Type 0 where
  pub server_seed : Bytes
  pub player_seeds : List PlayerSeed
  pub hand_seed : Bytes
  pub deck : Deck

pub record CommittedHand : Type 0 where
  pub public_record : PublicRecord
  pub secret_state : SecretState

abbrev pub max_safe_integer : ℕ
max_safe_integer = 9007199254740991

-- `normalizeBeacon`
unfoldable pub normalize_beacon : Beacon → Checked Beacon
normalize_beacon beacon = do
  assert (ltb 0 (length beacon.source)) missing_beacon_source
  assert (leb beacon.round max_safe_integer) invalid_beacon_round
  randomness ← from_hex beacon.randomness
  ok (record beacon { randomness = randomness })

abbrev pub seed_of : CommittedPlayer → PlayerSeed
seed_of p = record { player_id = p.player_id; seed = p.seed }

abbrev pub commitment_of : CommittedPlayer → PlayerCommitment
commitment_of p = record { player_id = p.player_id; commitment = p.commitment }

abbrev pub or_secret : Option Bytes → Bytes → Bytes
or_secret none secret = secret
or_secret (some seed) secret = seed

-- `sortedPlayers.flatMap`
unfoldable pub player_material : List PlayerSeed → Checked (List Bytes)
player_material [] = ok []
player_material (p ∷ ps) = do
  seed ← from_hex p.seed
  rest ← player_material ps
  ok (p.player_id ∷ seed ∷ rest)

-- `commitments.get(playerId)`, where no id comes twice
abbrev pub commitment_for : Bytes → List PlayerCommitment → Option PlayerCommitment
commitment_for player_id = find? (λ (c : PlayerCommitment). same_bytes c.player_id player_id)

module _ (crypto : Crypto) where
  -- `deriveHandSeed`
  unfoldable pub derive_hand_seed : Bytes → Bytes → Bytes → Beacon → List PlayerSeed → Checked Bytes
  unfolding normalize_beacon player_material
  derive_hand_seed hand_id rules_digest server_seed beacon player_seeds = do
    assert (leb 8 (text_length hand_id)) short_hand_id
    server_bytes ← from_hex server_seed
    beacon_record ← normalize_beacon beacon
    beacon_bytes ← from_hex beacon_record.randomness
    rule_bytes ← from_hex rules_digest
    assert (leb 2 (length player_seeds)) too_few_seeds
    let sorted =
        sort_by (λ (a b : PlayerSeed). crypto.precedes a.player_id b.player_id) player_seeds
    assert (unique_bytes (map (λ (p : PlayerSeed). p.player_id) sorted)) duplicate_player
    material ← player_material sorted
    let input = domain_hash crypto input_domain (
        hand_id
        ∷ server_bytes
        ∷ beacon_record.source
        ∷ uint64 beacon_record.round
        ∷ beacon_bytes
        ∷ material)
    let salt = domain_hash crypto salt_domain (hand_id ∷ rule_bytes ∷ [])
    ok (crypto.hkdf input salt seed_info)

  -- The `map` of `normalizePlayers`, with the ids seen so far.
  unfoldable pub commit_players :
      Bytes → List Bytes → List PlayerInput → Checked (List CommittedPlayer)
  commit_players hand_id ids [] = ok []
  commit_players hand_id ids (p ∷ ps) = do
    assert (ltb 0 (length p.player_id)) missing_player_id
    assert (not (has_bytes ids p.player_id)) duplicate_player
    let seed = or_secret p.seed p.secret
    commitment ← commit_player_seed crypto hand_id p.player_id seed
    rest ← commit_players hand_id (p.player_id ∷ ids) ps
    ok (record { player_id = p.player_id; seed = seed; commitment = commitment } ∷ rest)

  -- `normalizePlayers`
  unfoldable pub normalize_players : Bytes → List PlayerInput → Checked (List CommittedPlayer)
  unfolding commit_players
  normalize_players hand_id players = do
    assert (leb 2 (length players) && leb (length players) 9) invalid_player_count
    committed ← commit_players hand_id [] players
    ok (sort_by (λ (a b : CommittedPlayer). crypto.precedes a.player_id b.player_id) committed)

  -- `createCommittedHand`
  unfoldable pub create_committed_hand :
      ℕ → Bytes → Json → Beacon → List PlayerInput → Bytes → Checked CommittedHand
  unfolding normalize_players derive_hand_seed commit_deck
  create_committed_hand tries hand_id rules beacon players server_seed = do
    normalized ← normalize_beacon beacon
    committed ← normalize_players hand_id players
    server_commitment ← commit_server_seed crypto hand_id server_seed
    let seeds = map seed_of committed
    hand_seed ← derive_hand_seed hand_id (rules_hash crypto rules) server_seed normalized seeds
    deck ← commit_deck crypto tries hand_seed
    ok (record {
      public_record = record {
        version = protocol_version;
        hand_id = hand_id;
        rules = sort_object rules;
        rules_digest = rules_hash crypto rules;
        server_commitment = server_commitment;
        player_commitments = map commitment_of committed;
        beacon = normalized;
        deck_root = deck.root;
      };
      secret_state = record {
        server_seed = server_seed;
        player_seeds = seeds;
        hand_seed = hand_seed;
        deck = deck;
      };
    })
