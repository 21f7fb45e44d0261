-- ===== src/Fairness/Cards.antt =====
-- Cards, the commitment to a deck, and reveals, from fairness/protocol.js.
use x_poker.Base.{
  ℕ, ◌+◌, ◌/◌, ◌%◌, Bool, false, ◌&&◌, List, [], ◌∷◌, ◌++◌, ltb, ◌==◌, err, ok, assert, or_fail,
  ◌>>=◌, ◌>>◌, get_elem?, Bytes, same_bytes,
}
use x_poker.Fairness.Fields.{
  Crypto, invalid_card, invalid_position, invalid_metadata, undefined_read, Checked, nonce_label,
  card_leaf_domain, uint32, uint64, from_hex, equal_hex, domain_hash,
}
use x_poker.Fairness.Deck.{shuffle_deck}
use x_poker.Fairness.Tree.{ProofItem, merkle_proof, root_of, build_merkle_layers, climb_proof}

abbrev pub suits : List Bytes
suits =
    (99 ∷ 108 ∷ 117 ∷ 98 ∷ 115 ∷ [])
    ∷ (100 ∷ 105 ∷ 97 ∷ 109 ∷ 111 ∷ 110 ∷ 100 ∷ 115 ∷ [])
    ∷ (104 ∷ 101 ∷ 97 ∷ 114 ∷ 116 ∷ 115 ∷ [])
    ∷ (115 ∷ 112 ∷ 97 ∷ 100 ∷ 101 ∷ 115 ∷ [])
    ∷ []

abbrev pub suit_symbols : List ℕ
suit_symbols = 9827 ∷ 9830 ∷ 9829 ∷ 9824 ∷ []

abbrev pub rank_codes : List ℕ
rank_codes = 50 ∷ 51 ∷ 52 ∷ 53 ∷ 54 ∷ 55 ∷ 56 ∷ 57 ∷ 84 ∷ 74 ∷ 81 ∷ 75 ∷ 65 ∷ []

-- `rank` and `symbol` are character codes.
pub record Card : Type 0 where
  pub id : ℕ
  pub rank : ℕ
  pub suit : Bytes
  pub symbol : ℕ
  pub code : List ℕ

-- `cardFromId`
unfoldable pub card_from_id : ℕ → Checked Card
card_from_id card_id = do
  assert (ltb card_id 52) invalid_card
  rank ← or_fail (get_elem? rank_codes (card_id % 13)) undefined_read
  suit ← or_fail (get_elem? suits (card_id / 13)) undefined_read
  symbol ← or_fail (get_elem? suit_symbols (card_id / 13)) undefined_read
  ok (record { id = card_id; rank = rank; suit = suit; symbol = symbol; code = rank ∷ symbol ∷ [] })

-- `canonicalJson(first) === canonicalJson(second)`, for cards
abbrev pub same_card : Card → Card → Bool
same_card a b =
    (a.id == b.id)
    && ((a.rank == b.rank)
        && (same_bytes a.suit b.suit && ((a.symbol == b.symbol) && same_bytes a.code b.code)))

pub record Deck : Type 0 where
  pub order : List ℕ
  pub nonces : List Bytes
  pub layers : List (List Bytes)
  pub root : Bytes

pub record Reveal : Type 0 where
  pub position : ℕ
  pub card : Card
  pub nonce : Bytes
  pub proof : List ProofItem

module _ (crypto : Crypto) where
  abbrev pub card_nonce : Bytes → ℕ → ℕ → Bytes
  card_nonce seed position card_id =
      crypto.hmac seed (nonce_label ++ uint32 position ++ uint32 card_id)

  abbrev pub card_leaf : ℕ → ℕ → Bytes → Bytes
  card_leaf position card_id nonce =
      domain_hash crypto card_leaf_domain (uint64 position ∷ uint64 card_id ∷ nonce ∷ [])

  abbrev pub nonces_from : Bytes → ℕ → List ℕ → List Bytes
  nonces_from seed position [] = []
  nonces_from seed position (c ∷ cs) =
      card_nonce seed position c ∷ nonces_from seed (position + 1) cs

  abbrev pub leaves_from : Bytes → ℕ → List ℕ → List Bytes
  leaves_from seed position [] = []
  leaves_from seed position (c ∷ cs) =
      card_leaf position c (card_nonce seed position c) ∷ leaves_from seed (position + 1) cs

  -- `commitDeck`
  unfoldable pub commit_deck : ℕ → Bytes → Checked Deck
  unfolding build_merkle_layers
  commit_deck tries seed = do
    order ← shuffle_deck crypto tries seed
    layers ← build_merkle_layers crypto (leaves_from seed 0 order)
    root ← root_of layers
    ok (record { order = order; nonces = nonces_from seed 0 order; layers = layers; root = root })

  -- The body of the `try` of `verifyCardReveal`.
  unfoldable pub check_card_reveal : Bytes → Reveal → Checked Bool
  unfolding card_from_id climb_proof
  check_card_reveal root r = do
    canonical ← card_from_id r.card.id
    assert (same_card r.card canonical) invalid_metadata
    nonce ← from_hex r.nonce
    top ← climb_proof crypto (card_leaf r.position r.card.id nonce) r.proof
    ok (equal_hex top root)

  -- `verifyCardReveal`
  unfoldable pub verify_card_reveal : Bytes → Reveal → Bool
  unfolding check_card_reveal
  verify_card_reveal root r = elim (check_card_reveal root r) [
    | err e ↦ false
    | ok verdict ↦ verdict
  ]

-- `revealCard`
unfoldable pub reveal_card : Deck → ℕ → Checked Reveal
unfolding card_from_id merkle_proof
reveal_card deck position = do
  assert (ltb position 52) invalid_position
  card_id ← or_fail (get_elem? deck.order position) undefined_read
  card ← card_from_id card_id
  nonce ← or_fail (get_elem? deck.nonces position) undefined_read
  proof ← merkle_proof deck.layers position
  ok (record { position = position; card = card; nonce = nonce; proof = proof })
