-- ===== src/Fairness/Reveals.antt =====
-- Every card of a committed deck is revealed with a proof that verifies.
use x_poker.Base.{
  ℕ, zero, suc, ◌+◌, ◌/◌, ◌%◌, ◌<◌, ◌≡◌, refl, sym, ap, subst, ◌∙◌, true, some, List, [], ◌∷◌,
  arith, lt→ltb, ==_refl, ok, ◌>>=◌, >>=-eq-ok, ok-injective, some-injective, length, get_elem?,
  All, Bytes, same_bytes_refl,
}
use x_poker.Fairness.Fields.{Crypto, equal_hex, domain_hash}
use x_poker.Fairness.Deck.{shuffle_deck}
use x_poker.Fairness.Tree.{merkle_proof, root_of, build_merkle_layers, climb_proof}
use x_poker.Fairness.Cards.{
  suits, suit_symbols, rank_codes, Card, card_from_id, same_card, Deck, Reveal, card_nonce,
  card_leaf, nonces_from, leaves_from, commit_deck, check_card_reveal, verify_card_reveal,
  reveal_card,
}
use x_poker.Fairness.Swaps.{get_elem?-All, get_elem?-some}
use x_poker.Fairness.Shuffle.{IsDeck, shuffle_deck-IsDeck}
use x_poker.Fairness.Paths.{Lawful, IsHash, from_hex-IsHash, Climbable, layers_from-Climbable}

pub same_card_refl : (a : Card) → same_card a a ≡ true
same_card_refl a =
    rw
      (
        ==_refl a.id,
        ==_refl a.rank,
        same_bytes_refl a.suit,
        ==_refl a.symbol,
        same_bytes_refl a.code,
      )
      refl

pub equal_hex_refl : (h : Bytes) → IsHash h → equal_hex h h ≡ true
equal_hex_refl h long = rw (lt→ltb 0 (length h) (omega (arith, long)), same_bytes_refl h) refl

pub card_from_id-ok : (c : ℕ) → c < 52 → (card : Card) × (card_from_id c ≡ ok card) × (card.id ≡ c)
unfolding card_from_id
card_from_id-ok c low =
    let (rank, r) = get_elem?-some rank_codes (c % 13) (omega arith) in
    let (suit, s) = get_elem?-some suits (c / 13) (omega (arith, low)) in
    let (symbol, y) = get_elem?-some suit_symbols (c / 13) (omega (arith, low)) in
    (
      record { id = c; rank = rank; suit = suit; symbol = symbol; code = rank ∷ symbol ∷ [] },
      rw (lt→ltb c 52 low, r, s, y) refl,
      refl,
    )

module _ (crypto : Crypto) where
  get_elem?-nonces :
      (seed : Bytes) (k : ℕ) (order : List ℕ) (i : ℕ) {c : ℕ}
      → get_elem? order i ≡ some c
      → get_elem? (nonces_from crypto seed k order) i ≡ some (card_nonce crypto seed (k + i) c)
  get_elem?-nonces seed k [] i h = cc
  get_elem?-nonces seed k (d ∷ order) zero {c} h =
      subst (λ j. some (card_nonce crypto seed k d) ≡ some (card_nonce crypto seed j c))
        (omega arith) (ap (λ x. some (card_nonce crypto seed k x)) (some-injective h))
  get_elem?-nonces seed k (d ∷ order) (suc i) {c} h =
      subst
        (λ j.
          get_elem? (nonces_from crypto seed (k + 1) order) i ≡ some (card_nonce crypto seed j c))
        (omega arith) (get_elem?-nonces seed (k + 1) order i h)

  -- The leaf of a card.
  abbrev pub leaf_of : Bytes → ℕ → ℕ → Bytes
  leaf_of seed position c = card_leaf crypto position c (card_nonce crypto seed position c)

  get_elem?-leaves :
      (seed : Bytes) (k : ℕ) (order : List ℕ) (i : ℕ) {c : ℕ}
      → get_elem? order i ≡ some c
      → get_elem? (leaves_from crypto seed k order) i ≡ some (leaf_of seed (k + i) c)
  get_elem?-leaves seed k [] i h = cc
  get_elem?-leaves seed k (d ∷ order) zero {c} h =
      subst (λ j. some (leaf_of seed k d) ≡ some (leaf_of seed j c)) (omega arith)
        (ap (λ x. some (leaf_of seed k x)) (some-injective h))
  get_elem?-leaves seed k (d ∷ order) (suc i) {c} h =
      subst (λ j. get_elem? (leaves_from crypto seed (k + 1) order) i ≡ some (leaf_of seed j c))
        (omega arith) (get_elem?-leaves seed (k + 1) order i h)

  length-leaves :
      (seed : Bytes) (k : ℕ) (order : List ℕ)
      → length (leaves_from crypto seed k order) ≡ length order
  length-leaves seed k [] = refl
  length-leaves seed k (d ∷ order) = ap suc (length-leaves seed (k + 1) order)

  verify_card_reveal-of_climb :
      (root : Bytes) (r : Reveal)
      → card_from_id r.card.id ≡ ok r.card
      → IsHash r.nonce
      → climb_proof crypto (card_leaf crypto r.position r.card.id r.nonce) r.proof ≡ ok root
      → IsHash root
      → verify_card_reveal crypto root r ≡ true
  unfolding verify_card_reveal check_card_reveal
  verify_card_reveal-of_climb root r card nonce climbs hashed =
      rw
        (
          verify_card_reveal,
          check_card_reveal,
          card,
          same_card_refl r.card,
          from_hex-IsHash r.nonce nonce,
          climbs,
          equal_hex_refl root hashed,
        )
        refl

  module _ (lawful : Lawful crypto) (tries : ℕ) where
    leaves-IsHash :
        (seed : Bytes) (k : ℕ) (order : List ℕ) → All IsHash (leaves_from crypto seed k order)
    unfolding domain_hash
    leaves-IsHash seed k [] = tt
    leaves-IsHash seed k (d ∷ order) = (lawful.sha256_long _, leaves-IsHash seed (k + 1) order)

    -- What a committed deck is.
    abbrev pub Commits : Bytes → Deck → Type 0
    Commits seed deck =
        IsDeck deck.order
        × (deck.nonces ≡ nonces_from crypto seed 0 deck.order)
        × ((above : List (List Bytes)) × (deck.layers
              ≡ leaves_from crypto seed 0 deck.order ∷ above)
            × Climbable crypto (leaves_from crypto seed 0 deck.order) above deck.root)

    -- A commitment needs the shuffle only.
    pub commit_deck-of_shuffle :
        (seed : Bytes) {order : List ℕ}
        → shuffle_deck crypto tries seed ≡ ok order
        → (deck : Deck) × (commit_deck crypto tries seed ≡ ok deck)
          × (deck.order ≡ order)
          × Commits seed deck
    unfolding commit_deck build_merkle_layers
    commit_deck-of_shuffle seed {order} shuffled =
        let leaves = leaves_from crypto seed 0 order in
        let whole = shuffle_deck-IsDeck crypto tries seed shuffled in
        let many : length leaves ≡ 52 = length-leaves seed 0 order ∙ whole.0 in
        let (above, root, built, climbable) =
          layers_from-Climbable crypto lawful (length leaves) leaves (omega (arith, many))
            (omega arith) (leaves-IsHash seed 0 order) in
        (
          record {
            order = order;
            nonces = nonces_from crypto seed 0 order;
            layers = leaves ∷ above;
            root = root;
          },
          rw (shuffled, lt→ltb 0 (length leaves) (omega (arith, many)), built, climbable.0) refl,
          refl,
          (whole, refl, (above, refl, climbable)),
        )

    pub commit_deck-Commits :
        (seed : Bytes) {deck : Deck} → commit_deck crypto tries seed ≡ ok deck → Commits seed deck
    unfolding commit_deck
    commit_deck-Commits seed {deck} h =
        let (order, shuffled, rest) =
          >>=-eq-ok (shuffle_deck crypto tries seed)
            (λ order. do
              layers ← build_merkle_layers crypto (leaves_from crypto seed 0 order)
              root ← root_of layers
              ok (record {
                order = order;
                nonces = nonces_from crypto seed 0 order;
                layers = layers;
                root = root;
              }))
            h in
        let (made, commits, _, is) = commit_deck-of_shuffle seed shuffled in
        subst (Commits seed) (ok-injective (sym commits ∙ h)) is

    -- The cards and proofs of a committed deck.
    pub Commits-Verifies :
        (seed : Bytes) (deck : Deck) (position : ℕ)
        → Commits seed deck
        → position < 52
        → (r : Reveal) × (reveal_card deck position ≡ ok r)
          × (r.position ≡ position)
          × (get_elem? deck.order position ≡ some r.card.id)
          × (verify_card_reveal crypto deck.root r ≡ true)
    unfolding reveal_card
    Commits-Verifies seed deck position (whole, nonces, (above, layers, (top, hashed, up))) low =
        let (c, at) = get_elem?-some deck.order position (omega (arith, low, whole.0)) in
        let (card, made, same) =
          card_from_id-ok c (get_elem?-All (λ c. c < 52) deck.order position whole.1 at) in
        let from_zero : 0 + position ≡ position = omega arith in
        let nonce = card_nonce crypto seed position c in
        let nonce_at : get_elem? deck.nonces position ≡ some nonce =
          subst (λ ns. get_elem? ns position ≡ some nonce) (sym nonces)
            (get_elem?-nonces seed 0 deck.order position at
              ∙ ap (λ j. some (card_nonce crypto seed j c)) from_zero) in
        let (proof, found, climbs) = up position (leaf_of seed position c) (
          get_elem?-leaves seed 0 deck.order position at
          ∙ ap (λ j. some (leaf_of seed j c)) from_zero) in
        let found' : merkle_proof deck.layers position ≡ ok proof =
          subst (λ ls. merkle_proof ls position ≡ ok proof) (sym layers) found in
        let again : card_from_id card.id ≡ ok card =
          subst (λ x. card_from_id x ≡ ok card) (sym same) made in
        let climbs' : climb_proof crypto (card_leaf crypto position card.id nonce) proof
            ≡ ok deck.root =
          subst (λ x. climb_proof crypto (card_leaf crypto position x nonce) proof ≡ ok deck.root)
            (sym same) climbs in
        (
          record { position = position; card = card; nonce = nonce; proof = proof },
          rw (lt→ltb position 52 low, at, made, nonce_at, found') refl,
          refl,
          at ∙ ap some (sym same),
          verify_card_reveal-of_climb deck.root
              (record { position = position; card = card; nonce = nonce; proof = proof }) again
              (lawful.hmac_long _ _) climbs' hashed,
        )

    -- Of a committed deck, each of the 52 positions is revealed with the card that it has in the order, and
    -- the reveal verifies against the root.
    pub reveal_card-Verifies :
        (seed : Bytes) (deck : Deck) (position : ℕ)
        → commit_deck crypto tries seed ≡ ok deck
        → position < 52
        → (r : Reveal) × (reveal_card deck position ≡ ok r)
          × (r.position ≡ position)
          × (get_elem? deck.order position ≡ some r.card.id)
          × (verify_card_reveal crypto deck.root r ≡ true)
    reveal_card-Verifies seed deck position h low =
        Commits-Verifies seed deck position (commit_deck-Commits seed h) low
