-- ===== src/Fairness/Tests.antt =====
-- Witnesses and tests of the fair-deal protocol, with a small hash in place of SHA-256.
use x_poker.Base.{
  ℕ, zero, suc, ◌+◌, ◌≡◌, refl, subst, inl, inr, true, false, some, List, [], ◌∷◌, arith, ltb, leb,
  le→leb, Bool-cases, err, ok, length, get_elem?, All, length-append, All-append, take-All,
  drop-All, Bytes,
}
use x_poker.Fairness.Fields.{null, sort_object, domain_hash}
use x_poker.Fairness.Deck.{Stream, number_from, next_block, shuffle_deck}
use x_poker.Fairness.Cards.{Card, Deck, Reveal, commit_deck, verify_card_reveal, reveal_card}
use x_poker.Fairness.Plan.{plo4, DealPlan, deal_plan}
use x_poker.Fairness.Hand.{Beacon, CommittedHand, create_committed_hand}
use x_poker.Fairness.Audit.{create_audit_bundle, cards_from, audit_of, verify_audit_bundle}
use x_poker.Fairness.Swaps.{count_card, within}
use x_poker.Fairness.Shuffle.{IsDeck}
use x_poker.Fairness.Reveals.{reveal_card-Verifies}
use x_poker.Fairness.Sampling.{
  take_bytes-enough, take_bytes-refill, word_of, rest_of, stream_after, HasLowWords,
  shuffle_deck-Returns,
}
use x_poker.Fairness.Positions.{plan_positions}
use x_poker.Fairness.Dealt.{deal_plan-Deals}
use x_poker.Fairness.Accepted.{verify_audit_bundle-Accepts}
use x_poker.Fairness.Samples.{
  blank, small_crypto, small_crypto-Lawful, test_seed, test_hand_id, test_beacon, test_players,
  test_rules,
}

abbrev test_deck : Deck
unfolding commit_deck shuffle_deck domain_hash
test_deck = elim (commit_deck small_crypto 1 test_seed) [
  | ok deck ↦ deck
  | err e ↦ record { order = []; nonces = []; layers = []; root = [] }
]

test_deck-committed : commit_deck small_crypto 1 test_seed ≡ ok test_deck
unfolding commit_deck shuffle_deck domain_hash
test_deck-committed = refl

-- Every word of the small stream is zero.
AllZero : Bytes → Type 0
AllZero = All (λ b. b ≡ 0)

number_from-AllZero : (bytes : Bytes) → AllZero bytes → number_from 0 bytes ≡ 0
unfolding AllZero
number_from-AllZero [] z = refl
number_from-AllZero (b ∷ bs) (first, z) =
    subst (λ n. number_from n bs ≡ 0) (omega (arith, first)) (number_from-AllZero bs z)

next_block-AllZero : (s : Stream) → AllZero s.buffer → AllZero (next_block small_crypto s).buffer
unfolding AllZero
next_block-AllZero s z = All-append (λ b. b ≡ 0) s.buffer (blank 32) z (ground arith)

rest_of-AllZero :
    (s : Stream)
    → AllZero s.buffer
    → (word_of small_crypto s ≡ 0) × AllZero (rest_of small_crypto s).buffer
unfolding AllZero word_of rest_of
rest_of-AllZero s z = elim (Bool-cases (ltb (length s.buffer) 4)) [
  | inl low ↦
      let grown : leb 4 (length (next_block small_crypto s).buffer) ≡ true =
        le→leb 4 (length (next_block small_crypto s).buffer)
          (omega (arith, length-append s.buffer (blank 32))) in
      let zeros = next_block-AllZero s z in
      rw (word_of, rest_of, take_bytes-refill small_crypto s low grown)
        (
          number_from-AllZero _
              (take-All (λ (b : ℕ). b) _ 4 (next_block small_crypto s).buffer zeros),
          drop-All (λ (b : ℕ). b) _ 4 (next_block small_crypto s).buffer zeros,
        )
  | inr enough ↦
      rw (word_of, rest_of, take_bytes-enough small_crypto s (ground (arith, enough)))
        (
          number_from-AllZero _ (take-All (λ (b : ℕ). b) _ 4 s.buffer z),
          drop-All (λ (b : ℕ). b) _ 4 s.buffer z,
        )
]

stream_after-AllZero : (seed : Bytes) (n : ℕ) → AllZero (stream_after small_crypto seed n).buffer
unfolding AllZero
stream_after-AllZero seed zero = tt
stream_after-AllZero seed (suc n) =
    (rest_of-AllZero (stream_after small_crypto seed n) (stream_after-AllZero seed n)).1

small_words : HasLowWords small_crypto 1 test_seed
small_words n =
    let (word, _) =
      rest_of-AllZero (stream_after small_crypto test_seed (n + 0))
        (stream_after-AllZero test_seed (n + 0)) in
    (0, omega arith, omega (arith, word))

shuffle_deck-Returns_example :
    (order : List ℕ) × (shuffle_deck small_crypto 1 test_seed ≡ ok order) × IsDeck order
shuffle_deck-Returns_example =
    shuffle_deck-Returns small_crypto small_crypto-Lawful test_seed 1 refl small_words

reveal_card-Verifies_example :
    (r : Reveal) × (reveal_card test_deck 51 ≡ ok r)
    × (r.position ≡ 51)
    × (get_elem? test_deck.order 51 ≡ some r.card.id)
    × (verify_card_reveal small_crypto test_deck.root r ≡ true)
reveal_card-Verifies_example =
    reveal_card-Verifies small_crypto small_crypto-Lawful 1 test_seed test_deck 51
      test_deck-committed (omega arith)

deal_plan-Deals_example :
    (plan : DealPlan) × (deal_plan plo4 9 3 2 ≡ ok plan)
    × ((k : ℕ) → count_card k (plan_positions plan) ≡ within 0 plan.next_position k)
    × (plan.next_position ≡ 52)
deal_plan-Deals_example =
    deal_plan-Deals plo4 9 3 2 (omega arith) (omega arith) (omega arith) (omega arith) (omega arith)

abbrev no_beacon : Beacon
no_beacon = record {
  source = [];
  round = 0;
  randomness = [];
  chain_hash = [];
  signature_verified = false;
}

abbrev no_hand : CommittedHand
no_hand = record {
  public_record = record {
    version = [];
    hand_id = [];
    rules = null;
    rules_digest = [];
    server_commitment = [];
    player_commitments = [];
    beacon = no_beacon;
    deck_root = [];
  };
  secret_state = record {
    server_seed = [];
    player_seeds = [];
    hand_seed = [];
    deck = record { order = []; nonces = []; layers = []; root = [] };
  };
}

abbrev test_hand : CommittedHand
unfolding create_committed_hand domain_hash sort_object shuffle_deck
test_hand =
    elim (create_committed_hand small_crypto 1 test_hand_id test_rules test_beacon test_players
      test_seed) [ ok hand ↦ hand | err e ↦ no_hand ]

test_hand-created :
    create_committed_hand small_crypto 1 test_hand_id test_rules test_beacon test_players test_seed
    ≡ ok test_hand
unfolding create_committed_hand domain_hash sort_object shuffle_deck
test_hand-created = refl

verify_audit_bundle-Accepts_example :
    (cards : List Card) × (cards_from test_hand.secret_state.deck.order ≡ ok cards)
    × (verify_audit_bundle small_crypto 1 (create_audit_bundle test_hand) true
        ≡ ok (audit_of true [] (some cards)))
verify_audit_bundle-Accepts_example =
    verify_audit_bundle-Accepts small_crypto small_crypto-Lawful 1 test_hand_id test_rules
      test_beacon test_players test_seed test_hand true test_hand-created
