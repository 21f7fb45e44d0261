-- ===== src/Fairness/Shuffle.antt =====
-- A shuffled deck is a permutation of the deck, and the shuffle ends.
use x_poker.Base.{
  ℕ, zero, suc, ◌+◌, ◌≤◌, ◌<◌, ◌≡◌, refl, subst, ◌∙◌, false, List, [], ◌∷◌, arith, ◌==◌, ok,
  >>=-eq-ok, assert-eq-ok, ok-injective, length, All, includes, Distinct, Bytes,
}
use x_poker.Fairness.Fields.{Crypto, invalid_length}
use x_poker.Fairness.Deck.{create_deck, Stream, new_stream, swap, below, shuffle_from, shuffle_deck}
use x_poker.Fairness.Swaps.{
  count_card, within, create_deck-count, swap-count, length-swap, swap-All,
}

abbrev pub IsDeck : List ℕ → Type 0
IsDeck order =
    (length order ≡ 52) × All (λ c. c < 52) order × ((c : ℕ) → count_card c order ≡ within 0 52 c)

create_deck-IsDeck : IsDeck create_deck
unfolding create_deck
create_deck-IsDeck = (refl, ground arith, create_deck-count)

pub count_card-includes : (c : ℕ) (xs : List ℕ) → count_card c xs ≡ 0 → includes xs c ≡ false
count_card-includes c [] h = refl
count_card-includes c (x ∷ xs) h = ground (arith, count_card-includes c xs)

pub count_card-Distinct : (xs : List ℕ) → ((c : ℕ) → count_card c xs ≤ 1) → Distinct xs
count_card-Distinct [] h = tt
count_card-Distinct (x ∷ xs) h =
    let once = h x in
    (
      count_card-includes x xs (ground (arith, once)),
      count_card-Distinct xs (λ c. let most = h c in ground (arith, most)),
    )

-- What a deck holds, no card comes twice in.
pub IsDeck-Distinct : (order : List ℕ) → IsDeck order → Distinct order
IsDeck-Distinct order (long, low, once) =
    count_card-Distinct order (λ c. let e = once c in ground (arith, e))

module _ (crypto : Crypto) (tries : ℕ) where
  shuffle_from-IsDeck :
      (index : ℕ) (deck : List ℕ) (s : Stream) {order : List ℕ}
      → IsDeck deck
      → shuffle_from crypto tries index deck s ≡ ok order
      → IsDeck order
  unfolding shuffle_from
  shuffle_from-IsDeck zero deck s d h = subst IsDeck (ok-injective h) d
  shuffle_from-IsDeck (suc index) deck s (long, low, once) h =
      let ((j, next), drawn, rest) =
        >>=-eq-ok (below crypto tries (suc index + 1) s)
          (λ r. shuffle_from crypto tries index (swap (suc index) r.0 deck) r.1) h in
      shuffle_from-IsDeck index (swap (suc index) j deck) next
        (
          length-swap (suc index) j deck ∙ long,
          swap-All (λ c. c < 52) (suc index) j deck low,
          λ c. swap-count c (suc index) j deck ∙ once c,
        )
        rest

  -- A shuffle that returns gives a deck.
  pub shuffle_deck-IsDeck :
      (seed : Bytes) {order : List ℕ} → shuffle_deck crypto tries seed ≡ ok order → IsDeck order
  unfolding shuffle_deck
  shuffle_deck-IsDeck seed h =
      let (long, rest) =
        assert-eq-ok (length seed == 32) invalid_length
          (shuffle_from crypto tries 51 create_deck (new_stream seed)) h in
      shuffle_from-IsDeck 51 create_deck (new_stream seed) create_deck-IsDeck rest
