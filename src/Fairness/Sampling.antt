-- ===== src/Fairness/Sampling.antt =====
-- The shuffle ends if the stream does not give too many high words in a row.
use x_poker.Base.{
  ℕ, zero, suc, ◌+◌, ◌-◌, ◌*◌, ◌/◌, ◌%◌, ◌≤◌, ◌<◌, ◌≡◌, refl, sym, subst, ◌∙◌, ◌≢◌, inl, inr, Bool,
  true, false, List, ◌++◌, arith, ltb, leb, leb→le, le→leb, ==_iff, Bool-cases, err, ok, length,
  all, take, drop, length-append, Bytes,
}
use x_poker.Fairness.Fields.{Crypto, stream_label, uint64}
use x_poker.Fairness.Deck.{
  uint32_space, create_deck, Stream, new_stream, number_from, swap, next_block, fill, take_bytes,
  draw, below, shuffle_from, shuffle_deck,
}
use x_poker.Fairness.Plan.{positions_from}
use x_poker.Fairness.Shuffle.{IsDeck, shuffle_deck-IsDeck}
use x_poker.Fairness.Paths.{Lawful, IsHash}

pub take_bytes-enough :
    (crypto : Crypto) (s : Stream)
    → leb 4 (length s.buffer) ≡ true
    → take_bytes crypto 4 s ≡ ok (take 4 s.buffer, record s { buffer = drop 4 s.buffer })
unfolding take_bytes fill
take_bytes-enough crypto s h =
    let full : ltb (length s.buffer) 4 ≡ false = ground (arith, h) in
    rw (take_bytes, fill, full) refl

pub take_bytes-refill :
    (crypto : Crypto) (s : Stream)
    → ltb (length s.buffer) 4 ≡ true
    → leb 4 (length (next_block crypto s).buffer) ≡ true
    → take_bytes crypto 4 s
      ≡ ok (
        take 4 (next_block crypto s).buffer,
        record s { counter = s.counter + 1; buffer = drop 4 (next_block crypto s).buffer },
      )
unfolding take_bytes fill
take_bytes-refill crypto s low high =
    let full : ltb (length (next_block crypto s).buffer) 4 ≡ false = ground (arith, high) in
    rw (take_bytes, fill, low, full) refl

-- A word that is low for every range of the shuffle.
abbrev pub low_bound : ℕ
low_bound = 4294967245

all-positions :
    (test : ℕ → Bool) (first more k : ℕ)
    → k < more
    → all test (positions_from first more) ≡ true
    → test (first + k) ≡ true
all-positions test first zero k low h = absurd (omega (arith, low))
all-positions test first (suc more) zero low h =
    let here : first ≡ first + 0 = omega arith in
    let passed : test first ≡ true = ground (arith, h) in subst (λ n. test n ≡ true) here passed
all-positions test first (suc more) (suc k) low h =
    let there : first + 1 + k ≡ first + suc k = omega arith in
    subst (λ n. test n ≡ true) there
      (all-positions test (first + 1) more k (omega (arith, low)) (ground (arith, h)))

from_one : (n : ℕ) → 1 ≤ n → 1 + (n - 1) ≡ n
from_one n h = omega (arith, h)

limit-above : (range : ℕ) → 1 ≤ range → range ≤ 52 → low_bound ≤ uint32_space / range * range
limit-above range h k =
    let test = λ (n : ℕ). leb low_bound (uint32_space / n * n) in
    leb→le low_bound (uint32_space / range * range) (
      subst (λ n. test n ≡ true) (from_one range h)
        (all-positions test 1 52 (range - 1) (omega (arith, h, k)) refl))

module _ (crypto : Crypto) where
  -- The word that a stream gives next, and the stream after it.
  unfoldable pub word_of : Stream → ℕ
  word_of s = elim (take_bytes crypto 4 s) [ ok r ↦ number_from 0 r.0 | err e ↦ 0 ]

  unfoldable pub rest_of : Stream → Stream
  rest_of s = elim (take_bytes crypto 4 s) [ ok r ↦ r.1 | err e ↦ s ]

  -- The stream of a seed after some words.
  abbrev pub stream_after : Bytes → ℕ → Stream
  stream_after seed zero = new_stream seed
  stream_after seed (suc n) = rest_of (stream_after seed n)

  -- Among each so many words in a row, one is low.
  abbrev pub HasLowWords : ℕ → Bytes → Type 0
  HasLowWords tries seed =
      (n : ℕ) → (k : ℕ) × (k < tries) × (word_of (stream_after seed (n + k)) < low_bound)

  module _ (lawful : Lawful crypto) where
    take_bytes-ok : (s : Stream) → (r : Bytes × Stream) × (take_bytes crypto 4 s ≡ ok r)
    take_bytes-ok s = elim (Bool-cases (ltb (length s.buffer) 4)) [
      | inl low ↦
          let grown : leb 4 (length (next_block crypto s).buffer) ≡ true =
            le→leb 4 (length (next_block crypto s).buffer) (
              omega (
                arith,
                length-append s.buffer (crypto.hmac s.key (stream_label ++ uint64 s.counter)),
                lawful.hmac_long s.key (stream_label ++ uint64 s.counter),
              )) in
          (_, take_bytes-refill crypto s low grown)
      | inr enough ↦ (_, take_bytes-enough crypto s (ground (arith, enough)))
    ]

    draw-hit :
        (tries limit range : ℕ) (s next : Stream) (word : Bytes)
        → take_bytes crypto 4 s ≡ ok (word, next)
        → ltb (number_from 0 word) limit ≡ true
        → draw crypto (suc tries) limit range s ≡ ok (number_from 0 word % range, next)
    unfolding draw
    draw-hit tries limit range s next word taken hit = rw (draw, taken, hit) refl

    draw-miss :
        (tries limit range : ℕ) (s next : Stream) (word : Bytes)
        → take_bytes crypto 4 s ≡ ok (word, next)
        → ltb (number_from 0 word) limit ≡ false
        → draw crypto (suc tries) limit range s ≡ draw crypto tries limit range next
    unfolding draw
    draw-miss tries limit range s next word taken miss = rw (draw, taken, miss) refl

    -- What the stream gives, in terms of the words after a seed.
    word-taken : (s : Stream) → take_bytes crypto 4 s ≡ ok ((take_bytes-ok s).0.0, rest_of s)
    unfolding rest_of
    word-taken s =
        let (r, taken) = take_bytes-ok s in
        let next : rest_of s ≡ r.1 = rw (rest_of, taken) refl in
        subst (λ (t : Stream). take_bytes crypto 4 s ≡ ok (r.0, t)) (sym next) taken

    word-read : (s : Stream) → word_of s ≡ number_from 0 (take_bytes-ok s).0.0
    unfolding word_of
    word-read s = rw (word_of, (take_bytes-ok s).1) refl

    -- A draw ends with a number below its range, and the stream some words on.
    draw-ok :
        (seed : Bytes) (tries limit range n k : ℕ)
        → k < tries
        → word_of (stream_after seed (n + k)) < limit
        → (m : ℕ) × (v : ℕ) × (draw crypto tries limit range (stream_after seed n)
            ≡ ok (v % range, stream_after seed m))
    draw-ok seed zero limit range n k within_tries low = absurd (omega (arith, within_tries))
    draw-ok seed (suc tries) limit range n k within_tries low =
        let s = stream_after seed n in
        let word = (take_bytes-ok s).0.0 in
        elim (Bool-cases (ltb (number_from 0 word) limit)) [
          | inl hit ↦ (
            suc n,
            number_from 0 word,
            draw-hit tries limit range s (rest_of s) word (word-taken s) hit,
          )
          | inr miss ↦
              let high : limit ≤ word_of s =
                subst (λ w. limit ≤ w) (sym (word-read s)) (ground (arith, miss)) in
              let later : k ≢ 0 = λ first.
                let here : n + k ≡ n = omega (arith, first) in
                let at_n : word_of s < limit =
                  subst (λ j. word_of (stream_after seed j) < limit) here low in
                absurd (omega (arith, high, at_n)) in
              let there : n + k ≡ suc n + (k - 1) = omega (arith, later) in
              let (m, v, drawn) =
                draw-ok seed tries limit range (suc n) (k - 1) (omega (arith, within_tries, later))
                  (subst (λ j. word_of (stream_after seed j) < limit) there low) in
              (m, v, draw-miss tries limit range s (rest_of s) word (word-taken s) miss ∙ drawn)
        ]

    below-ok :
        (seed : Bytes) (tries range n : ℕ)
        → HasLowWords tries seed
        → 1 ≤ range
        → range ≤ 52
        → (m : ℕ) × (v : ℕ) × (below crypto tries range (stream_after seed n)
            ≡ ok (v % range, stream_after seed m))
    unfolding below
    below-ok seed tries range n lows h k =
        let (j, soon, low) = lows n in
        let (m, v, drawn) =
          draw-ok seed tries (uint32_space / range * range) range n j soon
            (omega (arith, low, limit-above range h k)) in
        (m, v, rw (below, le→leb 1 range h, le→leb range 52 k) drawn)

    shuffle_from-ok :
        (seed : Bytes) (tries index : ℕ) (deck : List ℕ) (n : ℕ)
        → HasLowWords tries seed
        → index ≤ 51
        → (order : List ℕ) × (shuffle_from crypto tries index deck (stream_after seed n) ≡ ok order)
    unfolding shuffle_from
    shuffle_from-ok seed tries zero deck n lows h = (deck, refl)
    shuffle_from-ok seed tries (suc index) deck n lows h =
        let (m, v, drawn) =
          below-ok seed tries (suc index + 1) n lows (omega arith) (omega (arith, h)) in
        let (order, rest) =
          shuffle_from-ok seed tries index (swap (suc index) (v % (suc index + 1)) deck) m lows
            (omega (arith, h)) in
        (order, rw (drawn, rest) refl)

    -- The shuffle of a seed of 32 bytes ends, with the 52 cards in some order, if among each so many words of
    -- the stream in a row one is low.
    pub shuffle_deck-Returns :
        (seed : Bytes) (tries : ℕ)
        → IsHash seed
        → HasLowWords tries seed
        → (order : List ℕ) × (shuffle_deck crypto tries seed ≡ ok order) × IsDeck order
    unfolding shuffle_deck
    shuffle_deck-Returns seed tries long lows =
        let (order, shuffled) = shuffle_from-ok seed tries 51 create_deck 0 lows (omega arith) in
        let done : shuffle_deck crypto tries seed ≡ ok order =
          rw (shuffle_deck, (==_iff (length seed) 32).1 long) shuffled in
        (order, done, shuffle_deck-IsDeck crypto tries seed done)
