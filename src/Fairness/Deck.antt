-- ===== src/Fairness/Deck.antt =====
-- The deck and its shuffle, from fairness/protocol.js. The stream draws until a sample is low enough; the loop
-- is recursion on the number of tries.
use x_poker.Base.{
  ℕ, zero, suc, ◌+◌, ◌*◌, ◌/◌, ◌%◌, ◌&&◌, none, some, List, [], ◌∷◌, ◌++◌, ltb, leb, ◌==◌,
  if◌then◌else◌, err, ok, assert, ◌>>=◌, ◌>>◌, length, take, drop, get_elem?, Bytes,
}
use x_poker.Fairness.Fields.{
  Crypto, invalid_length, invalid_range, invalid_byte_length, out_of_tries, out_of_rounds, Checked,
  stream_label, uint64,
}

abbrev pub uint32_space : ℕ
uint32_space = 4294967296

abbrev pub ranks_from : ℕ → ℕ → ℕ → List ℕ
ranks_from suit rank zero = []
ranks_from suit rank (suc left) = (suit * 13 + rank) ∷ ranks_from suit (rank + 1) left

abbrev pub suits_from : ℕ → ℕ → List ℕ
suits_from suit zero = []
suits_from suit (suc left) = ranks_from suit 0 13 ++ suits_from (suit + 1) left

-- `createDeck`
unfoldable pub create_deck : List ℕ
create_deck = suits_from 0 4

-- `HmacStream`
pub record Stream : Type 0 where
  pub key : Bytes
  pub counter : ℕ
  pub buffer : Bytes

abbrev pub new_stream : Bytes → Stream
new_stream seed = record { key = seed; counter = 0; buffer = [] }

-- `readUInt32BE(0)` of four bytes
abbrev pub number_from : ℕ → Bytes → ℕ
number_from high [] = high
number_from high (b ∷ bs) = number_from (high * 256 + b) bs

abbrev pub set_at {ℓ} : {A : Type ℓ} → ℕ → A → List A → List A
set_at i y [] = []
set_at zero y (x ∷ xs) = y ∷ xs
set_at (suc i) y (x ∷ xs) = x ∷ set_at i y xs

-- `[deck[i], deck[j]] = [deck[j], deck[i]]`, for two indexes of the deck
unfoldable pub swap : ℕ → ℕ → List ℕ → List ℕ
swap i j deck = elim (get_elem? deck i) [
  | none ↦ deck
  | some x ↦ elim (get_elem? deck j) [ none ↦ deck | some y ↦ set_at j x (set_at i y deck) ]
]

module _ (crypto : Crypto) where
  -- One round of the loop of `bytes`.
  abbrev pub next_block : Stream → Stream
  next_block s = record s {
    counter = s.counter + 1;
    buffer = s.buffer ++ crypto.hmac s.key (stream_label ++ uint64 s.counter);
  }

  -- The `while` loop of `bytes`.
  unfoldable pub fill : ℕ → ℕ → Stream → Checked Stream
  fill zero n s = do assert (leb n (length s.buffer)) out_of_rounds; ok s
  fill (suc rounds) n s =
      let rest = fill rounds n (next_block s) in if ltb (length s.buffer) n then rest else ok s

  -- `bytes`, with a round for each byte
  unfoldable pub take_bytes : ℕ → Stream → Checked (Bytes × Stream)
  unfolding fill
  take_bytes n s = do
    assert (ltb 0 n) invalid_byte_length
    full ← fill n n s
    ok (take n full.buffer, record full { buffer = drop n full.buffer })

  -- The `do` loop of `below`.
  unfoldable pub draw : ℕ → ℕ → ℕ → Stream → Checked (ℕ × Stream)
  unfolding take_bytes
  draw zero limit range s = err out_of_tries
  draw (suc tries) limit range s = do
    (word, next) ← take_bytes 4 s
    let rest = draw tries limit range next
    if ltb (number_from 0 word) limit then ok (number_from 0 word % range, next) else rest

  -- `below`
  unfoldable pub below : ℕ → ℕ → Stream → Checked (ℕ × Stream)
  unfolding draw
  below tries range s = do
    assert (leb 1 range && leb range 52) invalid_range
    draw tries (uint32_space / range * range) range s

  -- The loop of `shuffleDeck`, from its index down.
  unfoldable pub shuffle_from : ℕ → ℕ → List ℕ → Stream → Checked (List ℕ)
  unfolding below swap
  shuffle_from tries zero deck s = ok deck
  shuffle_from tries (suc index) deck s = do
    (swap_index, next) ← below tries (suc index + 1) s
    shuffle_from tries index (swap (suc index) swap_index deck) next

  -- `shuffleDeck`
  unfoldable pub shuffle_deck : ℕ → Bytes → Checked (List ℕ)
  unfolding shuffle_from create_deck
  shuffle_deck tries seed = do
    assert (length seed == 32) invalid_length
    shuffle_from tries 51 create_deck (new_stream seed)
