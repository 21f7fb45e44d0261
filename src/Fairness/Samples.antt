-- ===== src/Fairness/Samples.antt =====
-- Data for tests: a small hash in place of SHA-256, a hand with two players.
use x_poker.Base.{
  ℕ, zero, suc, ◌%◌, refl, true, none, some, List, [], ◌∷◌, ◌++◌, length, sum_by, Bytes, le_bytes,
}
use x_poker.Fairness.Fields.{Json, boolean, number, object, no_fields, field, Crypto}
use x_poker.Fairness.Hand.{Beacon, PlayerInput}
use x_poker.Fairness.Paths.{Lawful}

abbrev pub blank : ℕ → Bytes
blank zero = []
blank (suc n) = 0 ∷ blank n

abbrev pub small_hash : Bytes → Bytes
small_hash message = sum_by (λ b. b) message % 251 ∷ length message % 251 ∷ blank 30

abbrev pub small_text : Json → Bytes
small_text (number n) = n ∷ []
small_text _ = []

abbrev pub small_crypto : Crypto
small_crypto = record {
  sha256 = small_hash;
  hmac = λ key message. blank 32;
  hkdf = λ input salt info. small_hash (input ++ salt);
  precedes = le_bytes;
  stringify = small_text;
}

pub small_crypto-Lawful : Lawful small_crypto
small_crypto-Lawful = record {
  sha256_long = λ message. refl;
  hmac_long = λ key message. refl;
  hkdf_long = λ input salt info. refl;
}

abbrev pub test_seed : Bytes
test_seed = 7 ∷ 9 ∷ blank 30

abbrev pub test_hand_id : Bytes
test_hand_id = 104 ∷ 97 ∷ 110 ∷ 100 ∷ 45 ∷ 48 ∷ 48 ∷ 49 ∷ []

abbrev pub test_beacon : Beacon
test_beacon = record {
  source = 100 ∷ [];
  round = 12;
  randomness = 5 ∷ blank 31;
  chain_hash = [];
  signature_verified = true;
}

abbrev pub test_players : List PlayerInput
test_players =
    record { player_id = 98 ∷ []; seed = some (1 ∷ blank 31); secret = [] }
    ∷ record { player_id = 97 ∷ []; seed = none; secret = 2 ∷ blank 31 }
    ∷ []

abbrev pub test_rules : Json
test_rules = object (field (98 ∷ []) (number 1) (field (97 ∷ []) (boolean true) no_fields))
