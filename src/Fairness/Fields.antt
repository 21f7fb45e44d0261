-- ===== src/Fairness/Fields.antt =====
-- Fields and hashes of fairness/protocol.js. A text is the bytes of its UTF-8 form, a hexadecimal text the
-- bytes that it stands for, so that `toHex` is the identity and `fromHex` the check of the length.
use x_poker.Base.{
  ℕ, ◌+◌, Bool, ◌&&◌, List, [], ◌∷◌, ◌++◌, ltb, ◌==◌, if◌then◌else◌, Result, ok, assert, ◌>>=◌,
  ◌>>◌, length, Bytes, le_bytes, same_bytes, bytes_be,
}

mutual
  pub data Json : Type 0 where
    null : Json
    boolean : Bool → Json
    number : ℕ → Json
    text : Bytes → Json
    array : Items → Json
    object : Fields → Json

  pub data Items : Type 0 where
    no_items : Items
    item : Json → Items → Items

  pub data Fields : Type 0 where
    no_fields : Fields
    field : Bytes → Json → Fields → Fields

-- What the code calls of node:crypto and of the language: `sha256` of the bytes of all updates, `hmac` of a key
-- and a message, `hkdf` of input material, salt and info to 32 bytes, `precedes` for
-- `left.localeCompare(right) <= 0`, and `stringify` for `JSON.stringify`.
pub record Crypto : Type 0 where
  pub sha256 : Bytes → Bytes
  pub hmac : Bytes → Bytes → Bytes
  pub hkdf : Bytes → Bytes → Bytes → Bytes
  pub precedes : Bytes → Bytes → Bool
  pub stringify : Json → Bytes

-- The messages of FairDealError; `undefined_read` is the TypeError of a read past an array's end, and the
-- last two are loops that ran out of rounds.
pub data FairError : Type 0 where
  invalid_length invalid_card empty_tree invalid_position invalid_metadata : FairError
  invalid_seats invalid_button invalid_boards deck_exhausted invalid_range : FairError
  invalid_byte_length invalid_player_count missing_player_id duplicate_player : FairError
  missing_beacon_source invalid_beacon_round short_hand_id too_few_seeds : FairError
  unsupported_version server_commitment_mismatch duplicate_commitments : FairError
  player_count_mismatch unexpected_player player_commitment_mismatch rules_mismatch : FairError
  deck_root_mismatch duplicate_card undefined_read out_of_tries out_of_rounds : FairError

abbrev pub Checked {ℓ} : Type ℓ → Type ℓ
Checked A = Result FairError A

-- `PROTOCOL_VERSION`, and the domains that begin with it
abbrev pub protocol_version : Bytes
protocol_version =
    120 ∷ 112 ∷ 111 ∷ 107 ∷ 101 ∷ 114 ∷ 45 ∷ 102 ∷ 97 ∷ 105 ∷ 114 ∷ 45 ∷ 100 ∷ 101 ∷ 97 ∷ 108 ∷ 47
    ∷ 118 ∷ 49 ∷ []

abbrev pub rules_domain : Bytes
rules_domain = protocol_version ++ (47 ∷ 114 ∷ 117 ∷ 108 ∷ 101 ∷ 115 ∷ [])

abbrev pub server_seed_domain : Bytes
server_seed_domain =
    protocol_version ++ (47 ∷ 115 ∷ 101 ∷ 114 ∷ 118 ∷ 101 ∷ 114 ∷ 45 ∷ 115 ∷ 101 ∷ 101 ∷ 100 ∷ [])

abbrev pub player_seed_domain : Bytes
player_seed_domain =
    protocol_version ++ (47 ∷ 112 ∷ 108 ∷ 97 ∷ 121 ∷ 101 ∷ 114 ∷ 45 ∷ 115 ∷ 101 ∷ 101 ∷ 100 ∷ [])

abbrev pub input_domain : Bytes
input_domain =
    protocol_version
    ++ (47 ∷ 105 ∷ 110 ∷ 112 ∷ 117 ∷ 116 ∷ 45 ∷ 109 ∷ 97 ∷ 116 ∷ 101 ∷ 114 ∷ 105 ∷ 97 ∷ 108 ∷ [])

abbrev pub salt_domain : Bytes
salt_domain = protocol_version ++ (47 ∷ 104 ∷ 107 ∷ 100 ∷ 102 ∷ 45 ∷ 115 ∷ 97 ∷ 108 ∷ 116 ∷ [])

abbrev pub seed_info : Bytes
seed_info = protocol_version ++ (47 ∷ 100 ∷ 101 ∷ 99 ∷ 107 ∷ 45 ∷ 115 ∷ 101 ∷ 101 ∷ 100 ∷ [])

abbrev pub stream_label : Bytes
stream_label = protocol_version ++ (47 ∷ 115 ∷ 116 ∷ 114 ∷ 101 ∷ 97 ∷ 109 ∷ [])

abbrev pub nonce_label : Bytes
nonce_label = protocol_version ++ (47 ∷ 99 ∷ 97 ∷ 114 ∷ 100 ∷ 45 ∷ 110 ∷ 111 ∷ 110 ∷ 99 ∷ 101 ∷ [])

abbrev pub card_leaf_domain : Bytes
card_leaf_domain = protocol_version ++ (47 ∷ 99 ∷ 97 ∷ 114 ∷ 100 ∷ 45 ∷ 108 ∷ 101 ∷ 97 ∷ 102 ∷ [])

abbrev pub merkle_node_domain : Bytes
merkle_node_domain =
    protocol_version ++ (47 ∷ 109 ∷ 101 ∷ 114 ∷ 107 ∷ 108 ∷ 101 ∷ 45 ∷ 110 ∷ 111 ∷ 100 ∷ 101 ∷ [])

-- The length that JavaScript gives a text: a character of four bytes counts twice.
abbrev pub text_length : Bytes → ℕ
text_length [] = 0
text_length (b ∷ bs) =
    (if ltb b 128 then 1 else if ltb b 192 then 0 else if ltb b 240 then 1 else 2) + text_length bs

-- `uint32` and `uint64`
abbrev pub uint32 : ℕ → Bytes
uint32 value = bytes_be 4 value

abbrev pub uint64 : ℕ → Bytes
uint64 value = bytes_be 8 value

-- `fromHex`
abbrev pub from_hex : Bytes → Checked Bytes
from_hex value = do assert (length value == 32) invalid_length; ok value

-- `equalHex`: the empty text is not hexadecimal.
abbrev pub equal_hex : Bytes → Bytes → Bool
equal_hex left right = ltb 0 (length left) && (ltb 0 (length right) && same_bytes left right)

-- A field with its length before it.
abbrev pub framed : Bytes → Bytes
framed bytes = uint32 (length bytes) ++ bytes

abbrev pub framed_all : List Bytes → Bytes
framed_all [] = []
framed_all (b ∷ bs) = framed b ++ framed_all bs

-- `sortObject`, with `Object.keys(value).sort()` over the bytes of the keys; the order is JavaScript's for
-- keys of its basic plane that are no array indexes.
abbrev pub insert_field : Bytes → Json → Fields → Fields
insert_field k v no_fields = field k v no_fields
insert_field k v (field l w fs) =
    if le_bytes k l then field k v (field l w fs) else field l w (insert_field k v fs)

unfoldable mutual
  pub sort_object : Json → Json
  sort_object null = null
  sort_object (boolean b) = boolean b
  sort_object (number n) = number n
  sort_object (text t) = text t
  sort_object (array xs) = array (sort_items xs)
  sort_object (object fs) = object (sort_fields fs)

  pub sort_items : Items → Items
  sort_items no_items = no_items
  sort_items (item x xs) = item (sort_object x) (sort_items xs)

  pub sort_fields : Fields → Fields
  sort_fields no_fields = no_fields
  sort_fields (field k v fs) = insert_field k (sort_object v) (sort_fields fs)

module _ (crypto : Crypto) where
  -- `domainHash`
  unfoldable pub domain_hash : Bytes → List Bytes → Bytes
  domain_hash domain fields = crypto.sha256 (framed domain ++ framed_all fields)

  abbrev pub canonical_json : Json → Bytes
  canonical_json value = crypto.stringify (sort_object value)

  abbrev pub rules_hash : Json → Bytes
  rules_hash rules = domain_hash rules_domain (canonical_json rules ∷ [])

  abbrev pub commit_server_seed : Bytes → Bytes → Checked Bytes
  commit_server_seed hand_id seed = do
    bytes ← from_hex seed
    ok (domain_hash server_seed_domain (hand_id ∷ bytes ∷ []))

  abbrev pub commit_player_seed : Bytes → Bytes → Bytes → Checked Bytes
  commit_player_seed hand_id player_id seed = do
    bytes ← from_hex seed
    ok (domain_hash player_seed_domain (hand_id ∷ player_id ∷ bytes ∷ []))

  abbrev pub verify_server_reveal : Bytes → Bytes → Bytes → Checked Bool
  verify_server_reveal hand_id commitment seed = do
    expected ← commit_server_seed hand_id seed
    ok (equal_hex commitment expected)

  abbrev pub verify_player_reveal : Bytes → Bytes → Bytes → Bytes → Checked Bool
  verify_player_reveal hand_id player_id commitment seed = do
    expected ← commit_player_seed hand_id player_id seed
    ok (equal_hex commitment expected)
