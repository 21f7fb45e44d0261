-- ===== src/Hands/Committed.antt =====
-- Who has committed a seed.
use x_poker.Base.{
  ℕ, ◌+◌, ◌≡◌, refl, sym, ap₂, subst, ◌∙◌, inl, inr, Bool, true, false, not, ◌&&◌, Option, none,
  some, List, [], ◌∷◌, arith, if◌then◌else◌, Bool-cases, Option-cases, length, All, count_by, Bytes,
  same_bytes, same_bytes→eq, has_bytes, unique_bytes,
}
use x_poker.Hands.Stores.{TextMap, get_text, set_text}
use x_poker.Fairness.Uniques.{same_bytes_comm}
use x_poker.Hands.Maps.{get_text-set_text, get_text-set_text_other}

abbrev is_none {ℓ} : {A : Type ℓ} → Option A → Bool
is_none none = true
is_none (some a) = false

abbrev pub lacks : TextMap Bytes → Bytes → Bool
lacks m player = is_none (get_text player m)

-- How many of the players have not committed a seed.
abbrev pub uncommitted : TextMap Bytes → List Bytes → ℕ
uncommitted m players = count_by (lacks m) players

lacks-set_text :
    (m : TextMap Bytes) (player commitment other : Bytes)
    → lacks (set_text player commitment m) other ≡ (not (same_bytes player other) && lacks m other)
lacks-set_text m player commitment other = elim (Bool-cases (same_bytes player other)) [
  | inl same ↦
      let here : player ≡ other = same_bytes→eq player other same in
      let found : get_text other (set_text player commitment m) ≡ some commitment =
        subst (λ k. get_text k (set_text player commitment m) ≡ some commitment) here
          (get_text-set_text player commitment m) in
      rw (same, found) refl
  | inr apart ↦ rw (apart, get_text-set_text_other player other commitment m apart) refl
]

uncommitted-apart :
    (m : TextMap Bytes) (player commitment : Bytes) (players : List Bytes)
    → has_bytes players player ≡ false
    → uncommitted (set_text player commitment m) players ≡ uncommitted m players
uncommitted-apart m player commitment [] h = refl
uncommitted-apart m player commitment (p ∷ ps) h =
    let rest = uncommitted-apart m player commitment ps (ground (arith, h)) in
    let turn = same_bytes_comm player p in
    let apart : same_bytes player p ≡ false = ground (arith, h, turn) in
    let same : lacks (set_text player commitment m) p ≡ lacks m p =
      lacks-set_text m player commitment p ∙ rw apart refl in
    ap₂ (λ b n. (if b then 1 else 0) + n) same rest

-- A player who commits is one fewer that has not.
pub uncommitted-set_text :
    (m : TextMap Bytes) (player commitment : Bytes) (players : List Bytes)
    → unique_bytes players ≡ true
    → has_bytes players player ≡ true
    → get_text player m ≡ none
    → uncommitted (set_text player commitment m) players + 1 ≡ uncommitted m players
uncommitted-set_text m player commitment [] u h n = cc
uncommitted-set_text m player commitment (p ∷ ps) u h n =
    let turn = same_bytes_comm player p in
    let changed = lacks-set_text m player commitment p in
    elim (Bool-cases (same_bytes p player)) [
      | inl here ↦
          let is : p ≡ player = same_bytes→eq p player here in
          let absent : lacks m p ≡ true = subst (λ k. lacks m k ≡ true) (sym is) (rw n refl) in
          let now : lacks (set_text player commitment m) p ≡ false =
            changed ∙ rw (turn, here) refl in
          let alone : has_bytes ps player ≡ false =
            subst (λ k. has_bytes ps k ≡ false) is (ground (arith, u)) in
          rw (now, absent) (omega (arith, uncommitted-apart m player commitment ps alone))
      | inr there ↦
          let same : lacks (set_text player commitment m) p ≡ lacks m p =
            changed ∙ rw (turn, there) refl in
          let rest =
            uncommitted-set_text m player commitment ps (ground (arith, u))
              (ground (arith, h, there)) n in
          rw same (omega (arith, rest))
    ]

pub uncommitted-none : (players : List Bytes) → uncommitted [] players ≡ length players
uncommitted-none [] = refl
uncommitted-none (p ∷ ps) = omega (arith, uncommitted-none ps)

-- All have committed if nobody has not.
pub uncommitted-zero :
    (m : TextMap Bytes) (players : List Bytes)
    → uncommitted m players ≡ 0
    → All (λ p. (commitment : Bytes) × (get_text p m ≡ some commitment)) players
uncommitted-zero m [] h = tt
uncommitted-zero m (p ∷ ps) h = elim (Option-cases (get_text p m)) [
  | inl absent ↦ ground (arith, absent, h)
  | inr (commitment, found) ↦
      ((commitment, found), uncommitted-zero m ps (ground (arith, found, h)))
]

pub length-set_text :
    (m : TextMap Bytes) (player commitment : Bytes)
    → get_text player m ≡ none
    → length (set_text player commitment m) ≡ length m + 1
length-set_text [] player commitment n = refl
length-set_text (e ∷ m) player commitment n = elim (Bool-cases (same_bytes e.0 player)) [
  | inl here ↦ ground (arith, here, n)
  | inr there ↦
      let rest = length-set_text m player commitment (ground (arith, there, n)) in
      rw there (omega (arith, rest))
]
