-- ===== src/Betting/Blinds.antt =====
-- The blinds and the straddle of server/poker/betting.js fall on different seats.
use x_poker.Base.{
  ℕ, ◌≤◌, ◌≡◌, sym, ap, subst, ◌∙◌, ◌≢◌, ◌⊎◌, Bool, true, ◌&&◌, some, List, [], ◌∷◌, map, arith,
  ◌==◌, length, any, All, Distinct, All-map, All-zip,
}
use x_poker.Betting.State.{Player}
use x_poker.Betting.Clockwise.{next_seat}
use x_poker.Betting.Turns.{next_seat-some}
use x_poker.Betting.Nearest.{clockwise_distance, next_seat-least}

abbrev pub seats : List Player → List ℕ
seats = map (λ (p : Player). p.seat)

pub All-seats {κ} : (P : ℕ → Type κ) (ps : List Player) → All (λ p. P p.seat) ps → All P (seats ps)
All-seats P [] a = tt
All-seats P (p ∷ ps) a = (a.0, All-seats P ps a.1)

pub seats-All {κ} : (P : ℕ → Type κ) (ps : List Player) → All P (seats ps) → All (λ p. P p.seat) ps
seats-All P [] a = tt
seats-All P (p ∷ ps) a = (a.0, seats-All P ps a.1)

-- Two different seats cannot both be the one.
not_all_one : (k : ℕ) (ks : List ℕ) → Distinct ks → 2 ≤ length ks → All (λ x. x ≡ k) ks → ⊥
not_all_one k [] d len a = absurd (omega arith)
not_all_one k (x ∷ []) d len a = absurd (omega arith)
not_all_one k (x ∷ y ∷ ks) d len a = ground arith

-- Nor can three be one of two.
not_all_two :
    (k l : ℕ) (ks : List ℕ) → Distinct ks → 3 ≤ length ks → All (λ x. (x ≡ k) ⊎ (x ≡ l)) ks → ⊥
not_all_two k l [] d len a = absurd (omega arith)
not_all_two k l (x ∷ []) d len a = absurd (omega arith)
not_all_two k l (x ∷ y ∷ []) d len a = absurd (omega arith)
not_all_two k l (x ∷ y ∷ z ∷ ks) d len a = ground arith

-- The seats that a search from `after_seat` passes over are farther.
nearer_seats :
    (after_seat : ℕ) (ps : List Player) (test : Player → Bool) {seat : ℕ}
    → after_seat ≤ 8
    → All (λ p. p.seat ≤ 8) ps
    → All (λ p. test p ≡ true) ps
    → next_seat ps after_seat test ≡ some seat
    → All (λ k. clockwise_distance after_seat seat ≤ clockwise_distance after_seat k) (seats ps)
nearer_seats after_seat ps test {seat} here table everyone h =
    All-seats (λ k. clockwise_distance after_seat seat ≤ clockwise_distance after_seat k) ps
      (All-map ps (λ p both. both.1 both.0)
        (All-zip (λ p. test p ≡ true) _ ps everyone
          (next_seat-least after_seat here ps test table h)))

self_is_last :
    (after_seat k : ℕ)
    → after_seat ≤ 8
    → k ≤ 8
    → clockwise_distance after_seat after_seat ≤ clockwise_distance after_seat k
    → k ≡ after_seat
unfolding clockwise_distance
self_is_last after_seat k here there le = ground arith

-- With two players a search moves on.
pub next_seat_moves :
    (after_seat : ℕ) (ps : List Player) (test : Player → Bool) {seat : ℕ}
    → after_seat ≤ 8
    → All (λ p. p.seat ≤ 8) ps
    → All (λ p. test p ≡ true) ps
    → Distinct (seats ps)
    → 2 ≤ length (seats ps)
    → next_seat ps after_seat test ≡ some seat
    → seat ≢ after_seat
next_seat_moves after_seat ps test {seat} here table everyone d len h e =
    let far = nearer_seats after_seat ps test here table everyone (h ∙ ap some e) in
    not_all_one after_seat (seats ps) d len (
      All-map (seats ps) (λ k both. self_is_last after_seat k here both.0 both.1)
        (All-zip (λ k. k ≤ 8) _ (seats ps) (All-seats (λ k. k ≤ 8) ps table) far))

between :
    (a b k : ℕ)
    → a ≤ 8
    → b ≤ 8
    → k ≤ 8
    → a ≢ b
    → clockwise_distance a b ≤ clockwise_distance a k
    → clockwise_distance b a ≤ clockwise_distance b k
    → (k ≡ a) ⊎ (k ≡ b)
unfolding clockwise_distance
between a b k ha hb hk ne ab ba = ground arith

-- With three players two searches in a row do not come back.
pub next_seat_third :
    (a b : ℕ) (ps qs : List Player) (test test' : Player → Bool) {c : ℕ}
    → a ≤ 8
    → b ≤ 8
    → a ≢ b
    → All (λ p. p.seat ≤ 8) ps
    → seats qs ≡ seats ps
    → All (λ p. test p ≡ true) ps
    → All (λ p. test' p ≡ true) qs
    → Distinct (seats ps)
    → 3 ≤ length (seats ps)
    → next_seat ps a test ≡ some b
    → next_seat qs b test' ≡ some c
    → c ≢ a
next_seat_third a b ps qs test test' {c} ha hb ne table same every every' d len h h' e =
    let on = All-seats (λ k. k ≤ 8) ps table in
    let table' = seats-All (λ k. k ≤ 8) qs (subst (All (λ k. k ≤ 8)) (sym same) on) in
    let first = nearer_seats a ps test ha table every h in
    let second =
      subst (All (λ k. clockwise_distance b a ≤ clockwise_distance b k)) same
        (nearer_seats b qs test' hb table' every' (h' ∙ ap some e)) in
    not_all_two a b (seats ps) d len (
      All-map (seats ps)
        (λ k all_three. between a b k ha hb all_three.0 ne all_three.1.0 all_three.1.1)
        (All-zip (λ k. k ≤ 8) _ (seats ps) on (All-zip _ _ (seats ps) first second)))

pub seat_on_table :
    (test : Player → Bool) (seat : ℕ) (ps : List Player)
    → All (λ p. p.seat ≤ 8) ps
    → any (λ p. test p && (p.seat == seat)) ps ≡ true
    → seat ≤ 8
seat_on_table test seat [] table h = cc
seat_on_table test seat (p ∷ ps) table h =
    ground (arith, table.0, seat_on_table test seat ps table.1)

-- The seat that is found is one of the table's.
pub next_seat_on_table :
    (after_seat : ℕ) (ps : List Player) (test : Player → Bool) {seat : ℕ}
    → All (λ p. p.seat ≤ 8) ps
    → next_seat ps after_seat test ≡ some seat
    → seat ≤ 8
next_seat_on_table after_seat ps test {seat} table h =
    seat_on_table test seat ps table (next_seat-some ps after_seat test h)
