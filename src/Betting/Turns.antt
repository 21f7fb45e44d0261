-- ===== src/Betting/Turns.antt =====
-- Whom `nextSeat` of server/poker/betting.js finds: a rotation of the players loses nobody, and the
-- seat that it returns is the nearest one clockwise.
use x_poker.Base.{
  ℕ, ◌≡◌, refl, sym, ap, ◌∙◌, inl, inr, Bool, true, false, ◌&&◌, ◌||◌, Option, none, some, List, [],
  ◌∷◌, map, arith, ltb, ◌==◌, ==_iff, Bool-cases, find?, any, find_index?, All, Distinct,
  find?-test, any-rotate, find?-none→any, find?-any, All-map, not-includes-map, any→includes-map,
}
use x_poker.Betting.State.{Player}
use x_poker.Betting.Clockwise.{
  insert_by_seat, sort_by_seat, rotate_at, clockwise_players, seat_of, next_seat,
}

any-insert_by_seat :
    (f : Player → Bool) (p : Player) (qs : List Player)
    → any f (insert_by_seat p qs) ≡ (f p || any f qs)
any-insert_by_seat f p [] = refl
any-insert_by_seat f p (q ∷ qs) = ground (arith, any-insert_by_seat f p qs)

any-sort_by_seat : (f : Player → Bool) (ps : List Player) → any f (sort_by_seat ps) ≡ any f ps
unfolding sort_by_seat
any-sort_by_seat f [] = refl
any-sort_by_seat f (p ∷ ps) =
    any-insert_by_seat f p (sort_by_seat ps) ∙ ap (◌||◌ (f p)) (any-sort_by_seat f ps)

any-rotate_at :
    (f : Player → Bool) (o : Option ℕ) (ps : List Player) → any f (rotate_at o ps) ≡ any f ps
unfolding rotate_at
any-rotate_at f none ps = refl
any-rotate_at f (some k) ps = any-rotate f k ps

pub any-clockwise_players :
    (f : Player → Bool) (ps : List Player) (after_seat : ℕ)
    → any f (clockwise_players ps after_seat) ≡ any f ps
unfolding clockwise_players
any-clockwise_players f ps after_seat =
    any-rotate_at f (find_index? (λ p. ltb after_seat p.seat) (sort_by_seat ps)) (sort_by_seat ps)
    ∙ any-sort_by_seat f ps

pub seat_of-eq-some :
    (o : Option Player) {seat : ℕ}
    → seat_of o ≡ some seat
    → (p : Player) × (o ≡ some p) × (p.seat ≡ seat)
unfolding seat_of
seat_of-eq-some none h = cc
seat_of-eq-some (some p) h = (p, refl, ground arith)

-- Nobody passes the test if no seat is found.
pub next_seat-none :
    (ps : List Player) (after_seat : ℕ) (test : Player → Bool)
    → next_seat ps after_seat test ≡ none
    → any test ps ≡ false
unfolding next_seat seat_of
next_seat-none ps after_seat test h =
    sym (any-clockwise_players test ps after_seat)
    ∙ find?-none→any test (clockwise_players ps after_seat) (ground arith)

-- The seat that is found is one of a player who passes the test.
pub next_seat-some :
    (ps : List Player) (after_seat : ℕ) (test : Player → Bool) {seat : ℕ}
    → next_seat ps after_seat test ≡ some seat
    → any (λ p. test p && (p.seat == seat)) ps ≡ true
unfolding next_seat
next_seat-some ps after_seat test {seat} h =
    let (p, found, at) = seat_of-eq-some (find? test (clockwise_players ps after_seat)) h in
    let passes = find?-test test (clockwise_players ps after_seat) found in
    sym (any-clockwise_players (λ q. test q && (q.seat == seat)) ps after_seat)
    ∙ find?-any test (λ q. test q && (q.seat == seat)) (clockwise_players ps after_seat) found
        (rw passes ((==_iff _ _).1 at))

-- Where no seat comes twice, whoever sits at a seat of such a player is that player.
pub seat_unique :
    (ps : List Player) (test : Player → Bool) (seat : ℕ)
    → Distinct (map (λ (p : Player). p.seat) ps)
    → any (λ p. test p && (p.seat == seat)) ps ≡ true
    → All (λ p. p.seat ≡ seat → test p ≡ true) ps
seat_unique [] test seat d h = tt
seat_unique (p ∷ ps) test seat d h = elim (Bool-cases (test p && (p.seat == seat))) [
  | inl here ↦ (
    λ e. ground arith,
    All-map ps (λ q ne e. absurd (ne (e ∙ ground arith)))
        (not-includes-map (λ (q : Player). q.seat) p.seat ps d.0),
  )
  | inr there ↦
      let later : any (λ q. test q && (q.seat == seat)) ps ≡ true = ground arith in
      let seated = any→includes-map (λ (q : Player). q.seat) test seat ps later in
      (λ e. ground arith, seat_unique ps test seat d.1 later)
]
