-- ===== src/Betting/Nearest.antt =====
-- The seat that `nextSeat` of server/poker/betting.js returns is the nearest one clockwise: the sort,
-- the search for the split and the rotation put the players in the order of their distance.
use x_poker.Base.{
  ℕ, zero, suc, ◌+◌, ◌-◌, ◌≤◌, ◌<◌, ◌≡◌, refl, sym, ◌∙◌, ◌⊎◌, inl, inr, Bool, true, false, ◌&&◌,
  Option, none, some, List, [], ◌∷◌, arith, ltb, leb, ◌==◌, if◌then◌else◌, ltb→lt, Bool-cases,
  Option-cases, find?, any, take, drop, find_index?, All, any-eq-false→All, All→any-eq-false,
  find_index?-suc, find_index?-zero, find_index?-none→any, All-map, All-zip, Ordered,
  Ordered-append, find?-least, drop-All, Ordered-take, Ordered-drop, Ordered-map,
}
use x_poker.Betting.State.{Player}
use x_poker.Betting.Clockwise.{
  insert_by_seat, sort_by_seat, rotate_at, clockwise_players, next_seat,
}
use x_poker.Betting.Turns.{any-clockwise_players, seat_of-eq-some, next_seat-none, next_seat-some}

-- How many seats clockwise of `after_seat` a seat of the nine-seat table is; the seat itself comes last.
unfoldable pub clockwise_distance : ℕ → ℕ → ℕ
clockwise_distance after_seat seat =
    if ltb after_seat seat then seat - after_seat else seat + 9 - after_seat

abbrev at : Player → ℕ
at p = p.seat

All-insert_by_seat {κ} :
    (P : Player → Type κ) (p : Player) (qs : List Player)
    → P p
    → All P qs
    → All P (insert_by_seat p qs)
All-insert_by_seat P p [] h a = (h, a)
All-insert_by_seat P p (q ∷ qs) h a = elim (Bool-cases (leb p.seat q.seat)) [
  | inl low ↦ rw low (h, a)
  | inr high ↦ rw high (a.0, All-insert_by_seat P p qs h a.1)
]

Ordered-insert_by_seat :
    (p : Player) (qs : List Player) → Ordered at qs → Ordered at (insert_by_seat p qs)
Ordered-insert_by_seat p [] o = (tt, tt)
Ordered-insert_by_seat p (q ∷ qs) o = elim (Bool-cases (leb p.seat q.seat)) [
  | inl low ↦
      let le : p.seat ≤ q.seat = ground arith in
      rw low ((le, All-map qs (λ x h. omega arith) o.0), o)
  | inr high ↦ rw high (
    All-insert_by_seat (λ x. q.seat ≤ x.seat) p qs (ground arith) o.0,
    Ordered-insert_by_seat p qs o.1,
  )
]

Ordered-sort_by_seat : (ps : List Player) → Ordered at (sort_by_seat ps)
unfolding sort_by_seat
Ordered-sort_by_seat [] = tt
Ordered-sort_by_seat (p ∷ ps) = Ordered-insert_by_seat p (sort_by_seat ps) (Ordered-sort_by_seat ps)

All-sort_by_seat {κ} : (P : Player → Type κ) (ps : List Player) → All P ps → All P (sort_by_seat ps)
unfolding sort_by_seat
All-sort_by_seat P [] h = tt
All-sort_by_seat P (p ∷ ps) h =
    All-insert_by_seat P p (sort_by_seat ps) h.0 (All-sort_by_seat P ps h.1)

module _ (after_seat : ℕ) where
  abbrev beyond : Player → Bool
  beyond p = ltb after_seat p.seat

  abbrev OnTable : Player → Type 0
  OnTable p = p.seat ≤ 8

  abbrev dist : Player → ℕ
  dist p = clockwise_distance after_seat p.seat

  -- The split of a sorted list: the seats before it are not beyond, those after it are.
  split_low :
      (ps : List Player) (k : ℕ)
      → find_index? beyond ps ≡ some k
      → All (λ p. p.seat ≤ after_seat) (take k ps)
  split_low [] k h = cc
  split_low (p ∷ ps) zero h = tt
  split_low (p ∷ ps) (suc k) h =
      let (near, later) = find_index?-suc beyond p ps h in (ground arith, split_low ps k later)

  split_high :
      (ps : List Player) (k : ℕ)
      → Ordered at ps
      → find_index? beyond ps ≡ some k
      → All (λ p. after_seat < p.seat) (drop k ps)
  split_high [] k o h = cc
  split_high (p ∷ ps) zero o h =
      let far : after_seat < p.seat = ltb→lt _ _ (find_index?-zero beyond p ps h) in
      (far, All-map ps (λ q le. omega arith) o.0)
  split_high (p ∷ ps) (suc k) o h =
      let (near, later) = find_index?-suc beyond p ps h in split_high ps k o.1 later

  -- Among the seats not beyond, and among those beyond, the distance follows the seats.
  Ordered-low :
      (ps : List Player) → All (λ p. p.seat ≤ after_seat) ps → Ordered at ps → Ordered dist ps
  unfolding clockwise_distance
  Ordered-low ps a o = Ordered-map at dist ps (λ x y hx hy le. ground arith) a o

  Ordered-high :
      (ps : List Player) → All (λ p. after_seat < p.seat) ps → Ordered at ps → Ordered dist ps
  unfolding clockwise_distance
  Ordered-high ps a o = Ordered-map at dist ps (λ x y hx hy le. ground arith) a o

  module _ (seated : after_seat ≤ 8) where
    Ordered-rotate_at :
        (o : Option ℕ) (ps : List Player)
        → find_index? beyond ps ≡ o
        → Ordered at ps
        → All OnTable ps
        → Ordered dist (rotate_at o ps)
    unfolding rotate_at clockwise_distance
    Ordered-rotate_at none ps h o t =
        Ordered-low ps
          (All-map ps (λ p far. ground arith)
            (any-eq-false→All beyond ps (find_index?-none→any beyond ps h)))
          o
    Ordered-rotate_at (some k) ps h o t =
        let high = split_high ps k o h in
        let low = split_low ps k h in
        Ordered-append dist (drop k ps) (take k ps)
          (Ordered-high (drop k ps) high (Ordered-drop at k ps o))
          (Ordered-low (take k ps) low (Ordered-take at k ps o))
          (All-map (drop k ps) (λ x hx. All-map (take k ps) (λ y hy. ground arith) low)
            (All-zip (λ p. after_seat < p.seat) OnTable (drop k ps) high
              (drop-All at OnTable k ps t)))

    Ordered-clockwise_players :
        (ps : List Player) → All OnTable ps → Ordered dist (clockwise_players ps after_seat)
    unfolding clockwise_players
    Ordered-clockwise_players ps t =
        Ordered-rotate_at (find_index? beyond (sort_by_seat ps)) (sort_by_seat ps) refl
          (Ordered-sort_by_seat ps) (All-sort_by_seat OnTable ps t)

    pub next_seat-least :
        (ps : List Player) (test : Player → Bool) {seat : ℕ}
        → All (λ p. p.seat ≤ 8) ps
        → next_seat ps after_seat test ≡ some seat
        → All
            (λ q.
              test q ≡ true
              → clockwise_distance after_seat seat ≤ clockwise_distance after_seat q.seat)
            ps
    unfolding next_seat
    next_seat-least ps test {seat} t h =
        let order = clockwise_players ps after_seat in
        let (p, found, here) = seat_of-eq-some (find? test order) h in
        let least = find?-least dist test order (Ordered-clockwise_players ps t) found in
        let nearer = λ (q : Player). test q && ltb (dist q) (dist p) in
        let nobody : any nearer order ≡ false =
          All→any-eq-false nearer order (All-map order (λ q le. ground (arith, le)) least) in
        All-map ps (λ q no e. ground arith)
          (any-eq-false→All nearer ps (sym (any-clockwise_players nearer ps after_seat) ∙ nobody))

    -- At a table of seats 0 to 8, from a seat of it: no seat is found if no player passes the test, and
    -- otherwise a seat is found, a player who passes the test sits there, and no player who passes it
    -- sits nearer clockwise.
    pub next_seat_nearest :
        (ps : List Player) (test : Player → Bool)
        → All (λ p. p.seat ≤ 8) ps
        → ((any test ps ≡ false) × (next_seat ps after_seat test ≡ none))
          ⊎ ((seat : ℕ) × (next_seat ps after_seat test ≡ some seat)
              × (any (λ p. test p && (p.seat == seat)) ps ≡ true)
              × All
                  (λ q.
                    test q ≡ true
                    → clockwise_distance after_seat seat ≤ clockwise_distance after_seat q.seat)
                  ps)
    next_seat_nearest ps test t = elim (Option-cases (next_seat ps after_seat test)) [
      | inl missed ↦ inl (next_seat-none ps after_seat test missed, missed)
      | inr (seat, found) ↦
          inr
            (seat, found, next_seat-some ps after_seat test found, next_seat-least ps test t found)
    ]
