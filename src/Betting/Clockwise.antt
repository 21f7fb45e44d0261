-- ===== src/Betting/Clockwise.antt =====
-- The order of play: `clockwisePlayers` and `nextSeat` of server/poker/betting.js.
use x_poker.Base.{
  ℕ, Bool, Option, none, some, List, [], ◌∷◌, ◌++◌, ltb, leb, if◌then◌else◌, find?, take, drop,
  find_index?,
}
use x_poker.Betting.State.{Player}

-- Where a stable sort by seat puts one more player in front of a sorted list.
abbrev pub insert_by_seat : Player → List Player → List Player
insert_by_seat p [] = p ∷ []
insert_by_seat p (q ∷ qs) = if leb p.seat q.seat then p ∷ q ∷ qs else q ∷ insert_by_seat p qs

-- `[...players].sort((left, right) => left.seat - right.seat)`
unfoldable pub sort_by_seat : List Player → List Player
sort_by_seat [] = []
sort_by_seat (p ∷ ps) = insert_by_seat p (sort_by_seat ps)

unfoldable pub rotate_at : Option ℕ → List Player → List Player
rotate_at none sorted = sorted
rotate_at (some split) sorted = drop split sorted ++ take split sorted

unfoldable pub clockwise_players : List Player → ℕ → List Player
unfolding rotate_at sort_by_seat
clockwise_players players after_seat =
    let sorted = sort_by_seat players in
    rotate_at (find_index? (λ p. ltb after_seat p.seat) sorted) sorted

unfoldable pub seat_of : Option Player → Option ℕ
seat_of none = none
seat_of (some p) = some p.seat

unfoldable pub next_seat : List Player → ℕ → (Player → Bool) → Option ℕ
unfolding seat_of clockwise_players
next_seat players after_seat test = seat_of (find? test (clockwise_players players after_seat))
