-- ===== src/Betting/Endings.antt =====
-- The five outcomes of an accepted action of server/poker/betting.js, as `finishOrAdvance` tells them apart.
use x_poker.Base.{
  ℕ, ◌≤◌, ◌≡◌, refl, ◌≢◌, inl, inr, Bool, true, false, ◌&&◌, none, some, List, [], ◌∷◌, arith, ◌==◌,
  ==_iff, Bool-cases, length, filter, all, any, All, All-map,
}
use x_poker.Betting.State.{
  betting, awaiting_deal, awaiting_runout, showdown, complete, Player, BettingState, is_river,
  next_street, active, actionable,
}
use x_poker.Betting.Advance.{is_pending, is_settled, one_matched}
use x_poker.Betting.Nearest.{clockwise_distance}

-- Nobody who can still act is short of the bet.
abbrev pub Matched : BettingState → Type 0
Matched t = All (λ p. actionable p ≡ true → p.street_contribution ≡ t.current_bet) t.players

-- Who has not folded, and who of them can still act.
abbrev pub live : BettingState → ℕ
live t = length (filter active t.players)

abbrev pub able : BettingState → ℕ
able t = length (filter actionable (filter active t.players))

-- How the action of the player at a seat ends.
pub data Ended (actor_seat : ℕ) (t : BettingState) : Type 0 where
  wins :
      (p : Player)
      → filter active t.players ≡ p ∷ []
      → t.status ≡ complete
      → t.winner_id ≡ some p.player_id
      → t.action_seat ≡ none
      → Ended actor_seat t
  goes_on :
      (seat : ℕ)
      → 2 ≤ live t
      → t.status ≡ betting
      → t.action_seat ≡ some seat
      → any (λ p. is_pending t p && (p.seat == seat)) t.players ≡ true
      → All
          (λ q.
            is_pending t q ≡ true
            → clockwise_distance actor_seat seat ≤ clockwise_distance actor_seat q.seat)
          t.players
      → Ended actor_seat t
  waits_for_street :
      2 ≤ live t
      → 2 ≤ able t
      → t.status ≡ awaiting_deal
      → is_river t.phase ≡ false
      → t.pending_street ≡ next_street t.phase
      → t.action_seat ≡ none
      → All (λ p. is_pending t p ≡ false) t.players
      → Matched t
      → Ended actor_seat t
  runs_out :
      live t ≢ 1
      → able t ≤ 1
      → t.status ≡ awaiting_runout
      → t.action_seat ≡ none
      → Matched t
      → Ended actor_seat t
  shows :
      2 ≤ live t
      → 1 ≤ able t
      → t.status ≡ showdown
      → is_river t.phase ≡ true
      → t.action_seat ≡ none
      → Matched t
      → Ended actor_seat t

pub one_left : (ps : List Player) → length ps ≡ 1 → (p : Player) × (ps ≡ p ∷ [])
one_left [] h = absurd (omega arith)
one_left (p ∷ []) h = (p, refl)
one_left (p ∷ q ∷ ps) h = absurd (omega arith)

abbrev all_matched : BettingState → Bool
all_matched s =
    all (λ p. p.street_contribution == s.current_bet) (filter actionable (filter active s.players))

pub all-actionable :
    (test : Player → Bool) (ps : List Player)
    → all test (filter actionable (filter active ps)) ≡ true
    → All (λ p. actionable p ≡ true → test p ≡ true) ps
all-actionable test [] h = tt
all-actionable test (p ∷ ps) h = ground (arith, all-actionable test ps)

pub all_matched-Matched : (s : BettingState) → all_matched s ≡ true → Matched s
all_matched-Matched s h =
    All-map s.players (λ p same able. (==_iff _ _).0 (same able))
      (all-actionable (λ p. p.street_contribution == s.current_bet) s.players h)

pub nobody-matched : (test : Player → Bool) (ps : List Player) → length ps ≡ 0 → all test ps ≡ true
nobody-matched test [] h = refl
nobody-matched test (p ∷ ps) h = absurd (omega arith)

pub one_matched-matched :
    (s : BettingState) (ps : List Player)
    → one_matched s ps ≡ true
    → (all (λ p. p.street_contribution == s.current_bet) ps ≡ true) × (length ps ≡ 1)
one_matched-matched s [] h = cc
one_matched-matched s (p ∷ []) h = (ground arith, refl)
one_matched-matched s (p ∷ q ∷ ps) h = cc

pub settled-matched :
    (s : BettingState) (ps : List Player)
    → all (is_settled s) ps ≡ true
    → all (λ p. p.street_contribution == s.current_bet) ps ≡ true
settled-matched s [] h = refl
settled-matched s (p ∷ ps) h = ground (arith, settled-matched s ps)

pub settled-quiet :
    (s : BettingState) (p : Player)
    → (actionable p ≡ true → is_settled s p ≡ true)
    → is_pending s p ≡ false
settled-quiet s p h = elim (Bool-cases (actionable p)) [
  | inl can ↦ let quiet = h can in ground arith
  | inr cannot ↦ ground arith
]

-- Several can act where somebody can, and not one alone who has matched.
pub several :
    (s : BettingState) (ps : List Player)
    → length ps ≢ 0
    → one_matched s ps ≡ false
    → all (is_settled s) ps ≡ true
    → 2 ≤ length ps
several s [] some_one more settled = absurd (some_one refl)
several s (p ∷ []) some_one more settled = absurd (ground arith)
several s (p ∷ q ∷ ps) some_one more settled = omega arith

pub length-filter_le :
    (test : Player → Bool) (ps : List Player) → length (filter test ps) ≤ length ps
length-filter_le test [] = omega arith
length-filter_le test (p ∷ ps) = ground (arith, length-filter_le test ps)

pub pending-live :
    (s : BettingState) (seat : ℕ) (ps : List Player)
    → any (λ p. is_pending s p && (p.seat == seat)) ps ≡ true
    → 1 ≤ length (filter active ps)
pending-live s seat [] h = cc
pending-live s seat (p ∷ ps) h = ground (arith, pending-live s seat ps)
