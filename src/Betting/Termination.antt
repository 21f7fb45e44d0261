-- ===== src/Betting/Termination.antt =====
-- A betting round of server/poker/betting.js ends: every accepted action lowers a number.
-- `is_pending`, by the parts of the state that it reads.
use x_poker.Base.{
  ℕ, suc, ◌+◌, ◌*◌, ◌≤◌, ◌<◌, ◌≡◌, refl, sym, subst₃, Bool, true, false, not, ◌&&◌, ◌||◌, some,
  List, arith, ltb, ◌==◌, ok, length, modify_first, includes, sum_by, find?-All,
  sum_by-modify_first, count_by, count_by-le-length, length-modify_first, count_by-lt,
  count_by-write,
}
use x_poker.Betting.State.{Player, BettingState, actionable, player_by_id, add_acted}
use x_poker.Betting.Chips.{pay}
use x_poker.Betting.Advance.{is_pending}
use x_poker.Betting.Actions.{Action, apply_action}
use x_poker.Betting.Outcome.{
  Performed, folds, checks, pays, increases, finish_or_advance-Kept, apply_action-Accepted,
  raise_bet-players,
}
use x_poker.Betting.Soundness.{Fits, IsSound, apply_action-IsSound}
use x_poker.Betting.Raises.{includes-add_acted_self, includes-add_acted}

abbrev pub still_to_act : ℕ → List ℕ → Player → Bool
still_to_act target acted p =
    actionable p && (ltb p.street_contribution target || not (includes acted p.player_id))

-- The chips behind, each worth more than all the turns of a round, and the players who have to act.
unfoldable pub measure : ℕ → List ℕ → List Player → ℕ
measure target acted players =
    sum_by (λ p. p.stack) players * (length players + 1)
    + count_by (still_to_act target acted) players

unfoldable pub rounds_left : BettingState → ℕ
rounds_left s = measure s.current_bet s.acted s.players

-- Chips that leave a stack lower the measure, whoever has to act then.
measure_less_chips :
    (target target' : ℕ) (acted acted' : List ℕ) (ps qs : List Player)
    → length qs ≡ length ps
    → sum_by (λ p. p.stack) qs < sum_by (λ p. p.stack) ps
    → measure target' acted' qs < measure target acted ps
unfolding measure
measure_less_chips target target' acted acted' ps qs len less =
    let few = count_by-le-length (still_to_act target' acted') qs in
    let more : sum_by (λ p. p.stack) qs * (length ps + 1) + (length ps + 1)
        ≤ sum_by (λ p. p.stack) ps * (length ps + 1) =
      grind arith in
    rw len (omega (arith, few, more))

-- So does a player who needs to act no more, if no chips come back.
measure_less_pending :
    (target : ℕ) (acted acted' : List ℕ) (ps qs : List Player)
    → length qs ≡ length ps
    → sum_by (λ p. p.stack) qs ≤ sum_by (λ p. p.stack) ps
    → count_by (still_to_act target acted') qs < count_by (still_to_act target acted) ps
    → measure target acted' qs < measure target acted ps
unfolding measure
measure_less_pending target acted acted' ps qs len less few =
    let fewer : sum_by (λ p. p.stack) qs * (length ps + 1)
        ≤ sum_by (λ p. p.stack) ps * (length ps + 1) =
      grind arith in
    rw len (omega (arith, few, fewer))

module _ (s : BettingState) (p : Player) where
  narrows :
      (x : Player)
      → still_to_act s.current_bet (add_acted s.acted p.player_id) x ≡ true
      → still_to_act s.current_bet s.acted x ≡ true
  narrows x h = ground (arith, includes-add_acted s.acted p.player_id x.player_id)

  by_id : Player → Bool
  by_id q = q.player_id == p.player_id

  -- A write that brings no chips back and leaves the player with nothing to do.
  written_lowers :
      (q : Player)
      → player_by_id s p.player_id ≡ some p
      → is_pending s p ≡ true
      → q.stack ≤ p.stack
      → still_to_act s.current_bet (add_acted s.acted p.player_id) q ≡ false
      → measure s.current_bet
          (add_acted s.acted p.player_id)
          (modify_first by_id (λ _. q) s.players)
        < rounds_left s
  unfolding rounds_left by_id
  written_lowers q found was less idle =
      let moved = sum_by-modify_first by_id (λ x. x.stack) q s.players {x = p} found in
      measure_less_pending s.current_bet s.acted (add_acted s.acted p.player_id) s.players _
        (length-modify_first by_id (λ _. q) s.players) (omega (arith, moved))
        (count_by-write (still_to_act s.current_bet s.acted)
          (still_to_act s.current_bet (add_acted s.acted p.player_id)) narrows by_id q s.players
          found was idle)

Performed-lowers :
    {s : BettingState} {p : Player} {after : BettingState}
    → player_by_id s p.player_id ≡ some p
    → Fits s.current_bet p
    → is_pending s p ≡ true
    → Performed s p after
    → rounds_left after < rounds_left s
unfolding rounds_left by_id
Performed-lowers {s} {p} found fit was (folds due e) =
    rw e (written_lowers s p (record p { folded = true }) found was (omega arith) (ground arith))
Performed-lowers {s} {p} found fit was (checks due e) =
    let idle : still_to_act s.current_bet (add_acted s.acted p.player_id) p ≡ false =
      ground (arith, includes-add_acted_self s.acted p.player_id) in
    rw e (
      measure_less_pending s.current_bet s.acted (add_acted s.acted p.player_id) s.players s.players
        refl (omega arith)
        (count_by-lt (still_to_act s.current_bet s.acted)
          (still_to_act s.current_bet (add_acted s.acted p.player_id)) (narrows s p) (by_id s p)
          s.players found was idle))
Performed-lowers {s} {p} found fit was (pays n fits pos low whole e) = rw e (
    written_lowers s p (pay p n) found was (omega arith)
      (ground (arith, includes-add_acted_self s.acted p.player_id)))
Performed-lowers {s} {p} found fit was (increases n fits more rights most least e) =
    let test = λ (q : Player). q.player_id == p.player_id in
    let moved = sum_by-modify_first test (λ x. x.stack) (pay p n) s.players {x = p} found in
    rw (e, raise_bet-players)
      (measure_less_chips s.current_bet _ s.acted _ s.players
        (modify_first test (λ _. pay p n) s.players)
        (length-modify_first test (λ _. pay p n) s.players) (omega (arith, moved, fit.0)))

-- In a sound hand every accepted action lowers `rounds_left`, so a betting round has at most that many
-- actions.
pub apply_action-lowers :
    (s : BettingState) (a : Action) {t : BettingState}
    → IsSound s
    → apply_action s a ≡ ok t
    → rounds_left t < rounds_left s
unfolding rounds_left
apply_action-lowers s a {t} v h =
    let r = apply_action-Accepted s a h in
    let kept = finish_or_advance-Kept _ r.actor.seat r.advanced in
    let test = λ (q : Player). q.player_id == r.actor.player_id in
    let fit = find?-All test (Fits s.current_bet) s.players v.fits r.found in
    let was =
      find?-All test (λ p. s.action_seat ≡ some p.seat → is_pending s p ≡ true) s.players v.waits
        r.found in
    let less = Performed-lowers r.found fit (was r.turn) r.performed in
    subst₃ (λ target acted players. measure target acted players < rounds_left s)
      (sym kept.current_bet) (sym kept.acted) (sym kept.players) less

-- A run of accepted actions.
pub data Plays (s : BettingState) : ℕ → BettingState → Type 0 where
  idle : Plays s 0 s
  play :
      {n : ℕ} {t u : BettingState} (a : Action)
      → Plays s n t
      → apply_action t a ≡ ok u
      → Plays s (suc n) u

pub Plays-IsSound : {s t : BettingState} {n : ℕ} → IsSound s → Plays s n t → IsSound t
Plays-IsSound v idle = v
Plays-IsSound v (play {t = t} a run h) = apply_action-IsSound t a (Plays-IsSound v run) h

-- From a sound state no betting round goes on for more than `rounds_left` accepted actions, and what is
-- left afterwards is that much less.
pub Plays-bounded :
    {s t : BettingState} {n : ℕ} → IsSound s → Plays s n t → n + rounds_left t ≤ rounds_left s
Plays-bounded v idle = omega arith
Plays-bounded v (play {t = t} a run h) =
    omega (arith, Plays-bounded v run, apply_action-lowers t a (Plays-IsSound v run) h)
