-- ===== src/Betting/Soundness.antt =====
-- The invariant of a hand in server/poker/betting.js, and that it survives every accepted action.
-- No player has more in front than the current bet, and exactly those with an empty stack are all-in.
use x_poker.Base.{
  ℕ, ◌+◌, ◌≤◌, ◌≡◌, refl, sym, ap, subst, subst₂, ◌∙◌, inl, inr, true, none, some, List, [], ◌∷◌,
  map, arith, ◌==◌, Option-cases, ok, ok-injective, err≢ok, some-injective, All, Distinct,
  find?-All, All-modify_first, All-of, All-map,
}
use x_poker.Betting.State.{Player, BettingState, player_by_id}
use x_poker.Betting.Clockwise.{next_seat}
use x_poker.Betting.Chips.{pay}
use x_poker.Betting.Advance.{is_pending, next_pending_actor, set_actor, finish_or_advance}
use x_poker.Betting.Actions.{Action, apply_action}
use x_poker.Betting.Turns.{next_seat-some, seat_unique}
use x_poker.Betting.Outcome.{
  Performed, folds, checks, pays, increases, finish_or_advance-Kept, apply_action-Accepted,
  raise_bet-players, raise_bet-current_bet,
}
use x_poker.Betting.Bankroll.{bankroll, Performed-bankrolls, apply_action-bankrolls}

abbrev pub Fits : ℕ → Player → Type 0
Fits bet p = (p.street_contribution ≤ bet) × (p.all_in ≡ (p.stack == 0))

pub record IsSound (s : BettingState) : Type 0 where
  pub fits : All (Fits s.current_bet) s.players
  pub one_id : Distinct (map (λ (p : Player). p.player_id) s.players)
  pub one_seat : Distinct (map (λ (p : Player). p.seat) s.players)
  -- Whoever is to act can act, and is short of the bet or has not acted since the last full raise.
  pub waits : All (λ p. s.action_seat ≡ some p.seat → is_pending s p ≡ true) s.players

pub Fits-mono :
    {bet higher : ℕ} (ps : List Player) → bet ≤ higher → All (Fits bet) ps → All (Fits higher) ps
Fits-mono ps le a = All-map ps (λ p h. (omega arith, h.1)) a

Fits-pay :
    (bet n : ℕ) (p : Player) → n ≤ p.stack → p.street_contribution + n ≤ bet → Fits bet (pay p n)
Fits-pay bet n p fits le = (le, refl)

-- What an action leaves on the table fits the bet that it leaves.
pub Performed-Fits :
    {s : BettingState} {p : Player} {after : BettingState}
    → player_by_id s p.player_id ≡ some p
    → All (Fits s.current_bet) s.players
    → Performed s p after
    → All (Fits after.current_bet) after.players
Performed-Fits {s} {p} found a (folds due e) = rw e (
    All-modify_first (λ x. x.player_id == p.player_id) (Fits s.current_bet) _ s.players a
      (find?-All (λ x. x.player_id == p.player_id) (Fits s.current_bet) s.players a found))
Performed-Fits {s} {p} found a (checks due e) = rw e a
Performed-Fits {s} {p} found a (pays n fits pos low whole e) = rw e (
    All-modify_first (λ x. x.player_id == p.player_id) (Fits s.current_bet) _ s.players a
      (low, refl))
Performed-Fits {s} {p} found a (increases n fits more rights most least e) =
    rw (e, raise_bet-current_bet, raise_bet-players)
      (All-modify_first (λ x. x.player_id == p.player_id) (Fits (p.street_contribution + n)) _
        s.players (Fits-mono s.players (omega arith) a) (omega arith, refl))

-- The names and seats of a hand are read off the bankrolls.
ids-bankrolls :
    (ps : List Player)
    → map (λ (p : Player). p.player_id) ps ≡ map (λ (r : ℕ × ℕ × ℕ). r.0) (map bankroll ps)
ids-bankrolls [] = refl
ids-bankrolls (p ∷ ps) = ap (◌∷◌ p.player_id) (ids-bankrolls ps)

seats-bankrolls :
    (ps : List Player)
    → map (λ (p : Player). p.seat) ps ≡ map (λ (r : ℕ × ℕ × ℕ). r.1) (map bankroll ps)
seats-bankrolls [] = refl
seats-bankrolls (p ∷ ps) = ap (◌∷◌ p.seat) (seats-bankrolls ps)

pub same_ids :
    (ps qs : List Player)
    → map bankroll qs ≡ map bankroll ps
    → map (λ (p : Player). p.player_id) qs ≡ map (λ (p : Player). p.player_id) ps
same_ids ps qs e = ids-bankrolls qs ∙ ap (map (λ (r : ℕ × ℕ × ℕ). r.0)) e ∙ sym (ids-bankrolls ps)

pub same_seats :
    (ps qs : List Player)
    → map bankroll qs ≡ map bankroll ps
    → map (λ (p : Player). p.seat) qs ≡ map (λ (p : Player). p.seat) ps
same_seats ps qs e =
    seats-bankrolls qs ∙ ap (map (λ (r : ℕ × ℕ × ℕ). r.1)) e ∙ sym (seats-bankrolls ps)

-- After an action the next to act, if anybody, is pending.
abbrev pub Waits : BettingState → Type 0
Waits s = All (λ p. s.action_seat ≡ some p.seat → is_pending s p ≡ true) s.players

nobody-Waits : (s : BettingState) → s.action_seat ≡ none → Waits s
nobody-Waits s e = All-of s.players (λ p h. ground arith)

-- The state with the next actor asks the same of a player as before.
set_actor-Waits :
    (s : BettingState) (seat : ℕ) {t : BettingState}
    → Distinct (map (λ (p : Player). p.seat) s.players)
    → set_actor s (next_pending_actor s seat) ≡ ok t
    → Waits t
unfolding next_pending_actor
set_actor-Waits s seat {t} d h = elim (Option-cases (next_seat s.players seat (is_pending s))) [
  | inl e ↦ absurd (err≢ok (ap (set_actor s) (sym e) ∙ h))
  | inr (next, e) ↦
      let same : record s { action_seat = some next } ≡ t =
        ok-injective (ap (set_actor s) (sym e) ∙ h) in
      let found = next_seat-some s.players seat (is_pending s) e in
      subst (λ u. All (λ p. u.action_seat ≡ some p.seat → is_pending u p ≡ true) u.players) same
        (All-map s.players (λ p pend eq. pend (sym (some-injective eq)))
          (seat_unique s.players (is_pending s) next d found))
]

pub finish_or_advance-Waits :
    (s : BettingState) (seat : ℕ) {t : BettingState}
    → Distinct (map (λ (p : Player). p.seat) s.players)
    → finish_or_advance s seat ≡ ok t
    → Waits t
unfolding finish_or_advance
finish_or_advance-Waits s seat {t} d h =
    let next = set_actor-Waits s seat {t = t} d in
    let idle = nobody-Waits t in ground (arith, next, idle)

-- Every accepted action keeps the invariant.
pub apply_action-IsSound :
    (s : BettingState) (a : Action) {t : BettingState}
    → IsSound s
    → apply_action s a ≡ ok t
    → IsSound t
apply_action-IsSound s a {t} v h =
    let r = apply_action-Accepted s a h in
    let kept = finish_or_advance-Kept _ r.actor.seat r.advanced in
    let same = apply_action-bankrolls s a h in
    let after-same = Performed-bankrolls r.found r.performed in
    let fits = Performed-Fits r.found v.fits r.performed in
    record {
      fits =
          subst₂ (λ target ps. All (Fits target) ps) (sym kept.current_bet) (sym kept.players) fits;
      one_id = subst Distinct (sym (same_ids s.players t.players same)) v.one_id;
      one_seat = subst Distinct (sym (same_seats s.players t.players same)) v.one_seat;
      waits =
          finish_or_advance-Waits _ r.actor.seat
            (subst Distinct (sym (same_seats s.players r.after.players after-same)) v.one_seat)
            r.advanced;
    }
