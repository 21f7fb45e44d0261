-- ===== src/Betting/Progress.antt =====
-- A sound hand of server/poker/betting.js never runs into the assertion of `finishOrAdvance` that
-- somebody is left to act, and a timeout always goes through.
-- If nobody is pending, all who can act have settled.
use x_poker.Base.{
  ℕ, ◌+◌, ◌≡◌, refl, sym, ap, ◌∙◌, inl, inr, true, false, List, [], ◌∷◌, arith, ◌==◌, if◌then◌else◌,
  Option-cases, true≢false, ok, err, Result-cases, err≢ok, filter, all, modify_first, All,
  any-eq-false→All,
}
use x_poker.Betting.State.{Player, BettingState, BettingError, active, actionable}
use x_poker.Betting.Clockwise.{next_seat}
use x_poker.Betting.Advance.{
  is_pending, next_pending_actor, is_settled, set_actor, finish_or_advance,
}
use x_poker.Betting.Actions.{
  fold, check, Action, amount_to_call, describe_actions, find_actor, legal_actions, mark_acted,
  perform, apply_action, apply_timeout,
}
use x_poker.Betting.Turns.{next_seat-none}
use x_poker.Betting.Outcome.{perform-Performed, Kept, finish_or_advance-Kept, find_actor-eq-ok}
use x_poker.Betting.Soundness.{Fits, IsSound, Performed-Fits}

settled_if_idle :
    (s : BettingState) (ps : List Player)
    → All (Fits s.current_bet) ps
    → All (λ p. is_pending s p ≡ false) ps
    → all (is_settled s) (filter actionable (filter active ps)) ≡ true
settled_if_idle s [] a idle = refl
settled_if_idle s (p ∷ ps) a idle = ground (arith, a.0, idle.0, settled_if_idle s ps a.1 idle.1)

-- Where not everybody has settled, the search for the next actor finds one.
set_actor-not-err :
    (s : BettingState) (seat : ℕ) (e : BettingError)
    → All (Fits s.current_bet) s.players
    → all (is_settled s) (filter actionable (filter active s.players)) ≡ false
    → set_actor s (next_pending_actor s seat) ≡ err e
    → ⊥
unfolding next_pending_actor
set_actor-not-err s seat e a unsettled h =
    elim (Option-cases (next_seat s.players seat (is_pending s))) [
      | inl nobody ↦
          let idle =
            any-eq-false→All (is_pending s) s.players
              (next_seat-none s.players seat (is_pending s) nobody) in
          true≢false (sym (settled_if_idle s s.players a idle) ∙ unsettled)
      | inr (next, found) ↦ err≢ok (sym h ∙ ap (set_actor s) found)
    ]

finish_or_advance-not-err :
    (s : BettingState) (seat : ℕ) (e : BettingError)
    → All (Fits s.current_bet) s.players
    → finish_or_advance s seat ≡ err e
    → ⊥
unfolding finish_or_advance
finish_or_advance-not-err s seat e a h = ground (arith, set_actor-not-err s seat e a)

-- With contributions within the bet, `finishOrAdvance` returns.
pub finish_or_advance-ok :
    (s : BettingState) (seat : ℕ)
    → All (Fits s.current_bet) s.players
    → (t : BettingState) × (finish_or_advance s seat ≡ ok t)
finish_or_advance-ok s seat a = elim (Result-cases (finish_or_advance s seat)) [
  | inl done ↦ done
  | inr (e, h) ↦ absurd (finish_or_advance-not-err s seat e a h)
]

-- Once the guards of an action in a sound hand have passed, the action is accepted.
pub perform-accepted :
    (s : BettingState) (a : Action) {p : Player} {after : BettingState}
    → IsSound s
    → a.expected_version ≡ s.version
    → find_actor s a.player_id ≡ ok p
    → perform s p (describe_actions s p) a.kind ≡ ok after
    → (t : BettingState) × (apply_action s a ≡ ok t)
      × Kept (record after { version = after.version + 1 }) t
unfolding apply_action
perform-accepted s a {p} {after} v e found done =
    let here = (find_actor-eq-ok s a.player_id found).0 in
    let fits = Performed-Fits here v.fits (perform-Performed s p a.kind done) in
    let (t, h) = finish_or_advance-ok (record after { version = after.version + 1 }) p.seat fits in
    (t, ground (arith, e, found, done, h), finish_or_advance-Kept _ p.seat h)

-- What a timeout does to the table: nothing, if there is nothing to call, and else it folds the player.
abbrev pub timed_out : BettingState → Player → List Player
timed_out s p =
    if amount_to_call s p == 0
    then s.players
    else modify_first (λ q. q.player_id == p.player_id) (λ _. record p { folded = true }) s.players

perform_timeout :
    (s : BettingState) (p : Player)
    → perform s p (describe_actions s p) (if (describe_actions s p).can_check then check else fold)
      ≡ ok (mark_acted (record s { players = timed_out s p }) p.player_id)
unfolding perform describe_actions
perform_timeout s p = ground arith

-- In a sound hand a timeout of the player to act is always accepted. The player folds exactly if there
-- is something to call; everything else about the players, and the bet, stays as it was.
pub apply_timeout-accepted :
    (s : BettingState) (id : ℕ) {p : Player}
    → IsSound s
    → find_actor s id ≡ ok p
    → (t : BettingState) × (apply_timeout s id s.version ≡ ok t)
      × (t.players ≡ timed_out s p)
      × (t.current_bet ≡ s.current_bet)
      × (t.version ≡ s.version + 1)
unfolding apply_timeout legal_actions
apply_timeout-accepted s id {p} v found =
    let kind = if (describe_actions s p).can_check then check else fold in
    let (t, h, kept) =
      perform-accepted s (record { player_id = id; expected_version = s.version; kind = kind }) v
        refl found (perform_timeout s p) in
    (t, ground (arith, found, h), kept.players, kept.current_bet, kept.version)
