-- ===== src/Betting/Outcome.antt =====
-- What an accepted action did: `perform` and `finish_or_advance` read backwards.
use x_poker.Base.{
  ℕ, ◌+◌, ◌-◌, ◌≤◌, ◌<◌, ◌≡◌, refl, sym, subst, ◌⊎◌, inl, inr, true, false, Option, none, some,
  arith, leb, ◌==◌, if◌then◌else◌, ==_iff, Bool-cases, ok, or_fail, >>=-eq-ok, assert-eq-ok,
  includes, find?-test,
}
use x_poker.Betting.State.{
  betting, Player, BettingState, not_betting, not_in_hand, out_of_turn, version_conflict,
  is_betting, player_by_id,
}
use x_poker.Betting.Chips.{pay, pay_to}
use x_poker.Betting.Advance.{next_pending_actor, set_actor, finish_or_advance}
use x_poker.Betting.Actions.{
  ActionKind, fold, check, call, all_in_action, unknown_action, bet_to, raise_to, Action,
  amount_to_call, call_payment, available_target, maximum_target_of, is_turn_of, describe_actions,
  find_actor, put_player, mark_acted, raise_bet, apply_increase, pay_and_mark, perform,
  apply_action,
}

-- The state after the `switch`, by what the player did.
pub data Performed (s : BettingState) (p : Player) (after : BettingState) : Type 0 where
  folds :
      0 < amount_to_call s p
      → after ≡ mark_acted (put_player s (record p { folded = true })) p.player_id
      → Performed s p after
  checks : amount_to_call s p ≡ 0 → after ≡ mark_acted s p.player_id → Performed s p after
  pays :
      (n : ℕ)
      → n ≤ p.stack
      → (0 < p.stack → 0 < n)
      → p.street_contribution + n ≤ s.current_bet
      → (n ≡ p.stack) ⊎ (p.street_contribution + n ≡ s.current_bet)
      → after ≡ mark_acted (put_player s (pay p n)) p.player_id
      → Performed s p after
  increases :
      (n : ℕ)
      → n ≤ p.stack
      → s.current_bet < p.street_contribution + n
      → includes s.acted p.player_id ≡ false
      → p.street_contribution + n ≤ maximum_target_of s p
      → ((if s.current_bet == 0 then s.big_blind else s.current_bet + s.last_full_raise_size)
          ≤ p.street_contribution + n)
        ⊎ (n ≡ p.stack)
      → after ≡ raise_bet (put_player s (pay p n)) p.player_id (p.street_contribution + n)
      → Performed s p after

-- An accepted increase pays the difference to its target.
apply_increase-Performed :
    (s : BettingState) (p : Player) (to : Option ℕ) {after : BettingState}
    → apply_increase s p to (describe_actions s p) ≡ ok after
    → Performed s p after
unfolding apply_increase describe_actions pay_to
apply_increase-Performed s p none h = cc
apply_increase-Performed s p (some target) h =
    let reached : p.street_contribution + (target - p.street_contribution) ≡ target =
      ground arith in
    increases (target - p.street_contribution) (ground arith) (ground arith) (ground arith)
      (ground arith) (ground arith) (rw reached (ground arith))

-- A payment of at most the bet.
pay_and_mark-Performed :
    (s : BettingState) (p : Player) (n : ℕ) {after : BettingState}
    → (0 < p.stack → 0 < n)
    → p.street_contribution + n ≤ s.current_bet
    → (n ≡ p.stack) ⊎ (p.street_contribution + n ≡ s.current_bet)
    → pay_and_mark s p (p.street_contribution + n) ≡ ok after
    → Performed s p after
unfolding pay_and_mark pay_to
pay_and_mark-Performed s p n pos low whole h =
    let paid : (p.street_contribution + n) - p.street_contribution ≡ n = omega arith in
    pays n (ground arith) pos low whole (ground (arith, paid))

pub perform-Performed :
    (s : BettingState) (p : Player) (kind : ActionKind) {after : BettingState}
    → perform s p (describe_actions s p) kind ≡ ok after
    → Performed s p after
unfolding perform describe_actions
perform-Performed s p fold h = folds (ground arith) (ground arith)
perform-Performed s p check h = checks (ground arith) (ground arith)
perform-Performed s p call h =
    pay_and_mark-Performed s p (call_payment s p) (ground arith) (ground arith) (ground arith)
      (ground arith)
perform-Performed s p (bet_to to) h = apply_increase-Performed s p to (ground arith)
perform-Performed s p (raise_to to) h = apply_increase-Performed s p to (ground arith)
perform-Performed s p all_in_action h = elim (Bool-cases (leb (available_target p) s.current_bet)) [
  | inl short ↦ pay_and_mark-Performed s p p.stack (λ e. e) (ground arith) (inl refl) (ground arith)
  | inr long ↦ apply_increase-Performed s p (some (available_target p)) (ground arith)
]
perform-Performed s p unknown_action h = cc

-- What `finish_or_advance` leaves alone.
pub record Kept (s t : BettingState) : Type 0 where
  pub players : t.players ≡ s.players
  pub current_bet : t.current_bet ≡ s.current_bet
  pub last_full_raise_size : t.last_full_raise_size ≡ s.last_full_raise_size
  pub acted : t.acted ≡ s.acted
  pub board : t.board ≡ s.board
  pub phase : t.phase ≡ s.phase
  pub version : t.version ≡ s.version
  pub big_blind : t.big_blind ≡ s.big_blind
  pub button_seat : t.button_seat ≡ s.button_seat
  pub game : t.game ≡ s.game

set_actor-Kept :
    (s : BettingState) (o : Option ℕ) {t : BettingState} → set_actor s o ≡ ok t → Kept s t
set_actor-Kept s none h = cc
set_actor-Kept s (some seat) h = ground arith

pub finish_or_advance-Kept :
    (s : BettingState) (seat : ℕ) {t : BettingState} → finish_or_advance s seat ≡ ok t → Kept s t
unfolding finish_or_advance
finish_or_advance-Kept s seat h = ground (arith, set_actor-Kept s (next_pending_actor s seat))

-- The player whose turn it is.
pub find_actor-eq-ok :
    (s : BettingState) (id : ℕ) {p : Player}
    → find_actor s id ≡ ok p
    → (player_by_id s p.player_id ≡ some p)
      × (p.player_id ≡ id)
      × (s.action_seat ≡ some p.seat)
      × (s.status ≡ betting)
unfolding find_actor
find_actor-eq-ok s id {p} h =
    let (status, h₁) = assert-eq-ok (is_betting s.status) not_betting _ h in
    let (q, found, h₂) = >>=-eq-ok (or_fail (player_by_id s id) not_in_hand) _ h₁ in
    let (turn, h₃) = assert-eq-ok (is_turn_of s.action_seat q) out_of_turn (ok q) h₂ in
    let hit : player_by_id s id ≡ some p = ground arith in
    let same : p.player_id ≡ id =
      (==_iff _ _).0 (find?-test (λ x. x.player_id == id) s.players hit) in
    (subst (λ k. player_by_id s k ≡ some p) (sym same) hit, same, ground arith, ground arith)

-- An accepted action, taken apart.
pub record Accepted (s : BettingState) (a : Action) (t : BettingState) : Type 0 where
  pub actor : Player
  pub after : BettingState
  pub version : a.expected_version ≡ s.version
  pub is_actor : find_actor s a.player_id ≡ ok actor
  pub same_id : actor.player_id ≡ a.player_id
  pub found : player_by_id s actor.player_id ≡ some actor
  pub turn : s.action_seat ≡ some actor.seat
  pub running : s.status ≡ betting
  pub performed : Performed s actor after
  pub advanced : finish_or_advance (record after { version = after.version + 1 }) actor.seat ≡ ok t

pub apply_action-Accepted :
    (s : BettingState) (a : Action) {t : BettingState} → apply_action s a ≡ ok t → Accepted s a t
unfolding apply_action
apply_action-Accepted s a h =
    let (e, h₁) = assert-eq-ok (a.expected_version == s.version) version_conflict _ h in
    let (p, isp, h₂) = >>=-eq-ok (find_actor s a.player_id) _ h₁ in
    let (after, done, h₃) = >>=-eq-ok (perform s p (describe_actions s p) a.kind) _ h₂ in
    let (found, same, turn, running) = find_actor-eq-ok s a.player_id isp in
    record {
      actor = p;
      after = after;
      version = (==_iff _ _).0 e;
      is_actor = isp;
      same_id = same;
      found = found;
      turn = turn;
      running = running;
      performed = perform-Performed s p a.kind done;
      advanced = h₃;
    }

-- What `raise_bet` does to each part of the state.
pub raise_bet-players :
    (s : BettingState) (id target : ℕ) → (raise_bet s id target).players ≡ s.players
unfolding raise_bet
raise_bet-players s id target = ground arith

pub raise_bet-current_bet :
    (s : BettingState) (id target : ℕ) → (raise_bet s id target).current_bet ≡ target
unfolding raise_bet
raise_bet-current_bet s id target = ground arith
