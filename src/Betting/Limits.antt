-- ===== src/Betting/Limits.antt =====
-- How far an accepted action of server/poker/betting.js may move the bet.
-- An increase of the bet is at least the minimum, unless it is the player's last chip, and at most the
-- maximum for the game.
use x_poker.Base.{
  ℕ, ◌+◌, ◌≤◌, ◌<◌, ◌≡◌, sym, ap, subst₂, ◌∙◌, ◌⊎◌, inl, inr, arith, ◌==◌, if◌then◌else◌, ok,
  ok-injective,
}
use x_poker.Betting.State.{plo4, Player, BettingState, pot_size}
use x_poker.Betting.Chips.{pay}
use x_poker.Betting.Actions.{
  Action, amount_to_call, available_target, maximum_target_of, find_actor, put_player, apply_action,
}
use x_poker.Betting.Outcome.{
  Performed, folds, checks, pays, increases, finish_or_advance-Kept, apply_action-Accepted,
  raise_bet-current_bet,
}

unfoldable pub Bounded : BettingState → Player → ℕ → Type 0
Bounded s p target =
    (target ≤ maximum_target_of s p)
    × (((if s.current_bet == 0 then s.big_blind else s.current_bet + s.last_full_raise_size)
          ≤ target)
        ⊎ (target ≡ available_target p))

Performed-Bounded :
    {s : BettingState} {p : Player} {after : BettingState}
    → Performed s p after
    → (after.current_bet ≡ s.current_bet)
      ⊎ ((s.current_bet < after.current_bet) × Bounded s p after.current_bet)
unfolding Bounded
Performed-Bounded (folds due e) = inl (ap (λ (u : BettingState). u.current_bet) e)
Performed-Bounded (checks due e) = inl (ap (λ (u : BettingState). u.current_bet) e)
Performed-Bounded (pays n fits pos low whole e) = inl (ap (λ (u : BettingState). u.current_bet) e)
Performed-Bounded {s} {p} (increases n fits more rights most least e) =
    let reached =
      ap (λ (u : BettingState). u.current_bet) e
      ∙ raise_bet-current_bet (put_player s (pay p n)) p.player_id (p.street_contribution + n) in
    inr (ground (arith, reached))

-- An accepted action of player `p` leaves the bet as it was, or raises it to a target within the limits.
pub apply_action-Bounded :
    (s : BettingState) (a : Action) {p : Player} {t : BettingState}
    → find_actor s a.player_id ≡ ok p
    → apply_action s a ≡ ok t
    → (t.current_bet ≡ s.current_bet)
      ⊎ ((s.current_bet < t.current_bet) × Bounded s p t.current_bet)
apply_action-Bounded s a {p} {t} found h =
    let r = apply_action-Accepted s a h in
    let same : r.actor ≡ p = ok-injective (sym r.is_actor ∙ found) in
    let kept = finish_or_advance-Kept _ r.actor.seat r.advanced in
    subst₂ (λ q target. (target ≡ s.current_bet) ⊎ ((s.current_bet < target) × Bounded s q target))
      same (sym kept.current_bet) (Performed-Bounded r.performed)

-- Pot limit, by its own rule: in a game that is not no-limit, a player whose contribution fits the bet
-- raises by no more than the pot would hold after the call.
pub pot_limit :
    (s : BettingState) (a : Action) {p : Player} {t : BettingState}
    → s.game ≡ plo4
    → find_actor s a.player_id ≡ ok p
    → p.street_contribution ≤ s.current_bet
    → apply_action s a ≡ ok t
    → t.current_bet ≤ s.current_bet + (pot_size s + amount_to_call s p)
unfolding Bounded maximum_target_of
pot_limit s a {p} {t} game found fits h =
    let bounded = apply_action-Bounded s a found h in ground (arith, bounded)
