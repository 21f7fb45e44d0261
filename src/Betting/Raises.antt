-- ===== src/Betting/Raises.antt =====
-- The size of bets and raises in server/poker/betting.js, and whose betting is reopened by them.
-- A bet or raise to `target` that reopens the betting: the first bet of a street from the big blind up,
-- and later an increase of at least the last full one.
use x_poker.Base.{
  ℕ, ◌+◌, ◌-◌, ◌<◌, ◌≡◌, refl, sym, subst, subst₃, ◌∙◌, inl, inr, Bool, true, false, ◌&&◌, List, [],
  ◌∷◌, ◌++◌, arith, ltb, leb, ◌==◌, if◌then◌else◌, Bool-cases, ok, ok-injective, includes,
}
use x_poker.Betting.State.{Player, BettingState, add_acted}
use x_poker.Betting.Chips.{pay}
use x_poker.Betting.Actions.{
  Action, describe_actions, find_actor, put_player, mark_acted, raise_bet, apply_action,
}
use x_poker.Betting.Outcome.{
  Performed, folds, checks, pays, increases, Kept, finish_or_advance-Kept, apply_action-Accepted,
}

unfoldable pub is_full_raise : BettingState → ℕ → Bool
is_full_raise s target =
    ltb s.current_bet target
    && (if s.current_bet == 0
        then leb s.big_blind target
        else leb (s.current_bet + s.last_full_raise_size) target)

includes-append : (acted : List ℕ) (id : ℕ) → includes (acted ++ id ∷ []) id ≡ true
includes-append [] id = ground arith
includes-append (x ∷ xs) id = ground (arith, includes-append xs id)

includes-append_left :
    (acted : List ℕ) (id q : ℕ) → includes acted q ≡ true → includes (acted ++ id ∷ []) q ≡ true
includes-append_left [] id q h = cc
includes-append_left (x ∷ xs) id q h = ground (arith, includes-append_left xs id q)

pub includes-add_acted_self : (acted : List ℕ) (id : ℕ) → includes (add_acted acted id) id ≡ true
includes-add_acted_self acted id = ground (arith, includes-append acted id)

pub includes-add_acted :
    (acted : List ℕ) (id q : ℕ) → includes acted q ≡ true → includes (add_acted acted id) q ≡ true
includes-add_acted acted id q h = ground (arith, includes-append_left acted id q)

-- What an action does to the betting rights: a full raise leaves them to all but the raiser, and sets
-- the size of the next one; anything else reopens nothing and keeps that size.
abbrev pub RightsBy : Bool → BettingState → Player → List ℕ → ℕ → ℕ → Type 0
RightsBy true s p acted target size = (acted ≡ p.player_id ∷ []) × (size ≡ target - s.current_bet)
RightsBy false s p acted target size =
    (includes acted p.player_id ≡ true)
    × ((q : ℕ) → includes s.acted q ≡ true → includes acted q ≡ true)
    × (size ≡ s.last_full_raise_size)

abbrev pub RightsAt : BettingState → Player → List ℕ → ℕ → ℕ → Type 0
RightsAt s p acted target size = RightsBy (is_full_raise s target) s p acted target size

abbrev pub Rights : BettingState → Player → BettingState → Type 0
Rights s p t = RightsAt s p t.acted t.current_bet t.last_full_raise_size

not_full : (s : BettingState) → is_full_raise s s.current_bet ≡ false
unfolding is_full_raise
not_full s = ground arith

marked-Rights :
    (s : BettingState) (p : Player) (players : List Player)
    → Rights s p (mark_acted (record s { players = players }) p.player_id)
marked-Rights s p players =
    rw (not_full s)
      (includes-add_acted_self s.acted p.player_id, includes-add_acted s.acted p.player_id, refl)

raise_bet-full :
    (s : BettingState) (id target : ℕ)
    → is_full_raise s target ≡ true
    → raise_bet s id target ≡ record s {
      current_bet = target;
      last_full_raise_size = target - s.current_bet;
      acted = id ∷ [];
    }
unfolding is_full_raise raise_bet
raise_bet-full s id target full = ground arith

raise_bet-short :
    (s : BettingState) (id target : ℕ)
    → s.current_bet < target
    → is_full_raise s target ≡ false
    → raise_bet s id target ≡ record s { current_bet = target; acted = add_acted s.acted id }
unfolding is_full_raise raise_bet
raise_bet-short s id target more short = ground arith

raised-Rights :
    (s : BettingState) (p : Player) (players : List Player) (target : ℕ)
    → s.current_bet < target
    → Rights s p (raise_bet (record s { players = players }) p.player_id target)
unfolding is_full_raise
raised-Rights s p players target more =
    let u = record s { players = players } in
    elim (Bool-cases (is_full_raise s target)) [
      | inl full ↦
          subst (Rights s p) (sym (raise_bet-full u p.player_id target full)) (rw full (refl, refl))
      | inr short ↦ subst (Rights s p) (sym (raise_bet-short u p.player_id target more short)) (
          rw short (
            includes-add_acted_self s.acted p.player_id,
            includes-add_acted s.acted p.player_id,
            refl,
          ))
    ]

Performed-Rights :
    {s : BettingState} {p : Player} {after : BettingState} → Performed s p after → Rights s p after
Performed-Rights {s} {p} (folds due e) =
    subst (Rights s p) (sym e)
      (marked-Rights s p (put_player s (record p { folded = true })).players)
Performed-Rights {s} {p} (checks due e) = subst (Rights s p) (sym e) (marked-Rights s p s.players)
Performed-Rights {s} {p} (pays n fits pos low whole e) =
    subst (Rights s p) (sym e) (marked-Rights s p (put_player s (pay p n)).players)
Performed-Rights {s} {p} (increases n fits more rights most least e) =
    subst (Rights s p) (sym e)
      (raised-Rights s p (put_player s (pay p n)).players (p.street_contribution + n) more)

Kept-Rights :
    (s : BettingState) (p : Player) {u t : BettingState} → Kept u t → Rights s p u → Rights s p t
Kept-Rights s p kept r =
    subst₃ (RightsAt s p) (sym kept.acted) (sym kept.current_bet) (sym kept.last_full_raise_size) r

-- After an accepted action of player `p`: if it was a full bet or raise, only `p` counts as having acted
-- and its size is the next minimum; if it was not, whoever had acted still counts as having acted, `p`
-- too, and the minimum is as before.
pub apply_action-Rights :
    (s : BettingState) (a : Action) {p : Player} {t : BettingState}
    → find_actor s a.player_id ≡ ok p
    → apply_action s a ≡ ok t
    → Rights s p t
apply_action-Rights s a {p} {t} found h =
    let r = apply_action-Accepted s a h in
    let same : r.actor ≡ p = ok-injective (sym r.is_actor ∙ found) in
    subst (λ q. Rights s q t) same
      (Kept-Rights s r.actor (finish_or_advance-Kept _ r.actor.seat r.advanced)
        (Performed-Rights r.performed))

-- Whoever counts as having acted may neither bet nor raise.
pub acted-no_increase :
    (s : BettingState) (p : Player)
    → includes s.acted p.player_id ≡ true
    → ((describe_actions s p).can_bet ≡ false) × ((describe_actions s p).can_raise ≡ false)
unfolding describe_actions
acted-no_increase s p h = (ground arith, ground arith)
