-- ===== src/Betting/Started.antt =====
-- The hand that `createBettingState` of server/poker/betting.js returns.
use x_poker.Base.{
  ℕ, ◌≤◌, ◌≡◌, refl, sym, ap, subst, subst₂, ◌∙◌, ◌≢◌, ◌⊎◌, inl, inr, true, Option, none, some,
  List, [], ◌∷◌, map, arith, ◌==◌, ==_iff, Bool-cases, ok, >>=-eq-ok, length, All, includes,
  All-map, any→includes-map,
}
use x_poker.Betting.State.{preflop, Player, BettingState}
use x_poker.Betting.Clockwise.{next_seat}
use x_poker.Betting.Advance.{next_pending_actor, set_actor, finish_or_advance}
use x_poker.Betting.Create.{
  Seating, Setup, check_setup, sit, anyone, first_to_act, open_at, open_action,
  create_betting_state,
}
use x_poker.Betting.Turns.{next_seat-some}
use x_poker.Betting.Nearest.{clockwise_distance, next_seat-least}
use x_poker.Betting.Outcome.{finish_or_advance-Kept}
use x_poker.Betting.Bankroll.{bankroll, bankrolls}
use x_poker.Betting.Soundness.{IsSound, same_seats}
use x_poker.Betting.Board.{IsDealt}
use x_poker.Betting.Blinds.{All-seats}
use x_poker.Betting.Opening.{open_action-IsSound}
use x_poker.Betting.Setups.{IsValid, check_setup-IsValid, IsSeated}
use x_poker.Betting.Creation.{Forced-IsPosted}
use x_poker.Betting.Created.{open_at-IsDealt, small_seat_of, button_on_table, deal_in-Opened}

set_actor-blinds :
    (s : BettingState) (o : Option ℕ) {t : BettingState}
    → set_actor s o ≡ ok t
    → (t.small_blind_seat ≡ s.small_blind_seat) × (t.big_blind_seat ≡ s.big_blind_seat)
set_actor-blinds s none h = cc
set_actor-blinds s (some seat) h = ground arith

finish_or_advance-blinds :
    (s : BettingState) (seat : ℕ) {t : BettingState}
    → finish_or_advance s seat ≡ ok t
    → (t.small_blind_seat ≡ s.small_blind_seat) × (t.big_blind_seat ≡ s.big_blind_seat)
unfolding finish_or_advance
finish_or_advance-blinds s seat h = ground (arith, set_actor-blinds s (next_pending_actor s seat))

open_at-blinds :
    (s : BettingState) (o : Option ℕ) {t : BettingState}
    → open_at s o ≡ ok t
    → (t.small_blind_seat ≡ s.small_blind_seat)
      × (t.big_blind_seat ≡ s.big_blind_seat)
      × (t.acted ≡ s.acted)
      × (t.board ≡ s.board)
      × (t.phase ≡ s.phase)
open_at-blinds s none h =
    let kept = finish_or_advance-Kept s s.big_blind_seat h in
    let (small, big) = finish_or_advance-blinds s s.big_blind_seat h in
    (small, big, kept.acted, kept.board, kept.phase)
open_at-blinds s (some seat) h = ground arith

-- A seat is the next one that is taken.
abbrev pub IsNext : ℕ → ℕ → List Seating → Type 0
IsNext after_seat seat ps =
    (includes (map (λ (p : Seating). p.seat) ps) seat ≡ true)
    × All
        (λ (q : Seating). clockwise_distance after_seat seat ≤ clockwise_distance after_seat q.seat)
        ps

seating_seats :
    (ps : List Seating)
    → map (λ (p : Player). p.seat) (map sit ps) ≡ map (λ (p : Seating). p.seat) ps
seating_seats [] = refl
seating_seats (p ∷ ps) = ap (◌∷◌ p.seat) (seating_seats ps)

All-seating {κ} :
    (P : ℕ → Type κ) (ps : List Seating)
    → All P (map (λ (p : Seating). p.seat) ps)
    → All (λ (p : Seating). P p.seat) ps
All-seating P [] a = tt
All-seating P (p ∷ ps) a = (a.0, All-seating P ps a.1)

next_seat-IsNext :
    (c : Setup) (before : List Player) (after_seat : ℕ) {seat : ℕ}
    → IsSeated c before
    → after_seat ≤ 8
    → next_seat before after_seat anyone ≡ some seat
    → IsNext after_seat seat c.players
next_seat-IsNext c before after_seat {seat} w here h =
    let least = next_seat-least after_seat here before anyone w.table h in
    let near = All-map before (λ q le. le refl) least in
    let same = same_seats (map sit c.players) before w.bought_in ∙ seating_seats c.players in
    (
      subst (λ ks. includes ks seat ≡ true) same
          (any→includes-map (λ (p : Player). p.seat) anyone seat before
            (next_seat-some before after_seat anyone h)),
      All-seating (λ k. clockwise_distance after_seat seat ≤ clockwise_distance after_seat k)
          c.players
          (subst (All (λ k. clockwise_distance after_seat seat ≤ clockwise_distance after_seat k))
            same
            (All-seats (λ k. clockwise_distance after_seat seat ≤ clockwise_distance after_seat k)
              before near)),
    )

-- A hand before its first action.
pub record IsNew (c : Setup) (t : BettingState) : Type 0 where
  pub valid : IsValid c
  pub sound : IsSound t
  pub start : t.phase ≡ preflop
  pub bare : t.board ≡ []
  pub fresh : t.acted ≡ []
  pub chips : bankrolls t ≡ map bankroll (map sit c.players)
  pub small_blind :
      ((length c.players ≡ 2) × (t.small_blind_seat ≡ c.button_seat))
      ⊎ ((length c.players ≢ 2) × IsNext c.button_seat t.small_blind_seat c.players)
  pub big_blind : IsNext t.small_blind_seat t.big_blind_seat c.players
  pub dealt : IsDealt t

small_seat-IsNext :
    (c : Setup) (before : List Player) {seat : ℕ}
    → IsValid c
    → IsSeated c before
    → small_seat_of c before ≡ some seat
    → ((length c.players ≡ 2) × (seat ≡ c.button_seat))
      ⊎ ((length c.players ≢ 2) × IsNext c.button_seat seat c.players)
small_seat-IsNext c before v w h = elim (Bool-cases (length c.players == 2)) [
  | inl two ↦ inl ((==_iff _ _).0 two, ground (arith, two))
  | inr ring ↦ inr (
    ground (arith, ring),
    next_seat-IsNext c before c.button_seat w
        (button_on_table c.button_seat c.players v.seated v.button) (ground (arith, ring)),
  )
]

-- The hand that `createBettingState` returns is sound and before the flop, with no card on the board and
-- nobody having acted, with every player's whole stack still theirs, behind or in the pot. The small blind
-- is at the button if two play, and else at the next seat clockwise that is taken; the big blind is at the
-- next one that is taken after it. Its setup passed the checks.
pub create_betting_state-IsNew :
    (c : Setup) {t : BettingState} → create_betting_state c ≡ ok t → IsNew c t
unfolding create_betting_state open_action
create_betting_state-IsNew c {t} h =
    let (_, checked, dealt) = >>=-eq-ok (check_setup c) _ h in
    let v = check_setup-IsValid c checked in
    let o = deal_in-Opened c v dealt in
    let posted = Forced-IsPosted c o.before o.table o.seated o.ready.forced o.ready.fresh in
    let (sound, same) = open_action-IsSound o.table o.last_forced posted o.opened in
    let first = first_to_act o.table o.last_forced in
    let (small, big, acted, board, phase) = open_at-blinds o.table first o.opened in
    record {
      valid = v;
      sound = sound;
      start = phase ∙ o.ready.start;
      bare = board ∙ o.ready.bare;
      fresh = acted ∙ o.ready.fresh;
      chips = ap (map bankroll) same ∙ o.ready.forced.bought_in;
      small_blind = small_seat-IsNext c o.before v o.seated (o.small ∙ ap some (sym small));
      big_blind =
          subst₂ (λ low high. IsNext low high c.players) (sym small) (sym big)
            (next_seat-IsNext c o.before o.table.small_blind_seat o.seated o.low o.big);
      dealt = open_at-IsDealt c o.table first o.ready o.opened;
    }
