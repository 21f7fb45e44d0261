-- ===== src/Betting/Board.antt =====
-- The board of server/poker/betting.js: how many cards each street shows, and that none comes twice.
use x_poker.Base.{
  ℕ, ◌+◌, ◌≡◌, refl, sym, ap, subst, ◌∙◌, Bool, true, some, List, [], ◌∷◌, ◌++◌, arith, ltb, ok,
  length, all, length-append, Distinct,
}
use x_poker.Betting.State.{
  Street, preflop, flop, turn, river, betting, awaiting_deal, showdown, Player, BettingState,
  next_street,
}
use x_poker.Betting.Chips.{pay}
use x_poker.Betting.Advance.{finish_or_advance}
use x_poker.Betting.Actions.{Action, put_player, raise_bet, apply_action}
use x_poker.Betting.Deal.{open_street, deal_street, deal_remaining_board}
use x_poker.Betting.Outcome.{
  Performed, folds, checks, pays, increases, finish_or_advance-Kept, apply_action-Accepted,
}
use x_poker.Betting.Streets.{deal_street-eq-ok, deal_remaining_board-eq-ok}

abbrev pub board_size : Street → ℕ
board_size preflop = 0
board_size flop = 3
board_size turn = 4
board_size river = 5

pub record IsDealt (s : BettingState) : Type 0 where
  pub size : length s.board ≡ board_size s.phase
  pub valid : all (λ card. ltb card 52) s.board ≡ true
  pub distinct : Distinct s.board
  pub expected : s.status ≡ awaiting_deal → s.pending_street ≡ next_street s.phase
  pub shown : s.status ≡ showdown → s.phase ≡ river

all-append :
    (f : ℕ → Bool) (xs ys : List ℕ) → all f xs ≡ true → all f ys ≡ true → all f (xs ++ ys) ≡ true
all-append f [] ys h k = k
all-append f (x ∷ xs) ys h k = ground (arith, all-append f xs ys)

-- What an action leaves of the hand's progress.
pub Performed-board :
    {s : BettingState} {p : Player} {after : BettingState}
    → Performed s p after
    → (after.board ≡ s.board) × (after.phase ≡ s.phase) × (after.status ≡ s.status)
unfolding raise_bet
Performed-board (folds due e) = ground arith
Performed-board (checks due e) = ground arith
Performed-board (pays n fits pos low whole e) = ground arith
Performed-board {s} {p} (increases n fits more rights most least e) =
    let u = put_player s (pay p n) in
    let target = p.street_contribution + n in
    (
      ap (λ (u : BettingState). u.board) e ∙ ground arith,
      ap (λ (u : BettingState). u.phase) e ∙ ground arith,
      ap (λ (u : BettingState). u.status) e ∙ ground arith,
    )

pub finish_or_advance-expected :
    (s : BettingState) (seat : ℕ) {t : BettingState}
    → s.status ≡ betting
    → finish_or_advance s seat ≡ ok t
    → (t.status ≡ awaiting_deal → t.pending_street ≡ next_street t.phase)
      × (t.status ≡ showdown → t.phase ≡ river)
unfolding finish_or_advance
finish_or_advance-expected s seat running h = (λ e. ground arith, λ e. ground arith)

-- Actions deal no card.
pub apply_action-IsDealt :
    (s : BettingState) (a : Action) {t : BettingState}
    → IsDealt s
    → apply_action s a ≡ ok t
    → IsDealt t
apply_action-IsDealt s a {t} d h =
    let r = apply_action-Accepted s a h in
    let kept = finish_or_advance-Kept _ r.actor.seat r.advanced in
    let (board, phase, status) = Performed-board r.performed in
    let (expected, shown) =
      finish_or_advance-expected _ r.actor.seat (status ∙ r.running) r.advanced in
    let same : t.board ≡ s.board = kept.board ∙ board in
    record {
      size = ap length same ∙ d.size ∙ ap board_size (sym (kept.phase ∙ phase));
      valid = ap (all (λ card. ltb card 52)) same ∙ d.valid;
      distinct = subst Distinct (sym same) d.distinct;
      expected = expected;
      shown = shown;
    }

pub deal_street-IsDealt :
    (s : BettingState) (version : ℕ) (street : Street) (cards : List ℕ) {t : BettingState}
    → IsDealt s
    → deal_street s version street cards ≡ ok t
    → IsDealt t
unfolding open_street
deal_street-IsDealt s version street cards d h =
    let (waiting, pending, count, valid, distinct, e) =
      deal_street-eq-ok s version street cards h in
    let next : next_street s.phase ≡ some street = sym (d.expected waiting) ∙ pending in
    subst IsDealt (sym e) (record {
      size = length-append s.board cards ∙ ground (arith, d.size, count, next);
      valid = all-append (λ card. ltb card 52) s.board cards d.valid valid;
      distinct = distinct;
      expected = λ h. ground arith;
      shown = λ h. ground arith;
    })

pub deal_remaining_board-IsDealt :
    (s : BettingState) (version : ℕ) (cards : List ℕ) {t : BettingState}
    → IsDealt s
    → deal_remaining_board s version cards ≡ ok t
    → IsDealt t
deal_remaining_board-IsDealt s version cards d h =
    let (waiting, count, valid, distinct, e) = deal_remaining_board-eq-ok s version cards h in
    subst IsDealt (sym e) (record {
      size = omega (arith, length-append s.board cards, count);
      valid = all-append (λ card. ltb card 52) s.board cards d.valid valid;
      distinct = distinct;
      expected = λ h. cc;
      shown = λ h. refl;
    })
