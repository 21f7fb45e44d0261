-- ===== src/Betting/Streets.antt =====
-- Dealing in server/poker/betting.js: a new street or a runout keeps the invariant, the chips and the
-- rules of the board.
use x_poker.Base.{
  ℕ, ◌+◌, ◌≡◌, refl, sym, ap, subst, ◌∙◌, true, Option, none, some, List, [], ◌∷◌, ◌++◌, map, arith,
  ltb, ◌==◌, ==_iff, ok, assert-eq-ok, ok-injective, some-injective, length, all, All,
  length-append, to_set, all_distinct, Distinct, all_distinct→Distinct, All-of, All-map,
}
use x_poker.Betting.State.{
  Street, river, awaiting_deal, awaiting_runout, showdown, Player, BettingState, version_conflict,
  not_awaiting_deal, unexpected_street, wrong_card_count, invalid_card, duplicate_card,
  not_awaiting_runout, is_awaiting_deal, is_awaiting_runout, actionable,
}
use x_poker.Betting.Clockwise.{next_seat}
use x_poker.Betting.Deal.{
  cards_of, expects, new_street, open_street, deal_street, deal_remaining_board,
}
use x_poker.Betting.Turns.{next_seat-some, seat_unique}
use x_poker.Betting.Bankroll.{bankroll, bankrolls}
use x_poker.Betting.Soundness.{Fits, IsSound, same_ids, same_seats}
use x_poker.Betting.Termination.{still_to_act}

new_street-bankrolls : (ps : List Player) → map bankroll (map new_street ps) ≡ map bankroll ps
new_street-bankrolls [] = refl
new_street-bankrolls (p ∷ ps) = ap (◌∷◌ (bankroll p)) (new_street-bankrolls ps)

new_street-Fits :
    (target : ℕ) (ps : List Player) → All (Fits target) ps → All (Fits 0) (map new_street ps)
new_street-Fits target [] a = tt
new_street-Fits target (p ∷ ps) a = ((omega arith, a.0.1), new_street-Fits target ps a.1)

-- Players who can act and have not acted wait for their turn.
pub opening_waits :
    (ps : List Player) (after_seat target : ℕ) (o : Option ℕ)
    → Distinct (map (λ (p : Player). p.seat) ps)
    → next_seat ps after_seat actionable ≡ o
    → All (λ p. o ≡ some p.seat → still_to_act target [] p ≡ true) ps
opening_waits ps after_seat target none d e = All-of ps (λ p h. ground arith)
opening_waits ps after_seat target (some seat) d e =
    All-map ps (λ p can h. let free = can (sym (some-injective h)) in ground (arith, free))
      (seat_unique ps actionable seat d (next_seat-some ps after_seat actionable e))

open_street-IsSound :
    (s : BettingState) (street : Street) (cards : List ℕ)
    → IsSound s
    → IsSound (open_street s street cards)
unfolding open_street
open_street-IsSound s street cards v =
    let same = new_street-bankrolls s.players in
    let seats =
      subst Distinct (sym (same_seats s.players (map new_street s.players) same)) v.one_seat in
    record {
      fits = new_street-Fits s.current_bet s.players v.fits;
      one_id = subst Distinct (sym (same_ids s.players (map new_street s.players) same)) v.one_id;
      one_seat = seats;
      waits = opening_waits (map new_street s.players) s.button_seat 0 _ seats refl;
    }

pub deal_street-eq-ok :
    (s : BettingState) (version : ℕ) (street : Street) (cards : List ℕ) {t : BettingState}
    → deal_street s version street cards ≡ ok t
    → (s.status ≡ awaiting_deal)
      × (s.pending_street ≡ some street)
      × (length cards ≡ cards_of street)
      × (all (λ card. ltb card 52) cards ≡ true)
      × Distinct (s.board ++ cards)
      × (t ≡ open_street s street cards)
unfolding deal_street
deal_street-eq-ok s version street cards {t} h =
    let (e₀, h₀) = assert-eq-ok (version == s.version) version_conflict _ h in
    let (e₁, h₁) = assert-eq-ok (is_awaiting_deal s.status) not_awaiting_deal _ h₀ in
    let (e₂, h₂) = assert-eq-ok (expects s.pending_street street) unexpected_street _ h₁ in
    let (e₃, h₃) = assert-eq-ok (length cards == cards_of street) wrong_card_count _ h₂ in
    let (e₄, h₄) = assert-eq-ok (all (λ card. ltb card 52) cards) invalid_card _ h₃ in
    let (e₅, h₅) =
      assert-eq-ok (all_distinct (s.board ++ cards)) duplicate_card
        (ok (open_street s street cards)) h₄ in
    (
      ground arith,
      ground arith,
      (==_iff _ _).0 e₃,
      e₄,
      all_distinct→Distinct _ e₅,
      sym (ok-injective h₅),
    )

pub deal_remaining_board-eq-ok :
    (s : BettingState) (version : ℕ) (cards : List ℕ) {t : BettingState}
    → deal_remaining_board s version cards ≡ ok t
    → (s.status ≡ awaiting_runout)
      × (length cards + length s.board ≡ 5)
      × (all (λ card. ltb card 52) cards ≡ true)
      × Distinct (s.board ++ cards)
      × (t ≡ record s {
        version = s.version + 1;
        board = s.board ++ cards;
        phase = river;
        status = showdown;
        action_seat = none;
      })
unfolding deal_remaining_board
deal_remaining_board-eq-ok s version cards {t} h =
    let (e₀, h₀) = assert-eq-ok (version == s.version) version_conflict _ h in
    let (e₁, h₁) = assert-eq-ok (is_awaiting_runout s.status) not_awaiting_runout _ h₀ in
    let (e₂, h₂) = assert-eq-ok (length cards + length s.board == 5) wrong_card_count _ h₁ in
    let (e₃, h₃) = assert-eq-ok (all (λ card. ltb card 52) cards) invalid_card _ h₂ in
    let (e₄, h₄) = assert-eq-ok (length (to_set (s.board ++ cards)) == 5) duplicate_card _ h₃ in
    let five = (==_iff _ _).0 e₂ in
    let size = length-append s.board cards in
    let whole : all_distinct (s.board ++ cards) ≡ true =
      (==_iff _ _).1 ((==_iff _ _).0 e₄ ∙ omega (arith, five, size)) in
    (ground arith, five, e₃, all_distinct→Distinct _ whole, sym (ok-injective h₄))

-- Dealing a street keeps the invariant and everybody's chips.
pub deal_street-IsSound :
    (s : BettingState) (version : ℕ) (street : Street) (cards : List ℕ) {t : BettingState}
    → IsSound s
    → deal_street s version street cards ≡ ok t
    → IsSound t × (bankrolls t ≡ bankrolls s)
unfolding open_street
deal_street-IsSound s version street cards v h =
    let e = (deal_street-eq-ok s version street cards h).5 in
    (
      subst IsSound (sym e) (open_street-IsSound s street cards v),
      ap bankrolls e ∙ new_street-bankrolls s.players,
    )

pub deal_remaining_board-IsSound :
    (s : BettingState) (version : ℕ) (cards : List ℕ) {t : BettingState}
    → IsSound s
    → deal_remaining_board s version cards ≡ ok t
    → IsSound t × (bankrolls t ≡ bankrolls s)
deal_remaining_board-IsSound s version cards v h =
    let e = (deal_remaining_board-eq-ok s version cards h).4 in
    (
      subst IsSound (sym e) (record {
        fits = v.fits;
        one_id = v.one_id;
        one_seat = v.one_seat;
        waits = All-of s.players (λ p none-some. ground arith);
      }),
      ap bankrolls e,
    )
