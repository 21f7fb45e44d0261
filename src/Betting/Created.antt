-- ===== src/Betting/Created.antt =====
-- What the checks and the forced bets of `createBettingState`, server/poker/betting.js, leave on the table.
use x_poker.Base.{
  ℕ, ◌≤◌, ◌<◌, ◌≡◌, refl, sym, ap, subst, ◌∙◌, ◌≢◌, inl, inr, true, Option, none, some, List, [],
  ◌∷◌, map, arith, ltb, ◌==◌, if◌then◌else◌, Bool-cases, ok, or_fail, >>=-eq-ok, ok-injective,
  or_fail-eq-ok, length, all, any, All, Distinct, All-of, All-map,
}
use x_poker.Betting.State.{
  Player, Straddle, BettingState, type_error, betting≢awaiting_deal, betting≢showdown,
}
use x_poker.Betting.Clockwise.{next_seat}
use x_poker.Betting.Create.{
  Seating, Setup, sit, anyone, force_bet, initial_state, post_straddle, open_at, open_action,
  ante_up, deal_in,
}
use x_poker.Betting.Outcome.{finish_or_advance-Kept}
use x_poker.Betting.Board.{board_size, IsDealt, finish_or_advance-expected}
use x_poker.Betting.Blinds.{next_seat_moves, next_seat_on_table}
use x_poker.Betting.Setups.{IsValid, IsSeated, ante_up-IsSeated}
use x_poker.Betting.Creation.{
  Free, Forced, force_bet-Forced, force_bet-Free, IsOpen, post_straddle-IsOpen,
}

pub open_at-IsDealt :
    (c : Setup) (s : BettingState) (o : Option ℕ) {t : BettingState}
    → IsOpen c s
    → open_at s o ≡ ok t
    → IsDealt t
open_at-IsDealt c s none {t} v h =
    let kept = finish_or_advance-Kept s s.big_blind_seat h in
    let (expected, shown) = finish_or_advance-expected s s.big_blind_seat v.running h in
    let empty : t.board ≡ [] = kept.board ∙ v.bare in
    record {
      size = ap length empty ∙ ap board_size (sym (kept.phase ∙ v.start));
      valid = ap (all (λ card. ltb card 52)) empty;
      distinct = subst Distinct (sym empty) tt;
      expected = expected;
      shown = shown;
    }
open_at-IsDealt c s (some seat) v h = subst IsDealt (ok-injective h) (record {
  size = ap length v.bare ∙ ap board_size (sym v.start);
  valid = ap (all (λ card. ltb card 52)) v.bare;
  distinct = subst Distinct (sym v.bare) tt;
  expected = λ e. absurd (betting≢awaiting_deal (sym v.running ∙ e));
  shown = λ e. absurd (betting≢showdown (sym v.running ∙ e));
})

-- The seat of the small blind.
abbrev pub small_seat_of : Setup → List Player → Option ℕ
small_seat_of c players =
    if length c.players == 2 then some c.button_seat else next_seat players c.button_seat anyone

pub button_on_table :
    (k : ℕ) (ps : List Seating)
    → All (λ (p : Seating). (0 < p.stack) × (p.seat ≤ 8)) ps
    → any (λ (p : Seating). p.seat == k) ps ≡ true
    → k ≤ 8
button_on_table k [] a h = cc
button_on_table k (p ∷ ps) a h = ground (arith, a.0.1, button_on_table k ps a.1)

small_on_table :
    (c : Setup) (ps : List Player) {seat : ℕ}
    → IsValid c
    → IsSeated c ps
    → small_seat_of c ps ≡ some seat
    → seat ≤ 8
small_on_table c ps {seat} v w h = elim (Bool-cases (length c.players == 2)) [
  | inl two ↦
      let same : c.button_seat ≡ seat = ground (arith, two) in
      subst (λ k. k ≤ 8) same (button_on_table c.button_seat c.players v.seated v.button)
  | inr ring ↦ next_seat_on_table c.button_seat ps anyone w.table (ground (arith, ring))
]

-- The hand as the checks and the forced bets leave it, and the step that opens the action.
pub record Opened (c : Setup) (t : BettingState) : Type 0 where
  pub table : BettingState
  pub last_forced : ℕ
  pub before : List Player
  pub seated : IsSeated c before
  pub ready : IsOpen c table
  pub opened : open_action table last_forced ≡ ok t
  pub low : table.small_blind_seat ≤ 8
  pub small : small_seat_of c before ≡ some table.small_blind_seat
  pub big : next_seat before table.small_blind_seat anyone ≡ some table.big_blind_seat

post_straddle-blinds :
    (s : BettingState) (o : Option Straddle) {r : BettingState × ℕ}
    → post_straddle s o ≡ ok r
    → (r.0.small_blind_seat ≡ s.small_blind_seat) × (r.0.big_blind_seat ≡ s.big_blind_seat)
unfolding post_straddle
post_straddle-blinds s none h = ground arith
post_straddle-blinds s (some st) h = ground arith

pub deal_in-Opened : (c : Setup) {t : BettingState} → IsValid c → deal_in c ≡ ok t → Opened c t
unfolding deal_in
deal_in-Opened c v h =
    let ps = ante_up c.ante (map sit c.players) in
    let w = ante_up-IsSeated c v in
    let (small, e₀, h₀) = >>=-eq-ok (or_fail (small_seat_of c ps) type_error) _ h in
    let (big, e₁, h₁) = >>=-eq-ok (or_fail (next_seat ps small anyone) type_error) _ h₀ in
    let (one, e₂, h₂) = >>=-eq-ok (force_bet small c.small_blind ps) _ h₁ in
    let (two, e₃, h₃) = >>=-eq-ok (force_bet big c.big_blind one) _ h₂ in
    let s = initial_state c two small big in
    let (r, e₄, h₄) = >>=-eq-ok (post_straddle s c.straddle) _ h₃ in
    let everyone = All-of ps (λ p. refl) in
    let found = or_fail-eq-ok (small_seat_of c ps) type_error e₀ in
    let next = or_fail-eq-ok (next_seat ps small anyone) type_error e₁ in
    let low = small_on_table c ps v w found in
    let moved =
      next_seat_moves small ps anyone low w.table everyone w.one_seat
        (omega (arith, v.enough, w.size)) next in
    let ne : small ≢ big = λ e. moved (sym e) in
    let free : (seat : ℕ) → Free seat ps = λ seat. All-map ps (λ p clear e. clear.0) w.clear in
    let clear : Forced c c.big_blind ps = record {
      fits = All-map ps (λ p clear. (omega arith, clear.1)) w.clear;
      bought_in = w.bought_in;
      live = w.live;
    } in
    let after_small =
      force_bet-Forced c c.big_blind ps small c.small_blind v.big (free small) clear e₂ in
    let big_free = force_bet-Free c c.big_blind ps small big c.small_blind ne (free big) e₂ in
    let after_big =
      force_bet-Forced c c.big_blind one big c.big_blind (omega arith) big_free after_small e₃ in
    let ready =
      post_straddle-IsOpen c ps w s c.straddle refl low ne
        (next_seat_on_table small ps anyone w.table next) next
        (λ seat from_small from_big.
          force_bet-Free c c.big_blind one big seat c.big_blind from_big
            (force_bet-Free c c.big_blind ps small seat c.small_blind from_small (free seat) e₂) e₃)
        (record { forced = after_big; fresh = refl; running = refl; start = refl; bare = refl })
        e₄ in
    let (small_kept, big_kept) = post_straddle-blinds s c.straddle e₄ in
    record {
      table = r.0;
      last_forced = r.1;
      before = ps;
      seated = w;
      ready = ready;
      opened = h₄;
      low = subst (λ k. k ≤ 8) (sym small_kept) low;
      small = found ∙ ap some (sym small_kept);
      big = ap (λ k. next_seat ps k anyone) small_kept ∙ next ∙ ap some (sym big_kept);
    }
