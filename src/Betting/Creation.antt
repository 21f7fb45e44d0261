-- ===== src/Betting/Creation.antt =====
-- `createBettingState` of server/poker/betting.js gives a sound hand with everybody's chips in it.
use x_poker.Base.{
  ℕ, ◌-◌, ◌*◌, ◌≤◌, ◌≡◌, refl, sym, ap, subst, ◌∙◌, ◌≢◌, inl, inr, Bool, true, Option, none, some,
  List, [], ◌∷◌, map, arith, leb, leb→le, Bool-cases, Option-cases, ok, or_fail, >>=-eq-ok,
  assert-eq-ok, ok-injective, length, find?, modify_first, All, Distinct, All-of,
}
use x_poker.Betting.State.{
  preflop, betting, Player, Straddle, BettingState, straddle_needs_three, straddle_too_small,
  straddle_wrong_seat, straddle_not_covered, type_error, active,
}
use x_poker.Betting.Clockwise.{next_seat}
use x_poker.Betting.Chips.{post_forced_bet}
use x_poker.Betting.Create.{Setup, sit, anyone, at_seat, force_bet, same_seat, post_straddle}
use x_poker.Betting.Bankroll.{bankroll}
use x_poker.Betting.Soundness.{Fits, Fits-mono, same_ids, same_seats}
use x_poker.Betting.Forced.{force_bet-eq-ok, force_bet-bankrolls, force_bet-Fits, force_bet-others}
use x_poker.Betting.Blinds.{All-seats, seats-All, next_seat_moves, next_seat_third}
use x_poker.Betting.Opening.{IsPosted}
use x_poker.Betting.Setups.{length-map, IsSeated}

All-modify_first_fun {ℓ κ} :
    {A : Type ℓ} (P : A → Type κ) (test : A → Bool) (f : A → A) (xs : List A)
    → ((x : A) → P x → P (f x))
    → All P xs
    → All P (modify_first test f xs)
All-modify_first_fun P test f [] keep a = tt
All-modify_first_fun P test f (x ∷ xs) keep a = elim (Bool-cases (test x)) [
  | inl hit ↦ rw hit (keep x a.0, a.1)
  | inr miss ↦ rw miss (a.0, All-modify_first_fun P test f xs keep a.1)
]

post_forced_bet-active :
    (amount : ℕ) (p : Player) → active p ≡ true → active (post_forced_bet amount p) ≡ true
unfolding post_forced_bet
post_forced_bet-active amount p h = h

-- Nothing in front at a seat.
abbrev pub Free : ℕ → List Player → Type 0
Free seat ps = All (λ p. p.seat ≡ seat → p.street_contribution ≡ 0) ps

-- A table where bets of at most `most` have been forced.
pub record Forced (c : Setup) (most : ℕ) (ps : List Player) : Type 0 where
  pub fits : All (Fits most) ps
  pub bought_in : map bankroll ps ≡ map bankroll (map sit c.players)
  pub live : All (λ p. active p ≡ true) ps

module _ (c : Setup) (most : ℕ) (ps : List Player) where
  pub force_bet-Forced :
      (seat amount : ℕ) {qs : List Player}
      → amount ≤ most
      → Free seat ps
      → Forced c most ps
      → force_bet seat amount ps ≡ ok qs
      → Forced c most qs
  force_bet-Forced seat amount {qs} le free v h =
      let e = force_bet-eq-ok seat amount ps h in
      record {
        fits = subst (All (Fits most)) (sym e) (force_bet-Fits seat amount most ps le v.fits free);
        bought_in = force_bet-bankrolls seat amount ps h ∙ v.bought_in;
        live = subst (All (λ p. active p ≡ true)) (sym e) (
            All-modify_first_fun (λ p. active p ≡ true) (at_seat seat) (post_forced_bet amount) ps
              (post_forced_bet-active amount) v.live);
      }

  pub force_bet-Free :
      (seat other amount : ℕ) {qs : List Player}
      → seat ≢ other
      → Free other ps
      → force_bet seat amount ps ≡ ok qs
      → Free other qs
  force_bet-Free seat other amount ne free h =
      subst (Free other) (sym (force_bet-eq-ok seat amount ps h))
        (force_bet-others seat other amount ps ne free)

  Forced-more : (more : ℕ) → most ≤ more → Forced c most ps → Forced c more ps
  Forced-more more le v = record {
    fits = Fits-mono ps le v.fits;
    bought_in = v.bought_in;
    live = v.live;
  }

pub Forced-IsPosted :
    (c : Setup) (before : List Player) (s : BettingState)
    → IsSeated c before
    → Forced c s.current_bet s.players
    → s.acted ≡ []
    → IsPosted s
Forced-IsPosted c before s v f fresh =
    let same = f.bought_in ∙ sym v.bought_in in
    record {
      fits = f.fits;
      one_id = subst Distinct (sym (same_ids before s.players same)) v.one_id;
      one_seat = subst Distinct (sym (same_seats before s.players same)) v.one_seat;
      fresh = fresh;
    }

-- A live straddle that is accepted.
record Straddled (s : BettingState) (st : Straddle) (r : BettingState × ℕ) : Type 0 where
  three : 3 ≤ length s.players
  twice : s.big_blind * 2 ≤ st.amount
  next : next_seat s.players s.big_blind_seat active ≡ some st.seat
  players : List Player
  posted : force_bet st.seat st.amount s.players ≡ ok players
  result : r ≡ (
    record s {
      players = players;
      straddle = some st;
      current_bet = st.amount;
      last_full_raise_size = st.amount - s.big_blind;
    },
    st.seat,
  )

post_straddle-Straddled :
    (s : BettingState) (st : Straddle) {r : BettingState × ℕ}
    → post_straddle s (some st) ≡ ok r
    → Straddled s st r
unfolding post_straddle same_seat
post_straddle-Straddled s st {r} h =
    let expected = next_seat s.players s.big_blind_seat active in
    let (e₀, h₀) = assert-eq-ok (leb 3 (length s.players)) straddle_needs_three _ h in
    let (e₁, h₁) = assert-eq-ok (leb (s.big_blind * 2) st.amount) straddle_too_small _ h₀ in
    let (e₂, h₂) = assert-eq-ok (same_seat expected st.seat) straddle_wrong_seat _ h₁ in
    let (p, found, h₃) = >>=-eq-ok (or_fail (find? (at_seat st.seat) s.players) type_error) _ h₂ in
    let (e₃, h₄) = assert-eq-ok (leb st.amount p.stack) straddle_not_covered _ h₃ in
    let (players, posted, h₅) = >>=-eq-ok (force_bet st.seat st.amount s.players) _ h₄ in
    record {
      three = leb→le _ _ e₀;
      twice = leb→le _ _ e₁;
      next = elim (Option-cases expected) [
        | inl e ↦ ground (arith, e)
        | inr (seat, e) ↦ ground (arith, e)
      ];
      players = players;
      posted = posted;
      result = sym (ok-injective h₅);
    }

-- What the table looks like once the forced bets are in.
pub record IsOpen (c : Setup) (s : BettingState) : Type 0 where
  pub forced : Forced c s.current_bet s.players
  pub fresh : s.acted ≡ []
  pub running : s.status ≡ betting
  pub start : s.phase ≡ preflop
  pub bare : s.board ≡ []

module _ (c : Setup) (before : List Player) (seated : IsSeated c before) (s : BettingState) where
  pub post_straddle-IsOpen :
      (o : Option Straddle) {r : BettingState × ℕ}
      → s.current_bet ≡ s.big_blind
      → s.small_blind_seat ≤ 8
      → s.small_blind_seat ≢ s.big_blind_seat
      → s.big_blind_seat ≤ 8
      → next_seat before s.small_blind_seat anyone ≡ some s.big_blind_seat
      → ((seat : ℕ) → s.small_blind_seat ≢ seat → s.big_blind_seat ≢ seat → Free seat s.players)
      → IsOpen c s
      → post_straddle s o ≡ ok r
      → IsOpen c r.0
  unfolding post_straddle
  post_straddle-IsOpen none opening small ne big order free v h =
      subst (λ (r : BettingState × ℕ). IsOpen c r.0) (ok-injective h) v
  post_straddle-IsOpen (some st) opening small ne big order free v h =
      let w = post_straddle-Straddled s st h in
      let same = same_seats before s.players (v.forced.bought_in ∙ sym seated.bought_in) in
      let table =
        seats-All (λ k. k ≤ 8) s.players
          (subst (All (λ k. k ≤ 8)) (sym same) (All-seats (λ k. k ≤ 8) before seated.table)) in
      let one_seat = subst Distinct (sym same) seated.one_seat in
      let three = ap length same in
      let count = length-map (λ (p : Player). p.seat) s.players in
      let third =
        next_seat_third s.small_blind_seat s.big_blind_seat before s.players anyone active small big
          ne seated.table same (All-of before (λ p. refl)) v.forced.live seated.one_seat
          (omega (arith, w.three, count, three)) order w.next in
      let moved =
        next_seat_moves s.big_blind_seat s.players active big table v.forced.live one_seat
          (omega (arith, w.three, count)) w.next in
      let le : s.current_bet ≤ st.amount = omega (arith, opening, w.twice) in
      let more = Forced-more c s.current_bet s.players st.amount le v.forced in
      subst (λ (r : BettingState × ℕ). IsOpen c r.0) (sym w.result)
        (record {
          forced =
              force_bet-Forced c st.amount s.players st.seat st.amount (omega arith)
                (free st.seat (λ e. third (sym e)) (λ e. moved (sym e))) more w.posted;
          fresh = v.fresh;
          running = v.running;
          start = v.start;
          bare = v.bare;
        })
