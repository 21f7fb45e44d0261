-- ===== src/Betting/Forced.antt =====
-- The forced bets of `createBettingState` in server/poker/betting.js: antes, blinds and the straddle keep
-- everybody's chips, and the blinds and the straddle are posted from three different seats.
use x_poker.Base.{
  ℕ, ◌≤◌, ◌≡◌, refl, sym, ap, ap₂, ◌∙◌, ◌≢◌, inl, inr, Bool, List, [], ◌∷◌, map, arith, ltb, ◌==◌,
  ==_iff, Bool-cases, ok, modify_first, All,
}
use x_poker.Betting.State.{Player}
use x_poker.Betting.Chips.{post_forced_bet, post_ante}
use x_poker.Betting.Create.{at_seat, force_bet, ante_up}
use x_poker.Betting.Bankroll.{bankroll}
use x_poker.Betting.Soundness.{Fits}

pub post_forced_bet-bankroll :
    (amount : ℕ) (p : Player) → bankroll (post_forced_bet amount p) ≡ bankroll p
unfolding post_forced_bet
post_forced_bet-bankroll amount p = ground arith

post_ante-bankroll : (amount : ℕ) (p : Player) → bankroll (post_ante amount p) ≡ bankroll p
unfolding post_ante
post_ante-bankroll amount p = ground arith

-- A write by a function that keeps what `g` shows.
map-modify_first_fun {ℓ κ} :
    {A : Type ℓ} {B : Type κ} (g : A → B) (f : A → A) (test : A → Bool) (xs : List A)
    → ((x : A) → g (f x) ≡ g x)
    → map g (modify_first test f xs) ≡ map g xs
map-modify_first_fun g f test [] keep = refl
map-modify_first_fun g f test (x ∷ xs) keep = elim (Bool-cases (test x)) [
  | inl hit ↦ rw (hit, keep x) refl
  | inr miss ↦ ground (arith, miss, map-modify_first_fun g f test xs keep)
]

pub force_bet-eq-ok :
    (seat amount : ℕ) (ps : List Player) {qs : List Player}
    → force_bet seat amount ps ≡ ok qs
    → qs ≡ modify_first (at_seat seat) (post_forced_bet amount) ps
unfolding force_bet
force_bet-eq-ok seat amount ps h = ground arith

pub force_bet-bankrolls :
    (seat amount : ℕ) (ps : List Player) {qs : List Player}
    → force_bet seat amount ps ≡ ok qs
    → map bankroll qs ≡ map bankroll ps
force_bet-bankrolls seat amount ps h =
    ap (map bankroll) (force_bet-eq-ok seat amount ps h)
    ∙ map-modify_first_fun bankroll (post_forced_bet amount) (at_seat seat) ps
        (post_forced_bet-bankroll amount)

map-ante_up :
    (ante : ℕ) (ps : List Player) → map bankroll (map (post_ante ante) ps) ≡ map bankroll ps
map-ante_up ante [] = refl
map-ante_up ante (p ∷ ps) = ap₂ ◌∷◌ (post_ante-bankroll ante p) (map-ante_up ante ps)

pub ante_up-bankrolls :
    (ante : ℕ) (ps : List Player) → map bankroll (ante_up ante ps) ≡ map bankroll ps
ante_up-bankrolls ante ps = ground (arith, map-ante_up ante ps)

-- Who has nothing in front, and whose all-in mark is right.
abbrev pub Clear : Player → Type 0
Clear p = (p.street_contribution ≡ 0) × (p.all_in ≡ (p.stack == 0))

pub ante_up-Clear : (ante : ℕ) (ps : List Player) → All Clear ps → All Clear (ante_up ante ps)
unfolding post_ante
ante_up-Clear ante [] a = ground arith
ante_up-Clear ante (p ∷ ps) a =
    let rest = ante_up-Clear ante ps a.1 in
    elim (Bool-cases (ltb 0 ante)) [
      | inl some_ante ↦ ground (arith, some_ante, a.0, rest)
      | inr no_ante ↦ ground (arith, no_ante, a)
    ]

-- A bet from a seat where nothing is in front yet.
post_forced_bet-Fits :
    (amount most : ℕ) (p : Player)
    → p.street_contribution ≡ 0
    → amount ≤ most
    → Fits most (post_forced_bet amount p)
unfolding post_forced_bet
post_forced_bet-Fits amount most p free le = ground arith

pub force_bet-Fits :
    (seat amount most : ℕ) (ps : List Player)
    → amount ≤ most
    → All (Fits most) ps
    → All (λ p. p.seat ≡ seat → p.street_contribution ≡ 0) ps
    → All (Fits most) (modify_first (at_seat seat) (post_forced_bet amount) ps)
force_bet-Fits seat amount most [] le a free = tt
force_bet-Fits seat amount most (p ∷ ps) le a free = elim (Bool-cases (at_seat seat p)) [
  | inl hit ↦ rw hit (post_forced_bet-Fits amount most p (free.0 ((==_iff _ _).0 hit)) le, a.1)
  | inr miss ↦ rw miss (a.0, force_bet-Fits seat amount most ps le a.1 free.1)
]

-- The other seats are as they were.
pub force_bet-others :
    (seat other amount : ℕ) (ps : List Player)
    → seat ≢ other
    → All (λ p. p.seat ≡ other → p.street_contribution ≡ 0) ps
    → All
        (λ p. p.seat ≡ other → p.street_contribution ≡ 0)
        (modify_first (at_seat seat) (post_forced_bet amount) ps)
unfolding post_forced_bet
force_bet-others seat other amount [] ne a = tt
force_bet-others seat other amount (p ∷ ps) ne a = elim (Bool-cases (at_seat seat p)) [
  | inl hit ↦ rw hit ((λ e. absurd (ne (sym ((==_iff _ _).0 hit) ∙ e))), a.1)
  | inr miss ↦ rw miss (a.0, force_bet-others seat other amount ps ne a.1)
]
