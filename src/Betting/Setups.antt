-- ===== src/Betting/Setups.antt =====
-- What the checks of `createBettingState` in server/poker/betting.js establish, and the players that
-- they seat.
use x_poker.Base.{
  ℕ, suc, ◌≤◌, ◌<◌, ◌≡◌, refl, sym, ap, subst, ◌∙◌, inl, inr, true, ◌&&◌, List, [], ◌∷◌, map, arith,
  ltb, leb, ◌==◌, ltb→lt, lt→ltb, leb→le, le→leb, Bool-cases, ok, assert-eq-ok, length, any, All,
  all_distinct, Distinct, all_distinct→Distinct, Distinct→all-Distinct,
}
use x_poker.Betting.State.{
  Player, bad_game, bad_player_count, duplicate_player, duplicate_seat, button_not_active,
  bad_small_blind, bad_big_blind, bad_stack, bad_seat, active,
}
use x_poker.Betting.Chips.{post_ante}
use x_poker.Betting.Create.{Seating, Setup, is_known_game, check_players, check_setup, sit, ante_up}
use x_poker.Betting.Bankroll.{bankroll}
use x_poker.Betting.Soundness.{same_ids, same_seats}
use x_poker.Betting.Forced.{ante_up-bankrolls, Clear, ante_up-Clear}
use x_poker.Betting.Blinds.{seats, All-seats, seats-All}

pub record IsValid (c : Setup) : Type 0 where
  pub known : is_known_game c.game ≡ true
  pub enough : 2 ≤ length c.players
  pub room : length c.players ≤ 9
  pub one_id : Distinct (map (λ (p : Seating). p.player_id) c.players)
  pub one_seat : Distinct (map (λ (p : Seating). p.seat) c.players)
  pub button : any (λ (p : Seating). p.seat == c.button_seat) c.players ≡ true
  pub small : 0 < c.small_blind
  pub big : c.small_blind ≤ c.big_blind
  pub seated : All (λ (p : Seating). (0 < p.stack) × (p.seat ≤ 8)) c.players

check_players-seated :
    (ps : List Seating)
    → check_players ps ≡ ok tt
    → All (λ (p : Seating). (0 < p.stack) × (p.seat ≤ 8)) ps
unfolding check_players
check_players-seated [] h = tt
check_players-seated (p ∷ ps) h =
    let (some_stack, h₁) = assert-eq-ok (ltb 0 p.stack) bad_stack _ h in
    let (on_table, h₂) = assert-eq-ok (leb p.seat 8) bad_seat _ h₁ in
    ((ltb→lt _ _ some_stack, leb→le _ _ on_table), check_players-seated ps h₂)

check_players-ok :
    (ps : List Seating)
    → All (λ (p : Seating). (0 < p.stack) × (p.seat ≤ 8)) ps
    → check_players ps ≡ ok tt
unfolding check_players
check_players-ok [] a = refl
check_players-ok (p ∷ ps) a = ground (arith, a.0, check_players-ok ps a.1)

-- The checks pass exactly on the valid setups.
pub check_setup-IsValid : (c : Setup) → check_setup c ≡ ok tt → IsValid c
unfolding check_setup
check_setup-IsValid c h =
    let (e₀, h₀) = assert-eq-ok (is_known_game c.game) bad_game _ h in
    let (e₁, h₁) =
      assert-eq-ok (leb 2 (length c.players) && leb (length c.players) 9) bad_player_count _ h₀ in
    let (e₂, h₂) =
      assert-eq-ok (all_distinct (map (λ (p : Seating). p.player_id) c.players)) duplicate_player _
        h₁ in
    let (e₃, h₃) =
      assert-eq-ok (all_distinct (map (λ (p : Seating). p.seat) c.players)) duplicate_seat _ h₂ in
    let (e₄, h₄) =
      assert-eq-ok (any (λ (p : Seating). p.seat == c.button_seat) c.players) button_not_active _
        h₃ in
    let (e₅, h₅) = assert-eq-ok (ltb 0 c.small_blind) bad_small_blind _ h₄ in
    let (e₆, h₆) = assert-eq-ok (leb c.small_blind c.big_blind) bad_big_blind _ h₅ in
    record {
      known = e₀;
      enough = ground (arith, e₁);
      room = ground (arith, e₁);
      one_id = all_distinct→Distinct _ e₂;
      one_seat = all_distinct→Distinct _ e₃;
      button = e₄;
      small = ltb→lt _ _ e₅;
      big = leb→le _ _ e₆;
      seated = check_players-seated c.players h₆;
    }

pub IsValid-check_setup : (c : Setup) → IsValid c → check_setup c ≡ ok tt
unfolding check_setup
IsValid-check_setup c v =
    let ids = Distinct→all-Distinct _ v.one_id in
    let places = Distinct→all-Distinct _ v.one_seat in
    let enough = le→leb _ _ v.enough in
    let room = le→leb _ _ v.room in
    let small = lt→ltb _ _ v.small in
    let big = le→leb _ _ v.big in
    rw (v.known, enough, room, ids, places, v.button, small, big)
      (check_players-ok c.players v.seated)

-- The players as they sit down.
sit-Clear :
    (ps : List Seating)
    → All (λ (p : Seating). (0 < p.stack) × (p.seat ≤ 8)) ps
    → All Clear (map sit ps)
sit-Clear [] a = tt
sit-Clear (p ∷ ps) a = ((refl, ground (arith, a.0.0)), sit-Clear ps a.1)

sit-on_table :
    (ps : List Seating)
    → All (λ (p : Seating). (0 < p.stack) × (p.seat ≤ 8)) ps
    → All (λ p. p.seat ≤ 8) (map sit ps)
sit-on_table [] a = tt
sit-on_table (p ∷ ps) a = (a.0.1, sit-on_table ps a.1)

seats-sit : (ps : List Seating) → seats (map sit ps) ≡ map (λ (p : Seating). p.seat) ps
seats-sit [] = refl
seats-sit (p ∷ ps) = ap (◌∷◌ p.seat) (seats-sit ps)

ids-sit :
    (ps : List Seating)
    → map (λ (p : Player). p.player_id) (map sit ps) ≡ map (λ (p : Seating). p.player_id) ps
ids-sit [] = refl
ids-sit (p ∷ ps) = ap (◌∷◌ p.player_id) (ids-sit ps)

sit-active : (ps : List Seating) → All (λ p. active p ≡ true) (map sit ps)
sit-active [] = tt
sit-active (p ∷ ps) = (refl, sit-active ps)

pub length-map {ℓ κ} :
    {A : Type ℓ} {B : Type κ} (f : A → B) (xs : List A) → length (map f xs) ≡ length xs
length-map f [] = refl
length-map f (x ∷ xs) = ap suc (length-map f xs)

ante_up-active :
    (ante : ℕ) (ps : List Player)
    → All (λ p. active p ≡ true) ps
    → All (λ p. active p ≡ true) (ante_up ante ps)
unfolding post_ante
ante_up-active ante [] a = ground arith
ante_up-active ante (p ∷ ps) a =
    let rest = ante_up-active ante ps a.1 in
    elim (Bool-cases (ltb 0 ante)) [
      | inl some_ante ↦ ground (arith, some_ante, a.0, rest)
      | inr no_ante ↦ ground (arith, no_ante, a)
    ]

-- The table before the blinds.
pub record IsSeated (c : Setup) (ps : List Player) : Type 0 where
  pub clear : All Clear ps
  pub table : All (λ p. p.seat ≤ 8) ps
  pub bought_in : map bankroll ps ≡ map bankroll (map sit c.players)
  pub one_id : Distinct (map (λ (p : Player). p.player_id) ps)
  pub one_seat : Distinct (seats ps)
  pub size : length (seats ps) ≡ length c.players
  pub live : All (λ p. active p ≡ true) ps

pub ante_up-IsSeated : (c : Setup) → IsValid c → IsSeated c (ante_up c.ante (map sit c.players))
ante_up-IsSeated c v =
    let before = map sit c.players in
    let ps = ante_up c.ante before in
    let rolls = ante_up-bankrolls c.ante before in
    let places = same_seats before ps rolls in
    record {
      clear = ante_up-Clear c.ante before (sit-Clear c.players v.seated);
      table =
          seats-All (λ k. k ≤ 8) ps
            (subst (All (λ k. k ≤ 8)) (sym places)
              (All-seats (λ k. k ≤ 8) before (sit-on_table c.players v.seated)));
      bought_in = rolls;
      one_id = subst Distinct (sym (same_ids before ps rolls ∙ ids-sit c.players)) v.one_id;
      one_seat = subst Distinct (sym (places ∙ seats-sit c.players)) v.one_seat;
      size =
          ap length (places ∙ seats-sit c.players) ∙ length-map (λ (p : Seating). p.seat) c.players;
      live = ante_up-active c.ante before (sit-active c.players);
    }
