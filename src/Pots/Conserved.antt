-- ===== src/Pots/Conserved.antt =====
-- `buildPots` of server/poker/pots.js accounts for every contributed chip, so that its own conservation
-- check never fails.
use x_poker.Base.{
  ℕ, ◌+◌, ◌-◌, ◌*◌, ◌≡◌, refl, sym, ap, ◌∙◌, inl, inr, Bool, true, false, List, [], ◌∷◌, ◌++◌, map,
  arith, ltb, leb, ◌==◌, if◌then◌else◌, ltb→lt, ==_refl, Bool-cases, ok, >>=-eq-ok, ok-injective,
  length, filter, All, includes, sum_by, sum_by-append, Amounts, total, all_distinct, All-map,
}
use x_poker.Pots.Types.{
  Contestant, Pot, too_few_players, duplicate_player, unconserved_pots, add_amount,
}
use x_poker.Pots.Build.{levels, reaches, live, new_pot, pool, place, build_levels, build_pots}
use x_poker.Pots.Refusals.{Gives, Gives-bind, Gives-assert, Gives-check, Gives-if, Gives-map}
use x_poker.Pots.Levels.{levels-Ascends, includes-levels, slices, slices-eq}

pub total-add_amount :
    (id amount : ℕ) (m : Amounts) → total (add_amount id amount m) ≡ total m + amount
total-add_amount id amount [] = omega arith
total-add_amount id amount (e ∷ m) = ground (arith, total-add_amount id amount m)

-- What pots and refunds hold together.
abbrev pub held : List Pot × Amounts → ℕ
held (pots, refunds) = sum_by (λ (p : Pot). p.amount) pots + total refunds

pool-held :
    (ps : List Contestant) (amount level : ℕ) (acc : List Pot × Amounts) {next : List Pot × Amounts}
    → pool ps amount level acc ≡ ok next
    → held next ≡ held acc + amount
unfolding pool
pool-held ps amount level (pots, refunds) {next} h =
    let eligible = map (λ (p : Contestant). p.player_id) (filter live ps) in
    let pot = new_pot (length pots) amount level ps eligible in
    elim (Bool-cases (length eligible == 0)) [
      | inl nobody ↦ ground (arith, nobody)
      | inr some_one ↦
          let e : (pots ++ pot ∷ [], refunds) ≡ next = ground (arith, some_one) in
          ap held (sym e) ∙ omega (arith, sum_by-append (λ (p : Pot). p.amount) pots (pot ∷ []))
    ]

pub place-held :
    (ps : List Contestant) (amount level : ℕ) (acc : List Pot × Amounts) {next : List Pot × Amounts}
    → place ps amount level acc ≡ ok next
    → held next ≡ held acc + amount
unfolding place
place-held [] amount level acc h = pool-held [] amount level acc h
place-held (p ∷ []) amount level (pots, refunds) h =
    ap held (sym (ok-injective h)) ∙ omega (arith, total-add_amount p.player_id amount refunds)
place-held (p ∷ q ∷ ps) amount level acc h = pool-held (p ∷ q ∷ ps) amount level acc h

-- The money of the levels from `previous` up, by level.
abbrev level_money : List Contestant → ℕ → List ℕ → ℕ
level_money players previous [] = 0
level_money players previous (l ∷ ls) =
    (l - previous) * length (filter (reaches l) players) + level_money players l ls

build_levels-held :
    (players : List Contestant) (ls : List ℕ) (previous : ℕ) (acc : List Pot × Amounts)
    {next : List Pot × Amounts}
    → build_levels players ls previous acc ≡ ok next
    → held next ≡ held acc + level_money players previous ls
unfolding build_levels
build_levels-held players [] previous acc h = ap held (sym (ok-injective h)) ∙ omega arith
build_levels-held players (l ∷ ls) previous acc h =
    let participants = filter (reaches l) players in
    let (mid, placed, rest) =
      >>=-eq-ok (place participants ((l - previous) * length participants) l acc) _ h in
    omega (arith, place-held participants _ l acc placed, build_levels-held players ls l mid rest)

level_step :
    (b : Bool) (share own s t : ℕ) (p : Contestant) (ps : List Contestant)
    → s ≡ share * length ps + t
    → (if b then share else 0) + own + s ≡ share * length (if b then p ∷ ps else ps) + (own + t)
level_step true share own s t p ps h = omega (arith, h)
level_step false share own s t p ps h = omega (arith, h)

-- The money of one more level, by player.
level-players :
    (f : Contestant → ℕ) (l previous : ℕ) (players : List Contestant)
    → sum_by (λ p. (if reaches l p then l - previous else 0) + f p) players
      ≡ (l - previous) * length (filter (reaches l) players) + sum_by f players
level-players f l previous [] = grind arith
level-players f l previous (p ∷ ps) =
    level_step (reaches l p) (l - previous) (f p) _ (sum_by f ps) p (filter (reaches l) ps)
      (level-players f l previous ps)

sum_by-zero {ℓ} : {A : Type ℓ} (xs : List A) → sum_by (λ _. 0) xs ≡ 0
sum_by-zero [] = refl
sum_by-zero (x ∷ xs) = omega (arith, sum_by-zero xs)

level_money-players :
    (players : List Contestant) (previous : ℕ) (ls : List ℕ)
    → level_money players previous ls
      ≡ sum_by (λ (p : Contestant). slices previous ls p.contributed) players
level_money-players players previous [] = sym (sum_by-zero players)
level_money-players players previous (l ∷ ls) =
    ap (λ n. (l - previous) * length (filter (reaches l) players) + n)
      (level_money-players players l ls)
    ∙ sym (level-players (λ p. slices l ls p.contributed) l previous players)

sum_by-ext {ℓ} :
    {A : Type ℓ} (f g : A → ℕ) (xs : List A) → All (λ x. f x ≡ g x) xs → sum_by f xs ≡ sum_by g xs
sum_by-ext f g [] a = refl
sum_by-ext f g (x ∷ xs) a = omega (arith, a.0, sum_by-ext f g xs a.1)

-- Every contribution is taken by the levels whole.
all_taken :
    (players ps : List Contestant)
    → All
        (λ (p : Contestant).
          includes (map (λ (q : Contestant). q.contributed) players) p.contributed ≡ true)
        ps
    → All (λ (p : Contestant). slices 0 (levels players) p.contributed ≡ p.contributed) ps
all_taken players ps a =
    All-map ps
      (λ p there. elim (Bool-cases (ltb 0 p.contributed)) [
        | inl some_chips ↦
            slices-eq 0 (levels players) p.contributed (levels-Ascends players)
              (inr (includes-levels players p.contributed (ltb→lt _ _ some_chips) there))
            ∙ omega arith
        | inr no_chips ↦
            slices-eq 0 (levels players) p.contributed (levels-Ascends players)
              (inl (ground (arith, no_chips)))
            ∙ omega arith
      ])
      a

self_includes :
    (ps : List Contestant)
    → All
        (λ (p : Contestant).
          includes (map (λ (q : Contestant). q.contributed) ps) p.contributed ≡ true)
        ps
self_includes [] = tt
self_includes (p ∷ ps) = (
  ground (arith, ==_refl p.contributed),
  All-map ps (λ q h. ground (arith, h)) (self_includes ps),
)

-- The loop puts exactly the contributed chips into pots and refunds.
pub build_levels-conserves :
    (players : List Contestant) {pots : List Pot} {refunds : Amounts}
    → build_levels players (levels players) 0 ([], []) ≡ ok (pots, refunds)
    → sum_by (λ (p : Pot). p.amount) pots + total refunds
      ≡ sum_by (λ (p : Contestant). p.contributed) players
build_levels-conserves players h =
    build_levels-held players (levels players) 0 ([], []) h
    ∙ omega (arith, level_money-players players 0 (levels players))
    ∙ sum_by-ext (λ (p : Contestant). slices 0 (levels players) p.contributed)
        (λ (p : Contestant). p.contributed) players
        (all_taken players players (self_includes players))

place-Gives :
    (ps : List Contestant) (amount level : ℕ) (acc : List Pot × Amounts)
    → Gives (λ _. Unit) (place ps amount level acc)
unfolding place pool
place-Gives [] amount level acc = tt
place-Gives (p ∷ []) amount level acc = tt
place-Gives (p ∷ q ∷ ps) amount level acc =
    Gives-if _ (length (map (λ (p : Contestant). p.player_id) (filter live (p ∷ q ∷ ps))) == 0) _ _
      tt tt

build_levels-Gives :
    (players : List Contestant) (ls : List ℕ) (previous : ℕ) (acc : List Pot × Amounts)
    → Gives (λ _. Unit) (build_levels players ls previous acc)
unfolding build_levels
build_levels-Gives players [] previous acc = tt
build_levels-Gives players (l ∷ ls) previous acc =
    let participants = filter (reaches l) players in
    Gives-bind _ _ (place participants ((l - previous) * length participants) l acc) _
      (place-Gives participants ((l - previous) * length participants) l acc)
      (λ next _. build_levels-Gives players ls l next)

-- The pots and refunds hold what the players contributed.
abbrev pub Holds : List Contestant → List Pot × Amounts → Type 0
Holds players built = held built ≡ sum_by (λ (p : Contestant). p.contributed) players

-- "Pot construction failed conservation check" is never thrown: whatever the players, `buildPots` ends in
-- one of its other errors, or its pots and refunds together hold exactly the contributed chips.
pub build_pots-conserves : (players : List Contestant) → Gives (Holds players) (build_pots players)
unfolding build_pots
build_pots-conserves players =
    let built = build_levels players (levels players) 0 ([], []) in
    Gives-assert _ (leb 2 (length players)) too_few_players _ tt λ _.
      Gives-assert _ (all_distinct (map (λ (p : Contestant). p.player_id) players)) duplicate_player
        _ tt
        λ _.
          Gives-bind _ _ built _
            (Gives-map _ _ built (build_levels-Gives players (levels players) 0 ([], []))
              (λ b e. build_levels-conserves players e))
            (λ b same. Gives-check _ (held b) _ unconserved_pots _ same same)
