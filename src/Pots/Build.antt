-- ===== src/Pots/Build.antt =====
-- `buildPots` of server/poker/pots.js.
use x_poker.Base.{
  ℕ, ◌+◌, ◌-◌, ◌*◌, Bool, not, none, List, [], ◌∷◌, ◌++◌, map, ltb, leb, ◌==◌, if◌then◌else◌, ok,
  err, ◌>>=◌, ◌>>◌, assert, length, filter, sum_by, Amounts, total, to_set, all_distinct,
}
use x_poker.Pots.Types.{
  Contestant, Pot, too_few_players, duplicate_player, no_eligible_player, unconserved_pots, Outcome,
  add_amount,
}

abbrev pub insert_level : ℕ → List ℕ → List ℕ
insert_level x [] = x ∷ []
insert_level x (y ∷ ys) = if leb x y then x ∷ y ∷ ys else y ∷ insert_level x ys

unfoldable pub sort_levels : List ℕ → List ℕ
sort_levels [] = []
sort_levels (x ∷ xs) = insert_level x (sort_levels xs)

-- The distinct positive contributions, ascending.
unfoldable pub levels : List Contestant → List ℕ
unfolding sort_levels
levels players =
    sort_levels (to_set (filter (λ x. ltb 0 x) (map (λ (p : Contestant). p.contributed) players)))

abbrev pub reaches : ℕ → Contestant → Bool
reaches level p = leb level p.contributed

abbrev pub live : Contestant → Bool
live p = not p.folded

abbrev pub new_pot : ℕ → ℕ → ℕ → List Contestant → List ℕ → Pot
new_pot index amount level participants eligible = record {
  index = index;
  amount = amount;
  contribution_cap = level;
  participant_ids = map (λ (p : Contestant). p.player_id) participants;
  eligible_ids = eligible;
  rake = 0;
  net_amount = none;
}

-- The pot of a level with other than one participant.
unfoldable pub pool : List Contestant → ℕ → ℕ → List Pot × Amounts → Outcome (List Pot × Amounts)
pool participants amount level (pots, refunds) =
    let eligible = map (λ (p : Contestant). p.player_id) (filter live participants) in
    if length eligible == 0
    then err no_eligible_player
    else ok (pots ++ new_pot (length pots) amount level participants eligible ∷ [], refunds)

-- One level's money: back to its only participant, or into a pot.
unfoldable pub place : List Contestant → ℕ → ℕ → List Pot × Amounts → Outcome (List Pot × Amounts)
unfolding pool
place (p ∷ []) amount level (pots, refunds) = ok (pots, add_amount p.player_id amount refunds)
place participants amount level acc = pool participants amount level acc

-- The loop over the levels.
unfoldable pub build_levels :
    List Contestant → List ℕ → ℕ → List Pot × Amounts → Outcome (List Pot × Amounts)
unfolding place
build_levels players [] previous acc = ok acc
build_levels players (level ∷ rest) previous acc = do
  let participants = filter (reaches level) players
  next ← place participants ((level - previous) * length participants) level acc
  build_levels players rest level next

unfoldable pub build_pots : List Contestant → Outcome (List Pot × Amounts)
unfolding levels build_levels
build_pots players = do
  assert (leb 2 (length players)) too_few_players
  assert (all_distinct (map (λ (p : Contestant). p.player_id) players)) duplicate_player
  (pots, refunds) ← build_levels players (levels players) 0 ([], [])
  assert
      (sum_by (λ (p : Pot). p.amount) pots + total refunds
        == sum_by (λ (p : Contestant). p.contributed) players)
      unconserved_pots
  ok (pots, refunds)
