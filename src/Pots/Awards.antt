-- ===== src/Pots/Awards.antt =====
-- `settlePots` of server/poker/pots.js awards every chip of the pots, so that its own conservation check
-- never fails.
use native.Mathlib.Nat.{div-add-mod, mod-lt}
use x_poker.Base.{
  ℕ, zero, suc, ◌+◌, ◌-◌, ◌*◌, ◌/◌, ◌%◌, ◌≤◌, ◌<◌, ◌≡◌, sym, ap, ◌∙◌, inl, inr, List, [], ◌∷◌,
  arith, ltb, ◌==◌, if◌then◌else◌, ltb→lt, ==_iff, Bool-cases, ok, >>=-eq-ok, assert-eq-ok,
  ok-injective, length, filter, includes, sum_by, Amounts, total,
}
use x_poker.Pots.Types.{Pot, division_by_zero, add_amount}
use x_poker.Pots.Rake.{net}
use x_poker.Pots.Settle.{
  Rankings, Detail, winners_of, ordered_winners, add_shares, add_odd_chips, award_board,
  award_boards, award_pots,
}
use x_poker.Pots.Conserved.{total-add_amount}

total-add_shares :
    (share : ℕ) (ids : List ℕ) (awards : Amounts)
    → total (add_shares share ids awards) ≡ total awards + length ids * share
unfolding add_shares
total-add_shares share [] awards = omega arith
total-add_shares share (id ∷ ids) awards = omega (
  arith,
  total-add_shares share ids (add_amount id share awards),
  total-add_amount id share awards,
)

total-add_odd_chips :
    (odd : ℕ) (ids : List ℕ) (awards : Amounts)
    → odd ≤ length ids
    → total (add_odd_chips odd ids awards) ≡ total awards + odd
unfolding add_odd_chips
total-add_odd_chips zero ids awards h = omega arith
total-add_odd_chips (suc odd) [] awards h = omega (arith, h)
total-add_odd_chips (suc odd) (id ∷ ids) awards h = omega (
  arith,
  total-add_odd_chips odd ids (add_amount id 1 awards) (omega (arith, h)),
  total-add_amount id 1 awards,
)

-- A board's part of a pot is shared out whole among any winners, odd chips included.
shared_out :
    (amount : ℕ) (winners ordered : List ℕ) (awards : Amounts)
    → 0 < length winners
    → length ordered ≡ length winners
    → total (
        add_odd_chips
          (amount % length winners)
          ordered
          (add_shares (amount / length winners) winners awards))
      ≡ total awards + amount
shared_out amount winners ordered awards some_one same =
    let w = length winners in
    let below = mod-lt amount some_one in
    let whole = div-add-mod amount w in
    let shares = total-add_shares (amount / w) winners awards in
    let odd =
      total-add_odd_chips (amount % w) ordered (add_shares (amount / w) winners awards)
        (omega (arith, below, same)) in
    grind (arith, whole, shares, odd)

ordered_winners-length :
    (winners order : List ℕ) {ordered : List ℕ}
    → ordered_winners winners order ≡ ok ordered
    → length ordered ≡ length winners
unfolding ordered_winners
ordered_winners-length winners order {ordered} h =
    let found = filter (includes winners) order in
    elim (Bool-cases (length found == length winners)) [
      | inl same ↦
          let e : found ≡ ordered = ground (arith, same) in ap length (sym e) ∙ (==_iff _ _).0 same
      | inr other ↦ ground (arith, other)
    ]

award_board-total :
    (pot : Pot) (board amount : ℕ) (rankings : Rankings) (order : List ℕ) (awards : Amounts)
    (details : List Detail) {next : Amounts × List Detail}
    → award_board pot board amount rankings order (awards, details) ≡ ok next
    → total next.0 ≡ total awards + amount
unfolding award_board
award_board-total pot board amount rankings order awards details h =
    let (winners, won, rest) = >>=-eq-ok (winners_of rankings pot.eligible_ids) _ h in
    let (some_one, rest') = assert-eq-ok (ltb 0 (length winners)) division_by_zero _ rest in
    let (ordered, in_order, end) = >>=-eq-ok (ordered_winners winners order) _ rest' in
    ap (λ (r : Amounts × List Detail). total r.0) (sym (ok-injective end))
    ∙ shared_out amount winners ordered awards (ltb→lt _ _ some_one)
        (ordered_winners-length winners order in_order)

award_boards-total :
    (pot : Pot) (board base remainder : ℕ) (rankings : List Rankings) (order : List ℕ)
    (acc : Amounts × List Detail) {next : Amounts × List Detail}
    → remainder ≤ length rankings
    → award_boards pot board base remainder rankings order acc ≡ ok next
    → total next.0 ≡ total acc.0 + length rankings * base + remainder
unfolding award_boards
award_boards-total pot board base remainder [] order acc le h =
    ap (λ (r : Amounts × List Detail). total r.0) (sym (ok-injective h)) ∙ omega (arith, le)
award_boards-total pot board base remainder (r ∷ rs) order (awards, details) le h =
    let share = base + (if ltb 0 remainder then 1 else 0) in
    let (mid, first, rest) =
      >>=-eq-ok (award_board pot board share r order (awards, details)) _ h in
    let here = award_board-total pot board share r order awards details first in
    let there =
      award_boards-total pot (board + 1) base (remainder - 1) rs order mid (omega (arith, le))
        rest in
    ground (arith, here, there, le)

pub award_pots-total :
    (pots : List Pot) (rankings : List Rankings) (order : List ℕ) (acc : Amounts × List Detail)
    {next : Amounts × List Detail}
    → 0 < length rankings
    → award_pots pots rankings order acc ≡ ok next
    → total next.0 ≡ total acc.0 + sum_by net pots
unfolding award_pots
award_pots-total [] rankings order acc some_one h =
    ap (λ (r : Amounts × List Detail). total r.0) (sym (ok-injective h)) ∙ omega arith
award_pots-total (p ∷ ps) rankings order acc some_one h =
    let boards = length rankings in
    let (mid, first, rest) =
      >>=-eq-ok (award_boards p 1 (net p / boards) (net p % boards) rankings order acc) _ h in
    let below = mod-lt (net p) some_one in
    let whole = div-add-mod (net p) boards in
    let here =
      award_boards-total p 1 (net p / boards) (net p % boards) rankings order acc
        (omega (arith, below)) first in
    let there = award_pots-total ps rankings order mid some_one rest in
    grind (arith, whole, here, there)
