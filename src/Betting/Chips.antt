-- ===== src/Betting/Chips.antt =====
-- The operations of server/poker/betting.js that move chips from a stack: `postForcedBet`,
-- `postAnte` and `payTo`.
use x_poker.Base.{ℕ, ◌+◌, ◌-◌, ◌&&◌, ltb, leb, ◌==◌, if◌then◌else◌, ok, err}
use x_poker.Betting.State.{Player, exceeds_stack, Attempt}

-- A payment that stays in front of the player until the street ends.
abbrev pub pay : Player → ℕ → Player
pay p paid = record p {
  stack = p.stack - paid;
  street_contribution = p.street_contribution + paid;
  contributed = p.contributed + paid;
  all_in = (p.stack - paid) == 0;
}

unfoldable pub post_forced_bet : ℕ → Player → Player
post_forced_bet amount p = pay p (if ltb p.stack amount then p.stack else amount)

unfoldable pub post_ante : ℕ → Player → Player
post_ante amount p =
    let paid = if ltb p.stack amount then p.stack else amount in
    record p {
      stack = p.stack - paid;
      contributed = p.contributed + paid;
      all_in = (p.stack - paid) == 0;
    }

-- The assertion reads `amount >= 0n && amount <= player.stack` for `amount = target - contribution`.
unfoldable pub pay_to : Player → ℕ → Attempt Player
pay_to p target =
    if leb p.street_contribution target && leb (target - p.street_contribution) p.stack
    then ok (pay p (target - p.street_contribution))
    else err exceeds_stack
