-- ===== src/Betting/Actions.antt =====
-- `legalActions`, `applyAction` and `applyTimeout` of server/poker/betting.js.
use x_poker.Base.{
  ℕ, ◌+◌, ◌-◌, Bool, true, false, not, ◌&&◌, ◌||◌, Option, none, some, [], ◌∷◌, ltb, leb, ◌==◌,
  if◌then◌else◌, ok, err, ◌>>=◌, ◌>>◌, assert, or_fail, modify_first, includes,
}
use x_poker.Betting.State.{
  Game, nlh, Player, BettingState, not_betting, not_in_hand, out_of_turn, version_conflict,
  fold_illegal, check_illegal, call_illegal, bet_illegal, raise_illegal, unsupported_action,
  target_not_bigint, not_increase, exceeds_maximum, not_reopened, below_minimum, Attempt,
  is_betting, player_by_id, add_acted, pot_size,
}
use x_poker.Betting.Chips.{pay_to}
use x_poker.Betting.Advance.{finish_or_advance}

pub record LegalActions : Type 0 where
  pub player_id : ℕ
  pub to_call : ℕ
  pub call_amount : ℕ
  pub can_fold : Bool
  pub can_check : Bool
  pub can_call : Bool
  pub can_bet : Bool
  pub can_raise : Bool
  pub raise_rights_open : Bool
  pub minimum_target : ℕ
  pub maximum_target : ℕ
  pub all_in_target : ℕ

-- An action's type; the target is `none` where it is no bigint.
pub data ActionKind : Type 0 where
  fold check call all_in_action unknown_action : ActionKind
  bet_to raise_to : Option ℕ → ActionKind

pub record Action : Type 0 where
  pub player_id : ℕ
  pub expected_version : ℕ
  pub kind : ActionKind

abbrev pub amount_to_call : BettingState → Player → ℕ
amount_to_call s p =
    if ltb p.street_contribution s.current_bet then s.current_bet - p.street_contribution else 0

abbrev pub call_payment : BettingState → Player → ℕ
call_payment s p =
    let to_call = amount_to_call s p in if ltb to_call p.stack then to_call else p.stack

abbrev pub available_target : Player → ℕ
available_target p = p.street_contribution + p.stack

abbrev is_no_limit : Game → Bool
is_no_limit nlh = true
is_no_limit _ = false

unfoldable pub maximum_target_of : BettingState → Player → ℕ
maximum_target_of s p =
    let call_paid = call_payment s p in
    let pot_after_call = pot_size s + call_paid in
    let pot_limit_target = p.street_contribution + call_paid + pot_after_call in
    if is_no_limit s.game
    then available_target p
    else if ltb pot_limit_target (available_target p)
    then pot_limit_target
    else available_target p

abbrev pub is_turn_of : Option ℕ → Player → Bool
is_turn_of none p = false
is_turn_of (some seat) p = p.seat == seat

unfoldable pub describe_actions : BettingState → Player → LegalActions
unfolding maximum_target_of
describe_actions s p =
    let to_call = amount_to_call s p in
    let max_target = maximum_target_of s p in
    let rights = not (includes s.acted p.player_id) in
    let opening = s.current_bet == 0 in
    let can_increase =
      (ltb s.current_bet (available_target p) && ltb s.current_bet max_target) && rights in
    record {
      player_id = p.player_id;
      to_call = to_call;
      call_amount = call_payment s p;
      can_fold = ltb 0 to_call;
      can_check = to_call == 0;
      can_call = ltb 0 to_call;
      can_bet = opening && can_increase;
      can_raise = not opening && can_increase;
      raise_rights_open = rights;
      minimum_target = if opening then s.big_blind else s.current_bet + s.last_full_raise_size;
      maximum_target = max_target;
      all_in_target = available_target p;
    }

-- `legalActions`, with the player that it found.
unfoldable pub find_actor : BettingState → ℕ → Attempt Player
find_actor s id = do
  assert (is_betting s.status) not_betting
  p ← or_fail (player_by_id s id) not_in_hand
  assert (is_turn_of s.action_seat p) out_of_turn
  ok p

unfoldable pub legal_actions : BettingState → ℕ → Attempt LegalActions
unfolding find_actor
legal_actions s id = do p ← find_actor s id; ok (describe_actions s p)

-- The write through the reference that `playerById` returned.
abbrev pub put_player : BettingState → Player → BettingState
put_player s p = record s {
  players = modify_first (λ q. q.player_id == p.player_id) (λ _. p) s.players;
}

abbrev pub mark_acted : BettingState → ℕ → BettingState
mark_acted s id = record s { acted = add_acted s.acted id }

-- The bet after an accepted increase, and the betting rights that it opens.
unfoldable pub raise_bet : BettingState → ℕ → ℕ → BettingState
raise_bet s id target =
    let raise_size = target - s.current_bet in
    let opening = s.current_bet == 0 in
    if (if opening then leb s.big_blind target else leb s.last_full_raise_size raise_size)
    then record s {
      current_bet = target;
      last_full_raise_size = if opening then target else raise_size;
      acted = id ∷ [];
    }
    else record s { current_bet = target; acted = add_acted s.acted id }

unfoldable pub apply_increase :
    BettingState → Player → Option ℕ → LegalActions → Attempt BettingState
unfolding raise_bet pay_to
apply_increase s p to legal = do
  target ← or_fail to target_not_bigint
  assert (ltb s.current_bet target) not_increase
  assert (leb target legal.maximum_target) exceeds_maximum
  assert legal.raise_rights_open not_reopened
  assert (leb legal.minimum_target target || target == legal.all_in_target) below_minimum
  paid ← pay_to p target
  ok (raise_bet (put_player s paid) p.player_id target)

-- `payTo` and `addActed`.
unfoldable pub pay_and_mark : BettingState → Player → ℕ → Attempt BettingState
unfolding pay_to
pay_and_mark s p target = do paid ← pay_to p target; ok (mark_acted (put_player s paid) p.player_id)

-- The `switch` on the action's type.
unfoldable pub perform : BettingState → Player → LegalActions → ActionKind → Attempt BettingState
unfolding apply_increase pay_and_mark
perform s p legal fold = do
  assert legal.can_fold fold_illegal
  ok (mark_acted (put_player s (record p { folded = true })) p.player_id)
perform s p legal check = do assert legal.can_check check_illegal; ok (mark_acted s p.player_id)
perform s p legal call = do
  assert legal.can_call call_illegal
  pay_and_mark s p (p.street_contribution + legal.call_amount)
perform s p legal (bet_to to) = do assert legal.can_bet bet_illegal; apply_increase s p to legal
perform s p legal (raise_to to) = do
  assert legal.can_raise raise_illegal
  apply_increase s p to legal
perform s p legal all_in_action =
    if leb legal.all_in_target s.current_bet
    then pay_and_mark s p legal.all_in_target
    else apply_increase s p (some legal.all_in_target) legal
perform s p legal unknown_action = err unsupported_action

unfoldable pub apply_action : BettingState → Action → Attempt BettingState
unfolding find_actor perform describe_actions
apply_action s a = do
  assert (a.expected_version == s.version) version_conflict
  p ← find_actor s a.player_id
  after ← perform s p (describe_actions s p) a.kind
  finish_or_advance (record after { version = after.version + 1 }) p.seat

unfoldable pub apply_timeout : BettingState → ℕ → ℕ → Attempt BettingState
unfolding legal_actions apply_action
apply_timeout s id expected_version = do
  legal ← legal_actions s id
  apply_action s (record {
    player_id = id;
    expected_version = expected_version;
    kind = if legal.can_check then check else fold;
  })
