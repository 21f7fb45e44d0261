-- ===== src/Betting/Hand.antt =====
-- A whole hand of server/poker/betting.js, as the sequence of its accepted commands.
use x_poker.Base.{ℕ, ◌≡◌, ◌∙◌, List, map, ok, >>=-eq-ok}
use x_poker.Betting.State.{Street, BettingState}
use x_poker.Betting.Create.{Setup, sit, create_betting_state}
use x_poker.Betting.Actions.{Action, legal_actions, apply_action, apply_timeout}
use x_poker.Betting.Deal.{deal_street, deal_remaining_board}
use x_poker.Betting.Bankroll.{bankroll, bankrolls, apply_action-bankrolls}
use x_poker.Betting.Soundness.{IsSound, apply_action-IsSound}
use x_poker.Betting.Streets.{deal_street-IsSound, deal_remaining_board-IsSound}
use x_poker.Betting.Board.{
  IsDealt, apply_action-IsDealt, deal_street-IsDealt, deal_remaining_board-IsDealt,
}
use x_poker.Betting.Started.{create_betting_state-IsNew}

pub data Reach (c : Setup) : BettingState → Type 0 where
  create : {s : BettingState} → create_betting_state c ≡ ok s → Reach c s
  act : {s t : BettingState} (a : Action) → Reach c s → apply_action s a ≡ ok t → Reach c t
  time_out :
      {s t : BettingState} (id version : ℕ)
      → Reach c s
      → apply_timeout s id version ≡ ok t
      → Reach c t
  deal :
      {s t : BettingState} (version : ℕ) (street : Street) (cards : List ℕ)
      → Reach c s
      → deal_street s version street cards ≡ ok t
      → Reach c t
  run_out :
      {s t : BettingState} (version : ℕ) (cards : List ℕ)
      → Reach c s
      → deal_remaining_board s version cards ≡ ok t
      → Reach c t

-- What every state of a hand satisfies.
pub record IsHand (c : Setup) (s : BettingState) : Type 0 where
  pub sound : IsSound s
  pub dealt : IsDealt s
  pub chips : bankrolls s ≡ map bankroll (map sit c.players)

-- A timeout that is accepted is an action that is accepted.
pub apply_timeout-action :
    (s : BettingState) (id version : ℕ) {t : BettingState}
    → apply_timeout s id version ≡ ok t
    → (a : Action) × (apply_action s a ≡ ok t)
unfolding apply_timeout
apply_timeout-action s id version h =
    let (legal, e, h₁) = >>=-eq-ok (legal_actions s id) _ h in (_, h₁)

act-IsHand :
    (c : Setup) (s : BettingState) (a : Action) {t : BettingState}
    → IsHand c s
    → apply_action s a ≡ ok t
    → IsHand c t
act-IsHand c s a v h = record {
  sound = apply_action-IsSound s a v.sound h;
  dealt = apply_action-IsDealt s a v.dealt h;
  chips = apply_action-bankrolls s a h ∙ v.chips;
}

-- In every state that a hand can reach from an accepted setup: the invariant holds, the board has the
-- cards of its street, valid and distinct, and each player's stack and share of the pot add up to what
-- the player sat down with.
pub Reach-IsHand : (c : Setup) {s : BettingState} → Reach c s → IsHand c s
Reach-IsHand c (create h) =
    let new = create_betting_state-IsNew c h in
    record { sound = new.sound; dealt = new.dealt; chips = new.chips }
Reach-IsHand c (act {s = s} a r h) = act-IsHand c s a (Reach-IsHand c r) h
Reach-IsHand c (time_out {s = s} id version r h) =
    let (a, h₁) = apply_timeout-action s id version h in act-IsHand c s a (Reach-IsHand c r) h₁
Reach-IsHand c (deal {s = s} version street cards r h) =
    let v = Reach-IsHand c r in
    let (sound, chips) = deal_street-IsSound s version street cards v.sound h in
    record {
      sound = sound;
      dealt = deal_street-IsDealt s version street cards v.dealt h;
      chips = chips ∙ v.chips;
    }
Reach-IsHand c (run_out {s = s} version cards r h) =
    let v = Reach-IsHand c r in
    let (sound, chips) = deal_remaining_board-IsSound s version cards v.sound h in
    record {
      sound = sound;
      dealt = deal_remaining_board-IsDealt s version cards v.dealt h;
      chips = chips ∙ v.chips;
    }
