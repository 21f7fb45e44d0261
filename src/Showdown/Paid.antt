-- ===== src/Showdown/Paid.antt =====
-- server/poker/showdown.js pays out every chip that was contributed, less the rake.
use x_poker.Base.{
  ℕ, ◌+◌, ◌≡◌, Bool, true, not, ◌&&◌, List, [], ◌∷◌, ◌++◌, arith, leb, ◌==◌, ok, ◌>>=◌, ◌>>◌,
  assert, length, filter, all, any, sum_by, Amounts, total, all_distinct,
}
use x_poker.Pots.Types.{
  Contestant, Pot, unconserved_showdown, unknown_game, bad_boards, bad_hole_cards, wrong_card_count,
  invalid_card, duplicate_card, Outcome, add_amount,
}
use x_poker.Evaluator.Five.{check_cards, evaluate_five}
use x_poker.Evaluator.Best.{
  combinations, best, evaluate_all, evaluate_holdem, with_boards, evaluate_omaha4,
}
use x_poker.Pots.Build.{live, build_pots}
use x_poker.Pots.Rake.{net, apply_rake}
use x_poker.Pots.Settle.{Rankings, settle_pots}
use x_poker.Showdown.Finish.{
  odd_chip_order, Variant, is_nlh, is_known, evaluate, validate_players, add_refunds, Settled,
  finalize, rank_board, rank_boards, settle_showdown,
}
use x_poker.Pots.Refusals.{Gives, Gives-bind, Gives-assert, Gives-check, Gives-if, Gives-last}
use x_poker.Pots.Conserved.{total-add_amount, Holds, build_pots-conserves}
use x_poker.Pots.Raked.{KeepsGross, apply_rake-KeepsGross}
use x_poker.Pots.Settled.{AwardsAll, settle_pots-conserves}

total-add_refunds :
    (refunds payouts : Amounts)
    → total (add_refunds refunds payouts) ≡ total payouts + total refunds
unfolding add_refunds
total-add_refunds [] payouts = omega arith
total-add_refunds (e ∷ refunds) payouts = omega (
  arith,
  total-add_refunds refunds (add_amount e.0 e.1 payouts),
  total-add_amount e.0 e.1 payouts,
)

-- Payouts and rake add up to the contributed chips.
abbrev pub PaysOut : List Contestant → Settled → Type 0
PaysOut players s =
    total s.payouts + s.total_rake ≡ sum_by (λ (p : Contestant). p.contributed) players

-- Pots, after rake, and refunds that account for all chips are paid out.
finalize-PaysOut :
    (players : List Contestant) (pots : List Pot) (refunds : Amounts) (rankings : List Rankings)
    (button_seat total_rake : ℕ)
    → sum_by net pots + total refunds + total_rake
      ≡ sum_by (λ (p : Contestant). p.contributed) players
    → Gives (PaysOut players) (finalize players pots refunds rankings button_seat total_rake)
unfolding finalize
finalize-PaysOut players pots refunds rankings button_seat total_rake same =
    let order = odd_chip_order players button_seat in
    Gives-bind (AwardsAll pots) _ (settle_pots pots rankings order) _
      (settle_pots-conserves pots rankings order)
      (λ (awards, details) all_of.
        let paid : total (add_refunds refunds awards) + total_rake
            ≡ sum_by (λ (p : Contestant). p.contributed) players =
          omega (arith, total-add_refunds refunds awards, all_of, same) in
        Gives-check _ (total (add_refunds refunds awards) + total_rake) _ unconserved_showdown _
          paid paid)

-- The part that both settlements share: pots are built and raked, and then paid out.
raked-PaysOut :
    (players : List Contestant) (rake_bps rake_cap : ℕ) (flop_dealt : Bool)
    (k : List Pot → Amounts → ℕ → Outcome Settled)
    → ((raked : List Pot) (refunds : Amounts) (total_rake : ℕ)
        → sum_by net raked + total refunds + total_rake
          ≡ sum_by (λ (p : Contestant). p.contributed) players
        → Gives (PaysOut players) (k raked refunds total_rake))
    → Gives (PaysOut players) (
        build_pots players >>= λ built.
        apply_rake built.0 rake_bps rake_cap flop_dealt >>= λ r. k r.0 built.1 r.1)
raked-PaysOut players rake_bps rake_cap flop_dealt k pays =
    Gives-bind (Holds players) _ (build_pots players) _ (build_pots-conserves players)
      (λ built whole.
        Gives-bind (KeepsGross built.0) _ (apply_rake built.0 rake_bps rake_cap flop_dealt) _
          (apply_rake-KeepsGross built.0 rake_bps rake_cap flop_dealt)
          (λ r kept. pays r.0 built.1 r.1 (omega (arith, whole, kept))))

check_cards-Gives : (cards : List ℕ) (n : ℕ) → Gives (λ _. Unit) (check_cards cards n)
unfolding check_cards
check_cards-Gives cards n = Gives-assert _ (length cards == n) wrong_card_count _ tt λ _.
    Gives-assert _ (not (any (λ card. leb 52 card) cards)) invalid_card _ tt
      λ _. Gives-last (all_distinct cards) duplicate_card tt

evaluate_all-Gives : (hands : List (List ℕ)) → Gives (λ _. Unit) (evaluate_all hands)
unfolding evaluate_all evaluate_five
evaluate_all-Gives [] = tt
evaluate_all-Gives (h ∷ hs) =
    Gives-bind (λ _. Unit) _ (evaluate_five h) _
      (Gives-bind _ (λ _. Unit) (check_cards h 5) _ (check_cards-Gives h 5) (λ _ _. tt))
      (λ _ _. Gives-bind (λ _. Unit) _ (evaluate_all hs) _ (evaluate_all-Gives hs) (λ _ _. tt))

-- The checks and evaluations that the games share.
evaluate_hands-Gives :
    (hole_cards board : List ℕ) (n : ℕ) (hands : List (List ℕ))
    → Gives
        (λ _. Unit)
        (check_cards hole_cards n
          >> (check_cards board 5
              >> (assert (all_distinct (hole_cards ++ board)) duplicate_card
                  >> (evaluate_all hands >>= λ es. ok (best es)))))
evaluate_hands-Gives hole_cards board n hands =
    Gives-bind (λ _. Unit) _ (check_cards hole_cards n) _ (check_cards-Gives hole_cards n)
      (λ _ _.
        Gives-bind (λ _. Unit) _ (check_cards board 5) _ (check_cards-Gives board 5)
          (λ _ _. Gives-assert _ (all_distinct (hole_cards ++ board)) duplicate_card _ tt λ _.
            Gives-bind (λ _. Unit) _ (evaluate_all hands) _ (evaluate_all-Gives hands) (λ _ _. tt)))

evaluate-Gives :
    (game : Variant) (hole_cards board : List ℕ)
    → Gives (λ _. Unit) (evaluate game hole_cards board)
unfolding evaluate evaluate_holdem evaluate_omaha4
evaluate-Gives game hole_cards board =
    Gives-if _ (is_nlh game) (evaluate_holdem hole_cards board) (evaluate_omaha4 hole_cards board)
      (evaluate_hands-Gives hole_cards board 2 (combinations (hole_cards ++ board) 5))
      (evaluate_hands-Gives hole_cards board 4
        (with_boards (combinations hole_cards 2) (combinations board 3)))

rank_board-Gives :
    (game : Variant) (board : List ℕ) (ps : List Contestant)
    → Gives (λ _. Unit) (rank_board game board ps)
unfolding rank_board
rank_board-Gives game board [] = tt
rank_board-Gives game board (p ∷ ps) =
    Gives-bind (λ _. Unit) _ (evaluate game p.hole_cards board) _
      (evaluate-Gives game p.hole_cards board)
      (λ _ _.
        Gives-bind (λ _. Unit) _ (rank_board game board ps) _ (rank_board-Gives game board ps)
          (λ _ _. tt))

rank_boards-Gives :
    (game : Variant) (boards : List (List ℕ)) (players : List Contestant)
    → Gives (λ _. Unit) (rank_boards game boards players)
unfolding rank_boards
rank_boards-Gives game [] players = tt
rank_boards-Gives game (b ∷ bs) players =
    Gives-bind (λ _. Unit) _ (rank_board game b (filter live players)) _
      (rank_board-Gives game b (filter live players))
      (λ _ _.
        Gives-bind (λ _. Unit) _ (rank_boards game bs players) _ (rank_boards-Gives game bs players)
          (λ _ _. tt))

-- A showdown ends in no failed conservation check, of its own or of the pots' (it can only be refused),
-- and if it is settled, payouts and rake add up to exactly what the players contributed.
pub settle_showdown-PaysOut :
    (game : Variant) (players : List Contestant) (boards : List (List ℕ))
    (button_seat rake_bps rake_cap : ℕ)
    → Gives (PaysOut players) (settle_showdown game players boards button_seat rake_bps rake_cap)
unfolding settle_showdown validate_players
settle_showdown-PaysOut game players boards button_seat rake_bps rake_cap =
    Gives-assert _ (is_known game) unknown_game _ tt λ _.
      Gives-assert _
        (leb 1 (length boards) && leb (length boards) 2 && all (λ board. length board == 5) boards)
        bad_boards _ tt
        λ _.
          Gives-bind (λ _. Unit) _ (validate_players players game) _
            (Gives-last _ bad_hole_cards tt)
            λ _ _.
              raked-PaysOut players rake_bps rake_cap true
                (λ raked refunds total_rake. rank_boards game boards players >>= λ rankings.
                  finalize players raked refunds rankings button_seat total_rake)
                (λ raked refunds total_rake same.
                  Gives-bind (λ _. Unit) _ (rank_boards game boards players) _
                    (rank_boards-Gives game boards players)
                    (λ rankings _.
                      finalize-PaysOut players raked refunds rankings button_seat total_rake same))
