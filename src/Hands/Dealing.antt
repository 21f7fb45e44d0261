-- ===== src/Hands/Dealing.antt =====
-- `AuthoritativeHandCoordinator` of server/hand-coordinator.js, from the commitment of the deck on.
use x_poker.Base.{
  ℕ, Bool, not, Option, none, some, List, [], ◌∷◌, ◌++◌, ◌==◌, if◌then◌else◌, err, ok, assert,
  or_fail, ◌>>=◌, ◌>>◌, length, get_elem?, find_index?, includes, Bytes, same_bytes,
}
use x_poker.Fairness.Fields.{canonical_json}
use x_poker.Fairness.Cards.{Deck, Reveal, verify_card_reveal, reveal_card}
use x_poker.Fairness.Plan.{Game, BoardPlan, DealPlan, deal_plan}
use x_poker.Fairness.Hand.{
  Beacon, PlayerCommitment, PlayerInput, PublicRecord, CommittedHand, create_committed_hand,
}
use x_poker.Hands.Events.{
  Rules, Payload, deck_committed, public_card_revealed, Platform, unsupported_game,
  unverified_beacon, source_differs, chain_differs, round_differs, server_seed_differs,
  reveal_count_differs, player_seed_differs, cannot_commit, beacon_not_reverified, not_public,
  secret_unavailable, cannot_reveal, already_revealed, out_of_order, invalid_proof,
  undefined_property, Handled, from_fair,
}
use x_poker.Hands.Stores.{TextMap, get_text, delete_text, HandStore, Reply, DealerStore, put_secret}
use x_poker.Hands.State.{HandState, is_awaiting_beacon, is_dealing}
use x_poker.Hands.Coordinator.{Command, record_event, replay, replay_or, state_of}

pub record Services : Type 0 where
  pub store : HandStore
  pub dealer : DealerStore

-- An operation that changes the dealer's secrets gives the services after it, on an error too.
abbrev pub Served : Type 0 → Type 0
Served A = Handled A × Services

abbrev pub or_first_seat : Option ℕ → ℕ
or_first_seat none = 0
or_first_seat (some n) = n

abbrev pub or_one : Option ℕ → ℕ
or_one none = 1
or_one (some n) = n

-- What comes after a statement that may throw and leaves the services as they are.
abbrev pub serve : {A B : Type 0} → Handled A → Services → (A → Served B) → Served B
serve (err e) services rest = (err e, services)
serve (ok a) services rest = rest a

-- `dealPlan` for the rules of a hand
abbrev pub plan_for : Rules → Handled DealPlan
plan_for rules = do
  game ← or_fail rules.game unsupported_game
  from_fair (deal_plan game rules.seats (or_first_seat rules.button_seat) (or_one rules.boards))

-- `publicSequence`
abbrev pub public_sequence : List BoardPlan → List ℕ
public_sequence [] = []
public_sequence (b ∷ bs) = b.flop_cards ++ b.turn_cards ++ b.river_cards ++ public_sequence bs

-- Each revealed seed is that of the player's commitment.
abbrev pub check_player_seeds : TextMap Bytes → List PlayerCommitment → Handled (Unit {0})
check_player_seeds expected [] = ok tt
check_player_seeds expected (p ∷ ps) = do
  commitment ← or_fail (get_text p.player_id expected) player_seed_differs
  assert (same_bytes commitment p.commitment) player_seed_differs
  check_player_seeds expected ps

-- `players.indexOf(playerId)`, whose -1 is `none`
abbrev pub index_of : Bytes → List Bytes → Option ℕ
index_of player_id = find_index? (λ p. same_bytes p player_id)

abbrev pub reveal_all : Deck → List ℕ → Handled (List Reveal)
reveal_all deck [] = ok []
reveal_all deck (p ∷ ps) = do
  reveal ← from_fair (reveal_card deck p)
  rest ← reveal_all deck ps
  ok (reveal ∷ rest)

-- What `holeCardsFor` returns.
pub record PrivateDeal : Type 0 where
  pub hand_id : Bytes
  pub player_id : Bytes
  pub game : Option Game
  pub deck_root : Bytes
  pub reveals : List Reveal

module _ (platform : Platform) (tries : ℕ) where
  abbrev pub record_text : PublicRecord → Bytes
  record_text r = canonical_json platform.crypto (platform.record_json r)

  -- `commitDeck` up to its replay.
  unfoldable pub check_seeds :
      HandState → Bytes → Beacon → Bytes → List PlayerInput → Handled CommittedHand
  check_seeds state hand_id beacon server_seed player_seeds = do
    assert beacon.signature_verified unverified_beacon
    reservation ← or_fail state.beacon_reservation undefined_property
    assert (same_bytes beacon.source reservation.source) source_differs
    assert (same_bytes beacon.chain_hash reservation.chain_hash) chain_differs
    assert (beacon.round == reservation.round) round_differs
    rules ← or_fail state.rules undefined_property
    hand ← from_fair (
        create_committed_hand platform.crypto tries hand_id rules.json beacon player_seeds
          server_seed)
    expected ← or_fail state.server_commitment server_seed_differs
    assert (same_bytes hand.public_record.server_commitment expected) server_seed_differs
    assert (length hand.public_record.player_commitments == length state.player_commitments)
        reveal_count_differs
    check_player_seeds state.player_commitments hand.public_record.player_commitments
    ok hand

  abbrev pub check_beacon : HandState → Beacon → Handled (Unit {0})
  check_beacon state beacon = do
    assert (is_awaiting_beacon state.status) cannot_commit
    reservation ← or_fail state.beacon_reservation undefined_property
    assert (platform.verify_beacon beacon reservation) beacon_not_reverified

  -- The `try` around the record: if it throws, what `put` inserted is deleted.
  abbrev pub record_or_undo :
      Handled (Reply × HandStore)
      → HandStore
      → DealerStore
      → Bool
      → Bytes
      → PublicRecord
      → Served (Reply × PublicRecord)
  record_or_undo (ok answer) store dealer inserted hand_id published =
      (ok (answer.0, published), record { store = answer.1; dealer = dealer })
  record_or_undo (err e) store dealer inserted hand_id published = (
    err e,
    record { store = store; dealer = if inserted then delete_text hand_id dealer else dealer },
  )

  -- `commitDeck` from its second guard on.
  abbrev pub store_and_record :
      ℕ
      → Services
      → Command
      → Payload
      → HandState
      → Beacon
      → CommittedHand
      → Served (Reply × PublicRecord)
  store_and_record now services command payload state beacon hand =
      serve (check_beacon state beacon) services (λ _.
        serve (put_secret record_text services.dealer command.hand_id hand) services (λ put.
          record_or_undo (record_event platform now services.store command payload) services.store
            put.1 put.0 command.hand_id hand.public_record))

  -- `commitDeck` after its replay.
  abbrev pub commit_unless :
      Option Reply
      → Services
      → PublicRecord
      → Served (Reply × PublicRecord)
      → Served (Reply × PublicRecord)
  commit_unless (some reply) services published rest = (ok (reply, published), services)
  commit_unless none services published rest = rest

  -- `commitDeck`
  unfoldable pub commit_deck_for :
      ℕ → Services → Command → Beacon → Bytes → List PlayerInput → Served (Reply × PublicRecord)
  unfolding check_seeds put_secret replay record_event
  commit_deck_for now services command beacon server_seed player_seeds =
      let state = state_of platform services.store command.hand_id in
      serve (check_seeds state command.hand_id beacon server_seed player_seeds) services (λ hand.
        let payload = deck_committed beacon hand.public_record.deck_root in
        serve (replay platform services.store command payload) services (λ prior.
          commit_unless prior services hand.public_record
            (store_and_record now services command payload state beacon hand)))

  abbrev pub check_public_reveal : HandState → List ℕ → Reveal → ℕ → Handled (Unit {0})
  check_public_reveal state sequence reveal position = do
    assert (is_dealing state.status) cannot_reveal
    assert (not (includes state.public_positions position)) already_revealed
    expected ← or_fail (get_elem? sequence (length state.public_positions)) out_of_order
    assert (expected == position) out_of_order
    root ← or_fail state.deck_root invalid_proof
    assert (verify_card_reveal platform.crypto root reveal) invalid_proof

  -- `revealPublicCard`
  unfoldable pub reveal_public_card :
      ℕ → Services → Command → ℕ → Handled ((Reply × Reveal) × HandStore)
  unfolding replay record_event
  reveal_public_card now services command position = do
    let state = state_of platform services.store command.hand_id
    rules ← or_fail state.rules undefined_property
    plan ← plan_for rules
    let sequence = public_sequence plan.boards
    assert (includes sequence position) not_public
    hand ← or_fail (get_text command.hand_id services.dealer) secret_unavailable
    reveal ← from_fair (reveal_card hand.secret_state.deck position)
    (reply, store) ←
        replay_or platform now services.store command (public_card_revealed reveal)
          (check_public_reveal state sequence reveal position)
    ok ((reply, reveal), store)
