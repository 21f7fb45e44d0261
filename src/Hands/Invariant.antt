-- ===== src/Hands/Invariant.antt =====
-- The state of a history: seeds are committed before the beacon is reserved.
use x_poker.Base.{
  ℕ, ◌+◌, ◌≡◌, refl, sym, ap, subst, inl, inr, Bool, true, false, not, ◌&&◌, Option, none, some,
  List, [], ◌∷◌, ◌++◌, arith, leb, ◌==◌, ==_iff, Option-cases, ok, assert-eq-ok, length, All, Bytes,
  has_bytes, unique_bytes,
}
use x_poker.Hands.Events.{
  Payload, hand_opened, player_committed, beacon_reserved, deck_committed, public_card_revealed,
  hand_completed, hand_aborted, EventBase, Event, Platform, invalid_room, invalid_server_commitment,
  unsupported_game, invalid_seat_count, player_count_differs, players_not_unique,
  commitments_closed, not_seated, already_committed, invalid_commitment, too_early,
  commitments_missing, cannot_commit,
}
use x_poker.Hands.Transcript.{append_event}
use x_poker.Hands.Stores.{TextMap, get_text}
use x_poker.Hands.State.{
  HandStatus, missing, committing, awaiting_beacon, dealing, complete, aborted, HandState,
  missing_hand, apply_payload, apply_event, reduce_from, reduce_hand, is_committing,
  is_awaiting_beacon, is_dealing,
}
use x_poker.Hands.Coordinator.{is_room_id, last_event, is_supported, has_committed}
use x_poker.Hands.Maps.{set_text-All, get_text-All}
use x_poker.Hands.History.{Allowed, History, no_events, after_event}
use x_poker.Hands.Served.{assert-passed}
use x_poker.Hands.Verified.{append_event-SignedAfter}
use x_poker.Hands.Committed.{uncommitted, uncommitted-set_text, uncommitted-none, length-set_text}

pub reduce_from-append :
    (state : HandState) (es : List Event) (e : Event)
    → reduce_from state (es ++ e ∷ []) ≡ apply_event (reduce_from state es) e
unfolding reduce_from
reduce_from-append state [] e = refl
reduce_from-append state (d ∷ es) e = reduce_from-append (apply_event state d) es e

-- From the reservation of the beacon to the end of the hand.
abbrev pub is_closed : HandStatus → Bool
is_closed awaiting_beacon = true
is_closed dealing = true
is_closed complete = true
is_closed _ = false

abbrev pub IsSeated : HandState → Type 0
IsSeated s =
    (unique_bytes s.players ≡ true)
    × All (λ e. length e.1 ≡ 32) s.player_commitments
    × (uncommitted s.player_commitments s.players + length s.player_commitments ≡ length s.players)
    × (is_closed s.status ≡ true → uncommitted s.player_commitments s.players ≡ 0)

committing-open : (status : HandStatus) → is_committing status ≡ true → is_closed status ≡ true → ⊥
committing-open missing h c = cc
committing-open committing h c = cc
committing-open awaiting_beacon h c = cc
committing-open dealing h c = cc
committing-open complete h c = cc
committing-open aborted h c = cc

awaiting-closed : (status : HandStatus) → is_awaiting_beacon status ≡ true → is_closed status ≡ true
awaiting-closed missing h = cc
awaiting-closed committing h = cc
awaiting-closed awaiting_beacon h = refl
awaiting-closed dealing h = cc
awaiting-closed complete h = cc
awaiting-closed aborted h = cc

pub dealing-closed : (status : HandStatus) → is_dealing status ≡ true → is_closed status ≡ true
dealing-closed missing h = cc
dealing-closed committing h = cc
dealing-closed awaiting_beacon h = cc
dealing-closed dealing h = refl
dealing-closed complete h = cc
dealing-closed aborted h = cc

pub length-zero {ℓ} : {A : Type ℓ} (xs : List A) → length xs ≡ 0 → xs ≡ []
length-zero [] h = refl
length-zero (x ∷ xs) h = absurd (omega (arith, h))

not_committed :
    (m : TextMap Bytes) (player : Bytes)
    → All (λ e. length e.1 ≡ 32) m
    → not (has_committed (get_text player m)) ≡ true
    → get_text player m ≡ none
not_committed m player a h = elim (Option-cases (get_text player m)) [
  | inl absent ↦ absent
  | inr (commitment, found) ↦
      let long = get_text-All (λ c. length c ≡ 32) m player a found in
      ground (arith, h, found, long)
]

module _ (platform : Platform) (tries : ℕ) where
  apply_event-IsSeated :
      (hand_id : Bytes) (now : ℕ) (events : List Event) (payload : Payload) (version : ℕ)
      (known : Option Bytes)
      → IsSeated (reduce_hand events)
      → Allowed platform tries hand_id now events payload
      → IsSeated (
          apply_payload
            (record (reduce_hand events) { version = version; hand_id = known })
            payload)
  unfolding apply_payload reduce_from
  apply_event-IsSeated hand_id now events (hand_opened room rules players commitment) version known
        (u, a, n, c) (first, passed) =
      let (_, p1) = assert-eq-ok (is_room_id room) invalid_room _ passed in
      let (_, p2) = assert-eq-ok (length commitment == 32) invalid_server_commitment _ p1 in
      let (_, p3) = assert-eq-ok (is_supported rules.game) unsupported_game _ p2 in
      let (_, p4) = assert-eq-ok (leb 2 rules.seats && leb rules.seats 9) invalid_seat_count _ p3 in
      let (_, p5) = assert-eq-ok (length players == rules.seats) player_count_differs _ p4 in
      let unique = assert-passed (unique_bytes players) players_not_unique p5 in
      let fresh : (reduce_hand events).player_commitments ≡ [] =
        ap (λ es. (reduce_hand es).player_commitments) (length-zero events first) in
      (
        unique,
        a,
        subst (λ m. uncommitted m players + length m ≡ length players) (sym fresh)
            (omega (arith, uncommitted-none players)),
        λ closed. cc,
      )
  apply_event-IsSeated hand_id now events (player_committed player commitment) version known
        (u, a, n, c) passed =
      let s = reduce_hand events in
      let (collecting, p1) = assert-eq-ok (is_committing s.status) commitments_closed _ passed in
      let (has, p2) = assert-eq-ok (has_bytes s.players player) not_seated _ p1 in
      let (none_yet, p3) =
        assert-eq-ok (not (has_committed (get_text player s.player_commitments))) already_committed
          _ p2 in
      let long = assert-passed (length commitment == 32) invalid_commitment p3 in
      let absent = not_committed s.player_commitments player a none_yet in
      let fewer =
        uncommitted-set_text s.player_commitments player commitment s.players u has absent in
      let more = length-set_text s.player_commitments player commitment absent in
      (
        u,
        set_text-All (λ c. length c ≡ 32) s.player_commitments player commitment
            ((==_iff (length commitment) 32).0 long) a,
        omega (arith, n, fewer, more),
        λ closed. absurd (committing-open s.status collecting closed),
      )
  apply_event-IsSeated hand_id now events (beacon_reserved reservation) version known (u, a, n, c)
        passed =
      let s = reduce_hand events in
      let (collecting, p1) = assert-eq-ok (is_committing s.status) too_early _ passed in
      let (full, p2) =
        assert-eq-ok (length s.player_commitments == length s.players) commitments_missing _ p1 in
      (
        u,
        a,
        n,
        λ closed.
            omega (arith, n, (==_iff (length s.player_commitments) (length s.players)).0 full),
      )
  apply_event-IsSeated hand_id now events (deck_committed beacon root) version known (u, a, n, c)
        (passed, seeds) =
      let s = reduce_hand events in
      let (waiting, _) = assert-eq-ok (is_awaiting_beacon s.status) cannot_commit _ passed in
      (u, a, n, λ closed. c (awaiting-closed s.status waiting))
  apply_event-IsSeated hand_id now events (public_card_revealed reveal) version known kept passed =
      kept
  apply_event-IsSeated hand_id now events (hand_completed digest root) version known (u, a, n, c)
        dealt =
      (u, a, n, λ closed. c (dealing-closed (reduce_hand events).status dealt))
  apply_event-IsSeated hand_id now events (hand_aborted reason refunds) version known (u, a, n, c)
        passed =
      (u, a, n, λ closed. cc)

  -- What holds after a payload holds after its event.
  pub History-step :
      (P : HandState → Type 0) (hand_id : Bytes) (now : ℕ) (events : List Event) (event : Event)
      (payload : Payload)
      → append_event platform hand_id payload (last_event events) now ≡ ok event
      → P (
          apply_payload
            (record (reduce_hand events) {
              version = event.base.sequence;
              hand_id = some event.base.hand_id;
            })
            payload)
      → P (reduce_hand (events ++ event ∷ []))
  unfolding reduce_from
  History-step P hand_id now events event payload signed h =
      let same : event.base.payload ≡ payload =
        ap (λ (b : EventBase). b.payload)
          (append_event-SignedAfter platform hand_id payload (last_event events) now signed).1 in
      subst P (sym (reduce_from-append missing_hand events event)) (
        subst
          (λ p. P (
            apply_payload
              (record (reduce_hand events) {
                version = event.base.sequence;
                hand_id = some event.base.hand_id;
              })
              p))
          (sym same) h)

  pub History-IsSeated :
      (hand_id : Bytes) (events : List Event)
      → History platform tries hand_id events
      → IsSeated (reduce_hand events)
  unfolding reduce_from
  History-IsSeated hand_id _ no_events = (refl, tt, refl, λ closed. refl)
  History-IsSeated hand_id _ (after_event {events} now payload event h signed allowed) =
      History-step IsSeated hand_id now events event payload signed (
        apply_event-IsSeated hand_id now events payload event.base.sequence
          (some event.base.hand_id) (History-IsSeated hand_id events h) allowed)
