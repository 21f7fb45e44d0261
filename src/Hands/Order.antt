-- ===== src/Hands/Order.antt =====
-- Public cards are revealed in the order of the deal plan.
use x_poker.Base.{
  ℕ, zero, suc, ◌+◌, ◌≡◌, refl, sym, ap, subst, ◌∙◌, ◌⊎◌, inl, inr, not, Option, some, List, [],
  ◌∷◌, ◌++◌, arith, ◌==◌, ==_iff, ok, or_fail, >>=-eq-ok, assert-eq-ok, ok-injective,
  some-injective, or_fail-eq-ok, length, take, get_elem?, length-append, includes, Bytes,
}
use x_poker.Fairness.Cards.{Reveal}
use x_poker.Fairness.Plan.{DealPlan}
use x_poker.Hands.Events.{
  Rules, Payload, hand_opened, player_committed, beacon_reserved, deck_committed,
  public_card_revealed, hand_completed, hand_aborted, Event, Platform, cannot_reveal,
  already_revealed, out_of_order,
}
use x_poker.Hands.State.{HandState, apply_payload, reduce_from, reduce_hand, is_dealing}
use x_poker.Hands.Dealing.{plan_for, public_sequence, check_public_reveal}
use x_poker.Hands.History.{Allowed, History, no_events, after_event}
use x_poker.Hands.Invariant.{length-zero, History-step}

take-snoc :
    {A : Type 0} (xs : List A) (n : ℕ) {x : A}
    → get_elem? xs n ≡ some x
    → take (n + 1) xs ≡ take n xs ++ x ∷ []
take-snoc [] n h = cc
take-snoc (y ∷ xs) zero h = ap (λ z. z ∷ []) (some-injective h)
take-snoc (y ∷ xs) (suc n) {x} h =
    subst (λ k. take k (y ∷ xs) ≡ y ∷ (take n xs ++ x ∷ [])) (shift n)
      (ap (◌∷◌ y) (take-snoc xs n h))
  where
    shift : (n : ℕ) → suc (n + 1) ≡ suc n + 1
    shift n = omega arith

-- What has been shown is the beginning of what the plan of the hand's rules shows.
abbrev pub InOrder : HandState → Type 0
InOrder s =
    (s.public_positions ≡ [])
    ⊎ ((rules : Rules) × (plan : DealPlan) × (s.rules ≡ some rules)
        × (plan_for rules ≡ ok plan)
        × (s.public_positions ≡ take (length s.public_positions) (public_sequence plan.boards)))

module _ (platform : Platform) (tries : ℕ) where
  begins :
      (s : HandState) (rules : Rules) (plan : DealPlan)
      → s.rules ≡ some rules
      → plan_for rules ≡ ok plan
      → InOrder s
      → s.public_positions ≡ take (length s.public_positions) (public_sequence plan.boards)
  begins s rules plan ruled planned (inl none_yet) =
      subst (λ ps. ps ≡ take (length ps) (public_sequence plan.boards)) (sym none_yet) refl
  begins s rules plan ruled planned (inr (rules', plan', ruled', planned', shown)) =
      let same : rules' ≡ rules = some-injective (sym ruled' ∙ ruled) in
      let plans : plan' ≡ plan = ok-injective (sym planned' ∙ ap plan_for same ∙ planned) in
      subst
        (λ (p : DealPlan).
          s.public_positions ≡ take (length s.public_positions) (public_sequence p.boards))
        plans shown

  next_shown :
      (s : HandState) (sequence : List ℕ) (reveal : Reveal)
      → check_public_reveal platform tries s sequence reveal reveal.position ≡ ok tt
      → s.public_positions ≡ take (length s.public_positions) sequence
      → s.public_positions ++ reveal.position ∷ []
        ≡ take (length (s.public_positions ++ reveal.position ∷ [])) sequence
  next_shown s sequence reveal passed shown =
      let n = length s.public_positions in
      let (_, p1) = assert-eq-ok (is_dealing s.status) cannot_reveal _ passed in
      let (_, p2) =
        assert-eq-ok (not (includes s.public_positions reveal.position)) already_revealed _ p1 in
      let (expected, found, p3) = >>=-eq-ok (or_fail (get_elem? sequence n) out_of_order) _ p2 in
      let (same, _) = assert-eq-ok (expected == reveal.position) out_of_order _ p3 in
      let at : get_elem? sequence n ≡ some reveal.position =
        or_fail-eq-ok (get_elem? sequence n) out_of_order found
        ∙ ap some ((==_iff expected reveal.position).0 same) in
      let long : n + 1 ≡ length (s.public_positions ++ reveal.position ∷ []) =
        omega (arith, length-append s.public_positions (reveal.position ∷ [])) in
      ap (λ xs. xs ++ reveal.position ∷ []) shown
      ∙ sym (take-snoc sequence n at)
      ∙ ap (λ k. take k sequence) long

  apply_payload-InOrder :
      (hand_id : Bytes) (now : ℕ) (events : List Event) (payload : Payload) (version : ℕ)
      (known : Option Bytes)
      → InOrder (reduce_hand events)
      → Allowed platform tries hand_id now events payload
      → InOrder (
          apply_payload
            (record (reduce_hand events) { version = version; hand_id = known })
            payload)
  unfolding apply_payload reduce_from
  apply_payload-InOrder hand_id now events (hand_opened room rules players commitment) version known
        o (first, _) =
      inl (ap (λ es. (reduce_hand es).public_positions) (length-zero events first))
  apply_payload-InOrder hand_id now events (player_committed p c) version known o a = o
  apply_payload-InOrder hand_id now events (beacon_reserved r) version known o a = o
  apply_payload-InOrder hand_id now events (deck_committed b root) version known o a = o
  apply_payload-InOrder hand_id now events (public_card_revealed reveal) version known o
        (rules, plan, ruled, planned, passed) =
      let s = reduce_hand events in
      inr (
        rules,
        plan,
        ruled,
        planned,
        next_shown s (public_sequence plan.boards) reveal passed
            (begins s rules plan ruled planned o),
      )
  apply_payload-InOrder hand_id now events (hand_completed d root) version known o a = o
  apply_payload-InOrder hand_id now events (hand_aborted r f) version known o a = o

  pub History-InOrder :
      (hand_id : Bytes) (events : List Event)
      → History platform tries hand_id events
      → InOrder (reduce_hand events)
  unfolding reduce_from
  History-InOrder hand_id _ no_events = inl refl
  History-InOrder hand_id _ (after_event {events} now payload event h signed allowed) =
      History-step platform tries InOrder hand_id now events event payload signed (
        apply_payload-InOrder hand_id now events payload event.base.sequence
          (some event.base.hand_id) (History-InOrder hand_id events h) allowed)
