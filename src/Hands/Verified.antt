-- ===== src/Hands/Verified.antt =====
-- The transcript of every history verifies.
use x_poker.Base.{
  ℕ, ◌+◌, ◌<◌, ◌≡◌, refl, sym, ap, subst, ◌∙◌, true, Option, none, some, List, [], ◌∷◌, ◌++◌, arith,
  leb, ◌==◌, lt→ltb, ==_iff, ==_refl, ok, ◌>>=◌, >>=-eq-ok, assert-eq-ok, ok-injective, length,
  length-append, Bytes, same_bytes, same_bytes_refl,
}
use x_poker.Hands.Events.{Payload, EventBase, Event, Platform, invalid_hand_id, not_monotonic}
use x_poker.Hands.Transcript.{
  transcript_version, is_hand_id, check_time, next_sequence, previous_hash_of, event_base, Cursor,
  first_cursor, is_same_hand, is_not_before, hash_of, signed_text, append_event, verify_event,
  verify_events, verify_transcript,
}
use x_poker.Hands.Coordinator.{last_event}
use x_poker.Hands.History.{History, no_events, after_event}
use x_poker.Hands.Served.{assert-passed}

abbrev pub cursor_of : Option Event → Cursor
cursor_of none = first_cursor
cursor_of (some e) = record {
  index = e.base.sequence;
  previous_hash = e.event_hash;
  hand_id = some e.base.hand_id;
  previous_time = some e.base.occurred_at;
}

abbrev pub LastOf : Bytes → Option Event → Type 0
LastOf hand_id none = Unit
LastOf hand_id (some e) = e.base.hand_id ≡ hand_id

pub last_event-append : (es : List Event) (e : Event) → last_event (es ++ e ∷ []) ≡ some e
last_event-append [] e = refl
last_event-append (d ∷ []) e = refl
last_event-append (d ∷ f ∷ es) e = last_event-append (f ∷ es) e

check_time-ok :
    (last : Option Event) (now : ℕ)
    → check_time last now ≡ ok tt
    → is_not_before (cursor_of last).previous_time now ≡ true
check_time-ok none now h = refl
check_time-ok (some p) now h = assert-passed (leb p.base.occurred_at now) not_monotonic h

next_index : (last : Option Event) → (next_sequence last == (cursor_of last).index + 1) ≡ true
next_index none = refl
next_index (some p) = ==_refl (p.base.sequence + 1)

same_previous :
    (last : Option Event) → same_bytes (previous_hash_of last) (cursor_of last).previous_hash ≡ true
same_previous none = refl
same_previous (some p) = same_bytes_refl p.event_hash

same_hand :
    (hand_id : Bytes) (last : Option Event)
    → LastOf hand_id last
    → is_same_hand (cursor_of last).hand_id hand_id ≡ true
same_hand hand_id none l = refl
same_hand hand_id (some p) l =
    let same : same_bytes hand_id p.base.hand_id ≡ true =
      subst (λ k. same_bytes hand_id k ≡ true) (sym l) (same_bytes_refl hand_id) in
    ground (arith, same)

module _ (platform : Platform) where
  -- A verifier that accepts what the signer signs.
  abbrev pub Signs : Type 0
  Signs = (message : Bytes) → platform.verify message (platform.sign message) ≡ true

  -- What a signed event is.
  abbrev SignedAfter : Bytes → Payload → Option Event → ℕ → Event → Type 0
  SignedAfter hand_id payload last now e =
      (check_time last now ≡ ok tt)
      × (e.base ≡ record {
        version = transcript_version;
        hand_id = hand_id;
        sequence = next_sequence last;
        payload = payload;
        occurred_at = now;
        previous_hash = previous_hash_of last;
        signer_key_id = platform.key_id;
      })
      × (e.event_hash ≡ hash_of platform e.base)
      × (e.signature ≡ platform.sign (signed_text platform e.base e.event_hash))

  pub append_event-SignedAfter :
      (hand_id : Bytes) (payload : Payload) (last : Option Event) (now : ℕ) {e : Event}
      → append_event platform hand_id payload last now ≡ ok e
      → SignedAfter hand_id payload last now e
  unfolding append_event event_base
  append_event-SignedAfter hand_id payload last now h =
      let (base, made, h1) = >>=-eq-ok (event_base platform.key_id hand_id payload last now) _ h in
      let (_, m1) = assert-eq-ok (is_hand_id hand_id) invalid_hand_id _ made in
      let (_, timed, m2) = >>=-eq-ok (check_time last now) _ m1 in
      subst (SignedAfter hand_id payload last now) (ok-injective h1)
        (timed, sym (ok-injective m2), refl, refl)

  verify_event-appended :
      (hand_id : Bytes) (payload : Payload) (last : Option Event) (now : ℕ) (e : Event)
      → Signs
      → LastOf hand_id last
      → SignedAfter hand_id payload last now e
      → verify_event platform (cursor_of last) e ≡ ok (cursor_of (some e))
  unfolding verify_event
  verify_event-appended hand_id payload last now e signs l (timed, base, hash, signature) =
      let at = cursor_of last in
      let version : same_bytes e.base.version transcript_version ≡ true =
        subst (λ (b : EventBase). same_bytes b.version transcript_version ≡ true) (sym base) refl in
      let sequence : (e.base.sequence == at.index + 1) ≡ true =
        subst (λ (b : EventBase). (b.sequence == at.index + 1) ≡ true) (sym base)
          (next_index last) in
      let previous : same_bytes e.base.previous_hash at.previous_hash ≡ true =
        subst (λ (b : EventBase). same_bytes b.previous_hash at.previous_hash ≡ true) (sym base)
          (same_previous last) in
      let key : same_bytes e.base.signer_key_id platform.key_id ≡ true =
        subst (λ (b : EventBase). same_bytes b.signer_key_id platform.key_id ≡ true) (sym base)
          (same_bytes_refl platform.key_id) in
      let hand : is_same_hand at.hand_id e.base.hand_id ≡ true =
        subst (λ (b : EventBase). is_same_hand at.hand_id b.hand_id ≡ true) (sym base)
          (same_hand hand_id last l) in
      let time : is_not_before at.previous_time e.base.occurred_at ≡ true =
        subst (λ (b : EventBase). is_not_before at.previous_time b.occurred_at ≡ true) (sym base)
          (check_time-ok last now timed) in
      let hashed : same_bytes (hash_of platform e.base) e.event_hash ≡ true =
        subst (λ h. same_bytes (hash_of platform e.base) h ≡ true) (sym hash)
          (same_bytes_refl (hash_of platform e.base)) in
      let signed : platform.verify (signed_text platform e.base e.event_hash) e.signature ≡ true =
        subst (λ s. platform.verify (signed_text platform e.base e.event_hash) s ≡ true)
          (sym signature) (signs (signed_text platform e.base e.event_hash)) in
      let next : at.index + 1 ≡ e.base.sequence =
        sym ((==_iff e.base.sequence (at.index + 1)).0 sequence) in
      rw (verify_event, version, sequence, previous, key, hand, time, hashed, signed)
        (ap
          (λ i. ok (record {
            index = i;
            previous_hash = e.event_hash;
            hand_id = some e.base.hand_id;
            previous_time = some e.base.occurred_at;
          }))
          next)

  verify_events-append :
      (at : Cursor) (es : List Event) (e : Event) {end : Cursor}
      → verify_events platform at es ≡ ok end
      → verify_events platform at (es ++ e ∷ []) ≡ (verify_event platform end e >>= λ c. ok c)
  unfolding verify_events
  verify_events-append at [] e h =
      ap (λ (c : Cursor). verify_event platform c e >>= λ d. ok d) (ok-injective h)
  verify_events-append at (d ∷ es) e h =
      let (next, one, rest) = >>=-eq-ok (verify_event platform at d) _ h in
      rw one (verify_events-append next es e rest)

  -- The cursor at the end of a history, which has as many events as the last one's number says.
  pub History-cursor :
      (tries : ℕ) (hand_id : Bytes) (events : List Event)
      → Signs
      → History platform tries hand_id events
      → (verify_events platform first_cursor events ≡ ok (cursor_of (last_event events)))
        × LastOf hand_id (last_event events)
        × ((cursor_of (last_event events)).index ≡ length events)
  unfolding verify_events
  History-cursor tries hand_id _ signs no_events = (refl, tt, refl)
  History-cursor tries hand_id _ signs (after_event {events} now payload event h signed allowed) =
      let (verified, l, many) = History-cursor tries hand_id events signs h in
      let last = last_event events in
      let after = append_event-SignedAfter hand_id payload last now signed in
      let one = verify_event-appended hand_id payload last now event signs l after in
      let end = sym (last_event-append events event) in
      (
        verify_events-append first_cursor events event verified
            ∙ rw one refl
            ∙ ap (λ o. ok (cursor_of o)) end,
        subst (LastOf hand_id) end (ap (λ (b : EventBase). b.hand_id) after.1),
        subst (λ o. (cursor_of o).index ≡ length (events ++ event ∷ [])) end
            (ap (λ (b : EventBase). b.sequence) after.1
              ∙ (==_iff (next_sequence last) ((cursor_of last).index + 1)).0 (next_index last)
              ∙ omega (arith, many, length-append events (event ∷ []))),
      )

  last_event-some : (es : List Event) → 0 < length es → (e : Event) × (last_event es ≡ some e)
  last_event-some [] h = absurd (omega (arith, h))
  last_event-some (e ∷ []) h = (e, refl)
  last_event-some (e ∷ f ∷ es) h = last_event-some (f ∷ es) (omega arith)

  pub History-Verifies :
      (tries : ℕ) (hand_id : Bytes) (events : List Event)
      → Signs
      → History platform tries hand_id events
      → 0 < length events
      → (head : Bytes) × (verify_transcript platform events (some head) (some (length events))
          ≡ ok (head, some hand_id))
  unfolding verify_transcript
  History-Verifies tries hand_id events signs h some_event =
      let (verified, l, many) = History-cursor tries hand_id events signs h in
      let (last, is_last) = last_event-some events some_event in
      let ends : verify_events platform first_cursor events ≡ ok (cursor_of (some last)) =
        verified ∙ ap (λ o. ok (cursor_of o)) is_last in
      let hand : last.base.hand_id ≡ hand_id = subst (LastOf hand_id) is_last l in
      (
        last.event_hash,
        rw
            (
              verify_transcript,
              lt→ltb 0 (length events) some_event,
              ends,
              ==_refl (length events),
              same_bytes_refl last.event_hash,
            )
            (ap (λ k. ok (last.event_hash, some k)) hand),
      )
