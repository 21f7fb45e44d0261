-- ===== src/Hands/Pinned.antt =====
-- The head and the length of a transcript pin its events.
use x_poker.Base.{
  ℕ, ◌+◌, ◌≡◌, refl, sym, ap, ap₂, ◌∙◌, Option, some, List, [], ◌∷◌, map, arith, ltb, ◌==◌, ==_iff,
  ok, >>=-eq-ok, assert-eq-ok, ok-injective, length, All, All-map, Bytes, same_bytes, same_bytes→eq,
}
use x_poker.Hands.Events.{EventBase, Event, Platform}
use x_poker.Hands.Transcript.{
  transcript_version, empty_transcript, wrong_version, not_contiguous, broken_chain, unexpected_key,
  several_hands, invalid_times, invalid_event_hash, invalid_signature, length_differs, head_differs,
  Cursor, first_cursor, is_same_hand, is_not_before, hash_of, signed_text, verify_event,
  verify_events, verify_transcript,
}

module _ (platform : Platform) where
  -- An event of one list with the hash of an event of the other is that event, without its signature.
  abbrev pub NoCollision : List Event → List Event → Type 0
  NoCollision es fs =
      All
        (λ (e : Event).
          All (λ (f : Event). hash_of platform e.base ≡ hash_of platform f.base → e.base ≡ f.base)
            fs)
        es

  -- An event that passes has the hash that it says, after the one before it.
  verify_event_links :
      (at next : Cursor) (e : Event)
      → verify_event platform at e ≡ ok next
      → (e.base.previous_hash ≡ at.previous_hash)
        × (hash_of platform e.base ≡ e.event_hash)
        × (next.previous_hash ≡ e.event_hash)
  unfolding verify_event
  verify_event_links at next e h =
      let base = e.base in
      let (_, h1) = assert-eq-ok (same_bytes base.version transcript_version) wrong_version _ h in
      let (_, h2) = assert-eq-ok (base.sequence == at.index + 1) not_contiguous _ h1 in
      let (linked, h3) =
        assert-eq-ok (same_bytes base.previous_hash at.previous_hash) broken_chain _ h2 in
      let (_, h4) =
        assert-eq-ok (same_bytes base.signer_key_id platform.key_id) unexpected_key _ h3 in
      let (_, h5) = assert-eq-ok (is_same_hand at.hand_id base.hand_id) several_hands _ h4 in
      let (_, h6) =
        assert-eq-ok (is_not_before at.previous_time base.occurred_at) invalid_times _ h5 in
      let (hashed, h7) =
        assert-eq-ok (same_bytes (hash_of platform base) e.event_hash) invalid_event_hash _ h6 in
      let (_, h8) =
        assert-eq-ok (platform.verify (signed_text platform base e.event_hash) e.signature)
          invalid_signature _ h7 in
      (
        same_bytes→eq base.previous_hash at.previous_hash linked,
        same_bytes→eq (hash_of platform base) e.event_hash hashed,
        ap (λ (c : Cursor). c.previous_hash) (sym (ok-injective h8)),
      )

  weaken :
      (e : Event) (es fs : List Event) (f : Event)
      → NoCollision (e ∷ es) (f ∷ fs)
      → NoCollision es fs
  weaken e es fs f (_, others) = All-map es (λ d h. h.1) others

  -- Lists of one length that end at the same hash begin at the same hash.
  verify_events_pinned :
      (at to : Cursor) (es fs : List Event) {at_end to_end : Cursor}
      → NoCollision es fs
      → length es ≡ length fs
      → verify_events platform at es ≡ ok at_end
      → verify_events platform to fs ≡ ok to_end
      → at_end.previous_hash ≡ to_end.previous_hash
      → (map (λ (e : Event). e.base) es ≡ map (λ (e : Event). e.base) fs)
        × (at.previous_hash ≡ to.previous_hash)
  unfolding verify_events
  verify_events_pinned at to [] [] n long h k e = (
    refl,
    ap (λ (c : Cursor). c.previous_hash) (ok-injective h)
        ∙ e
        ∙ ap (λ (c : Cursor). c.previous_hash) (sym (ok-injective k)),
  )
  verify_events_pinned at to [] (f ∷ fs) n long h k e = absurd (omega (arith, long))
  verify_events_pinned at to (d ∷ es) [] n long h k e = absurd (omega (arith, long))
  verify_events_pinned at to (d ∷ es) (f ∷ fs) n long h k e =
      let (next, one, rest) = >>=-eq-ok (verify_event platform at d) _ h in
      let (next', one', rest') = >>=-eq-ok (verify_event platform to f) _ k in
      let (same, met) =
        verify_events_pinned next next' es fs (weaken d es fs f n) (omega (arith, long)) rest rest'
          e in
      let (linked, hashed, is) = verify_event_links at next d one in
      let (linked', hashed', is') = verify_event_links to next' f one' in
      let bases : d.base ≡ f.base = n.0.0 (hashed ∙ sym is ∙ met ∙ is' ∙ sym hashed') in
      (ap₂ ◌∷◌ bases same, sym linked ∙ ap (λ (b : EventBase). b.previous_hash) bases ∙ linked')

  verify_transcript_ends :
      (events : List Event) (head : Bytes) (size : ℕ) {answer : Bytes × Option Bytes}
      → verify_transcript platform events (some head) (some size) ≡ ok answer
      → (end : Cursor) × (verify_events platform first_cursor events ≡ ok end)
        × (length events ≡ size)
        × (end.previous_hash ≡ head)
  unfolding verify_transcript
  verify_transcript_ends events head size h =
      let (_, h1) = assert-eq-ok (ltb 0 (length events)) empty_transcript _ h in
      let (end, verified, h2) = >>=-eq-ok (verify_events platform first_cursor events) _ h1 in
      let (long, h3) = assert-eq-ok (length events == size) length_differs _ h2 in
      let (same, _) = assert-eq-ok (same_bytes end.previous_hash head) head_differs _ h3 in
      (
        end,
        verified,
        (==_iff (length events) size).0 long,
        same_bytes→eq end.previous_hash head same,
      )

  -- Two transcripts that verify with the same expected head and length have the same events but for their
  -- signatures, unless two different events of them have the same hash.
  pub verify_transcript_pinned :
      (events others : List Event) (head : Bytes) (size : ℕ)
      (answer other_answer : Bytes × Option Bytes)
      → NoCollision events others
      → verify_transcript platform events (some head) (some size) ≡ ok answer
      → verify_transcript platform others (some head) (some size) ≡ ok other_answer
      → map (λ (e : Event). e.base) events ≡ map (λ (e : Event). e.base) others
  verify_transcript_pinned events others head size answer other_answer n h k =
      let (end, verified, long, at) = verify_transcript_ends events head size h in
      let (end', verified', long', at') = verify_transcript_ends others head size k in
      let (same, _) =
        verify_events_pinned first_cursor first_cursor events others n (long ∙ sym long') verified
          verified' (at ∙ sym at') in
      same
