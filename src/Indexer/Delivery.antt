-- ===== src/Indexer/Delivery.antt =====
-- indexer.js: what handling events leaves in the cache, and the ledger that it reports.
use mathlib.Core.Path.{subst}
use io_t_billing_service.Base.{
  ltb, ℕ, ◌≤◌, ◌≡◌, ◌≢◌, refl, sym, ◌∙◌, true, Option, none, some, List, [], ◌∷◌, map, Text,
  get_elem?, arith, All, Bool-cases, inl, inr, ℤ,
}
use io_t_billing_service.Decode.{scval_to_string, Field}
use io_t_billing_service.Store.{CacheStore, Outcome, ok, threw, EventRow, conflicts, ingest}
use io_t_billing_service.Store.Conflicts.{conflicts-append_true}
use io_t_billing_service.Store.Ingest.{ingest_stores}
use io_t_billing_service.Indexer.Event.{
  Event, State, Setup, Decoded, skipped, row, unreadable, Handled, handled, raised, after_ingest,
  after_decoding, decode_event, handle_event, assemble, device_text, is_meter,
}
use io_t_billing_service.Indexer.Poll.{reached, stopped, higher, handle_events}
use io_t_billing_service.Indexer.Handling.{Grows, handle_events-Grows}
use io_t_billing_service.Indexer.Keeping.{progress_state}

handled-injective : {a b : State} → handled a ≡ handled b → a ≡ b
handled-injective e = cc

module _ {X : Type 0} (env : Setup X) where
  abbrev pub topic_of : Event X → ℕ → Option (Field X)
  topic_of e i = get_elem? (map (scval_to_string env.sdk) e.topic) i

  -- A `meter` event whose second topic names a device.
  abbrev pub IsBilling : Event X → Type 0
  IsBilling e = (is_meter (topic_of e 0) ≡ true) × (device_text (topic_of e 1) ≢ none)

  abbrev pub IsStored : CacheStore → Event X → Type 0
  IsStored s e = conflicts (some e.id) s.meter_events ≡ true

  assemble-eq-row :
      (e : Event X) (device : Option Text) (now : Text) (a b c d f : Option (Option ℤ))
      {r : EventRow}
      → assemble env e device now a b c d f ≡ row r
      → (r.event_id ≡ some e.id) × (r.device_id ≡ device)
  unfolding assemble
  assemble-eq-row e device now (some a) (some b) (some c) (some d) (some f) h = (cc, cc)
  assemble-eq-row e device now _ _ _ _ _ h = (cc, cc)

  decode_event-eq-row :
      (e : Event X) (now : Text) {r : EventRow}
      → IsBilling e
      → decode_event env e now ≡ row r
      → (r.event_id ≢ none) × (r.device_id ≢ none) × (r.event_id ≡ some e.id)
  unfolding decode_event
  decode_event-eq-row e now (meter, named) h =
      let (id, device) = assemble-eq-row e _ now _ _ _ _ _ (rw meter at h) in
      (λ missing. (cc), λ missing. named (sym device ∙ missing), id)

  assemble-ne-skipped :
      (e : Event X) (device : Option Text) (now : Text) (a b c d f : Option (Option ℤ))
      → assemble env e device now a b c d f ≢ skipped
  unfolding assemble
  assemble-ne-skipped e device now (some a) (some b) (some c) (some d) (some f) h = cc
  assemble-ne-skipped e device now _ _ _ _ _ h = cc

  decode_event-ne-skipped :
      (e : Event X) (now : Text) → IsBilling e → decode_event env e now ≢ skipped
  unfolding decode_event
  decode_event-ne-skipped e now (meter, named) h =
      assemble-ne-skipped e _ now _ _ _ _ _ (rw meter at h)

  after_ingest_stores :
      (r : EventRow) (st : State) {st' : State} (o : Outcome CacheStore)
      → r.event_id ≢ none
      → r.device_id ≢ none
      → ingest r st.store ≡ o
      → after_ingest r o st ≡ handled st'
      → conflicts r.event_id st'.store.meter_events ≡ true
  unfolding after_ingest
  after_ingest_stores r st {st'} (ok s) named known h e =
      subst (λ (x : State). conflicts r.event_id x.store.meter_events ≡ true) (handled-injective e)
        (ingest_stores r st.store named known h)
  after_ingest_stores r st threw named known h e = cc

  after_decoding_stores :
      (e : Event X) (st : State) {st' : State} (d : Decoded)
      → IsBilling e
      → decode_event env e (env.clock st.emitted) ≡ d
      → after_decoding d st ≡ handled st'
      → IsStored st'.store e
  unfolding after_decoding
  after_decoding_stores e st skipped b d h = absurd (decode_event-ne-skipped e _ b d)
  after_decoding_stores e st unreadable b d h = cc
  after_decoding_stores e st {st'} (row r) b d h =
      let (named, known, id) = decode_event-eq-row e _ b d in
      subst (λ k. conflicts k st'.store.meter_events ≡ true) id
        (after_ingest_stores r st (ingest r st.store) named known refl h)

  -- A billing event that is handled without an exception is in the cache.
  pub handle_event_stores :
      (e : Event X) (st : State) {st' : State}
      → IsBilling e
      → handle_event env e st ≡ handled st'
      → IsStored st'.store e
  unfolding handle_event
  handle_event_stores e st b h = after_decoding_stores e st _ b refl h

  pub Grows-IsStored : (e : Event X) {s t : CacheStore} → Grows s t → IsStored s e → IsStored t e
  Grows-IsStored e {s} g h = rw g.added (conflicts-append_true (some e.id) s.meter_events g.new h)

  pub handle_events-Grows_of :
      (es : List (Event X)) (last last' : Option ℕ) (st st' : State)
      → handle_events env es last st ≡ reached last' st'
      → Grows st.store st'.store
  handle_events-Grows_of es last last' st st' h =
      subst (λ p. Grows st.store (progress_state p).store) h (handle_events-Grows env es last st)

  handle_events-cons :
      (e : Event X) (es : List (Event X)) (last last' : Option ℕ) (st st' : State)
      → handle_events env (e ∷ es) last st ≡ reached last' st'
      → (mid : State) × (handle_event env e st ≡ handled mid)
        × (handle_events env es (higher e.ledger last) mid ≡ reached last' st')
  unfolding handle_events
  handle_events-cons e es last last' st st' h = go (handle_event env e st) refl h
    where
      go :
          (o : Handled)
          → handle_event env e st ≡ o
          → elim o [
            | handled s ↦ handle_events env es (higher e.ledger last) s
            | raised s ↦ stopped s
          ]
            ≡ reached last' st'
          → (mid : State) × (handle_event env e st ≡ handled mid)
            × (handle_events env es (higher e.ledger last) mid ≡ reached last' st')
      go (handled s) a b = (s, a, b)
      go (raised s) a b = cc

  -- So is each of a list of events that was handled to its end.
  pub handle_events_stores :
      (es : List (Event X)) (last last' : Option ℕ) (st st' : State)
      → handle_events env es last st ≡ reached last' st'
      → All (λ e. IsBilling e → IsStored st'.store e) es
  handle_events_stores [] last last' st st' h = tt
  handle_events_stores (e ∷ es) last last' st st' h =
      let (mid, first, rest) = handle_events-cons e es last last' st st' h in
      (
        (λ b.
            Grows-IsStored e (handle_events-Grows_of es _ last' mid st' rest)
              (handle_event_stores e st b first)),
        handle_events_stores es _ last' mid st' rest,
      )

  higher_bounds :
      (ledger n : ℕ) → (m : ℕ) × (higher ledger (some n) ≡ some m) × (n ≤ m) × (ledger ≤ m)
  unfolding higher
  higher_bounds ledger n = elim (Bool-cases (ltb n ledger)) [
    | inl above ↦ (ledger, rw above refl, ground arith, ground arith)
    | inr below ↦ (n, rw below refl, ground arith, ground arith)
  ]

  -- The ledger reported is at least that of each event, and at least the one to begin with.
  pub handle_events_bounds :
      (es : List (Event X)) (n : ℕ) (last' : Option ℕ) (st st' : State)
      → handle_events env es (some n) st ≡ reached last' st'
      → (m : ℕ) × (last' ≡ some m) × (n ≤ m) × All (λ (e : Event X). e.ledger ≤ m) es
  handle_events_bounds [] n last' st st' h = (n, unfold handle_events in cc h, omega arith, tt)
  handle_events_bounds (e ∷ es) n last' st st' h =
      let (mid, first, rest) = handle_events-cons e es (some n) last' st st' h in
      let (k, same, above, here) = higher_bounds e.ledger n in
      let (m, top, below, all) =
        handle_events_bounds es k last' mid st'
          (subst (λ l. handle_events env es l mid ≡ reached last' st') same rest) in
      (m, top, omega arith, (omega arith, all))
