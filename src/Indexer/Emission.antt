-- ===== src/Indexer/Emission.antt =====
-- What the rows that are passed to `onEvent` hold: bigints, in the amounts.
use mathlib.Core.Path.{subst}
use io_t_billing_service.Base.{
  ℕ, ◌≡◌, ◌≢◌, refl, Bool-cases, inl, inr, get_elem?, map, true, Option, some, [], Text, All,
  All-append, ℤ,
}
use io_t_billing_service.Decode.{scval_to_string}
use io_t_billing_service.Store.{EventRow, CacheStore, Outcome, ok, threw, ingest}
use io_t_billing_service.Hub.{has_bigint}
use io_t_billing_service.Indexer.Event.{
  Event, State, Setup, Decoded, skipped, row, unreadable, assemble, after_ingest, after_decoding,
  decode_event, handle_event, is_meter,
}
use io_t_billing_service.Indexer.Poll.{
  Rpc, Fetched, complete, failed, exhausted, after_fetching, poll, state_of,
}
use io_t_billing_service.Indexer.Keeping.{handled_state, fetched_state, fetch_pages_keep}

-- A row that JSON.stringify throws for.
abbrev pub HasBigint : EventRow → Type 0
HasBigint r = has_bigint r ≡ true

skipped-ne-row : {r : EventRow} → skipped ≢ row r
skipped-ne-row h = cc

pub row-injective : {a b : EventRow} → row a ≡ row b → a ≡ b
row-injective h = cc

module _ {X : Type 0} (env : Setup X) where
  assemble-HasBigint :
      (e : Event X) (device : Option Text) (now : Text) (a b c d f : Option (Option ℤ))
      (r : EventRow)
      → assemble env e device now a b c d f ≡ row r
      → HasBigint r
  unfolding assemble has_bigint
  assemble-HasBigint e device now (some a) (some b) (some c) (some d) (some f) r h =
      subst HasBigint (row-injective h) refl
  assemble-HasBigint e device now _ _ _ _ _ r h = cc

  -- What holds of every row that is assembled holds of the row of every event.
  pub decode_event_keep :
      (P : EventRow → Type 0)
      → ((e : Event X) (device : Option Text) (now : Text) (a b c d f : Option (Option ℤ))
            (r : EventRow)
          → assemble env e device now a b c d f ≡ row r
          → P r)
      → (e : Event X) (now : Text) {r : EventRow} → decode_event env e now ≡ row r
      → P r
  unfolding decode_event
  decode_event_keep P each e now h =
      elim (Bool-cases (is_meter (get_elem? (map (scval_to_string env.sdk) e.topic) 0))) [
        | inl meter ↦ each e _ now _ _ _ _ _ _ (rw meter at h)
        | inr another ↦ absurd (skipped-ne-row (rw another at h))
      ]

  after_ingest-HasBigint :
      (r : EventRow) (o : Outcome CacheStore) (st : State)
      → HasBigint r
      → All HasBigint st.emitted
      → All HasBigint (handled_state (after_ingest r o st)).emitted
  unfolding after_ingest
  after_ingest-HasBigint r (ok s) st k h = All-append HasBigint r st.emitted h k
  after_ingest-HasBigint r threw st k h = h

  after_decoding-HasBigint :
      (e : Event X) (d : Decoded) (st : State)
      → decode_event env e (env.clock st.emitted) ≡ d
      → All HasBigint st.emitted
      → All HasBigint (handled_state (after_decoding d st)).emitted
  unfolding after_decoding
  after_decoding-HasBigint e skipped st d h = h
  after_decoding-HasBigint e unreadable st d h = h
  after_decoding-HasBigint e (row r) st d h =
      after_ingest-HasBigint r (ingest r st.store) st
        (decode_event_keep HasBigint assemble-HasBigint e _ d) h

  handle_event-HasBigint :
      (e : Event X) (st : State)
      → All HasBigint st.emitted
      → All HasBigint (handled_state (handle_event env e st)).emitted
  unfolding handle_event
  handle_event-HasBigint e st h =
      after_decoding-HasBigint e (decode_event env e (env.clock st.emitted)) st refl h

  after_fetching-HasBigint :
      (f : Fetched)
      → All HasBigint (fetched_state f).emitted
      → All HasBigint (state_of (after_fetching f)).emitted
  unfolding after_fetching
  after_fetching-HasBigint (complete latest last st) h = h
  after_fetching-HasBigint (failed st) h = h
  after_fetching-HasBigint (exhausted st) h = h

  -- Whatever the server answers, a poll passes only rows to `onEvent` that hold a bigint.
  pub poll-HasBigint :
      (rpc : Rpc X) (fuel : ℕ) (st : State)
      → All HasBigint st.emitted
      → All HasBigint (state_of (poll env rpc fuel st)).emitted
  unfolding poll
  poll-HasBigint rpc fuel st h = after_fetching-HasBigint _ (
      fetch_pages_keep env (λ st'. All HasBigint st'.emitted) handle_event-HasBigint rpc _ fuel 0 []
        _ st h)
