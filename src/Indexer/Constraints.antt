-- ===== src/Indexer/Constraints.antt =====
-- What polls do to the tables of the cache: the schema's constraints stay kept.
use mathlib.Core.Path.{subst}
use io_t_billing_service.Base.{ℕ, ◌≡◌, refl, Bool, true, false, Option, none, some, [], Text, ℤ}
use io_t_billing_service.Store.{CacheStore, EventRow, Outcome, ok, threw, ingest}
use io_t_billing_service.Store.Constraints.{
  IsOfSchema, IsIndexed, ingest-IsOfSchema, set_last_ledger-IsOfSchema,
}
use io_t_billing_service.Indexer.Event.{
  Event, State, Setup, Decoded, skipped, row, unreadable, assemble, after_ingest, after_decoding,
  decode_event, handle_event,
}
use io_t_billing_service.Indexer.Poll.{
  Rpc, Fetched, complete, failed, exhausted, set_if, advance, after_fetching, poll, state_of,
}
use io_t_billing_service.Indexer.Keeping.{handled_state, fetched_state, fetch_pages_keep}
use io_t_billing_service.Indexer.Emission.{row-injective, decode_event_keep}

module _ {X : Type 0} (env : Setup X) where
  assemble-IsIndexed :
      (e : Event X) (device : Option Text) (now : Text) (a b c d f : Option (Option ℤ))
      (r : EventRow)
      → assemble env e device now a b c d f ≡ row r
      → IsIndexed r
  unfolding assemble
  assemble-IsIndexed e device now (some a) (some b) (some none) (some d) (some f) r h =
      subst IsIndexed (row-injective h) (record {
        has_id = λ k. cc;
        big_units = refl;
        big_rate = refl;
        big_cost = refl;
        big_balance = refl;
      })
  assemble-IsIndexed e device now (some a) (some b) (some (some c)) (some d) (some f) r h =
      subst IsIndexed (row-injective h) (record {
        has_id = λ k. cc;
        big_units = refl;
        big_rate = refl;
        big_cost = refl;
        big_balance = refl;
      })
  assemble-IsIndexed e device now _ _ _ _ _ r h = cc

  after_ingest-IsOfSchema :
      (r : EventRow) (st : State) (o : Outcome CacheStore)
      → ingest r st.store ≡ o
      → IsIndexed r
      → IsOfSchema st.store
      → IsOfSchema (handled_state (after_ingest r o st)).store
  unfolding after_ingest
  after_ingest-IsOfSchema r st (ok s) h i k = ingest-IsOfSchema r st.store i h k
  after_ingest-IsOfSchema r st threw h i k = k

  after_decoding-IsOfSchema :
      (e : Event X) (d : Decoded) (st : State)
      → decode_event env e (env.clock st.emitted) ≡ d
      → IsOfSchema st.store
      → IsOfSchema (handled_state (after_decoding d st)).store
  unfolding after_decoding
  after_decoding-IsOfSchema e skipped st d k = k
  after_decoding-IsOfSchema e unreadable st d k = k
  after_decoding-IsOfSchema e (row r) st d k =
      after_ingest-IsOfSchema r st (ingest r st.store) refl
        (decode_event_keep env IsIndexed assemble-IsIndexed e _ d) k

  handle_event-IsOfSchema :
      (e : Event X) (st : State)
      → IsOfSchema st.store
      → IsOfSchema (handled_state (handle_event env e st)).store
  unfolding handle_event
  handle_event-IsOfSchema e st k =
      after_decoding-IsOfSchema e (decode_event env e (env.clock st.emitted)) st refl k

  set_if-IsOfSchema :
      (b : Bool) (watermark : Option ℕ) (s : CacheStore)
      → IsOfSchema s
      → IsOfSchema (set_if b watermark s)
  set_if-IsOfSchema true (some ledger) s k = set_last_ledger-IsOfSchema ledger s k
  set_if-IsOfSchema true none s k = k
  set_if-IsOfSchema false watermark s k = k

  after_fetching-IsOfSchema :
      (f : Fetched)
      → IsOfSchema (fetched_state f).store
      → IsOfSchema (state_of (after_fetching f)).store
  unfolding after_fetching advance
  after_fetching-IsOfSchema (complete latest last st) k = set_if-IsOfSchema _ _ st.store k
  after_fetching-IsOfSchema (failed st) k = k
  after_fetching-IsOfSchema (exhausted st) k = k

  -- Whatever the server answers, and however the poll ends.
  pub poll-IsOfSchema :
      (rpc : Rpc X) (fuel : ℕ) (st : State)
      → IsOfSchema st.store
      → IsOfSchema (state_of (poll env rpc fuel st)).store
  unfolding poll
  poll-IsOfSchema rpc fuel st k = after_fetching-IsOfSchema _ (
      fetch_pages_keep env (λ st'. IsOfSchema st'.store) handle_event-IsOfSchema rpc _ fuel 0 [] _
        st k)
