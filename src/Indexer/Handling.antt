-- ===== src/Indexer/Handling.antt =====
-- What handling events does to the cache: rows are added and nothing else changes.
use io_t_billing_service.Base.{
  Text, ℕ, ◌≡◌, refl, sym, ap, ◌∙◌, Option, List, [], ◌∷◌, ◌++◌, append_assoc, append-nil,
}
use io_t_billing_service.Store.{MeterRow, CacheStore, Outcome, ok, threw, EventRow, filled, ingest}
use io_t_billing_service.Store.Ingest.{Stored, kept, appended, ingest-Stored}
use io_t_billing_service.Indexer.Event.{
  Event, State, Setup, Decoded, skipped, row, unreadable, after_ingest, after_decoding,
  decode_event, handle_event,
}
use io_t_billing_service.Indexer.Keeping.{
  handled_state, progress_state, fetched_state, handle_events_keep, fetch_pages_keep,
}
use io_t_billing_service.Indexer.Poll.{Rpc, fetch_pages, handle_events}

-- `t` is `s` with rows of meter events added at the end.
pub record Grows (s t : CacheStore) : Type 0 where
  pub new : List MeterRow
  pub added : t ≡ record s { meter_events = s.meter_events ++ new }

pub Grows-refl : (s : CacheStore) → Grows s s
Grows-refl s = record {
  new = [];
  added = ap (λ rows. record s { meter_events = rows }) (sym (append-nil s.meter_events));
}

pub Grows-trans : {s t u : CacheStore} → Grows s t → Grows t u → Grows s u
Grows-trans {s} {t} {u} a b = record {
  new = a.new ++ b.new;
  added =
      b.added
      ∙ ap (λ (x : CacheStore). record x { meter_events = x.meter_events ++ b.new }) a.added
      ∙ ap (λ rows. record s { meter_events = rows }) (append_assoc s.meter_events a.new b.new);
}

ingest-Grows : (r : EventRow) (s : CacheStore) {t : CacheStore} → ingest r s ≡ ok t → Grows s t
ingest-Grows r s {t} h = go (ingest-Stored r s h)
  where
    go : Stored r s t → Grows s t
    go (kept why e) = rw e (Grows-refl s)
    go (appended id d fresh e) = record { new = filled id r ∷ []; added = e }

after_ingest-Grows :
    (r : EventRow) (st : State) (o : Outcome CacheStore)
    → ingest r st.store ≡ o
    → Grows st.store (handled_state (after_ingest r o st)).store
unfolding after_ingest
after_ingest-Grows r st (ok s) h = ingest-Grows r st.store h
after_ingest-Grows r st threw h = Grows-refl st.store

after_decoding-Grows :
    (d : Decoded) (st : State) → Grows st.store (handled_state (after_decoding d st)).store
unfolding after_decoding
after_decoding-Grows skipped st = Grows-refl st.store
after_decoding-Grows unreadable st = Grows-refl st.store
after_decoding-Grows (row r) st = after_ingest-Grows r st (ingest r st.store) refl

module _ {X : Type 0} (env : Setup X) where
  pub handle_event-Grows :
      (e : Event X) (st : State) → Grows st.store (handled_state (handle_event env e st)).store
  unfolding handle_event
  handle_event-Grows e st = after_decoding-Grows (decode_event env e (env.clock st.emitted)) st

  -- Handling an event keeps what a state has grown from.
  pub handle_event-Grows_from :
      (s : CacheStore) (e : Event X) (st : State)
      → Grows s st.store
      → Grows s (handled_state (handle_event env e st)).store
  handle_event-Grows_from s e st g = Grows-trans g (handle_event-Grows e st)

  pub handle_events-Grows :
      (es : List (Event X)) (last : Option ℕ) (st : State)
      → Grows st.store (progress_state (handle_events env es last st)).store
  handle_events-Grows es last st =
      handle_events_keep env (λ st'. Grows st.store st'.store) (handle_event-Grows_from st.store) es
        last st (Grows-refl st.store)

  -- Whatever the server answers, fetching only adds events to the cache.
  pub fetch_pages-Grows :
      (rpc : Rpc X) (start : Option ℕ) (fuel n : ℕ) (cursor : Text) (last : Option ℕ) (st : State)
      → Grows st.store (fetched_state (fetch_pages env rpc start fuel n cursor last st)).store
  fetch_pages-Grows rpc start fuel n cursor last st =
      fetch_pages_keep env (λ st'. Grows st.store st'.store) (handle_event-Grows_from st.store) rpc
        start fuel n cursor last st (Grows-refl st.store)
