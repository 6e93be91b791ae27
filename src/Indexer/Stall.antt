-- ===== src/Indexer/Stall.antt =====
-- A meter event without a device id, on PostgreSQL.
use mathlib.Core.Path.{subst}
use io_t_billing_service.Base.{
  Bool, false, if◌then◌else◌, ℕ, suc, ◌≡◌, refl, ap, ◌∙◌, true, Option, none, some, List, [], ◌∷◌,
  ◌++◌, Text, ℤ,
}
use io_t_billing_service.Store.{
  Kind, sqlite, postgres, MeterRow, Outcome, with_events, binds, insert_on_conflict, CacheStore,
  threw, EventRow, insert_event, ingest, get_last_ledger,
}
use io_t_billing_service.Indexer.Event.{
  Event, State, Setup, row, Handled, handled, raised, after_ingest, after_decoding, decode_event,
  handle_event, assemble, is_meter, device_text,
}
use io_t_billing_service.Indexer.Poll.{
  Page, Rpc, query_of, next_ledger, stopped, higher, handle_events, abandoned, after_fetching, poll,
}
use io_t_billing_service.Indexer.Handling.{Grows, handle_event-Grows}
use io_t_billing_service.Indexer.Keeping.{handled_state}
use io_t_billing_service.Indexer.Delivery.{topic_of}
use io_t_billing_service.Indexer.Paging.{fetch_pages-suc, round}

insert_nameless :
    (k : Kind) (rows : List MeterRow) (r : EventRow) (device : Option Text)
    → device ≡ none
    → k ≡ postgres
    → insert_event k rows r device ≡ threw
unfolding insert_event insert_on_conflict
insert_nameless sqlite rows r device e h = cc
insert_nameless postgres rows r none e h = refl
insert_nameless postgres rows r (some d) e h = cc

with_events-threw :
    (b : Bool) (s : CacheStore) (o : Outcome (List MeterRow))
    → o ≡ threw
    → (if b then with_events s o else threw) ≡ threw
with_events-threw true s o h = ap (with_events s) h
with_events-threw false s o h = refl

ingest_nameless :
    (r : EventRow) (s : CacheStore) → r.device_id ≡ none → s.kind ≡ postgres → ingest r s ≡ threw
unfolding ingest
ingest_nameless r s e k =
    with_events-threw (binds s.kind r) s _ (insert_nameless s.kind s.meter_events r r.device_id e k)

after_decoding_nameless :
    (r : EventRow) (st : State)
    → r.device_id ≡ none
    → st.store.kind ≡ postgres
    → after_decoding (row r) st ≡ raised st
unfolding after_decoding after_ingest
after_decoding_nameless r st e k = ap (λ o. after_ingest r o st) (ingest_nameless r st.store e k)

module _ {X : Type 0} (env : Setup X) where
  -- A `meter` event whose second topic names no device.
  abbrev pub IsNameless : Event X → Type 0
  IsNameless e = (is_meter (topic_of env e 0) ≡ true) × (device_text (topic_of env e 1) ≡ none)

  assemble_nameless :
      (e : Event X) (now : Text) (a b c d f : Option (Option ℤ)) (st : State)
      → st.store.kind ≡ postgres
      → after_decoding (assemble env e none now a b c d f) st ≡ raised st
  unfolding assemble
  assemble_nameless e now (some a) (some b) (some c) (some d) (some f) st k =
      after_decoding_nameless _ st refl k
  assemble_nameless e now _ _ _ _ _ st k = unfold after_decoding in refl

  handle_event_nameless :
      (e : Event X) (st : State)
      → IsNameless e
      → st.store.kind ≡ postgres
      → handle_event env e st ≡ raised st
  unfolding handle_event decode_event
  handle_event_nameless e st (meter, nameless) k =
      rw (meter, nameless) (assemble_nameless e _ _ _ _ _ _ st k)

  handled-kind :
      (e : Event X) (st st' : State)
      → handle_event env e st ≡ handled st'
      → st.store.kind ≡ postgres
      → st'.store.kind ≡ postgres
  handled-kind e st st' h k =
      let g = subst (λ o. Grows st.store (handled_state o).store) h (handle_event-Grows env e st) in
      ap (λ (s : CacheStore). s.kind) g.added ∙ k

  -- An event that raises in every state in which the events before it may leave the cache.
  module _ (K : State → Type 0)
      (keeps : (x : Event X) (st st' : State) → handle_event env x st ≡ handled st' → K st → K st')
      (e : Event X) (raises : (st : State) → K st → handle_event env e st ≡ raised st) where
    handle_events_raise :
        (before after : List (Event X)) (last : Option ℕ) (st : State)
        → K st
        → (st' : State) × (handle_events env (before ++ e ∷ after) last st ≡ stopped st')
    unfolding handle_events
    handle_events_raise [] after last st k = (st, rw (raises st k, handle_events) refl)
    handle_events_raise (x ∷ before) after last st k =
        go (handle_event env x st) refl (λ l s. handle_events_raise before after l s)
      where
        go :
            (o : Handled)
            → handle_event env x st ≡ o
            → ((l : Option ℕ) (s : State)
                → K s
                → (st' : State) × (handle_events env (before ++ e ∷ after) l s ≡ stopped st'))
            → (st' : State) × (elim o [
              | handled s ↦ handle_events env (before ++ e ∷ after) (higher x.ledger last) s
              | raised s ↦ stopped s
            ]
                ≡ stopped st')
        go (handled s) h ih = ih (higher x.ledger last) s (keeps x st s h k)
        go (raised s) h ih = (s, refl)

    -- Wherever it stands in the first page.
    pub poll_raises :
        (rpc : Rpc X) (fuel : ℕ) (st : State) (page : Page X) (before after : List (Event X))
        → K st
        → rpc 0 (query_of [] (next_ledger (get_last_ledger st.store))) ≡ some page
        → page.events ≡ before ++ e ∷ after
        → (st' : State) × (poll env rpc (suc fuel) st ≡ abandoned st')
    unfolding poll after_fetching
    poll_raises rpc fuel st page before after k answer events =
        let last = get_last_ledger st.store in
        let (st', stop) = handle_events_raise before after last st k in
        (
          st',
          ap after_fetching (
              fetch_pages-suc env rpc (next_ledger last) fuel 0 [] last st page answer
              ∙ ap (round env rpc (next_ledger last) fuel 0 page)
                  (ap (λ es. handle_events env es last st) events ∙ stop)),
        )

  -- On PostgreSQL every poll whose first page holds a meter event without a device id, wherever in
  -- the page it stands, is abandoned, whatever else the server answers and however much fuel.
  pub poll_stalls :
      (rpc : Rpc X) (fuel : ℕ) (st : State) (page : Page X) (before after : List (Event X))
      (e : Event X)
      → st.store.kind ≡ postgres
      → rpc 0 (query_of [] (next_ledger (get_last_ledger st.store))) ≡ some page
      → page.events ≡ before ++ e ∷ after
      → IsNameless e
      → (st' : State) × (poll env rpc (suc fuel) st ≡ abandoned st')
  poll_stalls rpc fuel st page before after e k answer events w =
      poll_raises (λ st'. st'.store.kind ≡ postgres) handled-kind e
        (λ st' k'. handle_event_nameless e st' w k') rpc fuel st page before after k answer events
