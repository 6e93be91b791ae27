-- ===== src/Service/Oversized.antt =====
-- A deposit of the contract that is too large for the columns of the cache.
use io_t_billing_service.Base.{ℕ, suc, ◌≡◌, refl, false, some, List, [], ◌∷◌, ◌++◌, Text, ℤ, arith}
use io_t_billing_service.Gateway.{Bytes}
use io_t_billing_service.Store.{
  Kind, sqlite, postgres, CacheStore, EventRow, threw, fits_64, binds, ingest, get_last_ledger,
}
use io_t_billing_service.Indexer.{
  State, Setup, Rpc, Page, raised, after_decoding, after_ingest, handle_event, poll, abandoned,
  query_of, next_ledger,
}
use io_t_billing_service.Indexer.Stall.{poll_raises}
use io_t_billing_service.Indexer.Progress.{poll_abandoned}
use io_t_billing_service.Indexer.Event
use io_t_billing_service.Contract
use io_t_billing_service.Contract.{Address, Call, World, meter, get_balance, submit_reading}
use io_t_billing_service.Contract.Host.{Host}
use io_t_billing_service.Service.Published.{HostValues, Reads, published}
use io_t_billing_service.Service.Billing.{read_row, decode_event-published, charge_published}

ingest_oversized : (r : EventRow) (s : CacheStore) → binds s.kind r ≡ false → ingest r s ≡ threw
unfolding ingest
ingest_oversized r s h = rw h refl

module _ {X : Type 0} (env : Setup X) (host : HostValues X) (address_text : Address → Text)
    (reads : Reads env.sdk host address_text) where
  read_row-oversized :
      (k : Kind) (id : Text) (ledger : ℕ) (now : Text) (d : Address) (u : ℕ) (cost left : ℤ)
      (n t : ℕ)
      → fits_64 left ≡ false
      → binds k (read_row env host address_text reads id ledger now d u cost left n t) ≡ false
  unfolding binds
  read_row-oversized sqlite id ledger now d u cost left n t h = rw h (ground arith)
  read_row-oversized postgres id ledger now d u cost left n t h = rw h (ground arith)

  handle_event-oversized :
      (id : Text) (ledger : ℕ) (d : Address) (u : ℕ) (cost left : ℤ) (n t : ℕ) (st : State)
      → fits_64 left ≡ false
      → handle_event env (published host id ledger (meter d u cost left n t)) st ≡ raised st
  unfolding handle_event after_decoding after_ingest
  handle_event-oversized id ledger d u cost left n t st h =
      let now = env.clock st.emitted in
      rw
        (
          decode_event-published env host address_text reads id ledger now d u cost left n t,
          ingest_oversized (read_row env host address_text reads id ledger now d u cost left n t)
              st.store (read_row-oversized st.store.kind id ledger now d u cost left n t h),
        )
        refl

  -- If the SDK reads what the host writes, a reading that the contract charges publishes one event,
  -- and where the deposit left does not fit 64 bits, every poll with fuel whose first page holds
  -- that event, at whatever place in the page, is abandoned, and the watermark stays where it was,
  -- whatever the server answers besides.
  pub large_deposit_stalls :
      {T : Type 0} (chain : Host T) (call : Call) (d : Address) (u n ts : ℕ) (sig : Bytes)
      (w w' : World T) (cost left : ℤ) (id : Text) (ledger : ℕ) (rpc : Rpc X) (fuel : ℕ)
      (st : State) (page : Page X) (before after : List (Event.Event X))
      → submit_reading chain call d u n ts sig w ≡ (Contract.ok cost, w')
      → get_balance d w' ≡ some left
      → fits_64 left ≡ false
      → rpc 0 (query_of [] (next_ledger (get_last_ledger st.store))) ≡ some page
      → page.events
        ≡ before ++ published host id ledger (meter d u cost left n call.timestamp) ∷ after
      → (w'.events ≡ w.events ++ meter d u cost left n call.timestamp ∷ [])
        × ((st' : State) × (poll env rpc (suc fuel) st ≡ abandoned st')
            × (get_last_ledger st'.store ≡ get_last_ledger st.store))
  large_deposit_stalls chain call d u n ts sig w w' cost left id ledger rpc fuel st page before
        after charged balance large answer events =
      let (st', stalled) =
        poll_raises env (λ s. Unit) (λ x s s' h k. tt) _
          (λ s k. handle_event-oversized id ledger d u cost left n call.timestamp s large) rpc fuel
          st page before after tt answer events in
      (
        charge_published chain call d u n ts sig w w' cost left charged balance,
        (st', stalled, (poll_abandoned env rpc (suc fuel) st st' stalled).0),
      )
