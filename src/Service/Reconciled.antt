-- ===== src/Service/Reconciled.antt =====
-- The contract's deposits against what the backend reports as billed.
use mathlib.Core.Path.{subst}
use io_t_billing_service.Base.{
  ℕ, ℤ, ◌+ℤ◌, ◌≤ℤ◌, ◌^◌, ◌≡◌, refl, sym, ◌∙◌, ap, Bool, true, false, Option, none, some, List, [],
  length, ◌≤◌, ◌∷◌, Text, ◌-ℤ◌, pos, All, int_laws,
}
use io_t_billing_service.Sql.{sum_of, size, IsSmall}
use io_t_billing_service.Api.Growth.{sum_for, get_balance-sum_for}
use io_t_billing_service.Store.{
  MeterRow, CacheStore, conflicts, get_last_ledger, metrics_for, set_last_ledger,
}
use io_t_billing_service.Indexer.Paging.{Serves, all_events, fetched_of}
use io_t_billing_service.Indexer.Progress.{poll-Serves}
use io_t_billing_service.Indexer.{
  State, Setup, handle_events, Rpc, Page, poll, state_of, after_fetching, complete, set_if, advance,
  next_ledger,
}
use io_t_billing_service.Contract.{Address, World}
use io_t_billing_service.Contract.Books.{paid_in, Later-IsBalanced}
use io_t_billing_service.Contract.Journal.{held}
use io_t_billing_service.Contract.History.{Later, deployed}
use io_t_billing_service.Contract.Host.{Host}
use io_t_billing_service.Api.{get_balance}
use io_t_billing_service.Service.Published.{HostValues, Reads}
use io_t_billing_service.Service.Feed.{
  Entry, Fits, charge, events_of, AreNew, AreDistinct, feed, handle_events-billed,
}

empty-AreNew :
    (es : List Entry) (st : State) → st.store.meter_events ≡ [] → AreNew es st.store.meter_events
empty-AreNew [] st h = tt
empty-AreNew (e ∷ es) st h = ((rw h (unfold conflicts in refl)), empty-AreNew es st h)

empty-sum_for :
    (device : Text) (st : State)
    → st.store.meter_events ≡ []
    → sum_for (λ r. r.cost) device st.store ≡ pos 0
unfolding sum_of
empty-sum_for device st h = rw h refl

grown-IsSmall :
    (s s' : CacheStore) (total : ℤ)
    → s.meter_events ≡ []
    → size (λ (r : MeterRow). r.cost) s'.meter_events
      ≡ size (λ (r : MeterRow). r.cost) s.meter_events +ℤ total
    → total ≤ℤ pos (2 ^ 53)
    → IsSmall (λ (r : MeterRow). r.cost) s'.meter_events
grown-IsSmall s s' total empty grown h =
    let none_yet : size (λ (r : MeterRow). r.cost) s.meter_events ≡ pos 0 =
      ap (size (λ (r : MeterRow). r.cost)) empty ∙ (unfold sum_of in refl) in
    let all : size (λ (r : MeterRow). r.cost) s'.meter_events ≡ total =
      grown ∙ ap (λ z. z +ℤ total) none_yet ∙ omega int_laws in
    subst (λ z. z ≤ℤ pos (2 ^ 53)) (sym all) h

-- The watermark is no part of what the route reports.
set_if-billed :
    (device : Text) (b : Bool) (watermark : Option ℕ) (s : CacheStore)
    → (get_balance device (set_if b watermark s)).total_billed ≡ (get_balance device s).total_billed
unfolding get_balance metrics_for set_last_ledger
set_if-billed device true (some ledger) s = refl
set_if-billed device true none s = refl
set_if-billed device false watermark s = refl

completed-billed :
    (device : Text) (latest : ℕ) (last : Option ℕ) (st : State)
    → (get_balance device (state_of (after_fetching (complete latest last st))).store).total_billed
      ≡ (get_balance device st.store).total_billed
unfolding after_fetching advance
completed-billed device latest last st = set_if-billed device _ _ st.store

module _ {X : Type 0} (env : Setup X) (host : HostValues X) (address_text : Address → Text)
    (reads : Reads env.sdk host address_text)
    (injective : (a b : Address) → address_text a ≡ address_text b → a ≡ b) where
  -- Where the SDK reads what the host writes and no two addresses have one text, all events of
  -- the contract get ids of which no two are equal, their amounts fit 64 bits, their other numbers
  -- are at most 2 ^ 53 and their costs, each without its sign, add up to at most 2 ^ 53, and the
  -- server's pages hold them in their order, a poll over a cache without meter events and with fuel
  -- for the pages leaves the cache so that, in every world later than the contract's deployment,
  -- the deposit of each device is what was paid in for it less the sum billed that the balance
  -- route reports for it.
  pub deposits_reconciled :
      {T : Type 0} (chain : Host T) (token : Address) (t : T) (w : World T) (es : List Entry)
      (rpc : Rpc X) (pages : List (Page X)) (latest fuel : ℕ) (st : State)
      → Later chain token (deployed token t) w
      → events_of es ≡ w.events
      → All Fits es
      → sum_of charge (events_of es) ≤ℤ pos (2 ^ 53)
      → AreDistinct es
      → Serves rpc (next_ledger (get_last_ledger st.store)) 0 [] pages latest
      → all_events pages ≡ feed env host address_text reads es
      → length pages ≤ fuel
      → st.store.meter_events ≡ []
      → (d : Address)
      → held w d
        ≡ paid_in d w.events
          -ℤ (get_balance (address_text d) (state_of (poll env rpc fuel st)).store).total_billed
  deposits_reconciled chain token t w es rpc pages latest fuel st later all fits little distinct
        serves fed enough empty d =
      let (last', st', run, sums, sizes) =
        handle_events-billed env host address_text reads injective es (get_last_ledger st.store) st
          fits (empty-AreNew es st empty) distinct in
      let ended =
        poll-Serves env rpc st serves fuel enough
        ∙ ap
            (λ xs.
              after_fetching
                (fetched_of latest (handle_events env xs (get_last_ledger st.store) st)))
            fed
        ∙ ap (λ p. after_fetching (fetched_of latest p)) run in
      let reported =
        ap (λ p. (get_balance (address_text d) (state_of p).store).total_billed) ended
        ∙ completed-billed (address_text d) latest last' st' in
      (Later-IsBalanced chain d token t w later).balanced
      ∙ ap (λ z. paid_in d w.events -ℤ z)
          (sym (
            reported
            ∙ get_balance-sum_for (address_text d) st'.store
                (grown-IsSmall st.store st'.store (sum_of charge (events_of es)) empty sizes little)
            ∙ sums d
            ∙ rw (empty-sum_for (address_text d) st empty, all) (omega int_laws)))
