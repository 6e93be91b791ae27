-- ===== src/Indexer/Progress.antt =====
-- What a poll achieves: the watermark, and the events that are in the cache behind it.
use mathlib.Core.Path.{subst}
use io_t_billing_service.Base.{
  ℕ, ◌≤◌, ◌≡◌, refl, ap, ◌∙◌, Bool, true, false, Option, none, some, List, [], length, ltb, arith,
  All, All-map, Bool-cases, inl, inr,
}
use io_t_billing_service.Store.{CacheStore, get_last_ledger, set_last_ledger}
use io_t_billing_service.Store.Watermark.{get_last_ledger-set_last_ledger}
use io_t_billing_service.Indexer.Event.{Event, State, Setup}
use io_t_billing_service.Indexer.Poll.{
  Page, Rpc, next_ledger, reached, Fetched, complete, failed, exhausted, exceeds, handle_events,
  new_watermark, set_if, advance, abandoned, after_fetching, poll, state_of,
}
use io_t_billing_service.Indexer.Keeping.{fetched_state}
use io_t_billing_service.Indexer.Handling.{Grows, fetch_pages-Grows}
use io_t_billing_service.Indexer.Delivery.{
  IsBilling, IsStored, handle_events_stores, handle_events_bounds, handle_events-Grows_of,
}
use io_t_billing_service.Indexer.Paging.{Serves, all_events, fetched_of, fetch_pages-Serves}

pub get_last_ledger-Grows : {s t : CacheStore} → Grows s t → get_last_ledger t ≡ get_last_ledger s
unfolding get_last_ledger
get_last_ledger-Grows {s} {t} g = rw g.added refl

set_last_ledger_keeps_events :
    (n : ℕ) (s : CacheStore) → (set_last_ledger n s).meter_events ≡ s.meter_events
unfolding set_last_ledger
set_last_ledger_keeps_events n s = refl

-- The watermark after a completed fetch that reached the ledger `k`.
advance_bounds :
    (latest k n : ℕ) (s : CacheStore)
    → get_last_ledger s ≡ some n
    → (m : ℕ) × (get_last_ledger (advance latest (some k) s) ≡ some m) × (n ≤ m) × (k ≤ m)
unfolding advance new_watermark
advance_bounds latest k n s e = elim (Bool-cases (ltb n k)) [
  | inl above ↦
      (k, rw (e, above, above) (get_last_ledger-set_last_ledger k s), ground arith, omega arith)
  | inr same ↦ elim (Bool-cases (ltb n latest)) [
    | inl later ↦ (
      latest,
      rw (e, same, later) (get_last_ledger-set_last_ledger latest s),
      ground arith,
      ground arith,
    )
    | inr earlier ↦ (n, rw (e, same, earlier) e, omega arith, ground arith)
  ]
]

-- The watermark does not go back, whatever the ledger reached.
advance_monotone :
    (latest : ℕ) (last : Option ℕ) (n : ℕ) (s : CacheStore)
    → get_last_ledger s ≡ some n
    → (m : ℕ) × (get_last_ledger (advance latest last s) ≡ some m) × (n ≤ m)
unfolding advance new_watermark
advance_monotone latest none n s e = elim (Bool-cases (ltb n latest)) [
  | inl later ↦ (latest, rw (e, later) (get_last_ledger-set_last_ledger latest s), ground arith)
  | inr earlier ↦ (n, rw (e, earlier) e, omega arith)
]
advance_monotone latest (some k) n s e =
    let (m, at, above, _) = advance_bounds latest k n s e in (m, at, above)

pub set_if_keeps_events :
    (b : Bool) (w : Option ℕ) (s : CacheStore) → (set_if b w s).meter_events ≡ s.meter_events
set_if_keeps_events true (some n) s = set_last_ledger_keeps_events n s
set_if_keeps_events true none s = refl
set_if_keeps_events false w s = refl

advance_keeps_events :
    (latest : ℕ) (last : Option ℕ) (s : CacheStore)
    → (advance latest last s).meter_events ≡ s.meter_events
unfolding advance
advance_keeps_events latest last s =
    set_if_keeps_events
      (exceeds (new_watermark latest last (get_last_ledger s)) (get_last_ledger s))
      (new_watermark latest last (get_last_ledger s)) s

-- The watermark is at least `n` and the ledger of each event, and the billing events are stored.
pub record HasDelivered {X : Type 0} (env : Setup X) (es : List (Event X)) (n : ℕ) (s : CacheStore)
    : Type 0 where
  pub watermark : ℕ
  pub current : get_last_ledger s ≡ some watermark
  pub not_back : n ≤ watermark
  pub covers : All (λ (e : Event X). e.ledger ≤ watermark) es
  pub stored : All (λ e. IsBilling env e → IsStored env s e) es

complete-HasDelivered :
    {X : Type 0} (env : Setup X) (es : List (Event X)) (latest k n : ℕ) (st : State)
    → get_last_ledger st.store ≡ some n
    → All (λ (e : Event X). e.ledger ≤ k) es
    → All (λ e. IsBilling env e → IsStored env st.store e) es
    → HasDelivered env es n (state_of (after_fetching (complete latest (some k) st))).store
unfolding after_fetching
complete-HasDelivered {X} env es latest k n st e below stored =
    let (m, current, not_back, top) = advance_bounds latest k n st.store e in
    record {
      watermark = m;
      current = current;
      not_back = not_back;
      covers =
          All-map {P = λ (x : Event X). x.ledger ≤ k} {Q = λ (x : Event X). x.ledger ≤ m}
            (λ x h. omega arith) es below;
      stored = rw (advance_keeps_events latest (some k) st.store) stored;
    }

module _ {X : Type 0} (env : Setup X) (rpc : Rpc X) where
  after_fetching_watermark :
      (f : Fetched) (n : ℕ)
      → get_last_ledger (fetched_state f).store ≡ some n
      → (m : ℕ) × (get_last_ledger (state_of (after_fetching f)).store ≡ some m) × (n ≤ m)
  unfolding after_fetching
  after_fetching_watermark (failed st) n e = (n, e, omega arith)
  after_fetching_watermark (exhausted st) n e = (n, e, omega arith)
  after_fetching_watermark (complete latest last st) n e = advance_monotone latest last n st.store e

  -- Whatever the server answers and however the poll ends, the watermark does not go back.
  pub poll_monotone :
      (fuel n : ℕ) (st : State)
      → get_last_ledger st.store ≡ some n
      → (m : ℕ) × (get_last_ledger (state_of (poll env rpc fuel st)).store ≡ some m) × (n ≤ m)
  unfolding poll
  poll_monotone fuel n st e = after_fetching_watermark _ n (
      get_last_ledger-Grows (fetch_pages-Grows env rpc _ fuel 0 [] (get_last_ledger st.store) st)
      ∙ e)

  abandoned_watermark :
      (f : Fetched) (st' : State) → after_fetching f ≡ abandoned st' → fetched_state f ≡ st'
  unfolding after_fetching
  abandoned_watermark (failed st) st' e = cc
  abandoned_watermark (exhausted st) st' e = cc
  abandoned_watermark (complete latest last st) st' e = cc

  -- A poll that ends in an exception keeps the watermark, so its ledgers are polled again, and
  -- the cache has only gained rows.
  pub poll_abandoned :
      (fuel : ℕ) (st st' : State)
      → poll env rpc fuel st ≡ abandoned st'
      → (get_last_ledger st'.store ≡ get_last_ledger st.store) × Grows st.store st'.store
  unfolding poll
  poll_abandoned fuel st st' e =
      let same = abandoned_watermark _ st' e in
      let g = fetch_pages-Grows env rpc _ fuel 0 [] (get_last_ledger st.store) st in
      let g' = subst (λ (x : State). Grows st.store x.store) same g in
      (get_last_ledger-Grows g', g')

  module _ {pages : List (Page X)} {latest : ℕ} (st : State)
      (serves : Serves rpc (next_ledger (get_last_ledger st.store)) 0 [] pages latest) where
    pub poll-Serves :
        (fuel : ℕ)
        → length pages ≤ fuel
        → poll env rpc fuel st
          ≡ after_fetching (
              fetched_of latest
                (handle_events env (all_events pages) (get_last_ledger st.store) st))
    unfolding poll
    poll-Serves fuel enough =
        ap after_fetching
          (fetch_pages-Serves env rpc _ serves fuel (get_last_ledger st.store) st enough)

    -- If moreover no event raises an exception, then each billing event of the pages is in the
    -- cache, and the watermark is at least its old value and the ledger of each event.
    pub poll_delivers :
        (fuel n : ℕ) (last' : Option ℕ) (st' : State)
        → length pages ≤ fuel
        → get_last_ledger st.store ≡ some n
        → handle_events env (all_events pages) (get_last_ledger st.store) st ≡ reached last' st'
        → HasDelivered env (all_events pages) n (state_of (poll env rpc fuel st)).store
    poll_delivers fuel n last' st' enough e h =
        let ended = poll-Serves fuel enough ∙ ap (λ p. after_fetching (fetched_of latest p)) h in
        let (k, top, low, below) =
          handle_events_bounds env (all_events pages) n last' st st'
            (subst (λ l. handle_events env (all_events pages) l st ≡ reached last' st') e h) in
        let watermark =
          get_last_ledger-Grows (handle_events-Grows_of env (all_events pages) _ last' st st' h)
          ∙ e in
        let stored = handle_events_stores env (all_events pages) _ last' st st' h in
        rw (ended, top)
          (complete-HasDelivered env (all_events pages) latest k n st' watermark below stored)
