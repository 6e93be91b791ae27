-- ===== src/Indexer/Overlap.antt =====
-- `start` and its timer: a poll begins whether or not the ones before it have ended. Polls are
-- interleaved at their `await`s, over one store. A poll begins at a watermark that is a number.
use mathlib.Core.List.{Memᴰ}
use io_t_billing_service.Base.{
  ℕ, ◌≤◌, ◌<◌, ◌≡◌, true, false, Option, none, some, List, [], ◌∷◌, ◌++◌, All, ◌==◌, if◌then◌else◌,
}
use io_t_billing_service.Store.{get_last_ledger}
use io_t_billing_service.Indexer.Event.{Event, State, Setup, handled, raised, handle_event}
use io_t_billing_service.Indexer.Poll.{Page, is_last, higher, new_watermark, exceeds, set_if}

-- Where a poll stands. `n` is the watermark that it starts from, `last` its lastProcessedLedger,
-- `done` the events it has handled; `rest` are those of the page under way, and `end` is the
-- latest ledger where that page is the last one.
pub data Pc (X : Type 0) : Type 0 where
  idle : Pc X
  started : (n : ℕ) → Pc X
  fetching : (n : ℕ) (last : Option ℕ) (done : List (Event X)) → Pc X
  handling : (n : ℕ) (last : Option ℕ) (done rest : List (Event X)) (end : Option ℕ) → Pc X
  closing : (last : Option ℕ) (latest : ℕ) → Pc X
  writing : (last : Option ℕ) (latest : ℕ) (current : Option ℕ) → Pc X

module _ {X : Type 0} (env : Setup X) (OnChain : Event X → Type 0) where
  -- What getEvents promises of the pages of a poll: none of their events is above the latest
  -- ledger, and all events of the chain between the start and the latest ledger are among them.
  pub record Complete (n : ℕ) (seen : List (Event X)) (latest : ℕ) : Type 0 where
    pub bounded : All (λ (e : Event X). e.ledger ≤ latest) seen
    pub all_there : (e : Event X) → OnChain e → n < e.ledger → e.ledger ≤ latest → Memᴰ e seen

  -- What one poll does between two awaits; any await may throw. The handling of an event has one
  -- effect on the store, so it is one step.
  pub data Move (st : State) : Pc X → State → Pc X → Type 0 where
    begins : {n : ℕ} → get_last_ledger st.store ≡ some n → Move st idle st (started n)
    reads : {n : ℕ} → Move st (started n) st (fetching n (get_last_ledger st.store) [])
    fails : {p : Pc X} → Move st p st idle
    answers :
        {n : ℕ} {last : Option ℕ} {done : List (Event X)} (page : Page X)
        → is_last page ≡ false
        → Move st (fetching n last done) st (handling n last done page.events none)
    answers_last :
        {n : ℕ} {last : Option ℕ} {done : List (Event X)} (page : Page X)
        → is_last page ≡ true
        → Complete n (done ++ page.events) page.latest_ledger
        → Move st
            (fetching n last done)
            st
            (handling n last done page.events (some page.latest_ledger))
    handles :
        {n : ℕ} {last : Option ℕ} {done rest : List (Event X)} {end : Option ℕ} {st' : State}
        (e : Event X)
        → handle_event env e st ≡ handled st'
        → Move st
            (handling n last done (e ∷ rest) end)
            st'
            (handling n (higher e.ledger last) (done ++ e ∷ []) rest end)
    raises :
        {n : ℕ} {last : Option ℕ} {done rest : List (Event X)} {end : Option ℕ} {st' : State}
        (e : Event X)
        → handle_event env e st ≡ raised st'
        → Move st (handling n last done (e ∷ rest) end) st' idle
    goes_on :
        {n : ℕ} {last : Option ℕ} {done : List (Event X)}
        → Move st (handling n last done [] none) st (fetching n last done)
    ends :
        {n : ℕ} {last : Option ℕ} {done : List (Event X)} {latest : ℕ}
        → Move st (handling n last done [] (some latest)) st (closing last latest)
    rereads :
        {last : Option ℕ} {latest : ℕ}
        → Move st (closing last latest) st (writing last latest (get_last_ledger st.store))
    writes :
        {last current : Option ℕ} {latest : ℕ}
        → Move st
            (writing last latest current)
            (record st {
              store =
                  set_if
                    (exceeds (new_watermark latest last current) current)
                    (new_watermark latest last current)
                    st.store;
            })
            idle

  -- The store and what was emitted, and the polls by the tick that began them.
  pub record System : Type 0 where
    pub mem : State
    pub pc : ℕ → Pc X

  abbrev pub update : (ℕ → Pc X) → ℕ → Pc X → ℕ → Pc X
  update pc i p j = if j == i then p else pc j

  pub data Reach (s : System) : System → Type 0 where
    here : Reach s s
    moves :
        {t : System} {st : State} {p : Pc X}
        → Reach s t
        → (i : ℕ) → Move t.mem (t.pc i) st p
        → Reach s (record { mem = st; pc = update t.pc i p })
