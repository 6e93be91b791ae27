-- ===== src/Indexer/Poll.antt =====
-- `poll`: all pages of new events are handled, and only then does the watermark advance.
use io_t_billing_service.Base.{
  ℕ, zero, suc, ◌+◌, Bool, true, false, ◌||◌, Option, none, some, List, [], ◌∷◌, Text, ltb,
  if◌then◌else◌, length,
}
use io_t_billing_service.Store.{CacheStore, get_last_ledger, set_last_ledger}
use io_t_billing_service.Indexer.Event.{Event, State, Setup, handled, raised, handle_event}

-- The parameters of `getEvents` that vary.
pub data Query : Type 0 where
  start_ledger : Option ℕ → Query
  at_cursor : Text → Query

-- The answer; an empty cursor is a missing one.
pub record Page (X : Type 0) : Type 0 where
  pub events : List (Event X)
  pub cursor : Text
  pub latest_ledger : ℕ

-- The RPC server: what it answers to the n-th call of a poll, `none` being an exception.
abbrev pub Rpc : Type 0 → Type 0
Rpc X = ℕ → Query → Option (Page X)

abbrev pub page_limit : ℕ
page_limit = 200

-- `a > b`, where NaN (`none`) is above and below nothing.
abbrev pub exceeds : Option ℕ → Option ℕ → Bool
exceeds none b = false
exceeds (some a) none = false
exceeds (some a) (some b) = ltb b a

abbrev pub next_ledger : Option ℕ → Option ℕ
next_ledger none = none
next_ledger (some n) = some (n + 1)

-- How handling the events of a page ends: with the highest ledger so far, or by an exception.
pub data Progress : Type 0 where
  reached : Option ℕ → State → Progress
  stopped : State → Progress

-- How fetching ends: with the last page's `latestLedger`, by an exception, or with no fuel left.
pub data Fetched : Type 0 where
  complete : ℕ → Option ℕ → State → Fetched
  failed : State → Fetched
  exhausted : State → Fetched

unfoldable pub higher : ℕ → Option ℕ → Option ℕ
higher ledger last = if exceeds (some ledger) last then some ledger else last

abbrev pub query_of : Text → Option ℕ → Query
query_of [] start = start_ledger start
query_of (c ∷ s) start = at_cursor (c ∷ s)

-- `res.events.length < PAGE_LIMIT || !res.cursor`
unfoldable pub is_last : {X : Type 0} → Page X → Bool
is_last page = ltb (length page.events) page_limit || elim page.cursor [ [] ↦ true | c ∷ s ↦ false ]

module _ {X : Type 0} (env : Setup X) where
  -- The `for` loop over the events of a page.
  unfoldable pub handle_events : List (Event X) → Option ℕ → State → Progress
  handle_events [] last st = reached last st
  handle_events (e ∷ es) last st = elim (handle_event env e st) [
    | handled st' ↦ handle_events es (higher e.ledger last) st'
    | raised st' ↦ stopped st'
  ]

  module _ (rpc : Rpc X) (start : Option ℕ) where
    -- The `while (true)` loop up to its `break`; `n` calls have been made.
    unfoldable pub fetch_pages : ℕ → ℕ → Text → Option ℕ → State → Fetched
    fetch_pages zero n cursor last st = exhausted st
    fetch_pages (suc fuel) n cursor last st = elim (rpc n (query_of cursor start)) [
      | none ↦ failed st
      | some page ↦ elim (handle_events page.events last st) [
        | stopped st' ↦ failed st'
        | reached last' st' ↦ elim (is_last page) [
          | true ↦ complete page.latest_ledger last' st'
          | false ↦ fetch_pages fuel (suc n) page.cursor last' st'
        ]
      ]
    ]

-- The new watermark: the last ledger handled, or else the latest one of the network; it never
-- goes back.
unfoldable pub new_watermark : ℕ → Option ℕ → Option ℕ → Option ℕ
new_watermark latest last current = if exceeds last current then last else some latest

abbrev pub set_if : Bool → Option ℕ → CacheStore → CacheStore
set_if true (some ledger) s = set_last_ledger ledger s
set_if _ _ s = s

unfoldable pub advance : ℕ → Option ℕ → CacheStore → CacheStore
advance latest last s =
    let current = get_last_ledger s in
    let watermark = new_watermark latest last current in
    set_if (exceeds watermark current) watermark s

-- How a poll ends. The exceptions are caught and logged, so both ends look alike to the caller.
pub data Polled : Type 0 where
  advanced : State → Polled
  abandoned : State → Polled
  unfinished : State → Polled

unfoldable pub after_fetching : Fetched → Polled
after_fetching (complete latest last st) =
    advanced (record st { store = advance latest last st.store })
after_fetching (failed st) = abandoned st
after_fetching (exhausted st) = unfinished st

unfoldable pub poll : {X : Type 0} → Setup X → Rpc X → ℕ → State → Polled
poll env rpc fuel st =
    let last = get_last_ledger st.store in
    after_fetching (fetch_pages env rpc (next_ledger last) fuel 0 [] last st)

abbrev pub state_of : Polled → State
state_of (advanced st) = st
state_of (abandoned st) = st
state_of (unfinished st) = st
