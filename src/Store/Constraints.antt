-- ===== src/Store/Constraints.antt =====
-- What the columns and constraints of the schema ask of the tables, and the writes that keep it.
use mathlib.Core.Option
use io_t_billing_service.Base.{
  ℕ, ◌≡◌, ◌≢◌, refl, ◌∙◌, Bool, true, false, Option, none, some, pos, All, All-append, or_else,
  arith, Text,
}
use io_t_billing_service.Store.Tables.{Kind, sqlite, postgres, MeterRow, CacheStore, ok, new_store}
use io_t_billing_service.Store.Write.{
  Amount, as_number, as_bigint, integer, EventRow, filled, fits_64, fits_or_null, binds_sqlite,
  binds, ingest, set_last_ledger, PendingReading, record_pending_reading,
}
use io_t_billing_service.Store.Read.{get_last_ledger, lookup, ledger_value}
use io_t_billing_service.Store.Conflicts.{HasUniqueIds}
use io_t_billing_service.Store.Ingest.{
  Stored, kept, appended, ingest-Stored, ingest-HasUniqueIds, binds_of_ok,
}
use io_t_billing_service.Store.Ordering.{HasAscendingIds, record_pending_reading-HasAscendingIds}
use io_t_billing_service.Store.Watermark.{get_last_ledger-set_last_ledger}

-- The row has an event id, and its amounts fit columns of 64 bits.
pub record IsStorable (r : MeterRow) : Type 0 where
  pub named : r.event_id ≢ none
  pub units_fit : fits_64 r.units ≡ true
  pub rate_fits : fits_64 r.rate_per_unit ≡ true
  pub cost_fits : fits_64 r.cost ≡ true
  pub balance_fits : fits_or_null r.balance_after ≡ true

-- No two meter events have one id, and each is storable; the ids of the pending readings ascend;
-- the watermark is a number.
pub record IsOfSchema (s : CacheStore) : Type 0 where
  pub unique : HasUniqueIds s.meter_events
  pub storable : All IsStorable s.meter_events
  pub ids : HasAscendingIds s
  pub ledger : ℕ
  pub numbered : get_last_ledger s ≡ some ledger

abbrev is_big : Option Amount → Bool
is_big none = true
is_big (some (as_number z)) = false
is_big (some (as_bigint z)) = true

-- What the indexer makes of an event: a row with an id, whose amounts are bigints or null.
pub record IsIndexed (r : EventRow) : Type 0 where
  pub has_id : r.event_id ≢ none
  pub big_units : is_big r.units ≡ true
  pub big_rate : is_big r.rate_per_unit ≡ true
  pub big_cost : is_big r.cost ≡ true
  pub big_balance : is_big r.balance_after ≡ true

fits_or_zero :
    (a : Option Amount)
    → is_big a ≡ true
    → binds_sqlite a ≡ true
    → fits_64 (or_else (Option.map integer a) (pos 0)) ≡ true
fits_or_zero none b h = unfold fits_64 in refl
fits_or_zero (some (as_number z)) b h = cc
fits_or_zero (some (as_bigint z)) b h = h

fits_balance :
    (a : Option Amount)
    → is_big a ≡ true
    → binds_sqlite a ≡ true
    → fits_or_null (Option.map integer a) ≡ true
fits_balance none b h = refl
fits_balance (some (as_number z)) b h = cc
fits_balance (some (as_bigint z)) b h = h

big-binds :
    (a : Option Amount)
    → is_big a ≡ true
    → fits_or_null (Option.map integer a) ≡ true
    → binds_sqlite a ≡ true
big-binds none b h = refl
big-binds (some (as_number z)) b h = cc
big-binds (some (as_bigint z)) b h = h

binds-cases :
    (k : Kind) (r : EventRow)
    → IsIndexed r
    → binds k r ≡ true
    → (binds_sqlite r.units ≡ true)
      × (binds_sqlite r.rate_per_unit ≡ true)
      × (binds_sqlite r.cost ≡ true)
      × (binds_sqlite r.balance_after ≡ true)
unfolding binds
binds-cases sqlite r i h = ground arith
binds-cases postgres r i h = (
  big-binds r.units i.big_units (ground arith),
  big-binds r.rate_per_unit i.big_rate (ground arith),
  big-binds r.cost i.big_cost (ground arith),
  big-binds r.balance_after i.big_balance (ground arith),
)

filled-IsStorable :
    (k : Kind) (id : Text) (r : EventRow)
    → IsIndexed r
    → binds k r ≡ true
    → IsStorable (filled id r)
unfolding filled
filled-IsStorable k id r i b =
    let f = binds-cases k r i b in
    record {
      named = i.has_id;
      units_fit = fits_or_zero r.units i.big_units f.0;
      rate_fits = fits_or_zero r.rate_per_unit i.big_rate f.1;
      cost_fits = fits_or_zero r.cost i.big_cost f.2;
      balance_fits = fits_balance r.balance_after i.big_balance f.3;
    }

ingest-IsStorable :
    (r : EventRow) (s : CacheStore) {t : CacheStore}
    → IsIndexed r
    → All IsStorable s.meter_events
    → ingest r s ≡ ok t
    → All IsStorable t.meter_events
ingest-IsStorable r s {t} i h e = go (ingest-Stored r s e)
  where
    go : Stored r s t → All IsStorable t.meter_events
    go (kept why same) = rw same h
    go (appended id d fresh more) = rw more (
        All-append IsStorable (filled id r) s.meter_events h
          (filled-IsStorable s.kind id r i (binds_of_ok r s e)))

meta_watermark : (s t : CacheStore) → t.meta ≡ s.meta → get_last_ledger t ≡ get_last_ledger s
unfolding get_last_ledger
meta_watermark s t e = rw e refl

ingest-meta : (r : EventRow) (s : CacheStore) {t : CacheStore} → ingest r s ≡ ok t → t.meta ≡ s.meta
ingest-meta r s {t} h = go (ingest-Stored r s h)
  where
    go : Stored r s t → t.meta ≡ s.meta
    go (kept why e) = rw e refl
    go (appended id d new e) = rw e refl

ingest-ids :
    (r : EventRow) (s : CacheStore) {t : CacheStore}
    → ingest r s ≡ ok t
    → HasAscendingIds s
    → HasAscendingIds t
ingest-ids r s {t} h ids = go (ingest-Stored r s h)
  where
    go : Stored r s t → HasAscendingIds t
    go (kept why e) = rw e ids
    go (appended id d new e) = rw e (record { ascending = ids.ascending; below = ids.below })

-- Each write keeps it.
pub ingest-IsOfSchema :
    (r : EventRow) (s : CacheStore) {t : CacheStore}
    → IsIndexed r
    → ingest r s ≡ ok t
    → IsOfSchema s
    → IsOfSchema t
ingest-IsOfSchema r s {t} i h k = record {
  unique = ingest-HasUniqueIds r s k.unique h;
  storable = ingest-IsStorable r s i k.storable h;
  ids = ingest-ids r s h k.ids;
  ledger = k.ledger;
  numbered = meta_watermark s t (ingest-meta r s h) ∙ k.numbered;
}

pub set_last_ledger-IsOfSchema :
    (ledger : ℕ) (s : CacheStore) → IsOfSchema s → IsOfSchema (set_last_ledger ledger s)
set_last_ledger-IsOfSchema ledger s k = record {
  unique = unfold set_last_ledger in k.unique;
  storable = unfold set_last_ledger in k.storable;
  ids = unfold set_last_ledger in record { ascending = k.ids.ascending; below = k.ids.below };
  ledger = ledger;
  numbered = get_last_ledger-set_last_ledger ledger s;
}

pub record_pending_reading-IsOfSchema :
    (now : Text) (r : PendingReading) (s : CacheStore)
    → IsOfSchema s
    → IsOfSchema (record_pending_reading now r s)
record_pending_reading-IsOfSchema now r s k = record {
  unique = unfold record_pending_reading in k.unique;
  storable = unfold record_pending_reading in k.storable;
  ids = record_pending_reading-HasAscendingIds now r s k.ids;
  ledger = k.ledger;
  numbered =
      meta_watermark s (record_pending_reading now r s) (unfold record_pending_reading in refl)
      ∙ k.numbered;
}

-- A database that is there holds to the schema.
abbrev pub HoldsSchema : Option CacheStore → Type 0
HoldsSchema none = Unit
HoldsSchema (some s) = IsOfSchema s

pub new_store-IsOfSchema :
    (url : Option Text) (found : Option CacheStore)
    → HoldsSchema found
    → IsOfSchema (new_store url found)
unfolding new_store get_last_ledger lookup ledger_value
new_store-IsOfSchema url none h = record {
  unique = tt;
  storable = tt;
  ids = record { ascending = tt; below = tt };
  ledger = 0;
  numbered = refl;
}
new_store-IsOfSchema url (some s) h = record {
  unique = h.unique;
  storable = h.storable;
  ids = record { ascending = h.ids.ascending; below = h.ids.below };
  ledger = h.ledger;
  numbered = h.numbered;
}
