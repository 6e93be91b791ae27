-- ===== src/Store/Tests.antt =====
-- The store's properties at concrete tables.
use io_t_billing_service.Base.{
  ◌+ℤ◌, ℕ, ◌≡◌, refl, arith, Option, none, some, List, [], ◌∷◌, ◌++◌, Text, text, text_eq, pos,
  keep, length, take,
}
use io_t_billing_service.Sql.{sum_of}
use io_t_billing_service.Store.Tables.{sqlite, MeterRow, CacheStore, ok}
use io_t_billing_service.Store.Write.{
  insert_or_ignore, as_bigint, EventRow, filled, fits_64, binds, conflicts, insert_event, ingest,
}
use io_t_billing_service.Store.Read.{
  Range, SqliteDates, MetricRow, metrics_for, selected, BucketRow, aggregate, DeviceRow,
  list_devices,
}
use io_t_billing_service.Store.Ingest.{ingest_twice}
use io_t_billing_service.Store.Totals.{
  AreSmall, AreSmall-keep, aggregate-metrics_for, list_devices_complete,
}

abbrev reading : Text → Option Text → ℕ → EventRow
reading id device seq = record {
  event_id = some id;
  contract_id = some (text "C1");
  ledger = some 100;
  device_id = device;
  operator = none;
  units = some (as_bigint (pos 100));
  rate_per_unit = none;
  cost = some (as_bigint (pos 1000));
  balance_after = some (as_bigint (pos 999000));
  seq = some (pos seq);
  ledger_ts = none;
  emitted_at = some (text "2026-01-02T10:00:00Z");
  raw = none;
}

abbrev first : EventRow
first = reading (text "e1") (some (text "D1")) 1

abbrev second : EventRow
second = reading (text "e2") (some (text "D1")) 2

abbrev no_events : CacheStore
no_events = record {
  kind = sqlite;
  meta = [];
  meter_events = [];
  pending_readings = [];
  next_id = 1;
}

abbrev with_rows : List MeterRow → CacheStore
with_rows rows = record no_events { meter_events = rows }

abbrev one_event : CacheStore
one_event = with_rows (filled (text "D1") first ∷ [])

abbrev two_events : CacheStore
two_events = with_rows (filled (text "D1") first ∷ filled (text "D1") second ∷ [])

tests : Unit {0}
unfolding ingest binds insert_or_ignore fits_64 insert_event conflicts filled text_eq
tests = tt

ingest-second : ingest second one_event ≡ ok two_events
unfolding tests
ingest-second = refl

ingest_twice_example : ingest second two_events ≡ ok two_events
ingest_twice_example = ingest_twice second one_event (λ e. cc) ingest-second

-- Dates of the form that toISOString gives.
abbrev dates : SqliteDates
dates = record { hour = λ t. some (take 13 t ++ text ":00:00"); date = λ t. some (take 10 t) }

abbrev always : Range
always = record { from = none; to = none }

small : AreSmall two_events.meter_events
unfolding sum_of filled ◌+ℤ◌
small = record { small_units = omega arith; small_cost = omega arith }

small_chosen : AreSmall (keep (selected (text "D1") always) two_events.meter_events)
small_chosen = AreSmall-keep (selected (text "D1") always) two_events.meter_events small

aggregate-metrics_for_example :
    (buckets : List BucketRow) × (aggregate dates (text "D1") always none two_events ≡ ok buckets)
    × (sum_of (λ (b : BucketRow). b.total_units) buckets
        ≡ sum_of (λ (r : MetricRow). r.units) (metrics_for (text "D1") always two_events))
    × (sum_of (λ (b : BucketRow). b.total_cost) buckets
        ≡ sum_of (λ (r : MetricRow). r.cost) (metrics_for (text "D1") always two_events))
    × (sum_of (λ (b : BucketRow). pos b.event_count) buckets
        ≡ pos (length (metrics_for (text "D1") always two_events)))
aggregate-metrics_for_example =
    aggregate-metrics_for dates (text "D1") always none two_events small_chosen

list_devices_complete_example :
    (devices : List DeviceRow) × (list_devices two_events ≡ ok devices)
    × (sum_of (λ (d : DeviceRow). d.total_units) devices
        ≡ sum_of (λ (r : MeterRow). r.units) two_events.meter_events)
    × (sum_of (λ (d : DeviceRow). d.total_cost) devices
        ≡ sum_of (λ (r : MeterRow). r.cost) two_events.meter_events)
    × (sum_of (λ (d : DeviceRow). pos d.event_count) devices ≡ pos (length two_events.meter_events))
list_devices_complete_example = list_devices_complete two_events small
