-- ===== src/Store/Read.antt =====
-- The methods of CacheStore that read.
use io_t_billing_service.Base.{
  ℕ, Bool, true, false, ◌&&◌, Option, none, some, List, [], ◌∷◌, ◌++◌, map, Text, text, text_eq,
  text_le, leb, if◌then◌else◌, ℤ, pos, ◌+ℤ◌, ◌||◌, not, any, leb_ℤ, or_else, keep, take, length,
}
use mathlib.Core.Option
use io_t_billing_service.Js.{number_of_digits, rounded}
use io_t_billing_service.Sql.{
  order_by, sum_of, group_keys, group_rows, max_of, min_of, nullable_key, text_key,
}
use io_t_billing_service.Store.Tables.{
  Kind, sqlite, postgres, MeterRow, PendingRow, CacheStore, Outcome, ok, threw,
}
use io_t_billing_service.Store.Write.{last_ledger_key, fits_64}

-- `pendingReadings(deviceId)`; an empty id is falsy.
unfoldable pub is_truthy : Option Text → Bool
is_truthy none = false
is_truthy (some []) = false
is_truthy (some (c ∷ s)) = true

abbrev pub matches_device : Option Text → Text → Bool
matches_device none d = true
matches_device (some id) d = text_eq d id

unfoldable pub pending_readings : Option Text → CacheStore → List PendingRow
pending_readings device s =
    order_by (λ a b. leb a.id b.id)
      (if is_truthy device
        then keep (λ r. matches_device device r.device_id) s.pending_readings
        else s.pending_readings)

unfoldable pub lookup : Text → List (Text × Text) → Option Text
lookup key [] = none
lookup key ((k, v) ∷ rows) = if text_eq k key then some v else lookup key rows

-- `row ? Number(row.value) : 0`; the `none` of the result is NaN.
unfoldable pub ledger_value : Option Text → Option ℕ
ledger_value none = some 0
ledger_value (some value) = number_of_digits value

unfoldable pub get_last_ledger : CacheStore → Option ℕ
get_last_ledger s = ledger_value (lookup last_ledger_key s.meta)

-- The `from` and `to` of a query; a falsy one adds no condition.
pub record Range : Type 0 where
  pub from : Option Text
  pub to : Option Text

-- A comparison with NULL is not true.
abbrev pub at_least : Option Text → Option Text → Bool
at_least none column = true
at_least (some t) none = false
at_least (some t) (some c) = text_le t c

abbrev pub at_most : Option Text → Option Text → Bool
at_most none column = true
at_most (some t) none = false
at_most (some t) (some c) = text_le c t

abbrev pub truthy_or_null : Option Text → Option Text
truthy_or_null none = none
truthy_or_null (some []) = none
truthy_or_null (some (c ∷ s)) = some (c ∷ s)

-- The WHERE clause of metricsFor and aggregate.
unfoldable pub selected : Text → Range → MeterRow → Bool
selected device range r =
    text_eq r.device_id device
    && at_least (truthy_or_null range.from) r.emitted_at
    && at_most (truthy_or_null range.to) r.emitted_at

-- Where ORDER BY … ASC puts the NULLs: first in SQLite, last in PostgreSQL.
unfoldable pub null_le {ℓ} : {A : Type ℓ} → Kind → (A → A → Bool) → Option A → Option A → Bool
null_le sqlite le none b = true
null_le sqlite le (some a) none = false
null_le postgres le none none = true
null_le postgres le none (some b) = false
null_le postgres le (some a) none = true
null_le k le (some a) (some b) = le a b

pub record MetricRow : Type 0 where
  pub device_id : Text
  pub units : ℤ
  pub cost : ℤ
  pub rate_per_unit : ℤ
  pub balance_after : Option ℤ
  pub seq : Option ℤ
  pub emitted_at : Option Text

-- A row as the drivers give it, with its 64-bit integers as Numbers.
abbrev pub metric_row : MeterRow → MetricRow
metric_row r = record {
  device_id = r.device_id;
  units = rounded r.units;
  cost = rounded r.cost;
  rate_per_unit = rounded r.rate_per_unit;
  balance_after = Option.map rounded r.balance_after;
  seq = Option.map rounded r.seq;
  emitted_at = r.emitted_at;
}

-- ORDER BY seq ASC
abbrev pub seq_le : Kind → MeterRow → MeterRow → Bool
seq_le k a b = null_le k leb_ℤ a.seq b.seq

unfoldable pub metrics_for : Text → Range → CacheStore → List MetricRow
metrics_for device range s =
    map metric_row (order_by (seq_le s.kind) (keep (selected device range) s.meter_events))

-- SQLite's strftime('%Y-%m-%dT%H:00:00', t) and date(t); NULL for what is no time.
pub record SqliteDates : Type 0 where
  pub hour : Text → Option Text
  pub date : Text → Option Text

pub data Granularity : Type 0 where
  by_day by_hour : Granularity

-- Any granularity but 'hour' means by day, and so does none.
unfoldable pub granularity_of : Option Text → Granularity
granularity_of none = by_day
granularity_of (some g) = if text_eq g (text "hour") then by_hour else by_day

unfoldable pub bucket : SqliteDates → Kind → Granularity → Option Text → Option Text
bucket dates k g none = none
bucket dates sqlite by_hour (some t) = dates.hour t
bucket dates sqlite by_day (some t) = dates.date t
bucket dates postgres by_hour (some t) = some (take 13 t ++ text ":00:00")
bucket dates postgres by_day (some t) = some (take 10 t)

pub record BucketRow : Type 0 where
  pub bucket_key : Option Text
  pub total_units : ℤ
  pub total_cost : ℤ
  pub event_count : ℕ
  pub min_balance : Option ℤ
  pub max_balance : Option ℤ

unfoldable pub bucket_row : Option Text → List MeterRow → BucketRow
bucket_row key rows = record {
  bucket_key = key;
  total_units = rounded (sum_of (λ (r : MeterRow). r.units) rows);
  total_cost = rounded (sum_of (λ (r : MeterRow). r.cost) rows);
  event_count = length rows;
  min_balance = Option.map rounded (min_of (λ (r : MeterRow). r.balance_after) rows);
  max_balance = Option.map rounded (max_of (λ (r : MeterRow). r.balance_after) rows);
}

-- Whether a running sum leaves the 64 bits that SQLite's SUM has; PostgreSQL's SUM is a numeric.
unfoldable pub runs_over : {A : Type 0} → (A → ℤ) → ℤ → List A → Bool
runs_over f a [] = false
runs_over f a (r ∷ rows) = not (fits_64 (a +ℤ f r)) || runs_over f (a +ℤ f r) rows

unfoldable pub sums_run_over : Kind → List MeterRow → Bool
sums_run_over postgres rows = false
sums_run_over sqlite rows =
    runs_over (λ (r : MeterRow). r.units) (pos 0) rows
    || runs_over (λ (r : MeterRow). r.cost) (pos 0) rows

-- The rows of a query with SUM, or the exception 'integer overflow'.
abbrev pub unless {ℓ} : {A : Type ℓ} → Bool → A → Outcome A
unless true a = threw
unless false a = ok a

abbrev pub bucket_of : SqliteDates → CacheStore → Option Text → MeterRow → Option Text
bucket_of dates s granularity r = bucket dates s.kind (granularity_of granularity) r.emitted_at

unfoldable pub aggregate :
    SqliteDates → Text → Range → Option Text → CacheStore → Outcome (List BucketRow)
aggregate dates device range granularity s =
    let rows = keep (selected device range) s.meter_events in
    let key = bucket_of dates s granularity in
    let keys = order_by (null_le s.kind text_le) (group_keys key rows) in
    unless (any (λ k. sums_run_over s.kind (group_rows key k rows)) keys)
      (map (λ k. bucket_row k (group_rows key k rows)) keys)

unfoldable pub latest_sequence : Text → CacheStore → ℤ
latest_sequence device s =
    or_else
      (Option.map rounded
        (max_of (λ (r : MeterRow). r.seq) (keep (λ r. text_eq r.device_id device) s.meter_events)))
      (pos 0)

pub record DeviceRow : Type 0 where
  pub device_id : Text
  pub event_count : ℕ
  pub total_units : ℤ
  pub total_cost : ℤ
  pub last_ledger : Option ℤ
  pub last_activity : Option ℤ

abbrev pub as_integer : Option ℕ → Option ℤ
as_integer none = none
as_integer (some n) = some (pos n)

-- MAX(ledger)
abbrev pub last_ledger_of : List MeterRow → Option ℤ
last_ledger_of rows = max_of (λ (r : MeterRow). as_integer r.ledger) rows

unfoldable pub device_row : Text → List MeterRow → DeviceRow
device_row device rows = record {
  device_id = device;
  event_count = length rows;
  total_units = rounded (sum_of (λ (r : MeterRow). r.units) rows);
  total_cost = rounded (sum_of (λ (r : MeterRow). r.cost) rows);
  last_ledger = Option.map rounded (last_ledger_of rows);
  last_activity = Option.map rounded (max_of (λ (r : MeterRow). r.ledger_ts) rows);
}

abbrev pub device_of : MeterRow → Text
device_of r = r.device_id

-- ORDER BY last_ledger DESC, which turns the order round, NULLs included.
unfoldable pub list_devices : CacheStore → Outcome (List DeviceRow)
list_devices s =
    let rows = λ (d : Text). group_rows device_of d s.meter_events in
    let devices =
      order_by (λ a b. null_le s.kind leb_ℤ (last_ledger_of (rows b)) (last_ledger_of (rows a)))
        (group_keys device_of s.meter_events) in
    unless (any (λ d. sums_run_over s.kind (rows d)) devices)
      (map (λ d. device_row d (rows d)) devices)
