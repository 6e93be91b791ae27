-- ===== src/Store/Totals.antt =====
-- store.js: the sums that the queries report.
use mathlib.Core.Path.{fun_ext}
use io_t_billing_service.Base.{
  ◌^◌, ◌≤◌, ◌≤ℤ◌, ◌≡◌, refl, ap, sym, ◌∙◌, Bool, true, false, Option, List, [], ◌∷◌, map, keep, any,
  length, Text, text_le, leb_ℤ, ℤ, pos, negsuc, ◌+ℤ◌, int_laws, arith,
}
use io_t_billing_service.Js.{magnitude}
use io_t_billing_service.Sql.{
  Eq, text_key, nullable_key, sum_of, order_by, sum_of-order_by, group_keys, group_rows,
  sum_of-groups, All-group_keys-IsOnce, IsSmall, size, size_not_negative, IsSmall-keep,
  rounded-sum_of, sum_of-rounded, magnitude-add_le,
}
use io_t_billing_service.Store.Tables.{Kind, sqlite, postgres, MeterRow, CacheStore, ok}
use io_t_billing_service.Store.Write.{fits_64}
use io_t_billing_service.Store.Read.{
  Range, SqliteDates, MetricRow, metric_row, metrics_for, selected, BucketRow, bucket_row,
  bucket_of, null_le, aggregate, DeviceRow, device_row, list_devices, device_of, runs_over,
  sums_run_over, unless, seq_le, last_ledger_of,
}

magnitude-fits_64 : (a : ℤ) → magnitude a ≤ 2 ^ 53 → fits_64 a ≡ true
unfolding fits_64
magnitude-fits_64 (pos n) h = ground (arith, h)
magnitude-fits_64 (negsuc n) h = ground (arith, h)

pub sum_of-map :
    {A B : Type 0} (f : B → ℤ) (g : A → B) (xs : List A)
    → sum_of f (map g xs) ≡ sum_of (λ x. f (g x)) xs
unfolding sum_of
sum_of-map f g [] = refl
sum_of-map f g (x ∷ xs) = ap (λ t. f (g x) +ℤ t) (sum_of-map f g xs)

module _ {A : Type 0} where
  -- Where the size is at most 2 ^ 53 no running sum leaves 64 bits.
  runs_over-false :
      (f : A → ℤ) (a : ℤ) (xs : List A)
      → pos (magnitude a) +ℤ size f xs ≤ℤ pos (2 ^ 53)
      → runs_over f a xs ≡ false
  unfolding runs_over sum_of fits_64
  runs_over-false f a [] h = refl
  runs_over-false f a (x ∷ xs) h =
      let grown = magnitude-add_le a (f x) in
      let k = size_not_negative f xs in
      let rest = runs_over-false f (a +ℤ f x) xs (omega (int_laws, h, grown)) in
      let fits = magnitude-fits_64 (a +ℤ f x) (omega (int_laws, h, grown, k)) in
      rw (fits, rest) refl

  any-false : (p : A → Bool) (xs : List A) → ((x : A) → p x ≡ false) → any p xs ≡ false
  any-false p [] h = refl
  any-false p (x ∷ xs) h = rw (h x) (any-false p xs h)

-- The units and the costs of the rows are small enough.
pub record AreSmall (rows : List MeterRow) : Type 0 where
  pub small_units : IsSmall (λ (r : MeterRow). r.units) rows
  pub small_cost : IsSmall (λ (r : MeterRow). r.cost) rows

pub AreSmall-keep :
    (p : MeterRow → Bool) (rows : List MeterRow) → AreSmall rows → AreSmall (keep p rows)
AreSmall-keep p rows h = record {
  small_units = IsSmall-keep (λ (r : MeterRow). r.units) p rows h.small_units;
  small_cost = IsSmall-keep (λ (r : MeterRow). r.cost) p rows h.small_cost;
}

sums_run_over-false :
    (k : Kind) (rows : List MeterRow) → AreSmall rows → sums_run_over k rows ≡ false
unfolding sums_run_over
sums_run_over-false postgres rows h = refl
sums_run_over-false sqlite rows h =
    let u = h.small_units in
    let c = h.small_cost in
    rw
      (
        runs_over-false (λ (r : MeterRow). r.units) (pos 0) rows (omega (int_laws, u)),
        runs_over-false (λ (r : MeterRow). r.cost) (pos 0) rows (omega (int_laws, c)),
      )
      refl

unless-false : {A : Type 0} (b : Bool) (a : A) → b ≡ false → unless b a ≡ ok a
unless-false b a h = rw h refl

-- A COUNT is a SUM of ones.
sum_of-one : {A : Type 0} (xs : List A) → sum_of (λ (x : A). pos 1) xs ≡ pos (length xs)
unfolding sum_of
sum_of-one [] = refl
sum_of-one (x ∷ xs) = rw (sum_of-one xs) (omega int_laws)

-- A sum over the sorted groups of a column summed in each group is the sum of the column.
module _ {K : Type 0} ⦃e : Eq K⦄ (key : MeterRow → K) (le : K → K → Bool) where
  sum_of-sorted_groups :
      (f : MeterRow → ℤ) (rows : List MeterRow)
      → sum_of (λ k. sum_of f (group_rows key k rows)) (order_by le (group_keys key rows))
        ≡ sum_of f rows
  sum_of-sorted_groups f rows =
      sum_of-order_by le (λ k. sum_of f (group_rows key k rows)) (group_keys key rows)
      ∙ sum_of-groups key f (group_keys key rows) rows (All-group_keys-IsOnce key rows)

  -- So is what the groups' rows report of it, where a group's report is its sum.
  sum_of-reports :
      {R : Type 0} (report : K → List MeterRow → R) (total : R → ℤ) (f : MeterRow → ℤ)
      (rows : List MeterRow)
      → ((k : K) → total (report k (group_rows key k rows)) ≡ sum_of f (group_rows key k rows))
      → sum_of total
          (map (λ k. report k (group_rows key k rows)) (order_by le (group_keys key rows)))
        ≡ sum_of f rows
  sum_of-reports report total f rows each =
      sum_of-map total (λ k. report k (group_rows key k rows)) _
      ∙ ap (λ g. sum_of g (order_by le (group_keys key rows))) (fun_ext each)
      ∙ sum_of-sorted_groups f rows

  no_group_runs_over :
      (k : Kind) (rows : List MeterRow)
      → AreSmall rows
      → any (λ x. sums_run_over k (group_rows key x rows)) (order_by le (group_keys key rows))
        ≡ false
  no_group_runs_over k rows h =
      any-false _ _ (λ x. sums_run_over-false k (group_rows key x rows) (AreSmall-keep _ rows h))

pub sum_of-metrics_for :
    (device : Text) (range : Range) (s : CacheStore) (column : MetricRow → ℤ)
    → sum_of column (metrics_for device range s)
      ≡ sum_of (λ r. column (metric_row r)) (keep (selected device range) s.meter_events)
unfolding metrics_for
sum_of-metrics_for device range s column =
    sum_of-map column metric_row _ ∙ sum_of-order_by (seq_le s.kind) (λ r. column (metric_row r)) _

abbrev units_of : MeterRow → ℤ
units_of r = r.units

abbrev cost_of : MeterRow → ℤ
cost_of r = r.cost

module _ (dates : SqliteDates) (device : Text) (range : Range) (granularity : Option Text)
    (s : CacheStore) where
  abbrev chosen : List MeterRow
  chosen = keep (selected device range) s.meter_events

  -- For any dialect, time range and granularity, where the units and the costs of the selected
  -- events, without their signs, sum up to at most 2 ^ 53, aggregate raises no exception, and its
  -- buckets add up to the samples of metricsFor: the same units, the same cost and the same number
  -- of events.
  pub aggregate-metrics_for :
      AreSmall (keep (selected device range) s.meter_events)
      → (buckets : List BucketRow) × (aggregate dates device range granularity s ≡ ok buckets)
        × (sum_of (λ (b : BucketRow). b.total_units) buckets
            ≡ sum_of (λ (r : MetricRow). r.units) (metrics_for device range s))
        × (sum_of (λ (b : BucketRow). b.total_cost) buckets
            ≡ sum_of (λ (r : MetricRow). r.cost) (metrics_for device range s))
        × (sum_of (λ (b : BucketRow). pos b.event_count) buckets
            ≡ pos (length (metrics_for device range s)))
  unfolding aggregate bucket_row
  aggregate-metrics_for h =
      let key = bucket_of dates s granularity in
      let le = null_le s.kind text_le in
      (
        map (λ k. bucket_row k (group_rows key k chosen)) (order_by le (group_keys key chosen)),
        unless-false _ _ (no_group_runs_over key le s.kind chosen h),
        sum_of-reports key le bucket_row (λ b. b.total_units) units_of chosen
              (λ k. rounded-sum_of units_of _ (IsSmall-keep units_of _ chosen h.small_units))
            ∙ sym (
                sum_of-metrics_for device range s (λ r. r.units)
                ∙ (sum_of-rounded units_of chosen h.small_units).0),
        sum_of-reports key le bucket_row (λ b. b.total_cost) cost_of chosen
              (λ k. rounded-sum_of cost_of _ (IsSmall-keep cost_of _ chosen h.small_cost))
            ∙ sym (
                sum_of-metrics_for device range s (λ r. r.cost)
                ∙ (sum_of-rounded cost_of chosen h.small_cost).0),
        sum_of-reports key le bucket_row (λ b. pos b.event_count) (λ r. pos 1) chosen
              (λ k. sym (sum_of-one (group_rows key k chosen)))
            ∙ sym (sum_of-metrics_for device range s (λ r. pos 1))
            ∙ sum_of-one (metrics_for device range s),
      )

-- Then listDevices answers, with one row of a group each.
pub list_devices-rows :
    (s : CacheStore)
    → AreSmall s.meter_events
    → (ids : List Text) × (list_devices s
        ≡ ok (map (λ d. device_row d (group_rows device_of d s.meter_events)) ids))
unfolding list_devices
list_devices-rows s h =
    (_, unless-false _ _ (no_group_runs_over device_of _ s.kind s.meter_events h))

-- Where the units and the costs of the stored events, without their signs, sum up to at most
-- 2 ^ 53, listDevices raises no exception, and the devices listed account for every stored event:
-- their units, their costs and their event counts add up to those of the whole table.
pub list_devices_complete :
    (s : CacheStore)
    → AreSmall s.meter_events
    → (devices : List DeviceRow) × (list_devices s ≡ ok devices)
      × (sum_of (λ (d : DeviceRow). d.total_units) devices
          ≡ sum_of (λ (r : MeterRow). r.units) s.meter_events)
      × (sum_of (λ (d : DeviceRow). d.total_cost) devices
          ≡ sum_of (λ (r : MeterRow). r.cost) s.meter_events)
      × (sum_of (λ (d : DeviceRow). pos d.event_count) devices ≡ pos (length s.meter_events))
unfolding list_devices device_row
list_devices_complete s h =
    let rows = s.meter_events in
    let le = λ (a b : Text).
      null_le s.kind leb_ℤ (last_ledger_of (group_rows device_of b rows))
        (last_ledger_of (group_rows device_of a rows)) in
    (
      map (λ d. device_row d (group_rows device_of d rows))
          (order_by le (group_keys device_of rows)),
      unless-false _ _ (no_group_runs_over device_of le s.kind rows h),
      sum_of-reports device_of le device_row (λ d. d.total_units) units_of rows
          (λ k. rounded-sum_of units_of _ (IsSmall-keep units_of _ rows h.small_units)),
      sum_of-reports device_of le device_row (λ d. d.total_cost) cost_of rows
          (λ k. rounded-sum_of cost_of _ (IsSmall-keep cost_of _ rows h.small_cost)),
      sum_of-reports device_of le device_row (λ d. pos d.event_count) (λ r. pos 1) rows
            (λ k. sym (sum_of-one (group_rows device_of k rows)))
          ∙ sum_of-one rows,
    )
