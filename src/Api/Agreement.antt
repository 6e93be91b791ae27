-- ===== src/Api/Agreement.antt =====
-- server.js: the two routes that report on one device.
use mathlib.Core.Path.{fun_ext}
use io_t_billing_service.Base.{
  ◌^◌, ◌≤ℤ◌, ◌≡◌, refl, ap, sym, ◌∙◌, Option, List, [], ◌∷◌, Text, ℤ, pos, ◌+ℤ◌, int_laws, keep,
}
use io_t_billing_service.Js.{rounded, magnitude, rounded_exact}
use io_t_billing_service.Sql.{
  sum_of, size, size_not_negative, IsSmall, sum_of-rounded, magnitude-add_le,
}
use io_t_billing_service.Store.{
  CacheStore, SqliteDates, MeterRow, MetricRow, metric_row, BucketRow, metrics_for, selected, Range,
  ok,
}
use io_t_billing_service.Store.Totals.{AreSmall, aggregate-metrics_for, sum_of-metrics_for}
use io_t_billing_service.Api.Routes.{MetricsReply, get_metrics, get_balance, reduce, whole_range}

-- Where the size is at most 2 ^ 53, the additions of doubles are exact.
reduce-sum_of :
    {A : Type 0} (f : A → ℤ) (a : ℤ) (rows : List A)
    → pos (magnitude a) +ℤ size f rows ≤ℤ pos (2 ^ 53)
    → reduce f a rows ≡ a +ℤ sum_of f rows
unfolding reduce sum_of
reduce-sum_of f a [] h = omega int_laws
reduce-sum_of f a (r ∷ rows) h =
    let grown = magnitude-add_le a (f r) in
    let k = size_not_negative f rows in
    let exact = rounded_exact (a +ℤ f r) (omega (int_laws, h, grown, k)) in
    ap (λ z. reduce f z rows) exact
    ∙ reduce-sum_of f (a +ℤ f r) rows (omega (int_laws, h, grown))
    ∙ omega int_laws

-- So what the balance route sums up is the sum of the column, as the table has it.
pub reduce_lem :
    (column : MetricRow → ℤ) (f : MeterRow → ℤ) (device : Text) (range : Range) (s : CacheStore)
    → ((r : MeterRow) → column (metric_row r) ≡ rounded (f r))
    → IsSmall f (keep (selected device range) s.meter_events)
    → reduce column (pos 0) (metrics_for device range s)
      ≡ sum_of f (keep (selected device range) s.meter_events)
reduce_lem column f device range s each h =
    let rows = keep (selected device range) s.meter_events in
    let (sums, sizes) = sum_of-rounded f rows h in
    let sized : size column (metrics_for device range s) ≡ size f rows =
      sum_of-metrics_for device range s (λ r. pos (magnitude (column r)))
      ∙ ap (λ g. sum_of g rows) (fun_ext (λ r. ap (λ z. pos (magnitude z)) (each r)))
      ∙ sizes in
    reduce-sum_of column (pos 0) (metrics_for device range s) (rw sized (omega (int_laws, h)))
    ∙ (omega int_laws)
    ∙ sum_of-metrics_for device range s column
    ∙ ap (λ g. sum_of g rows) (fun_ext each)
    ∙ sums

-- Where the units and the costs of the device's events, without their signs, sum up to at most
-- 2 ^ 53, the metrics route replies, and the units and the sum billed that the balance route
-- reports for the device are those of the series that the metrics route reports for it without a
-- time range, for every granularity, dialect and date function.
pub get_balance-get_metrics :
    (dates : SqliteDates) (id : Text) (granularity : Option Text) (s : CacheStore)
    → AreSmall (keep (selected id whole_range) s.meter_events)
    → (reply : MetricsReply) × (get_metrics dates id whole_range granularity s ≡ ok reply)
      × ((get_balance id s).total_units ≡ sum_of (λ (b : BucketRow). b.total_units) reply.series)
      × ((get_balance id s).total_billed ≡ sum_of (λ (b : BucketRow). b.total_cost) reply.series)
unfolding get_balance get_metrics
get_balance-get_metrics dates id granularity s h =
    let rows = keep (selected id whole_range) s.meter_events in
    let (series, ends, units, cost, count) =
      aggregate-metrics_for dates id whole_range granularity s h in
    (
      record { device_id = id; series = series; samples = metrics_for id whole_range s },
      rw (ends, get_metrics) refl,
      reduce_lem (λ r. r.units) (λ r. r.units) id whole_range s (λ r. refl) h.small_units
          ∙ sym (
              units
              ∙ sum_of-metrics_for id whole_range s (λ r. r.units)
              ∙ (sum_of-rounded (λ (r : MeterRow). r.units) rows h.small_units).0),
      reduce_lem (λ r. r.cost) (λ r. r.cost) id whole_range s (λ r. refl) h.small_cost
          ∙ sym (
              cost
              ∙ sum_of-metrics_for id whole_range s (λ r. r.cost)
              ∙ (sum_of-rounded (λ (r : MeterRow). r.cost) rows h.small_cost).0),
    )
