-- ===== src/Api/Routes.antt =====
-- `createApi`: the replies of GET /api/devices/:id/metrics and GET /api/devices/:id/balance.
use io_t_billing_service.Base.{ℕ, Option, none, some, List, [], ◌∷◌, Text, ℤ, pos, ◌+ℤ◌, or_else}
use io_t_billing_service.Js.{rounded}
use io_t_billing_service.Store.{
  Outcome, ok, threw, CacheStore, Range, SqliteDates, MetricRow, metrics_for, BucketRow, aggregate,
  latest_sequence,
}

pub record MetricsReply : Type 0 where
  pub device_id : Text
  pub series : List BucketRow
  pub samples : List MetricRow

-- `threw` is the exception of a query, with which the promise of the handler is rejected.
unfoldable pub get_metrics :
    SqliteDates → Text → Range → Option Text → CacheStore → Outcome MetricsReply
get_metrics dates id range granularity storage =
    elim (aggregate dates id range granularity storage) [
      | threw ↦ threw
      | ok series ↦
          ok (record { device_id = id; series = series; samples = metrics_for id range storage })
    ]

-- `rows.reduce((a, r) => a + Number(…), a)`, where each addition gives a double.
unfoldable pub reduce : {A : Type 0} → (A → ℤ) → ℤ → List A → ℤ
reduce f a [] = a
reduce f a (r ∷ rows) = reduce f (rounded (a +ℤ f r)) rows

-- `rows[rows.length - 1] ?? null`
unfoldable pub last_row : {A : Type 0} → List A → Option A
last_row [] = none
last_row (r ∷ []) = some r
last_row (r ∷ r' ∷ rows) = last_row (r' ∷ rows)

-- `latest ? Number(latest.balance_after) : null`, where Number(null) is 0.
unfoldable pub on_chain_balance_of : Option MetricRow → Option ℤ
on_chain_balance_of none = none
on_chain_balance_of (some r) = some (or_else r.balance_after (pos 0))

pub record BalanceReply : Type 0 where
  pub device_id : Text
  pub on_chain_balance : Option ℤ
  pub latest_seq : ℤ
  pub pending_uncommitted_units : ℕ
  pub total_units : ℤ
  pub total_billed : ℤ
  pub last_reading : Option MetricRow

abbrev pub whole_range : Range
whole_range = record { from = none; to = none }

unfoldable pub get_balance : Text → CacheStore → BalanceReply
get_balance id storage =
    let rows = metrics_for id whole_range storage in
    let latest = last_row rows in
    record {
      device_id = id;
      on_chain_balance = on_chain_balance_of latest;
      latest_seq = latest_sequence id storage;
      pending_uncommitted_units = 0;
      total_units = reduce (λ (r : MetricRow). r.units) (pos 0) rows;
      total_billed = reduce (λ (r : MetricRow). r.cost) (pos 0) rows;
      last_reading = latest;
    }
