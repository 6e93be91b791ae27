-- ===== src/Frontend/Totals.antt =====
-- The dashboard over the backend's routes: what the table's sums are.
use mathlib.Core.Path.{fun_ext, ap₂}
use io_t_billing_service.Base.{
  ◌≡◌, refl, sym, ap, ◌∙◌, Bool, true, false, List, [], ◌∷◌, map, Text, text, text_eq, ℤ, All, keep,
  arith, if◌then◌else◌,
}
use io_t_billing_service.Js.{rounded}
use io_t_billing_service.Sql.{text_key, sum_of, group_rows, IsSmall-keep, rounded-sum_of}
use io_t_billing_service.Store.{
  CacheStore, MeterRow, MetricRow, selected, DeviceRow, device_row, device_of, list_devices, ok,
}
use io_t_billing_service.Store.Totals.{AreSmall, list_devices-rows}
use io_t_billing_service.Api.{BalanceReply, get_balance, whole_range}
use io_t_billing_service.Api.Agreement.{reduce_lem}
use io_t_billing_service.Frontend.Requests.{
  MetricSeries, Balance, DeviceInfo, unreachable, response, Settled, read, fetch_balance,
}
use io_t_billing_service.Frontend.Devices.{Row, row_of, or_null, render}
use io_t_billing_service.Frontend.DeviceTable.{loaded, rows_of, table_rows, render-loaded}

-- The bodies of the responses of GET /api/devices and GET /api/devices/:id/balance.
abbrev pub info_of : DeviceRow → DeviceInfo
info_of r = record {
  device_id = r.device_id;
  event_count = r.event_count;
  total_units = r.total_units;
  total_cost = r.total_cost;
  last_ledger = r.last_ledger;
  last_activity = r.last_activity;
}

abbrev pub balance_of : BalanceReply → Balance
balance_of r = record {
  device_id = r.device_id;
  on_chain_balance = r.on_chain_balance;
  latest_seq = r.latest_seq;
  pending_uncommitted_units = r.pending_uncommitted_units;
  total_units = r.total_units;
  total_billed = r.total_billed;
}

selected-whole_range :
    (id : Text) (r : MeterRow) → selected id whole_range r ≡ text_eq r.device_id id
unfolding selected
selected-whole_range id r = ground arith

keep_whole :
    (id : Text) (rows : List MeterRow)
    → keep (selected id whole_range) rows ≡ group_rows device_of id rows
keep_whole id rows = ap (λ p. keep p rows) (fun_ext (selected-whole_range id))

-- The sums of a device's balance are those of its group.
balance-total_units :
    (id : Text) (s : CacheStore)
    → AreSmall s.meter_events
    → (get_balance id s).total_units
      ≡ rounded (sum_of (λ (r : MeterRow). r.units) (group_rows device_of id s.meter_events))
unfolding get_balance
balance-total_units id s h =
    reduce_lem (λ (r : MetricRow). r.units) (λ (r : MeterRow). r.units) id whole_range s (λ r. refl)
      (IsSmall-keep (λ (r : MeterRow). r.units) _ s.meter_events h.small_units)
    ∙ ap (sum_of (λ (r : MeterRow). r.units)) (keep_whole id s.meter_events)
    ∙ sym (
        rounded-sum_of (λ (r : MeterRow). r.units) _
          (IsSmall-keep (λ (r : MeterRow). r.units) _ s.meter_events h.small_units))

balance-total_billed :
    (id : Text) (s : CacheStore)
    → AreSmall s.meter_events
    → (get_balance id s).total_billed
      ≡ rounded (sum_of (λ (r : MeterRow). r.cost) (group_rows device_of id s.meter_events))
unfolding get_balance
balance-total_billed id s h =
    reduce_lem (λ (r : MetricRow). r.cost) (λ (r : MeterRow). r.cost) id whole_range s (λ r. refl)
      (IsSmall-keep (λ (r : MeterRow). r.cost) _ s.meter_events h.small_cost)
    ∙ ap (sum_of (λ (r : MeterRow). r.cost)) (keep_whole id s.meter_events)
    ∙ sym (
        rounded-sum_of (λ (r : MeterRow). r.cost) _
          (IsSmall-keep (λ (r : MeterRow). r.cost) _ s.meter_events h.small_cost))

-- A row of the list of devices has the sums of the device's balance.
abbrev Agrees : CacheStore → DeviceRow → Type 0
Agrees s r =
    ((get_balance r.device_id s).total_units ≡ r.total_units)
    × ((get_balance r.device_id s).total_billed ≡ r.total_cost)

All-map_row :
    (s : CacheStore) (ks : List Text)
    → AreSmall s.meter_events
    → All (Agrees s) (map (λ d. device_row d (group_rows device_of d s.meter_events)) ks)
unfolding device_row
All-map_row s [] h = tt
All-map_row s (k ∷ ks) h =
    ((balance-total_units k s h, balance-total_billed k s h), All-map_row s ks h)

-- What a row of the table or of the list says of a device's sums.
abbrev pub sums : Row → Text × ℤ × ℤ
sums r = (r.device, r.units, r.billed)

abbrev pub device_sums : DeviceRow → Text × ℤ × ℤ
device_sums r = (r.device_id, r.total_units, r.total_cost)

-- The requests for balances that come through are answered by the route, the others fail.
abbrev pub balance_answer : CacheStore → (Text → Bool) → Text → Settled Balance
balance_answer s comes_through id = fetch_balance (
    if comes_through id
    then response 200 (balance_of (get_balance id s))
    else unreachable (text "Failed to fetch"))

row_sums :
    (s : CacheStore) (b : Bool) (r : DeviceRow)
    → Agrees s r
    → sums (
        row_of (info_of r) (
          or_null (
            fetch_balance (
              if b
              then response 200 (balance_of (get_balance r.device_id s))
              else unreachable (text "Failed to fetch")))))
      ≡ device_sums r
unfolding fetch_balance read
row_sums s true r (u, c) = ap₂ (λ x y. (r.device_id, x, y)) u c
row_sums s false r h = refl

table_sums :
    (s : CacheStore) (comes_through : Text → Bool) (rs : List DeviceRow)
    → All (Agrees s) rs
    → map sums (table_rows (balance_answer s comes_through) (map info_of rs)) ≡ map device_sums rs
unfolding table_rows
table_sums s f [] h = refl
table_sums s f (r ∷ rs) (k, h) =
    ap₂ (λ x xs. x ∷ xs) (row_sums s (f r.device_id) r k) (table_sums s f rs h)

-- Where the units and the costs of the stored events, without their signs, sum up to at most
-- 2 ^ 53, the list of devices is answered, and over the backend's routes the table shows for each
-- device the units and the sum billed that GET /api/devices reports, in its order, whichever of the
-- requests for balances and series fail.
pub dashboard_sums :
    (s : CacheStore) (comes_through : Text → Bool) (series_of : Text → Settled (List MetricSeries))
    → AreSmall s.meter_events
    → (devices : List DeviceRow) × (list_devices s ≡ ok devices)
      × (map sums (
            rows_of
              (render (loaded (balance_answer s comes_through) series_of (map info_of devices))))
          ≡ map device_sums devices)
dashboard_sums s comes_through series_of h =
    let (ids, answered) = list_devices-rows s h in
    let devices = map (λ d. device_row d (group_rows device_of d s.meter_events)) ids in
    (
      devices,
      answered,
      ap (map sums) (render-loaded (balance_answer s comes_through) series_of (map info_of devices))
          ∙ table_sums s comes_through devices (All-map_row s ids h),
    )
