-- ===== src/Frontend/Devices.antt =====
-- components/DeviceList.tsx: the state of the component, what its promises do to it, and what it
-- shows.
use io_t_billing_service.Base.{
  ℕ, Bool, true, false, Option, none, some, List, [], ◌∷◌, map, Text, text_eq, ℤ, or_else, length,
  if◌then◌else◌,
}
use io_t_billing_service.Frontend.Requests.{
  MetricSeries, Balance, DeviceInfo, Settled, resolved, rejected,
}

-- Object.fromEntries of two lists, and the lookup in it: a later entry replaces an earlier one.
unfoldable pub from_entries : {V : Type 0} → List Text → List V → List (Text × V)
from_entries [] vs = []
from_entries (k ∷ ks) [] = []
from_entries (k ∷ ks) (v ∷ vs) = (k, v) ∷ from_entries ks vs

unfoldable pub entry : {V : Type 0} → Text → List (Text × V) → Option V
entry k [] = none
entry k ((j, v) ∷ m) =
    let later = entry k m in
    elim later [ some w ↦ some w | none ↦ if text_eq j k then some v else none ]

-- What the effect waits for: the list, the details of the listed devices, or nothing.
pub data Waiting : Type 0 where
  for_list : Waiting
  for_details : List DeviceInfo → Waiting
  settled : Waiting

pub record DeviceList : Type 0 where
  pub devices : List DeviceInfo
  pub balances : List (Text × Option Balance)
  pub series : List (Text × List MetricSeries)
  pub error : Option Text
  pub loading : Bool
  pub cancelled : Bool
  pub waiting : Waiting

unfoldable pub mounted : DeviceList
mounted = record {
  devices = [];
  balances = [];
  series = [];
  error = none;
  loading = true;
  cancelled = false;
  waiting = for_list;
}

-- What happens to the component: the request for the list settles, those for the details do, in
-- the order of the list, or it is unmounted.
pub data Input : Type 0 where
  listed : Settled (List DeviceInfo) → Input
  detailed : List (Settled Balance) → List (Settled (List MetricSeries)) → Input
  unmounted : Input

abbrev pub or_null : Settled Balance → Option Balance
or_null (resolved b) = some b
or_null (rejected message) = none

abbrev pub or_none : Settled (List MetricSeries) → List MetricSeries
or_none (resolved s) = s
or_none (rejected message) = []

abbrev pub id_of : DeviceInfo → Text
id_of d = d.device_id

-- `finally`
abbrev pub finish : DeviceList → DeviceList
finish v = if v.cancelled then v else record v { loading = false }

-- `then`, with its two tests of `cancelled`, and `catch`.
unfoldable pub on_listed : Settled (List DeviceInfo) → DeviceList → DeviceList
on_listed (resolved list) v =
    if v.cancelled
    then record v { waiting = settled }
    else record v { devices = list; waiting = for_details list }
on_listed (rejected message) v = finish (
    if v.cancelled
    then record v { waiting = settled }
    else record v { error = some message; waiting = settled })

unfoldable pub on_detailed :
    List DeviceInfo
    → List (Settled Balance)
    → List (Settled (List MetricSeries))
    → DeviceList
    → DeviceList
on_detailed list balances series v = finish (
    if v.cancelled then record v { waiting = settled } else record v {
      balances = from_entries (map id_of list) (map or_null balances);
      series = from_entries (map id_of list) (map or_none series);
      waiting = settled;
    })

abbrev pub on_details :
    Waiting → List (Settled Balance) → List (Settled (List MetricSeries)) → DeviceList → DeviceList
on_details (for_details list) balances series v = on_detailed list balances series v
on_details for_list balances series v = v
on_details settled balances series v = v

abbrev pub on_list : Waiting → Settled (List DeviceInfo) → DeviceList → DeviceList
on_list for_list r v = on_listed r v
on_list (for_details list) r v = v
on_list settled r v = v

unfoldable pub step : Input → DeviceList → DeviceList
step (listed r) v = on_list v.waiting r v
step (detailed balances series) v = on_details v.waiting balances series v
step unmounted v = record v { cancelled = true }

unfoldable pub run : List Input → DeviceList → DeviceList
run [] v = v
run (i ∷ is) v = run is (step i v)

-- A row of the table; `none` is shown as a dash.
pub record Row : Type 0 where
  pub device : Text
  pub balance : Option ℤ
  pub units : ℤ
  pub billed : ℤ
  pub latest_seq : Option ℤ
  pub records : ℕ

abbrev pub row_of : DeviceInfo → Option Balance → Row
row_of d none = record {
  device = d.device_id;
  balance = none;
  units = d.total_units;
  billed = d.total_cost;
  latest_seq = none;
  records = d.event_count;
}
row_of d (some b) = record {
  device = d.device_id;
  balance = b.on_chain_balance;
  units = b.total_units;
  billed = b.total_billed;
  latest_seq = some b.latest_seq;
  records = d.event_count;
}

pub data Screen : Type 0 where
  error_text : Text → Screen
  loading_text : Screen
  no_devices : Screen
  tables : ℕ → List Row → List MetricSeries → Screen

unfoldable pub table_row : DeviceList → DeviceInfo → Row
table_row v d = row_of d (or_else (entry d.device_id v.balances) none)

-- The second table shows the first device; without a series it is left out.
abbrev pub show_devices : DeviceList → List DeviceInfo → Screen
show_devices v [] = no_devices
show_devices v (d ∷ ds) =
    tables (length (d ∷ ds)) (map (table_row v) (d ∷ ds)) (or_else (entry d.device_id v.series) [])

abbrev pub show_loaded : DeviceList → Bool → Screen
show_loaded v true = loading_text
show_loaded v false = show_devices v v.devices

unfoldable pub render : DeviceList → Screen
render v = elim v.error [ some message ↦ error_text message | none ↦ show_loaded v v.loading ]
