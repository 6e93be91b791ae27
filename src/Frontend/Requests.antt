-- ===== src/Frontend/Requests.antt =====
-- services/api.ts: the requests, by what fetch answers.
use io_t_billing_service.Base.{
  ℕ, Option, List, [], ◌++◌, Text, text, ℤ, or_else, leb, ltb, ◌&&◌, if◌then◌else◌,
}
use io_t_billing_service.Js.{decimal}

pub record MetricSeries : Type 0 where
  pub bucket : Option Text
  pub total_units : ℤ
  pub total_cost : ℤ
  pub event_count : ℕ

pub record Balance : Type 0 where
  pub device_id : Text
  pub on_chain_balance : Option ℤ
  pub latest_seq : ℤ
  pub pending_uncommitted_units : ℕ
  pub total_units : ℤ
  pub total_billed : ℤ

pub record DeviceInfo : Type 0 where
  pub device_id : Text
  pub event_count : ℕ
  pub total_units : ℤ
  pub total_cost : ℤ
  pub last_ledger : Option ℤ
  pub last_activity : Option ℤ

-- What fetch and the reading of the body give: an exception with its message, or a response with
-- its status and the part of the body that is asked for.
pub data Answer (A : Type 0) : Type 0 where
  unreachable : Text → Answer A
  response : ℕ → A → Answer A

-- How a request function ends.
pub data Settled (A : Type 0) : Type 0 where
  resolved : A → Settled A
  rejected : Text → Settled A

-- `if (!res.ok) throw …`, where `ok` is a status from 200 to 299.
unfoldable pub read : {A : Type 0} → Text → Answer A → Settled A
read name (unreachable message) = rejected message
read name (response status body) =
    if leb 200 status && ltb status 300
    then resolved body
    else rejected (name ++ text " failed: " ++ decimal status)

abbrev pub or_empty : {A : Type 0} → Settled (Option (List A)) → Settled (List A)
or_empty (resolved body) = resolved (or_else body [])
or_empty (rejected message) = rejected message

-- `body.devices ?? []` and `body.series ?? []`
unfoldable pub fetch_devices : Answer (Option (List DeviceInfo)) → Settled (List DeviceInfo)
fetch_devices a = or_empty (read (text "fetchDevices") a)

unfoldable pub fetch_metrics : Answer (Option (List MetricSeries)) → Settled (List MetricSeries)
fetch_metrics a = or_empty (read (text "fetchMetrics") a)

unfoldable pub fetch_balance : Answer Balance → Settled Balance
fetch_balance a = read (text "fetchBalance") a
