-- ===== src/Frontend/Tests.antt =====
-- The dashboard at a cache with one event, and the chart at two messages.
use io_t_billing_service.Sql.{sum_of}
use io_t_billing_service.Store.Totals.{AreSmall}
use io_t_billing_service.Base.{
  ◌+ℤ◌, List, arith, ◌≡◌, refl, ◌≤◌, Option, Text, true, false, none, some, [], ◌∷◌, map, text,
  text_eq, pos, length,
}
use io_t_billing_service.Store.{DeviceRow, ok, CacheStore, sqlite, list_devices}
use io_t_billing_service.Frontend.Requests.{rejected}
use io_t_billing_service.Frontend.Devices.{mounted, listed, unmounted, run, render, loading_text}
use io_t_billing_service.Frontend.Telemetry.{
  TelemetryEvent, message, rendered, opened, happen_all, last_60, happen, on_message, on_render,
}
use io_t_billing_service.Js.{decimal, decimal_ℤ, number_of_digits}
use io_t_billing_service.Frontend.Telemetry.{announcement, described}
use io_t_billing_service.Frontend.Wallet.{
  said, failed, WalletConnect, handle_connect, connect_wallet, wallet_view, connect_button,
}
use io_t_billing_service.Frontend.App.{Page, device_list, live_stream, links, routes, page_at}
use io_t_billing_service.Api.{Content, Dist, serve, is_page, starts_with, index_page}
use io_t_billing_service.Frontend.DeviceTable.{loaded, rows_of, run_unmounted}
use io_t_billing_service.Frontend.Totals.{
  info_of, sums, device_sums, balance_answer, dashboard_sums,
}
use io_t_billing_service.Frontend.Stream.{all_samples, live_samples}

abbrev cache : CacheStore
cache = record {
  kind = sqlite;
  meta = [];
  meter_events =
      record {
        event_id = some (text "e1");
        contract_id = some (text "C1");
        ledger = some 100;
        device_id = text "D1";
        operator = none;
        units = pos 100;
        rate_per_unit = pos 10;
        cost = pos 1000;
        balance_after = some (pos 999000);
        seq = some (pos 1);
        ledger_ts = none;
        emitted_at = some (text "2026-01-02T10:00:00Z");
        raw = none;
      }
      ∷ [];
  pending_readings = [];
  next_id = 2;
}

small : AreSmall cache.meter_events
unfolding sum_of ◌+ℤ◌
small = record { small_units = omega arith; small_cost = omega arith }

dashboard_sums_example :
    (devices : List DeviceRow) × (list_devices cache ≡ ok devices)
    × (map sums (
          rows_of (
            render (
              loaded
                (balance_answer cache (λ id. false))
                (λ id. rejected (text "Failed to fetch"))
                (map info_of devices))))
        ≡ map device_sums devices)
dashboard_sums_example =
    dashboard_sums cache (λ id. false) (λ id. rejected (text "Failed to fetch")) small

run_unmounted_example :
    render (run (unmounted ∷ listed (rejected (text "Failed to fetch")) ∷ []) mounted)
    ≡ render mounted
run_unmounted_example = run_unmounted (listed (rejected (text "Failed to fetch")) ∷ []) mounted

-- What the component shows at first.
shows_loading : render mounted ≡ loading_text
unfolding render mounted
shows_loading = refl

abbrev event : TelemetryEvent
event = record {
  kind = text "meter_billed";
  device_id = text "D1";
  units = pos 10;
  cost = pos 100;
  balance_after = none;
  seq = none;
}

-- Two messages before a render leave one sample.
batched :
    length
      (happen_all
        (message (some event) ∷ message (some event) ∷ rendered (text "10:00") ∷ [])
        opened).samples
    ≡ 1
unfolding happen_all happen on_message on_render opened last_60 text_eq
batched = refl

live_samples_example :
    ((happen_all (message (some event) ∷ rendered (text "10:00") ∷ []) opened).samples
      ≡ last_60 (all_samples (message (some event) ∷ rendered (text "10:00") ∷ []) opened []))
    × (length (happen_all (message (some event) ∷ rendered (text "10:00") ∷ []) opened).samples
        ≤ 60)
live_samples_example = live_samples (message (some event) ∷ rendered (text "10:00") ∷ [])

abbrev no_wallet : WalletConnect
no_wallet = record { wallet = none; status = [] }

-- Without a connection the message of the error is shown.
refuses :
    handle_connect
      (record { is_connected = said false; get_address = failed []; get_network = failed [] })
      no_wallet
    ≡ record no_wallet { status = text "Freighter wallet not connected" }
unfolding handle_connect connect_wallet
refuses = refl

announced :
    announcement (happen (message (some event)) opened)
    ≡ text "Last event: device D1 · +10 units · cost 100 · seq null"
unfolding announcement described happen on_message opened text_eq decimal number_of_digits decimal_ℤ
announced = refl

-- Reloaded at the path of a link, the server gives the dashboard's page, and the page a component.
abbrev dist : Dist
dist = record {
  frontend_dist = text "../frontend/dist";
  exists = λ path. true;
  has_file = λ path. false;
}

linked :
    map {B = Content × Option Page}
      (λ (link : Text × Text). (serve dist link.0, page_at text_eq link.0))
      links
    ≡ (index_page, some device_list) ∷ (index_page, some live_stream) ∷ []
unfolding serve is_page starts_with page_at routes links text_eq
linked = refl

-- What the component of the wallet shows after the refusal.
shows_refusal :
    wallet_view (record no_wallet { status = text "Freighter wallet not connected" })
    ≡ record { shown = connect_button; small = some (text "Freighter wallet not connected") }
unfolding wallet_view
shows_refusal = refl
