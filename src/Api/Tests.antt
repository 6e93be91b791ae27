-- ===== src/Api/Tests.antt =====
-- The replies over a small cache with one device and one event.
use io_t_billing_service.Store.Totals.{AreSmall, AreSmall-keep}
use io_t_billing_service.Base.{
  ◌+ℤ◌, false, true, refl, All, arith, ◌≡◌, keep, none, some, [], ◌∷◌, text, take, ◌++◌, pos, ap,
  length,
}
use io_t_billing_service.Sql.{sum_of}
use io_t_billing_service.Store.{ok, selected, CacheStore, sqlite, SqliteDates, BucketRow}
use io_t_billing_service.Api.Routes.{MetricsReply, get_metrics, get_balance, whole_range}
use io_t_billing_service.Decode.{non_int}
use io_t_billing_service.Api.Cors.{is_space, split_at, trim_start, trim_end, allowed_origins}
use io_t_billing_service.Api.App.{devices, malformed, error_reply, Env, not_allowed, handle_request}
use io_t_billing_service.Api.Origins.{
  join_commas, IsPlain, allowed_origins-join_commas, handle_request_denied,
}
use io_t_billing_service.Api.Effects.{OnlyRecords, handle_request-OnlyRecords}
use io_t_billing_service.Api.Agreement.{get_balance-get_metrics}

abbrev dates : SqliteDates
dates = record { hour = λ t. some (take 13 t ++ text ":00:00"); date = λ t. some (take 10 t) }

abbrev cache : CacheStore
cache = record {
  kind = sqlite;
  meta = [];
  meter_events =
      record {
        event_id = some (text "e1");
        contract_id = some (text "C1");
        ledger = some 100;
        device_id = text "D1";
        operator = none;
        units = pos 100;
        rate_per_unit = pos 10;
        cost = pos 1000;
        balance_after = some (pos 999000);
        seq = some (pos 1);
        ledger_ts = none;
        emitted_at = some (text "2026-01-02T10:00:00Z");
        raw = none;
      }
      ∷ [];
  pending_readings = [];
  next_id = 2;
}

small : AreSmall (keep (selected (text "D1") whole_range) cache.meter_events)
unfolding sum_of ◌+ℤ◌
small =
    AreSmall-keep (selected (text "D1") whole_range) cache.meter_events
      (record { small_units = omega arith; small_cost = omega arith })

get_balance-get_metrics_example :
    (reply : MetricsReply) × (get_metrics dates (text "D1") whole_range none cache ≡ ok reply)
    × ((get_balance (text "D1") cache).total_units
        ≡ sum_of (λ (b : BucketRow). b.total_units) reply.series)
    × ((get_balance (text "D1") cache).total_billed
        ≡ sum_of (λ (b : BucketRow). b.total_cost) reply.series)
get_balance-get_metrics_example = get_balance-get_metrics dates (text "D1") none cache small

origins-IsPlain : All IsPlain (text "http://a" ∷ text "http://b" ∷ [])
unfolding is_space
origins-IsPlain = (((cc), ground arith), (((cc), ground arith), tt))

allowed_origins-join_commas_example :
    allowed_origins (text "http://a,http://b") ≡ text "http://a" ∷ text "http://b" ∷ []
unfolding join_commas
allowed_origins-join_commas_example =
    allowed_origins-join_commas (text "http://a") (text "http://b" ∷ []) origins-IsPlain

-- White space around an origin and empty parts are dropped.
reads_spaces :
    allowed_origins (text " http://a , http://b") ≡ text "http://a" ∷ text "http://b" ∷ []
unfolding allowed_origins split_at trim_start trim_end is_space
reads_spaces = refl

abbrev env : Env
env = record {
  cors_origin = text "http://a,http://b";
  platform = record {
    number_of_text = λ t. non_int t;
    crypto = record { is_key = λ k. true; verify = λ k m s. true };
    encode_key = λ k. some (text "G1");
    bind_composite = λ t. none;
    now = text "2026-01-02T10:00:00.000Z";
  };
  config = record { contract_id = []; relayer_secret = []; submit = λ r. none };
  dates = dates;
  within_limit = true;
  dist = record {
    frontend_dist = text "../frontend/dist";
    exists = λ path. true;
    has_file = λ path. false;
  };
}

handle_request_denied_example :
    handle_request env (some (text "https://c")) devices cache
    ≡ (error_reply 403 not_allowed, cache)
unfolding join_commas
handle_request_denied_example =
    handle_request_denied env (text "http://a") (text "http://b" ∷ []) b'h' (text "ttps://c")
      devices cache origins-IsPlain refl
      ((λ e. omega (arith, ap length e)), ((λ e. omega (arith, ap length e)), tt))

handle_request-OnlyRecords_example :
    OnlyRecords cache (handle_request env none (malformed (text "Unexpected token")) cache).1
handle_request-OnlyRecords_example =
    handle_request-OnlyRecords env none (malformed (text "Unexpected token")) cache
