-- ===== src/Api/App.antt =====
-- `createApi`: the application, from the origin of a request to its reply.
use io_t_billing_service.Base.{ℕ, Bool, Option, List, Text, text, text_eq, if◌then◌else◌}
use io_t_billing_service.Store.{
  Outcome, ok, threw, CacheStore, Range, SqliteDates, DeviceRow, list_devices,
}
use io_t_billing_service.Gateway.{Body, Platform, Config, Reply, post_reading}
use io_t_billing_service.Api.Routes.{MetricsReply, get_metrics, BalanceReply, get_balance}
use io_t_billing_service.Api.Pages.{Content, Dist, serve}
use io_t_billing_service.Api.Cors.{allowed_origins, admits}

-- A request by its route. `malformed` is one whose body express.json() cannot parse, `elsewhere` a
-- GET of a path that no route of the API takes.
pub data Request : Type 0 where
  health : Request
  readings : Body → Request
  metrics : Text → Range → Option Text → Request
  balance : Text → Request
  devices : Request
  malformed : Text → Request
  elsewhere : Text → Request

pub data Response : Type 0 where
  healthy : Response
  too_many : Response
  reading_reply : Reply → Response
  metrics_reply : MetricsReply → Response
  balance_reply : BalanceReply → Response
  devices_reply : List DeviceRow → Response
  error_reply : ℕ → Text → Response
  -- no reply: the promise of an async handler is rejected, which nothing handles
  rejected : Response
  content_reply : Content → Response

-- What the application is built over: CORS_ORIGIN, what the gateway uses, SQLite's date functions,
-- whether the rate limiter lets the request pass, and the files of the dashboard.
pub record Env : Type 0 where
  pub cors_origin : Text
  pub platform : Platform
  pub config : Config
  pub dates : SqliteDates
  pub within_limit : Bool
  pub dist : Dist

abbrev pub not_allowed : Text
not_allowed = text "origin not allowed by CORS"

-- The error handler, by the message of the error.
unfoldable pub handle_error : Text → Response
handle_error message =
    if text_eq message not_allowed
    then error_reply 403 message
    else error_reply 500 (text "internal error")

abbrev pub metrics_response : Outcome MetricsReply → Response
metrics_response (ok reply) = metrics_reply reply
metrics_response threw = rejected

abbrev pub devices_response : Outcome (List DeviceRow) → Response
devices_response (ok rows) = devices_reply rows
devices_response threw = rejected

unfoldable pub route : Env → Request → CacheStore → Response × CacheStore
route env health s = (healthy, s)
route env (readings b) s =
    if env.within_limit
    then (let (reply, s') = post_reading env.platform env.config b s in (reading_reply reply, s'))
    else (too_many, s)
route env (metrics id range granularity) s =
    (metrics_response (get_metrics env.dates id range granularity s), s)
route env (balance id) s = (balance_reply (get_balance id s), s)
route env devices s = (devices_response (list_devices s), s)
route env (malformed message) s = (handle_error message, s)
route env (elsewhere path) s = (content_reply (serve env.dist path), s)

unfoldable pub handle_request : Env → Option Text → Request → CacheStore → Response × CacheStore
handle_request env origin r s =
    if admits (allowed_origins env.cors_origin) origin
    then route env r s
    else (handle_error not_allowed, s)
