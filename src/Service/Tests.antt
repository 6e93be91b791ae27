-- ===== src/Service/Tests.antt =====
-- The service with one client and one billing event.
use io_t_billing_service.Base.{
  ℕ, ltb, ◌^◌, ◌≡◌, refl, inl, Text, Option, text_eq, if◌then◌else◌, true, false, none, some, [],
  ◌∷◌, text, pos,
}
use io_t_billing_service.Decode.{int, non_int, bigint, plain, xdr, array, str, nil, cons}
use io_t_billing_service.Indexer.{Setup, Rpc}
use io_t_billing_service.Hub.{connect, tick}
use io_t_billing_service.Service.Config.{or_default, Settings, config}
use io_t_billing_service.Service.Wiring.{
  requested, starts, Service, start, here, next, connects, polls, polled, shutdown, ticks,
}
use io_t_billing_service.Store.{get_last_ledger}
use io_t_billing_service.Service.Idle.{events_found, watermark_found, unset_stays_idle}
use io_t_billing_service.Service.Crashes.{reading_with, reading_ends_process}
use io_t_billing_service.Gateway.{
  Json, num, str, Body, buffer_from, parse_u64, number_of, safe_natural,
}
use io_t_billing_service.Api.{
  readings, admits, allowed_origins, trim_end, trim_start, Env, devices, split_at,
}
use io_t_billing_service.Service.Migrate.{migrations_applied}
use io_t_billing_service.Store.Constraints.{IsOfSchema}
use io_t_billing_service.Service.Constraints.{Reach-IsOfSchema}
use io_t_billing_service.Service.Stopped.{IsStopped, Reach-IsStopped}
use io_t_billing_service.Service.Processes.{device_emulator, option_value, arguments}
use io_t_billing_service.Service.Live.{IsSilent, Reach-IsSilent}

abbrev setup : Setup ℕ
setup = record {
  sdk = record { to_native = λ x. some (bigint (pos x)); is_vec = λ x. false; vec = λ x. [] };
  contract_id = text "C1";
  clock = λ rows. text "2026-01-02T10:00:00.000Z";
  stringify = λ e. text "{}";
}

abbrev server : Rpc ℕ
server n q = some (record {
  events =
      record {
        id = text "e1";
        topic =
            plain (some (text "symbol")) (str (text "meter"))
            ∷ plain (some (text "address")) (str (text "D1"))
            ∷ [];
        value = plain (some (text "vec")) (
            array [] (
              cons (xdr 10)
                (cons (xdr 1000) (cons (xdr 999000) (cons (xdr 1) (cons (xdr 5) nil))))));
        ledger = 120;
      }
      ∷ [];
  cursor = [];
  latest_ledger = 130;
})

-- The number of a text does not matter here.
abbrev settings_of : (Text → Option Text) → Settings ℕ
settings_of env = config (λ t. 0) (λ n. n) env

abbrev settings : Settings ℕ
settings = settings_of (λ key. if text_eq key (text "CONTRACT_ID") then some (text "C1") else none)

-- A client connects, and the event is polled.
abbrev streamed : Service
streamed =
    polled setup server 5
      (record (start settings none) { hub = connect (λ t. true) 1 none (start settings none).hub })

Reach-IsSilent_example : IsSilent streamed
Reach-IsSilent_example =
    Reach-IsSilent {X = ℕ} settings none streamed
      (next (next here (connects (λ t. true) 1 none)) (polls setup server 5))

-- The same tick where CONTRACT_ID is not set.
abbrev unset : Text → Option Text
unset key = none

abbrev idle_service : Service
idle_service = polled setup server 5 (start (settings_of unset) none)

unset_stays_idle_example :
    (idle_service.running ≡ false)
    × (idle_service.storage.meter_events ≡ events_found none)
    × (get_last_ledger idle_service.storage ≡ watermark_found none)
unset_stays_idle_example =
    unset_stays_idle {X = ℕ} (λ t. 0) (λ n. n) unset none idle_service (inl refl)
      (next here (polls setup server 5))

-- The credentials of a URL are not printed.
without_credentials :
    migrations_applied none (some (text "postgres://user:secret@db/billing"))
    ≡ text "Migrations applied (postgres db/billing)"
unfolding migrations_applied split_at or_default
without_credentials = refl

Reach-IsOfSchema_example : IsOfSchema streamed.storage
Reach-IsOfSchema_example =
    Reach-IsOfSchema {X = ℕ} settings none streamed tt
      (next (next here (connects (λ t. true) 1 none)) (polls setup server 5))

-- The service is shut down, and the timer's last poll and the hub's beat come after it.
abbrev stopped : Service
stopped = shutdown streamed

abbrev beaten : Service
beaten = record (polled setup server 5 stopped) { hub = tick (polled setup server 5 stopped).hub }

abbrev env : Env
env = record {
  cors_origin = [];
  platform = record {
    number_of_text = λ t. non_int t;
    crypto = record { is_key = λ k. true; verify = λ k m s. true };
    encode_key = λ k. some (text "G1");
    bind_composite = λ t. none;
    now = text "2026-01-02T10:00:00.000Z";
  };
  config = record { contract_id = []; relayer_secret = []; submit = λ r. none };
  dates = record { hour = some; date = some };
  within_limit = true;
  dist = record { frontend_dist = []; exists = λ p. false; has_file = λ p. false };
}

none_admitted : admits (allowed_origins env.cors_origin) none ≡ true
unfolding admits allowed_origins split_at trim_end trim_start
none_admitted = refl

running : (streamed.is_open ≡ true) × (streamed.ended ≡ false)
unfolding polled start starts config or_default text_eq
running = (refl, refl)

Reach-IsStopped_example :
    IsStopped streamed beaten × ((requested env none devices beaten).ended ≡ true)
Reach-IsStopped_example =
    Reach-IsStopped {X = ℕ} env none streamed beaten none_admitted running.0 running.1
      (next (next here (polls setup server 5)) ticks)

-- A reading with the number 5 for its device_pubkey, and a poll after it.
abbrev number : ℕ → Json
number n = num (int (pos n))

abbrev crash : Body
crash = reading_with (number 5) (number 1) (number 10) (number 1000) (str (text "ab"))

refused : buffer_from (number 5) ≡ none
unfolding buffer_from
refused = refl

parses : (n : ℕ) → ltb n (2 ^ 53) ≡ true → parse_u64 env.platform.number_of_text (number n) ≡ some n
unfolding parse_u64 number_of safe_natural
parses n h = rw h refl

reading_ends_process_example :
    ((polled setup server 5 (requested env none (readings crash) streamed)).ended ≡ true)
    × IsStopped streamed (polled setup server 5 (requested env none (readings crash) streamed))
reading_ends_process_example =
    reading_ends_process env none streamed (number 5) (number 1) (number 10) (number 1000)
      (str (text "ab")) 1 10 1000 {X = ℕ}
      (polled setup server 5 (requested env none (readings crash) streamed)) none_admitted refl
      running.0 running.1 refused (parses 1 refl) (parses 10 refl) (parses 1000 refl)
      (next here (polls setup server 5))

-- The emulator posts to the route of the readings, at the port that the backend takes by default.
posts_to :
    option_value (text "--endpoint") (arguments device_emulator)
    ≡ some (text "http://127.0.0.1:8080/api/readings")
unfolding option_value arguments split_at text_eq
posts_to = refl
