-- ===== src/Service/Crashes.antt =====
-- The service at a reading whose key is of a type that the gateway does not expect.
use mathlib.Core.Path.{subst}
use io_t_billing_service.Base.{ℕ, ◌≡◌, refl, sym, true, false, none, some, Option, Text, inl, inr}
use io_t_billing_service.Gateway.{Json, Body, buffer_from, parse_u64}
use io_t_billing_service.Gateway.Acceptance.{post_reading_crashes}
use io_t_billing_service.Api.{Env, readings, admits, allowed_origins, handle_request, route}
use io_t_billing_service.Service.Steps.{polled-cases}
use io_t_billing_service.Service.Stopped.{IsStopped, Step-IsStopped, end_process-of}
use io_t_billing_service.Service.Wiring.{
  Service, end_process, unhandled, requested, shutdown, Step, polls, requests, connects, pongs,
  ticks, shuts_down, Reach, here, next,
}

abbrev HasEnded : Service → Type 0
HasEnded v = v.ended ≡ true

-- Nothing starts an ended process again.
Step-HasEnded : {X : Type 0} {v w : Service} → Step X v w → HasEnded v → HasEnded w
unfolding requested shutdown
Step-HasEnded {v} (polls env rpc fuel) h = elim (polled-cases env rpc fuel v) [
  | inl (on, e) ↦ subst HasEnded (sym e) h
  | inr (off, e) ↦ subst HasEnded (sym e) h
]
Step-HasEnded {v} (requests env origin r) h = rw h refl
Step-HasEnded (connects is_valid id device) h = h
Step-HasEnded (pongs id) h = h
Step-HasEnded ticks h = h
Step-HasEnded {v} shuts_down h = rw h refl

-- The request of a reading with these values.
abbrev pub reading_with : Json → Json → Json → Json → Json → Body
reading_with key seq delta ts signature = record {
  device_pubkey = some key;
  seq = some seq;
  delta_units = some delta;
  timestamp_ms = some ts;
  signature = some signature;
}

module _ (env : Env) (origin : Option Text) (v : Service) (key seq delta ts signature : Json)
    (n d t : ℕ) where
  crashes :
      admits (allowed_origins env.cors_origin) origin ≡ true
      → env.within_limit ≡ true
      → v.is_open ≡ true
      → v.ended ≡ false
      → buffer_from key ≡ none
      → parse_u64 env.platform.number_of_text seq ≡ some n
      → parse_u64 env.platform.number_of_text delta ≡ some d
      → parse_u64 env.platform.number_of_text ts ≡ some t
      → requested env origin (readings (reading_with key seq delta ts signature)) v ≡ end_process v
  unfolding requested handle_request route unhandled end_process
  crashes admitted within opened going refused a b c =
      let crash =
        post_reading_crashes env.platform env.config v.storage key seq delta ts signature n d t
          refused a b c in
      rw (admitted, within, opened, going, crash) refl

  -- An admitted POST of a reading within the rate limit, with all its fields and three numbers that
  -- parse, whose device_pubkey is of a type that Buffer.from refuses (a number, a boolean, null),
  -- ends the running process: nothing that comes after it is served, the cache stays as it was, and
  -- no client is connected or sent anything.
  pub reading_ends_process :
      {X : Type 0} (w : Service)
      → admits (allowed_origins env.cors_origin) origin ≡ true
      → env.within_limit ≡ true
      → v.is_open ≡ true
      → v.ended ≡ false
      → buffer_from key ≡ none
      → parse_u64 env.platform.number_of_text seq ≡ some n
      → parse_u64 env.platform.number_of_text delta ≡ some d
      → parse_u64 env.platform.number_of_text ts ≡ some t
      → Reach X (requested env origin (readings (reading_with key seq delta ts signature)) v) w
      → (w.ended ≡ true) × IsStopped v w
  reading_ends_process w admitted within opened going refused a b c here =
      subst (λ (x : Service). HasEnded x × IsStopped v x)
        (sym (crashes admitted within opened going refused a b c))
        ((unfold end_process in refl), end_process-of v)
  reading_ends_process w admitted within opened going refused a b c (next before s) =
      let (over, stopped) =
        reading_ends_process _ admitted within opened going refused a b c before in
      (Step-HasEnded s over, Step-IsStopped s stopped)
