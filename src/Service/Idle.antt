-- ===== src/Service/Idle.antt =====
-- The service without a contract to follow.
use mathlib.Core.Path.{subst}
use io_t_billing_service.Base.{
  ℕ, ◌≡◌, ◌≢◌, true, refl, sym, ◌∙◌, false, none, some, Option, List, [], Text, text, ◌⊎◌, inl, inr,
}
use io_t_billing_service.Store.{
  CacheStore, MeterRow, new_store, get_last_ledger, ledger_value, lookup,
}
use io_t_billing_service.Api.{Env, Request}
use io_t_billing_service.Indexer.{Setup, Rpc}
use io_t_billing_service.Api.Effects.{handle_request-OnlyRecords}
use io_t_billing_service.Service.Steps.{polled-cases, requested_keeps, shutdown_keeps}
use io_t_billing_service.Service.Config.{Settings, or_default, config}
use io_t_billing_service.Service.Wiring.{
  Service, start, starts, polled, requested, end_process, Step, polls, requests, connects, pongs,
  ticks, shuts_down, Reach, here, next,
}

true-ne-false : true ≢ false
true-ne-false e = cc

-- No poll runs, and the events and the entries of `meta` are those of the cache at first.
record IsIdle (found : CacheStore) (v : Service) : Type 0 where
  pub stopped : v.running ≡ false
  pub same_events : v.storage.meter_events ≡ found.meter_events
  pub same_meta : v.storage.meta ≡ found.meta

module _ (found : CacheStore) where
  polled-IsIdle :
      {X : Type 0} (env : Setup X) (rpc : Rpc X) (fuel : ℕ) (v : Service)
      → IsIdle found v
      → IsIdle found (polled env rpc fuel v)
  polled-IsIdle env rpc fuel v h = elim (polled-cases env rpc fuel v) [
    | inl (on, e) ↦ absurd (true-ne-false (sym on ∙ h.stopped))
    | inr (off, e) ↦ subst (IsIdle found) (sym e) h
  ]

  end_process-IsIdle : (w : Service) → IsIdle found w → IsIdle found (end_process w)
  unfolding end_process
  end_process-IsIdle w h = record {
    stopped = refl;
    same_events = h.same_events;
    same_meta = h.same_meta;
  }

  requested-IsIdle :
      (v : Service) (env : Env) (origin : Option Text) (r : Request)
      → IsIdle found v
      → IsIdle found (requested env origin r v)
  requested-IsIdle v env origin r h =
      let o = handle_request-OnlyRecords env origin r v.storage in
      requested_keeps (IsIdle found) end_process-IsIdle env origin r v
        (λ opened. record {
          stopped = h.stopped;
          same_events = o.same_events ∙ h.same_events;
          same_meta = o.same_meta ∙ h.same_meta;
        })
        h

  Step-IsIdle : {X : Type 0} {v w : Service} → Step X v w → IsIdle found v → IsIdle found w
  Step-IsIdle {v} (polls env rpc fuel) h = polled-IsIdle env rpc fuel v h
  Step-IsIdle {v} (requests env origin r) h = requested-IsIdle v env origin r h
  Step-IsIdle (connects is_valid id device) h = record {
    stopped = h.stopped;
    same_events = h.same_events;
    same_meta = h.same_meta;
  }
  Step-IsIdle (pongs id) h = record {
    stopped = h.stopped;
    same_events = h.same_events;
    same_meta = h.same_meta;
  }
  Step-IsIdle ticks h = record {
    stopped = h.stopped;
    same_events = h.same_events;
    same_meta = h.same_meta;
  }
  Step-IsIdle {v} shuts_down h =
      shutdown_keeps (IsIdle found) end_process-IsIdle v h
        (record { stopped = refl; same_events = h.same_events; same_meta = h.same_meta })
        (record { stopped = refl; same_events = h.same_events; same_meta = h.same_meta })

  Reach-IsIdle : {X : Type 0} {v w : Service} → Reach X v w → IsIdle found v → IsIdle found w
  Reach-IsIdle here h = h
  Reach-IsIdle (next before s) h = Step-IsIdle s (Reach-IsIdle before h)

start-IsIdle :
    {N : Type 0} (settings : Settings N) (found : Option CacheStore)
    → settings.contract_id ≡ []
    → IsIdle (new_store settings.database_url found) (start settings found)
unfolding start starts
start-IsIdle settings found e = record { stopped = rw e refl; same_events = refl; same_meta = refl }

-- Whether the variable is missing or empty.
abbrev pub IsUnset : (Text → Option Text) → Text → Type 0
IsUnset env key = (env key ≡ none) ⊎ (env key ≡ some [])

config-contract_id :
    {N : Type 0} (number : Text → N) (literal : ℕ → N) (env : Text → Option Text)
    → IsUnset env (text "CONTRACT_ID")
    → (config number literal env).contract_id ≡ []
unfolding config or_default
config-contract_id number literal env (inl missing) = rw missing refl
config-contract_id number literal env (inr empty) = rw empty refl

-- What the database holds that the service finds; a new one holds nothing.
abbrev pub events_found : Option CacheStore → List MeterRow
events_found none = []
events_found (some s) = s.meter_events

abbrev pub watermark_found : Option CacheStore → Option ℕ
watermark_found none = some 0
watermark_found (some s) = get_last_ledger s

new_store-found :
    (url : Option Text) (found : Option CacheStore)
    → ((new_store url found).meter_events ≡ events_found found)
      × (get_last_ledger (new_store url found) ≡ watermark_found found)
unfolding new_store get_last_ledger lookup ledger_value
new_store-found url none = (refl, refl)
new_store-found url (some s) = (refl, refl)

same_watermark : (s t : CacheStore) → s.meta ≡ t.meta → get_last_ledger s ≡ get_last_ledger t
unfolding get_last_ledger
same_watermark s t e = rw e refl

-- Where CONTRACT_ID is not set, or empty, however the service is used after its start, no timer of
-- the indexer runs, and the meter events and the watermark are those that the database held before,
-- none and 0 where it is new.
pub unset_stays_idle :
    {X N : Type 0} (number : Text → N) (literal : ℕ → N) (env : Text → Option Text)
    (found : Option CacheStore) (v : Service)
    → IsUnset env (text "CONTRACT_ID")
    → Reach X (start (config number literal env) found) v
    → (v.running ≡ false)
      × (v.storage.meter_events ≡ events_found found)
      × (get_last_ledger v.storage ≡ watermark_found found)
unset_stays_idle number literal env found v unset r =
    let settings = config number literal env in
    let h =
      Reach-IsIdle (new_store settings.database_url found) r
        (start-IsIdle settings found (config-contract_id number literal env unset)) in
    let (events, watermark) = new_store-found settings.database_url found in
    (h.stopped, h.same_events ∙ events, same_watermark _ _ h.same_meta ∙ watermark)
