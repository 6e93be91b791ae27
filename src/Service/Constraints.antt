-- ===== src/Service/Constraints.antt =====
-- The tables of the running service, and what the schema asks of them.
use io_t_billing_service.Base.{Option, sym, inl, inr}
use io_t_billing_service.Store.{CacheStore}
use io_t_billing_service.Store.Constraints.{
  IsOfSchema, HoldsSchema, new_store-IsOfSchema, record_pending_reading-IsOfSchema,
}
use io_t_billing_service.Api.Effects.{handle_request_keeps}
use io_t_billing_service.Indexer.Constraints.{poll-IsOfSchema}
use mathlib.Core.Path.{subst}
use io_t_billing_service.Service.Steps.{polled-cases, requested_keeps, shutdown_keeps}
use io_t_billing_service.Service.Config.{Settings}
use io_t_billing_service.Service.Wiring.{
  Service, start, end_process, Step, polls, requests, connects, pongs, ticks, shuts_down, Reach,
  here, next,
}

abbrev StorageHolds : Service → Type 0
StorageHolds v = IsOfSchema v.storage

end_process-StorageHolds : (v : Service) → StorageHolds v → StorageHolds (end_process v)
unfolding end_process
end_process-StorageHolds v k = k

Step-IsOfSchema :
    {X : Type 0} {v w : Service} → Step X v w → IsOfSchema v.storage → IsOfSchema w.storage
Step-IsOfSchema {v} (polls env rpc fuel) k = elim (polled-cases env rpc fuel v) [
  | inl (on, e) ↦ subst StorageHolds (sym e) (poll-IsOfSchema env rpc fuel _ k)
  | inr (off, e) ↦ subst StorageHolds (sym e) k
]
Step-IsOfSchema {v} (requests env origin r) k =
    requested_keeps StorageHolds end_process-StorageHolds env origin r v
      (λ opened.
        handle_request_keeps IsOfSchema record_pending_reading-IsOfSchema env origin r v.storage k)
      k
Step-IsOfSchema (connects is_valid id device) k = k
Step-IsOfSchema (pongs id) k = k
Step-IsOfSchema ticks k = k
Step-IsOfSchema {v} shuts_down k = shutdown_keeps StorageHolds end_process-StorageHolds v k k k

-- However the service is used after its start, whatever events the RPC server delivers and
-- whatever requests come in, where the database that it finds, if any, holds to this already:
-- every stored meter event has an event id, which no other one has, and amounts that fit columns of
-- 64 bits; the ids of the pending readings ascend and are below the next id; the watermark is a
-- number.
pub Reach-IsOfSchema :
    {X N : Type 0} (settings : Settings N) (found : Option CacheStore) (v : Service)
    → HoldsSchema found
    → Reach X (start settings found) v
    → IsOfSchema v.storage
unfolding start
Reach-IsOfSchema settings found v k here = new_store-IsOfSchema settings.database_url found k
Reach-IsOfSchema settings found v k (next before s) =
    Step-IsOfSchema s (Reach-IsOfSchema settings found _ k before)
