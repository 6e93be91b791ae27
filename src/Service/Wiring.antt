-- ===== src/Service/Wiring.antt =====
-- index.js: the indexer's `onEvent` publishes on the bus, whose one subscriber broadcasts over the
-- hub; the routes and the hub share one HTTP server; shutting down stops them in turn.
use io_t_billing_service.Base.{
  ℕ, Bool, true, false, not, ◌&&◌, Option, List, [], ◌∷◌, map, Text, if◌then◌else◌,
}
use io_t_billing_service.Store.{
  Kind, sqlite, postgres, CacheStore, new_store, EventRow, Outcome, ok, threw,
}
use io_t_billing_service.Gateway.{crashed, accepted}
use io_t_billing_service.Api.{
  Called, returned, raised, Subscriber, subscribe, publish_all, Request, Env, handle_request,
  Response, rejected, reading_reply, metrics_reply, balance_reply, devices_reply,
}
use io_t_billing_service.Hub.{
  Client, WebSocketHub, new_hub, connect, on_pong, tick, close, broadcast,
}
use io_t_billing_service.Indexer.{Setup, Rpc, poll, state_of}
use io_t_billing_service.Service.Config.{Settings}

-- `(row) => hub.broadcast(row)`
abbrev pub broadcasting : WebSocketHub → Outcome (List Client) → Called WebSocketHub
broadcasting hub (ok clients) = returned (record hub { clients = clients })
broadcasting hub threw = raised hub

unfoldable pub hub_subscriber : Subscriber WebSocketHub
hub_subscriber = record { id = 0; call = λ row hub. broadcasting hub (broadcast row hub.clients) }

unfoldable pub bus : List (Subscriber WebSocketHub)
bus = subscribe hub_subscriber []

-- The hub once the rows were passed to `onEvent`.
unfoldable pub publish_emitted : List EventRow → WebSocketHub → WebSocketHub
publish_emitted rows hub = publish_all rows bus hub

-- The parts, whether the indexer's timer runs, whether the cache's connection is open, and whether
-- the process has ended.
pub record Service : Type 0 where
  pub storage : CacheStore
  pub hub : WebSocketHub
  pub running : Bool
  pub is_open : Bool
  pub ended : Bool

-- `start` of the indexer: without a contract's id it sets no timer.
unfoldable pub starts : Text → Bool
starts [] = false
starts (c ∷ s) = true

-- `found` is what the database holds that the settings name, where there is one.
unfoldable pub start : {N : Type 0} → Settings N → Option CacheStore → Service
start settings found = record {
  storage = new_store settings.database_url found;
  hub = new_hub;
  running = starts settings.contract_id;
  is_open = true;
  ended = false;
}

-- A tick of the indexer's timer: a poll, whose rows reach the hub. The hub and the cache do not
-- touch each other, so it is the same whether a row is published before or after the next is
-- stored.
unfoldable pub polled : {X : Type 0} → Setup X → Rpc X → ℕ → Service → Service
polled env rpc fuel v =
    let st = state_of (poll env rpc fuel (record { store = v.storage; emitted = [] })) in
    if v.running then record v { storage = st.store; hub = publish_emitted st.emitted v.hub } else v

abbrev pub hang_up : Client → Client
hang_up c = record c { is_open = false }

-- A promise that is rejected and that nothing handles ends the process, and with it every
-- connection.
unfoldable pub end_process : Service → Service
end_process v = record v {
  hub = record { clients = map hang_up v.hub.clients; accepts = false; beats = false };
  running = false;
  is_open = false;
  ended = true;
}

-- Whether an async handler's promise is rejected, by the response that it gives over an open cache
-- and whether the cache is open: over a closed one every query and every recording of a reading is
-- an exception, which only the relay's `try` handles.
unfoldable pub unhandled : Bool → Response → Bool
unhandled is_open rejected = true
unhandled is_open (reading_reply crashed) = true
unhandled is_open (reading_reply (accepted device)) = not is_open
unhandled is_open (metrics_reply reply) = not is_open
unhandled is_open (balance_reply reply) = not is_open
unhandled is_open (devices_reply rows) = not is_open
unhandled is_open _ = false

-- After `shutdown` a request still comes on a connection that is there.
unfoldable pub requested : Env → Option Text → Request → Service → Service
requested env origin r v =
    let o = handle_request env origin r v.storage in
    let w = if v.is_open then record v { storage = o.1 } else v in
    if v.ended then v else if unhandled v.is_open o.0 then end_process w else w

-- `stop` of the indexer: the timer is cleared.
unfoldable pub stop : Service → Service
stop v = record v { running = false }

abbrev pub is_postgres : Kind → Bool
is_postgres sqlite = false
is_postgres postgres = true

-- `close` of the cache: its drivers refuse every statement after it. A second `end` of a pool is
-- rejected, which nothing handles.
unfoldable pub close_storage : Service → Service
close_storage v =
    if not v.is_open && is_postgres v.storage.kind
    then end_process v
    else record v { is_open = false }

-- `shutdown`: the indexer's timer and the hub are stopped, then the cache is closed. What follows,
-- the end of the process, waits for all connections to be closed.
unfoldable pub shutdown : Service → Service
shutdown v = let w = stop v in if v.ended then v else close_storage (record w { hub = close w.hub })

-- What can happen to the service next; `X` are the SDK's XDR values.
pub data Step (X : Type 0) (v : Service) : Service → Type 0 where
  polls : (env : Setup X) (rpc : Rpc X) (fuel : ℕ) → Step X v (polled env rpc fuel v)
  requests : (env : Env) (origin : Option Text) (r : Request) → Step X v (requested env origin r v)
  connects :
      (is_valid : Text → Bool) (id : ℕ) (device : Option Text)
      → Step X v (record v { hub = connect is_valid id device v.hub })
  pongs :
      (id : ℕ) → Step X v (record v { hub = record (v.hub) { clients = on_pong id v.hub.clients } })
  ticks : Step X v (record v { hub = tick v.hub })
  shuts_down : Step X v (shutdown v)

pub data Reach (X : Type 0) (v : Service) : Service → Type 0 where
  here : Reach X v v
  next : {u w : Service} → Reach X v u → Step X u w → Reach X v w
