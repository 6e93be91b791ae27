-- ===== src/Hub/Clients.antt =====
-- `class WebSocketHub`: the connections with their filters, the broadcast and the heartbeat.
use io_t_billing_service.Base.{
  ℕ, Bool, true, false, not, Option, none, some, List, [], ◌∷◌, ◌++◌, map, Text, text_eq, ◌==◌,
  ◌||◌, if◌then◌else◌,
}
use io_t_billing_service.Store.{EventRow, Amount, as_number, as_bigint, Outcome, ok, threw}

-- What is sent to a client: the greeting with its filter, an event, a ping.
pub data Frame : Type 0 where
  hello : Option Text → Frame
  meter_billed : EventRow → Frame
  ping : Frame

-- A member of `wss.clients`; `is_open` is `readyState === OPEN`.
pub record Client : Type 0 where
  pub id : ℕ
  pub is_open : Bool
  pub is_alive : Bool
  pub device_filter : Option Text
  pub sent : List Frame

abbrev pub send : Frame → Client → Client
send f c = record c { sent = c.sent ++ f ∷ [] }

-- `device && StrKey.isValidEd25519PublicKey(device) ? device : null`
unfoldable pub filter_of : (Text → Bool) → Option Text → Option Text
filter_of is_valid none = none
filter_of is_valid (some []) = none
filter_of is_valid (some (c ∷ s)) = if is_valid (c ∷ s) then some (c ∷ s) else none

-- The 'connection' handler; `device` is what the URL's query gives for "device".
unfoldable pub on_connection : (Text → Bool) → ℕ → Option Text → List Client → List Client
on_connection is_valid id device clients =
    let f = filter_of is_valid device in
    clients
    ++ record { id = id; is_open = true; is_alive = true; device_filter = f; sent = hello f ∷ [] }
      ∷ []

unfoldable pub on_pong : ℕ → List Client → List Client
on_pong id clients = map (λ c. if c.id == id then record c { is_alive = true } else c) clients

-- One client at a beat of the timer; `terminate` closes the connection.
unfoldable pub beat : Client → Client
beat c =
    if not c.is_alive
    then record c { is_open = false }
    else record c { is_alive = false; sent = c.sent ++ ping ∷ [] }

unfoldable pub heartbeat : List Client → List Client
heartbeat clients = map beat clients

abbrev pub same_device : Text → Option Text → Bool
same_device d none = false
same_device d (some e) = text_eq d e

-- `ws.deviceFilter && ws.deviceFilter !== row.device_id`, the case in which a row is passed over.
unfoldable pub is_filtered : Option Text → EventRow → Bool
is_filtered none row = false
is_filtered (some d) row = not (same_device d row.device_id)

-- One client at a broadcast.
unfoldable pub offer : EventRow → Client → Client
offer row c =
    if not c.is_open
    then c
    else if is_filtered c.device_filter row
    then c
    else send (meter_billed row) c

abbrev pub is_bigint : Option Amount → Bool
is_bigint none = false
is_bigint (some (as_number z)) = false
is_bigint (some (as_bigint z)) = true

-- Whether a property of the row is a bigint, for which JSON.stringify throws a TypeError.
unfoldable pub has_bigint : EventRow → Bool
has_bigint row =
    is_bigint row.units
    || is_bigint row.rate_per_unit
    || is_bigint row.cost
    || is_bigint row.balance_after

-- The payload is made before the first client is looked at.
unfoldable pub broadcast : EventRow → List Client → Outcome (List Client)
broadcast row clients = if has_bigint row then threw else ok (map (offer row) clients)

-- The hub: whether the server of WebSockets takes connections, and whether the timer runs.
pub record WebSocketHub : Type 0 where
  pub clients : List Client
  pub accepts : Bool
  pub beats : Bool

abbrev pub new_hub : WebSocketHub
new_hub = record { clients = []; accepts = true; beats = true }

-- A client connects, and the timer's interval passes.
unfoldable pub connect : (Text → Bool) → ℕ → Option Text → WebSocketHub → WebSocketHub
connect is_valid id device hub =
    if hub.accepts
    then record hub { clients = on_connection is_valid id device hub.clients }
    else hub

unfoldable pub tick : WebSocketHub → WebSocketHub
tick hub = if hub.beats then record hub { clients = heartbeat hub.clients } else hub

-- `clearInterval(this.heartbeat)` and `this.wss.close()`, which leaves open connections as they are.
unfoldable pub close : WebSocketHub → WebSocketHub
close hub = record hub { accepts = false; beats = false }
