-- ===== src/Service/Live.antt =====
-- What the live stream delivers of the events that the indexer handles.
use io_t_billing_service.Base.{
  Option, ℕ, ◌≡◌, refl, ap, ◌∙◌, Bool, true, false, List, [], ◌∷◌, All, All-append, map, Bool-cases,
  inl, inr, ◌==◌, if◌then◌else◌,
}
use io_t_billing_service.Store.{EventRow, CacheStore}
use io_t_billing_service.Indexer.{Setup, Rpc}
use io_t_billing_service.Indexer.Emission.{HasBigint, poll-HasBigint}
use io_t_billing_service.Hub.{
  Frame, hello, meter_billed, ping, Client, WebSocketHub, broadcast, on_connection, on_pong, beat,
  heartbeat, connect, tick, close,
}
use io_t_billing_service.Api.{publish, publish_all, subscribe}
use io_t_billing_service.Service.Steps.{polled-cases, requested_keeps, shutdown_keeps}
use io_t_billing_service.Service.Config.{Settings}
use io_t_billing_service.Service.Wiring.{
  publish_emitted, bus, hub_subscriber, Service, start, polled, end_process, hang_up, Step, polls,
  requests, connects, pongs, ticks, shuts_down, Reach, here, next,
}

publish_bigint : (r : EventRow) (hub : WebSocketHub) → HasBigint r → publish r bus hub ≡ hub
unfolding publish bus subscribe hub_subscriber broadcast
publish_bigint r hub h = rw h refl

pub publish_emitted_bigints :
    (rows : List EventRow) (hub : WebSocketHub)
    → All HasBigint rows
    → publish_emitted rows hub ≡ hub
unfolding publish_emitted publish_all
publish_emitted_bigints [] hub h = refl
publish_emitted_bigints (r ∷ rows) hub (k, h) =
    ap (publish_all rows bus) (publish_bigint r hub k) ∙ publish_emitted_bigints rows hub h

-- A tick of the indexer leaves the hub as it was, whatever the server answers.
polled-hub :
    {X : Type 0} (env : Setup X) (rpc : Rpc X) (fuel : ℕ) (v : Service)
    → (polled env rpc fuel v).hub ≡ v.hub
polled-hub env rpc fuel v = elim (polled-cases env rpc fuel v) [
  | inl (on, e) ↦
      ap (λ (w : Service). w.hub) e
      ∙ publish_emitted_bigints _ v.hub (poll-HasBigint env rpc fuel _ tt)
  | inr (off, e) ↦ ap (λ (w : Service). w.hub) e
]

abbrev pub is_event : Frame → Bool
is_event (hello f) = false
is_event (meter_billed r) = true
is_event ping = false

-- The client has been sent no event.
abbrev pub HeardNothing : Client → Type 0
HeardNothing c = All (λ f. is_event f ≡ false) c.sent

abbrev pub IsSilent : Service → Type 0
IsSilent v = All HeardNothing v.hub.clients

All-map_of :
    {A : Type 0} (P : A → Type 0) (g : A → A)
    → ((a : A) → P a → P (g a))
    → (xs : List A) → All P xs
    → All P (map g xs)
All-map_of P g f [] h = tt
All-map_of P g f (x ∷ xs) h = (f x h.0, All-map_of P g f xs h.1)

beat-HeardNothing : (c : Client) → HeardNothing c → HeardNothing (beat c)
unfolding beat
beat-HeardNothing c h = elim (Bool-cases c.is_alive) [
  | inl alive ↦ rw alive (All-append _ ping c.sent h refl)
  | inr silent ↦ rw silent h
]

pong-HeardNothing :
    (id : ℕ) (c : Client)
    → HeardNothing c
    → HeardNothing (if c.id == id then record c { is_alive = true } else c)
pong-HeardNothing id c h = elim (Bool-cases (c.id == id)) [
  | inl its ↦ rw its h
  | inr other ↦ rw other h
]

end_process-IsSilent : (w : Service) → IsSilent w → IsSilent (end_process w)
unfolding end_process
end_process-IsSilent w h = All-map_of HeardNothing hang_up (λ c k. k) w.hub.clients h

Step-IsSilent : {X : Type 0} {v w : Service} → Step X v w → IsSilent v → IsSilent w
unfolding close connect tick on_connection on_pong heartbeat
Step-IsSilent {v} (polls env rpc fuel) h = rw (polled-hub env rpc fuel v) h
Step-IsSilent {v} (requests env origin r) h =
    requested_keeps IsSilent end_process-IsSilent env origin r v (λ opened. h) h
Step-IsSilent {v} (connects is_valid id device) h = elim (Bool-cases v.hub.accepts) [
  | inl taken ↦ rw taken (All-append HeardNothing _ v.hub.clients h (refl, tt))
  | inr closed ↦ rw closed h
]
Step-IsSilent {v} (pongs id) h = All-map_of HeardNothing _ (pong-HeardNothing id) v.hub.clients h
Step-IsSilent {v} ticks h = elim (Bool-cases v.hub.beats) [
  | inl runs ↦ rw runs (All-map_of HeardNothing beat beat-HeardNothing v.hub.clients h)
  | inr over ↦ rw over h
]
Step-IsSilent {v} shuts_down h = shutdown_keeps IsSilent end_process-IsSilent v h h h

-- However the service is used after its start, whatever events the RPC server delivers and whoever
-- connects, no WebSocket client is ever sent an event: every row that the indexer passes on holds a
-- bigint, JSON.stringify throws for it, and the bus catches the exception.
pub Reach-IsSilent :
    {X N : Type 0} (settings : Settings N) (found : Option CacheStore) (v : Service)
    → Reach X (start settings found) v
    → IsSilent v
unfolding start
Reach-IsSilent settings found v here = tt
Reach-IsSilent settings found v (next before s) =
    Step-IsSilent s (Reach-IsSilent settings found _ before)
