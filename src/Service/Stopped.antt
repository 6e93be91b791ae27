-- ===== src/Service/Stopped.antt =====
-- index.js: the service after `shutdown`.
use mathlib.Core.Path.{subst}
use io_t_billing_service.Service.Steps.{polled-cases, requested_keeps, shutdown_keeps}
use io_t_billing_service.Base.{
  ◌≢◌, ◌⊎◌, if◌then◌else◌, sym, ℕ, ◌≡◌, refl, ap, ◌∙◌, Bool, true, false, Option, List, [], ◌∷◌,
  map, Text, Bool-cases, inl, inr, ◌==◌,
}
use io_t_billing_service.Store.{Outcome, ok, threw, DeviceRow, list_devices}
use io_t_billing_service.Api.{
  Env, admits, allowed_origins, handle_request, devices, devices_response, route,
}
use io_t_billing_service.Hub.{Frame, Client, WebSocketHub, on_pong, connect, tick, close}
use io_t_billing_service.Service.Wiring.{
  Service, close_storage, stop, shutdown, end_process, hang_up, unhandled, requested, Step, polls,
  requests, connects, pongs, ticks, shuts_down, Reach, here, next,
}

-- What the clients have been sent.
abbrev pub sent_to : List Client → List (List Frame)
sent_to clients = map (λ (c : Client). c.sent) clients

-- Whether their connections are open.
abbrev pub open_of : List Client → List Bool
open_of clients = map (λ (c : Client). c.is_open) clients

-- The service has stopped, its cache is as it was in `v` and so is what its clients were sent;
-- until the process ends, their connections are as they were, too.
pub record IsStopped (v w : Service) : Type 0 where
  pub same_storage : w.storage ≡ v.storage
  pub same_sent : sent_to w.hub.clients ≡ sent_to v.hub.clients
  pub same_open : (w.ended ≡ true) ⊎ (open_of w.hub.clients ≡ open_of v.hub.clients)
  pub no_polls : w.running ≡ false
  pub closed : w.is_open ≡ false
  pub refuses : w.hub.accepts ≡ false
  pub no_beats : w.hub.beats ≡ false

pong-sent : (id : ℕ) (clients : List Client) → sent_to (on_pong id clients) ≡ sent_to clients
unfolding on_pong
pong-sent id [] = refl
pong-sent id (c ∷ clients) = elim (Bool-cases (c.id == id)) [
  | inl its ↦
      ap (λ x. x ∷ sent_to (on_pong id clients)) (rw its refl)
      ∙ ap (λ xs. c.sent ∷ xs) (pong-sent id clients)
  | inr other ↦
      ap (λ x. x ∷ sent_to (on_pong id clients)) (rw other refl)
      ∙ ap (λ xs. c.sent ∷ xs) (pong-sent id clients)
]

pong-open : (id : ℕ) (clients : List Client) → open_of (on_pong id clients) ≡ open_of clients
unfolding on_pong
pong-open id [] = refl
pong-open id (c ∷ clients) = elim (Bool-cases (c.id == id)) [
  | inl its ↦
      ap (λ x. x ∷ open_of (on_pong id clients)) (rw its refl)
      ∙ ap (λ xs. c.is_open ∷ xs) (pong-open id clients)
  | inr other ↦
      ap (λ x. x ∷ open_of (on_pong id clients)) (rw other refl)
      ∙ ap (λ xs. c.is_open ∷ xs) (pong-open id clients)
]

hang_up-sent : (clients : List Client) → sent_to (map hang_up clients) ≡ sent_to clients
hang_up-sent [] = refl
hang_up-sent (c ∷ clients) = ap (λ xs. c.sent ∷ xs) (hang_up-sent clients)

true-ne-false : {b : Bool} → b ≡ true → b ≢ false
true-ne-false h e = cc

IsStopped-hub :
    (v w : Service) (hub : WebSocketHub)
    → IsStopped v w
    → sent_to hub.clients ≡ sent_to w.hub.clients
    → open_of hub.clients ≡ open_of w.hub.clients
    → hub.accepts ≡ false
    → hub.beats ≡ false
    → IsStopped v (record w { hub = hub })
IsStopped-hub v w hub h e o a b = record {
  same_storage = h.same_storage;
  same_sent = e ∙ h.same_sent;
  same_open = elim h.same_open [ inl over ↦ inl over | inr e ↦ inr (o ∙ e) ];
  no_polls = h.no_polls;
  closed = h.closed;
  refuses = a;
  no_beats = b;
}

end_process-IsStopped : (v w : Service) → IsStopped v w → IsStopped v (end_process w)
unfolding end_process
end_process-IsStopped v w h = record {
  same_storage = h.same_storage;
  same_sent = hang_up-sent w.hub.clients ∙ h.same_sent;
  same_open = inl refl;
  no_polls = refl;
  closed = refl;
  refuses = refl;
  no_beats = refl;
}

-- The end of the process stops the service.
pub end_process-of : (v : Service) → IsStopped v (end_process v)
unfolding end_process
end_process-of v = record {
  same_storage = refl;
  same_sent = hang_up-sent v.hub.clients;
  same_open = inl refl;
  no_polls = refl;
  closed = refl;
  refuses = refl;
  no_beats = refl;
}

connect_refused :
    (is_valid : Text → Bool) (id : ℕ) (device : Option Text) (hub : WebSocketHub)
    → hub.accepts ≡ false
    → connect is_valid id device hub ≡ hub
unfolding connect
connect_refused is_valid id device hub h = rw h refl

tick_over : (hub : WebSocketHub) → hub.beats ≡ false → tick hub ≡ hub
unfolding tick
tick_over hub h = rw h refl

pub Step-IsStopped : {X : Type 0} {v w w' : Service} → Step X w w' → IsStopped v w → IsStopped v w'
Step-IsStopped {v} {w} (polls env rpc fuel) h = elim (polled-cases env rpc fuel w) [
  | inl (on, e) ↦ absurd (true-ne-false on h.no_polls)
  | inr (off, e) ↦ subst (IsStopped v) (sym e) h
]
Step-IsStopped {v} {w} (requests env origin r) h =
    requested_keeps (IsStopped v) (end_process-IsStopped v) env origin r w
      (λ opened. absurd (true-ne-false opened h.closed)) h
Step-IsStopped {v} {w} (connects is_valid id device) h =
    subst (λ hub. IsStopped v (record w { hub = hub }))
      (sym (connect_refused is_valid id device w.hub h.refuses)) h
Step-IsStopped {v} {w} (pongs id) h =
    IsStopped-hub v w _ h (pong-sent id w.hub.clients) (pong-open id w.hub.clients) h.refuses
      h.no_beats
Step-IsStopped {v} {w} ticks h =
    subst (λ hub. IsStopped v (record w { hub = hub })) (sym (tick_over w.hub h.no_beats)) h
Step-IsStopped {v} {w} shuts_down h =
    shutdown_keeps (IsStopped v) (end_process-IsStopped v) w h
      (unfold close in
        record {
          same_storage = h.same_storage;
          same_sent = h.same_sent;
          same_open = h.same_open;
          no_polls = refl;
          closed = h.closed;
          refuses = refl;
          no_beats = refl;
        })
      (unfold close in
        record {
          same_storage = h.same_storage;
          same_sent = h.same_sent;
          same_open = h.same_open;
          no_polls = refl;
          closed = refl;
          refuses = refl;
          no_beats = refl;
        })

shutdown-IsStopped : (v : Service) → v.is_open ≡ true → v.ended ≡ false → IsStopped v (shutdown v)
unfolding shutdown stop close_storage close
shutdown-IsStopped v opened going =
    rw (going, opened)
      (record {
        same_storage = refl;
        same_sent = refl;
        same_open = inr refl;
        no_polls = refl;
        closed = refl;
        refuses = refl;
        no_beats = refl;
      })

Reach-IsStopped_still :
    {X : Type 0} (v w : Service)
    → v.is_open ≡ true
    → v.ended ≡ false
    → Reach X (shutdown v) w
    → IsStopped v w
Reach-IsStopped_still v w opened going here = shutdown-IsStopped v opened going
Reach-IsStopped_still v w opened going (next before s) =
    Step-IsStopped s (Reach-IsStopped_still v _ opened going before)

-- A request for the devices has one of two answers over an open cache.
unhandled-closed : (r : Outcome (List DeviceRow)) → unhandled false (devices_response r) ≡ true
unfolding unhandled
unhandled-closed (ok rows) = refl
unhandled-closed threw = refl

over-or-not :
    (b : Bool) (x y : Service)
    → (b ≡ true → x.ended ≡ true)
    → y.ended ≡ true
    → (if b then x else y).ended ≡ true
over-or-not true x y h k = h refl
over-or-not false x y h k = k

devices-end :
    (env : Env) (origin : Option Text) (w : Service)
    → admits (allowed_origins env.cors_origin) origin ≡ true
    → w.is_open ≡ false
    → (requested env origin devices w).ended ≡ true
unfolding requested handle_request unhandled route
devices-end env origin w admitted shut =
    over-or-not w.ended w _ (λ on. on)
      (rw (admitted, shut, unhandled-closed (list_devices w.storage)) (unfold end_process in refl))

-- After `shutdown` of a service that runs and whose cache is open, whatever polls, requests,
-- connections, pongs, beats and further calls of `shutdown` come: the cache stays as it was, no
-- client is connected or sent anything, and every connection of a client that was open stays open
-- until the process ends. An admitted request for the devices then ends it.
pub Reach-IsStopped :
    {X : Type 0} (env : Env) (origin : Option Text) (v w : Service)
    → admits (allowed_origins env.cors_origin) origin ≡ true
    → v.is_open ≡ true
    → v.ended ≡ false
    → Reach X (shutdown v) w
    → IsStopped v w × ((requested env origin devices w).ended ≡ true)
Reach-IsStopped env origin v w admitted opened going reached =
    let stopped = Reach-IsStopped_still v w opened going reached in
    (stopped, devices-end env origin w admitted stopped.closed)
