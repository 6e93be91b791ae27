-- ===== src/Service/Steps.antt =====
-- index.js: what a tick of the indexer's timer and a request come to.
use io_t_billing_service.Hub.{close}
use io_t_billing_service.Base.{
  not, ◌&&◌, Bool, ℕ, ◌≡◌, refl, ◌⊎◌, inl, inr, true, false, Option, [], Text, if◌then◌else◌,
}
use io_t_billing_service.Api.{Env, Request, handle_request}
use io_t_billing_service.Indexer.{Setup, Rpc, poll, state_of}
use io_t_billing_service.Service.Wiring.{
  Service, polled, requested, publish_emitted, end_process, unhandled, shutdown, stop,
  close_storage, is_postgres,
}

if-cases :
    {A : Type 0} (b : Bool) (x y : A)
    → (b ≡ true) × ((if b then x else y) ≡ x) ⊎ (b ≡ false) × ((if b then x else y) ≡ y)
if-cases true x y = inl (refl, refl)
if-cases false x y = inr (refl, refl)

-- A poll where the timer runs, and nothing otherwise.
pub polled-cases :
    {X : Type 0} (env : Setup X) (rpc : Rpc X) (fuel : ℕ) (v : Service)
    → let st = state_of (poll env rpc fuel (record { store = v.storage; emitted = [] })) in
      (v.running ≡ true)
        × (polled env rpc fuel v
            ≡ record v { storage = st.store; hub = publish_emitted st.emitted v.hub })
      ⊎ (v.running ≡ false) × (polled env rpc fuel v ≡ v)
unfolding polled
polled-cases env rpc fuel v = if-cases v.running _ v

keep_if :
    {A : Type 0} (P : A → Type 0) (b : Bool) (x y : A)
    → (b ≡ true → P x)
    → P y
    → P (if b then x else y)
keep_if P true x y h k = h refl
keep_if P false x y h k = k

-- What the end of the process keeps, and the handling of the request over an open cache, the
-- request keeps.
pub requested_keeps :
    (P : Service → Type 0)
    → ((w : Service) → P w → P (end_process w))
    → (env : Env) (origin : Option Text) (r : Request) (v : Service)
    → (v.is_open ≡ true → P (record v { storage = (handle_request env origin r v.storage).1 }))
    → P v
    → P (requested env origin r v)
unfolding requested
requested_keeps P ends env origin r v h k =
    let o = handle_request env origin r v.storage in
    let w = if v.is_open then record v { storage = o.1 } else v in
    let kept : P w = keep_if P v.is_open (record v { storage = o.1 }) v h k in
    keep_if P v.ended v _ (λ over. k)
      (keep_if P (unhandled v.is_open o.0) (end_process w) w (λ left. ends w kept) kept)

-- What the end of the process keeps, and stopping the parts, `shutdown` keeps.
pub shutdown_keeps :
    (P : Service → Type 0)
    → ((w : Service) → P w → P (end_process w))
    → (v : Service) → P v
    → P (record v { running = false; hub = close v.hub })
    → P (record v { running = false; hub = close v.hub; is_open = false })
    → P (shutdown v)
unfolding shutdown stop close_storage
shutdown_keeps P ends v k stopped closed =
    keep_if P v.ended v _ (λ over. k)
      (keep_if P (not v.is_open && is_postgres v.storage.kind) _ _ (λ twice. ends _ stopped) closed)
