-- ===== src/Api/Effects.antt =====
-- What a request changes in the cache.
use io_t_billing_service.Base.{
  ap, ◌∙◌, append_assoc, ◌≡◌, refl, sym, append-nil, Option, List, [], ◌∷◌, ◌++◌, Text, Bool-cases,
  inl, inr,
}
use mathlib.Core.Path.{subst}
use io_t_billing_service.Store.{
  CacheStore, PendingRow, PendingReading, record_pending_reading, pending_row,
}
use io_t_billing_service.Gateway.{Body, Platform, Reply}
use io_t_billing_service.Gateway.Acceptance.{Result, taken, refused, post_reading-Result}
use io_t_billing_service.Api.Cors.{allowed_origins, admits}
use io_t_billing_service.Api.App.{
  Request, health, readings, metrics, balance, devices, malformed, elsewhere, Env, route,
  handle_request,
}

-- The state after it has more pending readings at most.
pub record OnlyRecords (s t : CacheStore) : Type 0 where
  pub new : List PendingRow
  pub recorded : t.pending_readings ≡ s.pending_readings ++ new
  pub same_kind : t.kind ≡ s.kind
  pub same_events : t.meter_events ≡ s.meter_events
  pub same_meta : t.meta ≡ s.meta

-- What recording a reading keeps, a request keeps.
module _ (P : CacheStore → Type 0)
    (each : (now : Text) (r : PendingReading) (s : CacheStore)
      → P s
      → P (record_pending_reading now r s)) where
  Result_keeps :
      (p : Platform) (b : Body) (s : CacheStore) (o : Reply × CacheStore)
      → Result p b s o
      → P s
      → P o.1
  Result_keeps p b s o (taken key signature seq delta ts pubkey sig n r _ _ _ _ _ _ e) h =
      subst P (sym e) (each p.now r s h)
  Result_keeps p b s o (refused _ e) h = subst P (sym e) h

  route_keeps : (env : Env) (r : Request) (s : CacheStore) → P s → P (route env r s).1
  unfolding route
  route_keeps env health s h = h
  route_keeps env (readings b) s h = elim (Bool-cases env.within_limit) [
    | inl passes ↦
        rw passes
          (Result_keeps env.platform b s _ (post_reading-Result env.platform env.config b s) h)
    | inr limited ↦ rw limited h
  ]
  route_keeps env (metrics id range granularity) s h = h
  route_keeps env (balance id) s h = h
  route_keeps env devices s h = h
  route_keeps env (malformed message) s h = h
  route_keeps env (elsewhere path) s h = h

  pub handle_request_keeps :
      (env : Env) (origin : Option Text) (r : Request) (s : CacheStore)
      → P s
      → P (handle_request env origin r s).1
  unfolding handle_request
  handle_request_keeps env origin r s h =
      elim (Bool-cases (admits (allowed_origins env.cors_origin) origin)) [
        | inl admitted ↦ rw admitted (route_keeps env r s h)
        | inr denied ↦ rw denied h
      ]

OnlyRecords-refl : (s : CacheStore) → OnlyRecords s s
OnlyRecords-refl s = record {
  new = [];
  recorded = sym (append-nil s.pending_readings);
  same_kind = refl;
  same_events = refl;
  same_meta = refl;
}

OnlyRecords-record :
    (s : CacheStore) (now : Text) (r : PendingReading) (t : CacheStore)
    → OnlyRecords s t
    → OnlyRecords s (record_pending_reading now r t)
unfolding record_pending_reading
OnlyRecords-record s now r t o = record {
  new = o.new ++ pending_row t.next_id now r ∷ [];
  recorded =
      ap (λ rows. rows ++ pending_row t.next_id now r ∷ []) o.recorded
      ∙ append_assoc s.pending_readings o.new (pending_row t.next_id now r ∷ []);
  same_kind = o.same_kind;
  same_events = o.same_events;
  same_meta = o.same_meta;
}

-- Whatever the request, its origin and the configuration, a request changes neither the meter
-- events nor the watermark of the cache; all that it may do is to add pending readings at the end.
pub handle_request-OnlyRecords :
    (env : Env) (origin : Option Text) (r : Request) (s : CacheStore)
    → OnlyRecords s (handle_request env origin r s).1
handle_request-OnlyRecords env origin r s =
    handle_request_keeps (OnlyRecords s) (OnlyRecords-record s) env origin r s (OnlyRecords-refl s)
