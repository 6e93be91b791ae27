-- ===== src/Store/Ingest.antt =====
-- store.js: what `ingest` leaves in the table of meter events.
use mathlib.Core.Path.{subst}
use io_t_billing_service.Base.{
  ◌≡◌, ◌≢◌, refl, sym, ◌∙◌, append-nil, ◌⊎◌, inl, inr, true, false, Option, none, some, List, [],
  ◌∷◌, ◌++◌, Text, arith, Bool-cases,
}
use io_t_billing_service.Store.Tables.{
  Kind, sqlite, postgres, MeterRow, CacheStore, Outcome, ok, threw,
}
use io_t_billing_service.Store.Write.{
  EventRow, filled, binds, conflicts, insert_or_ignore, insert_on_conflict, insert_event,
  with_events, ingest,
}
use io_t_billing_service.Store.Conflicts.{HasUniqueIds, HasUniqueIds-append, conflicts-append_self}

-- What a call that returned has done: nothing, or one row more.
pub data Stored (row : EventRow) (s : CacheStore) : CacheStore → Type 0 where
  kept :
      {t : CacheStore}
      → (row.device_id ≡ none) ⊎ (conflicts row.event_id s.meter_events ≡ true)
      → t ≡ s
      → Stored row s t
  appended :
      {t : CacheStore} (id : Text)
      → row.device_id ≡ some id
      → conflicts row.event_id s.meter_events ≡ false
      → t ≡ record s { meter_events = s.meter_events ++ filled id row ∷ [] }
      → Stored row s t

insert_event-cases :
    (k : Kind) (rows : List MeterRow) (row : EventRow) (id : Text)
    → (conflicts row.event_id rows ≡ true) × (insert_event k rows row (some id) ≡ ok rows)
      ⊎ (conflicts row.event_id rows ≡ false)
        × (insert_event k rows row (some id) ≡ ok (rows ++ filled id row ∷ []))
unfolding insert_event insert_or_ignore insert_on_conflict
insert_event-cases sqlite rows row id = ground arith
insert_event-cases postgres rows row id = ground arith

insert_event-no_device :
    (k : Kind) (rows : List MeterRow) (row : EventRow)
    → (insert_event k rows row none ≡ ok rows) ⊎ (insert_event k rows row none ≡ threw)
unfolding insert_event insert_or_ignore insert_on_conflict
insert_event-no_device sqlite rows row = inl refl
insert_event-no_device postgres rows row = inr refl

with_events-eq-ok :
    (s : CacheStore) {t : CacheStore} {rows : List MeterRow} (o : Outcome (List MeterRow))
    → o ≡ ok rows
    → with_events s o ≡ ok t
    → t ≡ record s { meter_events = rows }
with_events-eq-ok s (ok rows') e h = cc
with_events-eq-ok s threw e h = cc

with_events-ne-threw :
    (s : CacheStore) {t : CacheStore} (o : Outcome (List MeterRow))
    → o ≡ threw
    → with_events s o ≢ ok t
with_events-ne-threw s (ok rows') e h = cc
with_events-ne-threw s threw e h = cc

ingest-Stored_of :
    (row : EventRow) (s : CacheStore) {t : CacheStore} (device : Option Text)
    → row.device_id ≡ device
    → with_events s (insert_event s.kind s.meter_events row device) ≡ ok t
    → Stored row s t
ingest-Stored_of row s none e h = elim (insert_event-no_device s.kind s.meter_events row) [
  | inl same ↦ kept (inl e) (with_events-eq-ok s _ same h)
  | inr failed ↦ absurd (with_events-ne-threw s _ failed h)
]
ingest-Stored_of row s (some id) e h = elim (insert_event-cases s.kind s.meter_events row id) [
  | inl (known, same) ↦ kept (inr known) (with_events-eq-ok s _ same h)
  | inr (new, more) ↦ appended id e new (with_events-eq-ok s _ more h)
]

ok-ne-threw : {A : Type 0} {a : A} → ok a ≢ threw
ok-ne-threw e = cc

-- An event that arrives is stored as one row of its device, or leaves the store as it is.
pub ingest-Stored :
    (row : EventRow) (s : CacheStore) {t : CacheStore} → ingest row s ≡ ok t → Stored row s t
unfolding ingest
ingest-Stored row s {t} h = elim (Bool-cases (binds s.kind row)) [
  | inl fits ↦ ingest-Stored_of row s row.device_id refl (ground arith)
  | inr over ↦ absurd (ok-ne-threw (sym h ∙ (rw over refl)))
]

-- Whatever arrives, no event id is stored twice.
pub ingest-HasUniqueIds :
    (row : EventRow) (s : CacheStore) {t : CacheStore}
    → HasUniqueIds s.meter_events
    → ingest row s ≡ ok t
    → HasUniqueIds t.meter_events
ingest-HasUniqueIds row s {t} u h = go (ingest-Stored row s h)
  where
    go : Stored row s t → HasUniqueIds t.meter_events
    go (kept why e) = rw e u
    go (appended id d new e) =
        rw e (HasUniqueIds-append s.meter_events (filled id row) u (unfold filled in new))

-- Rows are only ever added, at the end.
pub ingest-prefix :
    (row : EventRow) (s : CacheStore) {t : CacheStore}
    → ingest row s ≡ ok t
    → (new : List MeterRow) × (t.meter_events ≡ s.meter_events ++ new)
ingest-prefix row s {t} h = go (ingest-Stored row s h)
  where
    go : Stored row s t → (new : List MeterRow) × (t.meter_events ≡ s.meter_events ++ new)
    go (kept why e) = ([], rw e (sym (append-nil _)))
    go (appended id d new e) = (filled id row ∷ [], rw e refl)

pub binds_of_ok :
    (row : EventRow) (s : CacheStore) {t : CacheStore}
    → ingest row s ≡ ok t
    → binds s.kind row ≡ true
unfolding ingest
binds_of_ok row s h = ground arith

ingest_known :
    (row : EventRow) (s : CacheStore) (id : Text)
    → binds s.kind row ≡ true
    → row.device_id ≡ some id
    → conflicts row.event_id s.meter_events ≡ true
    → ingest row s ≡ ok s
unfolding ingest
ingest_known row s id b d c = elim (insert_event-cases s.kind s.meter_events row id) [
  | inl (known, same) ↦ ground arith
  | inr (new, more) ↦ cc
]

-- A second delivery of an event that has an id changes nothing.
pub ingest_twice :
    (row : EventRow) (s : CacheStore) {t : CacheStore}
    → row.event_id ≢ none
    → ingest row s ≡ ok t
    → ingest row t ≡ ok t
ingest_twice row s {t} named h = go (ingest-Stored row s h)
  where
    go : Stored row s t → ingest row t ≡ ok t
    go (kept why e) = subst (λ x. ingest row x ≡ ok t) (sym e) h
    go (appended id d new e) = ingest_known row t id (rw e (binds_of_ok row s h)) d (
        rw e (
          conflicts-append_self row.event_id s.meter_events (filled id row) (unfold filled in refl)
            named))

-- A row of a device with a new id is stored.
pub ingest-fresh :
    (r : EventRow) (s : CacheStore) (device : Text)
    → r.device_id ≡ some device
    → binds s.kind r ≡ true
    → conflicts r.event_id s.meter_events ≡ false
    → ingest r s ≡ ok (record s { meter_events = s.meter_events ++ filled device r ∷ [] })
unfolding ingest
ingest-fresh r s device e b c = elim (insert_event-cases s.kind s.meter_events r device) [
  | inl (known, same) ↦ cc
  | inr (new, more) ↦ ground arith
]

-- After a call that returned, an event with an id and a device is in the store.
pub ingest_stores :
    (row : EventRow) (s : CacheStore) {t : CacheStore}
    → row.event_id ≢ none
    → row.device_id ≢ none
    → ingest row s ≡ ok t
    → conflicts row.event_id t.meter_events ≡ true
ingest_stores row s {t} named known h = go (ingest-Stored row s h)
  where
    go : Stored row s t → conflicts row.event_id t.meter_events ≡ true
    go (kept (inl missing) e) = absurd (known missing)
    go (kept (inr stored) e) = rw e stored
    go (appended id d new e) = rw e (
        conflicts-append_self row.event_id s.meter_events (filled id row) (unfold filled in refl)
          named)
