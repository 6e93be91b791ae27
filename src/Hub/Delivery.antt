-- ===== src/Hub/Delivery.antt =====
-- Which clients receive which events.
use mathlib.Core.Path.{ap₂}
use io_t_billing_service.Base.{
  ◌≡◌, refl, sym, ap, ◌∙◌, Bool, true, false, not, Option, none, some, List, [], ◌∷◌, ◌++◌, map,
  append_assoc, append-nil, Text, keep, keep-cons_true, keep-cons_false, Bool-cases, inl, inr,
  if◌then◌else◌, arith,
}
use io_t_billing_service.Store.{EventRow, Outcome, ok, threw}
use io_t_billing_service.Hub.Clients.{
  meter_billed, Client, send, same_device, is_filtered, offer, broadcast, has_bigint,
}

-- The clients after a broadcast whose exception, if there is one, the caller catches.
abbrev pub after_broadcast : List Client → Outcome (List Client) → List Client
after_broadcast clients (ok clients') = clients'
after_broadcast clients threw = clients

-- Broadcasting the rows one after another.
unfoldable pub broadcast_all : List EventRow → List Client → List Client
broadcast_all [] clients = clients
broadcast_all (row ∷ rows) clients =
    broadcast_all rows (after_broadcast clients (broadcast row clients))

-- The events that a client is to receive: all of them without a filter, those of its device with
-- one, and none once its connection is closed.
abbrev pub wanted_by : Bool → Option Text → EventRow → Bool
wanted_by false f row = false
wanted_by true none row = true
wanted_by true (some d) row = same_device d row.device_id

abbrev pub receive : List EventRow → Client → Client
receive rows c = record c {
  sent = c.sent ++ map meter_billed (keep (wanted_by c.is_open c.device_filter) rows);
}

-- The rows that JSON.stringify can write.
abbrev pub writable : List EventRow → List EventRow
writable = keep (λ row. not (has_bigint row))

offer_lem :
    (row : EventRow) (c : Client)
    → offer row c
      ≡ (if wanted_by c.is_open c.device_filter row then send (meter_billed row) c else c)
unfolding offer is_filtered
offer_lem row c = ground arith

receive-nil : (c : Client) → receive [] c ≡ c
receive-nil c = ap (λ f. record c { sent = f }) (append-nil c.sent)

receive-offer :
    (row : EventRow) (rows : List EventRow) (c : Client)
    → receive rows (offer row c) ≡ receive (row ∷ rows) c
receive-offer row rows c = elim (Bool-cases (wanted_by c.is_open c.device_filter row)) [
  | inl taken ↦
      ap (receive rows) (offer_lem row c ∙ (rw taken refl))
      ∙ ap (λ f. record c { sent = f }) (append_assoc c.sent (meter_billed row ∷ []) _)
      ∙ ap (λ rs. record c { sent = c.sent ++ map meter_billed rs })
          (sym (keep-cons_true _ row rows taken))
  | inr passed ↦
      ap (receive rows) (offer_lem row c ∙ (rw passed refl))
      ∙ ap (λ rs. record c { sent = c.sent ++ map meter_billed rs })
          (sym (keep-cons_false _ row rows passed))
]

map-map-receive :
    (row : EventRow) (rows : List EventRow) (clients : List Client)
    → map (receive rows) (map (offer row) clients) ≡ map (receive (row ∷ rows)) clients
map-map-receive row rows [] = refl
map-map-receive row rows (c ∷ cs) =
    ap₂ (λ x xs. x ∷ xs) (receive-offer row rows c) (map-map-receive row rows cs)

map-receive_nil : (clients : List Client) → map (receive []) clients ≡ clients
map-receive_nil [] = refl
map-receive_nil (c ∷ cs) = ap₂ (λ x xs. x ∷ xs) (receive-nil c) (map-receive_nil cs)

-- After any broadcasts, exceptions caught, each client has been sent, behind what it had, just the
-- events that JSON.stringify can write and that it wants, in their order: all of those without a
-- filter, those of its device with one, none if its connection is not open; nothing else of the
-- clients has changed.
pub broadcast_all-receive :
    (rows : List EventRow) (clients : List Client)
    → broadcast_all rows clients ≡ map (receive (writable rows)) clients
unfolding broadcast_all broadcast
broadcast_all-receive [] clients = sym (map-receive_nil clients)
broadcast_all-receive (row ∷ rows) clients = elim (Bool-cases (has_bigint row)) [
  | inl throws ↦
      rw (throws, keep-cons_false _ row rows (ap not throws)) (broadcast_all-receive rows clients)
  | inr written ↦
      rw (written, keep-cons_true _ row rows (ap not written))
        (broadcast_all-receive rows (map (offer row) clients)
          ∙ map-map-receive row (writable rows) clients)
]
