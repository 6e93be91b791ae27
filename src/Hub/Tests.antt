-- ===== src/Hub/Tests.antt =====
-- The hub at concrete clients.
use io_t_billing_service.Base.{
  ℕ, ◌≡◌, refl, true, false, none, some, List, [], ◌∷◌, map, Text, text, pos, Option,
}
use io_t_billing_service.Store.{EventRow, as_number}
use io_t_billing_service.Hub.Clients.{Client, hello}
use io_t_billing_service.Hub.Delivery.{broadcast_all, receive, writable, broadcast_all-receive}
use io_t_billing_service.Hub.Heartbeat.{Pulse, beats, pongs, pulses, stays_open, pulses-stays_open}

abbrev client : ℕ → Option Text → Client
client id f = record {
  id = id;
  is_open = true;
  is_alive = true;
  device_filter = f;
  sent = hello f ∷ [];
}

abbrev clients : List Client
clients = client 1 (some (text "A")) ∷ client 2 none ∷ []

abbrev of_device : Text → EventRow
of_device d = record {
  event_id = some (text "e");
  contract_id = none;
  ledger = none;
  device_id = some d;
  operator = none;
  units = some (as_number (pos 10));
  rate_per_unit = none;
  cost = some (as_number (pos 100));
  balance_after = none;
  seq = none;
  ledger_ts = none;
  emitted_at = none;
  raw = none;
}

broadcast_all-receive_example :
    broadcast_all (of_device (text "A") ∷ of_device (text "B") ∷ []) clients
    ≡ map (receive (writable (of_device (text "A") ∷ of_device (text "B") ∷ []))) clients
broadcast_all-receive_example =
    broadcast_all-receive (of_device (text "A") ∷ of_device (text "B") ∷ []) clients

-- The first client answers the first beat, and the second one does not.
abbrev happenings : List Pulse
happenings = beats ∷ pongs 1 ∷ beats ∷ []

pulses-stays_open_example :
    map (λ (c : Client). c.is_open) (pulses happenings clients)
    ≡ map (stays_open happenings) clients
pulses-stays_open_example = pulses-stays_open happenings clients

one_left : map (stays_open happenings) clients ≡ true ∷ false ∷ []
one_left = refl
