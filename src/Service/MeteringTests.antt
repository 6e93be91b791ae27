-- ===== src/Service/MeteringTests.antt =====
-- A device of the contract's test ledger that emits its first reading.
use io_t_billing_service.Base.{
  ℕ, ◌≡◌, ◌≢◌, refl, true, none, some, Text, text, pos, length, ◌==◌, replicate, arith, ◌*ℤ◌, ◌-ℤ◌,
  ◌+ℤ◌,
}
use io_t_billing_service.Decode.{non_int}
use io_t_billing_service.Store.{new_store, record_pending_reading}
use io_t_billing_service.Gateway.{Platform, relayed, pending, post_reading}
use io_t_billing_service.Contract.{ok, active, get, fits_128}
use io_t_billing_service.Contract.Tests.{host, call, key, funded, charged}
use io_t_billing_service.Emulator.{
  Hardware, EmulatedDevice, Payload, sign_payload, signed_message, to_bytes_8, emit, request_of,
  accumulated_ticks,
}
use io_t_billing_service.Emulator.Posting.{
  IsKeyPair, IsSafe, next_numbers, next_payload, next_signature, next_reading,
}
use io_t_billing_service.Service.Relayed.{
  Arguments, arguments_of, Relayer, gateway_of, relayed_call, Relays,
}
use io_t_billing_service.Service.Metering.{
  first, then, call_for, IsReady, emitted_reading_is_charged, lost_reading_stalls,
}

abbrev hardware : Hardware
hardware = record {
  verify_key = key;
  sign = λ m. replicate 64 7;
  ticks = λ n. pos 10;
  cumulative = λ n. pos 0;
  clock = λ n. 1700000000000;
}

abbrev device : EmulatedDevice
device = record { device_key = text "k1"; device_type = text "meter"; seq = 0 }

abbrev platform : Platform
platform = record {
  number_of_text = λ t. non_int t;
  crypto = record { is_key = λ k. true; verify = λ k m s. length s == 64 };
  encode_key = λ k. some (text "G1");
  bind_composite = λ t. none;
  now = text "2026-01-02T10:00:00.000Z";
}

abbrev relayer : Relayer
relayer = record {
  Account = Unit;
  Transaction = Arguments;
  get_account = some tt;
  prepare_transaction = λ account a. some a;
  send_transaction = λ a. some (pending (text "h1"));
}

abbrev address_of : Text → ℕ
address_of t = 1

pair : IsKeyPair hardware (λ k m s. length s == 64)
pair = record {
  key_length = refl;
  key_bytes = ground arith;
  signature_length = λ m. refl;
  signature_bytes = λ m. ground arith;
  verifies = λ m. refl;
}

safe : IsSafe hardware device
unfolding accumulated_ticks
safe = record { safe_seq = omega arith; safe_units = omega arith; safe_time = omega arith }

relays : Relays host call address_of relayer (λ a. text "h1") funded
relays = record {
  account = tt;
  prepared = λ a. a;
  has_account = refl;
  prepares = λ a cost h. refl;
  sends = λ a. refl;
}

ready : IsReady host funded 1 key 0 (next_numbers hardware device).delta_units (pos 50)
unfolding get accumulated_ticks ◌*ℤ◌ ◌-ℤ◌ ◌+ℤ◌ fits_128
ready = record {
  reg = record { operator = 2; status = active; registered_at = 1000; device_pubkey = key };
  rate = record { rate_per_unit = pos 5 };
  balance = record { amount = pos 100 };
  registered = refl;
  of_key = refl;
  in_service = refl;
  priced = refl;
  not_negative = omega arith;
  funded = refl;
  covered = omega arith;
  price = refl;
  last = refl;
  fits_cost = refl;
  fits_left = refl;
  fits_earned = refl;
  fits_units = omega arith;
}

emitted_reading_is_charged_example :
    (emit hardware device ≡ some (next_payload hardware device, record device { seq = 1 }))
    × ((relayed_call host call address_of
          (arguments_of (next_reading hardware device (text "G1")))
          funded).0
        ≡ ok (pos 50))
    × (post_reading platform
          (gateway_of (text "C1") (text "S1") relayer)
          (request_of (next_payload hardware device))
          (new_store none none)
        ≡ (
          relayed (text "h1") (text "G1"),
          record_pending_reading platform.now
              (record {
                device_id = text "G1";
                device_pubkey = (next_payload hardware device).device_pubkey;
                seq = 1;
                delta_units = (next_payload hardware device).delta_units;
                timestamp_ms = 1700000000000;
                tx_hash = some (text "h1");
              })
              (new_store none none),
        ))
emitted_reading_is_charged_example =
    emitted_reading_is_charged host call address_of hardware device platform (text "C1") (text "S1")
      relayer (new_store none none) (λ a. text "h1") (text "G1") funded (pos 50) pair pair refl safe
      refl (refl, refl) relays ready

-- The contract has charged the first reading; the second is lost, and the fourth comes.
abbrev at : ℕ → EmulatedDevice
at n = record device { seq = n }

abbrev payload_after : ℕ → Payload
payload_after n = next_payload hardware (at n)

lost_reading_stalls_example :
    (relayed_call host call address_of
      (call_for host call address_of hardware
        (at 1)
        (text "G1")
        (payload_after 3)
        (next_signature hardware (at 3)))
      charged).0
    ≢ ok (pos 50)
unfolding get emit sign_payload signed_message to_bytes_8 accumulated_ticks
lost_reading_stalls_example =
    lost_reading_stalls host call address_of hardware (at 1) (text "G1") charged (payload_after 1)
      (payload_after 3) (at 2) (at 4) (next_signature hardware (at 3)) (pos 50) (omega arith) refl
      (then (first refl) refl)
