-- ===== src/Gateway/Tests.antt =====
-- The gateway at concrete requests.
use io_t_billing_service.Base.{ℕ, ◌≡◌, refl, true, none, some, [], text, pos, arith, replicate}
use io_t_billing_service.Decode.{int, non_int}
use io_t_billing_service.Store.{CacheStore, sqlite}
use io_t_billing_service.Gateway.Buffers.{hex_bytes}
use io_t_billing_service.Js.{digit_value}
use io_t_billing_service.Gateway.Payload.{verify_device_signature}
use io_t_billing_service.Gateway.Request.{
  Reply, accepted, bind_text, Json, num, str, Body, Platform, Config, safe_natural, number_of,
  parse_u64, buffer_from,
}
use io_t_billing_service.Gateway.Handler.{
  check_fields, check_numbers, verify_and_accept, accept, record_reading, post_reading,
}
use io_t_billing_service.Gateway.Injective.{message-injective}
use io_t_billing_service.Gateway.Acceptance.{Result, post_reading-Result}

-- Every signature verifies here, and Number() reads no text.
abbrev platform : Platform
platform = record {
  number_of_text = λ t. non_int t;
  crypto = record { is_key = λ k. true; verify = λ k m s. true };
  encode_key = λ k. some (text "G1");
  bind_composite = λ t. none;
  now = text "2026-01-02T10:00:00.000Z";
}

abbrev no_relayer : Config
no_relayer = record { contract_id = []; relayer_secret = []; submit = λ r. none }

abbrev empty : CacheStore
empty = record { kind = sqlite; meta = []; meter_events = []; pending_readings = []; next_id = 1 }

abbrev number : ℕ → Json
number n = num (int (pos n))

abbrev request : Body
request = record {
  device_pubkey = some (str (replicate 64 b'a'));
  seq = some (number 1);
  delta_units = some (number 10);
  timestamp_ms = some (number 1700000000000);
  signature = some (str (replicate 128 b'b'));
}

post_reading-Result_example :
    Result platform request empty (post_reading platform no_relayer request empty)
post_reading-Result_example = post_reading-Result platform no_relayer request empty

-- This request is accepted without a relayer.
abbrev reply_of : Body → Reply
reply_of b = (post_reading platform no_relayer b empty).0

request_accepted : reply_of request ≡ accepted (text "G1")
unfolding post_reading check_fields check_numbers verify_and_accept accept record_reading bind_text
    parse_u64 number_of safe_natural buffer_from hex_bytes digit_value verify_device_signature
request_accepted = refl

message-injective_example :
    (text "k" ≡ text "k") × (◌≡◌ {A = ℕ} 1 1) × (◌≡◌ {A = ℕ} 10 10) × (◌≡◌ {A = ℕ} 7 7)
message-injective_example =
    message-injective (text "k") (text "k") 1 1 10 10 7 7 refl (omega arith) (omega arith)
      (omega arith) refl
