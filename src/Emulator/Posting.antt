-- ===== src/Emulator/Posting.antt =====
-- client.py and readings.js: a reading that the device emits, at the gateway.
use io_t_billing_service.Base.{
  ℕ, suc, ◌^◌, ◌<◌, ◌≡◌, refl, ◌∙◌, Bool, true, some, All, Text, pos, length, ltb, arith,
}
use io_t_billing_service.Store.{CacheStore, record_pending_reading}
use io_t_billing_service.Decode.{Number, int}
use io_t_billing_service.Gateway.{
  Bytes, u64be, message, verify_device_signature, num, str, Platform, Config, Reading, Numbers,
  reading_of, relay_reading, relayed, is_set, safe_natural, number_of, parse_u64, buffer_from,
  bind_text, record_reading, relay, accept, verify_and_accept, check_numbers, check_fields,
  post_reading,
}
use io_t_billing_service.Emulator.Device.{
  Hardware, EmulatedDevice, Payload, hex, accumulated_ticks, to_bytes_8, signed_message,
  sign_payload, emit, request_of,
}
use io_t_billing_service.Emulator.Hex.{hex_bytes-hex}

-- What ed25519 promises of the device's key pair to a verifier: keys of 32 bytes, signatures of
-- 64, and what the key signs verifies.
pub record IsKeyPair (hardware : Hardware) (verify : Bytes → Bytes → Bytes → Bool) : Type 0 where
  pub key_length : length hardware.verify_key ≡ 32
  pub key_bytes : All (λ b. b < 256) hardware.verify_key
  pub signature_length : (m : Bytes) → length (hardware.sign m) ≡ 64
  pub signature_bytes : (m : Bytes) → All (λ b. b < 256) (hardware.sign m)
  pub verifies : (m : Bytes) → verify hardware.verify_key m (hardware.sign m) ≡ true

module _ (hardware : Hardware) (device : EmulatedDevice) where
  -- The numbers of the next reading, and its signature.
  abbrev pub next_numbers : Numbers
  next_numbers = record {
    seq = suc device.seq;
    delta_units = accumulated_ticks (hardware.ticks device.seq);
    timestamp_ms = hardware.clock device.seq;
  }

  abbrev pub next_signature : Bytes
  next_signature = hardware.sign (
      message hardware.verify_key next_numbers.seq next_numbers.delta_units
        next_numbers.timestamp_ms)

  -- The numbers are below 2 ^ 53, as those of JavaScript's safe integers are.
  pub record IsSafe : Type 0 where
    pub safe_seq : next_numbers.seq < 2 ^ 53
    pub safe_units : next_numbers.delta_units < 2 ^ 53
    pub safe_time : next_numbers.timestamp_ms < 2 ^ 53

  abbrev pub next_payload : Payload
  next_payload = record {
    device_id = device.device_key;
    device_pubkey = hex hardware.verify_key;
    device_type = device.device_type;
    seq = next_numbers.seq;
    delta_units = next_numbers.delta_units;
    cumulative_units = hardware.cumulative device.seq;
    timestamp_ms = next_numbers.timestamp_ms;
    signature = hex next_signature;
  }

  to_bytes_8-safe : (n : ℕ) → n < 2 ^ 53 → to_bytes_8 n ≡ some (u64be n)
  unfolding to_bytes_8
  to_bytes_8-safe n h = let fits : ltb n (2 ^ 64) ≡ true = ground (arith, h) in rw fits refl

  pub emit-IsSafe :
      IsSafe → emit hardware device ≡ some (next_payload, record device { seq = next_numbers.seq })
  unfolding emit sign_payload signed_message message
  emit-IsSafe s =
      rw
        (
          to_bytes_8-safe _ s.safe_seq,
          to_bytes_8-safe _ s.safe_units,
          to_bytes_8-safe _ s.safe_time,
          emit,
          sign_payload,
        )
        refl

  parse_u64-safe :
      (of_text : Text → Number) (n : ℕ)
      → n < 2 ^ 53
      → parse_u64 of_text (num (int (pos n))) ≡ some n
  unfolding parse_u64 number_of safe_natural
  parse_u64-safe of_text n h = let fits : ltb n (2 ^ 53) ≡ true = ground (arith, h) in rw fits refl

  -- What the gateway relays of the reading, for the address that its key encodes to.
  abbrev pub next_reading : Text → Reading
  next_reading address = reading_of address next_signature next_numbers

  module _ (p : Platform) (config : Config) (s : CacheStore)
      (pair : IsKeyPair hardware p.crypto.verify)
      (is_key : p.crypto.is_key hardware.verify_key ≡ true) (safe : IsSafe) where
    next-verifies :
        verify_device_signature p.crypto hardware.verify_key next_numbers.seq
          next_numbers.delta_units next_numbers.timestamp_ms next_signature
        ≡ true
    unfolding verify_device_signature
    next-verifies = rw (pair.key_length, pair.signature_length _, is_key, pair.verifies _) refl

    -- The gateway finds the reading well-formed and signed.
    post_reading-next :
        post_reading p config (request_of next_payload) s
        ≡ accept p config
            (str (hex hardware.verify_key))
            hardware.verify_key
            next_signature
            next_numbers
            s
    unfolding post_reading request_of check_fields check_numbers buffer_from verify_and_accept
    post_reading-next =
        rw
          (
            parse_u64-safe p.number_of_text _ safe.safe_seq,
            parse_u64-safe p.number_of_text _ safe.safe_units,
            parse_u64-safe p.number_of_text _ safe.safe_time,
            hex_bytes-hex hardware.verify_key pair.key_bytes,
            hex_bytes-hex next_signature (pair.signature_bytes _),
            next-verifies,
          )
          refl

    -- And where the relayer sends it, it is recorded.
    pub post_reading-relayed :
        (address hash : Text)
        → p.encode_key hardware.verify_key ≡ some address
        → (is_set config.contract_id ≡ true) × (is_set config.relayer_secret ≡ true)
        → relay_reading (config.submit (next_reading address)) ≡ some hash
        → post_reading p config (request_of next_payload) s ≡ (
          relayed hash address,
          record_pending_reading p.now
              (record {
                device_id = address;
                device_pubkey = hex hardware.verify_key;
                seq = next_numbers.seq;
                delta_units = next_numbers.delta_units;
                timestamp_ms = next_numbers.timestamp_ms;
                tx_hash = some hash;
              })
              s,
        )
    unfolding accept relay record_reading bind_text
    post_reading-relayed address hash encoded (id, secret) sent =
        post_reading-next ∙ rw (encoded, id, secret, sent, accept, relay) refl
