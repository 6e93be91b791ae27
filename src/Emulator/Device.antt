-- ===== src/Emulator/Device.antt =====
-- client.py: `class EmulatedDevice` and `sign_payload`.
use io_t_billing_service.Base.{
  ℕ, suc, ◌+◌, ◌/◌, ◌%◌, ◌^◌, Option, none, some, [], ◌∷◌, ◌++◌, Text, text, ℤ, pos, negsuc, ltb,
  if◌then◌else◌,
}
use io_t_billing_service.Decode.{int}
use io_t_billing_service.Gateway.{Bytes, u64be, num, str, Body}

-- What the device is built on: its key pair, and, for each emission, int(value / resolution), the
-- whole part of the sum of the values so far, and the time in milliseconds.
pub record Hardware : Type 0 where
  pub verify_key : Bytes
  pub sign : Bytes → Bytes
  pub ticks : ℕ → ℤ
  pub cumulative : ℕ → ℤ
  pub clock : ℕ → ℕ

pub record EmulatedDevice : Type 0 where
  pub device_key : Text
  pub device_type : Text
  pub seq : ℕ

pub record Payload : Type 0 where
  pub device_id : Text
  pub device_pubkey : Text
  pub device_type : Text
  pub seq : ℕ
  pub delta_units : ℕ
  pub cumulative_units : ℤ
  pub timestamp_ms : ℕ
  pub signature : Text

-- `bytes.hex()`
abbrev pub hex_digit : ℕ → ℕ
hex_digit n = if ltb n 10 then n + b'0' else n + 87

unfoldable pub hex : Bytes → Text
hex [] = []
hex (b ∷ bs) = hex_digit (b / 16) ∷ hex_digit (b % 16) ∷ hex bs

-- `max(1, ticks)`
unfoldable pub accumulated_ticks : ℤ → ℕ
accumulated_ticks (pos n) = if ltb n 1 then 1 else n
accumulated_ticks (negsuc n) = 1

-- `n.to_bytes(8, "big")`; `none` is an OverflowError.
unfoldable pub to_bytes_8 : ℕ → Option Bytes
to_bytes_8 n = if ltb n (2 ^ 64) then some (u64be n) else none

-- The message that is signed.
unfoldable pub signed_message : Bytes → Option Bytes → Option Bytes → Option Bytes → Option Bytes
signed_message pubkey (some seq) (some delta_units) (some ts) =
    some (text "iot-billing-v1" ++ (pubkey ++ (seq ++ (delta_units ++ ts))))
signed_message pubkey _ _ _ = none

module _ (hardware : Hardware) where
  -- The key and the signature; `none` is an exception.
  unfoldable pub sign_payload : ℕ → ℕ → ℕ → Option (Bytes × Text)
  sign_payload seq delta_units ts =
      elim (signed_message hardware.verify_key (to_bytes_8 seq) (to_bytes_8 delta_units)
        (to_bytes_8 ts)) [
          | none ↦ none
          | some message ↦ some (hardware.verify_key, hex (hardware.sign message))
        ]

  unfoldable pub emit : EmulatedDevice → Option (Payload × EmulatedDevice)
  emit device =
      let seq = suc device.seq in
      let delta_units = accumulated_ticks (hardware.ticks device.seq) in
      let ts = hardware.clock device.seq in
      elim (sign_payload seq delta_units ts) [
        | none ↦ none
        | some signed ↦ some (
          record {
            device_id = device.device_key;
            device_pubkey = hex signed.0;
            device_type = device.device_type;
            seq = seq;
            delta_units = delta_units;
            cumulative_units = hardware.cumulative device.seq;
            timestamp_ms = ts;
            signature = signed.1;
          },
          record device { seq = seq },
        )
      ]

-- The JSON that `deliver` posts, by the fields that the gateway reads.
unfoldable pub request_of : Payload → Body
request_of payload = record {
  device_pubkey = some (str payload.device_pubkey);
  seq = some (num (int (pos payload.seq)));
  delta_units = some (num (int (pos payload.delta_units)));
  timestamp_ms = some (num (int (pos payload.timestamp_ms)));
  signature = some (str payload.signature);
}
