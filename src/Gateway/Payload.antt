-- ===== src/Gateway/Payload.antt =====
-- `verifyDeviceSignature`: the message that a device signs, and the check of its signature.
use io_t_billing_service.Base.{ℕ, Bool, false, not, ◌++◌, text, length, ◌==◌, if◌then◌else◌}
use io_t_billing_service.Gateway.Buffers.{Bytes, u64be}

-- SIGNING_DOMAIN
abbrev pub signing_domain : Bytes
signing_domain = text "iot-billing-v1"

-- SIGNING_DOMAIN || device_pubkey || seq || delta_units || timestamp_ms
unfoldable pub message : Bytes → ℕ → ℕ → ℕ → Bytes
message pubkey seq delta_units timestamp_ms =
    signing_domain ++ (pubkey ++ (u64be seq ++ (u64be delta_units ++ u64be timestamp_ms)))

-- node:crypto: whether createPublicKey accepts an Ed25519 key, and crypto.verify with a key, a
-- message and a signature.
pub record Crypto : Type 0 where
  pub is_key : Bytes → Bool
  pub verify : Bytes → Bytes → Bytes → Bool

-- The key and the signature are the buffers of their hexadecimal texts.
unfoldable pub verify_device_signature : Crypto → Bytes → ℕ → ℕ → ℕ → Bytes → Bool
verify_device_signature crypto pubkey seq delta_units timestamp_ms signature =
    if not (length pubkey == 32)
    then false
    else if not (length signature == 64)
    then false
    else if not (crypto.is_key pubkey)
    then false
    else crypto.verify pubkey (message pubkey seq delta_units timestamp_ms) signature
