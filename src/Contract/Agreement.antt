-- ===== src/Contract/Agreement.antt =====
-- readings.js and storage.rs: the gateway and the contract check one signature, each in its own
-- language.
use io_t_billing_service.Base.{ℕ, ◌≡◌, true, arith}
use io_t_billing_service.Gateway.{Bytes, Crypto, message, verify_device_signature}
use io_t_billing_service.Contract.Host.{Host, ok}
use io_t_billing_service.Contract.Storage.{signing_payload, verify_signature}

-- The message that the gateway verifies is, byte for byte, the payload that the contract verifies,
-- so if node:crypto and the host agree on signatures, a reading that the gateway's check lets
-- through passes the contract's check too, neither refused nor trapped.
pub verify_device_signature-verify_signature :
    {T : Type 0} (crypto : Crypto) (host : Host T)
    → ((key payload sig : Bytes)
        → crypto.verify key payload sig ≡ host.ed25519_verify key payload sig)
    → (key : Bytes) (seq units time : ℕ) (sig : Bytes)
    → verify_device_signature crypto key seq units time sig ≡ true
    → verify_signature host key seq units time sig ≡ ok tt
unfolding verify_device_signature verify_signature message signing_payload
verify_device_signature-verify_signature crypto host agree key seq units time sig h =
    let a = agree key (message key seq units time) sig in ground (arith, a)
