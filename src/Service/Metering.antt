-- ===== src/Service/Metering.antt =====
-- From a device's meter to the contract's charge: client.py, readings.js and lib.rs.
use mathlib.Core.Path.{subst}
use io_t_billing_service.Base.{
  ℕ, ◌≤◌, none, Option, ◌⊎◌, inl, inr, suc, ◌+◌, ◌^◌, ◌<◌, ◌≡◌, ◌≢◌, refl, ap, ◌∙◌, sym, true, some,
  Text, ℤ, pos, ◌+ℤ◌, ◌-ℤ◌, ◌*ℤ◌, ◌≤ℤ◌, negsuc, arith,
}
use io_t_billing_service.Store.{CacheStore, record_pending_reading}
use io_t_billing_service.Gateway.{
  Bytes, message, relay_reading, Platform, relayed, is_set, post_reading,
}
use io_t_billing_service.Contract.{
  Call, World, ok, active, DeviceRegistration, TariffRate, DepositBalance, get_registration,
  get_tariff, get, read_operator_balance, fits_128, submit_reading, signing_payload,
}
use io_t_billing_service.Contract.Host.{Address, Host}
use io_t_billing_service.Contract.Accepted.{counter, submit_reading_charged}
use io_t_billing_service.Contract.Success.{submit_reading_succeeds}
use io_t_billing_service.Emulator.{
  Hardware, EmulatedDevice, Payload, sign_payload, accumulated_ticks, emit, request_of,
}
use io_t_billing_service.Emulator.Posting.{
  IsKeyPair, IsSafe, next_numbers, next_signature, next_payload, next_reading, emit-IsSafe,
  post_reading-relayed,
}
use io_t_billing_service.Service.Relayed.{
  Arguments, arguments_of, Relayer, gateway_of, relayed_call, Relays, submitted-Relays,
}

module _ {T : Type 0} (host : Host T) where
  -- The contract can charge the units to the device: it is registered with the key and active, it
  -- has a tariff that is not negative and a deposit that covers the cost, its last reading has the
  -- number `seq`, and no sum leaves its machine integer.
  pub record IsReady (w : World T) (d : Address) (key : Bytes) (seq units : ℕ) (cost : ℤ)
      : Type 0 where
    pub reg : DeviceRegistration
    pub rate : TariffRate
    pub balance : DepositBalance
    pub registered : get_registration d w ≡ some reg
    pub of_key : reg.device_pubkey ≡ key
    pub in_service : reg.status ≡ active
    pub priced : get_tariff d w ≡ some rate
    pub not_negative : pos 0 ≤ℤ rate.rate_per_unit
    pub funded : get d w.storage.deposits ≡ some balance
    pub covered : cost ≤ℤ balance.amount
    pub price : cost ≡ pos units *ℤ rate.rate_per_unit
    pub last : (counter d w).last_seq ≡ seq
    pub fits_cost : fits_128 cost ≡ true
    pub fits_left : fits_128 (balance.amount -ℤ cost) ≡ true
    pub fits_earned :
        fits_128 ((read_operator_balance reg.operator w.storage).total_earned +ℤ cost) ≡ true
    pub fits_units : (counter d w).cumulative_units + units < 2 ^ 64

accumulated_ticks_positive : (t : ℤ) → accumulated_ticks t ≢ 0
unfolding accumulated_ticks
accumulated_ticks_positive (pos n) e = ground arith
accumulated_ticks_positive (negsuc n) e = ground arith

-- What a device emits from a state of it on, and the state after that.
pub data Emitted (hardware : Hardware) (device : EmulatedDevice)
    : Payload → EmulatedDevice → Type 0 where
  first :
      {p : Payload} {d : EmulatedDevice}
      → emit hardware device ≡ some (p, d)
      → Emitted hardware device p d
  then :
      {q p : Payload} {c d : EmulatedDevice}
      → Emitted hardware device q c
      → emit hardware c ≡ some (p, d)
      → Emitted hardware device p d

abbrev numbers_of : Option (Payload × EmulatedDevice) → ℕ × ℕ
numbers_of none = (0, 0)
numbers_of (some (p, d)) = (p.seq, d.seq)

none-ne-some : {A : Type 0} {a : A} → none ≢ some a
none-ne-some e = cc

Option-cases : {A : Type 0} (o : Option A) → (o ≡ none) ⊎ ((a : A) × (o ≡ some a))
Option-cases none = inl refl
Option-cases (some a) = inr (a, refl)

emit-cases :
    (hardware : Hardware) (device : EmulatedDevice)
    → (emit hardware device ≡ none)
      ⊎ (numbers_of (emit hardware device) ≡ (suc device.seq, suc device.seq))
unfolding emit
emit-cases hardware device =
    elim (Option-cases (
      sign_payload hardware (suc device.seq) (accumulated_ticks (hardware.ticks device.seq))
        (hardware.clock device.seq))) [
          | inl e ↦ inl (rw (emit, e) refl)
          | inr (signed, e) ↦ inr (rw (emit, e) refl)
        ]

-- An emitted reading has the next number, which the device keeps.
emit-seq :
    (hardware : Hardware) (device : EmulatedDevice) (p : Payload) (d : EmulatedDevice)
    → emit hardware device ≡ some (p, d)
    → (p.seq ≡ suc device.seq) × (d.seq ≡ suc device.seq)
emit-seq hardware device p d h = elim (emit-cases hardware device) [
  | inl e ↦ absurd (none-ne-some (sym e ∙ h))
  | inr e ↦ let both = sym (ap numbers_of h) ∙ e in (ap (λ x. x.0) both, ap (λ x. x.1) both)
]

-- So the numbers of what it emits are above the one that it has.
Emitted-seq :
    (hardware : Hardware) (device : EmulatedDevice) (p : Payload) (d : EmulatedDevice)
    → Emitted hardware device p d
    → (device.seq < p.seq) × (d.seq ≡ p.seq)
Emitted-seq hardware device p d (first h) =
    let (n, m) = emit-seq hardware device p d h in (omega (arith, n), m ∙ sym n)
Emitted-seq hardware device p d (then {q} {c = c} before h) =
    let (n, m) = emit-seq hardware c p d h in
    let (above, same) = Emitted-seq hardware device q c before in
    (omega (arith, n, above, same), m ∙ sym n)

module _ {T : Type 0} (host : Host T) (call : Call) (address_of : Text → Address)
    (hardware : Hardware) (device : EmulatedDevice) where
  relayed_call-next :
      (address : Text) (w : World T) (cost : ℤ)
      → IsKeyPair hardware host.ed25519_verify
      → IsSafe hardware device
      → IsReady host w
          (address_of address)
          hardware.verify_key
          device.seq
          (next_numbers hardware device).delta_units
          cost
      → (relayed_call host call address_of
          (arguments_of (next_reading hardware device address))
          w).0
        ≡ ok cost
  unfolding relayed_call arguments_of message signing_payload
  relayed_call-next address w cost pair safe r =
      let n = next_numbers hardware device in
      let small = safe.safe_seq in
      let last = r.last in
      submit_reading_succeeds host call (address_of address) n.delta_units n.seq n.timestamp_ms
        (next_signature hardware device) w r.reg r.rate r.balance cost (r.registered, r.in_service)
        (r.priced, r.not_negative) (r.funded, r.covered)
        (accumulated_ticks_positive (hardware.ticks device.seq)) (omega (arith, last))
        (
          pair.signature_length _,
          subst
              (λ k.
                host.ed25519_verify k (signing_payload k n.seq n.delta_units n.timestamp_ms)
                  (next_signature hardware device)
                ≡ true)
              (sym r.of_key) (pair.verifies _),
        )
        r.price (r.fits_cost, r.fits_left, r.fits_earned) (omega (arith, small), r.fits_units)

  -- Where a device whose key pair the gateway and the contract both verify, whose next sequence
  -- number, units and time are below 2 ^ 53 and whose key the gateway can write as an address emits
  -- a reading, the gateway is configured, its relayer has an account, can prepare what the
  -- contract's simulation lets through and send what it has prepared, and the contract is ready to
  -- charge the units to the device, the contract charges the reading, and the gateway answers 200
  -- and records it under the address, with the hash of the transaction.
  pub emitted_reading_is_charged :
      (p : Platform) (contract_id secret : Text) (relayer : Relayer) (s : CacheStore)
      (hash_of : Arguments → Text) (address : Text) (w : World T) (cost : ℤ)
      → IsKeyPair hardware p.crypto.verify
      → IsKeyPair hardware host.ed25519_verify
      → p.crypto.is_key hardware.verify_key ≡ true
      → IsSafe hardware device
      → p.encode_key hardware.verify_key ≡ some address
      → (is_set contract_id ≡ true) × (is_set secret ≡ true)
      → Relays host call address_of relayer hash_of w
      → IsReady host w
          (address_of address)
          hardware.verify_key
          device.seq
          (next_numbers hardware device).delta_units
          cost
      → (emit hardware device
          ≡ some (next_payload hardware device, record device { seq = suc device.seq }))
        × ((relayed_call host call address_of
              (arguments_of (next_reading hardware device address))
              w).0
            ≡ ok cost)
        × (post_reading p
              (gateway_of contract_id secret relayer)
              (request_of (next_payload hardware device))
              s
            ≡ (
              relayed (hash_of (arguments_of (next_reading hardware device address))) address,
              record_pending_reading p.now
                  (record {
                    device_id = address;
                    device_pubkey = (next_payload hardware device).device_pubkey;
                    seq = suc device.seq;
                    delta_units = (next_payload hardware device).delta_units;
                    timestamp_ms = (next_payload hardware device).timestamp_ms;
                    tx_hash = some (hash_of (arguments_of (next_reading hardware device address)));
                  })
                  s,
            ))
  emitted_reading_is_charged p contract_id secret relayer s hash_of address w cost pair pair' is_key
        safe encoded set relays ready =
      let charged = relayed_call-next address w cost pair' safe ready in
      let sent =
        submitted-Relays host call address_of relayer hash_of w
          (next_reading hardware device address) cost relays charged in
      (
        emit-IsSafe hardware device safe,
        charged,
        post_reading-relayed hardware device p (gateway_of contract_id secret relayer) s pair is_key
            safe address (hash_of (arguments_of (next_reading hardware device address))) encoded set
            (ap relay_reading sent ∙ (unfold relay_reading in refl)),
      )

  -- The call for a payload, of the device with the address.
  abbrev pub call_for : Text → Payload → Bytes → Arguments
  call_for address p sig = record {
    device = address;
    delta_units = p.delta_units;
    seq = p.seq;
    timestamp_ms = p.timestamp_ms;
    sig = sig;
  }

  -- Where the device emits a reading that the contract has not charged, nor any with a later
  -- number, and that reading is lost on the way, the contract charges no reading that the device
  -- emits after it, with whatever signature.
  pub lost_reading_stalls :
      (address : Text) (w : World T) (lost p : Payload) (now later : EmulatedDevice) (sig : Bytes)
      (cost : ℤ)
      → (counter (address_of address) w).last_seq ≤ device.seq
      → emit hardware device ≡ some (lost, now)
      → Emitted hardware now p later
      → (relayed_call host call address_of (call_for address p sig) w).0 ≢ ok cost
  unfolding relayed_call
  lost_reading_stalls address w lost p now later sig cost behind emitted after charged =
      let d = address_of address in
      let o = submit_reading host call d p.delta_units p.seq p.timestamp_ms sig w in
      let a =
        submit_reading_charged host call d p.delta_units p.seq p.timestamp_ms sig w o.1 cost
          (ap (λ r. (r, o.1)) charged) in
      let next = a.next in
      let (number, at) = emit-seq hardware device lost now emitted in
      let (above, on) = Emitted-seq hardware now p later after in
      omega (arith, behind, next, at, above)
