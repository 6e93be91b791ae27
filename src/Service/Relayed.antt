-- ===== src/Service/Relayed.antt =====
-- readings.js, relayReading: the contract's call that a relayed reading stands for, and the way of
-- its transaction to the network.
use io_t_billing_service.Base.{ℕ, ◌≡◌, refl, none, some, Option, Text, ℤ}
use io_t_billing_service.Gateway.{Bytes, Reading, Sent, Config, pending}
use io_t_billing_service.Contract.{Call, World, Result, ok, submit_reading}
use io_t_billing_service.Contract.Host.{Address, Host}

-- `args`, before they become XDR values.
pub record Arguments : Type 0 where
  pub device : Text
  pub delta_units : ℕ
  pub seq : ℕ
  pub timestamp_ms : ℕ
  pub sig : Bytes

unfoldable pub arguments_of : Reading → Arguments
arguments_of r = record {
  device = r.device_address;
  delta_units = r.delta_units;
  seq = r.seq;
  timestamp_ms = r.timestamp_ms;
  sig = r.sig;
}

-- The calls of the SDK, where `none` is an exception: getAccount for the relayer's key,
-- prepareTransaction for a transaction of that account that calls `submit_reading`, and
-- sendTransaction once it is signed. A secret or an id of a contract that the SDK refuses has no
-- account here.
pub record Relayer : Type 1 where
  pub Account : Type 0
  pub Transaction : Type 0
  pub get_account : Option Account
  pub prepare_transaction : Account → Arguments → Option Transaction
  pub send_transaction : Transaction → Option Sent

unfoldable pub submitted : Relayer → Reading → Option Sent
submitted relayer r = elim relayer.get_account [
  | none ↦ none
  | some account ↦ elim (relayer.prepare_transaction account (arguments_of r)) [
    | none ↦ none
    | some prepared ↦ relayer.send_transaction prepared
  ]
]

-- The gateway with a contract's id, a relayer's secret and the SDK.
abbrev pub gateway_of : Text → Text → Relayer → Config
gateway_of contract_id relayer_secret relayer = record {
  contract_id = contract_id;
  relayer_secret = relayer_secret;
  submit = submitted relayer;
}

module _ {T : Type 0} (host : Host T) (call : Call) (address_of : Text → Address) where
  -- `contract.call('submit_reading', ...args)`
  unfoldable pub relayed_call : Arguments → World T → Result ℤ × World T
  relayed_call a w =
      submit_reading host call (address_of a.device) a.delta_units a.seq a.timestamp_ms a.sig w

  -- What the SDK and the network promise of a relayer with an account: a call that goes through in
  -- the simulation can be prepared, and a prepared transaction is taken on, under its hash.
  pub record Relays (relayer : Relayer) (hash_of : Arguments → Text) (w : World T) : Type 0 where
    pub account : relayer.Account
    pub prepared : Arguments → relayer.Transaction
    pub has_account : relayer.get_account ≡ some account
    pub prepares :
        (a : Arguments) (cost : ℤ)
        → (relayed_call a w).0 ≡ ok cost
        → relayer.prepare_transaction account a ≡ some (prepared a)
    pub sends : (a : Arguments) → relayer.send_transaction (prepared a) ≡ some (pending (hash_of a))

  pub submitted-Relays :
      (relayer : Relayer) (hash_of : Arguments → Text) (w : World T) (r : Reading) (cost : ℤ)
      → Relays relayer hash_of w
      → (relayed_call (arguments_of r) w).0 ≡ ok cost
      → submitted relayer r ≡ some (pending (hash_of (arguments_of r)))
  unfolding submitted
  submitted-Relays relayer hash_of w r cost relays charged =
      rw (relays.has_account, relays.prepares _ cost charged, relays.sends _) refl
