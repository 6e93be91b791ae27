-- ===== src/Contract/Storage.antt =====
-- storage.rs: the entries of the contract's storage, one map for each kind of key. The extension
-- of an entry's time to live (`bump_ttl`) changes no entry and is left out.
use io_t_billing_service.Base.{
  ℕ, Option, none, some, List, [], ◌∷◌, ◌++◌, text, ◌==◌, if◌then◌else◌, ℤ, pos, or_else, length,
  not,
}
use io_t_billing_service.Gateway.{Bytes, u64be}
use io_t_billing_service.Contract.Host.{
  Address, invalid_signature, DeviceStatus, Host, Result, ok, err, trap,
}

pub record DeviceRegistration : Type 0 where
  pub operator : Address
  pub status : DeviceStatus
  pub registered_at : ℕ
  pub device_pubkey : Bytes

pub record TariffRate : Type 0 where
  pub rate_per_unit : ℤ

pub record DepositBalance : Type 0 where
  pub amount : ℤ

pub record ReadingCounter : Type 0 where
  pub last_seq : ℕ
  pub last_ts : ℕ
  pub cumulative_units : ℕ

pub record OperatorBalance : Type 0 where
  pub total_earned : ℤ
  pub total_settled : ℤ

abbrev pub Map : Type 0 → Type 0
Map V = List (Address × V)

module _ {V : Type 0} where
  unfoldable pub get : Address → Map V → Option V
  get k [] = none
  get k ((j, v) ∷ m) = if j == k then some v else get k m

  unfoldable pub set : Address → V → Map V → Map V
  set k v [] = (k, v) ∷ []
  set k v ((j, u) ∷ m) = if j == k then (j, v) ∷ m else (j, u) ∷ set k v m

-- `StorageKey`: the token, and a map for each kind of key.
pub record Storage : Type 0 where
  pub token : Option Address
  pub registrations : Map DeviceRegistration
  pub tariffs : Map TariffRate
  pub deposits : Map DepositBalance
  pub readings : Map ReadingCounter
  pub operators : Map OperatorBalance

abbrev pub empty_storage : Storage
empty_storage = record {
  token = none;
  registrations = [];
  tariffs = [];
  deposits = [];
  readings = [];
  operators = [];
}

-- What the contract publishes, by topic.
pub data Event : Type 0 where
  device_registered : Address → Address → ℤ → Event
  deposited : Address → ℤ → ℤ → Event
  meter : Address → ℕ → ℤ → ℤ → ℕ → ℕ → Event
  settlement : Address → ℤ → Event

pub record World (T : Type 0) : Type 0 where
  pub tokens : T
  pub storage : Storage
  pub events : List Event

abbrev pub no_earnings : OperatorBalance
no_earnings = record { total_earned = pos 0; total_settled = pos 0 }

abbrev pub read_operator_balance : Address → Storage → OperatorBalance
read_operator_balance operator st = or_else (get operator st.operators) no_earnings

-- The payload of `verify_signature`.
unfoldable pub signing_payload : Bytes → ℕ → ℕ → ℕ → Bytes
signing_payload device_pubkey data_seq delta_units timestamp =
    text "iot-billing-v1"
    ++ (device_pubkey ++ (u64be data_seq ++ (u64be delta_units ++ u64be timestamp)))

-- A signature of the wrong length is an error, and one that does not verify is a trap.
unfoldable pub verify_signature : {T : Type 0} → Host T → Bytes → ℕ → ℕ → ℕ → Bytes → Result Unit
verify_signature host device_pubkey data_seq delta_units timestamp sig =
    if not (length sig == 64)
    then err invalid_signature
    else if host.ed25519_verify device_pubkey
        (signing_payload device_pubkey data_seq delta_units timestamp) sig
    then ok tt
    else trap
