-- ===== src/Contract/Host.antt =====
-- What the contract runs on: addresses, checked integers, errors, calls that may fail, and the
-- token contract that it calls.
use io_t_billing_service.Base.{
  ℕ, ◌+◌, ◌-◌, ◌^◌, Bool, Option, none, some, ltb, ℤ, pos, negsuc, ◌-ℤ◌, leb_ℤ, if◌then◌else◌,
}
use io_t_billing_service.Gateway.{Bytes}

-- Addresses are only compared.
abbrev pub Address : Type 0
Address = ℕ

pub data Error : Type 0 where
  not_registered already_registered invalid_rate invalid_amount insufficient_balance zero_reading
        overflow invalid_signature invalid_sequence insufficient_earnings device_not_active
        not_initialized :
      Error

pub data DeviceStatus : Type 0 where
  active suspended retired : DeviceStatus

-- The range of i128.
unfoldable pub fits_128 : ℤ → Bool
fits_128 (pos n) = ltb n (2 ^ 127)
fits_128 (negsuc n) = ltb n (2 ^ 127)

abbrev pub checked_128 : ℤ → Option ℤ
checked_128 z = if fits_128 z then some z else none

-- checked_add of u64.
abbrev pub checked_add_64 : ℕ → ℕ → Option ℕ
checked_add_64 a b = if ltb (a + b) (2 ^ 64) then some (a + b) else none

-- saturating_sub of i128.
unfoldable pub saturating_sub : ℤ → ℤ → ℤ
saturating_sub a b =
    let d = a -ℤ b in
    if fits_128 d then d else if leb_ℤ (pos 0) d then pos (2 ^ 127 - 1) else negsuc (2 ^ 127 - 1)

-- The token contracts and the cryptography of the host, over a state `T` of the token ledgers.
-- `transfer token from to amount` is `none` where the token contract traps.
pub record Host (T : Type 0) : Type 0 where
  pub current_contract : Address
  pub balance : Address → Address → T → ℤ
  pub transfer : Address → Address → Address → ℤ → T → Option T
  pub ed25519_verify : Bytes → Bytes → Bytes → Bool

-- A call: the ledger's time, and the addresses that have authorized the call.
pub record Call : Type 0 where
  pub timestamp : ℕ
  pub authorized : Address → Bool

-- An entry point ends with a value, with one of the contract's errors, or by a trap of the host.
pub data Result (A : Type 0) : Type 0 where
  ok : A → Result A
  err : Error → Result A
  trap : Result A
