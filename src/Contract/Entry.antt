-- ===== src/Contract/Entry.antt =====
-- lib.rs: the entry points, as actions on the world that may fail.
use io_t_billing_service.Base.{
  ℕ, Bool, true, false, not, Option, none, some, [], ◌∷◌, ◌++◌, ◌==◌, ℤ, pos, ◌+ℤ◌, ◌-ℤ◌, ◌*ℤ◌,
  leb_ℤ, ltb_ℤ, or_else,
}
use io_t_billing_service.Gateway.{Bytes}
use io_t_billing_service.Contract.Host.{
  Address, Error, not_registered, already_registered, invalid_rate, invalid_amount,
  insufficient_balance, zero_reading, overflow, invalid_sequence, insufficient_earnings,
  device_not_active, not_initialized, DeviceStatus, active, suspended, retired, checked_128,
  checked_add_64, saturating_sub, Host, Call, Result, ok, err, trap,
}
use io_t_billing_service.Contract.Storage.{
  ReadingCounter, Storage, Event, device_registered, deposited, meter, settlement, World,
  read_operator_balance, verify_signature,
}
use io_t_billing_service.Contract.Accessors.{
  set_token, token, write_registration, registration, write_tariff, tariff, write_deposit, deposit,
  write_reading, reading, write_operator_balance,
}

abbrev pub Action : Type 0 → Type 0 → Type 0
Action T A = World T → Result A × World T

module _ {T : Type 0} where
  unfoldable pub pure : {A : Type 0} → A → Action T A
  pure a w = (ok a, w)

  unfoldable pub lift : {A : Type 0} → Result A → Action T A
  lift r w = (r, w)

  unfoldable pub gets : {A : Type 0} → (Storage → A) → Action T A
  gets f w = (ok (f w.storage), w)

  unfoldable pub ok_or : {A : Type 0} → Option A → Error → Action T A
  ok_or none e w = (err e, w)
  ok_or (some a) e w = (ok a, w)

  unfoldable pub fail_if : Bool → Error → Action T Unit
  fail_if true e w = (err e, w)
  fail_if false e w = (ok tt, w)

  unfoldable pub trap_unless : Bool → Action T Unit
  trap_unless true w = (ok tt, w)
  trap_unless false w = (trap, w)

  unfoldable pub modify : (Storage → Storage) → Action T Unit
  modify f w = (ok tt, record w { storage = f w.storage })

  unfoldable pub publish : Event → Action T Unit
  publish e w = (ok tt, record w { events = w.events ++ e ∷ [] })

  unfoldable pub put_tokens : Option T → Action T Unit
  put_tokens none w = (trap, w)
  put_tokens (some t) w = (ok tt, record w { tokens = t })

  unfoldable pub change_tokens : (T → Option T) → Action T Unit
  change_tokens f w = put_tokens (f w.tokens) w

  -- `-=` in the release profile, whose overflow checks panic.
  unfoldable pub sub_or_trap : Option ℤ → Action T ℤ
  sub_or_trap none w = (trap, w)
  sub_or_trap (some z) w = (ok z, w)

  infixl 5 ◌>>=◌ ◌>>◌
  unfoldable pub ◌>>=◌ : {A B : Type 0} → Action T A → (A → Action T B) → Action T B
  ◌>>=◌ m f w =
      let (r, w') = m w in elim r [ ok a ↦ f a w' | err e ↦ (err e, w') | trap ↦ (trap, w') ]

  abbrev pub ◌>>◌ : {A B : Type 0} → Action T A → Action T B → Action T B
  m >> k = m >>= λ _. k

-- `__constructor`, which calls `set_token`.
unfoldable pub construct : {T : Type 0} → Address → Action T Unit
construct billing_token = modify (set_token billing_token)

abbrev pub is_active : DeviceStatus → Bool
is_active active = true
is_active suspended = false
is_active retired = false

abbrev pub is_some : {A : Type 0} → Option A → Bool
is_some none = false
is_some (some a) = true

abbrev pub no_reading : ReadingCounter
no_reading = record { last_seq = 0; last_ts = 0; cumulative_units = 0 }

module _ {T : Type 0} (host : Host T) (call : Call) where
  abbrev pub require_auth : Address → Action T Unit
  require_auth a = trap_unless (call.authorized a)

  abbrev pub transfer : Address → Address → Address → ℤ → Action T Unit
  transfer token from to amount = change_tokens (host.transfer token from to amount)

  unfoldable pub register_device : Address → Bytes → Address → ℤ → Action T Bool
  register_device device_id device_pubkey operator rate_per_unit = do
    require_auth device_id
    require_auth operator
    fail_if (ltb_ℤ rate_per_unit (pos 0)) invalid_rate
    found ← gets (registration device_id)
    fail_if (is_some found) already_registered
    modify (λ st.
        write_deposit device_id (record { amount = pos 0 })
          (write_tariff device_id (record { rate_per_unit = rate_per_unit })
            (write_registration device_id
              (record {
                operator = operator;
                status = active;
                registered_at = call.timestamp;
                device_pubkey = device_pubkey;
              })
              st)))
    publish (device_registered device_id operator rate_per_unit)
    pure true

  unfoldable pub deposit_funds : Address → ℤ → Action T Bool
  deposit_funds device_id amount = do
    require_auth device_id
    found ← gets (registration device_id)
    fail_if (not (is_some found)) not_registered
    fail_if (leb_ℤ amount (pos 0)) invalid_amount
    bal ← gets (λ st. or_else (deposit device_id st) (record { amount = pos 0 }))
    new_balance ← ok_or (checked_128 (bal.amount +ℤ amount)) overflow
    configured ← gets token
    billing_token ← ok_or configured not_initialized
    transfer billing_token device_id host.current_contract amount
    modify (write_deposit device_id (record { amount = new_balance }))
    publish (deposited device_id amount new_balance)
    pure true

  unfoldable pub submit_reading : Address → ℕ → ℕ → ℕ → Bytes → Action T ℤ
  submit_reading device_id delta_units data_seq timestamp sig = do
    found ← gets (registration device_id)
    reg ← ok_or found not_registered
    fail_if (not (is_active reg.status)) device_not_active
    fail_if (delta_units == 0) zero_reading
    rdg ← gets (λ st. or_else (reading device_id st) no_reading)
    expected_seq ← ok_or (checked_add_64 rdg.last_seq 1) overflow
    fail_if (not (data_seq == expected_seq)) invalid_sequence
    lift (verify_signature host reg.device_pubkey data_seq delta_units timestamp sig)
    priced ← gets (tariff device_id)
    tp ← ok_or priced not_registered
    fail_if (ltb_ℤ tp.rate_per_unit (pos 0)) invalid_rate
    total_cost ← ok_or (checked_128 (pos delta_units *ℤ tp.rate_per_unit)) overflow
    funded ← gets (deposit device_id)
    bal ← ok_or funded not_registered
    fail_if (ltb_ℤ bal.amount total_cost) insufficient_balance
    left ← sub_or_trap (checked_128 (bal.amount -ℤ total_cost))
    modify (write_deposit device_id (record { amount = left }))
    op_bal ← gets (read_operator_balance reg.operator)
    earned ← ok_or (checked_128 (op_bal.total_earned +ℤ total_cost)) overflow
    modify (
        write_operator_balance reg.operator
          (record { total_earned = earned; total_settled = op_bal.total_settled }))
    units ← ok_or (checked_add_64 rdg.cumulative_units delta_units) overflow
    modify (
        write_reading device_id
          (record { last_seq = data_seq; last_ts = call.timestamp; cumulative_units = units }))
    publish (meter device_id delta_units total_cost left data_seq call.timestamp)
    pure total_cost

  unfoldable pub settle_balance : Address → ℤ → Action T Bool
  settle_balance operator amount = do
    require_auth operator
    fail_if (leb_ℤ amount (pos 0)) invalid_amount
    bal ← gets (read_operator_balance operator)
    fail_if (ltb_ℤ (saturating_sub bal.total_earned bal.total_settled) amount) insufficient_earnings
    configured ← gets token
    billing_token ← ok_or configured not_initialized
    transfer billing_token host.current_contract operator amount
    settled ← ok_or (checked_128 (bal.total_settled +ℤ amount)) overflow
    modify (
        write_operator_balance operator
          (record { total_earned = bal.total_earned; total_settled = settled }))
    publish (settlement operator amount)
    pure true

-- The host keeps what a call has done only if it returned a value.
abbrev pub committed : {T A : Type 0} → World T → Result A × World T → World T
committed w (ok a, w') = w'
committed w (err e, w') = w
committed w (trap, w') = w
