-- ===== src/Contract/Success.antt =====
-- lib.rs, submit_reading: the conditions under which a reading is charged.
use mathlib.Core.Path.{subst}
use io_t_billing_service.Base.{
  ℕ, ◌+◌, ◌^◌, ◌<◌, ◌≡◌, ◌≢◌, refl, sym, Bool, true, false, not, ◌==◌, ltb_ℤ, ℤ, pos, ◌-ℤ◌, ◌+ℤ◌,
  ◌*ℤ◌, ◌≤ℤ◌, Option, some, none, some_eq, length, arith, ap, [], ◌∷◌, ◌++◌,
}
use io_t_billing_service.Gateway.{Bytes}
use io_t_billing_service.Contract.Host.{
  Address, Error, Host, Call, Result, ok, err, trap, active, fits_128, checked_128, checked_add_64,
}
use io_t_billing_service.Contract.Storage.{
  World, Storage, Event, DeviceRegistration, TariffRate, DepositBalance, read_operator_balance, get,
  signing_payload, verify_signature,
}
use io_t_billing_service.Contract.Entry.{
  Action, submit_reading, is_active, pure, fail_if, ok_or, lift, sub_or_trap, gets, modify, publish,
  ◌>>=◌,
}
use io_t_billing_service.Contract.Accepted.{counter}

unfoldable Returns : {T A : Type 0} → A → Result A × World T → Type 0
Returns a r = r.0 ≡ ok a

module _ {T A : Type 0} (a : A) where
  Returns-pure : (w : World T) → Returns a (pure a w)
  unfolding Returns pure
  Returns-pure w = refl

  Returns-fail_if :
      (b : Bool) (e : Error) (k : Unit → Action T A) (w : World T)
      → b ≡ false
      → Returns a (k tt w)
      → Returns a ((fail_if b e >>= k) w)
  unfolding Returns fail_if ◌>>=◌
  Returns-fail_if true e k w h r = ground arith
  Returns-fail_if false e k w h r = r

  Returns-ok_or :
      {B : Type 0} (o : Option B) (e : Error) (f : B → Action T A) (w : World T) (b : B)
      → o ≡ some b
      → Returns a (f b w)
      → Returns a ((ok_or o e >>= f) w)
  unfolding Returns ok_or ◌>>=◌
  Returns-ok_or none e f w b h r = ground arith
  Returns-ok_or (some c) e f w b h r = subst (λ x. (f x w).0 ≡ ok a) (sym (some_eq h)) r

  Returns-sub :
      (o : Option ℤ) (f : ℤ → Action T A) (w : World T) (b : ℤ)
      → o ≡ some b
      → Returns a (f b w)
      → Returns a ((sub_or_trap o >>= f) w)
  unfolding Returns sub_or_trap ◌>>=◌
  Returns-sub none f w b h r = ground arith
  Returns-sub (some c) f w b h r = subst (λ x. (f x w).0 ≡ ok a) (sym (some_eq h)) r

  Returns-lift :
      (r : Result Unit) (f : Unit → Action T A) (w : World T)
      → r ≡ ok tt
      → Returns a (f tt w)
      → Returns a ((lift r >>= f) w)
  unfolding Returns lift ◌>>=◌
  Returns-lift (ok tt) f w h r = r
  Returns-lift (err e) f w h r = ground arith
  Returns-lift trap f w h r = ground arith

  Returns-gets :
      {B : Type 0} (g : Storage → B) (f : B → Action T A) (w : World T)
      → Returns a (f (g w.storage) w)
      → Returns a ((gets g >>= f) w)
  unfolding Returns gets ◌>>=◌
  Returns-gets g f w r = r

  Returns-modify :
      (g : Storage → Storage) (k : Unit → Action T A) (w : World T)
      → Returns a (k tt (record w { storage = g w.storage }))
      → Returns a ((modify g >>= k) w)
  unfolding Returns modify ◌>>=◌
  Returns-modify g k w r = r

  Returns-publish :
      (e : Event) (k : Unit → Action T A) (w : World T)
      → Returns a (k tt (record w { events = w.events ++ e ∷ [] }))
      → Returns a ((publish e >>= k) w)
  unfolding Returns publish ◌>>=◌
  Returns-publish e k w r = r

checked_128_fits : (z : ℤ) → fits_128 z ≡ true → checked_128 z ≡ some z
checked_128_fits z h = ground arith

checked_add_64_fits : (a b : ℕ) → a + b < 2 ^ 64 → checked_add_64 a b ≡ some (a + b)
checked_add_64_fits a b h = ground arith

verifies :
    {T : Type 0} (host : Host T) (key : Bytes) (s d t : ℕ) (sig : Bytes)
    → length sig ≡ 64
    → host.ed25519_verify key (signing_payload key s d t) sig ≡ true
    → verify_signature host key s d t sig ≡ ok tt
unfolding verify_signature
verifies host key s d t sig l v = ground (arith, l, v)

in_sequence : (a b : ℕ) → a ≡ b → not (a == b) ≡ false
in_sequence a b h = ground arith

module _ {T : Type 0} (host : Host T) (call : Call) where
  -- submit_reading charges a reading of positive units with the number after the device's last,
  -- signed over it by the key of the active device, where the device has a tariff that is not
  -- negative and a deposit that covers the cost, and no sum leaves its machine integer.
  pub submit_reading_succeeds :
      (device_id : Address) (delta_units data_seq timestamp : ℕ) (sig : Bytes) (w : World T)
      → (reg : DeviceRegistration) (tariff : TariffRate) (deposit : DepositBalance) (cost : ℤ)
      → (get device_id w.storage.registrations ≡ some reg) × (reg.status ≡ active)
      → (get device_id w.storage.tariffs ≡ some tariff) × (pos 0 ≤ℤ tariff.rate_per_unit)
      → (get device_id w.storage.deposits ≡ some deposit) × (cost ≤ℤ deposit.amount)
      → delta_units ≢ 0
      → data_seq ≡ (counter device_id w).last_seq + 1
      → (length sig ≡ 64)
        × (host.ed25519_verify reg.device_pubkey
              (signing_payload reg.device_pubkey data_seq delta_units timestamp)
              sig
            ≡ true)
      → cost ≡ pos delta_units *ℤ tariff.rate_per_unit
      → (fits_128 cost ≡ true)
        × (fits_128 (deposit.amount -ℤ cost) ≡ true)
        × (fits_128 ((read_operator_balance reg.operator w.storage).total_earned +ℤ cost) ≡ true)
      → (data_seq < 2 ^ 64) × ((counter device_id w).cumulative_units + delta_units < 2 ^ 64)
      → (submit_reading host call device_id delta_units data_seq timestamp sig w).0 ≡ ok cost
  unfolding submit_reading Returns
  submit_reading_succeeds device_id delta_units data_seq timestamp sig w reg tariff deposit cost
        registered priced funded not_zero next signed price (fits, fits_left, fits_earned)
        (fits_seq, fits_units) =
      let last = (counter device_id w).last_seq in
      let enough : ltb_ℤ deposit.amount cost ≡ false = (let c = funded.1 in ground (arith, c)) in
      let product : checked_128 (pos delta_units *ℤ tariff.rate_per_unit) ≡ some cost =
        subst (λ z. checked_128 z ≡ some cost) price (checked_128_fits cost fits) in
      Returns-gets _ _ _ _ (
        Returns-ok_or _ _ _ _ _ reg registered.0 (
          Returns-fail_if _ _ _ _ _ (ap (λ s. not (is_active s)) registered.1) (
            Returns-fail_if _ _ _ _ _ (ground (arith, not_zero)) (
              Returns-gets _ _ _ _ (
                Returns-ok_or _ _ _ _ _ (last + 1)
                  (checked_add_64_fits last 1 (omega (arith, next, fits_seq)))
                  (Returns-fail_if _ _ _ _ _ (in_sequence data_seq (last + 1) next) (
                    Returns-lift _ _ _ _
                      (verifies host reg.device_pubkey data_seq delta_units timestamp sig signed.0
                        signed.1)
                      (Returns-gets _ _ _ _ (
                        Returns-ok_or _ _ _ _ _ tariff priced.0 (
                          Returns-fail_if _ _ _ _ _ (let p = priced.1 in ground (arith, p)) (
                            Returns-ok_or _ _ _ _ _ cost product (
                              Returns-gets _ _ _ _ (
                                Returns-ok_or _ _ _ _ _ deposit funded.0 (
                                  Returns-fail_if _ _ _ _ _ enough (
                                    Returns-sub _ _ _ _ _ (checked_128_fits _ fits_left) (
                                      Returns-modify _ _ _ _ (
                                        Returns-gets _ _ _ _ (
                                          Returns-ok_or _ _ _ _ _ _ (checked_128_fits _ fits_earned)
                                            (Returns-modify _ _ _ _ (
                                              Returns-ok_or _ _ _ _ _ _
                                                (checked_add_64_fits _ delta_units fits_units)
                                                (Returns-modify _ _ _ _ (
                                                  Returns-publish _ _ _ _
                                                    (Returns-pure _ _)))))))))))))))))))))))
