-- ===== src/Contract/Accepted.antt =====
-- lib.rs, submit_reading: what a reading that is charged was checked for, and what it changes.
use io_t_billing_service.Base.{
  ℕ, [], ◌∷◌, ◌++◌, ◌+◌, ◌≡◌, ◌≢◌, refl, sym, ◌∙◌, ap, true, false, not, ℤ, pos, ◌-ℤ◌, ◌+ℤ◌, ◌*ℤ◌,
  some, or_else, arith, ◌==◌, ==_iff, if◌then◌else◌,
}
use io_t_billing_service.Gateway.{Bytes}
use io_t_billing_service.Contract.Host.{
  Address, Host, Call, active, checked_add_64, ok, DeviceStatus, suspended, retired,
}
use io_t_billing_service.Contract.Storage.{
  World, Map, meter, DeviceRegistration, TariffRate, DepositBalance, ReadingCounter,
  read_operator_balance, get, set, signing_payload, verify_signature,
}
use io_t_billing_service.Contract.Entry.{submit_reading, no_reading, is_active}
use io_t_billing_service.Contract.Money
use io_t_billing_service.Contract.Maps.{get-set}
use io_t_billing_service.Contract.Rules.{
  Ensures, Ensures-value, after_pure, after_fail_if, after_ok_or, after_sub, after_lift, after_gets,
  after_modify, after_publish,
}

module _ {T : Type 0} where
  abbrev pub counter : Address → World T → ReadingCounter
  counter device_id w = or_else (get device_id w.storage.readings) no_reading

  -- The reading, the cost and the world after it, for a registration, a tariff and a deposit.
  pub record Accepted (host : Host T) (call : Call) (device_id : Address)
      (delta_units data_seq timestamp : ℕ) (sig : Bytes) (w : World T) (cost : ℤ) (w' : World T)
      : Type 0 where
    pub reg : DeviceRegistration
    pub tariff : TariffRate
    pub deposit : DepositBalance
    pub registered : get device_id w.storage.registrations ≡ some reg
    pub is_in_service : reg.status ≡ active
    pub priced : get device_id w.storage.tariffs ≡ some tariff
    pub funded : get device_id w.storage.deposits ≡ some deposit
    pub verified :
        host.ed25519_verify reg.device_pubkey
          (signing_payload reg.device_pubkey data_seq delta_units timestamp)
          sig
        ≡ true
    pub next : data_seq ≡ (counter device_id w).last_seq + 1
    pub price : cost ≡ pos delta_units *ℤ tariff.rate_per_unit
    pub charged :
        get device_id w'.storage.deposits ≡ some (record { amount = deposit.amount -ℤ cost })
    pub credited :
        get reg.operator w'.storage.operators
        ≡ some (record {
          total_earned = (read_operator_balance reg.operator w.storage).total_earned +ℤ cost;
          total_settled = (read_operator_balance reg.operator w.storage).total_settled;
        })
    pub counted :
        get device_id w'.storage.readings
        ≡ some (record {
          last_seq = data_seq;
          last_ts = call.timestamp;
          cumulative_units = (counter device_id w).cumulative_units + delta_units;
        })
    pub others :
        (j : Address)
        → j ≢ device_id
        → (get j w'.storage.deposits ≡ get j w.storage.deposits)
          × (get j w'.storage.readings ≡ get j w.storage.readings)
    pub other_operators :
        (o : Address) → o ≢ reg.operator → get o w'.storage.operators ≡ get o w.storage.operators
    pub announced :
        w'.events
        ≡ w.events
          ++ meter device_id delta_units cost (deposit.amount -ℤ cost) data_seq call.timestamp ∷ []
    pub same_registrations : w'.storage.registrations ≡ w.storage.registrations
    pub same_tariffs : w'.storage.tariffs ≡ w.storage.tariffs
    pub moves_no_tokens : w'.tokens ≡ w.tokens

pub get-set_same : {V : Type 0} (k : Address) (v : V) (m : Map V) → get k (set k v m) ≡ some v
get-set_same k v m = get-set k k v m ∙ ap (λ b. if b then some v else get k m) ((==_iff k k).1 refl)

pub get-set_other :
    {V : Type 0} (j k : Address) (v : V) (m : Map V) → j ≢ k → get j (set k v m) ≡ get j m
get-set_other j k v m n =
    let other : (k == j) ≡ false = ground (arith, n) in
    get-set j k v m ∙ ap (λ b. if b then some v else get j m) other

checked_add_64_value : (a b c : ℕ) → checked_add_64 a b ≡ some c → c ≡ a + b
checked_add_64_value a b c h = ground arith

next_of : (a b : ℕ) → not (a == b) ≡ false → a ≡ b
next_of a b h = ground arith

is_active_lem : (s : DeviceStatus) → not (is_active s) ≡ false → s ≡ active
is_active_lem active h = refl
is_active_lem suspended h = ground arith
is_active_lem retired h = ground arith

verify_signature_ok :
    {T : Type 0} (host : Host T) (key : Bytes) (s d t : ℕ) (sig : Bytes) (u : Unit)
    → verify_signature host key s d t sig ≡ ok u
    → host.ed25519_verify key (signing_payload key s d t) sig ≡ true
unfolding verify_signature
verify_signature_ok host key s d t sig u h = ground arith

module _ {T : Type 0} (host : Host T) (call : Call) where
  pub submit_reading-Accepted :
      (device_id : Address) (delta_units data_seq timestamp : ℕ) (sig : Bytes) (w : World T)
      → Ensures
          (Accepted host call device_id delta_units data_seq timestamp sig w)
          (submit_reading host call device_id delta_units data_seq timestamp sig w)
  unfolding submit_reading
  submit_reading-Accepted device_id delta_units data_seq timestamp sig w = after_gets _ _ _ _ (
      after_ok_or _ _ _ _ _ (λ reg registered. after_fail_if _ _ _ _ _ (λ in_service.
        after_fail_if _ _ _ _ _ (λ not_zero. after_gets _ _ _ _ (
          after_ok_or _ _ _ _ _ (λ expected_seq next. after_fail_if _ _ _ _ _ (λ in_sequence.
            after_lift _ _ _ _ (λ u verified. after_gets _ _ _ _ (
              after_ok_or _ _ _ _ _ (λ tp tariff. after_fail_if _ _ _ _ _ (λ rate.
                after_ok_or _ _ _ _ _ (λ cost product. after_gets _ _ _ _ (
                  after_ok_or _ _ _ _ _ (λ bal deposit. after_fail_if _ _ _ _ _ (λ enough.
                    after_sub _ _ _ _ (λ left difference. after_modify _ _ _ _ (
                      after_gets _ _ _ _ (
                        after_ok_or _ _ _ _ _ (λ earned sum. after_modify _ _ _ _ (
                          after_ok_or _ _ _ _ _ (λ units counted. after_modify _ _ _ _ (
                            after_publish _ _ _ _ (
                              after_pure _ _ _ (
                                let rdg = or_else (get device_id w.storage.readings) no_reading in
                                let op = read_operator_balance reg.operator w.storage in
                                record {
                                  reg = reg;
                                  tariff = tp;
                                  deposit = bal;
                                  registered = registered;
                                  is_in_service = is_active_lem reg.status in_service;
                                  priced = tariff;
                                  funded = deposit;
                                  verified =
                                      verify_signature_ok host reg.device_pubkey data_seq
                                        delta_units timestamp sig u verified;
                                  next =
                                      next_of data_seq expected_seq in_sequence
                                      ∙ checked_add_64_value rdg.last_seq 1 expected_seq next;
                                  price = sym (Money.checked_128_value _ _ product);
                                  charged =
                                      get-set_same device_id _ w.storage.deposits
                                      ∙ ap (λ a. some (record { amount = a }))
                                          (sym (Money.checked_128_value _ _ difference));
                                  credited =
                                      get-set_same reg.operator _ w.storage.operators
                                      ∙ ap
                                          (λ a. some (record {
                                            total_earned = a;
                                            total_settled = op.total_settled;
                                          }))
                                          (sym (Money.checked_128_value _ _ sum));
                                  counted =
                                      get-set_same device_id _ w.storage.readings
                                      ∙ ap
                                          (λ a. some (record {
                                            last_seq = data_seq;
                                            last_ts = call.timestamp;
                                            cumulative_units = a;
                                          }))
                                          (checked_add_64_value rdg.cumulative_units delta_units
                                            units counted);
                                  others = λ j n. (
                                    get-set_other j device_id _ w.storage.deposits n,
                                    get-set_other j device_id _ w.storage.readings n,
                                  );
                                  other_operators =
                                      λ o n. get-set_other o reg.operator _ w.storage.operators n;
                                  announced =
                                      ap
                                        (λ a.
                                          w.events
                                          ++ meter device_id delta_units cost a data_seq
                                              call.timestamp
                                            ∷ [])
                                        (sym (Money.checked_128_value _ _ difference));
                                  same_registrations = refl;
                                  same_tariffs = refl;
                                  moves_no_tokens = refl;
                                }))))))))))))))))))))))))

  -- A reading that submit_reading charges was signed by the registered key of an active device and
  -- carries the number after the device's last one; the cost is the units times the tariff; the
  -- deposit falls by the cost and the earnings of the registration's operator rise by it; the
  -- counter records the reading; the meter event with all this is published; the deposits and
  -- counters of the other devices, all registrations and tariffs, and the tokens, stay.
  pub submit_reading_charged :
      (device_id : Address) (delta_units data_seq timestamp : ℕ) (sig : Bytes)
      → (w w' : World T) (cost : ℤ)
      → submit_reading host call device_id delta_units data_seq timestamp sig w ≡ (ok cost, w')
      → Accepted host call device_id delta_units data_seq timestamp sig w cost w'
  submit_reading_charged device_id delta_units data_seq timestamp sig w w' cost h =
      Ensures-value _ _ cost w'
        (submit_reading-Accepted device_id delta_units data_seq timestamp sig w) h
