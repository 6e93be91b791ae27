-- ===== src/Contract/Effects.antt =====
-- lib.rs: what register_device, deposit_funds and settle_balance change.
use io_t_billing_service.Base.{
  ◌≡◌, ◌≢◌, refl, sym, ◌∙◌, ap, ℤ, pos, ◌+ℤ◌, Option, none, false, not, some, or_else, [], ◌∷◌,
  ◌++◌,
}
use io_t_billing_service.Gateway.{Bytes}
use io_t_billing_service.Contract.Host.{Address, Host, Call, active}
use io_t_billing_service.Contract.Storage.{
  World, DeviceRegistration, read_operator_balance, get, device_registered, deposited, settlement,
}
use io_t_billing_service.Contract.Entry.{is_some, register_device, deposit_funds, settle_balance}
use io_t_billing_service.Contract.Money
use io_t_billing_service.Contract.Solvency.{no_deposit}
use io_t_billing_service.Contract.Accepted.{get-set_same, get-set_other}
use io_t_billing_service.Contract.Rules.{
  Ensures, after_pure, after_fail_if, after_trap_unless, after_ok_or, after_change, after_gets,
  after_modify, after_publish,
}

module _ {T : Type 0} where
  -- The device has an entry with the operator and no deposit, and the call is published.
  pub record Registered (d : Address) (o : Address) (rate : ℤ) (w w' : World T) : Type 0 where
    pub unknown : get d w.storage.registrations ≡ none
    pub reg : DeviceRegistration
    pub entered : get d w'.storage.registrations ≡ some reg
    pub operated : reg.operator ≡ o
    pub other_entries :
        (j : Address) → j ≢ d → get j w'.storage.registrations ≡ get j w.storage.registrations
    pub opened : get d w'.storage.deposits ≡ some (record { amount = pos 0 })
    pub other_deposits :
        (j : Address) → j ≢ d → get j w'.storage.deposits ≡ get j w.storage.deposits
    pub same_readings : w'.storage.readings ≡ w.storage.readings
    pub same_operators : w'.storage.operators ≡ w.storage.operators
    pub announced : w'.events ≡ w.events ++ device_registered d o rate ∷ []

  -- The deposit of the device grows by the amount, and the call is published.
  pub record Funded (d : Address) (amount : ℤ) (w w' : World T) : Type 0 where
    pub known : get d w.storage.registrations ≢ none
    pub balance : ℤ
    pub grown : balance ≡ (or_else (get d w.storage.deposits) no_deposit).amount +ℤ amount
    pub funded : get d w'.storage.deposits ≡ some (record { amount = balance })
    pub other_deposits :
        (j : Address) → j ≢ d → get j w'.storage.deposits ≡ get j w.storage.deposits
    pub same_registrations : w'.storage.registrations ≡ w.storage.registrations
    pub same_tariffs : w'.storage.tariffs ≡ w.storage.tariffs
    pub same_readings : w'.storage.readings ≡ w.storage.readings
    pub same_operators : w'.storage.operators ≡ w.storage.operators
    pub announced : w'.events ≡ w.events ++ deposited d amount balance ∷ []

  -- The operator has withdrawn the amount, and the call is published.
  pub record Settled (o : Address) (amount : ℤ) (w w' : World T) : Type 0 where
    pub withdrawn :
        get o w'.storage.operators
        ≡ some (record {
          total_earned = (read_operator_balance o w.storage).total_earned;
          total_settled = (read_operator_balance o w.storage).total_settled +ℤ amount;
        })
    pub other_operators :
        (j : Address) → j ≢ o → get j w'.storage.operators ≡ get j w.storage.operators
    pub same_registrations : w'.storage.registrations ≡ w.storage.registrations
    pub same_tariffs : w'.storage.tariffs ≡ w.storage.tariffs
    pub same_readings : w'.storage.readings ≡ w.storage.readings
    pub same_deposits : w'.storage.deposits ≡ w.storage.deposits
    pub announced : w'.events ≡ w.events ++ settlement o amount ∷ []

none_of : {A : Type 0} (o : Option A) → is_some o ≡ false → o ≡ none
none_of none h = refl
none_of (some a) h = cc

some_of : {A : Type 0} (o : Option A) → not (is_some o) ≡ false → o ≢ none
some_of none h e = cc
some_of (some a) h e = cc

module _ {T : Type 0} (host : Host T) (call : Call) where
  pub register_device-Registered :
      (d : Address) (k : Bytes) (o : Address) (r : ℤ) (w : World T)
      → Ensures (λ b. Registered d o r w) (register_device host call d k o r w)
  unfolding register_device
  register_device-Registered d k o r w = after_trap_unless _ _ _ _ (λ auth.
      after_trap_unless _ _ _ _ (λ auth_operator. after_fail_if _ _ _ _ _ (λ rate.
        after_gets _ _ _ _ (
          after_fail_if _ _ _ _ _ (λ fresh. after_modify _ _ _ _ (
            after_publish _ _ _ _ (
              after_pure _ _ _ (record {
                unknown = none_of _ fresh;
                reg = record {
                  operator = o;
                  status = active;
                  registered_at = call.timestamp;
                  device_pubkey = k;
                };
                entered = get-set_same d _ w.storage.registrations;
                operated = refl;
                other_entries = λ j n. get-set_other j d _ w.storage.registrations n;
                opened = get-set_same d _ w.storage.deposits;
                other_deposits = λ j n. get-set_other j d _ w.storage.deposits n;
                same_readings = refl;
                same_operators = refl;
                announced = refl;
              }))))))))

  pub deposit_funds-Funded :
      (d : Address) (a : ℤ) (w : World T)
      → Ensures (λ b. Funded d a w) (deposit_funds host call d a w)
  unfolding deposit_funds
  deposit_funds-Funded d a w = after_trap_unless _ _ _ _ (λ auth. after_gets _ _ _ _ (
      after_fail_if _ _ _ _ _ (λ registered. after_fail_if _ _ _ _ _ (λ positive.
        after_gets _ _ _ _ (
          after_ok_or _ _ _ _ _ (λ new_balance sum. after_gets _ _ _ _ (
            after_ok_or _ _ _ _ _ (λ billing configured. after_change _ _ _ _ (λ t moved.
              after_modify _ _ _ _ (
                after_publish _ _ _ _ (
                  after_pure _ _ _ (record {
                    known = some_of _ registered;
                    balance = new_balance;
                    grown = sym (Money.checked_128_value _ _ sum);
                    funded = get-set_same d _ w.storage.deposits;
                    other_deposits = λ j n. get-set_other j d _ w.storage.deposits n;
                    same_registrations = refl;
                    same_tariffs = refl;
                    same_readings = refl;
                    same_operators = refl;
                    announced = refl;
                  }))))))))))))

  pub settle_balance-Settled :
      (o : Address) (a : ℤ) (w : World T)
      → Ensures (λ b. Settled o a w) (settle_balance host call o a w)
  unfolding settle_balance
  settle_balance-Settled o a w = after_trap_unless _ _ _ _ (λ auth.
      after_fail_if _ _ _ _ _ (λ positive. after_gets _ _ _ _ (
        after_fail_if _ _ _ _ _ (λ limited. after_gets _ _ _ _ (
          after_ok_or _ _ _ _ _ (λ billing configured. after_change _ _ _ _ (λ t moved.
            after_ok_or _ _ _ _ _ (λ settled sum. after_modify _ _ _ _ (
              after_publish _ _ _ _ (
                after_pure _ _ _ (record {
                  withdrawn =
                      get-set_same o _ w.storage.operators
                      ∙ ap
                          (λ z. some (record {
                            total_earned = (read_operator_balance o w.storage).total_earned;
                            total_settled = z;
                          }))
                          (sym (Money.checked_128_value _ _ sum));
                  other_operators = λ j n. get-set_other j o _ w.storage.operators n;
                  same_registrations = refl;
                  same_tariffs = refl;
                  same_readings = refl;
                  same_deposits = refl;
                  announced = refl;
                })))))))))))
