-- ===== src/Contract/Charges.antt =====
-- lib.rs: register_device and submit_reading over what the contract holds and owes.
use mathlib.Core.Path.{subst}
use io_t_billing_service.Base.{◌≡◌, ℤ, pos, ◌+ℤ◌, ◌≤ℤ◌, or_else, arith, ℕ}
use io_t_billing_service.Gateway.{Bytes}
use io_t_billing_service.Contract.Host.{Address, Host, Call}
use io_t_billing_service.Contract.Storage.{
  World, DepositBalance, no_earnings, read_operator_balance, get, set,
}
use io_t_billing_service.Contract.Entry.{register_device, submit_reading}
use io_t_billing_service.Contract.Money
use io_t_billing_service.Contract.Maps.{total, All-set, or_else-All}
use io_t_billing_service.Contract.Rules.{
  Ensures, after_pure, after_fail_if, after_trap_unless, after_ok_or, after_sub, after_lift,
  after_gets, after_modify, after_publish,
}
use io_t_billing_service.Contract.Solvency.{
  outstanding, deposited_amount, no_deposit, IsSolvent, total-outstanding-set, total_deposits-set,
  no_earnings_outstanding,
}

module _ {T : Type 0} (host : Host T) (call : Call) (token : Address) where
  pub register_device-IsSolvent :
      (device_id : Address) (device_pubkey : Bytes) (operator : Address) (rate_per_unit : ℤ)
      → (w : World T) → IsSolvent host token w
      → Ensures
          (λ b w'. IsSolvent host token w')
          (register_device host call device_id device_pubkey operator rate_per_unit w)
  unfolding register_device
  register_device-IsSolvent device_id device_pubkey operator rate_per_unit w s =
      after_trap_unless _ _ _ _ (λ auth. after_trap_unless _ _ _ _ (λ auth_operator.
        after_fail_if _ _ _ _ _ (λ rate. after_gets _ _ _ _ (
          after_fail_if _ _ _ _ _ (λ fresh. after_modify _ _ _ _ (
            after_publish _ _ _ _ (
              after_pure _ _ _ (record {
                configured = s.configured;
                not_negative =
                    All-set (λ (d : DepositBalance). pos 0 ≤ℤ d.amount) device_id no_deposit
                      (omega arith) w.storage.deposits s.not_negative;
                not_overdrawn = s.not_overdrawn;
                covered =
                    Money.register_covered _ _ _
                      (or_else (get device_id w.storage.deposits) no_deposit).amount _
                      (total_deposits-set device_id no_deposit w.storage)
                      (or_else-All (λ (d : DepositBalance). pos 0 ≤ℤ d.amount) no_deposit
                        (omega arith) device_id w.storage.deposits s.not_negative)
                      s.covered;
              }))))))))

  pub submit_reading-IsSolvent :
      (device_id : Address) (delta_units data_seq timestamp : ℕ) (sig : Bytes) (w : World T)
      → IsSolvent host token w
      → Ensures
          (λ c w'. IsSolvent host token w')
          (submit_reading host call device_id delta_units data_seq timestamp sig w)
  unfolding submit_reading
  submit_reading-IsSolvent device_id delta_units data_seq timestamp sig w s = after_gets _ _ _ _ (
      after_ok_or _ _ _ _ _ (λ reg registered. after_fail_if _ _ _ _ _ (λ is_active.
        after_fail_if _ _ _ _ _ (λ not_zero. after_gets _ _ _ _ (
          after_ok_or _ _ _ _ _ (λ expected_seq next. after_fail_if _ _ _ _ _ (λ in_sequence.
            after_lift _ _ _ _ (λ _ verified. after_gets _ _ _ _ (
              after_ok_or _ _ _ _ _ (λ tp tariff. after_fail_if _ _ _ _ _ (λ rate.
                after_ok_or _ _ _ _ _ (λ cost product. after_gets _ _ _ _ (
                  after_ok_or _ _ _ _ _ (λ bal deposit. after_fail_if _ _ _ _ _ (λ enough.
                    after_sub _ _ _ _ (λ left difference. after_modify _ _ _ _ (
                      after_gets _ _ _ _ (
                        after_ok_or _ _ _ _ _ (λ earned sum. after_modify _ _ _ _ (
                          after_ok_or _ _ _ _ _ (λ units counted. after_modify _ _ _ _ (
                            after_publish _ _ _ _ (
                              after_pure _ _ _ (
                                let op = read_operator_balance reg.operator w.storage in
                                let charged = Money.checked_128_value _ _ difference in
                                let credited = Money.checked_128_value _ _ sum in
                                record {
                                  configured = s.configured;
                                  not_negative =
                                      All-set (λ (d : DepositBalance). pos 0 ≤ℤ d.amount) device_id
                                        _
                                        (Money.charge_not_negative bal.amount left cost charged
                                          enough)
                                        w.storage.deposits s.not_negative;
                                  not_overdrawn =
                                      All-set (λ b. pos 0 ≤ℤ outstanding b) reg.operator _
                                        (Money.charge_outstanding op.total_earned earned
                                          op.total_settled cost credited
                                          (Money.cost_not_negative delta_units tp.rate_per_unit cost
                                            rate (Money.checked_128_value _ _ product))
                                          (or_else-All (λ b. pos 0 ≤ℤ outstanding b) no_earnings
                                            (no_earnings_outstanding) reg.operator
                                            w.storage.operators s.not_overdrawn))
                                        w.storage.operators s.not_overdrawn;
                                  covered =
                                      Money.charge_covered _ _ _ _ bal.amount left op.total_earned
                                        earned op.total_settled cost _
                                        (subst
                                          (λ o.
                                            total deposited_amount (
                                                set device_id (record { amount = left })
                                                  w.storage.deposits)
                                              +ℤ deposited_amount (or_else o no_deposit)
                                            ≡ total deposited_amount w.storage.deposits +ℤ left)
                                          deposit (total_deposits-set device_id _ w.storage))
                                        charged (total-outstanding-set reg.operator _ w.storage)
                                        credited s.covered;
                                }))))))))))))))))))))))))
