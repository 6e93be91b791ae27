-- ===== src/Contract/Payments.antt =====
-- lib.rs: settle_balance and deposit_funds over what the contract holds and owes.
use io_t_billing_service.Base.{◌≡◌, sym, ◌∙◌, ap, false, ℤ, pos, ◌≤ℤ◌, or_else, some_eq, arith}
use io_t_billing_service.Contract.Host.{Address, Host, Call}
use io_t_billing_service.Contract.Storage.{World, DepositBalance, read_operator_balance, get}
use io_t_billing_service.Contract.Entry.{deposit_funds, settle_balance}
use io_t_billing_service.Contract.Money
use io_t_billing_service.Contract.Maps.{All-set, or_else-All}
use io_t_billing_service.Contract.Rules.{
  Ensures, after_pure, after_fail_if, after_trap_unless, after_ok_or, after_change, after_gets,
  after_modify, after_publish,
}
use io_t_billing_service.Contract.Solvency.{
  outstanding, no_deposit, MovesTokens, IsSolvent, total-outstanding-set, total_deposits-set,
  not_contract,
}

module _ {T : Type 0} (host : Host T) (call : Call) (token : Address)
    (moves : MovesTokens host token) (safe : call.authorized host.current_contract ≡ false) where
  pub settle_balance-IsSolvent :
      (operator : Address) (amount : ℤ) (w : World T)
      → IsSolvent host token w
      → Ensures (λ b w'. IsSolvent host token w') (settle_balance host call operator amount w)
  unfolding settle_balance
  settle_balance-IsSolvent operator amount w s = after_trap_unless _ _ _ _ (λ auth.
      after_fail_if _ _ _ _ _ (λ positive. after_gets _ _ _ _ (
        after_fail_if _ _ _ _ _ (λ limited. after_gets _ _ _ _ (
          after_ok_or _ _ _ _ _ (λ billing configured. after_change _ _ _ _ (λ t moved.
            after_ok_or _ _ _ _ _ (λ settled sum. after_modify _ _ _ _ (
              after_publish _ _ _ _ (
                after_pure _ _ _ (
                  let bal = read_operator_balance operator w.storage in
                  let same : billing ≡ token = some_eq (sym configured ∙ s.configured) in
                  let m =
                    moves host.current_contract operator amount w.tokens t
                      (λ e. not_contract host call operator safe auth (sym e))
                      (ap (λ b. host.transfer b host.current_contract operator amount w.tokens)
                          (sym same)
                        ∙ moved) in
                  let total_settled = Money.checked_128_value _ _ sum in
                  record {
                    configured = s.configured;
                    not_negative = s.not_negative;
                    not_overdrawn =
                        All-set (λ b. pos 0 ≤ℤ outstanding b) operator _
                          (Money.withdraw_outstanding bal.total_earned bal.total_settled settled
                            amount total_settled
                            (Money.saturating_sub_bound bal.total_earned bal.total_settled amount
                              positive limited))
                          w.storage.operators s.not_overdrawn;
                    covered =
                        Money.withdraw_covered _ _ _ bal.total_earned bal.total_settled settled
                          amount _ _ (total-outstanding-set operator _ w.storage) total_settled m.1
                          s.covered;
                  })))))))))))

  pub deposit_funds-IsSolvent :
      (device_id : Address) (amount : ℤ) (w : World T)
      → IsSolvent host token w
      → Ensures (λ b w'. IsSolvent host token w') (deposit_funds host call device_id amount w)
  unfolding deposit_funds
  deposit_funds-IsSolvent device_id amount w s = after_trap_unless _ _ _ _ (λ auth.
      after_gets _ _ _ _ (
        after_fail_if _ _ _ _ _ (λ registered. after_fail_if _ _ _ _ _ (λ positive.
          after_gets _ _ _ _ (
            after_ok_or _ _ _ _ _ (λ new_balance sum. after_gets _ _ _ _ (
              after_ok_or _ _ _ _ _ (λ billing configured. after_change _ _ _ _ (λ t moved.
                after_modify _ _ _ _ (
                  after_publish _ _ _ _ (
                    after_pure _ _ _ (
                      let bal = or_else (get device_id w.storage.deposits) no_deposit in
                      let same : billing ≡ token = some_eq (sym configured ∙ s.configured) in
                      let m =
                        moves device_id host.current_contract amount w.tokens t
                          (not_contract host call device_id safe auth)
                          (ap (λ b. host.transfer b device_id host.current_contract amount w.tokens)
                              (sym same)
                            ∙ moved) in
                      let balance = Money.checked_128_value _ _ sum in
                      record {
                        configured = s.configured;
                        not_negative =
                            All-set (λ (d : DepositBalance). pos 0 ≤ℤ d.amount) device_id _
                              (Money.deposit_not_negative bal.amount new_balance amount balance
                                positive
                                (or_else-All (λ (d : DepositBalance). pos 0 ≤ℤ d.amount) no_deposit
                                  (omega arith) device_id w.storage.deposits s.not_negative))
                              w.storage.deposits s.not_negative;
                        not_overdrawn = s.not_overdrawn;
                        covered =
                            Money.deposit_covered _ _ _ bal.amount new_balance amount _ _
                              (total_deposits-set device_id _ w.storage) balance m.0 s.covered;
                      }))))))))))))
