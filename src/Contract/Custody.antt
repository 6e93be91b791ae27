-- ===== src/Contract/Custody.antt =====
-- lib.rs: what the contract holds and owes, in the worlds that calls lead to.
use io_t_billing_service.Base.{pos, ◌≡◌, refl, ◌≤ℤ◌, ◌+ℤ◌, arith, false}
use io_t_billing_service.Sql.{sum_of}
use io_t_billing_service.Contract.Host.{Address, Host, Call}
use io_t_billing_service.Contract.Storage.{World}
use io_t_billing_service.Contract.Entry.{construct, modify}
use io_t_billing_service.Contract.Solvency.{MovesTokens, IsSolvent}
use io_t_billing_service.Contract.Payments.{settle_balance-IsSolvent, deposit_funds-IsSolvent}
use io_t_billing_service.Contract.Charges.{register_device-IsSolvent, submit_reading-IsSolvent}
use io_t_billing_service.Contract.History.{
  Operation, register, fund, submit, settle, run, Later, now, called, elsewhere, deployed,
  committed-Ensures,
}

module _ {T : Type 0} (host : Host T) (token : Address) (moves : MovesTokens host token) where
  run-IsSolvent :
      (c : Call) (op : Operation) (w : World T)
      → c.authorized host.current_contract ≡ false
      → IsSolvent host token w
      → IsSolvent host token (run host c op w)
  run-IsSolvent c (register d k o r) w safe s =
      committed-Ensures (IsSolvent host token) w _ s
        (register_device-IsSolvent host c token d k o r w s)
  run-IsSolvent c (fund d a) w safe s =
      committed-Ensures (IsSolvent host token) w _ s
        (deposit_funds-IsSolvent host c token moves safe d a w s)
  run-IsSolvent c (submit d u n t g) w safe s =
      committed-Ensures (IsSolvent host token) w _ s
        (submit_reading-IsSolvent host c token d u n t g w s)
  run-IsSolvent c (settle o a) w safe s =
      committed-Ensures (IsSolvent host token) w _ s
        (settle_balance-IsSolvent host c token moves safe o a w s)

  deployed-IsSolvent :
      (t : T)
      → pos 0 ≤ℤ host.balance token host.current_contract t
      → IsSolvent host token (deployed token t)
  unfolding construct modify sum_of ◌+ℤ◌
  deployed-IsSolvent t h = record {
    configured = refl;
    not_negative = tt;
    not_overdrawn = tt;
    covered = omega arith;
  }

  -- If transfers of the token move what they say between two addresses and the contract starts
  -- with no negative balance, then in every world later than its deployment its custody of the
  -- token is at least the sum of all deposits and of what the operators have earned and not yet
  -- withdrawn; no deposit is negative and no operator has withdrawn more than it earned. Calls
  -- come in any order, fail or not, without the contract's own authorization, and between calls
  -- the token ledgers change in any way that takes nothing from the contract.
  pub Later-IsSolvent :
      (t : T)
      → pos 0 ≤ℤ host.balance token host.current_contract t
      → (w : World T) → Later host token (deployed token t) w
      → IsSolvent host token w
  Later-IsSolvent t h w now = deployed-IsSolvent t h
  Later-IsSolvent t h w (called before c op safe) =
      run-IsSolvent c op _ safe (Later-IsSolvent t h _ before)
  Later-IsSolvent t h w (elsewhere before t' more) =
      let s = Later-IsSolvent t h _ before in
      record {
        configured = s.configured;
        not_negative = s.not_negative;
        not_overdrawn = s.not_overdrawn;
        covered = let c = s.covered in omega (arith, c);
      }
