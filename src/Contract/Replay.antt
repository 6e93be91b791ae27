-- ===== src/Contract/Replay.antt =====
-- lib.rs: a device's sequence counter over the calls.
use io_t_billing_service.Base.{
  ℕ, ◌≤◌, ◌<◌, ◌≡◌, ◌≢◌, ap, ℤ, or_else, arith, Bool-cases, inl, inr, ◌==◌, ==_iff,
}
use io_t_billing_service.Gateway.{Bytes}
use io_t_billing_service.Contract.Host.{Address, Host, Call, ok}
use io_t_billing_service.Contract.Storage.{World, get}
use io_t_billing_service.Contract.Entry.{submit_reading, no_reading}
use io_t_billing_service.Contract.Rules.{Ensures-value, Ensures-weaken}
use io_t_billing_service.Contract.Accepted.{counter, Accepted, submit_reading-Accepted}
use io_t_billing_service.Contract.Effects.{
  register_device-Registered, deposit_funds-Funded, settle_balance-Settled,
}
use io_t_billing_service.Contract.History.{
  Operation, register, fund, submit, settle, run, Later, now, called, elsewhere, committed-Ensures,
}

abbrev SameReadings : {T A : Type 0} → World T → A → World T → Type 0
SameReadings w a w' = w'.storage.readings ≡ w.storage.readings

abbrev NoLower : {T A : Type 0} → Address → World T → A → World T → Type 0
NoLower d w a w' = (counter d w).last_seq ≤ (counter d w').last_seq

SameReadings-NoLower :
    {T A : Type 0} (d : Address) (w : World T) (a : A) (w' : World T)
    → SameReadings w a w'
    → NoLower d w a w'
SameReadings-NoLower d w a w' h =
    let same : (counter d w').last_seq ≡ (counter d w).last_seq =
      ap (λ m. (or_else (get d m) no_reading).last_seq) h in
    omega arith

module _ {T : Type 0} (host : Host T) where
  counter-Accepted :
      (call : Call) (j d : Address) (u n t : ℕ) (g : Bytes) (w : World T) (cost : ℤ) (w' : World T)
      → Accepted host call d u n t g w cost w'
      → NoLower j w cost w'
  counter-Accepted call j d u n t g w cost w' a = elim (Bool-cases (j == d)) [
    | inl same ↦
        let it : j ≡ d = (==_iff j d).0 same in
        let reached : (counter d w').last_seq ≡ n =
          ap (λ o. (or_else o no_reading).last_seq) a.counted in
        let next = a.next in rw it (omega (arith, reached, next))
    | inr other ↦
        let apart : j ≢ d = ground (arith, other) in
        let kept : (counter j w').last_seq ≡ (counter j w).last_seq =
          ap (λ o. (or_else o no_reading).last_seq) (a.others j apart).1 in
        omega (arith, kept)
  ]

  run-NoLower :
      (c : Call) (op : Operation) (d : Address) (w : World T) → NoLower d w tt (run host c op w)
  run-NoLower c (register i k o r) d w = committed-Ensures (NoLower d w tt) w _ (omega arith) (
      Ensures-weaken _ _ (λ x w' h. SameReadings-NoLower d w x w' h.same_readings) _
        (register_device-Registered host c i k o r w))
  run-NoLower c (fund i a) d w = committed-Ensures (NoLower d w tt) w _ (omega arith) (
      Ensures-weaken _ _ (λ x w' h. SameReadings-NoLower d w x w' h.same_readings) _
        (deposit_funds-Funded host c i a w))
  run-NoLower c (submit i u n t g) d w = committed-Ensures (NoLower d w tt) w _ (omega arith) (
      Ensures-weaken _ _ (counter-Accepted c d i u n t g w) _
        (submit_reading-Accepted host c i u n t g w))
  run-NoLower c (settle o a) d w = committed-Ensures (NoLower d w tt) w _ (omega arith) (
      Ensures-weaken _ _ (λ x w' h. SameReadings-NoLower d w x w' h.same_readings) _
        (settle_balance-Settled host c o a w))

  Later-NoLower : (token d : Address) (w w' : World T) → Later host token w w' → NoLower d w tt w'
  Later-NoLower token d w w' now = omega arith
  Later-NoLower token d w w' (called {w' = v} before c op safe) =
      let a = Later-NoLower token d w v before in
      let b = run-NoLower c op d v in omega (arith, a, b)
  Later-NoLower token d w w' (elsewhere before t more) = Later-NoLower token d w _ before

  -- The sequence number of an accepted reading of a device is higher than that of any reading of
  -- the device accepted before, whatever either reading says and whatever calls, none authorized by
  -- the contract itself, there were between the two, while the token ledgers took nothing from the
  -- contract; so a signed reading is charged at most once.
  pub submit_reading_once :
      (c c' : Call) (token d : Address) (u u' n n' t t' : ℕ) (g g' : Bytes)
      → (w w1 w2 w3 : World T) (cost cost' : ℤ) → submit_reading host c d u n t g w ≡ (ok cost, w1)
      → Later host token w1 w2
      → submit_reading host c' d u' n' t' g' w2 ≡ (ok cost', w3)
      → n < n'
  submit_reading_once c c' token d u u' n n' t t' g g' w w1 w2 w3 cost cost' first later second =
      let a = Ensures-value _ _ cost w1 (submit_reading-Accepted host c d u n t g w) first in
      let b =
        Ensures-value _ _ cost' w3 (submit_reading-Accepted host c' d u' n' t' g' w2) second in
      let reached : (counter d w1).last_seq ≡ n =
        ap (λ o. (or_else o no_reading).last_seq) a.counted in
      let up = Later-NoLower token d w1 w2 later in
      let next = b.next in omega (arith, reached, up, next)
