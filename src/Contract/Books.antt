-- ===== src/Contract/Books.antt =====
-- lib.rs: each deposit against what was paid in for the device and what it was charged.
use mathlib.Core.Path.{subst}
use io_t_billing_service.Base.{
  ℕ, ◌≡◌, ◌≢◌, refl, sym, ◌∙◌, ap, ℤ, pos, ◌+ℤ◌, ◌-ℤ◌, Option, none, some, or_else, List, [], ◌∷◌,
  ◌++◌, ◌==◌, if◌then◌else◌, ==_iff, Bool-cases, inl, inr, arith, int_laws,
}
use io_t_billing_service.Sql.{sum_of, sum_of-append_one}
use io_t_billing_service.Gateway.{Bytes}
use io_t_billing_service.Contract.Host.{Address, Host, Call}
use io_t_billing_service.Contract.Storage.{World, get, Event, deposited, meter}
use io_t_billing_service.Contract.Solvency.{no_deposit}
use io_t_billing_service.Contract.Accepted.{Accepted, submit_reading-Accepted}
use io_t_billing_service.Contract.Effects.{
  Registered, Funded, Settled, register_device-Registered, deposit_funds-Funded,
  settle_balance-Settled,
}
use io_t_billing_service.Contract.Rules.{Ensures-weaken}
use io_t_billing_service.Contract.History.{
  Operation, register, fund, submit, settle, run, Later, now, called, elsewhere, deployed,
  committed-Ensures,
}
use io_t_billing_service.Contract.Journal.{held}
use io_t_billing_service.Contract.Entry.{construct, modify}

some-ne-none : {A : Type 0} {o : Option A} {a : A} → o ≡ some a → o ≢ none
some-ne-none h e = cc

-- What one event pays in for the device, and what it charges it.
abbrev pub paid_by : Address → Event → ℤ
paid_by d (deposited e amount balance) = if e == d then amount else pos 0
paid_by d _ = pos 0

abbrev pub charged_by : Address → Event → ℤ
charged_by d (meter e units cost balance seq time) = if e == d then cost else pos 0
charged_by d _ = pos 0

abbrev pub paid_in : Address → List Event → ℤ
paid_in d es = sum_of (paid_by d) es

abbrev pub billed : Address → List Event → ℤ
billed d es = sum_of (charged_by d) es

module _ {T : Type 0} where
  -- The deposit of the device is what was paid in less what was charged, and nothing was where the
  -- device is not registered.
  pub record IsBalanced (w : World T) (d : Address) : Type 0 where
    pub balanced : held w d ≡ paid_in d w.events -ℤ billed d w.events
    pub unopened : get d w.storage.registrations ≡ none → held w d ≡ pos 0

  -- An event moves the balance by what it pays in and charges.
  announced-IsBalanced :
      (w w' : World T) (e : Event) (d : Address)
      → w'.events ≡ w.events ++ e ∷ []
      → held w' d ≡ held w d +ℤ (paid_by d e -ℤ charged_by d e)
      → (get d w'.storage.registrations ≡ none → held w' d ≡ pos 0)
      → IsBalanced w d
      → IsBalanced w' d
  announced-IsBalanced w w' e d announced moved unopened b = record {
    balanced =
        let paid = ap (paid_in d) announced ∙ sum_of-append_one (paid_by d) w.events e in
        let charged = ap (billed d) announced ∙ sum_of-append_one (charged_by d) w.events e in
        let before = b.balanced in moved ∙ rw (paid, charged, before) (omega int_laws);
    unopened = unopened;
  }

  held_same :
      (w w' : World T) (d : Address)
      → get d w'.storage.deposits ≡ get d w.storage.deposits
      → held w' d ≡ held w d
  held_same w w' d e = ap (λ b. (or_else b no_deposit).amount) e

  unmoved :
      (w w' : World T) (d : Address)
      → held w' d ≡ held w d
      → held w' d ≡ held w d +ℤ (pos 0 -ℤ pos 0)
  unmoved w w' d e = e ∙ omega int_laws

  Registered-IsBalanced :
      (e o : Address) (r : ℤ) (w w' : World T) (d : Address)
      → Registered e o r w w'
      → IsBalanced w d
      → IsBalanced w' d
  Registered-IsBalanced e o r w w' d h b = elim (Bool-cases (d == e)) [
    | inl same ↦
        let is = (==_iff d e).0 same in
        let opened : held w' d ≡ pos 0 =
          ap (held w') is ∙ ap (λ m. (or_else m no_deposit).amount) h.opened in
        let empty = b.unopened (ap (λ k. get k w.storage.registrations) is ∙ h.unknown) in
        announced-IsBalanced w w' _ d h.announced (unmoved w w' d (opened ∙ sym empty))
          (λ missing. opened) b
    | inr other ↦
        let differs : d ≢ e = ground (arith, other) in
        let kept = held_same w w' d (h.other_deposits d differs) in
        announced-IsBalanced w w' _ d h.announced (unmoved w w' d kept)
          (λ missing. kept ∙ b.unopened (sym (h.other_entries d differs) ∙ missing)) b
  ]

  Funded-IsBalanced :
      (e : Address) (amount : ℤ) (w w' : World T) (d : Address)
      → Funded e amount w w'
      → IsBalanced w d
      → IsBalanced w' d
  Funded-IsBalanced e amount w w' d h b = elim (Bool-cases (e == d)) [
    | inl same ↦
        let is = (==_iff e d).0 same in
        let grown : held w' d ≡ held w d +ℤ amount =
          subst (λ k. held w' k ≡ held w k +ℤ amount) is
            (ap (λ m. (or_else m no_deposit).amount) h.funded ∙ h.grown) in
        announced-IsBalanced w w' _ d h.announced (grown ∙ rw same (omega int_laws))
          (λ missing. absurd (
            h.known (
              ap (λ k. get k w.storage.registrations) is
              ∙ ap (get d) (sym h.same_registrations)
              ∙ missing)))
          b
    | inr other ↦
        let differs : d ≢ e = ground (arith, other) in
        let kept = held_same w w' d (h.other_deposits d differs) in
        announced-IsBalanced w w' _ d h.announced (kept ∙ rw other (omega int_laws))
          (λ missing. kept ∙ b.unopened (ap (get d) (sym h.same_registrations) ∙ missing)) b
  ]

  Settled-IsBalanced :
      (o : Address) (amount : ℤ) (w w' : World T) (d : Address)
      → Settled o amount w w'
      → IsBalanced w d
      → IsBalanced w' d
  Settled-IsBalanced o amount w w' d h b =
      let kept = held_same w w' d (ap (get d) h.same_deposits) in
      announced-IsBalanced w w' _ d h.announced (unmoved w w' d kept)
        (λ missing. kept ∙ b.unopened (ap (get d) (sym h.same_registrations) ∙ missing)) b

  Accepted-IsBalanced :
      (host : Host T) (c : Call) (e : Address) (u n t : ℕ) (g : Bytes) (w w' : World T) (cost : ℤ)
      (d : Address)
      → Accepted host c e u n t g w cost w'
      → IsBalanced w d
      → IsBalanced w' d
  Accepted-IsBalanced host c e u n t g w w' cost d h b = elim (Bool-cases (e == d)) [
    | inl same ↦
        let is = (==_iff e d).0 same in
        let fallen : held w' d ≡ held w d -ℤ cost =
          subst (λ k. held w' k ≡ held w k -ℤ cost) is
            (ap (λ m. (or_else m no_deposit).amount) h.charged
              ∙ ap (λ z. z -ℤ cost) (sym (ap (λ m. (or_else m no_deposit).amount) h.funded))) in
        announced-IsBalanced w w' _ d h.announced (fallen ∙ rw same (omega int_laws))
          (λ missing. absurd (
            some-ne-none h.registered (
              ap (λ k. get k w.storage.registrations) is
              ∙ ap (get d) (sym h.same_registrations)
              ∙ missing)))
          b
    | inr other ↦
        let differs : d ≢ e = ground (arith, other) in
        let kept = held_same w w' d (h.others d differs).0 in
        announced-IsBalanced w w' _ d h.announced (kept ∙ rw other (omega int_laws))
          (λ missing. kept ∙ b.unopened (ap (get d) (sym h.same_registrations) ∙ missing)) b
  ]

module _ {T : Type 0} (host : Host T) (d : Address) where
  run-IsBalanced :
      (c : Call) (op : Operation) (w : World T) → IsBalanced w d → IsBalanced (run host c op w) d
  run-IsBalanced c (register e k o r) w b =
      committed-Ensures (λ v. IsBalanced v d) w _ b
        (Ensures-weaken _ _ (λ x w' h. Registered-IsBalanced e o r w w' d h b) _
          (register_device-Registered host c e k o r w))
  run-IsBalanced c (fund e a) w b =
      committed-Ensures (λ v. IsBalanced v d) w _ b
        (Ensures-weaken _ _ (λ x w' h. Funded-IsBalanced e a w w' d h b) _
          (deposit_funds-Funded host c e a w))
  run-IsBalanced c (submit e u n t g) w b =
      committed-Ensures (λ v. IsBalanced v d) w _ b
        (Ensures-weaken _ _ (λ cost w' h. Accepted-IsBalanced host c e u n t g w w' cost d h b) _
          (submit_reading-Accepted host c e u n t g w))
  run-IsBalanced c (settle o a) w b =
      committed-Ensures (λ v. IsBalanced v d) w _ b
        (Ensures-weaken _ _ (λ x w' h. Settled-IsBalanced o a w w' d h b) _
          (settle_balance-Settled host c o a w))

  -- In every world later than the contract's deployment the deposit of the device is what was paid
  -- in for it less what it was charged, by the events.
  pub Later-IsBalanced :
      (token : Address) (t : T) (w : World T)
      → Later host token (deployed token t) w
      → IsBalanced w d
  unfolding construct modify ◌-ℤ◌ get sum_of
  Later-IsBalanced token t w now = record { balanced = refl; unopened = λ missing. refl }
  Later-IsBalanced token t w (called before c op safe) =
      run-IsBalanced c op _ (Later-IsBalanced token t _ before)
  Later-IsBalanced token t w (elsewhere before t' more) =
      let b = Later-IsBalanced token t _ before in
      record { balanced = b.balanced; unopened = b.unopened }
