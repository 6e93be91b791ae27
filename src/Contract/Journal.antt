-- ===== src/Contract/Journal.antt =====
-- lib.rs: the contract's storage and the accounts that its events describe.
use mathlib.Core.Path.{subst}
use mathlib.Core.Option
use io_t_billing_service.Base.{
  ℕ, ◌≡◌, ◌≢◌, refl, sym, ◌∙◌, ap, ℤ, pos, ◌+ℤ◌, ◌-ℤ◌, Option, some, or_else, [], ◌∷◌, ◌++◌, ◌==◌,
  ==_iff, Bool-cases, inl, inr, arith, int_laws,
}
use io_t_billing_service.Gateway.{Bytes}
use io_t_billing_service.Contract.Host.{Address, Host, Call}
use io_t_billing_service.Contract.Storage.{
  World, read_operator_balance, get, Event, no_earnings, device_registered, deposited, meter,
  settlement,
}
use io_t_billing_service.Contract.Accounts.{
  Accounts, no_accounts, updated, credited, post, posted, posted-append_one,
}
use io_t_billing_service.Contract.Solvency.{outstanding, no_deposit}
use io_t_billing_service.Contract.Accepted.{Accepted, submit_reading-Accepted}
use io_t_billing_service.Contract.Effects.{
  Registered, Funded, Settled, register_device-Registered, deposit_funds-Funded,
  settle_balance-Settled,
}
use io_t_billing_service.Contract.Rules.{Ensures-weaken}
use io_t_billing_service.Contract.History.{
  Operation, register, fund, submit, settle, run, Later, now, called, elsewhere, deployed,
  committed-Ensures,
}
use io_t_billing_service.Contract.Entry.{construct, modify}

-- A function agrees with another one that is updated, if it has the value there and the other
-- values elsewhere.
updated_lem :
    {A : Type 0} (f g : Address → A) (k : Address) (v : A)
    → g k ≡ v
    → ((j : Address) → j ≢ k → g j ≡ f j)
    → (j : Address) → g j ≡ updated f k v j
updated_lem f g k v at others j = elim (Bool-cases (j == k)) [
  | inl same ↦ rw same (ap g ((==_iff j k).0 same) ∙ at)
  | inr other ↦ rw other (others j (ground (arith, other)))
]

withdrawn_claim : (e s amount : ℤ) → e -ℤ (s +ℤ amount) ≡ e -ℤ s -ℤ amount
withdrawn_claim e s amount = omega int_laws

credited_claim : (e s cost : ℤ) → e +ℤ cost -ℤ s ≡ e -ℤ s +ℤ cost
credited_claim e s cost = omega int_laws

module _ {T : Type 0} where
  abbrev pub operator_of : World T → Address → Option Address
  operator_of w d = Option.map (λ r. r.operator) (get d w.storage.registrations)

  abbrev pub held : World T → Address → ℤ
  held w d = (or_else (get d w.storage.deposits) no_deposit).amount

  abbrev pub claim : World T → Address → ℤ
  claim w o = outstanding (read_operator_balance o w.storage)

  -- The storage says of every address what the accounts say.
  pub record Agrees (w : World T) (a : Accounts) : Type 0 where
    pub same_operator : (d : Address) → operator_of w d ≡ a.operator_of d
    pub same_held : (d : Address) → held w d ≡ a.held d
    pub same_claim : (o : Address) → claim w o ≡ a.claim o

  Registered-Agrees :
      (d o : Address) (r : ℤ) (w w' : World T) (a : Accounts)
      → Agrees w a
      → Registered d o r w w'
      → Agrees w' (post (device_registered d o r) a)
  unfolding post
  Registered-Agrees d o r w w' a s h = record {
    same_operator =
        updated_lem a.operator_of (operator_of w') d (some o)
          (ap (Option.map (λ g. g.operator)) h.entered ∙ ap some h.operated)
          (λ j n. ap (Option.map (λ g. g.operator)) (h.other_entries j n) ∙ s.same_operator j);
    same_held =
        updated_lem a.held (held w') d (pos 0) (ap (λ b. (or_else b no_deposit).amount) h.opened)
          (λ j n. ap (λ b. (or_else b no_deposit).amount) (h.other_deposits j n) ∙ s.same_held j);
    same_claim = λ j.
        ap (λ m. outstanding (or_else (get j m) no_earnings)) h.same_operators ∙ s.same_claim j;
  }

  Funded-Agrees :
      (d : Address) (amount : ℤ) (w w' : World T) (a : Accounts)
      → Agrees w a
      → (h : Funded d amount w w') → Agrees w' (post (deposited d amount h.balance) a)
  unfolding post
  Funded-Agrees d amount w w' a s h = record {
    same_operator = λ j.
        ap (λ m. Option.map (λ g. g.operator) (get j m)) h.same_registrations ∙ s.same_operator j;
    same_held =
        updated_lem a.held (held w') d (a.held d +ℤ amount)
          (ap (λ b. (or_else b no_deposit).amount) h.funded
            ∙ h.grown
            ∙ ap (λ z. z +ℤ amount) (s.same_held d))
          (λ j n. ap (λ b. (or_else b no_deposit).amount) (h.other_deposits j n) ∙ s.same_held j);
    same_claim = λ j.
        ap (λ m. outstanding (or_else (get j m) no_earnings)) h.same_operators ∙ s.same_claim j;
  }

  Settled-Agrees :
      (o : Address) (amount : ℤ) (w w' : World T) (a : Accounts)
      → Agrees w a
      → Settled o amount w w'
      → Agrees w' (post (settlement o amount) a)
  unfolding post
  Settled-Agrees o amount w w' a s h = record {
    same_operator = λ j.
        ap (λ m. Option.map (λ g. g.operator) (get j m)) h.same_registrations ∙ s.same_operator j;
    same_held =
        λ j. ap (λ m. (or_else (get j m) no_deposit).amount) h.same_deposits ∙ s.same_held j;
    same_claim =
        updated_lem a.claim (claim w') o (a.claim o -ℤ amount)
          (ap (λ b. outstanding (or_else b no_earnings)) h.withdrawn
            ∙ withdrawn_claim _ _ amount
            ∙ ap (λ z. z -ℤ amount) (s.same_claim o))
          (λ j n.
            ap (λ b. outstanding (or_else b no_earnings)) (h.other_operators j n) ∙ s.same_claim j);
  }

  Accepted-Agrees :
      (host : Host T) (c : Call) (d : Address) (u n t : ℕ) (g : Bytes) (w w' : World T) (cost : ℤ)
      (a : Accounts)
      → Agrees w a
      → (h : Accepted host c d u n t g w cost w')
      → Agrees w' (post (meter d u cost (h.deposit.amount -ℤ cost) n c.timestamp) a)
  unfolding post
  Accepted-Agrees host c d u n t g w w' cost a s h = record {
    same_operator = λ j.
        ap (λ m. Option.map (λ g. g.operator) (get j m)) h.same_registrations ∙ s.same_operator j;
    same_held =
        updated_lem a.held (held w') d (a.held d -ℤ cost)
          (ap (λ b. (or_else b no_deposit).amount) h.charged
            ∙ ap (λ z. z -ℤ cost)
                (sym (ap (λ b. (or_else b no_deposit).amount) h.funded) ∙ s.same_held d))
          (λ j m. ap (λ b. (or_else b no_deposit).amount) (h.others j m).0 ∙ s.same_held j);
    same_claim =
        let known : a.operator_of d ≡ some h.reg.operator =
          sym (s.same_operator d) ∙ ap (Option.map (λ g. g.operator)) h.registered in
        subst (λ o. (j : Address) → claim w' j ≡ credited o cost a.claim j) (sym known)
          (updated_lem a.claim (claim w') h.reg.operator (a.claim h.reg.operator +ℤ cost)
            (ap (λ b. outstanding (or_else b no_earnings)) h.credited
              ∙ credited_claim _ _ cost
              ∙ ap (λ z. z +ℤ cost) (s.same_claim h.reg.operator))
            (λ j m.
              ap (λ b. outstanding (or_else b no_earnings)) (h.other_operators j m)
              ∙ s.same_claim j));
  }

  -- The storage is what the events so far say.
  abbrev pub IsJournaled : World T → Type 0
  IsJournaled w = Agrees w (posted w.events no_accounts)

  announced-IsJournaled :
      (w w' : World T) (e : Event)
      → w'.events ≡ w.events ++ e ∷ []
      → Agrees w' (post e (posted w.events no_accounts))
      → IsJournaled w'
  announced-IsJournaled w w' e announced h =
      subst (Agrees w')
        (sym
          (ap (λ es. posted es no_accounts) announced ∙ posted-append_one w.events e no_accounts))
        h

module _ {T : Type 0} (host : Host T) where
  run-IsJournaled :
      (c : Call) (op : Operation) (w : World T) → IsJournaled w → IsJournaled (run host c op w)
  run-IsJournaled c (register d k o r) w s = committed-Ensures IsJournaled w _ s (
      Ensures-weaken _ _
        (λ b w' h. announced-IsJournaled w w' _ h.announced (Registered-Agrees d o r w w' _ s h)) _
        (register_device-Registered host c d k o r w))
  run-IsJournaled c (fund d a) w s = committed-Ensures IsJournaled w _ s (
      Ensures-weaken _ _
        (λ b w' h. announced-IsJournaled w w' _ h.announced (Funded-Agrees d a w w' _ s h)) _
        (deposit_funds-Funded host c d a w))
  run-IsJournaled c (submit d u n t g) w s = committed-Ensures IsJournaled w _ s (
      Ensures-weaken _ _
        (λ cost w' h.
          announced-IsJournaled w w' _ h.announced
            (Accepted-Agrees host c d u n t g w w' cost _ s h))
        _ (submit_reading-Accepted host c d u n t g w))
  run-IsJournaled c (settle o a) w s = committed-Ensures IsJournaled w _ s (
      Ensures-weaken _ _
        (λ b w' h. announced-IsJournaled w w' _ h.announced (Settled-Agrees o a w w' _ s h)) _
        (settle_balance-Settled host c o a w))

  -- In every world later than the contract's deployment, the operator of each device, its deposit
  -- and the claim of each operator, what it has earned less what it has withdrawn, are those that
  -- result from posting the events that the contract has published, one after the other, to empty
  -- accounts, without a look at the balances that the events carry. Calls come in any order, fail
  -- or not, without the contract's own authorization, while the token ledgers take nothing from
  -- the contract.
  pub Later-IsJournaled :
      (token : Address) (t : T) (w : World T)
      → Later host token (deployed token t) w
      → IsJournaled w
  unfolding construct modify ◌-ℤ◌ get
  Later-IsJournaled token t w now = record {
    same_operator = λ d. refl;
    same_held = λ d. refl;
    same_claim = λ o. refl;
  }
  Later-IsJournaled token t w (called before c op safe) =
      run-IsJournaled c op _ (Later-IsJournaled token t _ before)
  Later-IsJournaled token t w (elsewhere before t' more) =
      let s = Later-IsJournaled token t _ before in
      record { same_operator = s.same_operator; same_held = s.same_held; same_claim = s.same_claim }
