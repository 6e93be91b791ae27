-- ===== src/Contract/Registered.antt =====
-- lib.rs: the registration of a device over later calls.
use mathlib.Core.Bool.{false≢true}
use io_t_billing_service.Base.{Bool, ◌≡◌, ◌≢◌, sym, ◌∙◌, ap, false, ℤ, some}
use io_t_billing_service.Gateway.{Bytes}
use io_t_billing_service.Contract.Host.{Address, Host, Call, ok, active}
use io_t_billing_service.Contract.Storage.{World, DeviceRegistration, TariffRate, get}
use io_t_billing_service.Contract.Entry.{register_device, is_some}
use io_t_billing_service.Contract.Queries.{get_registration, get_tariff}
use io_t_billing_service.Contract.Rules.{
  Ensures, Ensures-value, Ensures-weaken, after_pure, after_fail_if, after_trap_unless, after_gets,
  after_modify, after_publish,
}
use io_t_billing_service.Contract.Accepted.{submit_reading-Accepted, get-set_same, get-set_other}
use io_t_billing_service.Contract.Effects.{deposit_funds-Funded, settle_balance-Settled}
use io_t_billing_service.Contract.History.{
  Operation, register, fund, submit, settle, run, Later, now, called, elsewhere, committed-Ensures,
}

module _ {T : Type 0} (host : Host T) where
  abbrev HasEntry : Address → DeviceRegistration → TariffRate → World T → Type 0
  HasEntry d g t w = (get_registration d w ≡ some g) × (get_tariff d w ≡ some t)

  register_device-HasEntry :
      (c : Call) (d : Address) (k : Bytes) (o : Address) (r : ℤ) (w : World T)
      → Ensures
          (λ a.
            HasEntry d
              (record {
                operator = o;
                status = active;
                registered_at = c.timestamp;
                device_pubkey = k;
              })
              (record { rate_per_unit = r }))
          (register_device host c d k o r w)
  unfolding register_device
  register_device-HasEntry c d k o r w = after_trap_unless _ _ _ _ (λ auth.
      after_trap_unless _ _ _ _ (λ auth_operator. after_fail_if _ _ _ _ _ (λ rate.
        after_gets _ _ _ _ (
          after_fail_if _ _ _ _ _ (λ fresh. after_modify _ _ _ _ (
            after_publish _ _ _ _ (
              after_pure _ _ _ (
                get-set_same d _ w.storage.registrations,
                get-set_same d _ w.storage.tariffs,
              ))))))))

  fresh_other :
      (d j : Address) (g : DeviceRegistration) (w : World T)
      → get_registration d w ≡ some g
      → is_some (get_registration j w) ≡ false
      → d ≢ j
  fresh_other d j g w known fresh same =
      false≢true (sym fresh ∙ ap is_some (ap (λ x. get_registration x w) (sym same) ∙ known))

  register_device-keeps :
      (c : Call) (j : Address) (k : Bytes) (o : Address) (r : ℤ) (d : Address)
      (g : DeviceRegistration) (t : TariffRate) (w : World T)
      → HasEntry d g t w
      → Ensures (λ a. HasEntry d g t) (register_device host c j k o r w)
  unfolding register_device
  register_device-keeps c j k o r d g t w (known, priced) = after_trap_unless _ _ _ _ (λ auth.
      after_trap_unless _ _ _ _ (λ auth_operator. after_fail_if _ _ _ _ _ (λ rate.
        after_gets _ _ _ _ (
          after_fail_if _ _ _ _ _ (λ fresh. after_modify _ _ _ _ (
            after_publish _ _ _ _ (
              after_pure _ _ _ (
                let apart = fresh_other d j g w known fresh in
                (
                  get-set_other d j _ w.storage.registrations apart ∙ known,
                  get-set_other d j _ w.storage.tariffs apart ∙ priced,
                )))))))))

  SameRules-HasEntry :
      (d : Address) (g : DeviceRegistration) (t : TariffRate) (w w' : World T)
      → HasEntry d g t w
      → w'.storage.registrations ≡ w.storage.registrations
      → w'.storage.tariffs ≡ w.storage.tariffs
      → HasEntry d g t w'
  SameRules-HasEntry d g t w w' (known, priced) same same' =
      (ap (get d) same ∙ known, ap (get d) same' ∙ priced)

  run-HasEntry :
      (c : Call) (op : Operation) (d : Address) (g : DeviceRegistration) (t : TariffRate)
      (w : World T)
      → HasEntry d g t w
      → HasEntry d g t (run host c op w)
  run-HasEntry c (register j k o r) d g t w h =
      committed-Ensures (HasEntry d g t) w _ h (register_device-keeps c j k o r d g t w h)
  run-HasEntry c (fund j a) d g t w h = committed-Ensures (HasEntry d g t) w _ h (
      Ensures-weaken _ _
        (λ x w' s. SameRules-HasEntry d g t w w' h s.same_registrations s.same_tariffs) _
        (deposit_funds-Funded host c j a w))
  run-HasEntry c (submit j u n ts sig) d g t w h = committed-Ensures (HasEntry d g t) w _ h (
      Ensures-weaken _ _
        (λ cost w' a. SameRules-HasEntry d g t w w' h a.same_registrations a.same_tariffs) _
        (submit_reading-Accepted host c j u n ts sig w))
  run-HasEntry c (settle o a) d g t w h = committed-Ensures (HasEntry d g t) w _ h (
      Ensures-weaken _ _
        (λ x w' s. SameRules-HasEntry d g t w w' h s.same_registrations s.same_tariffs) _
        (settle_balance-Settled host c o a w))

  Later-HasEntry :
      (token d : Address) (g : DeviceRegistration) (t : TariffRate) (w w' : World T)
      → HasEntry d g t w
      → Later host token w w'
      → HasEntry d g t w'
  Later-HasEntry token d g t w w' h now = h
  Later-HasEntry token d g t w w' h (called {w' = v} before c op safe) =
      run-HasEntry c op d g t v (Later-HasEntry token d g t w v h before)
  Later-HasEntry token d g t w w' h (elsewhere before ts more) =
      Later-HasEntry token d g t w _ h before

  -- Once register_device has returned for a device, get_registration and get_tariff answer with the
  -- operator, the key, the time and the rate of that call, and with the status active, whatever
  -- calls follow, none authorized by the contract itself, while the token ledgers take nothing from
  -- the contract.
  pub registered_stays :
      (c : Call) (token d : Address) (k : Bytes) (o : Address) (r : ℤ) (b : Bool)
      (w w1 w2 : World T)
      → register_device host c d k o r w ≡ (ok b, w1)
      → Later host token w1 w2
      → (get_registration d w2
          ≡ some (record {
            operator = o;
            status = active;
            registered_at = c.timestamp;
            device_pubkey = k;
          }))
        × (get_tariff d w2 ≡ some (record { rate_per_unit = r }))
  registered_stays c token d k o r b w w1 w2 h later =
      Later-HasEntry token d _ _ w1 w2
        (Ensures-value _ _ b w1 (register_device-HasEntry c d k o r w) h) later
