-- ===== src/Contract/History.antt =====
-- lib.rs: the entry points as calls on a ledger's world, and the worlds that calls lead to.
use io_t_billing_service.Base.{ℕ, ℤ, false, [], ◌≡◌, ◌≤ℤ◌}
use io_t_billing_service.Gateway.{Bytes}
use io_t_billing_service.Contract.Host.{Address, Host, Call, Result, ok, err, trap}
use io_t_billing_service.Contract.Storage.{World, empty_storage}
use io_t_billing_service.Contract.Entry.{
  register_device, deposit_funds, submit_reading, settle_balance, committed, construct,
}
use io_t_billing_service.Contract.Rules.{Ensures}

-- The entry points that change the storage, with their arguments.
pub data Operation : Type 0 where
  register : Address → Bytes → Address → ℤ → Operation
  fund : Address → ℤ → Operation
  submit : Address → ℕ → ℕ → ℕ → Bytes → Operation
  settle : Address → ℤ → Operation

module _ {T : Type 0} (host : Host T) where
  abbrev pub run : Call → Operation → World T → World T
  run c (register device_id device_pubkey operator rate_per_unit) w =
      committed w (register_device host c device_id device_pubkey operator rate_per_unit w)
  run c (fund device_id amount) w = committed w (deposit_funds host c device_id amount w)
  run c (submit device_id delta_units data_seq timestamp sig) w =
      committed w (submit_reading host c device_id delta_units data_seq timestamp sig w)
  run c (settle operator amount) w = committed w (settle_balance host c operator amount w)

  -- The worlds after `w`. A call is not authorized by the contract itself, and between calls
  -- the token ledgers change without taking from the contract.
  pub data Later (token : Address) (w : World T) : World T → Type 0 where
    now : Later token w w
    called :
        {w' : World T}
        → Later token w w'
        → (c : Call) (op : Operation) → c.authorized host.current_contract ≡ false
        → Later token w (run c op w')
    elsewhere :
        {w' : World T}
        → Later token w w'
        → (t : T)
        → host.balance token host.current_contract w'.tokens
          ≤ℤ host.balance token host.current_contract t
        → Later token w (record w' { tokens = t })

-- The world in which the contract is deployed with a token.
abbrev pub deployed : {T : Type 0} → Address → T → World T
deployed token t =
    committed (record { tokens = t; storage = empty_storage; events = [] })
      (construct token (record { tokens = t; storage = empty_storage; events = [] }))

pub committed-Ensures :
    {T A : Type 0} (P : World T → Type 0) (w : World T) (r : Result A × World T)
    → P w
    → Ensures (λ a w'. P w') r
    → P (committed w r)
unfolding Ensures
committed-Ensures P w (ok a, w') p h = h
committed-Ensures P w (err e, w') p h = p
committed-Ensures P w (trap, w') p h = p
