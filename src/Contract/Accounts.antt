-- ===== src/Contract/Accounts.antt =====
-- lib.rs: the events of the contract as a journal of accounts.
use io_t_billing_service.Base.{
  ◌≡◌, refl, ℤ, pos, ◌+ℤ◌, ◌-ℤ◌, Option, none, some, List, [], ◌∷◌, ◌++◌, ◌==◌, if◌then◌else◌,
}
use io_t_billing_service.Contract.Host.{Address}
use io_t_billing_service.Contract.Storage.{Event, device_registered, deposited, meter, settlement}

-- The operator of each device, what each device has left and what each operator can claim.
pub record Accounts : Type 0 where
  pub operator_of : Address → Option Address
  pub held : Address → ℤ
  pub claim : Address → ℤ

abbrev pub no_accounts : Accounts
no_accounts = record { operator_of = λ a. none; held = λ a. pos 0; claim = λ a. pos 0 }

abbrev pub updated : {A : Type 0} → (Address → A) → Address → A → Address → A
updated f k v j = if j == k then v else f j

-- The claims once the operator, if there is one, has earned the cost.
abbrev pub credited : Option Address → ℤ → (Address → ℤ) → Address → ℤ
credited none cost claim = claim
credited (some o) cost claim = updated claim o (claim o +ℤ cost)

-- What an event says of the accounts. The balances that events carry are not read.
unfoldable pub post : Event → Accounts → Accounts
post (device_registered d o rate) a = record a {
  operator_of = updated a.operator_of d (some o);
  held = updated a.held d (pos 0);
}
post (deposited d amount balance) a = record a { held = updated a.held d (a.held d +ℤ amount) }
post (meter d units cost balance seq time) a = record a {
  held = updated a.held d (a.held d -ℤ cost);
  claim = credited (a.operator_of d) cost a.claim;
}
post (settlement o amount) a = record a { claim = updated a.claim o (a.claim o -ℤ amount) }

abbrev pub posted : List Event → Accounts → Accounts
posted [] a = a
posted (e ∷ es) a = posted es (post e a)

pub posted-append_one :
    (es : List Event) (e : Event) (a : Accounts) → posted (es ++ e ∷ []) a ≡ post e (posted es a)
posted-append_one [] e a = refl
posted-append_one (x ∷ es) e a = posted-append_one es e (post x a)
