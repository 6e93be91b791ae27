-- ===== src/Contract/Solvency.antt =====
-- lib.rs: the contract's custody of its token, and what it owes.
use io_t_billing_service.Base.{
  ◌≡◌, ◌≢◌, refl, sym, ◌∙◌, ap, true, false, ℤ, pos, ◌+ℤ◌, ◌-ℤ◌, ◌≤ℤ◌, All, some, or_else, arith,
}
use io_t_billing_service.Contract.Host.{Address, Host, Call}
use io_t_billing_service.Contract.Storage.{
  World, Storage, DepositBalance, OperatorBalance, no_earnings, read_operator_balance, get, set,
}
use io_t_billing_service.Contract.Maps.{total, total-set}

abbrev pub outstanding : OperatorBalance → ℤ
outstanding b = b.total_earned -ℤ b.total_settled

abbrev pub deposited_amount : DepositBalance → ℤ
deposited_amount d = d.amount

abbrev pub no_deposit : DepositBalance
no_deposit = record { amount = pos 0 }

-- What the contract owes.
abbrev pub owed : Storage → ℤ
owed st = total deposited_amount st.deposits +ℤ total outstanding st.operators

module _ {T : Type 0} (host : Host T) (token : Address) where
  -- What SEP-41 promises of a transfer between two addresses.
  abbrev pub MovesTokens : Type 0
  MovesTokens =
      (from to : Address) (amount : ℤ) (t t' : T)
      → from ≢ to
      → host.transfer token from to amount t ≡ some t'
      → (host.balance token to t' ≡ host.balance token to t +ℤ amount)
        × (host.balance token from t' ≡ host.balance token from t -ℤ amount)

  pub record IsSolvent (w : World T) : Type 0 where
    pub configured : w.storage.token ≡ some token
    pub not_negative :
        All (λ (e : Address × DepositBalance). pos 0 ≤ℤ e.1.amount) w.storage.deposits
    pub not_overdrawn :
        All (λ (e : Address × OperatorBalance). pos 0 ≤ℤ outstanding e.1) w.storage.operators
    pub covered : owed w.storage ≤ℤ host.balance token host.current_contract w.tokens

pub total-outstanding-set :
    (k : Address) (v : OperatorBalance) (st : Storage)
    → total outstanding (set k v st.operators) +ℤ outstanding (read_operator_balance k st)
      ≡ total outstanding st.operators +ℤ outstanding v
unfolding ◌-ℤ◌
total-outstanding-set k v st = total-set outstanding no_earnings refl k v st.operators

pub total_deposits-set :
    (k : Address) (v : DepositBalance) (st : Storage)
    → total deposited_amount (set k v st.deposits)
        +ℤ deposited_amount (or_else (get k st.deposits) no_deposit)
      ≡ total deposited_amount st.deposits +ℤ v.amount
total_deposits-set k v st = total-set deposited_amount no_deposit refl k v st.deposits

pub no_earnings_outstanding : pos 0 ≤ℤ outstanding no_earnings
unfolding ◌-ℤ◌
no_earnings_outstanding = omega arith

pub not_contract :
    {T : Type 0} (host : Host T) (call : Call) (a : Address)
    → call.authorized host.current_contract ≡ false
    → call.authorized a ≡ true
    → a ≢ host.current_contract
not_contract host call a safe auth same =
    let clash : false ≡ true = sym safe ∙ ap call.authorized (sym same) ∙ auth in ground arith
