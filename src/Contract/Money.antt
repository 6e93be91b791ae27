-- ===== src/Contract/Money.antt =====
-- The arithmetic of the contract's amounts.
use io_t_billing_service.Base.{
  ◌≡◌, sym, false, some, negsuc, ℤ, pos, ltb_ℤ, leb_ℤ, ◌+ℤ◌, ◌-ℤ◌, ◌*ℤ◌, ◌≤ℤ◌, parts_of_eq,
  int_laws, arith, ℕ,
}
use io_t_billing_service.Contract.Host.{saturating_sub, checked_128, fits_128}

pub checked_128_value : (z y : ℤ) → checked_128 z ≡ some y → z ≡ y
checked_128_value z y h = ground arith

-- A withdrawal that the check lets through is at most what is outstanding.
pub saturating_sub_bound :
    (a b amount : ℤ)
    → leb_ℤ amount (pos 0) ≡ false
    → ltb_ℤ (saturating_sub a b) amount ≡ false
    → amount ≤ℤ a -ℤ b
unfolding saturating_sub fits_128
saturating_sub_bound a b amount p h = ground arith

-- `d` is owed to devices, `o` to operators, and `c` is in custody.
pub withdraw_covered :
    (d o o' e s s' amount c c' : ℤ)
    → o' +ℤ (e -ℤ s) ≡ o +ℤ (e -ℤ s')
    → s +ℤ amount ≡ s'
    → c' ≡ c -ℤ amount
    → d +ℤ o ≤ℤ c
    → d +ℤ o' ≤ℤ c'
withdraw_covered d o o' e s s' amount c c' ho hs hc h =
    omega (int_laws, parts_of_eq _ _ ho, parts_of_eq _ _ hs, parts_of_eq _ _ hc)

pub withdraw_outstanding :
    (e s s' amount : ℤ) → s +ℤ amount ≡ s' → amount ≤ℤ e -ℤ s → pos 0 ≤ℤ e -ℤ s'
withdraw_outstanding e s s' amount hs h = omega (int_laws, parts_of_eq _ _ hs)

pub deposit_covered :
    (d d' o b b' amount c c' : ℤ)
    → d' +ℤ b ≡ d +ℤ b'
    → b +ℤ amount ≡ b'
    → c' ≡ c +ℤ amount
    → d +ℤ o ≤ℤ c
    → d' +ℤ o ≤ℤ c'
deposit_covered d d' o b b' amount c c' hd hb hc h =
    omega (int_laws, parts_of_eq _ _ hd, parts_of_eq _ _ hb, parts_of_eq _ _ hc)

pub deposit_not_negative :
    (b b' amount : ℤ) → b +ℤ amount ≡ b' → leb_ℤ amount (pos 0) ≡ false → pos 0 ≤ℤ b → pos 0 ≤ℤ b'
deposit_not_negative b b' amount hb p h = grind (int_laws, parts_of_eq _ _ hb)

pub register_covered :
    (d d' o b c : ℤ) → d' +ℤ b ≡ d +ℤ pos 0 → pos 0 ≤ℤ b → d +ℤ o ≤ℤ c → d' +ℤ o ≤ℤ c
register_covered d d' o b c hd p h = omega (int_laws, parts_of_eq _ _ hd)

pub charge_covered :
    (d d' o o' b b' e e' s cost c : ℤ)
    → d' +ℤ b ≡ d +ℤ b'
    → b -ℤ cost ≡ b'
    → o' +ℤ (e -ℤ s) ≡ o +ℤ (e' -ℤ s)
    → e +ℤ cost ≡ e'
    → d +ℤ o ≤ℤ c
    → d' +ℤ o' ≤ℤ c
charge_covered d d' o o' b b' e e' s cost c hd hb ho he h =
    omega (int_laws, parts_of_eq _ _ hd, parts_of_eq _ _ hb, parts_of_eq _ _ ho, parts_of_eq _ _ he)

pub charge_not_negative : (b b' cost : ℤ) → b -ℤ cost ≡ b' → ltb_ℤ b cost ≡ false → pos 0 ≤ℤ b'
charge_not_negative b b' cost hb h = grind (int_laws, parts_of_eq _ _ hb)

pub charge_outstanding :
    (e e' s cost : ℤ) → e +ℤ cost ≡ e' → pos 0 ≤ℤ cost → pos 0 ≤ℤ e -ℤ s → pos 0 ≤ℤ e' -ℤ s
charge_outstanding e e' s cost he p h = omega (int_laws, parts_of_eq _ _ he)

pub cost_not_negative :
    (units : ℕ) (rate cost : ℤ)
    → ltb_ℤ rate (pos 0) ≡ false
    → pos units *ℤ rate ≡ cost
    → pos 0 ≤ℤ cost
unfolding ◌*ℤ◌
cost_not_negative units (pos r) cost h e = rw (sym e) (ground arith)
cost_not_negative units (negsuc r) cost h e = ground arith
