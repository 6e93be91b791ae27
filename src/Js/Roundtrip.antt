-- ===== src/Js/Roundtrip.antt =====
-- Reading back what was printed.
use io_t_billing_service.Base.{
  ℕ, zero, suc, ◌+◌, ◌*◌, ◌/◌, ◌%◌, ◌≤◌, ◌<◌, ◌≡◌, ◌≢◌, refl, ap, ◌∙◌, false, some, [], ◌∷◌, ◌++◌,
  Text, ltb, ◌==◌, ℤ, pos, negsuc, arith, All, Bool-cases, inl, inr,
}
use io_t_billing_service.Js.Decimal.{
  digits_fuel, decimal, decimal_ℤ, digit_value, read_digits, number_of_digits, bigint_of_text,
  read_integer, read_prefixed, trim_end, trim_start, is_space, signless,
}

digit_value_digit : (d : ℕ) → d < 10 → digit_value 10 (48 + d) ≡ some d
unfolding digit_value
digit_value_digit d h = ground arith

-- Reading goes on from the value of the digits read so far.
read_digits-append :
    (s t : Text) (acc n : ℕ)
    → read_digits 10 acc s ≡ some n
    → read_digits 10 acc (s ++ t) ≡ read_digits 10 n t
unfolding read_digits
read_digits-append [] t acc n e = ground arith
read_digits-append (c ∷ s) t acc n e = grind (arith, read_digits-append s t)

read_digits_one : (acc d : ℕ) → d < 10 → read_digits 10 acc ((48 + d) ∷ []) ≡ some (acc * 10 + d)
unfolding read_digits
read_digits_one acc d h = rw (digit_value_digit d h, read_digits) refl

read_digits-digits_fuel : (f n : ℕ) → n < f → read_digits 10 0 (digits_fuel f n) ≡ some n
unfolding digits_fuel
read_digits-digits_fuel zero n h = elim h [ ]
read_digits-digits_fuel (suc f) n h = elim (Bool-cases (ltb n 10)) [
  | inl small ↦ rw small (read_digits_one 0 n (ground arith) ∙ ap some (omega arith))
  | inr big ↦ rw big (
      read_digits-append (digits_fuel f (n / 10)) _ 0 (n / 10)
        (read_digits-digits_fuel f (n / 10) (ground arith))
      ∙ read_digits_one (n / 10) (n % 10) (omega arith)
      ∙ ap some (omega arith))
]

-- Number(String(n)) is n.
pub number_of_digits-decimal : (n : ℕ) → number_of_digits (decimal n) ≡ some n
unfolding number_of_digits decimal
number_of_digits-decimal n = read_digits-digits_fuel (suc n) n (omega arith)

abbrev pub IsDigit : ℕ → Type 0
IsDigit c = (48 ≤ c) × (c < 58)

All-append-IsDigit : (s : Text) (c : ℕ) → All IsDigit s → IsDigit c → All IsDigit (s ++ c ∷ [])
All-append-IsDigit [] c h k = (k, tt)
All-append-IsDigit (d ∷ s) c (h, hs) k = (h, All-append-IsDigit s c hs k)

pub digits_fuel-IsDigit : (f n : ℕ) → All IsDigit (digits_fuel f n)
unfolding digits_fuel
digits_fuel-IsDigit zero n = tt
digits_fuel-IsDigit (suc f) n = elim (Bool-cases (ltb n 10)) [
  | inl small ↦ rw small (ground arith)
  | inr big ↦
      rw big (
        All-append-IsDigit (digits_fuel f (n / 10)) _ (digits_fuel-IsDigit f (n / 10))
          (omega arith))
]

is_space_digit : (c : ℕ) → IsDigit c → is_space c ≡ false
unfolding is_space
is_space_digit c h = ground arith

trim_start_digits : (s : Text) → All IsDigit s → trim_start s ≡ s
unfolding trim_start
trim_start_digits [] h = refl
trim_start_digits (c ∷ s) (h, hs) = rw (is_space_digit c h, trim_start) refl

trim_end_digits : (s : Text) → All IsDigit s → trim_end s ≡ s
unfolding trim_end
trim_end_digits [] h = refl
trim_end_digits (c ∷ []) (h, hs) = rw (is_space_digit c h, trim_end) refl
trim_end_digits (c ∷ d ∷ s) (h, hs) = rw (trim_end_digits (d ∷ s) hs, trim_end) refl

read_prefixed_digits : (s : Text) → All IsDigit s → read_prefixed s ≡ signless (read_digits 10 0 s)
unfolding read_prefixed
read_prefixed_digits [] h = unfold read_digits in refl
read_prefixed_digits (c ∷ s) (h, hs) = ground arith

read_digits_zero : (s : Text) → read_digits 10 0 (b'0' ∷ s) ≡ read_digits 10 0 s
unfolding read_digits
read_digits_zero s = refl

read_integer_digits :
    (c : ℕ) (s : Text)
    → All IsDigit (c ∷ s)
    → read_integer (c ∷ s) ≡ signless (read_digits 10 0 (c ∷ s))
unfolding read_integer
read_integer_digits c s (h, hs) = elim (Bool-cases (c == b'0')) [
  | inl e ↦ ground (arith, read_prefixed_digits s hs, read_digits_zero s)
  | inr e ↦ ground arith
]

bigint_of_digits :
    (s : Text) (n : ℕ)
    → All IsDigit s
    → read_digits 10 0 s ≡ some n
    → bigint_of_text s ≡ some (pos n)
unfolding bigint_of_text
bigint_of_digits [] n h e = unfold trim_end trim_start read_integer read_digits in ground arith
bigint_of_digits (c ∷ s) n h e =
    rw (trim_start_digits (c ∷ s) h, trim_end_digits (c ∷ s) h, read_integer_digits c s h, e) refl

bigint_of_trimmed :
    (s : Text) → trim_start s ≡ s → trim_end s ≡ s → bigint_of_text s ≡ read_integer s
unfolding bigint_of_text
bigint_of_trimmed s start end = ap read_integer (ap trim_end start ∙ end)

negative_of_digits :
    (s : Text) (n : ℕ)
    → s ≢ []
    → All IsDigit s
    → read_digits 10 0 s ≡ some (suc n)
    → bigint_of_text (b'-' ∷ s) ≡ some (negsuc n)
unfolding bigint_of_text
negative_of_digits [] n ne h e = absurd (ne refl)
negative_of_digits (c ∷ s) n ne h e =
    let start : trim_start (b'-' ∷ c ∷ s) ≡ b'-' ∷ c ∷ s = unfold trim_start is_space in refl in
    let end : trim_end (b'-' ∷ c ∷ s) ≡ b'-' ∷ c ∷ s =
      unfold trim_end in rw (trim_end_digits (c ∷ s) h, trim_end) refl in
    bigint_of_trimmed _ start end ∙ (unfold read_integer in rw e refl)

append-ne-nil : (s : Text) (c : ℕ) → s ++ c ∷ [] ≢ []
append-ne-nil [] c e = cc
append-ne-nil (d ∷ s) c e = cc

digits_fuel-ne-nil : (f n : ℕ) → digits_fuel (suc f) n ≢ []
unfolding digits_fuel
digits_fuel-ne-nil f n = elim (Bool-cases (ltb n 10)) [
  | inl small ↦ rw small (λ e. cc)
  | inr big ↦ rw big (append-ne-nil (digits_fuel f (n / 10)) _)
]

-- BigInt(String(z)) is z, for every integer z.
pub bigint_of_text-decimal_ℤ : (z : ℤ) → bigint_of_text (decimal_ℤ z) ≡ some z
unfolding decimal_ℤ decimal
bigint_of_text-decimal_ℤ (pos n) =
    bigint_of_digits _ n (digits_fuel-IsDigit (suc n) n)
      (read_digits-digits_fuel (suc n) n (omega arith))
bigint_of_text-decimal_ℤ (negsuc n) =
    negative_of_digits _ n (digits_fuel-ne-nil (suc n) (suc n))
      (digits_fuel-IsDigit (suc (suc n)) (suc n))
      (read_digits-digits_fuel (suc (suc n)) (suc n) (omega arith))

-- A printed number consists of digits, at least one.
pub decimal-IsDigit : (n : ℕ) → All IsDigit (decimal n) × (decimal n ≢ [])
unfolding decimal
decimal-IsDigit n = (digits_fuel-IsDigit (suc n) n, digits_fuel-ne-nil n n)
