-- ===== src/Decode/Numerals.antt =====
-- decode.js: integers as decimal strings.
use io_t_billing_service.Base.{
  suc, [], ◌∷◌, All, ◌≢◌, ◌≡◌, refl, true, Option, some, Text, ℤ, arith, pos, negsuc, Bool-cases,
  inl, inr,
}
use io_t_billing_service.Js.{decimal_ℤ, bigint_of_text-decimal_ℤ, IsDigit, decimal-IsDigit}
use io_t_billing_service.Decode.Values.{xdr, plain, str, Sdk}
use io_t_billing_service.Decode.Functions.{
  all_digits, has_type, integer_types, is_integer_text, plain_bigint, scval_to_bigint,
}

all_digits-IsDigit : (s : Text) → All IsDigit s → all_digits s ≡ true
unfolding all_digits
all_digits-IsDigit [] h = refl
all_digits-IsDigit (c ∷ s) (h, hs) = ground (arith, all_digits-IsDigit s hs)

is_integer_text_digits : (s : Text) → All IsDigit s → s ≢ [] → is_integer_text s ≡ true
unfolding is_integer_text
is_integer_text_digits [] h ne = absurd (ne refl)
is_integer_text_digits (c ∷ []) (h, hs) ne = ground arith
is_integer_text_digits (c ∷ d ∷ s) h ne = ground (arith, all_digits-IsDigit (c ∷ d ∷ s) h)

is_integer_text_negative : (s : Text) → All IsDigit s → s ≢ [] → is_integer_text (b'-' ∷ s) ≡ true
unfolding is_integer_text
is_integer_text_negative [] h ne = absurd (ne refl)
is_integer_text_negative (c ∷ s) h ne = all_digits-IsDigit (c ∷ s) h

is_integer_text-decimal_ℤ : (z : ℤ) → is_integer_text (decimal_ℤ z) ≡ true
unfolding decimal_ℤ
is_integer_text-decimal_ℤ (pos n) =
    is_integer_text_digits _ (decimal-IsDigit n).0 (decimal-IsDigit n).1
is_integer_text-decimal_ℤ (negsuc n) =
    is_integer_text_negative _ (decimal-IsDigit (suc n)).0 (decimal-IsDigit (suc n)).1

-- A plain value that holds a decimal string decodes to its integer, of whatever sign and size and
-- whatever `type` it states.
pub scval_to_bigint-decimal_ℤ :
    {X : Type 0} (sdk : Sdk X) (type : Option Text) (z : ℤ)
    → scval_to_bigint sdk (plain type (str (decimal_ℤ z))) ≡ some z
unfolding scval_to_bigint plain_bigint
scval_to_bigint-decimal_ℤ sdk type z = elim (Bool-cases (has_type type integer_types)) [
  | inl typed ↦ rw (typed, bigint_of_text-decimal_ℤ z) refl
  | inr untyped ↦ rw (untyped, is_integer_text-decimal_ℤ z, bigint_of_text-decimal_ℤ z) refl
]

-- An XDR value never raises an exception: what cannot be read counts as 0.
pub scval_to_bigint-xdr :
    {X : Type 0} (sdk : Sdk X) (x : X) → (z : ℤ) × (scval_to_bigint sdk (xdr x) ≡ some z)
unfolding scval_to_bigint
scval_to_bigint-xdr sdk x = (_, refl)
