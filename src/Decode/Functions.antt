-- ===== src/Decode/Functions.antt =====
-- scvalToString, scvalToBigInt and unwrapVec.
use io_t_billing_service.Base.{
  Bool, true, false, ◌&&◌, Option, none, some, List, [], ◌∷◌, map, Text, text, text_eq, ℤ, pos, leb,
  ◌==◌, if◌then◌else◌, any,
}
use io_t_billing_service.Js.{decimal_ℤ, bigint_of_text}
use io_t_billing_service.Decode.Values.{
  number_text, bigint_of_number, Native, text_value, bigint, number, boolean, null_value, object,
  ScVal, falsy, xdr, plain, Field, undefined, null, str, num, big, array, elements, Sdk,
}

-- String(n)
unfoldable pub native_text : Native → Text
native_text (text_value t) = t
native_text (bigint z) = decimal_ℤ z
native_text (number n) = number_text n
native_text (boolean true) = text "true"
native_text (boolean false) = text "false"
native_text null_value = text "null"
native_text (object t) = t

-- `typeof n === 'bigint' ? n : BigInt(n ?? 0)`
unfoldable pub native_bigint : Native → Option ℤ
native_bigint (text_value t) = bigint_of_text t
native_bigint (bigint z) = some z
native_bigint (number n) = bigint_of_number n
native_bigint (boolean true) = some (pos 1)
native_bigint (boolean false) = some (pos 0)
native_bigint null_value = some (pos 0)
native_bigint (object t) = bigint_of_text t

abbrev pub has_type : Option Text → List Text → Bool
has_type none names = false
has_type (some t) names = any (text_eq t) names

-- The body of the `try` and its `catch`.
abbrev pub text_or_null : {X : Type 0} → Option Native → Field X
text_or_null none = null
text_or_null (some n) = str (native_text n)

abbrev pub caught : Option ℤ → ℤ
caught none = pos 0
caught (some z) = z

abbrev pub bigint_or_zero : Option Native → ℤ
bigint_or_zero none = pos 0
bigint_or_zero (some n) = caught (native_bigint n)

-- `val.value ?? null`
abbrev pub value_or_null : {X : Type 0} → Field X → Field X
value_or_null undefined = null
value_or_null v = v

abbrev pub string_or_null : {X : Type 0} → Field X → Field X
string_or_null (str t) = str t
string_or_null (num n) = str (number_text n)
string_or_null _ = null

abbrev pub string_types : List Text
string_types = text "address" ∷ text "scv_string" ∷ text "symbol" ∷ []

abbrev pub integer_types : List Text
integer_types = text "i64" ∷ text "u64" ∷ text "i128" ∷ text "u128" ∷ text "i256" ∷ text "u256" ∷ []

-- /^-?\d+$/
unfoldable pub all_digits : Text → Bool
all_digits [] = true
all_digits (c ∷ s) = (leb b'0' c && leb c b'9') && all_digits s

unfoldable pub is_integer_text : Text → Bool
is_integer_text [] = false
is_integer_text (c ∷ []) = leb b'0' c && leb c b'9'
is_integer_text (c ∷ d ∷ s) = if c == b'-' then all_digits (d ∷ s) else all_digits (c ∷ d ∷ s)

-- A string value that is no integer by its `type`.
abbrev pub untyped_bigint : Text → Option ℤ
untyped_bigint t = if is_integer_text t then bigint_of_text t else some (pos 0)

unfoldable pub plain_bigint : {X : Type 0} → Option Text → Field X → Option ℤ
plain_bigint type (str t) =
    if has_type type integer_types then bigint_of_text t else untyped_bigint t
plain_bigint type (num n) = bigint_of_number n
plain_bigint type (big z) = some z
plain_bigint type _ = some (pos 0)

module _ {X : Type 0} (sdk : Sdk X) where
  unfoldable pub scval_to_string : ScVal X → Field X
  scval_to_string falsy = null
  scval_to_string (xdr x) = text_or_null (sdk.to_native x)
  scval_to_string (plain type v) =
      if has_type type string_types then value_or_null v else string_or_null v

  -- `none` is an exception: BigInt refuses what is no integer.
  unfoldable pub scval_to_bigint : ScVal X → Option ℤ
  scval_to_bigint falsy = some (pos 0)
  scval_to_bigint (xdr x) = some (bigint_or_zero (sdk.to_native x))
  scval_to_bigint (plain type v) = plain_bigint type v

  -- `none` is null. A plain object's `type` makes no difference.
  unfoldable pub unwrap_vec : ScVal X → Option (List (ScVal X))
  unwrap_vec falsy = none
  unwrap_vec (xdr x) = if sdk.is_vec x then some (map xdr (sdk.vec x)) else none
  unwrap_vec (plain type (array t vs)) = some (elements vs)
  unwrap_vec (plain type _) = none
