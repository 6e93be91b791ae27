-- ===== src/Js/Decimal.antt =====
-- Printing and reading integers the way JavaScript does.
use io_t_billing_service.Base.{
  ℕ, zero, suc, ◌+◌, ◌-◌, ◌*◌, ◌/◌, ◌%◌, Bool, true, false, ◌&&◌, ◌||◌, Option, none, some, [], ◌∷◌,
  ◌++◌, Text, leb, ltb, ◌==◌, if◌then◌else◌, ℤ, pos, negsuc,
}

-- The digits of a number below 10 ^ fuel, the most significant first.
unfoldable pub digits_fuel : ℕ → ℕ → Text
digits_fuel zero n = []
digits_fuel (suc f) n =
    let front = digits_fuel f (n / 10) in
    if ltb n 10 then (48 + n) ∷ [] else front ++ (48 + n % 10) ∷ []

-- String(n) for an integer n ≥ 0, below 10 ^ 21 where n is a Number.
unfoldable pub decimal : ℕ → Text
unfolding digits_fuel
decimal n = digits_fuel (suc n) n

-- String(z) of a bigint.
unfoldable pub decimal_ℤ : ℤ → Text
unfolding decimal
decimal_ℤ (pos n) = decimal n
decimal_ℤ (negsuc n) = b'-' ∷ decimal (suc n)

-- The value of a digit of a base up to 16.
unfoldable pub digit_value : ℕ → ℕ → Option ℕ
digit_value base c =
    let v =
      if leb b'0' c && leb c b'9'
      then c - b'0'
      else if leb b'a' c && leb c b'f'
      then c - b'a' + 10
      else if leb b'A' c && leb c b'F'
      then c - b'A' + 10
      else 16 in
    if ltb v base then some v else none

-- All the characters are digits of the base; the value so far is `acc`.
unfoldable pub read_digits : ℕ → ℕ → Text → Option ℕ
unfolding digit_value
read_digits base acc [] = some acc
read_digits base acc (c ∷ s) = elim (digit_value base c) [
  | none ↦ none
  | some v ↦ read_digits base (acc * base + v) s
]

-- White space and line terminators of ECMAScript.
unfoldable pub is_space : ℕ → Bool
is_space c =
    (leb 9 c && leb c 13)
    || c == 32
    || c == 0xa0
    || c == 0xfeff
    || c == 0x1680
    || (leb 0x2000 c && leb c 0x200a)
    || c == 0x2028
    || c == 0x2029
    || c == 0x202f
    || c == 0x205f
    || c == 0x3000

unfoldable pub trim_start : Text → Text
unfolding is_space
trim_start [] = []
trim_start (c ∷ s) = elim (is_space c) [ true ↦ trim_start s | false ↦ c ∷ s ]

unfoldable pub trim_end : Text → Text
unfolding is_space
trim_end [] = []
trim_end (c ∷ s) = elim (trim_end s) [ [] ↦ if is_space c then [] else c ∷ [] | d ∷ r ↦ c ∷ d ∷ r ]

-- A sign may stand before decimal digits only.
abbrev pub negated : Option ℕ → Option ℤ
negated none = none
negated (some zero) = some (pos 0)
negated (some (suc n)) = some (negsuc n)

abbrev pub signless : Option ℕ → Option ℤ
signless none = none
signless (some n) = some (pos n)

-- At least one digit.
abbrev pub read_some : ℕ → Text → Option ℕ
read_some base [] = none
read_some base (c ∷ s) = read_digits base 0 (c ∷ s)

-- The rest of a literal that begins with 0.
unfoldable pub read_prefixed : Text → Option ℤ
unfolding read_digits
read_prefixed [] = some (pos 0)
read_prefixed (c ∷ s) =
    if c == b'x' || c == b'X'
    then signless (read_some 16 s)
    else if c == b'o' || c == b'O'
    then signless (read_some 8 s)
    else if c == b'b' || c == b'B'
    then signless (read_some 2 s)
    else signless (read_digits 10 0 (c ∷ s))

unfoldable pub read_integer : Text → Option ℤ
unfolding read_prefixed read_digits
read_integer [] = some (pos 0)
read_integer (c ∷ s) =
    if c == b'-'
    then negated (read_some 10 s)
    else if c == b'+'
    then signless (read_some 10 s)
    else if c == b'0'
    then read_prefixed s
    else signless (read_digits 10 0 (c ∷ s))

-- BigInt(s); `none` is a SyntaxError.
unfoldable pub bigint_of_text : Text → Option ℤ
unfolding trim_end trim_start read_integer
bigint_of_text s = read_integer (trim_end (trim_start s))

-- Number(s) of a text of decimal digits; `none` is NaN, and stands for every other text too.
unfoldable pub number_of_digits : Text → Option ℕ
unfolding read_digits
number_of_digits s = read_digits 10 0 s
