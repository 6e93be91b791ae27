-- ===== src/Gateway/Buffers.antt =====
-- Buffers as lists of bytes: Buffer.from(s, 'hex') and writeBigUInt64BE.
use io_t_billing_service.Base.{
  ℕ, zero, suc, ◌+◌, ◌*◌, ◌/◌, ◌%◌, Option, none, some, List, [], ◌∷◌, ◌++◌, Text,
}
use io_t_billing_service.Js.{digit_value}

abbrev pub Bytes : Type 0
Bytes = List ℕ

-- The low `width` bytes of a number, the most significant first.
unfoldable pub be_bytes : ℕ → ℕ → Bytes
be_bytes zero n = []
be_bytes (suc width) n = be_bytes width (n / 256) ++ (n % 256) ∷ []

-- `u64be(n)` for a number below 2 ^ 64.
abbrev pub u64be : ℕ → Bytes
u64be n = be_bytes 8 n

abbrev pub hex_pair : Option ℕ → Option ℕ → Option ℕ
hex_pair (some a) (some b) = some (a * 16 + b)
hex_pair _ _ = none

-- Buffer.from(s, 'hex'): it ends before the first pair that is not hexadecimal, and drops an odd
-- digit at the end.
unfoldable pub hex_bytes : Text → Bytes
hex_bytes [] = []
hex_bytes (a ∷ []) = []
hex_bytes (a ∷ b ∷ s) = elim (hex_pair (digit_value 16 a) (digit_value 16 b)) [
  | none ↦ []
  | some v ↦ v ∷ hex_bytes s
]
