-- ===== src/Emulator/Hex.antt =====
-- bytes.hex() of Python and Buffer.from(s, 'hex') of Node.js.
use io_t_billing_service.Base.{
  ℕ, ◌+◌, ◌*◌, ◌/◌, ◌%◌, ◌<◌, ◌≡◌, refl, ap, ◌∙◌, Text, some, [], ◌∷◌, All, arith,
}
use io_t_billing_service.Js.{digit_value}
use io_t_billing_service.Gateway.{Bytes, hex_bytes}
use io_t_billing_service.Emulator.Device.{hex_digit, hex}

digit_value-hex_digit : (n : ℕ) → n < 16 → digit_value 16 (hex_digit n) ≡ some n
unfolding digit_value
digit_value-hex_digit n h = ground arith

hex_bytes-cons :
    (a b v w : ℕ) (s : Text)
    → digit_value 16 a ≡ some v
    → digit_value 16 b ≡ some w
    → hex_bytes (a ∷ b ∷ s) ≡ (v * 16 + w) ∷ hex_bytes s
unfolding hex_bytes
hex_bytes-cons a b v w s h k = rw (h, k, hex_bytes) refl

-- Bytes survive the way over hexadecimal text.
pub hex_bytes-hex : (bs : Bytes) → All (λ b. b < 256) bs → hex_bytes (hex bs) ≡ bs
unfolding hex
hex_bytes-hex [] h = unfold hex_bytes in refl
hex_bytes-hex (b ∷ bs) h =
    let whole : b / 16 * 16 + b % 16 ≡ b = omega arith in
    let high : b / 16 < 16 = (let k = h.0 in omega (arith, k)) in
    let low : b % 16 < 16 = omega arith in
    hex_bytes-cons _ _ (b / 16) (b % 16) (hex bs) (digit_value-hex_digit (b / 16) high)
      (digit_value-hex_digit (b % 16) low)
    ∙ ap (λ v. v ∷ hex_bytes (hex bs)) whole
    ∙ ap (λ vs. b ∷ vs) (hex_bytes-hex bs h.1)
