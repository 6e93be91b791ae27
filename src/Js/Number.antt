-- ===== src/Js/Number.antt =====
-- Number(z) of an integer: the nearest double, ties to the even one. Above the largest double, near
-- 2 ^ 1024, this goes on with exponents that doubles do not have.
use io_t_billing_service.Base.{
  ℕ, zero, suc, ◌+◌, ◌-◌, ◌*◌, ◌/◌, ◌%◌, ◌^◌, ◌≤◌, ◌≡◌, refl, ltb, leb, ◌==◌, ◌||◌, ◌&&◌,
  if◌then◌else◌, ℤ, pos, negsuc, pos_part, neg_part, arith,
}

-- To a multiple of `unit`.
unfoldable pub round_to : ℕ → ℕ → ℕ
round_to unit n =
    let q = n / unit in
    let r = n % unit in
    if ltb (2 * r) unit || (2 * r == unit && q % 2 == 0) then q * unit else (q + 1) * unit

-- With the least power of two for which 53 bits are enough.
unfoldable pub round_from : ℕ → ℕ → ℕ → ℕ
round_from zero unit n = n
round_from (suc fuel) unit n =
    let coarser = round_from fuel (2 * unit) n in
    if leb n (2 ^ 53 * unit) then round_to unit n else coarser

unfoldable pub rounded_ℕ : ℕ → ℕ
rounded_ℕ n = if leb n (2 ^ 53) then n else round_from 971 2 n

unfoldable pub rounded : ℤ → ℤ
rounded (pos n) = pos (rounded_ℕ n)
rounded (negsuc n) = negsuc (rounded_ℕ (suc n) - 1)

abbrev pub magnitude : ℤ → ℕ
magnitude z = pos_part z + neg_part z

-- Up to 2 ^ 53 every integer is a double.
pub rounded_exact : (z : ℤ) → magnitude z ≤ 2 ^ 53 → rounded z ≡ z
unfolding rounded rounded_ℕ
rounded_exact (pos n) h = ground (arith, h)
rounded_exact (negsuc n) h = ground (arith, h)

first_gap : rounded (pos (2 ^ 53 + 1)) ≡ pos (2 ^ 53)
unfolding rounded rounded_ℕ round_from round_to
first_gap = refl

tie_to_even : rounded (pos (2 ^ 53 + 3)) ≡ pos (2 ^ 53 + 4)
unfolding rounded rounded_ℕ round_from round_to
tie_to_even = refl
