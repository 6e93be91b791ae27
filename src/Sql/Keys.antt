-- ===== src/Sql/Keys.antt =====
-- Equality of the values by which rows are grouped.
use io_t_billing_service.Base.{
  ◌≡◌, ◌↔◌, Bool, true, false, Option, none, some, Text, text_eq, text_eq_iff, arith,
}

pub record Eq (K : Type 0) : Type 0 where
  pub beq : K → K → Bool
  pub beq_iff : (a b : K) → (beq a b ≡ true) ↔ (a ≡ b)

instance abbrev pub text_key : Eq Text
text_key = record { beq = text_eq; beq_iff = text_eq_iff }

-- GROUP BY puts the NULLs in one group.
abbrev pub null_eq : Option Text → Option Text → Bool
null_eq none none = true
null_eq none (some b) = false
null_eq (some a) none = false
null_eq (some a) (some b) = text_eq a b

pub null_eq_iff : (a b : Option Text) → (null_eq a b ≡ true) ↔ (a ≡ b)
null_eq_iff none none = ground arith
null_eq_iff none (some b) = ground arith
null_eq_iff (some a) none = ground arith
null_eq_iff (some a) (some b) = ground (arith, text_eq_iff a b)

instance abbrev pub nullable_key : Eq (Option Text)
nullable_key = record { beq = null_eq; beq_iff = null_eq_iff }
