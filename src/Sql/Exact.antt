-- ===== src/Sql/Exact.antt =====
-- Sums whose terms are small enough for doubles and 64-bit integers to hold them exactly.
use io_t_billing_service.Base.{
  ◌+◌, ◌^◌, ◌≤◌, ◌≡◌, refl, ap, ◌∙◌, Bool, List, [], ◌∷◌, ℤ, pos, ◌+ℤ◌, ◌≤ℤ◌, int_laws, arith, keep,
  Bool-cases, inl, inr, keep-cons_true, keep-cons_false,
}
use io_t_billing_service.Js.{rounded, magnitude, rounded_exact}
use io_t_billing_service.Sql.Order.{sum_of}

pub magnitude-add_le : (a b : ℤ) → magnitude (a +ℤ b) ≤ magnitude a + magnitude b
unfolding ◌+ℤ◌
magnitude-add_le a b = ground arith

magnitude-add :
    (a b c : ℤ) → pos (magnitude b) ≤ℤ c → pos (magnitude (a +ℤ b)) ≤ℤ pos (magnitude a) +ℤ c
unfolding ◌+ℤ◌
magnitude-add a b c h = ground (arith, h)

module _ {A : Type 0} where
  -- The sum of the terms without their signs.
  abbrev pub size : (A → ℤ) → List A → ℤ
  size f xs = sum_of (λ x. pos (magnitude (f x))) xs

  -- No sum of some of the terms is beyond 2 ^ 53.
  abbrev pub IsSmall : (A → ℤ) → List A → Type 0
  IsSmall f xs = size f xs ≤ℤ pos (2 ^ 53)

  pub size_not_negative : (f : A → ℤ) (xs : List A) → pos 0 ≤ℤ size f xs
  unfolding sum_of
  size_not_negative f [] = omega arith
  size_not_negative f (x ∷ xs) = let h = size_not_negative f xs in omega (int_laws, h)

  pub size-keep : (f : A → ℤ) (p : A → Bool) (xs : List A) → size f (keep p xs) ≤ℤ size f xs
  size-keep f p [] = omega arith
  size-keep f p (x ∷ xs) =
      let h = size-keep f p xs in
      let split : size f (x ∷ xs) ≡ pos (magnitude (f x)) +ℤ size f xs = unfold sum_of in refl in
      elim (Bool-cases (p x)) [
        | inl pass ↦
            let kept = ap (size f) (keep-cons_true p x xs pass) in
            let split' : size f (x ∷ keep p xs) ≡ pos (magnitude (f x)) +ℤ size f (keep p xs) =
              unfold sum_of in refl in
            rw (kept, split, split') (omega (int_laws, h))
        | inr fail ↦
            let kept = ap (size f) (keep-cons_false p x xs fail) in
            rw (kept, split) (omega (int_laws, h))
      ]

  -- A sum is no larger than the size.
  pub sum_of-size : (f : A → ℤ) (xs : List A) → pos (magnitude (sum_of f xs)) ≤ℤ size f xs
  unfolding sum_of
  sum_of-size f [] = omega arith
  sum_of-size f (x ∷ xs) =
      let h = sum_of-size f xs in magnitude-add (f x) (sum_of f xs) (size f xs) h

  pub IsSmall-keep : (f : A → ℤ) (p : A → Bool) (xs : List A) → IsSmall f xs → IsSmall f (keep p xs)
  IsSmall-keep f p xs h = let k = size-keep f p xs in omega (int_laws, h, k)

  pub rounded-sum_of :
      (f : A → ℤ) (xs : List A) → IsSmall f xs → rounded (sum_of f xs) ≡ sum_of f xs
  rounded-sum_of f xs h =
      let k = sum_of-size f xs in rounded_exact (sum_of f xs) (omega (int_laws, h, k))

  term-IsSmall :
      (f : A → ℤ) (x : A) (xs : List A)
      → IsSmall f (x ∷ xs)
      → (magnitude (f x) ≤ 2 ^ 53) × IsSmall f xs
  unfolding sum_of
  term-IsSmall f x xs h =
      let k = size_not_negative f xs in (omega (int_laws, h, k), omega (int_laws, h, k))

  -- Each term is a double, then.
  pub sum_of-rounded :
      (f : A → ℤ) (xs : List A)
      → IsSmall f xs
      → (sum_of (λ x. rounded (f x)) xs ≡ sum_of f xs) × (size (λ x. rounded (f x)) xs ≡ size f xs)
  unfolding sum_of
  sum_of-rounded f [] h = (refl, refl)
  sum_of-rounded f (x ∷ xs) h =
      let (here, rest) = term-IsSmall f x xs h in
      let (sums, sizes) = sum_of-rounded f xs rest in
      let e = rounded_exact (f x) here in
      (
        ap (λ z. z +ℤ sum_of (λ x. rounded (f x)) xs) e ∙ ap (λ z. f x +ℤ z) sums,
        ap (λ z. pos (magnitude z) +ℤ size (λ x. rounded (f x)) xs) e
            ∙ ap (λ z. pos (magnitude (f x)) +ℤ z) sizes,
      )
