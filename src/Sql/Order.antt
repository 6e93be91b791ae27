-- ===== src/Sql/Order.antt =====
-- ORDER BY as a stable insertion sort by a test `le`.
use io_t_billing_service.Base.{
  ◌++◌, ℕ, suc, ◌≡◌, refl, ◌∙◌, ap, inl, inr, Bool, true, false, List, [], ◌∷◌, if◌then◌else◌,
  Bool-cases, arith, All, ℤ, pos, ◌+ℤ◌, int_laws,
}

module _ {A : Type 0} (le : A → A → Bool) where
  unfoldable pub insert_by : A → List A → List A
  insert_by x [] = x ∷ []
  insert_by x (y ∷ ys) = if le x y then x ∷ y ∷ ys else y ∷ insert_by x ys

  unfoldable pub order_by : List A → List A
  unfolding insert_by
  order_by [] = []
  order_by (x ∷ xs) = insert_by x (order_by xs)

  -- Each row is `le` the one after it.
  abbrev pub IsOrdered : List A → Type 0
  IsOrdered [] = Unit
  IsOrdered (x ∷ []) = Unit
  IsOrdered (x ∷ y ∷ ys) = (le x y ≡ true) × IsOrdered (y ∷ ys)

  module _ (total : (a b : A) → le a b ≡ false → le b a ≡ true) where
    insert_by-IsOrdered_cons :
        (x y : A) (ys : List A)
        → le y x ≡ true
        → IsOrdered (y ∷ ys)
        → IsOrdered (insert_by x ys)
        → IsOrdered (y ∷ insert_by x ys)
    unfolding insert_by
    insert_by-IsOrdered_cons x y [] yx o i = (yx, tt)
    insert_by-IsOrdered_cons x y (z ∷ zs) yx o i = ground arith

    insert_by-IsOrdered : (x : A) (ys : List A) → IsOrdered ys → IsOrdered (insert_by x ys)
    unfolding insert_by
    insert_by-IsOrdered x [] o = tt
    insert_by-IsOrdered x (y ∷ []) o = ground (arith, total x y)
    insert_by-IsOrdered x (y ∷ z ∷ zs) o = elim (Bool-cases (le x y)) [
      | inl before ↦ rw before (before, o)
      | inr after ↦ rw after (
          insert_by-IsOrdered_cons x y (z ∷ zs) (total x y after) o
            (insert_by-IsOrdered x (z ∷ zs) o.1))
    ]

    pub order_by-IsOrdered : (xs : List A) → IsOrdered (order_by xs)
    unfolding order_by
    order_by-IsOrdered [] = tt
    order_by-IsOrdered (x ∷ xs) = insert_by-IsOrdered x (order_by xs) (order_by-IsOrdered xs)

  -- Rows that are in order already stay as they are.
  pub order_by_of_IsOrdered : (xs : List A) → IsOrdered xs → order_by xs ≡ xs
  unfolding order_by
  order_by_of_IsOrdered [] o = refl
  order_by_of_IsOrdered (x ∷ []) o = refl
  order_by_of_IsOrdered (x ∷ y ∷ ys) (h, o) =
      ap (insert_by x) (order_by_of_IsOrdered (y ∷ ys) o) ∙ (unfold insert_by in rw h refl)

-- The sum of a column, before SUM gives it the type of its result.
unfoldable pub sum_of : {A : Type 0} → (A → ℤ) → List A → ℤ
sum_of f [] = pos 0
sum_of f (x ∷ xs) = f x +ℤ sum_of f xs

-- How often a test holds.
unfoldable pub count_of : {A : Type 0} → (A → Bool) → List A → ℕ
count_of p [] = 0
count_of p (x ∷ xs) = if p x then suc (count_of p xs) else count_of p xs

module _ {A : Type 0} (le : A → A → Bool) where
  sum_of-insert_by :
      (f : A → ℤ) (x : A) (ys : List A) → sum_of f (insert_by le x ys) ≡ f x +ℤ sum_of f ys
  unfolding insert_by sum_of
  sum_of-insert_by f x [] = refl
  sum_of-insert_by f x (y ∷ ys) = elim (Bool-cases (le x y)) [
    | inl before ↦ rw before refl
    | inr after ↦ rw (after, sum_of-insert_by f x ys) (omega int_laws)
  ]

  -- Sorting does not change a sum.
  pub sum_of-order_by : (f : A → ℤ) (xs : List A) → sum_of f (order_by le xs) ≡ sum_of f xs
  unfolding order_by sum_of
  sum_of-order_by f [] = refl
  sum_of-order_by f (x ∷ xs) =
      sum_of-insert_by f x (order_by le xs) ∙ ap (λ t. f x +ℤ t) (sum_of-order_by f xs)

  count_of-insert_by :
      (p : A → Bool) (x : A) (ys : List A) → count_of p (insert_by le x ys) ≡ count_of p (x ∷ ys)
  unfolding insert_by count_of
  count_of-insert_by p x [] = refl
  count_of-insert_by p x (y ∷ ys) = elim (Bool-cases (le x y)) [
    | inl before ↦ rw before refl
    | inr after ↦ rw (after, count_of-insert_by p x ys) (ground arith)
  ]

  -- Sorting keeps how often each test holds, so it keeps the rows.
  pub count_of-order_by : (p : A → Bool) (xs : List A) → count_of p (order_by le xs) ≡ count_of p xs
  unfolding order_by count_of
  count_of-order_by p [] = refl
  count_of-order_by p (x ∷ xs) =
      count_of-insert_by p x (order_by le xs)
      ∙ ap (λ n. if p x then suc n else n) (count_of-order_by p xs)

  All-insert_by :
      (P : A → Type 0) (x : A) (ys : List A) → P x → All P ys → All P (insert_by le x ys)
  unfolding insert_by
  All-insert_by P x [] p h = (p, tt)
  All-insert_by P x (y ∷ ys) p h = elim (Bool-cases (le x y)) [
    | inl before ↦ rw before (p, h)
    | inr after ↦ rw after (h.0, All-insert_by P x ys p h.1)
  ]

  -- Sorting keeps what holds of every row.
  pub All-order_by : (P : A → Type 0) (xs : List A) → All P xs → All P (order_by le xs)
  unfolding order_by
  All-order_by P [] h = tt
  All-order_by P (x ∷ xs) h = All-insert_by P x (order_by le xs) h.0 (All-order_by P xs h.1)

pub sum_of-append_one :
    {A : Type 0} (f : A → ℤ) (xs : List A) (x : A) → sum_of f (xs ++ x ∷ []) ≡ sum_of f xs +ℤ f x
unfolding sum_of
sum_of-append_one f [] x = omega int_laws
sum_of-append_one f (y ∷ xs) x = rw (sum_of-append_one f xs x) (omega int_laws)
