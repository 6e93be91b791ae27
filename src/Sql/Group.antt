-- ===== src/Sql/Group.antt =====
-- GROUP BY: the groups partition the rows, so a SUM over the groups' sums is the SUM over all.
use mathlib.Core.Path.{fun_ext, ap₂}
use io_t_billing_service.Base.{
  ◌≤◌, All, All-map, ◌≡◌, refl, ◌∙◌, ◌⊎◌, inl, inr, Bool, true, false, List, [], ◌∷◌, if◌then◌else◌,
  Bool-cases, arith, ℤ, pos, ◌+ℤ◌, int_laws, any, keep,
}
use io_t_billing_service.Sql.Keys.{Eq}
use io_t_billing_service.Sql.Order.{sum_of, count_of}

module _ {K R : Type 0} ⦃e : Eq K⦄ (key : R → K) where
  -- The distinct keys.
  unfoldable pub group_keys : List R → List K
  group_keys [] = []
  group_keys (r ∷ rs) = let ks = group_keys rs in if any (e.beq (key r)) ks then ks else key r ∷ ks

  -- The rows of one group.
  abbrev pub group_rows : K → List R → List R
  group_rows k rs = keep (λ r. e.beq (key r) k) rs

any-count_of :
    {A : Type 0} (p : A → Bool) (xs : List A)
    → (any p xs ≡ false) × (count_of p xs ≡ 0) ⊎ (any p xs ≡ true) × (1 ≤ count_of p xs)
unfolding count_of
any-count_of p [] = inl (refl, refl)
any-count_of p (x ∷ xs) = ground (arith, any-count_of p xs)

sum_of-zero : {A : Type 0} (xs : List A) → sum_of (λ (x : A). pos 0) xs ≡ pos 0
unfolding sum_of
sum_of-zero [] = refl
sum_of-zero (x ∷ xs) = rw (sum_of-zero xs) (omega int_laws)

sum_of-add :
    {A : Type 0} (f g : A → ℤ) (xs : List A)
    → sum_of (λ x. f x +ℤ g x) xs ≡ sum_of f xs +ℤ sum_of g xs
unfolding sum_of
sum_of-add f g [] = omega int_laws
sum_of-add f g (x ∷ xs) = rw (sum_of-add f g xs) (omega int_laws)

-- What holds at one place counts once, and nowhere not at all.
sum_of_none :
    {A : Type 0} (p : A → Bool) (v : ℤ) (xs : List A)
    → count_of p xs ≡ 0
    → sum_of (λ x. if p x then v else pos 0) xs ≡ pos 0
unfolding sum_of count_of
sum_of_none p v [] h = refl
sum_of_none p v (x ∷ xs) h = elim (Bool-cases (p x)) [
  | inl hit ↦ absurd (ground arith)
  | inr miss ↦ rw (miss, sum_of_none p v xs (ground arith)) (omega int_laws)
]

sum_of_once :
    {A : Type 0} (p : A → Bool) (v : ℤ) (xs : List A)
    → count_of p xs ≡ 1
    → sum_of (λ x. if p x then v else pos 0) xs ≡ v
unfolding sum_of count_of
sum_of_once p v [] h = absurd (omega arith)
sum_of_once p v (x ∷ xs) h = elim (Bool-cases (p x)) [
  | inl hit ↦ rw (hit, sum_of_none p v xs (ground arith)) (omega int_laws)
  | inr miss ↦ rw (miss, sum_of_once p v xs (ground arith)) (omega int_laws)
]

module _ {K R : Type 0} ⦃e : Eq K⦄ (key : R → K) where
  sum_of-group_cons :
      (f : R → ℤ) (r : R) (rs : List R) (k : K)
      → sum_of f (group_rows key k (r ∷ rs))
        ≡ (if e.beq (key r) k then f r else pos 0) +ℤ sum_of f (group_rows key k rs)
  unfolding sum_of
  sum_of-group_cons f r rs k = elim (Bool-cases (e.beq (key r) k)) [
    | inl same ↦ rw same refl
    | inr other ↦ rw other (omega int_laws)
  ]

  -- Over any list that holds each row's key once, the groups' sums add up to the sum.
  pub sum_of-groups :
      (f : R → ℤ) (ks : List K) (rs : List R)
      → All (λ r. count_of (e.beq (key r)) ks ≡ 1) rs
      → sum_of (λ k. sum_of f (group_rows key k rs)) ks ≡ sum_of f rs
  unfolding sum_of
  sum_of-groups f ks [] h = sum_of-zero ks
  sum_of-groups f ks (r ∷ rs) (once, h) = rw (fun_ext (sum_of-group_cons f r rs)) (
      sum_of-add (λ k. if e.beq (key r) k then f r else pos 0) (λ k. sum_of f (group_rows key k rs))
        ks
      ∙ ap₂ (λ a b. a +ℤ b) (sum_of_once (e.beq (key r)) (f r) ks once) (sum_of-groups f ks rs h))

  count_of-group_keys :
      (k : K) (rs : List R)
      → count_of (e.beq k) (group_keys key rs) ≡ (if any (λ r. e.beq k (key r)) rs then 1 else 0)
  unfolding group_keys count_of
  count_of-group_keys k [] = refl
  count_of-group_keys k (r ∷ rs) = ground (
    arith,
    e.beq_iff k (key r),
    any-count_of (e.beq (key r)) (group_keys key rs),
    count_of-group_keys k rs,
  )

  -- The key stands among those of the rows.
  abbrev IsListed : List R → R → Type 0
  IsListed xs r = any (λ s. e.beq (key r) (key s)) xs ≡ true

  All-IsListed_self : (xs : List R) → All (IsListed xs) xs
  All-IsListed_self [] = tt
  All-IsListed_self (x ∷ xs) = (
    rw ((e.beq_iff (key x) (key x)).1 refl) refl,
    All-map {P = IsListed xs} {Q = IsListed (x ∷ xs)} (λ r h. ground (arith, h)) xs
        (All-IsListed_self xs),
  )

  abbrev pub IsOnce : List K → R → Type 0
  IsOnce ks r = count_of (e.beq (key r)) ks ≡ 1

  -- Each row belongs to exactly one of the groups.
  pub All-group_keys-IsOnce : (rs : List R) → All (IsOnce (group_keys key rs)) rs
  All-group_keys-IsOnce rs =
      All-map {P = IsListed rs} {Q = IsOnce (group_keys key rs)}
        (λ r h. count_of-group_keys (key r) rs ∙ (rw h refl)) rs (All-IsListed_self rs)
