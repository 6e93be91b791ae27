-- ===== src/Base/Lists.antt =====
-- Lists measured and indexed by native numbers, and predicates on lists by recursion.
use Prim.Native.Nat.{ℕ, zero, suc, ◌+◌}
use mathlib.Core.Path.{◌≡◌, refl, sym, ◌∙◌, subst}
use mathlib.Core.Logic.{inl, inr}
use mathlib.Core.Bool.{Bool, true, false, ◌||◌, false≢true}
use mathlib.Core.Option.{Option, none, some}
use mathlib.Core.List.{List, [], ◌∷◌, ◌++◌, Memᴰ}
use native.Mathlib.Omega.{arith}
use io_t_billing_service.Base.Tests.{Bool-cases}

module _ {ℓ} {A : Type ℓ} where
  abbrev pub length : List A → ℕ
  length [] = 0
  length (x ∷ xs) = suc (length xs)

  abbrev pub get_elem? : List A → ℕ → Option A
  get_elem? [] i = none
  get_elem? (x ∷ xs) zero = some x
  get_elem? (x ∷ xs) (suc i) = get_elem? xs i

  abbrev pub take : ℕ → List A → List A
  take zero xs = []
  take (suc n) [] = []
  take (suc n) (x ∷ xs) = x ∷ take n xs

  abbrev pub drop : ℕ → List A → List A
  drop zero xs = xs
  drop (suc n) [] = []
  drop (suc n) (x ∷ xs) = drop n xs

  -- The elements that pass a test, in order.
  abbrev pub keep : (A → Bool) → List A → List A
  keep p [] = []
  keep p (x ∷ xs) = elim (p x) [ true ↦ x ∷ keep p xs | false ↦ keep p xs ]

  abbrev pub any : (A → Bool) → List A → Bool
  any p [] = false
  any p (x ∷ xs) = p x || any p xs

  -- `xs[xs.length - 1] ?? null`
  abbrev pub last? : List A → Option A
  last? [] = none
  last? (x ∷ []) = some x
  last? (x ∷ y ∷ xs) = last? (y ∷ xs)

  pub length-append : (xs ys : List A) → length (xs ++ ys) ≡ length xs + length ys
  length-append [] ys = omega arith
  length-append (x ∷ xs) ys = omega (arith, length-append xs ys)

module _ {ℓ κ} {A : Type ℓ} where
  -- Every element satisfies `P`.
  abbrev pub All : (A → Type κ) → List A → Type κ
  All P [] = Unit
  All P (x ∷ xs) = P x × All P xs

module _ {ℓ κ μ} {A : Type ℓ} {P : A → Type κ} {Q : A → Type μ} where
  pub All-map : ((a : A) → P a → Q a) → (xs : List A) → All P xs → All Q xs
  All-map f [] h = tt
  All-map f (x ∷ xs) (h, hs) = (f x h, All-map f xs hs)

module _ {ℓ κ} {A : Type ℓ} (P : A → Type κ) where
  pub All-append : (x : A) (xs : List A) → All P xs → P x → All P (xs ++ x ∷ [])
  All-append x [] h p = (p, tt)
  All-append x (y ∷ xs) h p = (h.0, All-append x xs h.1 p)

  pub All-of_append : (x : A) (xs : List A) → All P (xs ++ x ∷ []) → All P xs × P x
  All-of_append x [] h = (tt, h.0)
  All-of_append x (y ∷ xs) h = let (before, last) = All-of_append x xs h.1 in ((h.0, before), last)

  pub All-of_mem : {x : A} (xs : List A) → Memᴰ x xs → All P xs → P x
  All-of_mem [] m h = elim m [ ]
  All-of_mem (y ∷ xs) (Memᴰ.head e) h = subst P (sym e) h.0
  All-of_mem (y ∷ xs) (Memᴰ.tail m) h = All-of_mem xs m h.1

module _ {ℓ} {A : Type ℓ} (p : A → Bool) where
  pub keep-cons_true : (x : A) (xs : List A) → p x ≡ true → keep p (x ∷ xs) ≡ x ∷ keep p xs
  keep-cons_true x xs e = rw (e, keep) refl

  pub keep-cons_false : (x : A) (xs : List A) → p x ≡ false → keep p (x ∷ xs) ≡ keep p xs
  keep-cons_false x xs e = rw (e, keep) refl

module _ {A : Type 0} (P : A → Type 0) (p : A → Bool) where
  -- What holds of all that a test keeps holds of all that pass the test.
  pub All-of_keep : (xs : List A) → All P (keep p xs) → All (λ x. p x ≡ true → P x) xs
  All-of_keep [] h = tt
  All-of_keep (x ∷ xs) h = elim (Bool-cases (p x)) [
    | inl pass ↦
        let h' = subst (All P) (keep-cons_true p x xs pass) h in ((λ _. h'.0), All-of_keep xs h'.1)
    | inr fail ↦ (
      (λ pass. absurd (false≢true (sym fail ∙ pass))),
      All-of_keep xs (subst (All P) (keep-cons_false p x xs fail) h),
    )
  ]

module _ {ℓ} {A : Type ℓ} where
  abbrev pub replicate : ℕ → A → List A
  replicate zero a = []
  replicate (suc n) a = a ∷ replicate n a
