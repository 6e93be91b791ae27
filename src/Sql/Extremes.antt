-- ===== src/Sql/Extremes.antt =====
-- MIN and MAX of a nullable column: NULLs are passed over, and of no value the result is NULL.
use io_t_billing_service.Base.{
  Bool, Option, none, some, List, [], ◌∷◌, if◌then◌else◌, All, All-map, arith, ℤ, ◌≤ℤ◌, leb_ℤ,
}

-- The better of two values by `le`, where NULL is no value.
abbrev pub pick : (ℤ → ℤ → Bool) → Option ℤ → Option ℤ → Option ℤ
pick le none b = b
pick le (some a) none = some a
pick le (some a) (some b) = if le a b then some b else some a

unfoldable pub max_of : {A : Type 0} → (A → Option ℤ) → List A → Option ℤ
max_of f [] = none
max_of f (x ∷ xs) = pick leb_ℤ (f x) (max_of f xs)

unfoldable pub min_of : {A : Type 0} → (A → Option ℤ) → List A → Option ℤ
min_of f [] = none
min_of f (x ∷ xs) = pick (λ a b. leb_ℤ b a) (f x) (min_of f xs)

-- `a` is NULL, or it is at most the value `b`.
abbrev pub AtMost : Option ℤ → Option ℤ → Type 0
AtMost none b = Unit
AtMost (some a) none = ⊥
AtMost (some a) (some b) = a ≤ℤ b

AtMost-trans : (a b c : Option ℤ) → AtMost a b → AtMost b c → AtMost a c
AtMost-trans none b c h k = tt
AtMost-trans (some a) none c h k = absurd h
AtMost-trans (some a) (some b) none h k = absurd k
AtMost-trans (some a) (some b) (some c) h k = omega arith

pick-AtMost : (a b : Option ℤ) → AtMost a (pick leb_ℤ a b) × AtMost b (pick leb_ℤ a b)
pick-AtMost none none = (tt, tt)
pick-AtMost none (some b) = (tt, omega arith)
pick-AtMost (some a) none = (omega arith, tt)
pick-AtMost (some a) (some b) = ground arith

-- MAX is an upper bound of the column.
pub max_of-AtMost :
    {A : Type 0} (f : A → Option ℤ) (xs : List A) → All (λ x. AtMost (f x) (max_of f xs)) xs
unfolding max_of
max_of-AtMost f [] = tt
max_of-AtMost f (x ∷ xs) = (
  (pick-AtMost (f x) (max_of f xs)).0,
  All-map (λ a h. AtMost-trans (f a) (max_of f xs) _ h (pick-AtMost (f x) (max_of f xs)).1) xs
      (max_of-AtMost f xs),
)
