-- ===== src/Contract/Maps.antt =====
-- The laws of the storage's maps: what a write leaves for each key, and how it changes a sum.
use io_t_billing_service.Base.{
  ◌≡◌, refl, some, [], ◌∷◌, ℤ, pos, arith, ◌==◌, if◌then◌else◌, ◌+ℤ◌, int_laws, or_else, Bool-cases,
  inl, inr, All, parts_of_eq,
}
use io_t_billing_service.Sql.{sum_of}
use io_t_billing_service.Contract.Host.{Address}
use io_t_billing_service.Contract.Storage.{Map, get, set}

module _ {V : Type 0} where
  pub get-set :
      (j k : Address) (v : V) (m : Map V) → get j (set k v m) ≡ (if k == j then some v else get j m)
  unfolding get set
  get-set j k v [] = refl
  get-set j k v ((i, u) ∷ m) = ground (arith, get-set j k v m)

  abbrev pub total : (V → ℤ) → Map V → ℤ
  total f m = sum_of (λ (e : Address × V). f e.1) m

  -- A write changes a sum by the difference to what the key had, `d` for nothing.
  pub total-set :
      (f : V → ℤ) (d : V)
      → f d ≡ pos 0
      → (k : Address) (v : V) (m : Map V)
      → total f (set k v m) +ℤ f (or_else (get k m) d) ≡ total f m +ℤ f v
  unfolding get set sum_of
  total-set f d z k v [] = rw z (omega int_laws)
  total-set f d z k v ((i, u) ∷ m) = elim (Bool-cases (i == k)) [
    | inl same ↦ rw same (omega int_laws)
    | inr other ↦ rw other (let h = parts_of_eq _ _ (total-set f d z k v m) in omega (int_laws, h))
  ]

  pub All-set :
      (P : V → Type 0) (k : Address) (v : V)
      → P v
      → (m : Map V) → All (λ (e : Address × V). P e.1) m
      → All (λ (e : Address × V). P e.1) (set k v m)
  unfolding set
  All-set P k v p [] h = (p, tt)
  All-set P k v p ((i, u) ∷ m) h = elim (Bool-cases (i == k)) [
    | inl same ↦ rw same (p, h.1)
    | inr other ↦ rw other (h.0, All-set P k v p m h.1)
  ]

  pub or_else-All :
      (P : V → Type 0) (d : V)
      → P d
      → (k : Address) (m : Map V) → All (λ (e : Address × V). P e.1) m
      → P (or_else (get k m) d)
  unfolding get
  or_else-All P d z k [] h = z
  or_else-All P d z k ((i, u) ∷ m) h = elim (Bool-cases (i == k)) [
    | inl same ↦ rw same h.0
    | inr other ↦ rw other (or_else-All P d z k m h.1)
  ]
