-- ===== src/Indexer/Coverage.antt =====
-- What a poll that overlaps with others relies on: which ledgers are covered by the cache.
use io_t_billing_service.Base.{
  ℕ, ◌≤◌, ◌≡◌, Option, none, some, List, [], ◌∷◌, ◌++◌, ltb, arith, ◌⊎◌, inl, inr, Bool-cases, All,
  All-map, All-of_append, All-of_mem,
}
use io_t_billing_service.Store.{CacheStore, get_last_ledger}
use io_t_billing_service.Indexer.Event.{Event, Setup}
use io_t_billing_service.Indexer.Poll.{higher, exceeds}
use io_t_billing_service.Indexer.Delivery.{IsBilling, IsStored}
use io_t_billing_service.Indexer.Overlap.{
  Pc, idle, started, fetching, handling, closing, writing, Complete,
}

pub some-injective : {a b : ℕ} → some a ≡ some b → a ≡ b
some-injective e = cc

module _ {X : Type 0} (env : Setup X) (OnChain : Event X → Type 0) where
  -- All billing events of the chain up to the ledger `n` are in the cache.
  abbrev pub Covered : CacheStore → ℕ → Type 0
  Covered s n = (e : Event X) → OnChain e → e.ledger ≤ n → IsBilling env e → IsStored env s e

  -- The watermark is a number, and it is covered.
  abbrev pub IsCovered : CacheStore → Type 0
  IsCovered s = (n : ℕ) × (get_last_ledger s ≡ some n) × Covered s n

  abbrev pub AllStored : CacheStore → List (Event X) → Type 0
  AllStored s = All (λ e. IsBilling env e → IsStored env s e)

  -- If there is a ledger, it is covered.
  abbrev pub IfCovered : CacheStore → Option ℕ → Type 0
  IfCovered s last = (k : ℕ) → last ≡ some k → Covered s k

  -- If there is a ledger, it is covered or among those of the events.
  abbrev pub Low : CacheStore → List (Event X) → Option ℕ → Type 0
  Low s done last =
      (k : ℕ)
      → last ≡ some k
      → Covered s k ⊎ ((m : ℕ) → All (λ (e : Event X). e.ledger ≤ m) done → k ≤ m)

  abbrev pub Ends : ℕ → List (Event X) → Option ℕ → Type 0
  Ends n seen none = Unit
  Ends n seen (some latest) = Complete env OnChain n seen latest

  -- What a poll relies on at the point where it stands.
  abbrev pub IsSafe : CacheStore → Pc X → Type 0
  IsSafe s idle = Unit
  IsSafe s (started n) = Covered s n
  IsSafe s (fetching n last done) = Covered s n × AllStored s done × Low s done last
  IsSafe s (handling n last done rest end) =
      Covered s n × AllStored s done × Low s done last × Ends n (done ++ rest) end
  IsSafe s (closing last latest) = IfCovered s last × Covered s latest
  IsSafe s (writing last latest current) = IfCovered s last × Covered s latest

  -- No stored event is lost.
  abbrev pub Keeps : CacheStore → CacheStore → Type 0
  Keeps s t = (e : Event X) → IsStored env s e → IsStored env t e

  module _ (s t : CacheStore) (keeps : Keeps s t) where
    pub Covered-Keeps : (n : ℕ) → Covered s n → Covered t n
    Covered-Keeps n h e chain below billing = keeps e (h e chain below billing)

    pub AllStored-Keeps : (es : List (Event X)) → AllStored s es → AllStored t es
    AllStored-Keeps = All-map (λ e stored billing. keeps e (stored billing))

    IfCovered-Keeps : (last : Option ℕ) → IfCovered s last → IfCovered t last
    IfCovered-Keeps last h k e = Covered-Keeps k (h k e)

    pub Low-Keeps : (done : List (Event X)) (last : Option ℕ) → Low s done last → Low t done last
    Low-Keeps done last h k e = elim (h k e) [
      | inl covered ↦ inl (Covered-Keeps k covered)
      | inr among ↦ inr among
    ]

    pub IsSafe-Keeps : (p : Pc X) → IsSafe s p → IsSafe t p
    IsSafe-Keeps idle h = tt
    IsSafe-Keeps (started n) h = Covered-Keeps n h
    IsSafe-Keeps (fetching n last done) (c, a, l) =
        (Covered-Keeps n c, AllStored-Keeps done a, Low-Keeps done last l)
    IsSafe-Keeps (handling n last done rest end) (c, a, l, f) =
        (Covered-Keeps n c, AllStored-Keeps done a, Low-Keeps done last l, f)
    IsSafe-Keeps (closing last latest) (l, c) = (IfCovered-Keeps last l, Covered-Keeps latest c)
    IsSafe-Keeps (writing last latest current) (l, c) =
        (IfCovered-Keeps last l, Covered-Keeps latest c)

  -- The end of a poll: what lies between its start and the latest ledger is stored.
  pub Complete-Covered :
      (s : CacheStore) (n latest : ℕ) (done : List (Event X))
      → Covered s n
      → AllStored s done
      → Complete env OnChain n done latest
      → Covered s latest
  Complete-Covered s n latest done before stored h e chain below billing =
      elim (Bool-cases (ltb n e.ledger)) [
        | inl above ↦ All-of_mem _ done (h.all_there e chain (ground arith) below) stored billing
        | inr under ↦ before e chain (ground arith) billing
      ]

  pub Low-IfCovered :
      (s : CacheStore) (latest : ℕ) (done : List (Event X)) (last : Option ℕ)
      → Low s done last
      → All (λ (e : Event X). e.ledger ≤ latest) done
      → Covered s latest
      → IfCovered s last
  Low-IfCovered s latest done last low bounded covered k e = elim (low k e) [
    | inl c ↦ c
    | inr among ↦ let below = among latest bounded in λ x chain under. covered x chain (omega arith)
  ]

  pub Low-higher :
      (s : CacheStore) (done : List (Event X)) (last : Option ℕ) (e : Event X)
      → Low s done last
      → Low s (done ++ e ∷ []) (higher e.ledger last)
  unfolding higher
  Low-higher s done last e low k same = elim (Bool-cases (exceeds (some e.ledger) last)) [
    | inl above ↦
        let top = some-injective (rw above at same) in
        inr (λ m all. let bound = (All-of_append _ e done all).1 in omega (arith, top, bound))
    | inr not_above ↦ elim (low k (rw not_above at same)) [
      | inl c ↦ inl c
      | inr among ↦ inr (λ m all. among m (All-of_append _ e done all).0)
    ]
  ]
