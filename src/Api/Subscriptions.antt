-- ===== src/Api/Subscriptions.antt =====
-- Who is called when the bus publishes.
use io_t_billing_service.Base.{
  ℕ, ◌≡◌, refl, sym, ap, ◌∙◌, Bool, true, false, not, List, [], ◌∷◌, ◌++◌, any, keep, ==_iff, arith,
  Bool-cases, inl, inr, map, append-nil, append_assoc, if◌then◌else◌,
}
use io_t_billing_service.Store.{EventRow}
use io_t_billing_service.Api.Bus.{
  Called, world_of, Subscriber, has_id, subscribe, unsubscribe, publish,
}

module _ {S : Type 0} where
  keep_others :
      (fn : Subscriber S) (fs : List (Subscriber S))
      → any (has_id fn.id) fs ≡ false
      → keep (λ f. not (has_id fn.id f)) (fs ++ fn ∷ []) ≡ fs
  keep_others fn [] h = let same = (==_iff fn.id fn.id).1 refl in ground (arith, same)
  keep_others fn (f ∷ fs) h = ground (arith, keep_others fn fs)

  -- A function that was not subscribed, and is subscribed and unsubscribed again, leaves the
  -- subscribers as they were.
  unsubscribe-subscribe :
      (fn : Subscriber S) (fs : List (Subscriber S))
      → any (has_id fn.id) fs ≡ false
      → unsubscribe fn (subscribe fn fs) ≡ fs
  unfolding subscribe unsubscribe
  unsubscribe-subscribe fn fs h = rw h (keep_others fn fs h)

  subscribe_known :
      (fn : Subscriber S) (fs : List (Subscriber S)) → any (has_id fn.id) (subscribe fn fs) ≡ true
  unfolding subscribe
  subscribe_known fn fs = elim (Bool-cases (any (has_id fn.id) fs)) [
    | inl known ↦ rw (known, known) refl
    | inr new ↦ rw new (last_known fs)
  ]
    where
      last_known : (gs : List (Subscriber S)) → any (has_id fn.id) (gs ++ fn ∷ []) ≡ true
      last_known [] = let same = (==_iff fn.id fn.id).1 refl in ground (arith, same)
      last_known (g ∷ gs) = ground (arith, last_known gs)

-- The calls that a world has seen, by subscriber.
abbrev pub Log : Type 0
Log = List (ℕ × EventRow)

-- A subscriber that notes its call, and then returns or throws.
abbrev pub noting : ℕ → (EventRow → Bool) → Subscriber Log
noting id throws = record {
  id = id;
  call = λ row log.
      if throws row
      then Called.raised (log ++ (id, row) ∷ [])
      else Called.returned (log ++ (id, row) ∷ []);
}

abbrev all_noting : List (ℕ × (EventRow → Bool)) → List (Subscriber Log)
all_noting fs = map (λ f. noting f.0 f.1) fs

noted :
    (b : Bool) (log : Log) → world_of (if b then Called.raised log else Called.returned log) ≡ log
noted true log = refl
noted false log = refl

-- Publishing calls every subscriber once, in the order of subscription, whichever of them throw.
publish_calls_all :
    (row : EventRow) (fs : List (ℕ × (EventRow → Bool))) (log : Log)
    → publish row (all_noting fs) log ≡ log ++ map (λ f. (f.0, row)) fs
unfolding publish
publish_calls_all row [] log = sym (append-nil log)
publish_calls_all row (f ∷ fs) log =
    ap (publish row (all_noting fs)) (noted (f.1 row) (log ++ (f.0, row) ∷ []))
    ∙ publish_calls_all row fs (log ++ (f.0, row) ∷ [])
    ∙ append_assoc log ((f.0, row) ∷ []) _
