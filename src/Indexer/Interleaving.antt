-- ===== src/Indexer/Interleaving.antt =====
-- Polls that overlap: what each step of a poll leaves to all polls.
use mathlib.Core.Path.{subst}
use io_t_billing_service.Base.{
  ℕ, ◌≡◌, refl, sym, ◌∙◌, Bool, true, false, Option, none, some, List, [], ◌∷◌, ◌++◌, append_assoc,
  append-nil, ◌==◌, if◌then◌else◌, inl, inr, Bool-cases, All-append,
}
use io_t_billing_service.Store.{CacheStore, set_last_ledger}
use io_t_billing_service.Store.Watermark.{get_last_ledger-set_last_ledger}
use io_t_billing_service.Indexer.Event.{Event, State, Setup, handled, raised, handle_event}
use io_t_billing_service.Indexer.Poll.{higher, new_watermark, exceeds, set_if}
use io_t_billing_service.Indexer.Handling.{Grows, handle_event-Grows}
use io_t_billing_service.Indexer.Keeping.{handled_state}
use io_t_billing_service.Indexer.Delivery.{Grows-IsStored, handle_event_stores}
use io_t_billing_service.Indexer.Progress.{get_last_ledger-Grows, set_if_keeps_events}
use io_t_billing_service.Indexer.Overlap.{
  Pc, idle, handling, Complete, Move, begins, reads, fails, answers, answers_last, handles, raises,
  goes_on, ends, rereads, writes, System, update, Reach, here, moves,
}
use io_t_billing_service.Indexer.Coverage.{
  some-injective, Covered, IsCovered, IfCovered, Ends, IsSafe, Keeps, Covered-Keeps,
  AllStored-Keeps, Low-Keeps, IsSafe-Keeps, Complete-Covered, Low-IfCovered, Low-higher,
}

module _ {X : Type 0} (env : Setup X) (OnChain : Event X → Type 0) where
  -- What a step has to leave: a covered watermark, every other poll's facts, and its own.
  record Kept (s t : CacheStore) (p : Pc X) : Type 0 where
    pub keeps : Keeps env OnChain s t
    pub covered : IsCovered env OnChain t
    pub safe : IsSafe env OnChain t p

  same_store :
      (s : CacheStore) (p : Pc X) → IsCovered env OnChain s → IsSafe env OnChain s p → Kept s s p
  same_store s p c h = record { keeps = λ e stored. stored; covered = c; safe = h }

  Grows-IsCovered :
      {s t : CacheStore} → Grows s t → IsCovered env OnChain s → IsCovered env OnChain t
  Grows-IsCovered {s} {t} g (n, at, c) = (
    n,
    get_last_ledger-Grows g ∙ at,
    Covered-Keeps env OnChain s t (λ e. Grows-IsStored env e g) n c,
  )

  handle_event-Grows_to :
      (e : Event X) (st st' : State) (b : Bool)
      → handle_event env e st ≡ (if b then handled st' else raised st')
      → Grows st.store st'.store
  handle_event-Grows_to e st st' true h =
      subst (λ o. Grows st.store (handled_state o).store) h (handle_event-Grows env e st)
  handle_event-Grows_to e st st' false h =
      subst (λ o. Grows st.store (handled_state o).store) h (handle_event-Grows env e st)

  handles-Kept :
      (n : ℕ) (last : Option ℕ) (done rest : List (Event X)) (end : Option ℕ) (st st' : State)
      (e : Event X)
      → handle_event env e st ≡ handled st'
      → IsCovered env OnChain st.store
      → IsSafe env OnChain st.store (handling n last done (e ∷ rest) end)
      → Kept st.store st'.store (handling n (higher e.ledger last) (done ++ e ∷ []) rest end)
  handles-Kept n last done rest end st st' e h covered (c, a, l, f) =
      let g = handle_event-Grows_to e st st' true h in
      let keeps = λ (x : Event X). Grows-IsStored env x g in
      record {
        keeps = keeps;
        covered = Grows-IsCovered g covered;
        safe = (
          Covered-Keeps env OnChain st.store st'.store keeps n c,
          All-append _ e done (AllStored-Keeps env OnChain st.store st'.store keeps done a)
              (λ billing. handle_event_stores env e st billing h),
          Low-Keeps env OnChain st.store st'.store keeps _ _
              (Low-higher env OnChain st.store done last e l),
          subst (λ es. Ends env OnChain n es end) (sym (append_assoc done (e ∷ []) rest)) f,
        );
      }

  new_watermark-IfCovered :
      (s : CacheStore) (latest : ℕ) (last current : Option ℕ)
      → IfCovered env OnChain s last
      → Covered env OnChain s latest
      → IfCovered env OnChain s (new_watermark latest last current)
  unfolding new_watermark
  new_watermark-IfCovered s latest last current l c k e = elim (Bool-cases (exceeds last current)) [
    | inl higher ↦ l k (rw higher at e)
    | inr not_higher ↦ subst (Covered env OnChain s) (some-injective (rw not_higher at e)) c
  ]

  set_if-IsCovered :
      (b : Bool) (w : Option ℕ) (s : CacheStore)
      → Keeps env OnChain s (set_if b w s)
      → IsCovered env OnChain s
      → IfCovered env OnChain s w
      → IsCovered env OnChain (set_if b w s)
  set_if-IsCovered true (some m) s keeps covered h = (
    m,
    get_last_ledger-set_last_ledger m s,
    Covered-Keeps env OnChain s (set_last_ledger m s) keeps m (h m refl),
  )
  set_if-IsCovered true none s keeps covered h = covered
  set_if-IsCovered false w s keeps covered h = covered

  set_if-Keeps : (b : Bool) (w : Option ℕ) (s : CacheStore) → Keeps env OnChain s (set_if b w s)
  set_if-Keeps b w s e stored = rw (set_if_keeps_events b w s) stored

  Move-Kept :
      {st st' : State} {p p' : Pc X}
      → Move env OnChain st p st' p'
      → IsCovered env OnChain st.store
      → IsSafe env OnChain st.store p
      → Kept st.store st'.store p'
  Move-Kept {st} (begins {n} at) (m, same, c) h =
      same_store st.store _ (m, same, c)
        (subst (Covered env OnChain st.store) (some-injective (sym same ∙ at)) c)
  Move-Kept {st} (reads {n}) (m, same, c) h =
      same_store st.store _ (m, same, c)
        (h, tt, λ k e. inl (subst (Covered env OnChain st.store) (some-injective (sym same ∙ e)) c))
  Move-Kept {st} fails covered h = same_store st.store idle covered tt
  Move-Kept {st} (answers page more) covered (c, a, l) = same_store st.store _ covered (c, a, l, tt)
  Move-Kept {st} (answers_last page end all) covered (c, a, l) =
      same_store st.store _ covered (c, a, l, all)
  Move-Kept {st} {st'} (handles {n} {last} {done} {rest} {end} e h) covered safe =
      handles-Kept n last done rest end st st' e h covered safe
  Move-Kept {st} {st'} (raises e h) covered safe =
      let g = handle_event-Grows_to e st st' false h in
      record { keeps = λ x. Grows-IsStored env x g; covered = Grows-IsCovered g covered; safe = tt }
  Move-Kept {st} goes_on covered (c, a, l, f) = same_store st.store _ covered (c, a, l)
  Move-Kept {st} (ends {n} {last} {done} {latest}) covered (c, a, l, f) =
      let f' = subst (λ es. Complete env OnChain n es latest) (append-nil done) f in
      let top = Complete-Covered env OnChain st.store n latest done c a f' in
      same_store st.store _ covered
        (Low-IfCovered env OnChain st.store latest done last l f'.bounded top, top)
  Move-Kept {st} rereads covered h = same_store st.store _ covered h
  Move-Kept {st} (writes {last} {current} {latest}) covered (l, c) =
      let keeps = set_if-Keeps _ (new_watermark latest last current) st.store in
      record {
        keeps = keeps;
        covered =
            set_if-IsCovered _ (new_watermark latest last current) st.store keeps covered
              (new_watermark-IfCovered st.store latest last current l c);
        safe = tt;
      }

  abbrev Safe : System env OnChain → Type 0
  Safe s = IsCovered env OnChain s.mem.store × ((i : ℕ) → IsSafe env OnChain s.mem.store (s.pc i))

  update-IsSafe :
      (s t : CacheStore) (pc : ℕ → Pc X) (i : ℕ) (p : Pc X)
      → ((j : ℕ) → IsSafe env OnChain s (pc j))
      → Kept s t p
      → (j : ℕ) → IsSafe env OnChain t (update env OnChain pc i p j)
  update-IsSafe s t pc i p h k j = elim (Bool-cases (j == i)) [
    | inl its ↦ rw its k.safe
    | inr other ↦ rw other (IsSafe-Keeps env OnChain s t k.keeps (pc j) (h j))
  ]

  Reach-Safe : {s t : System env OnChain} → Reach env OnChain s t → Safe s → Safe t
  Reach-Safe here h = h
  Reach-Safe {s} (moves {t} {st} {p} before i m) h =
      let (covered, safe) = Reach-Safe before h in
      let k = Move-Kept m covered (safe i) in
      (k.covered, update-IsSafe t.mem.store st.store t.pc i p safe k)

  -- However many polls run at once, in whatever order they take their steps and wherever they end
  -- by an exception: if the pages of a poll whose fetch completes hold all of the chain's events
  -- above its start and up to the latest ledger of the last page, and none above that, all polls
  -- are idle at first, and the watermark is a number up to whose ledger every billing event of the
  -- chain is in the cache, then the watermark is such a number at every later time.
  pub Reach-IsCovered :
      {s t : System env OnChain}
      → IsCovered env OnChain s.mem.store
      → ((i : ℕ) → s.pc i ≡ idle)
      → Reach env OnChain s t
      → IsCovered env OnChain t.mem.store
  Reach-IsCovered {s} covered none_runs r =
      (Reach-Safe r (covered, λ i. subst (IsSafe env OnChain s.mem.store) (sym (none_runs i)) tt)).0
