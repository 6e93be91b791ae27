-- ===== src/Indexer/Keeping.antt =====
-- What each event's handling keeps, a page's handling and all fetching keep.
use io_t_billing_service.Base.{
  ℕ, zero, suc, ◌≡◌, refl, Option, none, List, [], ◌∷◌, Text, Bool-cases, inl, inr, Option-cases,
}
use io_t_billing_service.Indexer.Event.{Event, State, Setup, Handled, handled, raised, handle_event}
use io_t_billing_service.Indexer.Poll.{
  Page, Rpc, query_of, Progress, reached, stopped, Fetched, complete, failed, exhausted, higher,
  is_last, handle_events, fetch_pages,
}
use io_t_billing_service.Indexer.Paging.{fetch_pages-suc, round}

-- The state that handling leaves, the one that a page leaves, and the one that fetching leaves.
abbrev pub handled_state : Handled → State
handled_state (handled st) = st
handled_state (raised st) = st

abbrev pub progress_state : Progress → State
progress_state (reached last st) = st
progress_state (stopped st) = st

abbrev pub fetched_state : Fetched → State
fetched_state (complete latest last st) = st
fetched_state (failed st) = st
fetched_state (exhausted st) = st

module _ {X : Type 0} (env : Setup X) (P : State → Type 0)
    (each : (e : Event X) (st : State) → P st → P (handled_state (handle_event env e st))) where
  pub handle_events_keep :
      (es : List (Event X)) (last : Option ℕ) (st : State)
      → P st
      → P (progress_state (handle_events env es last st))
  unfolding handle_events
  handle_events_keep [] last st p = p
  handle_events_keep (e ∷ es) last st p =
      go (handle_event env e st) (each e st p) (λ l s. handle_events_keep es l s)
    where
      go :
          (h : Handled)
          → P (handled_state h)
          → ((l : Option ℕ) (s : State) → P s → P (progress_state (handle_events env es l s)))
          → P (
              progress_state (elim h [
                | handled s ↦ handle_events env es (higher e.ledger last) s
                | raised s ↦ stopped s
              ]))
      go (handled s) q ih = ih (higher e.ledger last) s q
      go (raised s) q ih = q

  module _ (rpc : Rpc X) (start : Option ℕ) where
    fetch_pages-none :
        (fuel n : ℕ) (cursor : Text) (last : Option ℕ) (st : State)
        → rpc n (query_of cursor start) ≡ none
        → fetch_pages env rpc start (suc fuel) n cursor last st ≡ failed st
    unfolding fetch_pages
    fetch_pages-none fuel n cursor last st e = rw (e, fetch_pages) refl

    round_keeps :
        (fuel n : ℕ) (page : Page X) (p : Progress)
        → P (progress_state p)
        → ((last : Option ℕ) (st : State)
            → P st
            → P (fetched_state (fetch_pages env rpc start fuel (suc n) page.cursor last st)))
        → P (fetched_state (round env rpc start fuel n page p))
    round_keeps fuel n page (stopped st) q ih = q
    round_keeps fuel n page (reached last st) q ih = elim (Bool-cases (is_last page)) [
      | inl end ↦ rw (end, round) q
      | inr more ↦ rw (more, round) (ih last st q)
    ]

    -- Whatever the server answers.
    pub fetch_pages_keep :
        (fuel n : ℕ) (cursor : Text) (last : Option ℕ) (st : State)
        → P st
        → P (fetched_state (fetch_pages env rpc start fuel n cursor last st))
    fetch_pages_keep zero n cursor last st q = unfold fetch_pages in q
    fetch_pages_keep (suc fuel) n cursor last st q =
        let later = λ (c : Text) (l : Option ℕ) (s : State). fetch_pages_keep fuel (suc n) c l s in
        elim (Option-cases (rpc n (query_of cursor start))) [
          | inl failure ↦ rw (fetch_pages-none fuel n cursor last st failure) q
          | inr (page, answer) ↦
              rw (fetch_pages-suc env rpc start fuel n cursor last st page answer) (
                round_keeps fuel n page (handle_events env page.events last st)
                  (handle_events_keep page.events last st q) (later page.cursor))
        ]
