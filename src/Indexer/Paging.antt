-- ===== src/Indexer/Paging.antt =====
-- indexer.js: the loop over the pages that a server has.
use mathlib.Core.Path.{ap₂}
use io_t_billing_service.Base.{
  append-nil, ℕ, zero, suc, ◌≤◌, ◌≡◌, refl, sym, ap, ◌∙◌, true, false, Option, some, List, [], ◌∷◌,
  ◌++◌, Text, length, arith,
}
use io_t_billing_service.Indexer.Event.{Event, State, Setup, Handled, handled, raised, handle_event}
use io_t_billing_service.Indexer.Poll.{
  Page, Rpc, query_of, Progress, reached, stopped, Fetched, complete, failed, higher, is_last,
  handle_events, fetch_pages,
}

module _ {X : Type 0} where
  -- From the n-th call on, at a cursor, the server answers with these pages, the last of which
  -- ends the loop and states the latest ledger.
  pub data Serves (rpc : Rpc X) (start : Option ℕ) : ℕ → Text → List (Page X) → ℕ → Type 0 where
    last_page :
        {n : ℕ} {cursor : Text} {pages : List (Page X)} {latest : ℕ} (page : Page X)
        → rpc n (query_of cursor start) ≡ some page
        → is_last page ≡ true
        → pages ≡ page ∷ []
        → latest ≡ page.latest_ledger
        → Serves rpc start n cursor pages latest
    more_pages :
        {n : ℕ} {cursor : Text} {pages rest : List (Page X)} {latest : ℕ} (page : Page X)
        → rpc n (query_of cursor start) ≡ some page
        → is_last page ≡ false
        → pages ≡ page ∷ rest
        → Serves rpc start (suc n) page.cursor rest latest
        → Serves rpc start n cursor pages latest

  abbrev pub all_events : List (Page X) → List (Event X)
  all_events [] = []
  all_events (page ∷ pages) = page.events ++ all_events pages

abbrev pub fetched_of : ℕ → Progress → Fetched
fetched_of latest (reached last st) = complete latest last st
fetched_of latest (stopped st) = failed st

module _ {X : Type 0} (env : Setup X) where
  -- Handling goes on with further events where it reached their predecessors' end.
  abbrev pub go_on : List (Event X) → Progress → Progress
  go_on es (reached last st) = handle_events env es last st
  go_on es (stopped st) = stopped st

  handle_events-append :
      (es fs : List (Event X)) (last : Option ℕ) (st : State)
      → handle_events env (es ++ fs) last st ≡ go_on fs (handle_events env es last st)
  unfolding handle_events
  handle_events-append [] fs last st = refl
  handle_events-append (e ∷ es) fs last st =
      go (handle_event env e st) (λ l s. handle_events-append es fs l s)
    where
      go :
          (h : Handled)
          → ((l : Option ℕ) (s : State)
              → handle_events env (es ++ fs) l s ≡ go_on fs (handle_events env es l s))
          → elim h [
            | handled s ↦ handle_events env (es ++ fs) (higher e.ledger last) s
            | raised s ↦ stopped s
          ]
            ≡ go_on fs (elim h [
              | handled s ↦ handle_events env es (higher e.ledger last) s
              | raised s ↦ stopped s
            ])
      go (handled s) ih = ih (higher e.ledger last) s
      go (raised s) ih = refl

  module _ (rpc : Rpc X) (start : Option ℕ) where
    -- One round of the loop, over how the page's events went.
    abbrev pub round : ℕ → ℕ → Page X → Progress → Fetched
    round fuel n page (stopped st) = failed st
    round fuel n page (reached last st) = elim (is_last page) [
      | true ↦ complete page.latest_ledger last st
      | false ↦ fetch_pages env rpc start fuel (suc n) page.cursor last st
    ]

    pub fetch_pages-suc :
        (fuel n : ℕ) (cursor : Text) (last : Option ℕ) (st : State) (page : Page X)
        → rpc n (query_of cursor start) ≡ some page
        → fetch_pages env rpc start (suc fuel) n cursor last st
          ≡ round fuel n page (handle_events env page.events last st)
    unfolding fetch_pages
    fetch_pages-suc fuel n cursor last st page e = rw (e, fetch_pages) (ground arith)

    round-last :
        (fuel n : ℕ) (page : Page X) (p : Progress)
        → is_last page ≡ true
        → round fuel n page p ≡ fetched_of page.latest_ledger p
    round-last fuel n page (stopped st) e = refl
    round-last fuel n page (reached last st) e = rw (e, round) refl

    round-more :
        (fuel n latest : ℕ) (page : Page X) (es : List (Event X)) (p : Progress)
        → is_last page ≡ false
        → ((last : Option ℕ) (st : State)
            → fetch_pages env rpc start fuel (suc n) page.cursor last st
              ≡ fetched_of latest (handle_events env es last st))
        → round fuel n page p ≡ fetched_of latest (go_on es p)
    round-more fuel n latest page es (stopped st) e ih = refl
    round-more fuel n latest page es (reached last st) e ih = rw (e, round) (ih last st)

    -- Enough fuel for the pages is enough for the loop.
    pub fetch_pages-Serves :
        {n : ℕ} {cursor : Text} {pages : List (Page X)} {latest : ℕ}
        → Serves rpc start n cursor pages latest
        → (fuel : ℕ) (last : Option ℕ) (st : State) → length pages ≤ fuel
        → fetch_pages env rpc start fuel n cursor last st
          ≡ fetched_of latest (handle_events env (all_events pages) last st)
    fetch_pages-Serves (last_page page answer end one latest_is) zero last st enough =
        absurd (omega (arith, ap length one))
    fetch_pages-Serves (last_page {n} {cursor} page answer end one latest_is) (suc fuel) last st
          enough =
        fetch_pages-suc fuel n cursor last st page answer
        ∙ round-last fuel n page (handle_events env page.events last st) end
        ∙ ap₂ fetched_of (sym latest_is) (
            ap (λ es. handle_events env es last st)
              (sym (append-nil page.events) ∙ sym (ap all_events one)))
    fetch_pages-Serves (more_pages page answer more these rest) zero last st enough =
        absurd (omega (arith, ap length these))
    fetch_pages-Serves (more_pages {n} {cursor} {rest} {latest} page answer more these s) (suc fuel)
          last st enough =
        fetch_pages-suc fuel n cursor last st page answer
        ∙ round-more fuel n latest page (all_events rest) (handle_events env page.events last st)
            more (λ l st'. fetch_pages-Serves s fuel l st' (omega (arith, ap length these)))
        ∙ ap (fetched_of latest) (
            sym (handle_events-append page.events (all_events rest) last st)
            ∙ ap (λ es. handle_events env es last st) (sym (ap all_events these)))
