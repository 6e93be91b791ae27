-- ===== src/Indexer/Tests/Overlap.antt =====
-- Two polls that overlap: both fetch the page with the event before either has handled it.
use mathlib.Core.List.Memᴰ
use io_t_billing_service.Base.{ℕ, ◌≤◌, ◌≡◌, refl, ap, true, [], ◌∷◌, arith}
use io_t_billing_service.Store.{get_last_ledger}
use io_t_billing_service.Indexer.Event.{Event, State, handled, handle_event}
use io_t_billing_service.Indexer.Keeping.{handled_state}
use io_t_billing_service.Indexer.Poll.{is_last, higher, new_watermark, exceeds, set_if}
use io_t_billing_service.Indexer.Overlap.{
  idle, Complete, begins, reads, answers_last, handles, ends, rereads, writes, System, here, moves,
}
use io_t_billing_service.Indexer.Coverage.{IsCovered}
use io_t_billing_service.Indexer.Interleaving.{Reach-IsCovered}
use io_t_billing_service.Indexer.Tests.{setup, billed, fresh, page_of, indexer, begins_at_0}

abbrev OnChain : Event ℕ → Type 0
OnChain e = e ≡ billed

abbrev at_first : System setup OnChain
at_first = record { mem = fresh; pc = λ i. idle }

none_below : (e : Event ℕ) → OnChain e → ¬ (e.ledger ≤ 0)
none_below e chain below = omega (arith, ap (λ (x : Event ℕ). x.ledger) chain, below)

fresh-IsCovered : IsCovered setup OnChain fresh.store
fresh-IsCovered = (0, begins_at_0, λ e chain below billing. absurd (none_below e chain below))

page-Complete : Complete setup OnChain 0 (billed ∷ []) 130
page-Complete = record {
  bounded = (omega arith, tt);
  all_there = λ e chain above below. Memᴰ.head chain;
}

abbrev once : State
once = handled_state (handle_event setup billed fresh)

abbrev twice : State
twice = handled_state (handle_event setup billed once)

first : handle_event setup billed fresh ≡ handled once
unfolding indexer
first = refl

second : handle_event setup billed once ≡ handled twice
unfolding indexer
second = refl

ends_there : is_last (page_of billed) ≡ true
unfolding indexer
ends_there = refl

-- What a poll writes that handled the event and reread the watermark of `twice`.
abbrev wrote : State → State
wrote st =
    let current = get_last_ledger twice.store in
    let watermark = new_watermark 130 (higher 120 (get_last_ledger fresh.store)) current in
    record st { store = set_if (exceeds watermark current) watermark st.store }

Reach-IsCovered_example : IsCovered setup OnChain (wrote (wrote twice)).store
Reach-IsCovered_example =
    let begun = moves (moves here 0 (begins begins_at_0)) 1 (begins begins_at_0) in
    let asked = moves (moves begun 0 reads) 1 reads in
    let page = answers_last (page_of billed) ends_there page-Complete in
    let answered = moves (moves asked 0 page) 1 page in
    let stored = moves (moves answered 0 (handles billed first)) 1 (handles billed second) in
    let ended = moves (moves stored 0 ends) 1 ends in
    let reread = moves (moves ended 0 rereads) 1 rereads in
    Reach-IsCovered setup OnChain {s = at_first} fresh-IsCovered (λ i. refl)
      (moves (moves reread 0 writes) 1 writes)
