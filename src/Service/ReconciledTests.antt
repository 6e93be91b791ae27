-- ===== src/Service/ReconciledTests.antt =====
-- The events of the contract's test ledger, polled over an empty cache.
use io_t_billing_service.Base.{
  ◌+ℤ◌, ℕ, ◌^◌, ◌≤ℤ◌, ◌≡◌, refl, ap, sym, ◌∙◌, some, List, [], ◌∷◌, text, pos, ◌-ℤ◌, text_eq, arith,
}
use io_t_billing_service.Js.{number_of_digits, number_of_digits-decimal}
use io_t_billing_service.Store.{new_store, fits_64, get_last_ledger}
use io_t_billing_service.Indexer.{Rpc, Page, poll, state_of, is_last, next_ledger}
use io_t_billing_service.Indexer.Paging.{Serves, last_page}
use io_t_billing_service.Contract.{device_registered, deposited, meter, settlement}
use io_t_billing_service.Contract.Tests.{host, paid, paid-Later, paid-events, purse}
use io_t_billing_service.Contract.Books.{paid_in}
use io_t_billing_service.Contract.Journal.{held}
use io_t_billing_service.Api
use io_t_billing_service.Service.BillingTests.{
  Value, values, values-Reads, address_text, setup, fresh,
}
use io_t_billing_service.Sql.{sum_of}
use io_t_billing_service.Service.Billing.{AreInRange}
use io_t_billing_service.Service.Feed.{Entry, charge, events_of, AreDistinct, feed}
use io_t_billing_service.Service.Reconciled.{deposits_reconciled}

abbrev tail_of : List ℕ → List ℕ
tail_of [] = []
tail_of (c ∷ s) = s

some-injective : {a b : ℕ} → some a ≡ some b → a ≡ b
some-injective e = cc

address_text-injective : (a b : ℕ) → address_text a ≡ address_text b → a ≡ b
address_text-injective a b h = some-injective (
    sym (number_of_digits-decimal a)
    ∙ ap (λ t. number_of_digits (tail_of t)) h
    ∙ number_of_digits-decimal b)

abbrev entries : List Entry
entries =
    record { id = text "e1"; ledger = 101; event = device_registered 1 2 (pos 5) }
    ∷ record { id = text "e2"; ledger = 102; event = deposited 1 (pos 100) (pos 100) }
    ∷ record { id = text "e3"; ledger = 103; event = meter 1 10 (pos 50) (pos 50) 1 1000 }
    ∷ record { id = text "e4"; ledger = 104; event = settlement 2 (pos 30) }
    ∷ []

abbrev page : Page Value
page = record {
  events = feed setup values address_text values-Reads entries;
  cursor = [];
  latest_ledger = 110;
}

abbrev server : Rpc Value
server n q = some page

all_published : events_of entries ≡ paid.events
all_published = sym paid-events

distinct : AreDistinct entries
unfolding text_eq
distinct = ground arith

served : Serves server (next_ledger (get_last_ledger fresh.store)) 0 [] (page ∷ []) 110
unfolding is_last
served = last_page page refl refl refl refl

fitting : AreInRange 10 (pos 50) (pos 50) 1 1000 103
unfolding fits_64
fitting = record {
  units_fit = refl;
  cost_fits = refl;
  balance_fits = refl;
  seq_small = omega arith;
  time_small = omega arith;
  ledger_small = omega arith;
}

little : sum_of charge (events_of entries) ≤ℤ pos (2 ^ 53)
unfolding sum_of charge ◌+ℤ◌
little = omega arith

deposits_reconciled_example :
    held paid 1
    ≡ paid_in 1 paid.events
      -ℤ (Api.get_balance
          (address_text 1)
          (state_of (poll setup server 3 fresh)).store).total_billed
deposits_reconciled_example =
    deposits_reconciled setup values address_text values-Reads address_text-injective host 9 purse
      paid entries server (page ∷ []) 110 3 fresh paid-Later all_published
      (tt, (tt, (fitting, (tt, tt)))) little distinct served refl (omega arith)
      (unfold new_store in refl) 1
