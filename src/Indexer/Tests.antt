-- ===== src/Indexer/Tests.antt =====
-- The poller at a server with one page.
mod Overlap
use io_t_billing_service.Base.{ℕ, ◌≤◌, ◌≡◌, refl, false, some, [], ◌∷◌, text, text_eq, pos, arith}
use io_t_billing_service.Store.{insert_or_ignore, insert_on_conflict}
use io_t_billing_service.Js.{rounded, rounded_ℕ, decimal, number_of_digits}
use io_t_billing_service.Decode.{
  bigint, ScVal, plain, xdr, array, str, nil, cons, Sdk, scval_to_string, scval_to_bigint,
  unwrap_vec, native_bigint,
}
use io_t_billing_service.Store.{
  sqlite, postgres, ingest, binds, fits_64, insert_event, conflicts, filled, get_last_ledger,
  ledger_value, lookup, set_last_ledger, upsert,
}
use io_t_billing_service.Indexer.Event.{
  Event, State, Setup, device_text, is_meter, assemble, decode_event, after_decoding, after_ingest,
  handle_event,
}
use io_t_billing_service.Indexer.Poll.{
  Page, Rpc, next_ledger, is_last, reached, higher, handle_events, fetch_pages, after_fetching,
  abandoned, advance, new_watermark, poll, state_of,
}
use io_t_billing_service.Indexer.Handling.{Grows}
use io_t_billing_service.Indexer.Keeping.{progress_state}
use io_t_billing_service.Indexer.Paging.{Serves, last_page, all_events}
use io_t_billing_service.Indexer.Progress.{
  HasDelivered, poll_monotone, poll_abandoned, poll_delivers,
}
use io_t_billing_service.Indexer.Stall.{IsNameless, poll_stalls}

-- The only XDR values are numbers, each standing for itself.
abbrev sdk : Sdk ℕ
sdk = record { to_native = λ x. some (bigint (pos x)); is_vec = λ x. false; vec = λ x. [] }

abbrev setup : Setup ℕ
setup = record {
  sdk = sdk;
  contract_id = text "C1";
  clock = λ rows. text "2026-01-02T10:00:00.000Z";
  stringify = λ e. text "{}";
}

abbrev amounts : ScVal ℕ
amounts = plain (some (text "vec")) (
    array []
      (cons (xdr 10) (cons (xdr 1000) (cons (xdr 999000) (cons (xdr 1) (cons (xdr 5) nil))))))

abbrev billed : Event ℕ
billed = record {
  id = text "e1";
  topic =
      plain (some (text "symbol")) (str (text "meter"))
      ∷ plain (some (text "address")) (str (text "D1"))
      ∷ [];
  value = amounts;
  ledger = 120;
}

abbrev unnamed : Event ℕ
unnamed = record billed { topic = plain (some (text "symbol")) (str (text "meter")) ∷ [] }

abbrev page_of : Event ℕ → Page ℕ
page_of e = record { events = e ∷ []; cursor = []; latest_ledger = 130 }

abbrev server : Event ℕ → Rpc ℕ
server e n q = some (page_of e)

abbrev fresh : State
fresh = record {
  store = record {
    kind = sqlite;
    meta = [];
    meter_events = [];
    pending_readings = [];
    next_id = 1;
  };
  emitted = [];
}

abbrev fresh_postgres : State
fresh_postgres = record fresh { store = record (fresh.store) { kind = postgres } }

indexer : Unit {0}
unfolding poll after_fetching advance new_watermark fetch_pages is_last handle_events higher
    handle_event decode_event assemble device_text is_meter after_decoding after_ingest ingest binds
    fits_64 insert_event insert_or_ignore insert_on_conflict rounded rounded_ℕ conflicts filled
    text_eq get_last_ledger ledger_value lookup scval_to_string scval_to_bigint unwrap_vec
    native_bigint
indexer = tt

served :
    Serves
      (server billed)
      (next_ledger (get_last_ledger fresh.store))
      0
      []
      (page_of billed ∷ [])
      130
unfolding indexer
served = last_page (page_of billed) refl refl refl refl

abbrev ended : State
ended = progress_state (handle_events setup (billed ∷ []) (some 0) fresh)

begins_at_0 : get_last_ledger fresh.store ≡ some 0
unfolding indexer
begins_at_0 = refl

handled_to_120 :
    handle_events setup (all_events (page_of billed ∷ [])) (get_last_ledger fresh.store) fresh
    ≡ reached (some 120) ended
unfolding indexer
handled_to_120 = refl

poll_delivers_example :
    HasDelivered setup
      (all_events (page_of billed ∷ []))
      0
      (state_of (poll setup (server billed) 5 fresh)).store
poll_delivers_example =
    poll_delivers setup (server billed) fresh served 5 0 (some 120) ended (omega arith) begins_at_0
      handled_to_120

poll_monotone_example :
    (m : ℕ) × (get_last_ledger (state_of (poll setup (server billed) 5 fresh)).store ≡ some m)
    × (0 ≤ m)
poll_monotone_example = poll_monotone setup (server billed) 5 0 fresh begins_at_0

-- The poll of this server moves the watermark to the event's ledger.
watermark_120 : get_last_ledger (state_of (poll setup (server billed) 5 fresh)).store ≡ some 120
unfolding indexer decimal number_of_digits set_last_ledger upsert
watermark_120 = refl

abandons : poll setup (server unnamed) 5 fresh_postgres ≡ abandoned fresh_postgres
unfolding indexer
abandons = refl

poll_abandoned_example :
    (get_last_ledger fresh_postgres.store ≡ get_last_ledger fresh_postgres.store)
    × Grows fresh_postgres.store fresh_postgres.store
poll_abandoned_example =
    poll_abandoned setup (server unnamed) 5 fresh_postgres fresh_postgres abandons

unnamed-IsNameless : IsNameless setup unnamed
unfolding indexer
unnamed-IsNameless = (refl, refl)

poll_stalls_example : (st' : State) × (poll setup (server unnamed) 5 fresh_postgres ≡ abandoned st')
poll_stalls_example =
    poll_stalls setup (server unnamed) 4 fresh_postgres (page_of unnamed) [] [] unnamed refl refl
      refl unnamed-IsNameless
