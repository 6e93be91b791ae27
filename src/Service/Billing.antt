-- ===== src/Service/Billing.antt =====
-- From a charge of the contract to the rows of the cache.
use mathlib.Core.Path.{subst}
use mathlib.Core.Option
use io_t_billing_service.Js.{rounded, rounded_exact}
use io_t_billing_service.Store.{Kind, sqlite, postgres, selected}
use io_t_billing_service.Store.Totals.{AreSmall}
use io_t_billing_service.Api.{whole_range}
use io_t_billing_service.Base.{
  ◌≤◌, ◌^◌, keep, arith, ℕ, ◌≡◌, ◌≢◌, refl, sym, ◌∙◌, ap, true, false, none, some, [], ◌∷◌, ◌++◌,
  Text, text, text_eq, ℤ, ◌-ℤ◌, ◌+ℤ◌, pos,
}
use io_t_billing_service.Gateway.{Bytes}
use io_t_billing_service.Decode.{
  str, scval_to_string, scval_to_bigint, unwrap_vec, native_bigint, native_text,
}
use io_t_billing_service.Store.{MeterRow, EventRow, as_bigint, fits_64, binds, conflicts, filled}
use io_t_billing_service.Store.Ingest.{ingest-fresh}
use io_t_billing_service.Indexer.{
  State, Setup, row, handled, device_text, is_meter, assemble, decode_event, after_ingest,
  after_decoding, handle_event,
}
use io_t_billing_service.Contract
use io_t_billing_service.Api
use io_t_billing_service.Api.{BalanceReply}
use io_t_billing_service.Api.Growth.{with_row, get_balance-append_one}
use io_t_billing_service.Contract.Host.{Host}
use io_t_billing_service.Contract.{get_balance, Address, Call, meter, World, submit_reading}
use io_t_billing_service.Contract.Accepted.{submit_reading_charged}
use io_t_billing_service.Service.Published.{HostValues, Reads, published}

some-injective : {a b : ℤ} → some a ≡ some b → a ≡ b
some-injective e = cc

-- The later reply reports the units and the cost on top of the earlier one.
abbrev pub Billed : BalanceReply → BalanceReply → ℕ → ℤ → Type 0
Billed before after units cost =
    (after.total_units ≡ before.total_units +ℤ pos units)
    × (after.total_billed ≡ before.total_billed +ℤ cost)

-- A charge publishes its event, with the deposit that is left.
pub charge_published :
    {T : Type 0} (chain : Host T) (call : Call) (d : Address) (u n ts : ℕ) (sig : Bytes)
    (w w' : World T) (cost left : ℤ)
    → submit_reading chain call d u n ts sig w ≡ (Contract.ok cost, w')
    → get_balance d w' ≡ some left
    → w'.events ≡ w.events ++ meter d u cost left n call.timestamp ∷ []
charge_published chain call d u n ts sig w w' cost left charged balance =
    let a = submit_reading_charged chain call d u n ts sig w w' cost charged in
    let same : a.deposit.amount -ℤ cost ≡ left =
      some-injective (sym (ap (Option.map (λ b. b.amount)) a.charged) ∙ balance) in
    subst (λ z. w'.events ≡ w.events ++ meter d u cost z n call.timestamp ∷ []) same a.announced

-- The amounts of a meter event fit 64 bits, and what JavaScript holds as numbers is at most 2 ^ 53.
pub record AreInRange (units : ℕ) (cost balance : ℤ) (seq time ledger : ℕ) : Type 0 where
  pub units_fit : fits_64 (pos units) ≡ true
  pub cost_fits : fits_64 cost ≡ true
  pub balance_fits : fits_64 balance ≡ true
  pub seq_small : seq ≤ 2 ^ 53
  pub time_small : time ≤ 2 ^ 53
  pub ledger_small : ledger ≤ 2 ^ 53

module _ {X : Type 0} (env : Setup X) (host : HostValues X) (address_text : Address → Text)
    (reads : Reads env.sdk host address_text) where
  -- What is passed on of a meter event.
  abbrev pub event_row : Text → ℕ → Text → Address → ℕ → ℤ → ℤ → ℕ → ℕ → EventRow
  event_row id ledger now device_id delta_units total_cost balance data_seq time = record {
    event_id = some id;
    contract_id = some env.contract_id;
    ledger = some ledger;
    device_id = some (address_text device_id);
    operator = none;
    units = some (as_bigint (pos delta_units));
    rate_per_unit = some (as_bigint (pos 0));
    cost = some (as_bigint total_cost);
    balance_after = some (as_bigint balance);
    seq = some (pos data_seq);
    ledger_ts = some (pos time);
    emitted_at = some now;
    raw = some (
        env.stringify (
          published host id ledger (meter device_id delta_units total_cost balance data_seq time)));
  }

  -- As JavaScript reads the sequence number and the time.
  abbrev pub read_row : Text → ℕ → Text → Address → ℕ → ℤ → ℤ → ℕ → ℕ → EventRow
  read_row id ledger now device_id delta_units total_cost balance data_seq time =
      record (event_row id ledger now device_id delta_units total_cost balance data_seq time) {
        seq = some (rounded (pos data_seq));
        ledger_ts = some (rounded (pos time));
      }

  read_row-event_row :
      (id : Text) (ledger : ℕ) (now : Text) (d : Address) (u : ℕ) (cost left : ℤ) (n t : ℕ)
      → n ≤ 2 ^ 53
      → t ≤ 2 ^ 53
      → read_row id ledger now d u cost left n t ≡ event_row id ledger now d u cost left n t
  read_row-event_row id ledger now d u cost left n t hn ht =
      rw (rounded_exact (pos n) (omega (arith, hn)), rounded_exact (pos t) (omega (arith, ht))) refl

  device_text_of : (t : Text) → t ≢ [] → device_text {X = X} (some (str t)) ≡ some t
  unfolding device_text
  device_text_of [] h = absurd (h refl)
  device_text_of (c ∷ t) h = refl

  pub decode_event-published :
      (id : Text) (ledger : ℕ) (now : Text) (d : Address) (u : ℕ) (cost left : ℤ) (n t : ℕ)
      → decode_event env (published host id ledger (meter d u cost left n t)) now
        ≡ row (read_row id ledger now d u cost left n t)
  unfolding decode_event scval_to_string scval_to_bigint unwrap_vec native_bigint native_text
      is_meter assemble text_eq
  decode_event-published id ledger now d u cost left n t =
      rw
        (
          reads.reads_symbol (text "meter"),
          reads.reads_address d,
          (reads.reads_tuple _).0,
          (reads.reads_tuple _).1,
          reads.reads_u64 u,
          reads.reads_i128 cost,
          reads.reads_i128 left,
          reads.reads_u64 n,
          reads.reads_u64 t,
          device_text_of (address_text d) (reads.has_text d),
        )
        refl

  -- The row of a charge, with nothing of the contract's event lost.
  abbrev pub meter_row : Text → ℕ → Text → Address → ℕ → ℤ → ℤ → ℕ → ℕ → MeterRow
  meter_row id ledger now device_id delta_units total_cost balance data_seq time = record {
    event_id = some id;
    contract_id = some env.contract_id;
    ledger = some ledger;
    device_id = address_text device_id;
    operator = none;
    units = pos delta_units;
    rate_per_unit = pos 0;
    cost = total_cost;
    balance_after = some balance;
    seq = some (pos data_seq);
    ledger_ts = some (pos time);
    emitted_at = some now;
    raw = (event_row id ledger now device_id delta_units total_cost balance data_seq time).raw;
  }

  number-fits_64 : (n : ℕ) → n ≤ 2 ^ 53 → fits_64 (pos n) ≡ true
  unfolding fits_64
  number-fits_64 n h = ground (arith, h)

  event_row-binds :
      (k : Kind) (id : Text) (ledger : ℕ) (now : Text) (d : Address) (u : ℕ) (cost left : ℤ)
      (n t : ℕ)
      → AreInRange u cost left n t ledger
      → binds k (event_row id ledger now d u cost left n t) ≡ true
  unfolding binds
  event_row-binds sqlite id ledger now d u cost left n t h =
      rw (h.units_fit, number-fits_64 0 (omega arith), h.cost_fits, h.balance_fits) refl
  event_row-binds postgres id ledger now d u cost left n t h =
      rw
        (
          h.units_fit,
          number-fits_64 0 (omega arith),
          h.cost_fits,
          h.balance_fits,
          number-fits_64 ledger h.ledger_small,
          number-fits_64 n h.seq_small,
          number-fits_64 t h.time_small,
        )
        refl

  -- A meter event whose id is new is stored and passed on.
  pub handle_event-published :
      (id : Text) (ledger : ℕ) (st : State) (d : Address) (u : ℕ) (cost left : ℤ) (n t : ℕ)
      → AreInRange u cost left n t ledger
      → conflicts (some id) st.store.meter_events ≡ false
      → handle_event env (published host id ledger (meter d u cost left n t)) st
        ≡ handled (record {
          store = record (st.store) {
            meter_events =
                st.store.meter_events
                ++ meter_row id ledger (env.clock st.emitted) d u cost left n t ∷ [];
          };
          emitted = st.emitted ++ event_row id ledger (env.clock st.emitted) d u cost left n t ∷ [];
        })
  unfolding handle_event after_decoding after_ingest filled
  handle_event-published id ledger st d u cost left n t h fresh =
      let now = env.clock st.emitted in
      rw
        (
          decode_event-published id ledger now d u cost left n t
              ∙ ap row
                  (read_row-event_row id ledger now d u cost left n t h.seq_small h.time_small),
          ingest-fresh (event_row id ledger now d u cost left n t) st.store (address_text d) refl
              (event_row-binds st.store.kind id ledger now d u cost left n t h) fresh,
        )
        refl

  -- If the SDK reads what the host writes, a reading that the contract charges publishes one
  -- event, and where its units, its cost and the deposit left fit 64 bits, its sequence number, its
  -- time and its ledger are at most 2 ^ 53, the event's id is not in the cache, and the units of
  -- the device's rows as well as their costs, the new ones included and each without its sign, add
  -- up to at most 2 ^ 53, the indexer handles that event without an exception, and adds to the
  -- cache one row: the device's address, the units, the cost, the deposit that the contract's
  -- get_balance reports, the sequence number and the ledger's time, as the contract has them. The
  -- balance route of the device then reports the units and the cost on top of what it reported
  -- before.
  pub charged_reading_is_stored :
      {T : Type 0} (chain : Host T) (call : Call) (d : Address) (u n ts : ℕ) (sig : Bytes)
      → (w w' : World T) (cost left : ℤ) (id : Text) (ledger : ℕ) (st : State)
      → submit_reading chain call d u n ts sig w ≡ (Contract.ok cost, w')
      → get_balance d w' ≡ some left
      → AreInRange u cost left n call.timestamp ledger
      → conflicts (some id) st.store.meter_events ≡ false
      → AreSmall (
          keep
            (selected (address_text d) whole_range)
            (with_row
              (meter_row id ledger (env.clock st.emitted) d u cost left n call.timestamp)
              st.store).meter_events)
      → (w'.events ≡ w.events ++ meter d u cost left n call.timestamp ∷ [])
        × (handle_event env (published host id ledger (meter d u cost left n call.timestamp)) st
            ≡ handled (record {
              store =
                  with_row
                    (meter_row id ledger (env.clock st.emitted) d u cost left n call.timestamp)
                    st.store;
              emitted =
                  st.emitted
                  ++ event_row id ledger (env.clock st.emitted) d u cost left n call.timestamp ∷ [];
            }))
        × Billed
            (Api.get_balance (address_text d) st.store)
            (Api.get_balance (address_text d) (
              with_row
                (meter_row id ledger (env.clock st.emitted) d u cost left n call.timestamp)
                st.store))
            u
            cost
  charged_reading_is_stored chain call d u n ts sig w w' cost left id ledger st charged balance h
        fresh small =
      (
        charge_published chain call d u n ts sig w w' cost left charged balance,
        handle_event-published id ledger st d u cost left n call.timestamp h fresh,
        get_balance-append_one
            (meter_row id ledger (env.clock st.emitted) d u cost left n call.timestamp) st.store
            small,
      )
