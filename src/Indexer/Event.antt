-- ===== src/Indexer/Event.antt =====
-- `handleEvent`: an event of the contract becomes a row of the cache and is passed to `onEvent`.
use mathlib.Core.Option
use io_t_billing_service.Base.{
  ℕ, zero, Bool, true, false, Option, none, some, List, [], ◌∷◌, ◌++◌, map, Text, text, text_eq, ℤ,
  pos, get_elem?, if◌then◌else◌, or_else,
}
use io_t_billing_service.Decode.{
  int, non_int, ScVal, falsy, Field, undefined, null, str, num, big, array, other, Sdk,
  scval_to_string, scval_to_bigint, unwrap_vec,
}
use io_t_billing_service.Js.{decimal_ℤ, rounded}
use io_t_billing_service.Store.{CacheStore, EventRow, as_bigint, Outcome, ok, threw, ingest}

-- An event as `getEvents` gives it, `topic ?? []` taken. `id` and `ledger` are as String() and
-- Number() read them.
pub record Event (X : Type 0) : Type 0 where
  pub id : Text
  pub topic : List (ScVal X)
  pub value : ScVal X
  pub ledger : ℕ

-- The indexer's state: the cache, and the rows passed to `onEvent` so far.
pub record State : Type 0 where
  pub store : CacheStore
  pub emitted : List EventRow

-- What the indexer is built over: the SDK, the contract's id, the clock (the time of a call may
-- depend on what was emitted before) and JSON.stringify.
pub record Setup (X : Type 0) : Type 0 where
  pub sdk : Sdk X
  pub contract_id : Text
  pub clock : List EventRow → Text
  pub stringify : Event X → Text

-- Zero is falsy.
abbrev pub nonzero_text : ℤ → Option Text
nonzero_text (pos zero) = none
nonzero_text z = some (decimal_ℤ z)

-- `deviceId ? String(deviceId) : null`, at `topics[1] ?? null`
unfoldable pub device_text : {X : Type 0} → Option (Field X) → Option Text
device_text none = none
device_text (some undefined) = none
device_text (some null) = none
device_text (some (str [])) = none
device_text (some (str (c ∷ s))) = some (c ∷ s)
device_text (some (num (int z))) = nonzero_text z
device_text (some (num (non_int t))) = if text_eq t (text "NaN") then none else some t
device_text (some (big z)) = nonzero_text z
device_text (some (array t vs)) = some t
device_text (some (other t)) = some t

-- `topics[0] === METER_TOPIC`
unfoldable pub is_meter : {X : Type 0} → Option (Field X) → Bool
is_meter (some (str t)) = text_eq t (text "meter")
is_meter _ = false

-- The elements that the destructuring takes; past the end it takes undefined.
abbrev pub element : {X : Type 0} → List (ScVal X) → ℕ → ScVal X
element items i = or_else (get_elem? items i) falsy

-- What `handleEvent` makes of an event before it touches the store.
pub data Decoded : Type 0 where
  skipped : Decoded
  row : EventRow → Decoded
  unreadable : Decoded

abbrev pub is_falsy : {X : Type 0} → ScVal X → Bool
is_falsy falsy = true
is_falsy _ = false

-- `v ? scvalToBigInt(v) : null`, or with 0n for null; the outer `none` is an exception.
abbrev pub nullable : {X : Type 0} → ScVal X → Option ℤ → Option (Option ℤ)
nullable falsy z = some none
nullable v none = none
nullable v (some z) = some (some z)

-- The five parts of the data, where all can be read; the sequence number and the time become
-- Numbers.
unfoldable pub assemble :
    {X : Type 0}
    → Setup X
    → Event X
    → Option Text
    → Text
    → Option (Option ℤ)
    → Option (Option ℤ)
    → Option (Option ℤ)
    → Option (Option ℤ)
    → Option (Option ℤ)
    → Decoded
assemble env e device now (some units) (some cost) (some balance) (some seq) (some ts) =
    row (record {
      event_id = some e.id;
      contract_id = some env.contract_id;
      ledger = some e.ledger;
      device_id = device;
      operator = none;
      units = some (as_bigint (or_else units (pos 0)));
      rate_per_unit = some (as_bigint (pos 0));
      cost = some (as_bigint (or_else cost (pos 0)));
      balance_after = Option.map as_bigint balance;
      seq = Option.map rounded seq;
      ledger_ts = Option.map rounded ts;
      emitted_at = some now;
      raw = some (env.stringify e);
    })
assemble env e device now _ _ _ _ _ = unreadable

-- How handling ends, with the state that it leaves.
pub data Handled : Type 0 where
  handled : State → Handled
  raised : State → Handled

-- `await this.storage.ingest(row)`, and `this.onEvent(row)` where that did not raise.
unfoldable pub after_ingest : EventRow → Outcome CacheStore → State → Handled
after_ingest r (ok s) st = handled (record { store = s; emitted = st.emitted ++ r ∷ [] })
after_ingest r threw st = raised st

unfoldable pub after_decoding : Decoded → State → Handled
after_decoding skipped st = handled st
after_decoding unreadable st = raised st
after_decoding (row r) st = after_ingest r (ingest r st.store) st

module _ {X : Type 0} (env : Setup X) where
  abbrev part : List (ScVal X) → ℕ → Option (Option ℤ)
  part items i = nullable (element items i) (scval_to_bigint env.sdk (element items i))

  unfoldable pub decode_event : Event X → Text → Decoded
  decode_event e now =
      let topics = map (scval_to_string env.sdk) e.topic in
      let items = or_else (unwrap_vec env.sdk e.value) [] in
      if is_meter (get_elem? topics 0)
      then assemble env e (device_text (get_elem? topics 1)) now (part items 0) (part items 1)
          (part items 2) (part items 3) (part items 4)
      else skipped

  unfoldable pub handle_event : Event X → State → Handled
  handle_event e st = after_decoding (decode_event e (env.clock st.emitted)) st
