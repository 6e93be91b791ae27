-- ===== src/Store/Write.antt =====
-- The methods of CacheStore that write: ingest, setLastLedger, recordPendingReading.
use mathlib.Core.Option
use io_t_billing_service.Base.{
  ℕ, suc, ◌^◌, Bool, true, false, ◌&&◌, Option, none, some, List, [], ◌∷◌, ◌++◌, Text, text,
  text_eq, ltb, if◌then◌else◌, ℤ, pos, negsuc, any, or_else,
}
use io_t_billing_service.Js.{decimal}
use io_t_billing_service.Store.Tables.{
  Kind, sqlite, postgres, MeterRow, PendingRow, CacheStore, Outcome, ok, threw,
}

-- An integer as JavaScript holds it: a number or a bigint.
pub data Amount : Type 0 where
  as_number : ℤ → Amount
  as_bigint : ℤ → Amount

abbrev pub integer : Amount → ℤ
integer (as_number z) = z
integer (as_bigint z) = z

-- The argument of `ingest`; `none` is null or undefined.
pub record EventRow : Type 0 where
  pub event_id : Option Text
  pub contract_id : Option Text
  pub ledger : Option ℕ
  pub device_id : Option Text
  pub operator : Option Text
  pub units : Option Amount
  pub rate_per_unit : Option Amount
  pub cost : Option Amount
  pub balance_after : Option Amount
  pub seq : Option ℤ
  pub ledger_ts : Option ℤ
  pub emitted_at : Option Text
  pub raw : Option Text

-- The `ctx` of `ingest` as a row for the device `id`: the columns that are null by default stay
-- null, and the three amounts are 0 by default.
unfoldable pub filled : Text → EventRow → MeterRow
filled id row = record {
  event_id = row.event_id;
  contract_id = row.contract_id;
  ledger = row.ledger;
  device_id = id;
  operator = row.operator;
  units = or_else (Option.map integer row.units) (pos 0);
  rate_per_unit = or_else (Option.map integer row.rate_per_unit) (pos 0);
  cost = or_else (Option.map integer row.cost) (pos 0);
  balance_after = Option.map integer row.balance_after;
  seq = row.seq;
  ledger_ts = row.ledger_ts;
  emitted_at = row.emitted_at;
  raw = row.raw;
}

-- The range of a 64-bit column.
unfoldable pub fits_64 : ℤ → Bool
fits_64 (pos n) = ltb n (2 ^ 63)
fits_64 (negsuc n) = ltb n (2 ^ 63)

abbrev pub fits_or_null : Option ℤ → Bool
fits_or_null none = true
fits_or_null (some z) = fits_64 z

-- better-sqlite3 refuses a bigint beyond 64 bits, and binds a number as a double.
abbrev pub binds_sqlite : Option Amount → Bool
binds_sqlite none = true
binds_sqlite (some (as_number z)) = true
binds_sqlite (some (as_bigint z)) = fits_64 z

abbrev pub ledger_column : Option ℕ → Option ℤ
ledger_column none = none
ledger_column (some n) = some (pos n)

-- Whether the parameters of the INSERT are taken. PostgreSQL reads every one from its text, and
-- refuses what is out of the range of a BIGINT, whether it was a number or a bigint.
unfoldable pub binds : Kind → EventRow → Bool
binds sqlite row =
    binds_sqlite row.units
    && binds_sqlite row.rate_per_unit
    && binds_sqlite row.cost
    && binds_sqlite row.balance_after
binds postgres row =
    fits_or_null (Option.map integer row.units)
    && fits_or_null (Option.map integer row.rate_per_unit)
    && fits_or_null (Option.map integer row.cost)
    && fits_or_null (Option.map integer row.balance_after)
    && fits_or_null (ledger_column row.ledger)
    && fits_or_null row.seq
    && fits_or_null row.ledger_ts

abbrev pub same_event : Text → Option Text → Bool
same_event id none = false
same_event id (some k) = text_eq id k

-- The UNIQUE constraint on event_id: NULLs never conflict.
unfoldable pub conflicts : Option Text → List MeterRow → Bool
conflicts none rows = false
conflicts (some id) rows = any (λ r. same_event id r.event_id) rows

-- INSERT OR IGNORE: a row that breaks NOT NULL or UNIQUE is passed over.
unfoldable pub insert_or_ignore : List MeterRow → EventRow → Option Text → Outcome (List MeterRow)
insert_or_ignore rows row none = ok rows
insert_or_ignore rows row (some id) =
    ok (if conflicts row.event_id rows then rows else rows ++ filled id row ∷ [])

-- INSERT … ON CONFLICT (event_id) DO NOTHING: a NULL in a NOT NULL column is an error, before any
-- conflict is looked for.
unfoldable pub insert_on_conflict : List MeterRow → EventRow → Option Text → Outcome (List MeterRow)
insert_on_conflict rows row none = threw
insert_on_conflict rows row (some id) =
    if conflicts row.event_id rows then ok rows else ok (rows ++ filled id row ∷ [])

unfoldable pub insert_event :
    Kind → List MeterRow → EventRow → Option Text → Outcome (List MeterRow)
insert_event sqlite rows row device = insert_or_ignore rows row device
insert_event postgres rows row device = insert_on_conflict rows row device

abbrev pub with_events : CacheStore → Outcome (List MeterRow) → Outcome CacheStore
with_events s (ok rows) = ok (record s { meter_events = rows })
with_events s threw = threw

unfoldable pub ingest : EventRow → CacheStore → Outcome CacheStore
ingest row s =
    if binds s.kind row
    then with_events s (insert_event s.kind s.meter_events row row.device_id)
    else threw

-- INSERT … ON CONFLICT(key) DO UPDATE SET value = excluded.value
unfoldable pub upsert : Text → Text → List (Text × Text) → List (Text × Text)
upsert key value [] = (key, value) ∷ []
upsert key value ((k, v) ∷ rows) =
    if text_eq k key then (k, value) ∷ rows else (k, v) ∷ upsert key value rows

abbrev pub last_ledger_key : Text
last_ledger_key = text "last_ledger"

unfoldable pub set_last_ledger : ℕ → CacheStore → CacheStore
set_last_ledger ledger s = record s { meta = upsert last_ledger_key (decimal ledger) s.meta }

-- The argument of recordPendingReading.
pub record PendingReading : Type 0 where
  pub device_id : Text
  pub device_pubkey : Text
  pub seq : ℕ
  pub delta_units : ℕ
  pub timestamp_ms : ℕ
  pub tx_hash : Option Text

-- The row that the INSERT makes, with the automatic id and the time of the call.
abbrev pub pending_row : ℕ → Text → PendingReading → PendingRow
pending_row id now r = record {
  id = id;
  device_id = r.device_id;
  device_pubkey = r.device_pubkey;
  seq = r.seq;
  delta_units = r.delta_units;
  timestamp_ms = r.timestamp_ms;
  tx_hash = r.tx_hash;
  accepted_at = now;
}

-- `now` is the time of the call, new Date().toISOString().
unfoldable pub record_pending_reading : Text → PendingReading → CacheStore → CacheStore
record_pending_reading now r s = record s {
  pending_readings = s.pending_readings ++ pending_row s.next_id now r ∷ [];
  next_id = suc s.next_id;
}
