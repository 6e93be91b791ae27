-- ===== src/Store/Tables.antt =====
-- The tables of SCHEMA_SQLITE and SCHEMA_PG, and the state of a CacheStore.
-- A nullable column is an `Option`. The column `id` of meter_events is left out: no statement
-- reads it.
use io_t_billing_service.Base.{
  ℕ, Option, none, some, List, [], ◌∷◌, ◌++◌, Text, text, text_eq, any, if◌then◌else◌, ℤ,
}

pub data Kind : Type 0 where
  sqlite postgres : Kind

pub record MeterRow : Type 0 where
  pub event_id : Option Text
  pub contract_id : Option Text
  pub ledger : Option ℕ
  pub device_id : Text
  pub operator : Option Text
  pub units : ℤ
  pub rate_per_unit : ℤ
  pub cost : ℤ
  pub balance_after : Option ℤ
  pub seq : Option ℤ
  pub ledger_ts : Option ℤ
  pub emitted_at : Option Text
  pub raw : Option Text

pub record PendingRow : Type 0 where
  pub id : ℕ
  pub device_id : Text
  pub device_pubkey : Text
  pub seq : ℕ
  pub delta_units : ℕ
  pub timestamp_ms : ℕ
  pub tx_hash : Option Text
  pub accepted_at : Text

pub record CacheStore : Type 0 where
  pub kind : Kind
  -- the rows of `meta`, a key and its value
  pub meta : List (Text × Text)
  pub meter_events : List MeterRow
  pub pending_readings : List PendingRow
  -- the next value of the automatic ids of pending_readings
  pub next_id : ℕ

-- How a call ends: with a value, or with an exception (a rejected promise).
pub data Outcome {ℓ} (A : Type ℓ) : Type ℓ where
  ok : A → Outcome A
  threw : Outcome A

abbrev pub kind_of : Option Text → Kind
kind_of none = sqlite
kind_of (some []) = sqlite
kind_of (some (c ∷ s)) = postgres

-- `new CacheStore(…)`: `databaseUrl` is truthy or not. CREATE TABLE IF NOT EXISTS leaves the tables
-- of a database that is there as they are; `found` is what it holds, `none` a new one.
unfoldable pub new_store : Option Text → Option CacheStore → CacheStore
new_store url none = record {
  kind = kind_of url;
  meta = [];
  meter_events = [];
  pending_readings = [];
  next_id = 1;
}
new_store url (some found) = record found { kind = kind_of url }

abbrev pub ledger_ts_column : Text
ledger_ts_column = text "ledger_ts"

-- `migrateCompat`, on the names of the columns of meter_events: an older table of SQLite gets the
-- column that it lacks.
unfoldable pub migrate_compat : List Text → List Text
migrate_compat columns =
    if any (text_eq ledger_ts_column) columns then columns else columns ++ ledger_ts_column ∷ []
