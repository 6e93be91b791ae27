-- ===== src/Service/Published.antt =====
-- lib.rs and indexer.js: the events that the contract publishes, as the RPC server gives them to
-- the indexer. How the host writes values as XDR, and what the SDK reads, are parameters.
use io_t_billing_service.Base.{ℕ, ◌≡◌, ◌≢◌, true, some, List, [], ◌∷◌, map, Text, text, ℤ, pos}
use io_t_billing_service.Decode.{text_value, bigint, xdr, Sdk}
use io_t_billing_service.Indexer.Event.{Event}
use io_t_billing_service.Contract
use io_t_billing_service.Contract.{Address, device_registered, deposited, meter, settlement}

-- The host's XDR values; `void` is that of `()`.
pub record HostValues (X : Type 0) : Type 0 where
  pub symbol : Text → X
  pub address : Address → X
  pub u64 : ℕ → X
  pub i128 : ℤ → X
  pub tuple : List X → X
  pub void : X

-- What scValToNative gives for the values that the host writes: a symbol's text, an address as
-- its text, and integers as bigints; a tuple is a vector.
pub record Reads {X : Type 0} (sdk : Sdk X) (host : HostValues X) (address_text : Address → Text)
    : Type 0 where
  pub reads_symbol : (t : Text) → sdk.to_native (host.symbol t) ≡ some (text_value t)
  pub reads_address :
      (a : Address) → sdk.to_native (host.address a) ≡ some (text_value (address_text a))
  pub reads_u64 : (n : ℕ) → sdk.to_native (host.u64 n) ≡ some (bigint (pos n))
  pub reads_i128 : (z : ℤ) → sdk.to_native (host.i128 z) ≡ some (bigint z)
  pub reads_tuple :
      (xs : List X) → (sdk.is_vec (host.tuple xs) ≡ true) × (sdk.vec (host.tuple xs) ≡ xs)
  pub has_text : (a : Address) → address_text a ≢ []

module _ {X : Type 0} (host : HostValues X) where
  abbrev pub topics : Contract.Event → List X
  topics (device_registered device_id operator rate_per_unit) =
      host.symbol (text "device_registered")
      ∷ host.address device_id
      ∷ host.address operator
      ∷ host.i128 rate_per_unit
      ∷ []
  topics (deposited device_id amount new_balance) =
      host.symbol (text "deposit")
      ∷ host.address device_id
      ∷ host.i128 amount
      ∷ host.i128 new_balance
      ∷ []
  topics (meter device_id delta_units total_cost balance data_seq now) =
      host.symbol (text "meter") ∷ host.address device_id ∷ []
  topics (settlement operator amount) =
      host.symbol (text "settlement") ∷ host.address operator ∷ host.i128 amount ∷ []

  abbrev pub data_of : Contract.Event → X
  data_of (meter device_id delta_units total_cost balance data_seq now) = host.tuple (
      host.u64 delta_units
      ∷ host.i128 total_cost
      ∷ host.i128 balance
      ∷ host.u64 data_seq
      ∷ host.u64 now
      ∷ [])
  data_of _ = host.void

  -- The event with the id and the ledger that it gets.
  abbrev pub published : Text → ℕ → Contract.Event → Event X
  published id ledger e = record {
    id = id;
    topic = map xdr (topics e);
    value = xdr (data_of e);
    ledger = ledger;
  }
