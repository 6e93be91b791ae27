-- ===== src/Gateway/Request.antt =====
-- POST /api/readings: what the handler reads of a request, what the relay answers, the replies.
use io_t_billing_service.Base.{
  ℕ, ◌^◌, Bool, true, false, Option, none, some, List, [], ◌∷◌, Text, ltb, pos, negsuc,
  if◌then◌else◌,
}
use io_t_billing_service.Decode.{Number, int, non_int}
use io_t_billing_service.Gateway.Buffers.{Bytes, hex_bytes}
use io_t_billing_service.Gateway.Payload.{Crypto}

-- A value of the JSON body. An array or object is known by the text that Number() converts it
-- through, and by what Buffer.from makes of it, where `none` is a TypeError.
pub data Json : Type 0 where
  null : Json
  bool : Bool → Json
  num : Number → Json
  str : Text → Json
  composite : Text → Option Bytes → Json

-- The fields of the body that the handler reads; `none` is undefined.
pub record Body : Type 0 where
  pub device_pubkey : Option Json
  pub seq : Option Json
  pub delta_units : Option Json
  pub timestamp_ms : Option Json
  pub signature : Option Json

-- What the handler's environment gives: Number() of a text, node:crypto, the SDK's
-- StrKey.encodeEd25519PublicKey (`none` is an exception), how the database driver binds an array
-- or object as a text (`none` is an exception), and the time.
pub record Platform : Type 0 where
  pub number_of_text : Text → Number
  pub crypto : Crypto
  pub encode_key : Bytes → Option Text
  pub bind_composite : Text → Option Text
  pub now : Text

-- The reading that is relayed.
pub record Reading : Type 0 where
  pub device_address : Text
  pub sig : Bytes
  pub delta_units : ℕ
  pub seq : ℕ
  pub timestamp_ms : ℕ

-- `res` of sendTransaction, by its status; `none` of the relay is an exception of the SDK, in
-- sendTransaction or a call before it.
pub data Sent : Type 0 where
  pending success : Text → Sent
  error : List Text → Sent
  other_status : Text → Sent

pub record Config : Type 0 where
  pub contract_id : Text
  pub relayer_secret : Text
  pub submit : Reading → Option Sent

-- `relayReading`: the hash, or an exception.
unfoldable pub relay_reading : Option Sent → Option Text
relay_reading none = none
relay_reading (some (pending hash)) = some hash
relay_reading (some (success hash)) = some hash
relay_reading (some (error codes)) = none
relay_reading (some (other_status status)) = none

-- The replies. `crashed` is an exception outside of the handler's `try` blocks: the promise of
-- the handler is rejected, and nothing replies.
pub data Reply : Type 0 where
  missing_fields : List Text → Reply
  bad_number : Text → Reply
  invalid_signature : Reply
  invalid_pubkey : Reply
  relayed : Text → Text → Reply
  relay_failed : Reply
  accepted : Text → Reply
  crashed : Reply

abbrev pub status : Reply → Option ℕ
status (missing_fields names) = some 400
status (bad_number name) = some 400
status invalid_signature = some 401
status invalid_pubkey = some 400
status (relayed hash device) = some 200
status relay_failed = some 502
status (accepted device) = some 202
status crashed = none

abbrev pub missing_field : Text → Option Json → List Text
missing_field name none = name ∷ []
missing_field name (some v) = []

-- `Number.isSafeInteger(n) && n >= 0`
unfoldable pub safe_natural : Number → Option ℕ
safe_natural (int (pos n)) = if ltb n (2 ^ 53) then some n else none
safe_natural (int (negsuc n)) = none
safe_natural (non_int t) = none

unfoldable pub number_of : (Text → Number) → Json → Number
number_of of_text null = int (pos 0)
number_of of_text (bool true) = int (pos 1)
number_of of_text (bool false) = int (pos 0)
number_of of_text (num n) = n
number_of of_text (str t) = of_text t
number_of of_text (composite t b) = of_text t

-- `parseU64`; `none` is its TypeError.
unfoldable pub parse_u64 : (Text → Number) → Json → Option ℕ
parse_u64 of_text v = safe_natural (number_of of_text v)

-- Buffer.from(v, 'hex'); `none` is a TypeError.
unfoldable pub buffer_from : Json → Option Bytes
buffer_from (str t) = some (hex_bytes t)
buffer_from (composite t b) = b
buffer_from _ = none

unfoldable pub bind_text : (Text → Option Text) → Json → Option Text
bind_text composite_text (str t) = some t
bind_text composite_text (composite t b) = composite_text t
bind_text composite_text _ = none

abbrev pub is_set : Text → Bool
is_set [] = false
is_set (c ∷ s) = true

-- The numbers of a reading, once parsed.
pub record Numbers : Type 0 where
  pub seq : ℕ
  pub delta_units : ℕ
  pub timestamp_ms : ℕ

abbrev pub reading_of : Text → Bytes → Numbers → Reading
reading_of device sig n = record {
  device_address = device;
  sig = sig;
  delta_units = n.delta_units;
  seq = n.seq;
  timestamp_ms = n.timestamp_ms;
}
