-- ===== src/Gateway/Acceptance.antt =====
-- Which requests are accepted, and what they leave in the store.
use io_t_billing_service.Base.{
  ℕ, ◌≡◌, refl, true, ◌&&◌, Option, none, some, Text, length, ◌==◌, inl, inr, Bool-cases,
  Option-cases,
}
use io_t_billing_service.Store.{CacheStore, PendingReading, record_pending_reading}
use io_t_billing_service.Gateway.Buffers.{Bytes}
use io_t_billing_service.Gateway.Payload.{verify_device_signature}
use io_t_billing_service.Gateway.Request.{
  Json, Body, Platform, Config, relay_reading, Reply, relayed, relay_failed, accepted, crashed,
  parse_u64, buffer_from, bind_text, is_set, reading_of, Numbers,
}
use io_t_billing_service.Gateway.Handler.{
  record_reading, relay, accept, verify_and_accept, check_numbers, check_fields, post_reading,
}

-- A reply that tells the device that its reading was taken.
abbrev pub IsTaken : Reply → Type 0
IsTaken (relayed hash device) = Unit
IsTaken (accepted device) = Unit
IsTaken _ = ⊥

-- What a call has done: it took a reading whose signature it had verified and recorded that
-- reading, or it left the store alone.
pub data Result (p : Platform) (b : Body) (s : CacheStore) : Reply × CacheStore → Type 0 where
  taken :
      {o : Reply × CacheStore} (key signature seq delta ts : Json) (pubkey sig : Bytes)
      (n : Numbers) (r : PendingReading)
      → (b.device_pubkey ≡ some key)
        × (b.signature ≡ some signature)
        × (b.seq ≡ some seq)
        × (b.delta_units ≡ some delta)
        × (b.timestamp_ms ≡ some ts)
      → (parse_u64 p.number_of_text seq ≡ some n.seq)
        × (parse_u64 p.number_of_text delta ≡ some n.delta_units)
        × (parse_u64 p.number_of_text ts ≡ some n.timestamp_ms)
      → (buffer_from key ≡ some pubkey) × (buffer_from signature ≡ some sig)
      → verify_device_signature p.crypto pubkey n.seq n.delta_units n.timestamp_ms sig ≡ true
      → (p.encode_key pubkey ≡ some r.device_id)
        × (r.seq ≡ n.seq)
        × (r.delta_units ≡ n.delta_units)
        × (r.timestamp_ms ≡ n.timestamp_ms)
      → IsTaken o.0
      → o.1 ≡ record_pending_reading p.now r s
      → Result p b s o
  refused : {o : Reply × CacheStore} → ¬ IsTaken o.0 → o.1 ≡ s → Result p b s o

-- The same, of a reading whose numbers and key have been read and whose signature is valid.
data Recorded (p : Platform) (pubkey : Bytes) (n : Numbers) (s : CacheStore)
    : Reply × CacheStore → Type 0 where
  recorded :
      {o : Reply × CacheStore} (r : PendingReading)
      → (p.encode_key pubkey ≡ some r.device_id)
        × (r.seq ≡ n.seq)
        × (r.delta_units ≡ n.delta_units)
        × (r.timestamp_ms ≡ n.timestamp_ms)
      → IsTaken o.0
      → o.1 ≡ record_pending_reading p.now r s
      → Recorded p pubkey n s o
  unrecorded : {o : Reply × CacheStore} → ¬ IsTaken o.0 → o.1 ≡ s → Recorded p pubkey n s o

module _ (p : Platform) (config : Config) (pubkey : Bytes) (n : Numbers) (s : CacheStore) where
  record_reading-Recorded :
      (key : Json) (device : Text) (tx_hash : Option Text) (done failure : Reply)
      → p.encode_key pubkey ≡ some device
      → IsTaken done
      → ¬ IsTaken failure
      → Recorded p pubkey n s (record_reading p config key device n tx_hash done failure s)
  unfolding record_reading
  record_reading-Recorded key device tx_hash done failure e d f =
      elim (Option-cases (bind_text p.bind_composite key)) [
        | inl unbound ↦ rw (unbound, record_reading) (unrecorded f refl)
        | inr (k, bound) ↦ rw (bound, record_reading) (recorded _ (e, refl, refl, refl) d refl)
      ]

  relay-Recorded :
      (key : Json) (device : Text) (sig : Bytes)
      → p.encode_key pubkey ≡ some device
      → Recorded p pubkey n s (relay p config key device sig n s)
  unfolding relay
  relay-Recorded key device sig e =
      elim (Option-cases (relay_reading (config.submit (reading_of device sig n)))) [
        | inl failed ↦ rw (failed, relay) (unrecorded (λ h. h) refl)
        | inr (hash, sent) ↦
            rw (sent, relay)
              (record_reading-Recorded key device (some hash) (relayed hash device) relay_failed e
                tt (λ h. h))
      ]

  accept-Recorded :
      (key : Json) (sig : Bytes) → Recorded p pubkey n s (accept p config key pubkey sig n s)
  unfolding accept
  accept-Recorded key sig = elim (Option-cases (p.encode_key pubkey)) [
    | inl invalid ↦ rw (invalid, accept) (unrecorded (λ h. h) refl)
    | inr (device, e) ↦
        elim (Bool-cases (is_set config.contract_id && is_set config.relayer_secret)) [
          | inl relays ↦ rw (e, accept, relays) (relay-Recorded key device sig e)
          | inr alone ↦
              rw (e, accept, alone)
                (record_reading-Recorded key device none (accepted device) crashed e tt (λ h. h))
        ]
  ]

module _ (p : Platform) (config : Config) (b : Body) (s : CacheStore) where
  Recorded-Result :
      {o : Reply × CacheStore} (key signature seq delta ts : Json) (pubkey sig : Bytes)
      (n : Numbers)
      → (b.device_pubkey ≡ some key)
        × (b.signature ≡ some signature)
        × (b.seq ≡ some seq)
        × (b.delta_units ≡ some delta)
        × (b.timestamp_ms ≡ some ts)
      → (parse_u64 p.number_of_text seq ≡ some n.seq)
        × (parse_u64 p.number_of_text delta ≡ some n.delta_units)
        × (parse_u64 p.number_of_text ts ≡ some n.timestamp_ms)
      → (buffer_from key ≡ some pubkey) × (buffer_from signature ≡ some sig)
      → verify_device_signature p.crypto pubkey n.seq n.delta_units n.timestamp_ms sig ≡ true
      → Recorded p pubkey n s o
      → Result p b s o
  Recorded-Result key signature seq delta ts pubkey sig n fields numbers buffers valid
        (recorded r e t w) =
      taken key signature seq delta ts pubkey sig n r fields numbers buffers valid e t w
  Recorded-Result key signature seq delta ts pubkey sig n fields numbers buffers valid
        (unrecorded t w) =
      refused t w

  verify_and_accept-Result :
      (key signature seq delta ts : Json) (k g : Option Bytes) (n : Numbers)
      → (b.device_pubkey ≡ some key)
        × (b.signature ≡ some signature)
        × (b.seq ≡ some seq)
        × (b.delta_units ≡ some delta)
        × (b.timestamp_ms ≡ some ts)
      → (parse_u64 p.number_of_text seq ≡ some n.seq)
        × (parse_u64 p.number_of_text delta ≡ some n.delta_units)
        × (parse_u64 p.number_of_text ts ≡ some n.timestamp_ms)
      → (buffer_from key ≡ k) × (buffer_from signature ≡ g)
      → Result p b s (verify_and_accept p config key signature k g n s)
  unfolding verify_and_accept
  verify_and_accept-Result key signature seq delta ts none g n fields numbers buffers =
      refused (λ h. h) refl
  verify_and_accept-Result key signature seq delta ts (some pubkey) none n fields numbers buffers =
      elim (Bool-cases (length pubkey == 32)) [
        | inl right ↦ rw right (refused (λ h. h) refl)
        | inr wrong ↦ rw wrong (refused (λ h. h) refl)
      ]
  verify_and_accept-Result key signature seq delta ts (some pubkey) (some sig) n fields numbers
        buffers =
      elim (Bool-cases
        (verify_device_signature p.crypto pubkey n.seq n.delta_units n.timestamp_ms sig)) [
          | inl valid ↦ rw valid (
              Recorded-Result key signature seq delta ts pubkey sig n fields numbers buffers valid
                (accept-Recorded p config pubkey n s key sig))
          | inr invalid ↦ rw invalid (refused (λ h. h) refl)
        ]

  check_numbers-Result :
      (key signature seq delta ts : Json) (x y z : Option ℕ)
      → (b.device_pubkey ≡ some key)
        × (b.signature ≡ some signature)
        × (b.seq ≡ some seq)
        × (b.delta_units ≡ some delta)
        × (b.timestamp_ms ≡ some ts)
      → (parse_u64 p.number_of_text seq ≡ x)
        × (parse_u64 p.number_of_text delta ≡ y)
        × (parse_u64 p.number_of_text ts ≡ z)
      → Result p b s (check_numbers p config key signature x y z s)
  unfolding check_numbers
  check_numbers-Result key signature seq delta ts none y z fields numbers = refused (λ h. h) refl
  check_numbers-Result key signature seq delta ts (some x) none z fields numbers =
      refused (λ h. h) refl
  check_numbers-Result key signature seq delta ts (some x) (some y) none fields numbers =
      refused (λ h. h) refl
  check_numbers-Result key signature seq delta ts (some x) (some y) (some z) fields numbers =
      verify_and_accept-Result key signature seq delta ts (buffer_from key) (buffer_from signature)
        _ fields numbers (refl, refl)

  check_fields-Result :
      (key seq delta ts signature : Option Json)
      → (b.device_pubkey ≡ key)
        × (b.signature ≡ signature)
        × (b.seq ≡ seq)
        × (b.delta_units ≡ delta)
        × (b.timestamp_ms ≡ ts)
      → Result p b s (check_fields p config key seq delta ts signature s)
  unfolding check_fields
  check_fields-Result (some key) (some seq) (some delta) (some ts) (some signature) fields =
      check_numbers-Result key signature seq delta ts _ _ _ fields (refl, refl, refl)
  check_fields-Result _ _ _ _ _ fields = refused (λ h. h) refl

  -- Whatever the request, the relay and the driver: a 200 or 202 is given only for a reading whose
  -- signature by the key in the request was verified over just the numbers of the request, and
  -- then exactly that reading is recorded, under the address of that key; any other outcome leaves
  -- the store as it was.
  pub post_reading-Result : Result p b s (post_reading p config b s)
  unfolding post_reading
  post_reading-Result = check_fields-Result _ _ _ _ _ (refl, refl, refl, refl, refl)

-- A request with all its fields and three readable numbers, whose device_pubkey is of a type that
-- Buffer.from refuses (a number, a boolean, null), makes the handler raise an exception outside
-- of its `try` blocks: nothing replies.
pub post_reading_crashes :
    (p : Platform) (config : Config) (s : CacheStore) (key seq delta ts signature : Json)
    (n d t : ℕ)
    → buffer_from key ≡ none
    → parse_u64 p.number_of_text seq ≡ some n
    → parse_u64 p.number_of_text delta ≡ some d
    → parse_u64 p.number_of_text ts ≡ some t
    → post_reading p config
        (record {
          device_pubkey = some key;
          seq = some seq;
          delta_units = some delta;
          timestamp_ms = some ts;
          signature = some signature;
        })
        s
      ≡ (crashed, s)
unfolding post_reading check_fields check_numbers verify_and_accept
post_reading_crashes p config s key seq delta ts signature n d t k a b c = rw (a, b, c, k) refl
