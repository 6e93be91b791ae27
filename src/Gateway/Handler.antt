-- ===== src/Gateway/Handler.antt =====
-- POST /api/readings: the handler, from its checks to the relay and the replies.
use io_t_billing_service.Base.{
  ℕ, ◌&&◌, Option, none, some, ◌++◌, Text, text, length, ◌==◌, if◌then◌else◌,
}
use io_t_billing_service.Store.{CacheStore, record_pending_reading}
use io_t_billing_service.Gateway.Buffers.{Bytes}
use io_t_billing_service.Gateway.Payload.{verify_device_signature}
use io_t_billing_service.Gateway.Request.{
  Json, Body, Platform, Config, relay_reading, Reply, missing_field, parse_u64, buffer_from,
  bind_text, is_set, Numbers, reading_of, missing_fields, bad_number, invalid_signature,
  invalid_pubkey, relayed, relay_failed, accepted, crashed,
}

module _ (p : Platform) (config : Config) where
  -- `storage.recordPendingReading(…)`; the driver may refuse to bind the key.
  unfoldable pub record_reading :
      Json → Text → Numbers → Option Text → Reply → Reply → CacheStore → Reply × CacheStore
  record_reading key device n tx_hash done refused s = elim (bind_text p.bind_composite key) [
    | none ↦ (refused, s)
    | some k ↦ (
      done,
      record_pending_reading p.now
          (record {
            device_id = device;
            device_pubkey = k;
            seq = n.seq;
            delta_units = n.delta_units;
            timestamp_ms = n.timestamp_ms;
            tx_hash = tx_hash;
          })
          s,
    )
  ]

  -- Within `try`, an exception of the relay or of the store is a 502.
  unfoldable pub relay : Json → Text → Bytes → Numbers → CacheStore → Reply × CacheStore
  relay key device sig n s = elim (relay_reading (config.submit (reading_of device sig n))) [
    | none ↦ (relay_failed, s)
    | some hash ↦ record_reading key device n (some hash) (relayed hash device) relay_failed s
  ]

  -- After the signature has been checked.
  unfoldable pub accept : Json → Bytes → Bytes → Numbers → CacheStore → Reply × CacheStore
  accept key pubkey sig n s = elim (p.encode_key pubkey) [
    | none ↦ (invalid_pubkey, s)
    | some device ↦
        if is_set config.contract_id && is_set config.relayer_secret
        then relay key device sig n s
        else record_reading key device n none (accepted device) crashed s
  ]

  -- The key is read and its length checked before the signature is read.
  unfoldable pub verify_and_accept :
      Json → Json → Option Bytes → Option Bytes → Numbers → CacheStore → Reply × CacheStore
  verify_and_accept key signature none sig n s = (crashed, s)
  verify_and_accept key signature (some pubkey) none n s =
      if length pubkey == 32 then (crashed, s) else (invalid_signature, s)
  verify_and_accept key signature (some pubkey) (some sig) n s =
      if verify_device_signature p.crypto pubkey n.seq n.delta_units n.timestamp_ms sig
      then accept key pubkey sig n s
      else (invalid_signature, s)

  -- The three numbers are parsed in turn, and the first that fails is reported.
  unfoldable pub check_numbers :
      Json → Json → Option ℕ → Option ℕ → Option ℕ → CacheStore → Reply × CacheStore
  check_numbers key signature none delta ts s = (bad_number (text "seq"), s)
  check_numbers key signature (some seq) none ts s = (bad_number (text "delta_units"), s)
  check_numbers key signature (some seq) (some delta) none s = (bad_number (text "timestamp_ms"), s)
  check_numbers key signature (some seq) (some delta) (some ts) s =
      verify_and_accept key signature (buffer_from key) (buffer_from signature)
        (record { seq = seq; delta_units = delta; timestamp_ms = ts }) s

  unfoldable pub check_fields :
      Option Json
      → Option Json
      → Option Json
      → Option Json
      → Option Json
      → CacheStore
      → Reply × CacheStore
  check_fields (some key) (some seq) (some delta) (some ts) (some signature) s =
      check_numbers key signature (parse_u64 p.number_of_text seq)
        (parse_u64 p.number_of_text delta) (parse_u64 p.number_of_text ts) s
  check_fields key seq delta ts signature s = (
    missing_fields (
        missing_field (text "device_pubkey") key
        ++ missing_field (text "seq") seq
        ++ missing_field (text "delta_units") delta
        ++ missing_field (text "timestamp_ms") ts
        ++ missing_field (text "signature") signature),
    s,
  )

  unfoldable pub post_reading : Body → CacheStore → Reply × CacheStore
  post_reading b s = check_fields b.device_pubkey b.seq b.delta_units b.timestamp_ms b.signature s
