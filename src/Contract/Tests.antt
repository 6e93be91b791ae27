-- ===== src/Contract/Tests.antt =====
-- Runs of the contract on a small ledger: a device is registered, funded and charged, and its
-- operator is paid.
use io_t_billing_service.Base.{
  ◌<◌, ◌≡◌, refl, true, not, ◌==◌, Option, none, some, [], ◌∷◌, text, length, ℤ, pos, ◌+ℤ◌, ◌-ℤ◌,
  ◌*ℤ◌, ltb_ℤ, if◌then◌else◌, arith, List,
}
use io_t_billing_service.Gateway.{Bytes, Crypto, verify_device_signature}
use io_t_billing_service.Contract.Host
use io_t_billing_service.Contract.Host.{Address, Host, Call, ok, active}
use io_t_billing_service.Contract.Storage
use io_t_billing_service.Contract.Storage.{
  World, ReadingCounter, Event, device_registered, deposited, settlement, meter, verify_signature,
}
use io_t_billing_service.Contract.Entry
use io_t_billing_service.Contract.Entry.{submit_reading, register_device}
use io_t_billing_service.Contract.Queries.{get_registration, get_tariff}
use io_t_billing_service.Contract.Registered.{registered_stays}
use io_t_billing_service.Contract.Solvency.{MovesTokens, IsSolvent}
use io_t_billing_service.Contract.Custody.{Later-IsSolvent}
use io_t_billing_service.Contract.Journal.{IsJournaled, Later-IsJournaled}
use io_t_billing_service.Contract.Accepted.{Accepted, submit_reading_charged}
use io_t_billing_service.Contract.Replay.{submit_reading_once}
use io_t_billing_service.Contract.Success.{submit_reading_succeeds}
use io_t_billing_service.Contract.Agreement.{verify_device_signature-verify_signature}
use io_t_billing_service.Contract.History.{
  register, fund, submit, settle, run, Later, now, called, deployed,
}

abbrev pub Ledger : Type 0
Ledger = Address → ℤ

-- Address 0 is the contract.
abbrev move : Address → Address → ℤ → Ledger → Option Ledger
move from to amount t =
    if ltb_ℤ (t from) amount
    then none
    else some (λ a. if a == to then t a +ℤ amount else if a == from then t a -ℤ amount else t a)

abbrev pub host : Host Ledger
host = record {
  current_contract = 0;
  balance = λ token a t. t a;
  transfer = λ token. move;
  ed25519_verify = λ key payload sig. length sig == 64;
}

move_lem : MovesTokens host 9
move_lem from to amount t t' n h = ground arith

abbrev pub call : Call
call = record { timestamp = 1000; authorized = λ a. not (a == 0) }

abbrev pub purse : Ledger
purse a = if a == 1 then pos 500 else pos 0

abbrev pub sig : Bytes
sig = text "0123456789012345678901234567890123456789012345678901234567890123"

abbrev pub key : Bytes
key = text "01234567890123456789012345678901"

-- The world of the registered device, with its deposit, the earnings and the counter.
abbrev world : ℤ → ℤ → ReadingCounter → List Event → World Ledger
world deposit earned rdg events = record {
  tokens = purse;
  storage = record {
    token = some 9;
    registrations =
        (1, record { operator = 2; status = active; registered_at = 1000; device_pubkey = key })
        ∷ [];
    tariffs = (1, record { rate_per_unit = pos 5 }) ∷ [];
    deposits = (1, record { amount = deposit }) ∷ [];
    readings = (1, rdg) ∷ [];
    operators = (2, record { total_earned = earned; total_settled = pos 0 }) ∷ [];
  };
  events = events;
}

abbrev pub funded : World Ledger
funded = world (pos 100) (pos 0) (record { last_seq = 0; last_ts = 0; cumulative_units = 0 }) []

abbrev first_event : Event
first_event = meter 1 10 (pos 50) (pos 50) 1 1000

abbrev pub charged : World Ledger
charged =
    world (pos 50) (pos 50) (record { last_seq = 1; last_ts = 1000; cumulative_units = 10 })
      (first_event ∷ [])

-- The same with a deposit of 2 ^ 64.
abbrev pub rich : World Ledger
rich =
    world (pos 18446744073709551616) (pos 0)
      (record { last_seq = 0; last_ts = 0; cumulative_units = 0 }) []

abbrev pub rich_charged : World Ledger
rich_charged =
    world (pos 18446744073709551566) (pos 50)
      (record { last_seq = 1; last_ts = 1000; cumulative_units = 10 })
      (meter 1 10 (pos 50) (pos 18446744073709551566) 1 1000 ∷ [])

abbrev charged_again : World Ledger
charged_again =
    world (pos 30) (pos 70) (record { last_seq = 2; last_ts = 1000; cumulative_units = 14 })
      (first_event ∷ meter 1 4 (pos 20) (pos 30) 2 1000 ∷ [])

contract : Unit {0}
unfolding submit_reading Entry.◌>>=◌ Entry.gets Entry.ok_or Storage.get Entry.fail_if Entry.modify
    Entry.publish Entry.pure Storage.set Host.fits_128 ◌+ℤ◌ ◌*ℤ◌ ◌-ℤ◌ Entry.lift Entry.sub_or_trap
    verify_signature
contract = tt

pub charges : submit_reading host call 1 10 1 7 sig funded ≡ (ok (pos 50), charged)
unfolding contract
charges = refl

pub charges_rich : submit_reading host call 1 10 1 7 sig rich ≡ (ok (pos 50), rich_charged)
unfolding contract
charges_rich = refl

charges_again : submit_reading host call 1 4 2 8 sig charged ≡ (ok (pos 20), charged_again)
unfolding contract
charges_again = refl

abbrev pub paid : World Ledger
paid = run host call (settle 2 (pos 30)) (
    run host call (submit 1 10 1 7 sig) (
      run host call (fund 1 (pos 100))
        (run host call (register 1 key 2 (pos 5)) (deployed 9 purse))))

pub paid-Later : Later host 9 (deployed 9 purse) paid
paid-Later =
    called
      (called
        (called (called now call (register 1 key 2 (pos 5)) refl) call (fund 1 (pos 100)) refl) call
        (submit 1 10 1 7 sig) refl)
      call (settle 2 (pos 30)) refl

pub paid-events :
    paid.events
    ≡ device_registered 1 2 (pos 5)
      ∷ deposited 1 (pos 100) (pos 100)
      ∷ meter 1 10 (pos 50) (pos 50) 1 1000
      ∷ settlement 2 (pos 30)
      ∷ []
unfolding Entry.construct Entry.register_device Entry.deposit_funds submit_reading
    Entry.settle_balance Entry.◌>>=◌ Entry.gets Entry.ok_or Storage.get Entry.fail_if Entry.modify
    Entry.publish Entry.pure Storage.set Host.fits_128 ◌+ℤ◌ ◌*ℤ◌ ◌-ℤ◌ Entry.lift Entry.sub_or_trap
    verify_signature Host.saturating_sub Entry.trap_unless Entry.put_tokens Entry.change_tokens
paid-events = refl

Later-IsSolvent_example : IsSolvent host 9 paid
Later-IsSolvent_example = Later-IsSolvent host 9 move_lem purse (omega arith) paid paid-Later

Later-IsJournaled_example : IsJournaled paid
Later-IsJournaled_example = Later-IsJournaled host 9 purse paid paid-Later

submit_reading_charged_example : Accepted host call 1 10 1 7 sig funded (pos 50) charged
submit_reading_charged_example =
    submit_reading_charged host call 1 10 1 7 sig funded charged (pos 50) charges

submit_reading_once_example : 1 < 2
submit_reading_once_example =
    submit_reading_once host call call 9 1 10 4 1 2 7 8 sig sig funded charged charged charged_again
      (pos 50) (pos 20) charges now charges_again

abbrev crypto : Crypto
crypto = record { is_key = λ key. true; verify = λ key payload sig. length sig == 64 }

verify_device_signature-verify_signature_example : verify_signature host key 1 10 7 sig ≡ ok tt
unfolding verify_device_signature
verify_device_signature-verify_signature_example =
    verify_device_signature-verify_signature crypto host (λ k p s. refl) key 1 10 7 sig refl

submit_reading_succeeds_example : (submit_reading host call 1 10 1 7 sig funded).0 ≡ ok (pos 50)
unfolding Storage.get ◌*ℤ◌ ◌-ℤ◌ ◌+ℤ◌ Host.fits_128
submit_reading_succeeds_example =
    submit_reading_succeeds host call 1 10 1 7 sig funded
      (record { operator = 2; status = active; registered_at = 1000; device_pubkey = key })
      (record { rate_per_unit = pos 5 }) (record { amount = pos 100 }) (pos 50) (refl, refl)
      (refl, omega arith) (refl, omega arith) (omega arith) refl (refl, refl) refl
      (refl, refl, refl) (omega arith, omega arith)

abbrev registered : World Ledger
registered = run host call (register 1 key 2 (pos 5)) (deployed 9 purse)

registers : register_device host call 1 key 2 (pos 5) (deployed 9 purse) ≡ (ok true, registered)
unfolding register_device Entry.◌>>=◌ Entry.gets Storage.get Entry.fail_if Entry.modify
    Entry.publish Entry.pure Storage.set Entry.trap_unless Entry.construct
registers = refl

registered_stays_example :
    (get_registration 1 paid
      ≡ some (record { operator = 2; status = active; registered_at = 1000; device_pubkey = key }))
    × (get_tariff 1 paid ≡ some (record { rate_per_unit = pos 5 }))
registered_stays_example =
    registered_stays host call 9 1 key 2 (pos 5) true (deployed 9 purse) registered paid registers (
      called (called (called now call (fund 1 (pos 100)) refl) call (submit 1 10 1 7 sig) refl) call
        (settle 2 (pos 30)) refl)
