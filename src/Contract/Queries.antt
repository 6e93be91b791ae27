-- ===== src/Contract/Queries.antt =====
-- lib.rs: the read-only entry points.
use io_t_billing_service.Base.{ℤ, Option}
use io_t_billing_service.Contract.Host.{Address}
use io_t_billing_service.Contract.Storage.{
  World, DeviceRegistration, TariffRate, ReadingCounter, OperatorBalance, read_operator_balance,
}
use mathlib.Core.Option
use io_t_billing_service.Contract.Accessors.{registration, tariff, deposit, reading}

module _ {T : Type 0} where
  abbrev pub get_registration : Address → World T → Option DeviceRegistration
  get_registration device_id w = registration device_id w.storage

  abbrev pub get_tariff : Address → World T → Option TariffRate
  get_tariff device_id w = tariff device_id w.storage

  abbrev pub get_balance : Address → World T → Option ℤ
  get_balance device_id w = Option.map (λ d. d.amount) (deposit device_id w.storage)

  abbrev pub get_reading : Address → World T → Option ReadingCounter
  get_reading device_id w = reading device_id w.storage

  abbrev pub get_operator_balance : Address → World T → OperatorBalance
  get_operator_balance operator w = read_operator_balance operator w.storage
