-- ===== src/Contract/Accessors.antt =====
-- storage.rs: reading and writing the entries. `bump_ttl` changes no entry and is left out.
use io_t_billing_service.Base.{Option, some}
use io_t_billing_service.Contract.Host.{Address}
use io_t_billing_service.Contract.Storage.{
  Storage, DeviceRegistration, TariffRate, DepositBalance, ReadingCounter, OperatorBalance, get,
  set,
}

abbrev pub set_token : Address → Storage → Storage
set_token token st = record st { token = some token }

abbrev pub token : Storage → Option Address
token st = st.token

abbrev pub write_registration : Address → DeviceRegistration → Storage → Storage
write_registration id reg st = record st { registrations = set id reg st.registrations }

abbrev pub registration : Address → Storage → Option DeviceRegistration
registration id st = get id st.registrations

abbrev pub write_tariff : Address → TariffRate → Storage → Storage
write_tariff id rate st = record st { tariffs = set id rate st.tariffs }

abbrev pub tariff : Address → Storage → Option TariffRate
tariff id st = get id st.tariffs

abbrev pub write_deposit : Address → DepositBalance → Storage → Storage
write_deposit id balance st = record st { deposits = set id balance st.deposits }

abbrev pub deposit : Address → Storage → Option DepositBalance
deposit id st = get id st.deposits

abbrev pub write_reading : Address → ReadingCounter → Storage → Storage
write_reading id rdg st = record st { readings = set id rdg st.readings }

abbrev pub reading : Address → Storage → Option ReadingCounter
reading id st = get id st.readings

abbrev pub write_operator_balance : Address → OperatorBalance → Storage → Storage
write_operator_balance operator balance st = record st {
  operators = set operator balance st.operators;
}
