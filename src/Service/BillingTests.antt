-- ===== src/Service/BillingTests.antt =====
-- A charge of the contract's test ledger on its way to the cache.
use io_t_billing_service.Base.{
  ◌+ℤ◌, keep, arith, ◌≡◌, refl, ap, true, false, none, some, List, [], ◌∷◌, ◌++◌, Option, Bool,
  Text, text, ℤ, pos,
}
use io_t_billing_service.Js.{decimal}
use io_t_billing_service.Decode.{Native, text_value, bigint, null_value, object, Sdk}
use io_t_billing_service.Store.{MeterRow, new_store, conflicts, fits_64, get_last_ledger}
use io_t_billing_service.Indexer.{State, Setup, handled, handle_event, Rpc, Page, poll, abandoned}
use io_t_billing_service.Contract.{Address, meter, get, get_balance}
use io_t_billing_service.Api
use io_t_billing_service.Api.{whole_range}
use io_t_billing_service.Sql.{sum_of}
use io_t_billing_service.Store.{selected}
use io_t_billing_service.Store.Totals.{AreSmall, AreSmall-keep}
use io_t_billing_service.Api.Growth.{with_row}
use io_t_billing_service.Contract.Tests.{
  host, call, sig, funded, charged, charges, rich, rich_charged, charges_rich,
}
use io_t_billing_service.Service.Oversized.{large_deposit_stalls}
use io_t_billing_service.Service.Published.{HostValues, Reads, published}
use io_t_billing_service.Service.Billing.{
  AreInRange, Billed, event_row, meter_row, charged_reading_is_stored,
}

-- Values in the place of the SDK's XDR.
mutual
  pub data Value : Type 0 where
    symbol_value : Text → Value
    address_value : Address → Value
    int_value : ℤ → Value
    vec_value : Values → Value
    void_value : Value

  pub data Values : Type 0 where
    no_values : Values
    value_then : Value → Values → Values

abbrev listed : Values → List Value
listed no_values = []
listed (value_then v vs) = v ∷ listed vs

abbrev values_of : List Value → Values
values_of [] = no_values
values_of (v ∷ vs) = value_then v (values_of vs)

listed-values_of : (vs : List Value) → listed (values_of vs) ≡ vs
listed-values_of [] = refl
listed-values_of (v ∷ vs) = ap (λ xs. v ∷ xs) (listed-values_of vs)

abbrev pub address_text : Address → Text
address_text a = b'D' ∷ decimal a

abbrev native_of : Value → Option Native
native_of (symbol_value t) = some (text_value t)
native_of (address_value a) = some (text_value (address_text a))
native_of (int_value z) = some (bigint z)
native_of (vec_value vs) = some (object [])
native_of void_value = some null_value

abbrev is_vec_value : Value → Bool
is_vec_value (vec_value vs) = true
is_vec_value _ = false

abbrev vec_of : Value → List Value
vec_of (vec_value vs) = listed vs
vec_of _ = []

abbrev pub sdk : Sdk Value
sdk = record { to_native = native_of; is_vec = is_vec_value; vec = vec_of }

abbrev pub values : HostValues Value
values = record {
  symbol = symbol_value;
  address = address_value;
  u64 = λ n. int_value (pos n);
  i128 = int_value;
  tuple = λ vs. vec_value (values_of vs);
  void = void_value;
}

pub values-Reads : Reads sdk values address_text
values-Reads = record {
  reads_symbol = λ t. refl;
  reads_address = λ a. refl;
  reads_u64 = λ n. refl;
  reads_i128 = λ z. refl;
  reads_tuple = λ vs. (refl, listed-values_of vs);
  has_text = λ a h. cc;
}

abbrev pub setup : Setup Value
setup = record {
  sdk = sdk;
  contract_id = text "C1";
  clock = λ rows. text "2026-01-02T10:00:00.000Z";
  stringify = λ e. text "{}";
}

abbrev pub fresh : State
fresh = record { store = new_store none none; emitted = [] }

unfolded : Unit {0}
unfolding new_store conflicts fits_64
unfolded = tt

is_new : conflicts (some (text "e1")) fresh.store.meter_events ≡ false
unfolding unfolded
is_new = refl

fitting : AreInRange 10 (pos 50) (pos 50) 1 1000 120
unfolding unfolded
fitting = record {
  units_fit = refl;
  cost_fits = refl;
  balance_fits = refl;
  seq_small = omega arith;
  time_small = omega arith;
  ledger_small = omega arith;
}

balance_50 : get_balance 1 charged ≡ some (pos 50)
unfolding get
balance_50 = refl

abbrev charged_row : MeterRow
charged_row =
    meter_row setup values address_text values-Reads (text "e1") 120
      (text "2026-01-02T10:00:00.000Z") 1 10 (pos 50) (pos 50) 1 1000

small :
    AreSmall
      (keep (selected (address_text 1) whole_range) (with_row charged_row fresh.store).meter_events)
unfolding sum_of unfolded ◌+ℤ◌
small =
    AreSmall-keep (selected (address_text 1) whole_range)
      (with_row charged_row fresh.store).meter_events
      (record { small_units = omega arith; small_cost = omega arith })

charged_reading_is_stored_example :
    (charged.events ≡ funded.events ++ meter 1 10 (pos 50) (pos 50) 1 1000 ∷ [])
    × (handle_event setup
          (published values (text "e1") 120 (meter 1 10 (pos 50) (pos 50) 1 1000))
          fresh
        ≡ handled (record {
          store = with_row charged_row fresh.store;
          emitted =
              fresh.emitted
              ++ event_row setup values address_text values-Reads
                  (text "e1")
                  120
                  (text "2026-01-02T10:00:00.000Z")
                  1
                  10
                  (pos 50)
                  (pos 50)
                  1
                  1000
                ∷ [];
        }))
    × Billed
        (Api.get_balance (address_text 1) fresh.store)
        (Api.get_balance (address_text 1) (with_row charged_row fresh.store))
        10
        (pos 50)
charged_reading_is_stored_example =
    charged_reading_is_stored setup values address_text values-Reads host call 1 10 1 7 sig funded
      charged (pos 50) (pos 50) (text "e1") 120 fresh charges balance_50 fitting is_new small

-- The page of the charge that leaves a deposit above 2 ^ 63.
abbrev rich_page : Page Value
rich_page = record {
  events =
      published values (text "e1") 120 (meter 1 10 (pos 50) (pos 18446744073709551566) 1 1000) ∷ [];
  cursor = [];
  latest_ledger = 130;
}

abbrev rich_server : Rpc Value
rich_server n q = some rich_page

balance_rich : get_balance 1 rich_charged ≡ some (pos 18446744073709551566)
unfolding get
balance_rich = refl

large_deposit_stalls_example :
    (rich_charged.events
      ≡ rich.events ++ meter 1 10 (pos 50) (pos 18446744073709551566) 1 1000 ∷ [])
    × ((st' : State) × (poll setup rich_server 3 fresh ≡ abandoned st')
        × (get_last_ledger st'.store ≡ get_last_ledger fresh.store))
large_deposit_stalls_example =
    large_deposit_stalls setup values address_text values-Reads host call 1 10 1 7 sig rich
      rich_charged (pos 50) (pos 18446744073709551566) (text "e1") 120 rich_server 2 fresh rich_page
      [] [] charges_rich balance_rich (unfold fits_64 in refl) refl refl
