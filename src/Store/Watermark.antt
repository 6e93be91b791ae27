-- ===== src/Store/Watermark.antt =====
-- The ledger up to which the indexer has read: what setLastLedger writes, getLastLedger reads.
use io_t_billing_service.Base.{
  ℕ, ◌≡◌, refl, ◌∙◌, Option, some, List, [], ◌∷◌, Text, text_eq, text_eq_iff, text_eq_refl,
  if◌then◌else◌, arith,
}
use io_t_billing_service.Js.{decimal, number_of_digits-decimal}
use io_t_billing_service.Store.Tables.{CacheStore}
use io_t_billing_service.Store.Write.{last_ledger_key, upsert, set_last_ledger}
use io_t_billing_service.Store.Read.{lookup, ledger_value, get_last_ledger}

-- One key's value is replaced or added, and no other.
pub lookup-upsert :
    (key j value : Text) (rows : List (Text × Text))
    → lookup j (upsert key value rows) ≡ (if text_eq key j then some value else lookup j rows)
unfolding lookup upsert
lookup-upsert key j value [] = refl
lookup-upsert key j value ((k, v) ∷ rows) =
    ground
      (arith, lookup-upsert key j value rows, text_eq_iff k key, text_eq_iff key j, text_eq_iff k j)

ledger_value_of :
    (ledger : ℕ) (o : Option Text) → o ≡ some (decimal ledger) → ledger_value o ≡ some ledger
unfolding ledger_value
ledger_value_of ledger o e = rw e (number_of_digits-decimal ledger)

-- Number(String(ledger)), through the row of `meta`, is the ledger that was set.
pub get_last_ledger-set_last_ledger :
    (ledger : ℕ) (s : CacheStore) → get_last_ledger (set_last_ledger ledger s) ≡ some ledger
unfolding get_last_ledger set_last_ledger
get_last_ledger-set_last_ledger ledger s = ledger_value_of ledger _ (
    lookup-upsert last_ledger_key last_ledger_key (decimal ledger) s.meta
    ∙ (rw (text_eq_refl last_ledger_key) refl))
