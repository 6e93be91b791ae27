-- ===== src/Store/Ordering.antt =====
-- The pending readings: their ids ascend, and the query gives them in that order.
use io_t_billing_service.Base.{
  ℕ, suc, ◌≤◌, ◌<◌, ◌≡◌, refl, ap, sym, ◌∙◌, Bool, none, List, [], ◌∷◌, ◌++◌, Text, leb, All, arith,
}
use io_t_billing_service.Sql.{IsOrdered, order_by_of_IsOrdered}
use io_t_billing_service.Store.Tables.{PendingRow, CacheStore}
use io_t_billing_service.Store.Write.{PendingReading, pending_row, record_pending_reading}
use io_t_billing_service.Store.Read.{pending_readings, is_truthy}

abbrev id_le : PendingRow → PendingRow → Bool
id_le a b = leb a.id b.id

-- The ids of the pending readings ascend, and are below the next one.
pub record HasAscendingIds (s : CacheStore) : Type 0 where
  pub ascending : IsOrdered id_le s.pending_readings
  pub below : All (λ (r : PendingRow). r.id < s.next_id) s.pending_readings

IsOrdered-append :
    (rows : List PendingRow) (r : PendingRow) (n : ℕ)
    → IsOrdered id_le rows
    → All (λ (x : PendingRow). x.id < n) rows
    → n ≤ r.id
    → IsOrdered id_le (rows ++ r ∷ [])
IsOrdered-append [] r n o b h = tt
IsOrdered-append (x ∷ []) r n o b h = (ground (arith, b.0), tt)
IsOrdered-append (x ∷ y ∷ rows) r n o b h = (o.0, IsOrdered-append (y ∷ rows) r n o.1 b.1 h)

All-append_below :
    (rows : List PendingRow) (r : PendingRow) (n : ℕ)
    → All (λ (x : PendingRow). x.id < n) rows
    → r.id ≡ n
    → All (λ (x : PendingRow). x.id < suc n) (rows ++ r ∷ [])
All-append_below [] r n b e = (omega arith, tt)
All-append_below (x ∷ rows) r n b e = (omega (arith, b.0), All-append_below rows r n b.1 e)

-- recordPendingReading keeps the ids ascending.
pub record_pending_reading-HasAscendingIds :
    (now : Text) (r : PendingReading) (s : CacheStore)
    → HasAscendingIds s
    → HasAscendingIds (record_pending_reading now r s)
unfolding record_pending_reading
record_pending_reading-HasAscendingIds now r s h = record {
  ascending = IsOrdered-append s.pending_readings _ s.next_id h.ascending h.below (omega arith);
  below = All-append_below s.pending_readings _ s.next_id h.below refl;
}

-- A reading that is recorded is the last that pendingReadings lists, behind all that it listed.
pending_readings-record_pending_reading :
    (now : Text) (r : PendingReading) (s : CacheStore)
    → HasAscendingIds s
    → pending_readings none (record_pending_reading now r s)
      ≡ pending_readings none s ++ pending_row s.next_id now r ∷ []
unfolding pending_readings is_truthy record_pending_reading
pending_readings-record_pending_reading now r s h =
    order_by_of_IsOrdered id_le _ (record_pending_reading-HasAscendingIds now r s h).ascending
    ∙ ap (λ rows. rows ++ pending_row s.next_id now r ∷ [])
        (sym (order_by_of_IsOrdered id_le _ h.ascending))
