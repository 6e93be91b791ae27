-- ===== src/Api/Growth.antt =====
-- What one more row of a device changes in what the balance route reports.
use io_t_billing_service.Base.{
  Text, text_eq, false, ◌≡◌, refl, ap, sym, ◌∙◌, Bool, true, List, [], ◌∷◌, ◌++◌, text_eq_refl,
  keep, keep-cons_true, keep-cons_false, ℤ, pos, ◌+ℤ◌, Bool-cases, inl, inr,
}
use mathlib.Core.Path.{subst}
use io_t_billing_service.Base.{◌^◌, ◌≤ℤ◌, int_laws}
use io_t_billing_service.Js.{rounded, magnitude}
use io_t_billing_service.Sql.{sum_of, sum_of-append_one, IsSmall, IsSmall-keep}
use io_t_billing_service.Store.{MeterRow, CacheStore, MetricRow, metric_row, metrics_for, selected}
use io_t_billing_service.Store.Totals.{AreSmall}
use io_t_billing_service.Api.Routes.{get_balance, reduce, whole_range}
use io_t_billing_service.Api.Agreement.{reduce_lem}

keep-append_one :
    {A : Type 0} (p : A → Bool) (xs : List A) (x : A)
    → p x ≡ true
    → keep p (xs ++ x ∷ []) ≡ keep p xs ++ x ∷ []
keep-append_one p [] x h = keep-cons_true p x [] h
keep-append_one p (y ∷ xs) x h = elim (Bool-cases (p y)) [
  | inl pass ↦
      keep-cons_true p y (xs ++ x ∷ []) pass
      ∙ ap (λ ys. y ∷ ys) (keep-append_one p xs x h)
      ∙ ap (λ ys. ys ++ x ∷ []) (sym (keep-cons_true p y xs pass))
  | inr fail ↦
      keep-cons_false p y (xs ++ x ∷ []) fail
      ∙ keep-append_one p xs x h
      ∙ ap (λ ys. ys ++ x ∷ []) (sym (keep-cons_false p y xs fail))
]

selected_whole : (r : MeterRow) → selected r.device_id whole_range r ≡ true
unfolding selected
selected_whole r = rw (text_eq_refl r.device_id) refl

abbrev pub with_row : MeterRow → CacheStore → CacheStore
with_row r s = record s { meter_events = s.meter_events ++ r ∷ [] }

-- A column's sum over the rows of the device, as the table has them.
abbrev pub sum_for : (MeterRow → ℤ) → Text → CacheStore → ℤ
sum_for f device s = sum_of f (keep (selected device whole_range) s.meter_events)

pub sum_for-append_one :
    (f : MeterRow → ℤ) (r : MeterRow) (s : CacheStore)
    → sum_for f r.device_id (with_row r s) ≡ sum_for f r.device_id s +ℤ f r
sum_for-append_one f r s =
    let p = selected r.device_id whole_range in
    ap (sum_of f) (keep-append_one p s.meter_events r (selected_whole r))
    ∙ sum_of-append_one f (keep p s.meter_events) r

before-IsSmall :
    (f : MeterRow → ℤ) (r : MeterRow) (s : CacheStore)
    → IsSmall f (keep (selected r.device_id whole_range) (with_row r s).meter_events)
    → IsSmall f (keep (selected r.device_id whole_range) s.meter_events)
before-IsSmall f r s h =
    let grown = sum_for-append_one (λ x. pos (magnitude (f x))) r s in
    let h' : sum_for (λ x. pos (magnitude (f x))) r.device_id s +ℤ pos (magnitude (f r))
        ≤ℤ pos (2 ^ 53) =
      subst (λ z. z ≤ℤ pos (2 ^ 53)) grown h in
    omega (int_laws, h')

reduce-append_one :
    (column : MetricRow → ℤ) (f : MeterRow → ℤ) (r : MeterRow) (s : CacheStore)
    → ((x : MeterRow) → column (metric_row x) ≡ rounded (f x))
    → IsSmall f (keep (selected r.device_id whole_range) (with_row r s).meter_events)
    → reduce column (pos 0) (metrics_for r.device_id whole_range (with_row r s))
      ≡ reduce column (pos 0) (metrics_for r.device_id whole_range s) +ℤ f r
reduce-append_one column f r s each h =
    reduce_lem column f r.device_id whole_range (with_row r s) each h
    ∙ sum_for-append_one f r s
    ∙ ap (λ z. z +ℤ f r)
        (sym (reduce_lem column f r.device_id whole_range s each (before-IsSmall f r s h)))

-- The balance route reports the units and the cost of a new row on top of what it reported, where
-- the units and the costs of the device are small enough.
pub get_balance-append_one :
    (r : MeterRow) (s : CacheStore)
    → AreSmall (keep (selected r.device_id whole_range) (with_row r s).meter_events)
    → ((get_balance r.device_id (with_row r s)).total_units
        ≡ (get_balance r.device_id s).total_units +ℤ r.units)
      × ((get_balance r.device_id (with_row r s)).total_billed
          ≡ (get_balance r.device_id s).total_billed +ℤ r.cost)
unfolding get_balance
get_balance-append_one r s h = (
  reduce-append_one (λ x. x.units) (λ x. x.units) r s (λ x. refl) h.small_units,
  reduce-append_one (λ x. x.cost) (λ x. x.cost) r s (λ x. refl) h.small_cost,
)

keep-append_other :
    {A : Type 0} (p : A → Bool) (xs : List A) (x : A)
    → p x ≡ false
    → keep p (xs ++ x ∷ []) ≡ keep p xs
keep-append_other p [] x h = keep-cons_false p x [] h
keep-append_other p (y ∷ xs) x h = elim (Bool-cases (p y)) [
  | inl pass ↦
      keep-cons_true p y (xs ++ x ∷ []) pass
      ∙ ap (λ ys. y ∷ ys) (keep-append_other p xs x h)
      ∙ sym (keep-cons_true p y xs pass)
  | inr fail ↦
      keep-cons_false p y (xs ++ x ∷ []) fail
      ∙ keep-append_other p xs x h
      ∙ sym (keep-cons_false p y xs fail)
]

selected_other :
    (device : Text) (r : MeterRow)
    → text_eq r.device_id device ≡ false
    → selected device whole_range r ≡ false
unfolding selected
selected_other device r h = rw h refl

pub sum_for-append_other :
    (f : MeterRow → ℤ) (device : Text) (r : MeterRow) (s : CacheStore)
    → text_eq r.device_id device ≡ false
    → sum_for f device (with_row r s) ≡ sum_for f device s
sum_for-append_other f device r s h =
    ap (sum_of f)
      (keep-append_other (selected device whole_range) s.meter_events r (selected_other device r h))

-- What the balance route reports as billed, where the costs are small enough.
pub get_balance-sum_for :
    (device : Text) (s : CacheStore)
    → IsSmall (λ (r : MeterRow). r.cost) s.meter_events
    → (get_balance device s).total_billed ≡ sum_for (λ r. r.cost) device s
unfolding get_balance
get_balance-sum_for device s h =
    reduce_lem (λ r. r.cost) (λ r. r.cost) device whole_range s (λ r. refl)
      (IsSmall-keep (λ r. r.cost) (selected device whole_range) s.meter_events h)
