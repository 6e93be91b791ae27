-- ===== src/Frontend/DeviceTable.antt =====
-- What the component DeviceList shows after its promises, and after it is unmounted.
use mathlib.Core.Path.{ap₂}
use io_t_billing_service.Base.{
  text_eq_refl, All, ◌≡◌, refl, sym, ap, ◌∙◌, Bool, true, Option, none, some, List, [], ◌∷◌, map,
  Text, text_eq, text_eq_iff, any, or_else, arith, Bool-cases, inl, inr, if◌then◌else◌,
}
use io_t_billing_service.Frontend.Requests.{
  MetricSeries, Balance, DeviceInfo, Settled, resolved, rejected,
}
use io_t_billing_service.Frontend.Devices.{
  from_entries, entry, Waiting, for_list, for_details, settled, DeviceList, mounted, Input, listed,
  detailed, unmounted, or_null, id_of, on_list, on_details, on_listed, on_detailed, step, run, Row,
  row_of, Screen, tables, error_text, loading_text, no_devices, table_row, render,
}

on_listed_cancelled :
    (r : Settled (List DeviceInfo)) (v : DeviceList)
    → v.cancelled ≡ true
    → on_listed r v ≡ record v { waiting = settled }
unfolding on_listed
on_listed_cancelled (resolved list) v h = rw h refl
on_listed_cancelled (rejected message) v h = rw h refl

on_detailed_cancelled :
    (list : List DeviceInfo) (bs : List (Settled Balance)) (ss : List (Settled (List MetricSeries)))
    (v : DeviceList)
    → v.cancelled ≡ true
    → on_detailed list bs ss v ≡ record v { waiting = settled }
unfolding on_detailed
on_detailed_cancelled list bs ss v h = rw h refl

on_list_cancelled :
    (u : Waiting) (r : Settled (List DeviceInfo)) (v : DeviceList)
    → v.cancelled ≡ true
    → (w : Waiting) × (on_list u r v ≡ record v { waiting = w })
on_list_cancelled for_list r v h = (settled, on_listed_cancelled r v h)
on_list_cancelled (for_details list) r v h = (v.waiting, refl)
on_list_cancelled settled r v h = (v.waiting, refl)

on_details_cancelled :
    (u : Waiting) (bs : List (Settled Balance)) (ss : List (Settled (List MetricSeries)))
    (v : DeviceList)
    → v.cancelled ≡ true
    → (w : Waiting) × (on_details u bs ss v ≡ record v { waiting = w })
on_details_cancelled for_list bs ss v h = (v.waiting, refl)
on_details_cancelled (for_details list) bs ss v h = (settled, on_detailed_cancelled list bs ss v h)
on_details_cancelled settled bs ss v h = (v.waiting, refl)

-- An input after the component was unmounted changes what is waited for at most.
step_cancelled :
    (i : Input) (v : DeviceList)
    → v.cancelled ≡ true
    → (w : Waiting) × (step i v ≡ record v { waiting = w })
unfolding step
step_cancelled (listed r) v h = on_list_cancelled v.waiting r v h
step_cancelled (detailed bs ss) v h = on_details_cancelled v.waiting bs ss v h
step_cancelled unmounted v h = (v.waiting, ap (λ b. record v { cancelled = b }) (sym h))

run_cancelled :
    (is : List Input) (v : DeviceList)
    → v.cancelled ≡ true
    → (w : Waiting) × (run is v ≡ record v { waiting = w })
unfolding run
run_cancelled [] v h = (v.waiting, refl)
run_cancelled (i ∷ is) v h =
    let (u, once) = step_cancelled i v h in
    let (w, rest) = run_cancelled is (record v { waiting = u }) h in (w, ap (run is) once ∙ rest)

-- Once the component is unmounted, no answer that still comes in changes what its state shows,
-- whatever it was waiting for.
pub run_unmounted : (is : List Input) (v : DeviceList) → render (run (unmounted ∷ is) v) ≡ render v
unfolding run step render table_row
run_unmounted is v =
    let (w, same) = run_cancelled is (record v { cancelled = true }) refl in rw same refl

entry-from_entries :
    {V : Type 0} (h : Text → V) (k : Text) (ks : List Text)
    → entry k (from_entries ks (map h ks))
      ≡ (if any (λ j. text_eq j k) ks then some (h k) else none)
unfolding entry from_entries
entry-from_entries h k [] = refl
entry-from_entries h k (j ∷ ks) =
    let ih = entry-from_entries h k ks in
    elim (Bool-cases (any (λ i. text_eq i k) ks)) [
      | inl later ↦ ground (arith, ih, later)
      | inr last ↦ elim (Bool-cases (text_eq j k)) [
        | inl same ↦
            let it : j ≡ k = (text_eq_iff j k).0 same in
            let value : h j ≡ h k = ap h it in ground (arith, ih, last, same, value)
        | inr other ↦ ground (arith, ih, last, other)
      ]
    ]

-- The table where each listed device's request for its balance settled as `answer` says.
unfoldable pub table_rows : (answer : Text → Settled Balance) (list : List DeviceInfo) → List Row
table_rows answer list = map (λ (d : DeviceInfo). row_of d (or_null (answer d.device_id))) list

abbrev pub loaded :
    (Text → Settled Balance) → (Text → Settled (List MetricSeries)) → List DeviceInfo → DeviceList
loaded balance_of series_of list =
    run
      (listed (resolved list)
        ∷ detailed (map (λ (d : DeviceInfo). balance_of d.device_id) list)
            (map (λ (d : DeviceInfo). series_of d.device_id) list)
        ∷ [])
      mounted

any_tail :
    (p : DeviceInfo → Text → Bool) (x : Text) (xs : List Text) (ds : List DeviceInfo)
    → All (λ d. any (p d) xs ≡ true) ds
    → All (λ d. any (p d) (x ∷ xs) ≡ true) ds
any_tail p x xs [] h = tt
any_tail p x xs (d ∷ ds) (k, h) = (ground arith, any_tail p x xs ds h)

-- Each listed device is one of the listed.
any_self :
    (ds : List DeviceInfo)
    → All (λ (d : DeviceInfo). any (λ j. text_eq j d.device_id) (map id_of ds) ≡ true) ds
any_self [] = tt
any_self (d ∷ ds) =
    let same = text_eq_refl d.device_id in
    (
      ground arith,
      any_tail (λ (x : DeviceInfo) (j : Text). text_eq j x.device_id) d.device_id (map id_of ds) ds
          (any_self ds),
    )

map-map {ℓ} :
    {A B C : Type ℓ} (f : B → C) (g : A → B) (xs : List A)
    → map f (map g xs) ≡ map (λ x. f (g x)) xs
map-map f g [] = refl
map-map f g (x ∷ xs) = ap (λ t. f (g x) ∷ t) (map-map f g xs)

-- The balances that the state holds.
pub balances_of : (Text → Settled Balance) → List DeviceInfo → List (Text × Option Balance)
balances_of answer list =
    from_entries (map id_of list) (map (λ k. or_null (answer k)) (map id_of list))

map-table_row :
    (answer : Text → Settled Balance) (list ds : List DeviceInfo) (v : DeviceList)
    → v.balances ≡ balances_of answer list
    → All (λ (d : DeviceInfo). any (λ j. text_eq j d.device_id) (map id_of list) ≡ true) ds
    → map (table_row v) ds ≡ table_rows answer ds
unfolding table_row balances_of table_rows
map-table_row answer list [] v e h = refl
map-table_row answer list (d ∷ ds) v e (k, h) =
    let found : entry d.device_id v.balances ≡ some (or_null (answer d.device_id)) =
      ap (entry d.device_id) e
      ∙ entry-from_entries (λ k. or_null (answer k)) d.device_id (map id_of list)
      ∙ ap (λ b. if b then some (or_null (answer d.device_id)) else none) k in
    ap₂ (λ x xs. x ∷ xs) (ap (λ o. row_of d (or_else o none)) found)
      (map-table_row answer list ds v e h)

-- The rows that a screen shows.
abbrev pub rows_of : Screen → List Row
rows_of (tables n rows series) = rows
rows_of (error_text message) = []
rows_of loading_text = []
rows_of no_devices = []

loaded-balances :
    (answer : Text → Settled Balance) (series_of : Text → Settled (List MetricSeries))
    (list : List DeviceInfo)
    → (loaded answer series_of list).balances ≡ balances_of answer list
unfolding run step mounted on_listed on_detailed balances_of
loaded-balances answer series_of list = ap (from_entries (map id_of list)) (
    map-map or_null (λ (d : DeviceInfo). answer d.device_id) list
    ∙ sym (map-map (λ k. or_null (answer k)) id_of list))

-- Once the list and the details have settled, the table has a row for each listed device, in
-- order: with its balance where that request succeeded, and with the sums of the list and dashes
-- where it failed.
pub render-loaded :
    (answer : Text → Settled Balance) (series_of : Text → Settled (List MetricSeries))
    (list : List DeviceInfo)
    → rows_of (render (loaded answer series_of list)) ≡ table_rows answer list
unfolding render run step mounted on_listed on_detailed
render-loaded answer series_of [] = unfold table_rows in refl
render-loaded answer series_of (d ∷ ds) =
    map-table_row answer (d ∷ ds) (d ∷ ds) (loaded answer series_of (d ∷ ds))
      (loaded-balances answer series_of (d ∷ ds)) (any_self (d ∷ ds))
