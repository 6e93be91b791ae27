-- ===== src/Frontend/Stream.antt =====
-- What the chart of the live stream holds.
use io_t_billing_service.Base.{
  ℕ, zero, suc, ◌+◌, ◌-◌, ◌≤◌, ◌≡◌, refl, sym, ap, ◌∙◌, Option, none, some, List, [], ◌∷◌, ◌++◌,
  Text, length, length-append, drop, arith, Bool-cases, inl, inr, ◌==◌, if◌then◌else◌,
}
use io_t_billing_service.Frontend.Telemetry.{
  TelemetryEvent, Sample, LiveStream, opened, on_message, last_60, is_billed, add_sample, on_render,
  Happening, message, rendered, happen, happen_all,
}

-- The chart without its bound: every sample that a render has added.
abbrev pub all_samples_after : Text → LiveStream → List Sample → List Sample
all_samples_after now v all = if v.version == v.seen then all else elim (is_billed v.event) [
  | none ↦ all
  | some e ↦ all ++ record { t = now; cost = e.cost } ∷ []
]

unfoldable pub all_samples : List Happening → LiveStream → List Sample → List Sample
all_samples [] v all = all
all_samples (message m ∷ hs) v all = all_samples hs (on_message m v) all
all_samples (rendered now ∷ hs) v all =
    all_samples hs (on_render now v) (all_samples_after now v all)

length-drop : {A : Type 0} (n : ℕ) (xs : List A) → length (drop n xs) ≡ length xs - n
length-drop zero xs = omega arith
length-drop (suc n) [] = omega arith
length-drop (suc n) (x ∷ xs) = length-drop n xs ∙ (omega arith)

drop-append :
    {A : Type 0} (n : ℕ) (xs ys : List A) → n ≤ length xs → drop n (xs ++ ys) ≡ drop n xs ++ ys
drop-append zero xs ys h = refl
drop-append (suc n) [] ys h = absurd (omega arith)
drop-append (suc n) (x ∷ xs) ys h = drop-append n xs ys (omega arith)

drop-nil : {A : Type 0} (n : ℕ) → drop {A = A} n [] ≡ []
drop-nil zero = refl
drop-nil (suc n) = refl

drop-drop : {A : Type 0} (m n : ℕ) (xs : List A) → drop m (drop n xs) ≡ drop (m + n) xs
drop-drop m zero xs = ap (λ k. drop k xs) (omega arith)
drop-drop m (suc n) [] = drop-nil m ∙ sym (drop-nil (m + suc n))
drop-drop m (suc n) (x ∷ xs) =
    let shifted : suc (m + n) ≡ m + suc n = omega arith in
    drop-drop m n xs ∙ ap (λ k. drop k (x ∷ xs)) shifted

-- Cutting before a sample is added loses nothing that the cut after it would keep.
last_60-append_one :
    {A : Type 0} (xs : List A) (x : A) → last_60 (last_60 xs ++ x ∷ []) ≡ last_60 (xs ++ x ∷ [])
unfolding last_60
last_60-append_one xs x =
    let d = length xs - 60 in
    let size = length-append (drop d xs) (x ∷ []) in
    let rest = length-drop d xs in
    let k = length (drop d xs ++ x ∷ []) - 60 in
    let in_part : k ≤ length (drop d xs) = omega (arith, size, rest) in
    let whole = length-append xs (x ∷ []) in
    let same : k + d ≡ length (xs ++ x ∷ []) - 60 = omega (arith, size, rest, whole) in
    drop-append k (drop d xs) (x ∷ []) in_part
    ∙ ap (λ ys. ys ++ x ∷ []) (drop-drop k d xs ∙ ap (λ n. drop n xs) same)
    ∙ sym (drop-append (length (xs ++ x ∷ []) - 60) xs (x ∷ []) (omega (arith, whole)))

on_message-samples :
    (m : Option TelemetryEvent) (v : LiveStream) → (on_message m v).samples ≡ v.samples
unfolding on_message
on_message-samples none v = refl
on_message-samples (some e) v = refl

add_sample-last_60 :
    (now : Text) (e : Option TelemetryEvent) (samples all : List Sample)
    → samples ≡ last_60 all
    → add_sample now e samples
      ≡ last_60 (elim e [ none ↦ all | some e ↦ all ++ record { t = now; cost = e.cost } ∷ [] ])
add_sample-last_60 now none samples all h = h
add_sample-last_60 now (some e) samples all h =
    ap (λ xs. last_60 (xs ++ record { t = now; cost = e.cost } ∷ [])) h ∙ last_60-append_one all _

on_render-samples :
    (now : Text) (v : LiveStream) (all : List Sample)
    → v.samples ≡ last_60 all
    → (on_render now v).samples ≡ last_60 (all_samples_after now v all)
unfolding on_render
on_render-samples now v all h = elim (Bool-cases (v.version == v.seen)) [
  | inl same ↦ rw same h
  | inr new ↦ rw new (add_sample-last_60 now (is_billed v.event) v.samples all h)
]

happen_all-samples :
    (hs : List Happening) (v : LiveStream) (all : List Sample)
    → v.samples ≡ last_60 all
    → (happen_all hs v).samples ≡ last_60 (all_samples hs v all)
unfolding happen_all all_samples happen
happen_all-samples [] v all h = h
happen_all-samples (message m ∷ hs) v all h =
    happen_all-samples hs (on_message m v) all (on_message-samples m v ∙ h)
happen_all-samples (rendered now ∷ hs) v all h =
    happen_all-samples hs (on_render now v) (all_samples_after now v all)
      (on_render-samples now v all h)

length-last_60 : {A : Type 0} (xs : List A) → length (last_60 xs) ≤ 60
unfolding last_60
length-last_60 xs = omega (arith, length-drop (length xs - 60) xs)

-- After any messages and renders the chart holds the last 60 of all the samples that renders have
-- added, though it cuts its list each time, and so at most 60.
pub live_samples :
    (hs : List Happening)
    → ((happen_all hs opened).samples ≡ last_60 (all_samples hs opened []))
      × (length (happen_all hs opened).samples ≤ 60)
live_samples hs =
    let all = happen_all-samples hs opened [] (unfold opened in unfold last_60 in refl) in
    (all, rw all (length-last_60 (all_samples hs opened [])))
