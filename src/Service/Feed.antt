-- ===== src/Service/Feed.antt =====
-- The contract's events, fed to the indexer one after the other.
use mathlib.Core.Path.{subst}
use io_t_billing_service.Base.{
  ℕ, ◌≡◌, refl, sym, ◌∙◌, ap, false, Option, some, List, [], ◌∷◌, map, Text, text, text_eq,
  text_eq_iff, ℤ, ◌+ℤ◌, pos, All, ◌==◌, ==_iff, Bool-cases, inl, inr, int_laws, if◌then◌else◌,
}
use io_t_billing_service.Js.{magnitude}
use io_t_billing_service.Sql.{sum_of, sum_of-append_one, size}
use io_t_billing_service.Decode.{scval_to_string, native_text}
use io_t_billing_service.Store.{MeterRow, CacheStore, conflicts}
use io_t_billing_service.Store.Conflicts.{conflicts-append_false}
use io_t_billing_service.Indexer.Event
use io_t_billing_service.Indexer.{
  State, Setup, handled, decode_event, after_decoding, handle_event, is_meter, reached,
  handle_events, higher,
}
use io_t_billing_service.Contract
use io_t_billing_service.Contract.{Address, World, device_registered, deposited, meter, settlement}
use io_t_billing_service.Contract.Books.{charged_by, billed}
use io_t_billing_service.Api.Growth.{with_row, sum_for, sum_for-append_one, sum_for-append_other}
use io_t_billing_service.Service.Published.{HostValues, Reads, published}
use io_t_billing_service.Service.Billing.{AreInRange, meter_row, handle_event-published}

-- An event of the contract with the id and the ledger that the RPC server gives it.
pub record Entry : Type 0 where
  pub id : Text
  pub ledger : ℕ
  pub event : Contract.Event

-- The amounts of a meter event fit 64 bits, and its other numbers are at most 2 ^ 53.
abbrev pub FitsAt : ℕ → Contract.Event → Type 0
FitsAt ledger (meter d units cost balance seq time) = AreInRange units cost balance seq time ledger
FitsAt ledger _ = Unit

abbrev pub Fits : Entry → Type 0
Fits e = FitsAt e.ledger e.event

-- What an event charges, without its sign.
unfoldable pub charge : Contract.Event → ℤ
charge (meter d units cost balance seq time) = pos (magnitude cost)
charge _ = pos 0

abbrev pub events_of : List Entry → List Contract.Event
events_of es = map (λ (e : Entry). e.event) es

-- The ids are new to the rows, and each to the ones before it.
abbrev pub AreNew : List Entry → List MeterRow → Type 0
AreNew es rows = All (λ (e : Entry). conflicts (some e.id) rows ≡ false) es

abbrev pub AreDistinct : List Entry → Type 0
AreDistinct [] = Unit
AreDistinct (e ∷ es) = All (λ (f : Entry). text_eq f.id e.id ≡ false) es × AreDistinct es

module _ {X : Type 0} (env : Setup X) (host : HostValues X) (address_text : Address → Text)
    (reads : Reads env.sdk host address_text) where
  abbrev pub feed : List Entry → List (Event.Event X)
  feed es = map (λ (e : Entry). published host e.id e.ledger e.event) es

  -- The other events pass the indexer by.
  handle_event-registered :
      (id : Text) (ledger : ℕ) (d o : Address) (rate : ℤ) (st : State)
      → handle_event env (published host id ledger (device_registered d o rate)) st ≡ handled st
  unfolding handle_event decode_event after_decoding scval_to_string native_text is_meter text_eq
  handle_event-registered id ledger d o rate st =
      rw (reads.reads_symbol (text "device_registered")) refl

  handle_event-deposited :
      (id : Text) (ledger : ℕ) (d : Address) (amount balance : ℤ) (st : State)
      → handle_event env (published host id ledger (deposited d amount balance)) st ≡ handled st
  unfolding handle_event decode_event after_decoding scval_to_string native_text is_meter text_eq
  handle_event-deposited id ledger d amount balance st =
      rw (reads.reads_symbol (text "deposit")) refl

  handle_event-settlement :
      (id : Text) (ledger : ℕ) (o : Address) (amount : ℤ) (st : State)
      → handle_event env (published host id ledger (settlement o amount)) st ≡ handled st
  unfolding handle_event decode_event after_decoding scval_to_string native_text is_meter text_eq
  handle_event-settlement id ledger o amount st = rw (reads.reads_symbol (text "settlement")) refl

  -- What handling an event leaves: the stored costs of each device grow by what the event charges
  -- it, and only the event's id is taken.
  record Counts (st st' : State) (e : Entry) : Type 0 where
    pub stored :
        (d : Address)
        → sum_for (λ r. r.cost) (address_text d) st'.store
          ≡ sum_for (λ r. r.cost) (address_text d) st.store +ℤ charged_by d e.event
    pub grown :
        size (λ (r : MeterRow). r.cost) st'.store.meter_events
        ≡ size (λ (r : MeterRow). r.cost) st.store.meter_events +ℤ charge e.event
    pub still_new :
        (k : Text)
        → text_eq k e.id ≡ false
        → conflicts (some k) st.store.meter_events ≡ false
        → conflicts (some k) st'.store.meter_events ≡ false

  add_assoc_of :
      (a c : ℤ) (es : List Contract.Event)
      → (a +ℤ c) +ℤ sum_of charge es ≡ a +ℤ (c +ℤ sum_of charge es)
  add_assoc_of a c es = omega int_laws

  passed_by :
      (st : State) (e : Entry)
      → ((d : Address) → charged_by d e.event ≡ pos 0)
      → charge e.event ≡ pos 0
      → Counts st st e
  passed_by st e h c = record {
    stored = λ d. rw (h d) (omega int_laws);
    grown = rw c (omega int_laws);
    still_new = λ k n c. c;
  }

  module _ (injective : (a b : Address) → address_text a ≡ address_text b → a ≡ b) where
    other_text :
        (a b : Address) → (a == b) ≡ false → text_eq (address_text a) (address_text b) ≡ false
    other_text a b h = elim (Bool-cases (text_eq (address_text a) (address_text b))) [
      | inl same ↦ let is = (==_iff a b).1 (injective a b ((text_eq_iff _ _).0 same)) in cc
      | inr other ↦ other
    ]

    meter-stored :
        (id : Text) (ledger : ℕ) (now : Text) (e : Address) (u : ℕ) (cost left : ℤ) (n t : ℕ)
        (s : CacheStore) (d : Address)
        → sum_for
            (λ r. r.cost)
            (address_text d)
            (with_row (meter_row env host address_text reads id ledger now e u cost left n t) s)
          ≡ sum_for (λ r. r.cost) (address_text d) s +ℤ (if e == d then cost else pos 0)
    meter-stored id ledger now e u cost left n t s d = elim (Bool-cases (e == d)) [
      | inl same ↦
          let r = meter_row env host address_text reads id ledger now e u cost left n t in
          let is = (==_iff e d).0 same in
          rw same (
            subst
              (λ k.
                sum_for (λ r. r.cost) (address_text k) (with_row r s)
                ≡ sum_for (λ r. r.cost) (address_text k) s +ℤ cost)
              is (sum_for-append_one (λ r. r.cost) r s))
      | inr other ↦
          let r = meter_row env host address_text reads id ledger now e u cost left n t in
          sum_for-append_other (λ r. r.cost) (address_text d) r s (other_text e d other)
          ∙ rw other (omega int_laws)
    ]

    handle_event-Counts :
        (e : Entry) (st : State)
        → Fits e
        → conflicts (some e.id) st.store.meter_events ≡ false
        → (st' : State) × (handle_event env (published host e.id e.ledger e.event) st ≡ handled st')
          × Counts st st' e
    handle_event-Counts e st f c = go e.event refl f
      where
        go :
            (x : Contract.Event)
            → e.event ≡ x
            → FitsAt e.ledger x
            → (st' : State) × (handle_event env (published host e.id e.ledger e.event) st
                ≡ handled st')
              × Counts st st' e
        go (device_registered d o rate) is fits = (
          st,
          ap (λ x. handle_event env (published host e.id e.ledger x) st) is
              ∙ handle_event-registered e.id e.ledger d o rate st,
          passed_by st e (λ k. ap (charged_by k) is) (ap charge is ∙ (unfold charge in refl)),
        )
        go (deposited d amount balance) is fits = (
          st,
          ap (λ x. handle_event env (published host e.id e.ledger x) st) is
              ∙ handle_event-deposited e.id e.ledger d amount balance st,
          passed_by st e (λ k. ap (charged_by k) is) (ap charge is ∙ (unfold charge in refl)),
        )
        go (settlement o amount) is fits = (
          st,
          ap (λ x. handle_event env (published host e.id e.ledger x) st) is
              ∙ handle_event-settlement e.id e.ledger o amount st,
          passed_by st e (λ k. ap (charged_by k) is) (ap charge is ∙ (unfold charge in refl)),
        )
        go (meter d u cost left n t) is fits = (
          _,
          ap (λ x. handle_event env (published host e.id e.ledger x) st) is
              ∙ handle_event-published env host address_text reads e.id e.ledger st d u cost left n
                  t fits c,
          record {
            stored = λ k.
                meter-stored e.id e.ledger (env.clock st.emitted) d u cost left n t st.store k
                ∙ ap (λ z. sum_for (λ r. r.cost) (address_text k) st.store +ℤ z)
                    (sym (ap (charged_by k) is));
            grown =
                sum_of-append_one (λ (r : MeterRow). pos (magnitude r.cost)) st.store.meter_events _
                ∙ ap (λ z. size (λ (r : MeterRow). r.cost) st.store.meter_events +ℤ z)
                    (sym (ap charge is ∙ (unfold charge in refl)));
            still_new =
                λ k differs free. conflicts-append_false k st.store.meter_events _ free differs;
          },
        )

    still_AreNew :
        (e : Entry) (es : List Entry) (st st' : State)
        → Counts st st' e
        → All (λ (f : Entry). text_eq f.id e.id ≡ false) es
        → AreNew es st.store.meter_events
        → AreNew es st'.store.meter_events
    still_AreNew e [] st st' counts differ new = tt
    still_AreNew e (f ∷ es) st st' counts (d, differ) (n, new) =
        (counts.still_new f.id d n, still_AreNew e es st st' counts differ new)

    handle_events-first :
        (e : Event.Event X) (es : List (Event.Event X)) (last : Option ℕ) (st mid : State)
        → handle_event env e st ≡ handled mid
        → handle_events env (e ∷ es) last st ≡ handle_events env es (higher e.ledger last) mid
    unfolding handle_events
    handle_events-first e es last st mid h = rw (h, handle_events) refl

    -- Fed the events in their order, the indexer comes to their end, and the stored costs of each
    -- device grow by what they charge it.
    pub handle_events-billed :
        (es : List Entry) (last : Option ℕ) (st : State)
        → All Fits es
        → AreNew es st.store.meter_events
        → AreDistinct es
        → (last' : Option ℕ) × (st' : State) × (handle_events env (feed es) last st
            ≡ reached last' st')
          × ((d : Address)
              → sum_for (λ r. r.cost) (address_text d) st'.store
                ≡ sum_for (λ r. r.cost) (address_text d) st.store +ℤ billed d (events_of es))
          × (size (λ (r : MeterRow). r.cost) st'.store.meter_events
              ≡ size (λ (r : MeterRow). r.cost) st.store.meter_events
                +ℤ sum_of charge (events_of es))
    handle_events-billed [] last st f n d = (
      last,
      st,
      unfold handle_events in refl,
      λ k. unfold sum_of in omega int_laws,
      unfold sum_of in omega int_laws,
    )
    handle_events-billed (e ∷ es) last st (f, fs) (n, ns) (d, ds) =
        let (mid, first, counts) = handle_event-Counts e st f n in
        let (last', st', rest, sums, sizes) =
          handle_events-billed es (higher e.ledger last) mid fs
            (still_AreNew e es st mid counts d ns) ds in
        (
          last',
          st',
          handle_events-first _ (feed es) last st mid first ∙ rest,
          λ k.
              sums k
              ∙ ap (λ z. z +ℤ billed k (events_of es)) (counts.stored k)
              ∙ (unfold sum_of in omega int_laws),
          sizes
              ∙ ap (λ z. z +ℤ sum_of charge (events_of es)) counts.grown
              ∙ add_assoc_of _ (charge e.event) (events_of es)
              ∙ (unfold sum_of in refl),
        )
