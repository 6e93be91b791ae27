-- ===== src/Store/Conflicts.antt =====
-- The UNIQUE constraint on event_id as rows are added.
use io_t_billing_service.Base.{
  ◌≡◌, ◌≢◌, refl, Bool, true, false, Option, none, some, List, [], ◌∷◌, ◌++◌, Text, text_eq_iff,
  text_eq_refl, any, arith, Option-cases,
}
use io_t_billing_service.Store.Tables.{MeterRow}
use io_t_billing_service.Store.Write.{same_event, conflicts}

-- No two rows have one event id.
abbrev pub HasUniqueIds : List MeterRow → Type 0
HasUniqueIds [] = Unit
HasUniqueIds (r ∷ rows) = (conflicts r.event_id rows ≡ false) × HasUniqueIds rows

any-append :
    {A : Type 0} (p : A → Bool) (xs : List A) (y : A)
    → any p xs ≡ false
    → p y ≡ false
    → any p (xs ++ y ∷ []) ≡ false
any-append p [] y h k = ground arith
any-append p (x ∷ xs) y h k = ground (arith, any-append p xs y)

any-append_self :
    {A : Type 0} (p : A → Bool) (xs : List A) (y : A) → p y ≡ true → any p (xs ++ y ∷ []) ≡ true
any-append_self p [] y h = ground arith
any-append_self p (x ∷ xs) y h = ground (arith, any-append_self p xs y)

-- A later row with another id, or none, does not conflict either.
same_event_sym :
    (a : Text) (k : Option Text) (rows : List MeterRow) (x : MeterRow)
    → x.event_id ≡ some a
    → conflicts k (x ∷ rows) ≡ false
    → same_event a k ≡ false
unfolding conflicts
same_event_sym a none rows x e h = refl
same_event_sym a (some b) rows x e h = ground (arith, text_eq_iff a b, text_eq_iff b a)

conflicts_tail :
    (k : Option Text) (rows : List MeterRow) (x : MeterRow)
    → conflicts k (x ∷ rows) ≡ false
    → conflicts k rows ≡ false
unfolding conflicts
conflicts_tail none rows x h = refl
conflicts_tail (some b) rows x h = ground arith

conflicts-append :
    (k : Option Text) (rows : List MeterRow) (x r : MeterRow)
    → x.event_id ≡ k
    → conflicts k rows ≡ false
    → conflicts r.event_id (x ∷ rows) ≡ false
    → conflicts k (rows ++ r ∷ []) ≡ false
unfolding conflicts
conflicts-append none rows x r e h c = refl
conflicts-append (some a) rows x r e h c =
    any-append _ rows r h (same_event_sym a r.event_id rows x e c)

pub HasUniqueIds-append :
    (rows : List MeterRow) (r : MeterRow)
    → HasUniqueIds rows
    → conflicts r.event_id rows ≡ false
    → HasUniqueIds (rows ++ r ∷ [])
HasUniqueIds-append [] r h c = unfold conflicts in (ground (arith, Option-cases r.event_id), tt)
HasUniqueIds-append (x ∷ rows) r (h, hs) c = (
  conflicts-append x.event_id rows x r refl h c,
  HasUniqueIds-append rows r hs (conflicts_tail r.event_id rows x c),
)

pub conflicts-append_self :
    (k : Option Text) (rows : List MeterRow) (r : MeterRow)
    → r.event_id ≡ k
    → k ≢ none
    → conflicts k (rows ++ r ∷ []) ≡ true
unfolding conflicts
conflicts-append_self none rows r e named = absurd (named refl)
conflicts-append_self (some id) rows r e named =
    any-append_self (λ x. same_event id x.event_id) rows r (rw e (text_eq_refl id))

-- What is stored stays stored as rows are added.
pub conflicts-append_true :
    (k : Option Text) (rows new : List MeterRow)
    → conflicts k rows ≡ true
    → conflicts k (rows ++ new) ≡ true
unfolding conflicts
conflicts-append_true none rows new h = cc
conflicts-append_true (some id) rows new h = go rows h
  where
    go :
        (xs : List MeterRow)
        → any (λ r. same_event id r.event_id) xs ≡ true
        → any (λ r. same_event id r.event_id) (xs ++ new) ≡ true
    go [] h' = cc
    go (x ∷ xs) h' = ground (arith, go xs)

-- An id that no row has is new beside a row with another id, too.
pub conflicts-append_false :
    (id : Text) (rows : List MeterRow) (r : MeterRow)
    → conflicts (some id) rows ≡ false
    → same_event id r.event_id ≡ false
    → conflicts (some id) (rows ++ r ∷ []) ≡ false
unfolding conflicts
conflicts-append_false id rows r h k = any-append _ rows r h k
