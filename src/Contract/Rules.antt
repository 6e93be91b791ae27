-- ===== src/Contract/Rules.antt =====
-- How an action's steps are followed: what holds after an action that returned a value.
use mathlib.Core.Path.{subst}
use io_t_billing_service.Base.{◌≡◌, refl, Bool, true, false, Option, none, some, ℤ, [], ◌∷◌, ◌++◌}
use io_t_billing_service.Contract.Host.{Error, Result, ok, err, trap}
use io_t_billing_service.Contract.Storage.{World, Storage, Event}
use io_t_billing_service.Contract.Entry.{
  Action, pure, fail_if, trap_unless, ok_or, put_tokens, change_tokens, lift, sub_or_trap, gets,
  modify, publish, ◌>>=◌,
}

unfoldable pub Ensures : {T A : Type 0} → (A → World T → Type 0) → Result A × World T → Type 0
Ensures Q (ok a, w) = Q a w
Ensures Q (err e, w) = Unit
Ensures Q (trap, w) = Unit

module _ {T A : Type 0} (Q : A → World T → Type 0) where
  pub after_pure : (a : A) (w : World T) → Q a w → Ensures Q (pure a w)
  unfolding Ensures pure
  after_pure a w h = h

  pub after_fail_if :
      (b : Bool) (e : Error) (k : Unit → Action T A) (w : World T)
      → (b ≡ false → Ensures Q (k tt w))
      → Ensures Q ((fail_if b e >>= k) w)
  unfolding Ensures fail_if ◌>>=◌
  after_fail_if true e k w h = tt
  after_fail_if false e k w h = h refl

  pub after_trap_unless :
      (b : Bool) (k : Unit → Action T A) (w : World T)
      → (b ≡ true → Ensures Q (k tt w))
      → Ensures Q ((trap_unless b >>= k) w)
  unfolding Ensures trap_unless ◌>>=◌
  after_trap_unless false k w h = tt
  after_trap_unless true k w h = h refl

  pub after_ok_or :
      {B : Type 0} (o : Option B) (e : Error) (f : B → Action T A) (w : World T)
      → ((b : B) → o ≡ some b → Ensures Q (f b w))
      → Ensures Q ((ok_or o e >>= f) w)
  unfolding Ensures ok_or ◌>>=◌
  after_ok_or none e k w h = tt
  after_ok_or (some b) e k w h = h b refl

  pub after_sub :
      (o : Option ℤ) (f : ℤ → Action T A) (w : World T)
      → ((b : ℤ) → o ≡ some b → Ensures Q (f b w))
      → Ensures Q ((sub_or_trap o >>= f) w)
  unfolding Ensures sub_or_trap ◌>>=◌
  after_sub none k w h = tt
  after_sub (some b) k w h = h b refl

  pub after_lift :
      {B : Type 0} (r : Result B) (f : B → Action T A) (w : World T)
      → ((b : B) → r ≡ ok b → Ensures Q (f b w))
      → Ensures Q ((lift r >>= f) w)
  unfolding Ensures lift ◌>>=◌
  after_lift (ok b) k w h = h b refl
  after_lift (err _) k w h = tt
  after_lift trap k w h = tt

  after_put_tokens :
      (o : Option T) (k : Unit → Action T A) (w : World T)
      → ((t : T) → o ≡ some t → Ensures Q (k tt (record w { tokens = t })))
      → Ensures Q ((put_tokens o >>= k) w)
  unfolding Ensures put_tokens ◌>>=◌
  after_put_tokens none k w h = tt
  after_put_tokens (some t) k w h = h t refl

  pub after_change :
      (f : T → Option T) (k : Unit → Action T A) (w : World T)
      → ((t : T) → f w.tokens ≡ some t → Ensures Q (k tt (record w { tokens = t })))
      → Ensures Q ((change_tokens f >>= k) w)
  unfolding change_tokens ◌>>=◌
  after_change f k w h = after_put_tokens (f w.tokens) k w h

  pub after_gets :
      {B : Type 0} (g : Storage → B) (f : B → Action T A) (w : World T)
      → Ensures Q (f (g w.storage) w)
      → Ensures Q ((gets g >>= f) w)
  unfolding Ensures gets ◌>>=◌
  after_gets g f w h = h

  pub after_modify :
      (g : Storage → Storage) (k : Unit → Action T A) (w : World T)
      → Ensures Q (k tt (record w { storage = g w.storage }))
      → Ensures Q ((modify g >>= k) w)
  unfolding Ensures modify ◌>>=◌
  after_modify g k w h = h

  pub after_publish :
      (e : Event) (k : Unit → Action T A) (w : World T)
      → Ensures Q (k tt (record w { events = w.events ++ e ∷ [] }))
      → Ensures Q ((publish e >>= k) w)
  unfolding Ensures publish ◌>>=◌
  after_publish e k w h = h

  pub Ensures-value :
      (r : Result A × World T) (a : A) (w : World T) → Ensures Q r → r ≡ (ok a, w) → Q a w
  unfolding Ensures
  Ensures-value r a w h e = subst (Ensures Q) e h

  pub Ensures-weaken :
      (R : A → World T → Type 0)
      → ((a : A) (w : World T) → Q a w → R a w)
      → (r : Result A × World T) → Ensures Q r
      → Ensures R r
  unfolding Ensures
  Ensures-weaken R f (ok a, w) h = f a w h
  Ensures-weaken R f (err e, w) h = tt
  Ensures-weaken R f (trap, w) h = tt
