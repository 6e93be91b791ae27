-- ===== src/Api/Bus.antt =====
-- `class TelemetryBus`: a set of subscribers, each of which may throw.
use io_t_billing_service.Base.{ℕ, Bool, not, List, [], ◌∷◌, ◌++◌, any, keep, ◌==◌, if◌then◌else◌}
use io_t_billing_service.Store.{EventRow}

-- How a subscriber's call ends; what it has done to the world before it throws stays.
pub data Called (S : Type 0) : Type 0 where
  returned : S → Called S
  raised : S → Called S

abbrev pub world_of : {S : Type 0} → Called S → S
world_of (returned s) = s
world_of (raised s) = s

-- A function that acts on the world `S`; functions are told apart by their ids.
pub record Subscriber (S : Type 0) : Type 0 where
  pub id : ℕ
  pub call : EventRow → S → Called S

module _ {S : Type 0} where
  abbrev pub has_id : ℕ → Subscriber S → Bool
  has_id id f = f.id == id

  -- Adding to a Set: a member stays where it is.
  unfoldable pub subscribe : Subscriber S → List (Subscriber S) → List (Subscriber S)
  subscribe fn subscribers =
      if any (has_id fn.id) subscribers then subscribers else subscribers ++ fn ∷ []

  -- What the function that `subscribe` returns does.
  unfoldable pub unsubscribe : Subscriber S → List (Subscriber S) → List (Subscriber S)
  unsubscribe fn subscribers = keep (λ f. not (has_id fn.id f)) subscribers

  -- An exception is caught and logged, and the next subscriber is called.
  unfoldable pub publish : EventRow → List (Subscriber S) → S → S
  publish row [] s = s
  publish row (fn ∷ subscribers) s = publish row subscribers (world_of (fn.call row s))

  unfoldable pub publish_all : List EventRow → List (Subscriber S) → S → S
  publish_all [] subscribers s = s
  publish_all (row ∷ rows) subscribers s = publish_all rows subscribers (publish row subscribers s)
