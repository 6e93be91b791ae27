-- ===== src/Frontend/App.antt =====
-- App.tsx: the links, and the component that a path shows.
use io_t_billing_service.Base.{Bool, true, false, Option, none, some, List, [], ◌∷◌, Text, text}

pub data Page : Type 0 where
  device_list live_stream : Page

-- The `NavLink`s, with what they say.
unfoldable pub links : List (Text × Text)
links = (text "/", text "Devices") ∷ (text "/live", text "Live Telemetry") ∷ []

-- The `Route`s.
unfoldable pub routes : List (Text × Page)
routes = (text "/", device_list) ∷ (text "/live", live_stream) ∷ []

-- What `Routes` shows of them at a path; `matches` is the comparison of react-router.
unfoldable pub page_at : (Text → Text → Bool) → Text → Option Page
page_at matches path = first routes
  where
    first : List (Text × Page) → Option Page
    first [] = none
    first ((pattern, page) ∷ rest) = elim (matches pattern path) [
      | true ↦ some page
      | false ↦ first rest
    ]
