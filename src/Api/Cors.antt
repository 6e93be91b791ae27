-- ===== src/Api/Cors.antt =====
-- `createApi`: the origins that CORS_ORIGIN lists, and which request they let through.
use io_t_billing_service.Base.{
  ℕ, Bool, true, false, ◌&&◌, ◌||◌, Option, none, some, List, [], ◌∷◌, ◌++◌, map, Text, text_eq,
  keep, any, leb, ◌==◌, if◌then◌else◌,
}

-- `s.split(',')`, where `cur` is the part under way.
unfoldable pub split_at : ℕ → Text → Text → List Text
split_at sep cur [] = cur ∷ []
split_at sep cur (c ∷ s) =
    let rest = split_at sep [] s in
    let more = split_at sep (cur ++ c ∷ []) s in if c == sep then cur ∷ rest else more

-- What trim() takes away: the white space and the line ends of ECMAScript.
unfoldable pub is_space : ℕ → Bool
is_space c =
    (leb 9 c && leb c 13)
    || c == 32
    || c == 160
    || c == 5760
    || (leb 8192 c && leb c 8202)
    || c == 8232
    || c == 8233
    || c == 8239
    || c == 8287
    || c == 12288
    || c == 65279

unfoldable pub trim_start : Text → Text
trim_start [] = []
trim_start (c ∷ s) = let rest = trim_start s in if is_space c then rest else c ∷ s

unfoldable pub trim_end : Text → Text
trim_end [] = []
trim_end (c ∷ s) = elim (trim_end s) [ [] ↦ if is_space c then [] else c ∷ [] | d ∷ t ↦ c ∷ d ∷ t ]

abbrev pub trim : Text → Text
trim s = trim_end (trim_start s)

abbrev pub is_nonempty : Text → Bool
is_nonempty [] = false
is_nonempty (c ∷ s) = true

unfoldable pub allowed_origins : Text → List Text
allowed_origins cors_origin = keep is_nonempty (map trim (split_at 44 [] cors_origin))

-- `!origin || allowedOrigins.includes(origin)`
unfoldable pub includes_origin : List Text → Option Text → Bool
includes_origin allowed none = true
includes_origin allowed (some []) = true
includes_origin allowed (some (c ∷ s)) = any (text_eq (c ∷ s)) allowed

-- Whether a request goes on: with no origin listed every one does.
unfoldable pub admits : List Text → Option Text → Bool
admits [] origin = true
admits (o ∷ allowed) origin = includes_origin (o ∷ allowed) origin
