-- ===== src/Api/Origins.antt =====
-- Which origins CORS_ORIGIN lists, and what a request of another origin can do.
use io_t_billing_service.Base.{
  ℕ, ◌≡◌, ◌≢◌, refl, sym, ap, ◌∙◌, false, some, List, [], ◌∷◌, ◌++◌, map, append_assoc, append-nil,
  Text, All, keep, any, ◌==◌, arith, text_eq_refl, text_eq, text_eq_iff,
}
use io_t_billing_service.Store.{CacheStore}
use io_t_billing_service.Api.Cors.{
  split_at, is_space, trim_start, trim_end, trim, is_nonempty, allowed_origins, includes_origin,
  admits,
}
use io_t_billing_service.Api.App.{
  Request, error_reply, Env, not_allowed, handle_error, handle_request,
}

-- The texts with commas between them.
unfoldable pub join_commas : List Text → Text
join_commas [] = []
join_commas (t ∷ []) = t
join_commas (t ∷ u ∷ ts) = t ++ b',' ∷ join_commas (u ∷ ts)

-- A text that a comma-separated list can hold as it is: not empty, and no white space or comma.
abbrev pub IsPlain : Text → Type 0
IsPlain t = (t ≢ []) × All (λ c. (is_space c ≡ false) × ((c == 44) ≡ false)) t

split_at_last :
    (cur t : Text)
    → All (λ c. (is_space c ≡ false) × ((c == 44) ≡ false)) t
    → split_at 44 cur t ≡ (cur ++ t) ∷ []
unfolding split_at
split_at_last cur [] h = ap (λ x. x ∷ []) (sym (append-nil cur))
split_at_last cur (c ∷ t) ((s, n), h) =
    rw n (split_at_last (cur ++ c ∷ []) t h ∙ ap (λ x. x ∷ []) (append_assoc cur (c ∷ []) t))

split_at_comma :
    (cur t rest : Text)
    → All (λ c. (is_space c ≡ false) × ((c == 44) ≡ false)) t
    → split_at 44 cur (t ++ b',' ∷ rest) ≡ (cur ++ t) ∷ split_at 44 [] rest
unfolding split_at
split_at_comma cur [] rest h = ap (λ x. x ∷ split_at 44 [] rest) (sym (append-nil cur))
split_at_comma cur (c ∷ t) rest ((s, n), h) = rw n (
    split_at_comma (cur ++ c ∷ []) t rest h
    ∙ ap (λ x. x ∷ split_at 44 [] rest) (append_assoc cur (c ∷ []) t))

split_at-join_commas :
    (t : Text) (ts : List Text)
    → All IsPlain (t ∷ ts)
    → split_at 44 [] (join_commas (t ∷ ts)) ≡ t ∷ ts
unfolding join_commas
split_at-join_commas t [] (h, hs) = split_at_last [] t h.1
split_at-join_commas t (u ∷ ts) (h, hs) =
    split_at_comma [] t (join_commas (u ∷ ts)) h.1 ∙ ap (λ x. t ∷ x) (split_at-join_commas u ts hs)

trim_end_plain :
    (t : Text) → All (λ c. (is_space c ≡ false) × ((c == 44) ≡ false)) t → trim_end t ≡ t
unfolding trim_end
trim_end_plain [] h = refl
trim_end_plain (c ∷ []) ((s, n), h) = rw s refl
trim_end_plain (c ∷ d ∷ t) ((s, n), h) = rw (trim_end_plain (d ∷ t) h) refl

trim_plain : (t : Text) → IsPlain t → trim t ≡ t
unfolding trim_start
trim_plain [] (e, h) = absurd (e refl)
trim_plain (c ∷ t) (e, ((s, n), h)) = rw s (trim_end_plain (c ∷ t) ((s, n), h))

keep-map-trim_plain : (ts : List Text) → All IsPlain ts → keep is_nonempty (map trim ts) ≡ ts
keep-map-trim_plain [] h = refl
keep-map-trim_plain ([] ∷ ts) (p, h) = absurd (p.0 refl)
keep-map-trim_plain ((c ∷ t) ∷ ts) (p, h) =
    rw (trim_plain (c ∷ t) p) (ap (λ x. (c ∷ t) ∷ x) (keep-map-trim_plain ts h))

not_included :
    (c : ℕ) (o : Text) (ts : List Text) → All (λ x. x ≢ c ∷ o) ts → any (text_eq (c ∷ o)) ts ≡ false
not_included c o [] h = refl
not_included c o (t ∷ ts) (n, h) = ground (arith, not_included c o ts h, n, text_eq_iff (c ∷ o) t)

not_admitted :
    (t : Text) (ts : List Text) (c : ℕ) (o : Text)
    → All (λ x. x ≢ c ∷ o) (t ∷ ts)
    → admits (t ∷ ts) (some (c ∷ o)) ≡ false
unfolding admits includes_origin
not_admitted t ts c o h = not_included c o (t ∷ ts) h

-- CORS_ORIGIN lists just the origins that were joined by commas into it, for origins that are not
-- empty and have no white space or comma.
pub allowed_origins-join_commas :
    (t : Text) (ts : List Text)
    → All IsPlain (t ∷ ts)
    → allowed_origins (join_commas (t ∷ ts)) ≡ t ∷ ts
unfolding allowed_origins
allowed_origins-join_commas t ts h =
    ap (λ parts. keep is_nonempty (map trim parts)) (split_at-join_commas t ts h)
    ∙ keep-map-trim_plain (t ∷ ts) h

-- Where CORS_ORIGIN joins some origins by commas, a request of an origin that is none of them is
-- answered with 403 whatever its route, and leaves the store as it was.
pub handle_request_denied :
    (env : Env) (t : Text) (ts : List Text) (c : ℕ) (o : Text) (r : Request) (s : CacheStore)
    → All IsPlain (t ∷ ts)
    → env.cors_origin ≡ join_commas (t ∷ ts)
    → All (λ x. x ≢ c ∷ o) (t ∷ ts)
    → handle_request env (some (c ∷ o)) r s ≡ (error_reply 403 not_allowed, s)
unfolding handle_request handle_error
handle_request_denied env t ts c o r s plain listed other =
    let origins = ap allowed_origins listed ∙ allowed_origins-join_commas t ts plain in
    rw (origins, not_admitted t ts c o other, text_eq_refl not_allowed) refl
