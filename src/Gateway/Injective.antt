-- ===== src/Gateway/Injective.antt =====
-- readings.js: which readings a signed message stands for.
use io_t_billing_service.Base.{
  ℕ, zero, suc, ◌/◌, ◌%◌, ◌^◌, ◌<◌, ◌≡◌, refl, sym, ◌∙◌, [], ◌∷◌, ◌++◌, length, length-append,
  arith,
}
use io_t_billing_service.Gateway.Buffers.{Bytes, be_bytes, u64be}
use io_t_billing_service.Gateway.Payload.{signing_domain, message}

append-injective :
    (xs ys s t : Bytes) → length xs ≡ length ys → xs ++ s ≡ ys ++ t → (xs ≡ ys) × (s ≡ t)
append-injective [] [] s t l e = (refl, e)
append-injective [] (y ∷ ys) s t l e = absurd (omega arith)
append-injective (x ∷ xs) [] s t l e = absurd (omega arith)
append-injective (x ∷ xs) (y ∷ ys) s t l e =
    let (same, rest) = append-injective xs ys s t (omega arith) (cc) in (cc, rest)

pub length-be_bytes : (width n : ℕ) → length (be_bytes width n) ≡ width
unfolding be_bytes
length-be_bytes zero n = refl
length-be_bytes (suc width) n =
    length-append (be_bytes width (n / 256)) _ ∙ (omega (arith, length-be_bytes width (n / 256)))

-- The number fits the width.
abbrev Fits : ℕ → ℕ → Type 0
Fits zero n = n ≡ 0
Fits (suc width) n = Fits width (n / 256)

be_bytes-injective :
    (width n m : ℕ) → Fits width n → Fits width m → be_bytes width n ≡ be_bytes width m → n ≡ m
unfolding be_bytes
be_bytes-injective zero n m f g e = omega arith
be_bytes-injective (suc width) n m f g e =
    let (front, last) =
      append-injective (be_bytes width (n / 256)) (be_bytes width (m / 256)) _ _
        (length-be_bytes width (n / 256) ∙ sym (length-be_bytes width (m / 256))) e in
    let high : n / 256 ≡ m / 256 = be_bytes-injective width (n / 256) (m / 256) f g front in
    let low : n % 256 ≡ m % 256 = cc in omega arith

u64be-injective : (n m : ℕ) → n < 2 ^ 64 → m < 2 ^ 64 → u64be n ≡ u64be m → n ≡ m
u64be-injective n m f g e = be_bytes-injective 8 n m (omega arith) (omega arith) e

-- Two readings with one message have the same key, sequence number, units and time, where the keys
-- have equal lengths and the numbers fit 64 bits.
pub message-injective :
    (key key' : Bytes) (seq seq' units units' time time' : ℕ)
    → length key ≡ length key'
    → (seq < 2 ^ 64) × (seq' < 2 ^ 64)
    → (units < 2 ^ 64) × (units' < 2 ^ 64)
    → (time < 2 ^ 64) × (time' < 2 ^ 64)
    → message key seq units time ≡ message key' seq' units' time'
    → (key ≡ key') × (seq ≡ seq') × (units ≡ units') × (time ≡ time')
unfolding message
message-injective key key' seq seq' units units' time time' l hs hu ht e =
    let (_, a) = append-injective signing_domain signing_domain _ _ refl e in
    let (keys, b) = append-injective key key' _ _ l a in
    let (seqs, c) = append-injective (u64be seq) (u64be seq') _ _ (same_width seq seq') b in
    let (us, ts) = append-injective (u64be units) (u64be units') _ _ (same_width units units') c in
    (
      keys,
      u64be-injective seq seq' hs.0 hs.1 seqs,
      u64be-injective units units' hu.0 hu.1 us,
      u64be-injective time time' ht.0 ht.1 ts,
    )
  where
    same_width : (n m : ℕ) → length (u64be n) ≡ length (u64be m)
    same_width n m = length-be_bytes 8 n ∙ sym (length-be_bytes 8 m)
