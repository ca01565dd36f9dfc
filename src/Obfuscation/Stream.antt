-- ===== src/Obfuscation/Stream.antt =====
-- The key stream of core/obfuscation.py: it is as long as the text, and taking it twice gives the
-- text back.
use Prim.Native.Nat.{bit_xor}
use c_py_nodus_ii.Prelude.{
  ℕ, zero, suc, ◌+◌, ◌≤◌, ◌<◌, ◌≡◌, refl, ◌∙◌, ap, Bool, true, ◌&&◌, Option, none, some, List, [],
  ◌∷◌, ◌++◌, length, take, length-append, length-take, arith, All, leb, ltb, ◌==◌, if-elim, leb→le,
}
use c_py_nodus_ii.Prelude.Text.{decimal}
use c_py_nodus_ii.Obfuscation.{Bytes, Firmware, digest32, keystream_from, obf_keystream, xor_bytes}

abbrev pub IsByte : ℕ → Type 0
IsByte b = b < 256

-- The test passes on the numbers under a bound.
every : (ℕ → Bool) → ℕ → Bool
every test zero = true
every test (suc bound) = every test bound && test bound

every-at :
    (test : ℕ → Bool) (bound value : ℕ)
    → value < bound
    → every test bound ≡ true
    → test value ≡ true
unfolding every
every-at test zero value below passed = ground (arith, below)
every-at test (suc bound) value below passed =
    ground (arith, below, passed, every-at test bound value)

xor_test : ℕ → ℕ → Bool
xor_test a b = bit_xor (bit_xor a b) b == a && ltb (bit_xor a b) 256

xor_table : every (λ a. every (xor_test a) 256) 256 ≡ true
unfolding every xor_test
xor_table = refl

xor_sound : (a b : ℕ) → xor_test a b ≡ true → (bit_xor (bit_xor a b) b ≡ a) × (bit_xor a b < 256)
unfolding xor_test
xor_sound a b h = (ground (arith, h), ground (arith, h))

xor_byte : (a b : ℕ) → IsByte a → IsByte b → (bit_xor (bit_xor a b) b ≡ a) × (bit_xor a b < 256)
xor_byte a b p q =
    let row = every-at (λ a. every (xor_test a) 256) 256 a p xor_table in
    xor_sound a b (every-at (xor_test a) 256 b q row)

pub xor_bytes-xor_bytes :
    (bytes stream : Bytes)
    → length bytes ≤ length stream
    → All IsByte bytes
    → All IsByte stream
    → (xor_bytes (xor_bytes bytes stream) stream ≡ bytes)
      × All IsByte (xor_bytes bytes stream)
      × (length (xor_bytes bytes stream) ≡ length bytes)
unfolding xor_bytes
xor_bytes-xor_bytes [] stream l p q = (refl, tt, refl)
xor_bytes-xor_bytes (a ∷ bytes) [] l p q = ground (arith, l)
xor_bytes-xor_bytes (a ∷ bytes) (b ∷ stream) l (p, ps) (q, qs) =
    let (same, bounded) = xor_byte a b p q in
    let (rest, bytes_bounded, len) = xor_bytes-xor_bytes bytes stream (omega (arith, l)) ps qs in
    (rw (same, rest), (bounded, bytes_bounded), ap suc len)

-- A firmware whose hashes are not empty and consist of bytes.
abbrev pub IsHash : (Bytes → Bytes) → Type 0
IsHash hash = (b : Bytes) → (0 < length (hash b)) × All IsByte (hash b)

pub All-append : (xs ys : Bytes) → All IsByte xs → All IsByte ys → All IsByte (xs ++ ys)
All-append [] ys p q = q
All-append (x ∷ xs) ys (p, ps) q = (p, All-append xs ys ps q)

pub All-take : (n : ℕ) (xs : Bytes) → All IsByte xs → All IsByte (take n xs)
All-take zero xs p = tt
All-take (suc n) [] p = tt
All-take (suc n) (x ∷ xs) (p, ps) = (p, All-take n xs ps)

-- The stream that a loop gives.
abbrev pub IsStream : ℕ → Option Bytes → Type 0
IsStream n none = ⊥
IsStream n (some stream) = (length stream ≡ n) × All IsByte stream

module _ (f : Firmware) (key nonce : Bytes) where
  keystream_from-IsStream :
      (parts : (p : List Bytes) → (0 < length (digest32 f p)) × All IsByte (digest32 f p))
      (n fuel counter : ℕ) (out : Bytes)
      → 0 < fuel
      → n < fuel + length out
      → All IsByte out
      → IsStream n (keystream_from fuel f key nonce n counter out)
  unfolding keystream_from
  keystream_from-IsStream parts n zero counter out some_fuel h p = ground (arith, some_fuel)
  keystream_from-IsStream parts n (suc fuel) counter out some_fuel h p =
      let next = digest32 f (key ∷ nonce ∷ f.encode_utf8 (decimal counter) ∷ []) in
      let (len, bounded) = parts (key ∷ nonce ∷ f.encode_utf8 (decimal counter) ∷ []) in
      if-elim (IsStream n) (leb n (length out)) _ _
        (λ enough.
          (length-take n out ∙ omega (arith, leb→le n (length out) enough), All-take n out p))
        (λ short.
          keystream_from-IsStream parts n fuel (suc counter) (out ++ next)
            (ground (arith, h, short)) (omega (arith, h, length-append out next, len))
            (All-append out next p bounded))

-- Whatever the ids of the board: where no digest is empty, the loop ends with a stream of the length
-- that is asked for.
pub obf_keystream-IsStream :
    (f : Firmware) (key nonce : Bytes) (n : ℕ)
    → ((parts : List Bytes) → (0 < length (digest32 f parts)) × All IsByte (digest32 f parts))
    → IsStream n (obf_keystream f nonce n key)
unfolding obf_keystream
obf_keystream-IsStream f key nonce n parts =
    keystream_from-IsStream f key nonce parts n (suc n) 0 [] (omega arith) (omega arith) tt
