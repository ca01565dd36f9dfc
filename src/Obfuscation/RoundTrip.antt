-- ===== src/Obfuscation/RoundTrip.antt =====
-- Decoding what core/obfuscation.py has encoded.
use Prim.Native.String
use Prim.Native.Char.{Char, char}
use text.Mathlib.TextLemmas.{nil-append, cons-append, append_assoc}
use c_py_nodus_ii.Prelude.{
  ℕ, zero, suc, ◌/◌, ◌%◌, ◌<◌, ◌≡◌, refl, ◌∙◌, sym, ap, String, true, false, Option, none, some,
  List, [], ◌∷◌, ◌++◌, length, length-append, length-take, arith, All, Bool-cases, inl, inr,
}
use c_py_nodus_ii.Prelude.Text.{
  is_blank, is_colon, has, has_prefix, has_prefix-append, split_at, split_at-append,
}
use c_py_nodus_ii.Obfuscation.{
  Bytes, Firmware, digest32, big_endian, mix, mixed, crypt, build_obf_key, obf_keystream,
  encode_password, decode_password, decode_body, try_keys, keys_to_try, prefix, sealed,
  given_stream, digest_with, concat,
}
use c_py_nodus_ii.Obfuscation.Stream.{
  IsByte, IsHash, IsStream, All-append, All-take, xor_bytes-xor_bytes, obf_keystream-IsStream,
}

-- What the code relies on: a hash is some bytes, UTF-8 gives bytes, base64 gives back what it was
-- given and has no colon.
pub record IsFirmware (f : Firmware) : Type 0 where
  pub sha256_hash : (hash : Bytes → Bytes) → f.sha256 ≡ some hash → IsHash hash
  pub sha1_hash : (hash : Bytes → Bytes) → f.sha1 ≡ some hash → IsHash hash
  pub encode_bytes : (s : String) → All IsByte (f.encode_utf8 s)
  pub a2b-b2a : (b : Bytes) → All IsByte b → f.a2b_base64 (f.b2a_base64 b) ≡ some b
  pub b2a_no_colon : (b : Bytes) → has is_colon (f.b2a_base64 b) ≡ false

big_endian-bytes : (n z : ℕ) → (length (big_endian n z) ≡ n) × All IsByte (big_endian n z)
unfolding big_endian
big_endian-bytes zero z = (refl, tt)
big_endian-bytes (suc n) z =
    let (len, bounded) = big_endian-bytes n (z / 256) in
    (
      omega (arith, length-append (big_endian n (z / 256)) (z % 256 ∷ []), len),
      All-append (big_endian n (z / 256)) (z % 256 ∷ []) bounded (omega arith, tt),
    )

some_bytes-append :
    (xs ys : Bytes)
    → 0 < length xs
    → All IsByte xs
    → All IsByte ys
    → (0 < length (xs ++ ys)) × All IsByte (xs ++ ys)
some_bytes-append xs ys l p q = (omega (arith, length-append xs ys, l), All-append xs ys p q)

mixed-bytes : (state : ℕ) → (0 < length (mixed state)) × All IsByte (mixed state)
unfolding mixed
mixed-bytes state =
    let a = big_endian-bytes 8 (mix state 0) in
    let b = big_endian-bytes 8 (mix state 1) in
    let c = big_endian-bytes 8 (mix state 2) in
    let d = big_endian-bytes 8 (mix state 3) in
    let e = some_bytes-append _ _ (omega (arith, a.0)) a.1 b.1 in
    let g = some_bytes-append _ _ e.0 e.1 c.1 in some_bytes-append _ _ g.0 g.1 d.1

digest_with-bytes :
    (sha256 sha1 : Option (Bytes → Bytes)) (bytes : Bytes)
    → ((hash : Bytes → Bytes) → sha256 ≡ some hash → IsHash hash)
    → ((hash : Bytes → Bytes) → sha1 ≡ some hash → IsHash hash)
    → (0 < length (digest_with sha256 sha1 bytes)) × All IsByte (digest_with sha256 sha1 bytes)
digest_with-bytes (some hash) sha1 bytes h k = h hash refl bytes
digest_with-bytes none (some hash) bytes h k =
    let (len, bounded) = k hash refl bytes in
    let later = k hash refl (bytes ++ 1 ∷ []) in
    (
      omega (
        arith,
        length-take 32 (hash bytes ++ hash (bytes ++ 1 ∷ [])),
        length-append (hash bytes) (hash (bytes ++ 1 ∷ [])),
        len,
      ),
      All-take 32 (hash bytes ++ hash (bytes ++ 1 ∷ []))
          (All-append (hash bytes) (hash (bytes ++ 1 ∷ [])) bounded later.1),
    )
digest_with-bytes none none bytes h k = mixed-bytes _

-- Every digest is some bytes, whichever hash functions the firmware has.
pub digest32-bytes :
    (f : Firmware)
    → IsFirmware f
    → (parts : List Bytes) → (0 < length (digest32 f parts)) × All IsByte (digest32 f parts)
unfolding digest32
digest32-bytes f h parts =
    digest_with-bytes f.sha256 f.sha1 (concat parts) h.sha256_hash h.sha1_hash

abbrev colon : Char
colon = char 58 tt

colon_first : (s : String) → String.◌++◌ ":" s ≡ String.◌∷◌ colon s
colon_first s = cons-append colon String.[] s ∙ ap (String.◌∷◌ colon) (nil-append s)

prefix_label : (s : String) → String.◌++◌ prefix s ≡ String.◌++◌ "obf1" (String.◌∷◌ colon s)
prefix_label s = append_assoc "obf1" ":" s ∙ ap (String.◌++◌ "obf1") (colon_first s)

prefixed : (s : String) → has_prefix prefix (String.◌++◌ prefix s) ≡ true
prefixed s = has_prefix-append prefix s

blank_prefixed : (s : String) → is_blank (String.◌++◌ prefix s) ≡ false
blank_prefixed s = rw (cons-append (char 111 tt) "bf1:" s)

split_prefixed : (s : String) → split_at is_colon (String.◌++◌ prefix s) ≡ some ("obf1", s)
unfolding has
split_prefixed s = rw (prefix_label s) (split_at-append is_colon "obf1" colon s refl refl)

split_body :
    (a b : String)
    → has is_colon a ≡ false
    → split_at is_colon (String.◌++◌ a (String.◌++◌ ":" b)) ≡ some (a, b)
split_body a b n = rw (colon_first b) (split_at-append is_colon a colon b n refl)

blank-eq : (s : String) → is_blank s ≡ true → s ≡ ""
blank-eq String.[] h = refl
blank-eq (String.◌∷◌ c s) h = ground (arith, h)

decode_blank : (f : Firmware) (hostname : String) → decode_password f hostname "" ≡ ""
unfolding decode_password
decode_blank f hostname = refl

stream_twice :
    (bytes : Bytes) (stream : Option Bytes)
    → IsStream (length bytes) stream
    → All IsByte bytes
    → (given_stream (given_stream bytes stream) stream ≡ bytes)
      × All IsByte (given_stream bytes stream)
      × (length (given_stream bytes stream) ≡ length bytes)
stream_twice bytes none s b = elim s [ ]
stream_twice bytes (some stream) (len, s) b =
    xor_bytes-xor_bytes bytes stream (omega (arith, len)) b s

module _ (f : Firmware) (h : IsFirmware f) (nonce : Bytes) where
  crypt-crypt :
      (key bytes : Bytes)
      → All IsByte bytes
      → (crypt f nonce key (crypt f nonce key bytes) ≡ bytes) × All IsByte (crypt f nonce key bytes)
  crypt-crypt key bytes b =
      let stream = obf_keystream f nonce (length bytes) key in
      let (same, bounded, len) =
        stream_twice bytes stream
          (obf_keystream-IsStream f key nonce (length bytes) (digest32-bytes f h)) b in
      (
        ap (λ n. given_stream (given_stream bytes stream) (obf_keystream f nonce n key)) len ∙ same,
        bounded,
      )

  decode-sealed :
      (hostname : String) (cipher : Bytes)
      → All IsByte nonce
      → All IsByte cipher
      → decode_password f hostname (sealed f nonce cipher)
        ≡ try_keys f nonce cipher (keys_to_try f hostname)
  unfolding decode_password decode_body
  decode-sealed hostname cipher n c =
      let body = String.◌++◌ (f.b2a_base64 nonce) (String.◌++◌ ":" (f.b2a_base64 cipher)) in
      rw
        (
          prefixed body,
          blank_prefixed body,
          split_prefixed body,
          decode_body,
          split_body (f.b2a_base64 nonce) (f.b2a_base64 cipher) (h.b2a_no_colon nonce),
          h.a2b-b2a nonce n,
          h.a2b-b2a cipher c,
        )
        refl

-- A password that does not begin like an encoded one, and that UTF-8 gives back, is what decoding
-- its encoded form gives, whatever host name, hash functions and nonce there are.
pub decode-encode_password :
    (f : Firmware) (hostname : String) (nonce : Bytes) (cleartext : String)
    → IsFirmware f
    → All IsByte nonce
    → has_prefix prefix cleartext ≡ false
    → f.decode_utf8 (f.encode_utf8 cleartext) ≡ some cleartext
    → decode_password f hostname (encode_password f nonce cleartext) ≡ cleartext
unfolding encode_password try_keys
decode-encode_password f hostname nonce cleartext h n p u = elim (Bool-cases (is_blank cleartext)) [
  | inl b ↦ rw b (decode_blank f hostname ∙ sym (blank-eq cleartext b))
  | inr b ↦
      let key = build_obf_key f in
      let raw = f.encode_utf8 cleartext in
      let (same, bounded) = crypt-crypt f h nonce key raw (h.encode_bytes cleartext) in
      rw (b, p)
        (decode-sealed f h nonce hostname (crypt f nonce key raw) n bounded
          ∙ rw (try_keys, same, u) refl)
]
