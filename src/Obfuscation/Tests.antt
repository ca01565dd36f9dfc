-- ===== src/Obfuscation/Tests.antt =====
-- A firmware without hash functions and with toy encodings: base64 writes each byte as so many "a"s
-- and a "b", and UTF-8 knows the letter "x".
use Prim.Native.Char.{char, code}
use c_py_nodus_ii.Prelude.{
  ℕ, zero, suc, ap, ◌∙◌, ◌+◌, ◌%◌, ◌≡◌, refl, String, false, Option, none, some, [], ◌∷◌, arith,
  All, ◌==◌, if◌then◌else◌,
}
use c_py_nodus_ii.Prelude.Text.{has_prefix, has, is_colon}
use c_py_nodus_ii.Obfuscation.{Bytes, Firmware, obf_keystream, encode_password, decode_password}
use c_py_nodus_ii.Obfuscation.Stream.{IsByte, IsStream, obf_keystream-IsStream}
use c_py_nodus_ii.Obfuscation.RoundTrip.{IsFirmware, decode-encode_password, digest32-bytes}

unfoldable unary : ℕ → String → String
unary zero s = String.◌∷◌ (char 98 tt) s
unary (suc n) s = String.◌∷◌ (char 97 tt) (unary n s)

unfoldable write_unary : Bytes → String
write_unary [] = ""
write_unary (b ∷ bs) = unary b (write_unary bs)

with_byte : ℕ → Option Bytes → Option Bytes
with_byte n none = none
with_byte n (some bs) = some (n ∷ bs)

unfoldable read_unary : ℕ → String → Option Bytes
unfolding with_byte
read_unary n String.[] = some []
read_unary n (String.◌∷◌ c s) =
    let more = read_unary (suc n) s in
    let next = with_byte n (read_unary 0 s) in if code c == 97 then more else next

unfoldable codes : String → Bytes
codes String.[] = []
codes (String.◌∷◌ c s) = code c % 256 ∷ codes s

unfoldable letters : Bytes → Option String
letters [] = some ""
letters (b ∷ bs) = elim (letters bs) [
  | none ↦ none
  | some s ↦ if b == 120 then some (String.◌∷◌ (char 120 tt) s) else none
]

abbrev firmware : Firmware
firmware = record {
  sha256 = none;
  sha1 = none;
  uid = none;
  board_id = some (112 ∷ 105 ∷ []);
  b2a_base64 = write_unary;
  a2b_base64 = read_unary 0;
  encode_utf8 = codes;
  decode_utf8 = letters;
}

read-unary : (n m : ℕ) (s : String) → read_unary m (unary n s) ≡ with_byte (n + m) (read_unary 0 s)
unfolding unary read_unary with_byte
read-unary zero m s = ap (λ k. with_byte k (read_unary 0 s)) (omega arith)
read-unary (suc n) m s =
    read-unary n (suc m) s ∙ ap (λ k. with_byte k (read_unary 0 s)) (omega arith)

read-write_unary : (b : Bytes) → read_unary 0 (write_unary b) ≡ some b
unfolding write_unary read_unary with_byte
read-write_unary [] = refl
read-write_unary (b ∷ bs) = read-unary b 0 (write_unary bs) ∙ ground (arith, read-write_unary bs)

unary_no_colon : (n : ℕ) (s : String) → has is_colon s ≡ false → has is_colon (unary n s) ≡ false
unfolding has unary
unary_no_colon zero s h = h
unary_no_colon (suc n) s h = unary_no_colon n s h

written_no_colon : (b : Bytes) → has is_colon (write_unary b) ≡ false
unfolding has write_unary
written_no_colon [] = refl
written_no_colon (b ∷ bs) = unary_no_colon b (write_unary bs) (written_no_colon bs)

codes_bytes : (s : String) → All IsByte (codes s)
unfolding codes
codes_bytes String.[] = tt
codes_bytes (String.◌∷◌ c s) = (omega arith, codes_bytes s)

firmware-IsFirmware : IsFirmware firmware
firmware-IsFirmware = record {
  sha256_hash = λ hash e. ground (arith, e);
  sha1_hash = λ hash e. ground (arith, e);
  encode_bytes = codes_bytes;
  a2b-b2a = λ b h. read-write_unary b;
  b2a_no_colon = written_no_colon;
}

decode-encode_password_example :
    decode_password firmware "node" (encode_password firmware (1 ∷ 2 ∷ []) "xx") ≡ "xx"
unfolding has_prefix codes letters
decode-encode_password_example =
    decode-encode_password firmware "node" (1 ∷ 2 ∷ []) "xx" firmware-IsFirmware
      (omega arith, (omega arith, tt)) refl refl

obf_keystream-IsStream_example : IsStream 40 (obf_keystream firmware (1 ∷ []) 40 (2 ∷ []))
obf_keystream-IsStream_example =
    obf_keystream-IsStream firmware (2 ∷ []) (1 ∷ []) 40
      (digest32-bytes firmware firmware-IsFirmware)
