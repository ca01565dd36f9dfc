-- ===== src/Obfuscation.antt =====
-- core/obfuscation.py: the passwords in the settings files. `binascii`, the hash functions of
-- `hashlib`, UTF-8 and the board's ids are the firmware's, and are given as a `Firmware`.
pub mod Stream
pub mod RoundTrip
mod Tests
use Prim.Native.String
use Prim.Native.Nat.{bit_xor}
use c_py_nodus_ii.Prelude.{
  ℕ, zero, suc, ◌+◌, ◌-◌, ◌*◌, ◌/◌, ◌%◌, ◌^◌, String, Bool, not, Option, none, some, List, [], ◌∷◌,
  ◌++◌, length, take, leb, if◌then◌else◌,
}
use c_py_nodus_ii.Prelude.Text.{is_blank, is_colon, has_prefix, split_at, decimal, strip, is_space}

abbrev pub Bytes : Type 0
Bytes = List ℕ

-- A hash function that the firmware lacks is `none`; the ids are those of `microcontroller.cpu.uid`
-- and `board.board_id`, as bytes.
pub record Firmware : Type 0 where
  pub sha256 : Option (Bytes → Bytes)
  pub sha1 : Option (Bytes → Bytes)
  pub uid : Option Bytes
  pub board_id : Option Bytes
  pub b2a_base64 : Bytes → String
  pub a2b_base64 : String → Option Bytes
  pub encode_utf8 : String → Bytes
  pub decode_utf8 : Bytes → Option String

abbrev pub concat : List Bytes → Bytes
concat [] = []
concat (p ∷ ps) = p ++ concat ps

-- The mask of 64 bits.
abbrev pub word : ℕ
word = 18_446_744_073_709_551_616

unfoldable pub absorb : ℕ → Bytes → ℕ
absorb state [] = state
absorb state (b ∷ bs) = absorb ((bit_xor state b * 1_099_511_628_211) % word) bs

unfoldable pub mix : ℕ → ℕ → ℕ
mix state index =
    let z1 = (state + (index + 1) * 0x9E37_79B9_7F4A_7C15) % word in
    let z2 = (bit_xor z1 (z1 / 1_073_741_824) * 0xBF58_476D_1CE4_E5B9) % word in
    let z3 = (bit_xor z2 (z2 / 134_217_728) * 0x94D0_49BB_1331_11EB) % word in
    bit_xor z3 (z3 / 2_147_483_648)

-- `z.to_bytes(8, "big")`, by the bytes that are left to write.
unfoldable pub big_endian : ℕ → ℕ → Bytes
big_endian zero z = []
big_endian (suc n) z = big_endian n (z / 256) ++ (z % 256) ∷ []

unfoldable pub mixed : ℕ → Bytes
mixed state =
    big_endian 8 (mix state 0)
    ++ big_endian 8 (mix state 1)
    ++ big_endian 8 (mix state 2)
    ++ big_endian 8 (mix state 3)

abbrev pub digest_with : Option (Bytes → Bytes) → Option (Bytes → Bytes) → Bytes → Bytes
digest_with (some sha256) sha1 bytes = sha256 bytes
digest_with none (some sha1) bytes = take 32 (sha1 bytes ++ sha1 (bytes ++ 1 ∷ []))
digest_with none none bytes = mixed (absorb 1_469_598_103_934_665_603 bytes)

unfoldable pub digest32 : Firmware → List Bytes → Bytes
digest32 f parts = digest_with f.sha256 f.sha1 (concat parts)

abbrev optional : Option Bytes → List Bytes
optional none = []
optional (some b) = b ∷ []

-- `b"|".join(parts)`
abbrev join_bar : List Bytes → Bytes
join_bar [] = []
join_bar (p ∷ []) = p
join_bar (p ∷ q ∷ ps) = p ++ 124 ∷ join_bar (q ∷ ps)

-- b"nodus-password-obf-v1"
abbrev key_label : Bytes
key_label =
    110 ∷ 111 ∷ 100 ∷ 117 ∷ 115 ∷ 45 ∷ 112 ∷ 97 ∷ 115 ∷ 115 ∷ 119 ∷ 111 ∷ 114 ∷ 100 ∷ 45 ∷ 111 ∷ 98
    ∷ 102 ∷ 45 ∷ 118 ∷ 49 ∷ []

-- `_build_obf_key` without the host name
unfoldable pub build_obf_key : Firmware → Bytes
build_obf_key f =
    digest32 f (join_bar (optional f.uid ++ optional f.board_id ++ key_label ∷ []) ∷ [])

-- With the host name, and none where that is empty.
unfoldable pub legacy_obf_key : Firmware → String → Option Bytes
legacy_obf_key f hostname =
    if is_blank (strip is_space hostname)
    then none
    else some (
        digest32 f (
          join_bar (
            optional f.uid
            ++ optional f.board_id
            ++ f.encode_utf8 (strip is_space hostname) ∷ key_label ∷ [])
          ∷ []))

-- The loop of `_obf_keystream`, on fuel, from a counter on: the digests until there are bytes enough.
unfoldable pub keystream_from : ℕ → Firmware → Bytes → Bytes → ℕ → ℕ → Bytes → Option Bytes
keystream_from zero f key nonce n counter out = none
keystream_from (suc fuel) f key nonce n counter out =
    let rest =
      keystream_from fuel f key nonce n (suc counter)
        (out ++ digest32 f (key ∷ nonce ∷ f.encode_utf8 (decimal counter) ∷ [])) in
    if leb n (length out) then some (take n out) else rest

-- Every digest has a byte at least, so that one round more than there are bytes is enough.
unfoldable pub obf_keystream : Firmware → Bytes → ℕ → Bytes → Option Bytes
obf_keystream f nonce n key = keystream_from (suc n) f key nonce n 0 []

-- `bytes(a[i] ^ b[i] for i in range(len(a)))`
unfoldable pub xor_bytes : Bytes → Bytes → Bytes
xor_bytes [] bs = []
xor_bytes (a ∷ as') [] = []
xor_bytes (a ∷ as') (b ∷ bs) = bit_xor a b ∷ xor_bytes as' bs

abbrev pub given_stream : Bytes → Option Bytes → Bytes
given_stream bytes none = []
given_stream bytes (some stream) = xor_bytes bytes stream

abbrev pub crypt : Firmware → Bytes → Bytes → Bytes → Bytes
crypt f nonce key bytes = given_stream bytes (obf_keystream f nonce (length bytes) key)

abbrev pub prefix : String
prefix = "obf1:"

abbrev pub sealed : Firmware → Bytes → Bytes → String
sealed f nonce cipher =
    String.◌++◌ prefix (String.◌++◌ (f.b2a_base64 nonce) (String.◌++◌ ":" (f.b2a_base64 cipher)))

-- `encode_password`, with the nonce that it is given or its eight zeros
unfoldable pub encode_password : Firmware → Bytes → String → String
encode_password f nonce cleartext =
    if is_blank cleartext
    then ""
    else if has_prefix prefix cleartext
    then cleartext
    else sealed f nonce (crypt f nonce (build_obf_key f) (f.encode_utf8 cleartext))

-- The loop over the keys.
unfoldable pub try_keys : Firmware → Bytes → Bytes → List Bytes → String
try_keys f nonce cipher [] = ""
try_keys f nonce cipher (key ∷ keys) =
    let rest = try_keys f nonce cipher keys in
    elim (f.decode_utf8 (crypt f nonce key cipher)) [ none ↦ rest | some clear ↦ clear ]

abbrev pub keys_to_try : Firmware → String → List Bytes
keys_to_try f hostname = build_obf_key f ∷ optional (legacy_obf_key f hostname)

abbrev pub decode_parts : Firmware → String → Option Bytes → Option Bytes → String
decode_parts f hostname (some nonce) (some cipher) =
    try_keys f nonce cipher (keys_to_try f hostname)
decode_parts f hostname _ _ = ""

-- What follows the prefix: the nonce up to the next colon, and the cipher.
unfoldable pub decode_body : Firmware → String → String → String
decode_body f hostname body = elim (split_at is_colon body) [
  | none ↦ ""
  | some (nonce, cipher) ↦ decode_parts f hostname (f.a2b_base64 nonce) (f.a2b_base64 cipher)
]

unfoldable pub decode_password : Firmware → String → String → String
decode_password f hostname stored =
    if is_blank stored
    then ""
    else if not (has_prefix prefix stored)
    then stored
    else elim (split_at is_colon stored) [
      | none ↦ ""
      | some (label, body) ↦ decode_body f hostname body
    ]
