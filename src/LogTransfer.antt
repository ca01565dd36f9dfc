-- ===== src/LogTransfer.antt =====
-- cpynodus_ii/features/log_transfer.py: a log file sent over MQTT in chunks. Time, the files and
-- `b2a_base64` are the firmware's.
pub mod Session
pub mod Checksum
pub mod Messages
pub mod Delivery
pub mod Requests
mod Tests
use Prim.Native.String
use Prim.Native.String.{slice}
use Prim.Native.Nat.{bit_xor}
use c_py_nodus_ii.Prelude.{
  ℕ, ◌⊎◌, inl, inr, ◌+◌, ◌*◌, ◌%◌, ◌/◌, ◌^◌, zero, suc, String, Bool, true, false, not, ◌&&◌, ◌||◌,
  Option, none, some, List, [], ◌∷◌, ◌++◌, length, min, str_eq, if◌then◌else◌,
}
use c_py_nodus_ii.Prelude.Int.{ℤ, pos, negsuc, leb_ℤ}
use c_py_nodus_ii.Prelude.Text.{
  strip, strip_right, after_last, is_space, is_slash, is_backslash, is_blank,
}

abbrev pub default_log_chunk_size : ℕ
default_log_chunk_size = 512

abbrev pub max_log_chunk_size : ℕ
max_log_chunk_size = 1024

-- The two of `ALLOWED_LOG_FILES`, the first being the one that is sent where none is named.
abbrev pub reboot_log : String
reboot_log = "_reboot.log"

abbrev pub recovery_log : String
recovery_log = "_recovery.log"

abbrev pub is_allowed : String → Bool
is_allowed name = str_eq name reboot_log || str_eq name recovery_log

pub record LogTransferCommand : Type 0 where
  pub message_id : String
  pub filename : String
  pub chunk_size : ℕ

pub record LogTransferSession : Type 0 where
  pub message_id : String
  pub filename : String
  pub path : String
  pub size : ℕ
  pub chunk_size : ℕ
  pub offset : ℕ
  pub sequence : ℕ
  pub file_checksum : ℕ

-- `_normalize_chunk_size`
unfoldable pub normalize_chunk_size : ℤ → ℕ
normalize_chunk_size (pos zero) = default_log_chunk_size
normalize_chunk_size (pos (suc n)) = min max_log_chunk_size (suc n)
normalize_chunk_size (negsuc n) = default_log_chunk_size

-- The loop of `_checksum32`: FNV-1a of 32 bits.
unfoldable pub checksum_loop : ℕ → List ℕ → ℕ
checksum_loop checksum [] = checksum
checksum_loop checksum (v ∷ vs) =
    checksum_loop ((bit_xor checksum v * 16_777_619) % 4_294_967_296) vs

unfoldable pub checksum32 : List ℕ → ℕ → ℕ
checksum32 bytes seed = checksum_loop (seed % 4_294_967_296) bytes

abbrev pub fnv_seed : ℕ
fnv_seed = 2_166_136_261

abbrev hex_digit : ℕ → String
hex_digit d = slice "0123456789abcdef" d (suc d)

-- The last `k` digits of a number in base 16.
unfoldable pub hex_digits : ℕ → ℕ → String
hex_digits zero n = ""
hex_digits (suc k) n = String.◌++◌ (hex_digits k (n / 16)) (hex_digit (n % 16))

-- `_checksum_hex`
unfoldable pub checksum_hex : ℕ → String
checksum_hex value = hex_digits 8 (value % 4_294_967_296)

-- What `_safe_filename` compares with the names that are allowed.
abbrev pub requested_log : String → String
requested_log filename =
    let asked = strip is_space filename in
    after_last is_backslash (after_last is_slash (if is_blank asked then reboot_log else asked))

-- `_safe_filename`
unfoldable pub safe_filename : String → String
safe_filename filename = if is_allowed (requested_log filename) then requested_log filename else ""

-- What the JSON of a request carries: texts without the spaces around them, and 0 for a chunk size
-- that is no number.
pub record Request : Type 0 where
  pub message_id : String
  pub filename : String
  pub chunk_size : ℤ

-- `parse_log_transfer_command`, from the decoded JSON: `none` where it is no object.
unfoldable pub parse_log_transfer_command : Option Request → Option LogTransferCommand
parse_log_transfer_command none = none
parse_log_transfer_command (some r) =
    if is_blank r.message_id
    then none
    else some (record {
      message_id = r.message_id;
      filename = r.filename;
      chunk_size = normalize_chunk_size r.chunk_size;
    })

-- A file system at one moment: the bytes of each file.
abbrev pub Files : Type 0
Files = String → Option (List ℕ)

abbrev pub log_path : String → String → String
log_path settings_root filename =
    String.◌++◌ (strip_right is_slash settings_root) (String.◌++◌ "/" filename)

-- The end of `_build_session`: `os.stat` gives the size of a file that is there.
unfoldable pub session_for :
    LogTransferCommand → String → String → Option (List ℕ) → LogTransferSession ⊎ String
session_for c filename path none = inr "log_file_missing"
session_for c filename path (some bytes) = inl (record {
  message_id = c.message_id;
  filename = filename;
  path = path;
  size = length bytes;
  chunk_size = c.chunk_size;
  offset = 0;
  sequence = 0;
  file_checksum = fnv_seed;
})

-- `_build_session`: the session or the error.
unfoldable pub build_session : LogTransferCommand → String → Files → LogTransferSession ⊎ String
build_session c settings_root files =
    let filename = safe_filename c.filename in
    if is_blank filename
    then inr "log_file_invalid"
    else session_for c filename (log_path settings_root filename)
        (files (log_path settings_root filename))
