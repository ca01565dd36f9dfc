-- ===== src/Logs.antt =====
-- core/reboot_log.py and core/recovery_log.py: logs that are kept under a size. A log is its bytes,
-- and the file itself is replaced by Filesystem's `commit_file`.
pub mod Trim
mod Tests
use c_py_nodus_ii.Prelude.{
  ℕ, suc, ◌-◌, ◌/◌, Bool, true, false, ◌&&◌, Option, none, some, List, [], ◌∷◌, ◌++◌, length, drop,
  ltb, leb, ◌==◌, if◌then◌else◌,
}

unfoldable pub is_prefix : List ℕ → List ℕ → Bool
is_prefix [] bytes = true
is_prefix (m ∷ marker) [] = false
is_prefix (m ∷ marker) (b ∷ bytes) = m == b && is_prefix marker bytes

-- b"=== ", which begins an entry
abbrev pub marker : List ℕ
marker = 61 ∷ 61 ∷ 61 ∷ 32 ∷ []

abbrev pub later : Option ℕ → Option ℕ
later none = none
later (some n) = some (suc n)

-- `trimmed.find(b"=== ")`
unfoldable pub find_marker : List ℕ → Option ℕ
find_marker [] = none
find_marker (b ∷ bytes) =
    let rest = later (find_marker bytes) in if is_prefix marker (b ∷ bytes) then some 0 else rest

-- The loop that drops the bytes 10xxxxxx.
unfoldable pub skip_continuation : List ℕ → List ℕ
skip_continuation [] = []
skip_continuation (b ∷ bytes) =
    let rest = skip_continuation bytes in if b / 64 == 2 then rest else b ∷ bytes

-- The tail from its first entry on, where that does not begin it.
unfoldable pub cut_tail : List ℕ → List ℕ
cut_tail trimmed = elim (find_marker trimmed) [
  | none ↦ skip_continuation trimmed
  | some n ↦ if ltb 0 n then drop n trimmed else skip_continuation trimmed
]

-- `_trim_reboot_log`, by the bytes that the file has afterwards
unfoldable pub trim_reboot_log : ℕ → List ℕ → List ℕ
trim_reboot_log max_bytes content =
    if leb (length content) max_bytes
    then content
    else cut_tail (drop (length content - max_bytes) content)

-- Appending an entry and trimming.
unfoldable pub append_entry : ℕ → List ℕ → List ℕ → List ℕ
append_entry max_bytes content entry = trim_reboot_log max_bytes (content ++ entry)
