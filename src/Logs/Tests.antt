-- ===== src/Logs/Tests.antt =====
-- A log of two entries, and a third one for which the first has to go.
use c_py_nodus_ii.Prelude.{ℕ, ◌≤◌, ◌≡◌, refl, List, [], ◌∷◌, ◌++◌, length, arith}
use c_py_nodus_ii.Logs.{
  is_prefix, find_marker, skip_continuation, cut_tail, trim_reboot_log, append_entry,
}
use c_py_nodus_ii.Logs.Trim.{append_entry-kept}

abbrev entry : ℕ → List ℕ
entry b = 61 ∷ 61 ∷ 61 ∷ 32 ∷ b ∷ 10 ∷ []

append_entry-kept_example :
    (dropped : List ℕ) × (kept : List ℕ) × (entry 65 ++ entry 66 ≡ dropped ++ kept)
    × (append_entry 14 (entry 65 ++ entry 66) (entry 67) ≡ kept ++ entry 67)
    × (length (kept ++ entry 67) ≤ 14)
unfolding is_prefix
append_entry-kept_example =
    append_entry-kept 14 (entry 65 ++ entry 66) (entry 67) refl (omega arith)

first_entry_dropped : append_entry 14 (entry 65 ++ entry 66) (entry 67) ≡ entry 66 ++ entry 67
unfolding append_entry trim_reboot_log cut_tail find_marker is_prefix skip_continuation
first_entry_dropped = refl
