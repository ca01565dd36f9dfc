-- ===== src/Filesystem/Defs.antt =====
-- `commit_file`, `readable_path` and `clear_file`.
use Prim.Native.String
use c_py_nodus_ii.Prelude.{ℕ, String, none, some, Bool, true, false, ltb, ◌==◌, if◌then◌else◌, ◌||◌}
use c_py_nodus_ii.Filesystem.Disk.{
  Exec, Platform, pure, raise, ◌>>=◌, ◌>>◌, try_except, stat_size, remove, rename, maybe_sync,
  enoent,
}

-- An `except` clause that lets `ENOENT` pass with the value `a` and raises any other code again.
abbrev pub missing_is : {A : Type 0} → A → ℕ → Exec A
missing_is a code = if code == enoent then pure a else raise code

-- The first half of the `try` body: the prior file is retained or an empty one dropped. The value
-- is `moved`; up to here `moved` is False, so an exception is raised again as it is.
unfoldable pub retire : Platform → String → String → Exec Bool
unfolding stat_size remove rename ◌>>=◌ try_except
retire os path backup_path = do
  size ← try_except (do n ← stat_size path; pure (some n)) (missing_is none)
  elim size [
    | none ↦ pure false
    | some n ↦
        if ltb 0 n
        then (do
          try_except (remove backup_path) (missing_is tt)
          rename os path backup_path
          pure true)
        else (do remove path; pure false)
  ]

-- The second half: `moved` is known.
unfoldable pub install : Platform → String → String → Exec (Unit {0})
unfolding rename maybe_sync ◌>>=◌
install os path tmp_path = do maybe_sync os; rename os tmp_path path; maybe_sync os

-- The body of `except Exception`, up to its `raise`.
unfoldable pub rollback : Platform → String → String → Bool → Exec (Unit {0})
unfolding stat_size rename maybe_sync ◌>>=◌ try_except
rollback os path backup_path false = pure tt
rollback os path backup_path true =
    try_except (do stat_size path; pure tt)
      (λ code. if code == enoent then (do rename os backup_path path; maybe_sync os) else pure tt)

unfoldable pub commit_file : Platform → String → String → String → Exec (Unit {0})
commit_file os path tmp_path backup_path = do
  maybe_sync os
  moved ← retire os path backup_path
  try_except (install os path tmp_path) (λ code. do rollback os path backup_path moved; raise code)

abbrev pub bak : String → String
bak path = String.◌++◌ path ".bak"

abbrev pub tmp : String → String
tmp path = String.◌++◌ path ".tmp"

-- `os.stat(path)[6] > 0`, with a missing file as False.
unfoldable pub has_content : String → Exec Bool
unfolding stat_size ◌>>=◌ try_except
has_content path = try_except (do n ← stat_size path; pure (ltb 0 n)) (missing_is false)

unfoldable pub readable_path : String → Exec String
unfolding has_content ◌>>=◌
readable_path path = do
  live ← has_content path
  if live
      then pure path
      else do retained ← has_content (bak path); pure (if retained then bak path else path)

-- The `try` statement in the loop of `clear_file`; the value says whether the file was there.
unfoldable pub drop_one : String → Exec Bool
unfolding remove ◌>>=◌ try_except
drop_one p = try_except (do remove p; pure true) (missing_is false)

-- One round of the loop.
unfoldable pub clear_one : Platform → String → Exec Bool
clear_one os p = do removed ← drop_one p; maybe_sync os; pure removed

-- `clear_file`; the suffixes in the order of the loop.
unfoldable pub clear_file : Platform → String → Exec Bool
clear_file os path = do
  a ← clear_one os (bak path)
  b ← clear_one os (tmp path)
  c ← clear_one os path
  pure (a || b || c)
