-- ===== src/Filesystem/Tests.antt =====
-- Runs of core/filesystem.py on a small disk.
use c_py_nodus_ii.Prelude.{
  ◌≡◌, refl, false, none, some, List, [], ◌∷◌, true, ◌⊎◌, str_eq, if◌then◌else◌, arith,
}
use c_py_nodus_ii.Filesystem.Disk.{Disk, Event, run, fail, cut, ok, Platform, ◌>>=◌, try_except}
use c_py_nodus_ii.Filesystem.Defs.{commit_file, retire, install, rollback, clear_file}
use c_py_nodus_ii.Filesystem.Commit.{document, commit, commit_keeps_a_document}
use c_py_nodus_ii.Filesystem.Install.{commit_returns_installed, commit_without_fault, committed}
use c_py_nodus_ii.Filesystem.Clear.{Cleared, clear_reveals_nothing_stale}

abbrev fat : Platform
fat = record { has_sync = true; rename_replaces = false }

-- `s.toml` holds 1, and 2 waits in its temporary file.
abbrev small : Disk
small p =
    if str_eq "s.toml" p
    then some (1 ∷ [])
    else if str_eq "s.toml.tmp" p
    then some (2 ∷ [])
    else none

-- The power goes just after the live file was moved away.
abbrev between : List Event
between = run ∷ run ∷ run ∷ run ∷ cut ∷ []

commit_keeps_a_document_example :
    let d' = (commit fat "s.toml" small between).1.disk in
    (document d' "s.toml" ≡ some (1 ∷ [])) ⊎ (document d' "s.toml" ≡ some (2 ∷ []))
commit_keeps_a_document_example =
    commit_keeps_a_document fat "s.toml" small between 1 [] 2 [] refl refl

commit_returns_installed_example : (commit fat "s.toml" small []).1.disk "s.toml" ≡ some (2 ∷ [])
unfolding commit_file retire install rollback ◌>>=◌ try_except
commit_returns_installed_example =
    commit_returns_installed fat "s.toml" small [] 1 [] 2 [] refl refl refl

commit_without_fault_example :
    let (r, s) = commit fat "s.toml" small [] in
    (r ≡ ok tt) × (s.disk "s.toml.bak" ≡ committed small "s.toml" (2 ∷ []) "s.toml.bak")
commit_without_fault_example = commit_without_fault fat "s.toml" small (2 ∷ []) "s.toml.bak" refl

clear_reveals_nothing_stale_example :
    let (r, s) = clear_file fat "s.toml" (record { disk = small; plan = run ∷ fail 5 ∷ [] }) in
    Cleared "s.toml" small r s.disk
clear_reveals_nothing_stale_example =
    clear_reveals_nothing_stale fat "s.toml" small (run ∷ fail 5 ∷ [])
      (tt, ((λ e. omega arith), tt))
