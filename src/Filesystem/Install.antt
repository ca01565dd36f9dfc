-- ===== src/Filesystem/Install.antt =====
-- What `commit_file` has done when it returns, and what it does on a disk with no fault.
use c_py_nodus_ii.Prelude.{
  ℕ, String, ◌≡◌, refl, ◌∙◌, Option, none, some, List, [], ◌∷◌, Bool, true, false, arith, str_eq,
  eq_refl, eq_iff, if◌then◌else◌,
}
use c_py_nodus_ii.Filesystem.Disk.{
  Disk, write, moved_to, Event, Machine, Outcome, ok, raised, off, Platform, maybe_sync, ◌>>=◌,
  try_except,
}
use c_py_nodus_ii.Filesystem.Defs.{commit_file, retire, install, bak, tmp}
use c_py_nodus_ii.Filesystem.Paths.{suffixes-IsApart}
use c_py_nodus_ii.Filesystem.Commit.{document, commit, commit-Ends, Ends, All-Any}

-- Whatever failed on the way, a commit that returns has installed the new document as the live
-- file, where the stored and the new document have content.
pub commit_returns_installed :
    (os : Platform) (path : String) (d : Disk) (plan : List Event) (x : ℕ) (xs : List ℕ) (y : ℕ)
    (ys : List ℕ)
    → document d path ≡ some (x ∷ xs)
    → d (tmp path) ≡ some (y ∷ ys)
    → (commit os path d plan).0 ≡ ok tt
    → (commit os path d plan).1.disk path ≡ some (y ∷ ys)
commit_returns_installed os path d plan x xs y ys h t r =
    let (r', s) = commit os path d plan in
    new r' s.disk r
      ((commit-Ends path (tmp path) (bak path) (suffixes-IsApart path) x xs y ys os d (h, t)).at
        plan (All-Any plan)).0
  where
    new :
        (r' : Outcome (Unit {0})) (d' : Disk)
        → r' ≡ ok tt
        → Ends path (tmp path) (bak path) (suffixes-IsApart path) x xs y ys r' d'
        → d' path ≡ some (y ∷ ys)
    new (ok _) d' e n = n
    new (raised c) d' e n = cc
    new off d' e n = cc

-- The backup after a commit: the prior file if it had content, else the backup that was there.
abbrev pub retained : Option (List ℕ) → Option (List ℕ) → Option (List ℕ)
retained (some (x ∷ xs)) old = some (x ∷ xs)
retained _ old = old

-- The disk after a commit with no fault.
abbrev pub committed : Disk → String → List ℕ → Disk
committed d path new q =
    if str_eq path q
    then some new
    else if str_eq (tmp path) q
    then none
    else if str_eq (bak path) q
    then retained (d path) (d (bak path))
    else d q

abbrev at_rest : Disk → Machine
at_rest d = record { disk = d; plan = [] }

sync_runs : (os : Platform) (d : Disk) → maybe_sync os (at_rest d) ≡ (ok tt, at_rest d)
unfolding maybe_sync
sync_runs os d = ground arith

-- The disk after `retire`, by what the live file and the backup hold.
abbrev retired : Disk → String → Option (List ℕ) → Option (List ℕ) → Disk
retired d path none old = d
retired d path (some []) old = write d path none
retired d path (some (z ∷ zs)) none = moved_to d path (bak path) (z ∷ zs)
retired d path (some (z ∷ zs)) (some o) =
    moved_to (write d (bak path) none) path (bak path) (z ∷ zs)

abbrev moved_of : Option (List ℕ) → Bool
moved_of (some (z ∷ zs)) = true
moved_of _ = false

retire_runs :
    (os : Platform) (path : String) (d : Disk) (live old : Option (List ℕ))
    → d path ≡ live
    → d (bak path) ≡ old
    → retire os path (bak path) (at_rest d)
      ≡ (ok (moved_of live), at_rest (retired d path live old))
unfolding retire
retire_runs os path d none old e f = ground arith
retire_runs os path d (some []) old e f = ground arith
retire_runs os path d (some (z ∷ zs)) none e f =
    ground (arith, suffixes-IsApart path, eq_refl (bak path))
retire_runs os path d (some (z ∷ zs)) (some o) e f =
    ground (arith, suffixes-IsApart path, eq_refl (bak path))

install_runs :
    (os : Platform) (path : String) (d : Disk) (new : List ℕ)
    → d path ≡ none
    → d (tmp path) ≡ some new
    → install os path (tmp path) (at_rest d) ≡ (ok tt, at_rest (moved_to d (tmp path) path new))
unfolding install
install_runs os path d new e t = ground arith

retired_slots :
    (path : String) (d : Disk) (live old : Option (List ℕ))
    → d path ≡ live
    → let d' = retired d path live old in (d' (tmp path) ≡ d (tmp path)) × (d' path ≡ none)
retired_slots path d none old e = ground arith
retired_slots path d (some []) old e = ground (arith, suffixes-IsApart path, eq_refl path)
retired_slots path d (some (z ∷ zs)) none e = ground (arith, suffixes-IsApart path, eq_refl path)
retired_slots path d (some (z ∷ zs)) (some o) e =
    ground (arith, suffixes-IsApart path, eq_refl path)

commit_runs :
    (os : Platform) (path : String) (d : Disk) (new : List ℕ)
    → d (tmp path) ≡ some new
    → commit os path d []
      ≡ (ok tt, at_rest (moved_to (retired d path (d path) (d (bak path))) (tmp path) path new))
unfolding commit_file ◌>>=◌ try_except
commit_runs os path d new t =
    let slots = retired_slots path d (d path) (d (bak path)) refl in
    rw (
      sync_runs os d,
      retire_runs os path d (d path) (d (bak path)) refl refl,
      install_runs os path (retired d path (d path) (d (bak path))) new slots.1 (slots.0 ∙ t),
    )

committed_lem :
    (path : String) (d : Disk) (new : List ℕ) (q : String) (live old : Option (List ℕ))
    → d path ≡ live
    → d (bak path) ≡ old
    → moved_to (retired d path live old) (tmp path) path new q ≡ committed d path new q
committed_lem path d new q none old e f =
    ground (arith, suffixes-IsApart path, eq_iff path q, eq_iff (tmp path) q, eq_iff (bak path) q)
committed_lem path d new q (some []) old e f =
    ground (arith, suffixes-IsApart path, eq_iff path q, eq_iff (tmp path) q, eq_iff (bak path) q)
committed_lem path d new q (some (z ∷ zs)) none e f =
    ground (arith, suffixes-IsApart path, eq_iff path q, eq_iff (tmp path) q, eq_iff (bak path) q)
committed_lem path d new q (some (z ∷ zs)) (some o) e f =
    ground (arith, suffixes-IsApart path, eq_iff path q, eq_iff (tmp path) q, eq_iff (bak path) q)

-- With no fault, on every platform, a commit of a temporary file returns; its contents are the live
-- file, the temporary is gone, the backup is the prior file if that had content and is otherwise
-- as it was, and every other file is as it was.
pub commit_without_fault :
    (os : Platform) (path : String) (d : Disk) (new : List ℕ) (q : String)
    → d (tmp path) ≡ some new
    → let (r, s) = commit os path d [] in (r ≡ ok tt) × (s.disk q ≡ committed d path new q)
commit_without_fault os path d new q t =
    rw (commit_runs os path d new t)
      (refl, committed_lem path d new q (d path) (d (bak path)) refl refl)
