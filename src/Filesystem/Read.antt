-- ===== src/Filesystem/Read.antt =====
-- `readable_path` names the stored document.
use c_py_nodus_ii.Prelude.{ℕ, String, ◌≡◌, refl, Option, none, some, List, [], ◌∷◌, arith}
use c_py_nodus_ii.Filesystem.Disk.{Disk, Machine, Outcome, ok, raised, off}
use c_py_nodus_ii.Filesystem.Defs.{readable_path, bak}
use c_py_nodus_ii.Filesystem.Commit.{document}

-- What `open(readable_path(path))` reads.
abbrev pub read : Outcome String × Machine → Option (List ℕ)
read (ok p, s) = s.disk p
read (raised e, s) = none
read (off, s) = none

read-document :
    (path : String) (d : Disk) (live old : Option (List ℕ))
    → d path ≡ live
    → d (bak path) ≡ old
    → read (readable_path path (record { disk = d; plan = [] })) ≡ document d path
unfolding readable_path
read-document path d none none e f = ground arith
read-document path d none (some []) e f = ground arith
read-document path d none (some (y ∷ ys)) e f = ground arith
read-document path d (some []) none e f = ground arith
read-document path d (some []) (some []) e f = ground arith
read-document path d (some []) (some (y ∷ ys)) e f = ground arith
read-document path d (some (x ∷ xs)) old e f = ground arith

-- On a disk with no fault, the path that `readable_path` returns holds the live file if that has
-- content, else the backup if that has content, else whatever the live file is.
pub readable_path-document :
    (path : String) (d : Disk)
    → read (readable_path path (record { disk = d; plan = [] })) ≡ document d path
readable_path-document path d = read-document path d (d path) (d (bak path)) refl refl
