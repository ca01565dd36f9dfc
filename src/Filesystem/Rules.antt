-- ===== src/Filesystem/Rules.antt =====
-- One rule for each `os` call and for the handlers of core/filesystem.py, over `Always`.
use c_py_nodus_ii.Prelude.{
  ℕ, String, ◌≡◌, refl, Option, none, some, List, Bool, true, false, inl, inr, Option-cases,
  Bool-cases, ◌==◌, length, arith,
}
use c_py_nodus_ii.Filesystem.Disk.{
  Disk, write, Event, fail, Outcome, ok, raised, off, Platform, pure, ◌>>=◌, try_except, stat_size,
  remove, rename, stat_size_at, removed, remove_at, renamed, rename_at, moved_to, enoent, eexist,
}
use c_py_nodus_ii.Filesystem.Always.{
  Always, Always-bind, Always-try, Always-call, Always-pure, Always-raise,
}
use c_py_nodus_ii.Filesystem.Defs.{missing_is}

-- The ends that every call may have: the power goes, or the call raises, and the disk is as it was.
abbrev pub MayFail : {A : Type 0} → Disk → (Outcome A → Disk → Type 0) → Type 0
MayFail d Q = Q off d × ((e : ℕ) → Q (raised e) d)

pub Always-missing :
    {G : Event → Type 0} {A : Type 0} (a : A) (code : ℕ) (d : Disk) (Q : Outcome A → Disk → Type 0)
    → Q (raised code) d
    → (code ≡ enoent → Q (ok a) d)
    → Always G (missing_is a code) d Q
Always-missing a code d Q f h = elim (Bool-cases (code == enoent)) [
  | inl e ↦ rw e (Always-pure a d Q (h (ground arith)))
  | inr e ↦ rw e (Always-raise code d Q f)
]

pub Always-stat :
    {G : Event → Type 0} (p : String) (d : Disk) (Q : Outcome ℕ → Disk → Type 0)
    → MayFail d Q
    → ((c : List ℕ) → d p ≡ some c → Q (ok (length c)) d)
    → Always G (stat_size p) d Q
unfolding stat_size
Always-stat p d Q f h =
    Always-call (stat_size_at p) d Q f.0 (λ e _. f.1 e)
      (elim (Option-cases (d p)) [ inl e ↦ rw e (f.1 enoent) | inr (c, e) ↦ rw e (h c e) ])

pub Always-remove :
    {G : Event → Type 0} (p : String) (d : Disk) (Q : Outcome (Unit {0}) → Disk → Type 0)
    → MayFail d Q
    → ((c : List ℕ) → d p ≡ some c → Q (ok tt) (write d p none))
    → Always G (remove p) d Q
unfolding remove
Always-remove p d Q f h = Always-call (remove_at p) d Q f.0 (λ e _. f.1 e) (go (d p) refl)
  where
    go : (o : Option (List ℕ)) → d p ≡ o → Q (removed o p d).0 (removed o p d).1
    go none e = f.1 enoent
    go (some c) e = h c e

pub Always-rename :
    {G : Event → Type 0} (os : Platform) (a b : String) (d : Disk)
    (Q : Outcome (Unit {0}) → Disk → Type 0)
    → MayFail d Q
    → ((c : List ℕ) → d a ≡ some c → Q (ok tt) (moved_to d a b c))
    → Always G (rename os a b) d Q
unfolding rename
Always-rename os a b d Q f h =
    Always-call (rename_at os.rename_replaces a b) d Q f.0 (λ e _. f.1 e)
      (go os.rename_replaces (d a) (d b) refl)
  where
    go :
        (replaces : Bool) (o t : Option (List ℕ))
        → d a ≡ o
        → Q (renamed replaces o t a b d).0 (renamed replaces o t a b d).1
    go replaces none t e = f.1 enoent
    go replaces (some c) none e = h c e
    go true (some c) (some old) e = h c e
    go false (some c) (some old) e = f.1 eexist

-- The size of a file, where a missing one (or a fault that looks so) gives `none`.
pub Always-size :
    {G : Event → Type 0} (p : String) (d : Disk) (Q : Outcome (Option ℕ) → Disk → Type 0)
    → MayFail d Q
    → Q (ok none) d
    → ((c : List ℕ) → d p ≡ some c → Q (ok (some (length c))) d)
    → Always G (try_except (do n ← stat_size p; pure (some n)) (missing_is none)) d Q
Always-size p d Q f n h = Always-try _ _ d Q (
    Always-bind _ _ d _ (
      Always-stat p d _ (f.0, λ e. Always-missing none e d Q (f.1 e) (λ _. n))
        λ c e. Always-pure (some (length c)) d _ (h c e)))

-- A removal that lets a missing file pass.
pub Always-discard :
    {G : Event → Type 0} (p : String) (d : Disk) (Q : Outcome (Unit {0}) → Disk → Type 0)
    → MayFail d Q
    → Q (ok tt) d
    → ((c : List ℕ) → d p ≡ some c → Q (ok tt) (write d p none))
    → Always G (try_except (remove p) (missing_is tt)) d Q
Always-discard p d Q f n h =
    Always-try _ _ d Q (Always-remove p d _ (f.0, λ e. Always-missing tt e d Q (f.1 e) (λ _. n)) h)

-- The same removal where `ENOENT` is raised for a missing file alone.
pub Always-remove_exact :
    {G : Event → Type 0} (p : String) (d : Disk) (Q : Outcome (Unit {0}) → Disk → Type 0)
    → Q off d
    → ((e : ℕ) → G (fail e) → Q (raised e) d)
    → (d p ≡ none → Q (raised enoent) d)
    → ((c : List ℕ) → d p ≡ some c → Q (ok tt) (write d p none))
    → Always G (remove p) d Q
unfolding remove
Always-remove_exact p d Q o f n h = Always-call (remove_at p) d Q o f (go (d p) refl)
  where
    go : (o : Option (List ℕ)) → d p ≡ o → Q (removed o p d).0 (removed o p d).1
    go none e = n e
    go (some c) e = h c e
