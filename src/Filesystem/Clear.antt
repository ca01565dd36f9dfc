-- ===== src/Filesystem/Clear.antt =====
-- `clear_file` reveals no stale document.
use c_py_nodus_ii.Prelude.{
  ℕ, String, ◌≡◌, ◌≢◌, refl, Option, none, some, List, [], ◌∷◌, Bool, true, false, ◌||◌, arith, ◌⊎◌,
  inl, inr, eq_refl, All,
}
use c_py_nodus_ii.Filesystem.Disk.{
  Disk, write, Event, fail, Outcome, Exec, ok, raised, off, Platform, pure, ◌>>=◌, enoent,
}
use c_py_nodus_ii.Filesystem.Always.{Always, Always-bind, Always-try, Always-pure, Always-sync}
use c_py_nodus_ii.Filesystem.Rules.{Always-missing, Always-remove_exact}
use c_py_nodus_ii.Filesystem.Defs.{drop_one, clear_one, clear_file, bak, tmp}
use c_py_nodus_ii.Filesystem.Paths.{suffixes-IsApart}
use c_py_nodus_ii.Filesystem.Commit.{document}

-- A fault that does not pass for a missing file.
abbrev pub IsGenuine : Event → Type 0
IsGenuine (fail code) = code ≢ enoent
IsGenuine _ = Unit {0}

module _ (p : String) (d : Disk) (Q : Outcome Bool → Disk → Type 0) where
  Always-drop_one :
      Q off d
      → ((e : ℕ) → Q (raised e) d)
      → (d p ≡ none → Q (ok false) d)
      → Q (ok true) (write d p none)
      → Always IsGenuine (drop_one p) d Q
  unfolding drop_one
  Always-drop_one o f n h = Always-try _ _ d Q (
      Always-bind _ _ d _ (
        Always-remove_exact p d _ o
          (λ e genuine. Always-missing false e d Q (f e) (λ same. absurd (genuine same)))
          (λ gone. Always-missing false enoent d Q (f enoent) (λ _. n gone))
          (λ c e. Always-pure true (write d p none) _ h)))

module _ (os : Platform) (p : String) (d : Disk) (Q : Outcome Bool → Disk → Type 0) where
  -- One round: the file is still there, or it is gone.
  Always-clear_one :
      Q off d × Q off (write d p none)
      → ((e : ℕ) → Q (raised e) d × Q (raised e) (write d p none))
      → (d p ≡ none → Q (ok false) d)
      → Q (ok true) (write d p none)
      → Always IsGenuine (clear_one os p) d Q
  unfolding clear_one
  Always-clear_one o f n h = Always-bind _ _ d Q (
      Always-drop_one p d _ o.0 (λ e. (f e).0)
        (λ gone.
          Always-bind _ _ d Q
            (Always-sync os d _ o.0 (λ e. (f e).0) (Always-pure false d Q (n gone))))
        (Always-bind _ _ _ Q (Always-sync os _ _ o.1 (λ e. (f e).1) (Always-pure true _ Q h))))

-- No document, or one with no content.
abbrev pub IsBlank : Option (List ℕ) → Type 0
IsBlank (some (x ∷ xs)) = ⊥
IsBlank _ = Unit {0}

module _ (path : String) (d : Disk) where
  abbrev pub Cleared : Outcome Bool → Disk → Type 0
  Cleared (ok _) d' = (d' path ≡ none) × (d' (bak path) ≡ none) × (d' (tmp path) ≡ none)
  Cleared _ d' = (document d' path ≡ document d path) ⊎ IsBlank (document d' path)

  -- The live file is as before and the backup is gone.
  abbrev Bare : Disk → Type 0
  Bare d' = (d' path ≡ d path) × (d' (bak path) ≡ none)

  Bare-shows :
      (d' : Disk) (live : Option (List ℕ))
      → d path ≡ live
      → Bare d'
      → (document d' path ≡ document d path) ⊎ IsBlank (document d' path)
  Bare-shows d' none e h = ground arith
  Bare-shows d' (some []) e h = ground arith
  Bare-shows d' (some (z ∷ zs)) e h = ground arith

  shows : (d' : Disk) → Bare d' → (document d' path ≡ document d path) ⊎ IsBlank (document d' path)
  shows d' h = Bare-shows d' (d path) refl h

  abbrev last_round : Platform → Bool → Bool → Exec Bool
  last_round os a b = do c ← clear_one os path; pure (a || b || c)

  last-Cleared :
      (os : Platform) (a b : Bool) (d' : Disk)
      → Bare d'
      → d' (tmp path) ≡ none
      → Always IsGenuine (last_round os a b) d' Cleared
  last-Cleared os a b d' h t =
      let gone : IsBlank (document (write d' path none) path) =
        ground (arith, suffixes-IsApart path, eq_refl path) in
      Always-bind _ _ d' _ (
        Always-clear_one os path d' _ (shows d' h, inr gone) (λ e. (shows d' h, inr gone))
          (λ missing. Always-pure (a || b || false) d' _ (missing, h.1, t))
          (Always-pure (a || b || true) _ _ (ground (arith, suffixes-IsApart path, eq_refl path))))

  abbrev later_rounds : Platform → Bool → Exec Bool
  later_rounds os a = do b ← clear_one os (tmp path); last_round os a b

  later-Cleared :
      (os : Platform) (a : Bool) (d' : Disk)
      → Bare d'
      → Always IsGenuine (later_rounds os a) d' Cleared
  later-Cleared os a d' h =
      let bare : Bare (write d' (tmp path) none) = ground (arith, suffixes-IsApart path) in
      let s = shows d' h in
      let s' = shows (write d' (tmp path) none) bare in
      Always-bind _ _ d' _ (
        Always-clear_one os (tmp path) d' _ (s, s') (λ e. (s, s'))
          (λ missing. last-Cleared os a false d' h missing)
          (last-Cleared os a true (write d' (tmp path) none) bare
            (ground (arith, eq_refl (tmp path)))))

  clear-Cleared : (os : Platform) → Always IsGenuine (clear_file os path) d Cleared
  unfolding clear_file
  clear-Cleared os =
      let bare : Bare (write d (bak path) none) =
        ground (arith, suffixes-IsApart path, eq_refl (bak path)) in
      let s = shows (write d (bak path) none) bare in
      Always-bind _ _ d _ (
        Always-clear_one os (bak path) d _ (inl refl, s) (λ e. (inl refl, s))
          (λ missing. later-Cleared os false d (refl, missing)) (later-Cleared os true _ bare))

-- However far `clear_file` gets, by any faults that do not pass for a missing file and wherever the
-- power goes, a reader finds the document that was stored or none with content; and once it returns
-- all three files are gone.
pub clear_reveals_nothing_stale :
    (os : Platform) (path : String) (d : Disk) (plan : List Event)
    → All IsGenuine plan
    → let (r, s) = clear_file os path (record { disk = d; plan = plan }) in Cleared path d r s.disk
clear_reveals_nothing_stale os path d plan g = ((clear-Cleared path d os).at plan g).0
