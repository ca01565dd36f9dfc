-- ===== src/Filesystem/Commit.antt =====
-- `commit_file` loses no document, whatever fails and wherever the power goes.
use c_py_nodus_ii.Prelude.{
  ℕ, String, ◌≡◌, Option, none, some, List, [], ◌∷◌, Bool, true, false, arith, ◌⊎◌, inl, inr,
  eq_refl, length, ltb, All, if◌then◌else◌, Bool-cases, ◌==◌,
}
use c_py_nodus_ii.Filesystem.Disk.{
  Disk, write, moved_to, Event, Machine, Outcome, ok, raised, off, Exec, Platform, pure, ◌>>◌,
  try_except, remove, rename, maybe_sync, enoent, raise,
}
use c_py_nodus_ii.Filesystem.Always.{
  Always, Always-bind, Always-try, Always-pure, Always-raise, Always-sync, Always-weaken, Next,
}
use c_py_nodus_ii.Filesystem.Rules.{
  Always-size, Always-stat, Always-discard, Always-remove, Always-rename,
}
use c_py_nodus_ii.Filesystem.Defs.{commit_file, retire, install, rollback, bak, tmp, missing_is}
use c_py_nodus_ii.Filesystem.Paths.{IsApart, suffixes-IsApart}

-- What a reader gets that prefers the live file and falls back on the backup where the live file
-- is missing or empty.
abbrev pub stored : Option (List ℕ) → Option (List ℕ) → Option (List ℕ)
stored (some (x ∷ xs)) old = some (x ∷ xs)
stored live (some (y ∷ ys)) = some (y ∷ ys)
stored live _ = live

abbrev pub document : Disk → String → Option (List ℕ)
document d path = stored (d path) (d (bak path))

-- Any fault at all.
abbrev pub Any : Event → Type 0
Any _ = Unit {0}

pub All-Any : (plan : List Event) → All Any plan
All-Any [] = tt
All-Any (e ∷ plan) = (tt, All-Any plan)

module _ (path tmp_path backup_path : String) (apart : IsApart path tmp_path backup_path) (x : ℕ)
    (xs : List ℕ) (y : ℕ) (ys : List ℕ) where
  -- The old document is stored, and the new one waits in the temporary file.
  abbrev pub Old : Disk → Type 0
  Old d = (stored (d path) (d backup_path) ≡ some (x ∷ xs)) × (d tmp_path ≡ some (y ∷ ys))

  -- The new document is the live file.
  abbrev pub New : Disk → Type 0
  New d = d path ≡ some (y ∷ ys)

  abbrev Retired : Outcome Bool → Disk → Type 0
  Retired (ok true) d = Old d × (d path ≡ none)
  Retired (ok false) d = Old d
  Retired (raised e) d = Old d
  Retired off d = Old d

  retire_move :
      (os : Platform) (d : Disk) (z : ℕ) (zs : List ℕ)
      → Old d
      → d path ≡ some (z ∷ zs)
      → Always Any (rename os path backup_path >> pure true) d Retired
  retire_move os d z zs h e = Always-bind _ _ d _ (
      Always-rename os path backup_path d _ (h, λ _. h)
        (λ c e'. Always-pure true _ _ (ground (arith, apart, eq_refl path, eq_refl backup_path))))

  retire_content :
      (os : Platform) (d : Disk) (c : List ℕ)
      → Old d
      → d path ≡ some c
      → Always Any
          (if ltb 0 (length c)
            then (do
              try_except (remove backup_path) (missing_is tt)
              rename os path backup_path
              pure true)
            else (do remove path; pure false))
          d
          Retired
  retire_content os d [] h e = Always-bind _ _ d _ (
      Always-remove path d _ (h, λ _. h)
        (λ c e'. Always-pure false _ _ (ground (arith, apart, eq_refl path))))
  retire_content os d (z ∷ zs) h e = rw (all_content zs) (
      Always-bind _ _ d _ (
        Always-discard backup_path d _ (h, λ _. h) (retire_move os d z zs h e)
          (λ c e'.
            retire_move os (write d backup_path none) z zs (ground (arith, apart))
              (ground (arith, apart)))))
    where
      all_content : (l : List ℕ) → ltb 0 (length (z ∷ l)) ≡ true
      all_content l = ground arith

  retire-Retired :
      (os : Platform) (d : Disk) → Old d → Always Any (retire os path backup_path) d Retired
  unfolding retire
  retire-Retired os d h = Always-bind _ _ d Retired (
      Always-size path d _ (h, λ _. h) (Always-pure false d Retired h)
        (λ c e. retire_content os d c h e))

  abbrev pub Safe : Disk → Type 0
  Safe d =
      (stored (d path) (d backup_path) ≡ some (x ∷ xs))
      ⊎ (stored (d path) (d backup_path) ≡ some (y ∷ ys))

  abbrev pub Ends : Outcome (Unit {0}) → Disk → Type 0
  Ends (ok _) d = New d
  Ends (raised e) d = Safe d
  Ends off d = Safe d

  -- What the handler may rely on: where the prior file was moved, the backup holds it.
  abbrev Ready : Bool → Disk → Type 0
  Ready true d = Safe d × (d backup_path ≡ some (x ∷ xs))
  Ready false d = Safe d

  abbrev undo : Platform → Bool → ℕ → Exec (Unit {0})
  undo os moved code = rollback os path backup_path moved >> raise code

  restored :
      (d : Disk) (c : List ℕ)
      → d backup_path ≡ some (x ∷ xs)
      → d backup_path ≡ some c
      → Safe (moved_to d backup_path path c)
  restored d c h e = ground (arith, apart, eq_refl path, eq_refl backup_path)

  undo-Ends :
      (os : Platform) (moved : Bool) (code : ℕ) (d : Disk)
      → Ready moved d
      → Always Any (undo os moved code) d Ends
  unfolding rollback
  undo-Ends os false code d h =
      Always-bind (pure tt) (λ _. raise code) d Ends
        (Always-pure tt d _ (Always-raise code d Ends h))
  undo-Ends os true code d h = Always-bind _ _ d Ends (
      Always-try _ _ d _ (
        Always-bind _ _ d _ (
          Always-stat path d _ (h.0, λ e. missing e)
            (λ c e. Always-pure tt d _ (Always-raise code d Ends h.0)))))
    where
      Q : Outcome (Unit {0}) → Disk → Type 0
      Q = Next Any (λ _. raise code) Ends

      restore : Always Any (rename os backup_path path >> maybe_sync os) d Q
      restore = Always-bind _ _ d Q (
          Always-rename os backup_path path d _ (h.0, λ _. h.0)
            (λ c e.
              let s = restored d c h.1 e in
              Always-sync os _ Q s (λ _. s) (Always-raise code _ Ends s)))

      missing :
          (e : ℕ)
          → Always Any
              (if e == enoent then (rename os backup_path path >> maybe_sync os) else pure tt)
              d
              Q
      missing e = elim (Bool-cases (e == enoent)) [
        | inl t ↦ rw t restore
        | inr f ↦ rw f (Always-pure tt d Q (Always-raise code d Ends h.0))
      ]

  before-Ready : (moved : Bool) (d : Disk) → Retired (ok moved) d → Ready moved d
  before-Ready false d h = inl h.0
  before-Ready true d h = (inl h.0.0, ground arith)

  after-Ready :
      (moved : Bool) (d : Disk) (c : List ℕ)
      → Retired (ok moved) d
      → d tmp_path ≡ some c
      → Ready moved (moved_to d tmp_path path c) × New (moved_to d tmp_path path c)
  after-Ready false d c h e = ground (arith, apart, eq_refl path)
  after-Ready true d c h e = ground (arith, apart, eq_refl path)

  install-Ends :
      (os : Platform) (moved : Bool) (d : Disk)
      → Retired (ok moved) d
      → Always Any (try_except (install os path tmp_path) (undo os moved)) d Ends
  unfolding install
  install-Ends os moved d h =
      let ready = before-Ready moved d h in
      Always-try _ _ d Ends (
        Always-bind _ _ d _ (
          Always-sync os d _ (safe moved d ready) (λ e. undo-Ends os moved e d ready)
            (Always-bind _ _ d _ (
              Always-rename os tmp_path path d _
                (safe moved d ready, λ e. undo-Ends os moved e d ready)
                (λ c e.
                  let (ready', new) = after-Ready moved d c h e in
                  Always-sync os _ _ (safe moved _ ready') (λ e'. undo-Ends os moved e' _ ready')
                    new)))))
    where
      safe : (b : Bool) (d' : Disk) → Ready b d' → Safe d'
      safe true d' r = r.0
      safe false d' r = r

  pub commit-Ends :
      (os : Platform) (d : Disk)
      → Old d
      → Always Any (commit_file os path tmp_path backup_path) d Ends
  unfolding commit_file
  commit-Ends os d h = Always-bind _ _ d Ends (
      Always-sync os d _ (inl h.0) (λ _. inl h.0)
        (Always-bind _ _ d Ends (Always-weaken (retire-Retired os d h) next)))
    where
      next :
          (r : Outcome Bool) (d' : Disk)
          → Retired r d'
          → Next Any (λ moved. try_except (install os path tmp_path) (undo os moved)) Ends r d'
      next (ok true) d' k = install-Ends os true d' k
      next (ok false) d' k = install-Ends os false d' k
      next (raised e) d' k = inl k.0
      next off d' k = inl k.0

abbrev pub commit : Platform → String → Disk → List Event → Outcome (Unit {0}) × Machine
commit os path d plan = commit_file os path (tmp path) (bak path) (record { disk = d; plan = plan })

-- Whatever calls fail with whatever codes, and wherever the power goes, a reader finds the document
-- that was stored before or the whole new one, where both have content and the new one was waiting
-- in the temporary file.
pub commit_keeps_a_document :
    (os : Platform) (path : String) (d : Disk) (plan : List Event) (x : ℕ) (xs : List ℕ) (y : ℕ)
    (ys : List ℕ)
    → document d path ≡ some (x ∷ xs)
    → d (tmp path) ≡ some (y ∷ ys)
    → let d' = (commit os path d plan).1.disk in
      (document d' path ≡ some (x ∷ xs)) ⊎ (document d' path ≡ some (y ∷ ys))
commit_keeps_a_document os path d plan x xs y ys h t =
    let (r, s) = commit os path d plan in
    safe r s.disk
      ((commit-Ends path (tmp path) (bak path) (suffixes-IsApart path) x xs y ys os d (h, t)).at
        plan (All-Any plan)).0
  where
    safe :
        (r : Outcome (Unit {0})) (d' : Disk)
        → Ends path (tmp path) (bak path) (suffixes-IsApart path) x xs y ys r d'
        → Safe path (tmp path) (bak path) (suffixes-IsApart path) x xs y ys d'
    safe (ok _) d' n = ground arith
    safe (raised e) d' n = n
    safe off d' n = n
