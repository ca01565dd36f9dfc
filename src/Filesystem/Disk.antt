-- ===== src/Filesystem/Disk.antt =====
-- What core/filesystem.py uses of `os`, on an explicit disk.
use c_py_nodus_ii.Prelude.{
  ℕ, String, Option, none, some, List, [], ◌∷◌, Bool, true, false, str_eq, if◌then◌else◌, length,
}

-- The contents of each path; `none` where there is no file.
abbrev pub Disk : Type 0
Disk = String → Option (List ℕ)

abbrev pub write : Disk → String → Option (List ℕ) → Disk
write d p v q = if str_eq p q then v else d q

-- What happens at one `os` call: it runs, it raises `OSError` with this code and no effect, or the
-- power is lost before it takes effect.
pub data Event : Type 0 where
  run : Event
  fail : ℕ → Event
  cut : Event

pub record Machine : Type 0 where
  pub disk : Disk
  pub plan : List Event

-- `off` is a run that the power cut ended.
pub data Outcome {ℓ} (A : Type ℓ) : Type ℓ where
  ok : A → Outcome A
  raised : ℕ → Outcome A
  off : Outcome A

abbrev pub Exec : Type 0 → Type 0
Exec A = Machine → Outcome A × Machine

abbrev pub pure : {A : Type 0} → A → Exec A
pure a m = (ok a, m)

abbrev pub raise : {A : Type 0} → ℕ → Exec A
raise e m = (raised e, m)

abbrev continue : {A B : Type 0} → Outcome A → (A → Exec B) → Exec B
continue (ok a) f m = f a m
continue (raised e) f m = (raised e, m)
continue off f m = (off, m)

infixl 5 ◌>>=◌ ◌>>◌
unfoldable pub ◌>>=◌ : {A B : Type 0} → Exec A → (A → Exec B) → Exec B
◌>>=◌ m f s = let (r, s') = m s in continue r f s'

abbrev pub ◌>>◌ : {A B : Type 0} → Exec A → Exec B → Exec B
m >> n = m >>= λ _. n

abbrev handle : {A : Type 0} → Outcome A → (ℕ → Exec A) → Exec A
handle (ok a) h m = (ok a, m)
handle (raised e) h m = h e m
handle off h m = (off, m)

-- `try: m  except OSError as exc: h(exc.args[0])`
unfoldable pub try_except : {A : Type 0} → Exec A → (ℕ → Exec A) → Exec A
try_except m h s = let (r, s') = m s in handle r h s'

abbrev effect : {A : Type 0} → Outcome A × Disk → List Event → Outcome A × Machine
effect (r, d) plan = (r, record { disk = d; plan = plan })

-- Each call takes the next event of the plan; after the plan every call runs.
unfoldable pub os_call : {A : Type 0} → (Disk → Outcome A × Disk) → Exec A
os_call f m = elim m.plan [
  | [] ↦ effect (f m.disk) []
  | e ∷ rest ↦ elim e [
    | run ↦ effect (f m.disk) rest
    | fail code ↦ (raised code, record { disk = m.disk; plan = rest })
    | cut ↦ (off, record { disk = m.disk; plan = rest })
  ]
]

-- errno.ENOENT and errno.EEXIST
abbrev pub enoent : ℕ
enoent = 2

abbrev pub eexist : ℕ
eexist = 17

-- Whether `os` has `sync`, and whether `os.rename` replaces an existing file (FAT refuses to).
pub record Platform : Type 0 where
  pub has_sync : Bool
  pub rename_replaces : Bool

-- os.stat(path)[6]
abbrev pub stat_size_at : String → Disk → Outcome ℕ × Disk
stat_size_at p d = (elim (d p) [ none ↦ raised enoent | some c ↦ ok (length c) ], d)

abbrev pub removed : Option (List ℕ) → String → Disk → Outcome (Unit {0}) × Disk
removed none p d = (raised enoent, d)
removed (some c) p d = (ok tt, write d p none)

abbrev pub remove_at : String → Disk → Outcome (Unit {0}) × Disk
remove_at p d = removed (d p) p d

abbrev pub moved_to : Disk → String → String → List ℕ → Disk
moved_to d a b c = write (write d a none) b (some c)

abbrev pub renamed :
    Bool → Option (List ℕ) → Option (List ℕ) → String → String → Disk → Outcome (Unit {0}) × Disk
renamed replaces none target a b d = (raised enoent, d)
renamed replaces (some c) none a b d = (ok tt, moved_to d a b c)
renamed true (some c) (some old) a b d = (ok tt, moved_to d a b c)
renamed false (some c) (some old) a b d = (raised eexist, d)

abbrev pub rename_at : Bool → String → String → Disk → Outcome (Unit {0}) × Disk
rename_at replaces a b d = renamed replaces (d a) (d b) a b d

unfoldable pub stat_size : String → Exec ℕ
unfolding os_call
stat_size p = os_call (stat_size_at p)

unfoldable pub remove : String → Exec (Unit {0})
unfolding os_call
remove p = os_call (remove_at p)

unfoldable pub rename : Platform → String → String → Exec (Unit {0})
unfolding os_call
rename os a b = os_call (rename_at os.rename_replaces a b)

-- `if sync is not None: sync()`. It may raise, and the power may go in it, but the disk of the model
-- has every call that has returned, and `sync` changes nothing of it.
unfoldable pub maybe_sync : Platform → Exec (Unit {0})
unfolding os_call
maybe_sync os = if os.has_sync then os_call (λ d. (ok tt, d)) else pure tt
