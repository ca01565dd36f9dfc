-- ===== src/Filesystem/Always.antt =====
-- What holds at the end of a run whatever the plan of faults, one rule for each way to build code.
use c_py_nodus_ii.Prelude.{ℕ, List, [], ◌∷◌, Bool, true, false, if◌then◌else◌, All}
use c_py_nodus_ii.Filesystem.Disk.{
  Disk, Event, Machine, Outcome, ok, raised, off, Exec, Platform, ◌>>=◌, try_except, os_call,
  maybe_sync, run, fail, cut,
}

-- From the disk `d`, whichever calls fail by the events in `G` and wherever the power goes, the
-- outcome and the disk are in `Q`.
pub record Always (G : Event → Type 0) {A : Type 0} (m : Exec A) (d : Disk)
    (Q : Outcome A → Disk → Type 0) : Type 0 where
  pub at :
      (plan : List Event)
      → All G plan
      → let (r, s) = m (record { disk = d; plan = plan }) in Q r s.disk × All G s.plan

module _ {A B : Type 0} where
  abbrev pub Next :
      (Event → Type 0) → (A → Exec B) → (Outcome B → Disk → Type 0) → Outcome A → Disk → Type 0
  Next G f Q (ok a) d = Always G (f a) d Q
  Next G f Q (raised e) d = Q (raised e) d
  Next G f Q off d = Q off d

  pub Always-bind :
      {G : Event → Type 0} (m : Exec A) (f : A → Exec B) (d : Disk) (Q : Outcome B → Disk → Type 0)
      → Always G m d (Next G f Q)
      → Always G (m >>= f) d Q
  unfolding ◌>>=◌
  Always-bind {G} m f d Q h = record {
    at = λ plan g.
        let (r, s) = m (record { disk = d; plan = plan }) in
        let (q, g') = h.at plan g in go r s q g';
  }
    where
      go :
          (r : Outcome A) (s : Machine)
          → Next G f Q r s.disk
          → All G s.plan
          → let (r', s') = ◌>>=◌ (λ _. (r, s)) f s in Q r' s'.disk × All G s'.plan
      go (ok a) s k g = k.at s.plan g
      go (raised e) s k g = (k, g)
      go off s k g = (k, g)

module _ {A : Type 0} where
  abbrev pub Handled :
      (Event → Type 0) → (ℕ → Exec A) → (Outcome A → Disk → Type 0) → Outcome A → Disk → Type 0
  Handled G h Q (ok a) d = Q (ok a) d
  Handled G h Q (raised e) d = Always G (h e) d Q
  Handled G h Q off d = Q off d

module _ {G : Event → Type 0} {A : Type 0} where
  pub Always-try :
      (m : Exec A) (h : ℕ → Exec A) (d : Disk) (Q : Outcome A → Disk → Type 0)
      → Always G m d (Handled G h Q)
      → Always G (try_except m h) d Q
  unfolding try_except
  Always-try m h d Q k = record {
    at = λ plan g.
        let (r, s) = m (record { disk = d; plan = plan }) in
        let (q, g') = k.at plan g in go r s q g';
  }
    where
      go :
          (r : Outcome A) (s : Machine)
          → Handled G h Q r s.disk
          → All G s.plan
          → let (r', s') = try_except (λ _. (r, s)) h s in Q r' s'.disk × All G s'.plan
      go (ok a) s q g = (q, g)
      go (raised e) s q g = q.at s.plan g
      go off s q g = (q, g)

  pub Always-pure :
      (a : A) (d : Disk) (Q : Outcome A → Disk → Type 0)
      → Q (ok a) d
      → Always G (λ m. (ok a, m)) d Q
  Always-pure a d Q h = record { at = λ plan g. (h, g) }

  pub Always-raise :
      (e : ℕ) (d : Disk) (Q : Outcome A → Disk → Type 0)
      → Q (raised e) d
      → Always G (λ m. (raised e, m)) d Q
  Always-raise e d Q h = record { at = λ plan g. (h, g) }

  pub Always-call :
      (f : Disk → Outcome A × Disk) (d : Disk) (Q : Outcome A → Disk → Type 0)
      → Q off d
      → ((e : ℕ) → G (fail e) → Q (raised e) d)
      → Q (f d).0 (f d).1
      → Always G (os_call f) d Q
  unfolding os_call
  Always-call f d Q c e r = record { at = go }
    where
      go :
          (plan : List Event)
          → All G plan
          → let (r', s) = os_call f (record { disk = d; plan = plan }) in Q r' s.disk × All G s.plan
      go [] g = (r, g)
      go (run ∷ rest) g = (r, g.1)
      go (fail code ∷ rest) g = (e code g.0, g.1)
      go (cut ∷ rest) g = (c, g.1)

  pub Always-weaken :
      {m : Exec A} {d : Disk} {P Q : Outcome A → Disk → Type 0}
      → Always G m d P
      → ((r : Outcome A) (d' : Disk) → P r d' → Q r d')
      → Always G m d Q
  Always-weaken h k = record { at = λ plan g. let (p, g') = h.at plan g in (k _ _ p, g') }

pub Always-sync :
    {G : Event → Type 0} (os : Platform) (d : Disk) (Q : Outcome (Unit {0}) → Disk → Type 0)
    → Q off d
    → ((e : ℕ) → Q (raised e) d)
    → Q (ok tt) d
    → Always G (maybe_sync os) d Q
unfolding maybe_sync
Always-sync {G} os d Q c e r = go os.has_sync
  where
    go : (b : Bool) → Always G (if b then os_call (λ d. (ok tt, d)) else λ m. (ok tt, m)) d Q
    go true = Always-call (λ d. (ok tt, d)) d Q c (λ code _. e code) r
    go false = Always-pure tt d Q r
