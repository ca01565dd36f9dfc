-- ===== src/Ota/Handoff.antt =====
-- The handoff record through a save that may fail or be cut off, and its round trip.
use c_py_nodus_ii.Prelude.{
  ℕ, String, ◌≡◌, refl, sym, ap, ◌∙◌, eq_refl, Bool, true, false, some, List, ◌∷◌, ◌⊎◌, inl, inr,
  if◌then◌else◌,
}
use c_py_nodus_ii.Prelude.Dict.{lookup}
use c_py_nodus_ii.Filesystem.Disk.{Disk, write, Event, Outcome, ok, Platform, pure, ◌>>◌}
use c_py_nodus_ii.Filesystem.Always.{
  Always, Always-bind, Always-try, Always-call, Always-pure, Next,
}
use c_py_nodus_ii.Filesystem.Defs.{bak, tmp, commit_file}
use c_py_nodus_ii.Filesystem.Paths.{suffixes-IsApart}
use c_py_nodus_ii.Filesystem.Commit.{document, Any, All-Any, commit_keeps_a_document}
use c_py_nodus_ii.Filesystem.Read.{readable_path-document}
use c_py_nodus_ii.Ota.{
  FwUpdateState, found, error_item, or_text, to_dict, from_dict, Json, decoded, load_document,
  load_ota_state, has_parent, ensure_dir, write_file, save_ota_state,
}

-- The state with its defaults filled in.
abbrev pub coerced : FwUpdateState → FwUpdateState
coerced s = record s { mode = or_text s.mode "ota"; phase = or_text s.phase "requested" }

or_text-empty : (text : String) → or_text text "" ≡ text
or_text-empty String.[] = refl
or_text-empty (String.◌∷◌ c text) = refl

or_text-twice :
    (text default : String) → or_text (or_text text default) default ≡ or_text text default
or_text-twice String.[] String.[] = refl
or_text-twice String.[] (String.◌∷◌ c default) = refl
or_text-twice (String.◌∷◌ c text) default = refl

error_back : (text : String) → found (lookup "error" (error_item text)) "" ≡ text
unfolding lookup
error_back String.[] = refl
error_back (String.◌∷◌ c text) = refl

-- What is written is read back.
from_dict-to_dict : (s : FwUpdateState) → from_dict (to_dict s) ≡ coerced s
unfolding from_dict to_dict lookup
from_dict-to_dict s =
    rw
      (
        or_text-twice s.mode "ota",
        or_text-twice s.phase "requested",
        or_text-empty s.prior_profile,
        or_text-empty s.package_id,
        or_text-empty s.session_id,
        or_text-empty s.manifest_sha256,
        or_text-empty s.key_id,
        error_back s.error,
      )
      refl

load-document :
    (json : Json) (path : String) (d : Disk)
    → load_ota_state json path d ≡ load_document json (document d path)
unfolding load_ota_state
load-document json path d = ap (load_document json) (readable_path-document path d)

module _ (os : Platform) (path : String) (x : ℕ) (xs : List ℕ) (y : ℕ) (ys : List ℕ) where
  -- The old document or the new one.
  abbrev Either : Outcome (Unit {0}) → Disk → Type 0
  Either r d = (document d path ≡ some (x ∷ xs)) ⊎ (document d path ≡ some (y ∷ ys))

  commit-Either :
      (d : Disk)
      → document d path ≡ some (x ∷ xs)
      → d (tmp path) ≡ some (y ∷ ys)
      → Always Any (commit_file os path (tmp path) (bak path)) d Either
  commit-Either d h t = record {
    at = λ plan g. (commit_keeps_a_document os path d plan x xs y ys h t, All-Any _);
  }

  write-Either :
      (d : Disk)
      → document d path ≡ some (x ∷ xs)
      → Always Any
          (write_file (tmp path) (y ∷ ys))
          d
          (Next Any (λ _. commit_file os path (tmp path) (bak path)) Either)
  unfolding write_file
  write-Either d h =
      let apart = suffixes-IsApart path in
      Always-call (λ d. (ok tt, write d (tmp path) (some (y ∷ ys)))) d _ (inl h) (λ e _. inl h)
        (commit-Either _ (rw (apart.tmp_live, apart.tmp_bak) h) (rw (eq_refl (tmp path)) refl))

  ensure-Either :
      (b : Bool) (d : Disk)
      → document d path ≡ some (x ∷ xs)
      → Always Any (if b then ensure_dir else pure tt) d (
          Next Any
            (λ _. (do write_file (tmp path) (y ∷ ys); commit_file os path (tmp path) (bak path)))
            Either)
  unfolding ensure_dir
  ensure-Either false d h = Always-pure tt d _ (Always-bind _ _ d Either (write-Either d h))
  ensure-Either true d h =
      let rest = Always-bind _ _ d Either (write-Either d h) in
      Always-try _ _ d _
        (Always-call (λ d. (ok tt, d)) d _ (inl h) (λ e _. Always-pure tt d _ rest) rest)

  saved-Either :
      (json : Json) (s : FwUpdateState) (d : Disk)
      → json.dumps (to_dict s) ≡ y ∷ ys
      → document d path ≡ some (x ∷ xs)
      → Always Any (save_ota_state os json s path) d Either
  unfolding save_ota_state
  saved-Either json s d e h = rw e (Always-bind _ _ d Either (ensure-Either (has_parent path) d h))

-- Where a state is stored, a save of another, whatever calls fail and wherever the power goes,
-- leaves a record that loads as the state that was stored or as the new one with its defaults
-- filled in, where `json` reads back the object that it wrote and writes something.
pub save_hands_over :
    (os : Platform) (json : Json) (path : String) (s : FwUpdateState) (d : Disk) (plan : List Event)
    (x : ℕ) (xs : List ℕ) (y : ℕ) (ys : List ℕ)
    → json.dumps (to_dict s) ≡ y ∷ ys
    → json.load (json.dumps (to_dict s)) ≡ some (some (to_dict s))
    → document d path ≡ some (x ∷ xs)
    → let d' = (save_ota_state os json s path (record { disk = d; plan = plan })).1.disk in
      (load_ota_state json path d' ≡ load_ota_state json path d)
      ⊎ (load_ota_state json path d' ≡ some (coerced s))
unfolding load_document decoded
save_hands_over os json path s d plan x xs y ys e back h =
    let (end, _) = (saved-Either os path x xs y ys json s d e h).at plan (All-Any plan) in
    let d' = (save_ota_state os json s path (record { disk = d; plan = plan })).1.disk in
    elim end [
      | inl old ↦ inl (
          load-document json path d'
          ∙ ap (load_document json) (old ∙ sym h)
          ∙ sym (load-document json path d))
      | inr new ↦ inr (
          load-document json path d'
          ∙ ap (load_document json) new
          ∙ ap (λ b. some (decoded (json.load b))) (sym e)
          ∙ ap (λ o. some (decoded o)) back
          ∙ ap some (from_dict-to_dict s))
    ]
