-- ===== src/Ota/Tests.antt =====
-- A requested update replaced by an applied one, with the power lost between two renames.
use c_py_nodus_ii.Prelude.{
  ℕ, ◌==◌, ◌≡◌, ◌⊎◌, refl, String, true, false, none, some, List, [], ◌∷◌, str_eq, if◌then◌else◌,
}
use c_py_nodus_ii.Prelude.Dict.{lookup}
use c_py_nodus_ii.Filesystem.Disk.{Disk, Event, run, cut, Platform}
use c_py_nodus_ii.Ota.{FwUpdateState, Json, found, to_dict, load_ota_state, save_ota_state}
use c_py_nodus_ii.Ota.Handoff.{coerced, save_hands_over}

abbrev with_phase : String → FwUpdateState
with_phase phase = record {
  mode = "";
  prior_profile = "pico2w";
  package_id = "p1";
  session_id = "s1";
  manifest_sha256 = "";
  key_id = "k1";
  phase = phase;
  error = "";
}

abbrev phase_in : List ℕ → String
phase_in [] = "requested"
phase_in (b ∷ bs) = if b == 2 then "applied" else "requested"

-- A document is one byte that tells the two phases apart.
abbrev json : Json
json = record {
  dumps = λ d. if str_eq (found (lookup "phase" d) "") "applied" then 2 ∷ [] else 1 ∷ [];
  load = λ bytes. some (some (to_dict (with_phase (phase_in bytes))));
}

abbrev state_file : String
state_file = "/_ota/state.json"

abbrev stored : Disk
stored p = if str_eq state_file p then some (1 ∷ []) else none

abbrev fat : Platform
fat = record { has_sync = true; rename_replaces = false }

abbrev lost : List Event
lost = run ∷ run ∷ run ∷ run ∷ run ∷ run ∷ run ∷ cut ∷ []

save_hands_over_example :
    let d' =
      (save_ota_state fat json
        (with_phase "applied")
        state_file
        (record { disk = stored; plan = lost })).1.disk in
    (load_ota_state json state_file d' ≡ load_ota_state json state_file stored)
    ⊎ (load_ota_state json state_file d' ≡ some (coerced (with_phase "applied")))
unfolding to_dict lookup
save_hands_over_example =
    save_hands_over fat json state_file (with_phase "applied") stored lost 1 [] 2 [] refl refl refl
