-- ===== src/Ota.antt =====
-- cpynodus_ii/ota/state.py: the record that hands an update over from the normal runtime to the
-- update runtime, across a reboot. `json` is the firmware's.
pub mod Handoff
mod Tests
use Prim.Native.String
use c_py_nodus_ii.Prelude.{
  ℕ, String, Bool, true, false, Option, none, some, List, [], ◌∷◌, ◌++◌, if◌then◌else◌,
}
use c_py_nodus_ii.Prelude.Dict.{Dict, lookup}
use c_py_nodus_ii.Prelude.Text.{is_blank, is_slash, has}
use c_py_nodus_ii.Filesystem.Disk.{
  Disk, write, ok, Exec, Platform, pure, ◌>>=◌, ◌>>◌, try_except, os_call,
}
use c_py_nodus_ii.Filesystem.Defs.{commit_file, readable_path, bak, tmp}
use c_py_nodus_ii.Filesystem.Read.{read}

pub record FwUpdateState : Type 0 where
  pub mode : String
  pub prior_profile : String
  pub package_id : String
  pub session_id : String
  pub manifest_sha256 : String
  pub key_id : String
  pub phase : String
  pub error : String

-- str(text or default)
abbrev pub or_text : String → String → String
or_text text default = if is_blank text then default else text

abbrev pub error_item : String → Dict String
error_item text = if is_blank text then [] else ("error", text) ∷ []

unfoldable pub to_dict : FwUpdateState → Dict String
to_dict s =
    ("mode", or_text s.mode "ota")
    ∷ ("prior_profile", s.prior_profile)
    ∷ ("package_id", s.package_id)
    ∷ ("session_id", s.session_id)
    ∷ ("manifest_sha256", s.manifest_sha256)
    ∷ ("key_id", s.key_id)
    ∷ ("phase", or_text s.phase "requested")
    ∷ error_item s.error

abbrev pub found : Option String → String → String
found (some text) default = or_text text default
found none default = default

-- str(document.get(key, default) or default)
abbrev pub field : Dict String → String → String → String
field d key default = found (lookup key d) default

-- The state of an object whose values are texts.
unfoldable pub from_dict : Dict String → FwUpdateState
from_dict d = record {
  mode = field d "mode" "ota";
  prior_profile = field d "prior_profile" "";
  package_id = field d "package_id" "";
  session_id = field d "session_id" "";
  manifest_sha256 = field d "manifest_sha256" "";
  key_id = field d "key_id" "";
  phase = field d "phase" "requested";
  error = field d "error" "";
}

abbrev pub invalid : String → FwUpdateState
invalid text = record {
  mode = "ota";
  prior_profile = "";
  package_id = "";
  session_id = "";
  manifest_sha256 = "";
  key_id = "";
  phase = "invalid";
  error = text;
}

-- `json`: the bytes of an object with a newline after them, and what is read back, `none` where it
-- raises `ValueError` and `some none` where the document is no object.
pub record Json : Type 0 where
  pub dumps : Dict String → List ℕ
  pub load : List ℕ → Option (Option (Dict String))

unfoldable pub decoded : Option (Option (Dict String)) → FwUpdateState
decoded none = invalid "state_json_invalid"
decoded (some none) = invalid "state_shape_invalid"
decoded (some (some d)) = from_dict d

-- From the file that is opened, if there is one.
unfoldable pub load_document : Json → Option (List ℕ) → Option FwUpdateState
load_document json none = none
load_document json (some bytes) = some (decoded (json.load bytes))

-- `load_ota_state`, where no call fails.
unfoldable pub load_ota_state : Json → String → Disk → Option FwUpdateState
load_ota_state json path d =
    load_document json (read (readable_path path (record { disk = d; plan = [] })))

-- `_parent_dir(path)` is not empty: there is a slash after the first character.
unfoldable pub has_parent : String → Bool
has_parent String.[] = false
has_parent (String.◌∷◌ c rest) = has is_slash rest

-- `_ensure_dir`, which changes no file.
unfoldable pub ensure_dir : Exec (Unit {0})
unfolding os_call try_except
ensure_dir = try_except (os_call (λ d. (ok tt, d))) (λ code. pure tt)

-- `open(path, "w")` and its writes, as one call.
unfoldable pub write_file : String → List ℕ → Exec (Unit {0})
unfolding os_call
write_file path bytes = os_call (λ d. (ok tt, write d path (some bytes)))

unfoldable pub save_ota_state : Platform → Json → FwUpdateState → String → Exec (Unit {0})
save_ota_state os json s path = do
  if has_parent path then ensure_dir else pure tt
  write_file (tmp path) (json.dumps (to_dict s))
  commit_file os path (tmp path) (bak path)
