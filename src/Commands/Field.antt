-- ===== src/Commands/Field.antt =====
-- `_extract_json_string_field`: the text of a field, found without reading the JSON document.
use Prim.Native.String
use Prim.Native.Char.{Char, code}
use c_py_nodus_ii.Prelude.{String, Bool, false, not, ◌&&◌, Option, none, some, ◌==◌, if◌then◌else◌}
use c_py_nodus_ii.Prelude.Text.{split_at, is_backslash, is_colon}

abbrev pub is_quote : Char → Bool
is_quote c = code c == 34

-- What is left of a text behind a beginning.
unfoldable pub without_prefix : String → String → Option String
without_prefix String.[] s = some s
without_prefix (String.◌∷◌ c p) String.[] = none
without_prefix (String.◌∷◌ c p) (String.◌∷◌ d s) =
    let rest = without_prefix p s in if code c == code d then rest else none

abbrev first_some : Option String → Option String → Option String
first_some (some r) _ = some r
first_some none o = o

-- What stands behind the first place where `marker` stands.
unfoldable pub behind : String → String → Option String
unfolding without_prefix
behind marker String.[] = without_prefix marker ""
behind marker (String.◌∷◌ c s) =
    let later = behind marker s in first_some (without_prefix marker (String.◌∷◌ c s)) later

abbrev with_first : Char → Option String → Option String
with_first c none = none
with_first c (some s) = some (String.◌∷◌ c s)

-- The loop, from behind the opening quote: up to the first quote that is not escaped.
unfoldable pub quoted : Bool → String → Option String
quoted escaped String.[] = none
quoted escaped (String.◌∷◌ c s) =
    let rest = with_first c (quoted (is_backslash c && not escaped) s) in
    if is_quote c && not escaped then some "" else rest

abbrev or_empty : Option String → String
or_empty none = ""
or_empty (some s) = s

abbrev after_quote : Option (String × String) → String
after_quote none = ""
after_quote (some (a, b)) = or_empty (quoted false b)

abbrev after_colon : Option (String × String) → String
after_colon none = ""
after_colon (some (a, b)) = after_quote (split_at is_quote b)

abbrev after_marker : Option String → String
after_marker none = ""
after_marker (some s) = after_colon (split_at is_colon s)

unfoldable pub extract_json_string_field : String → String → String
unfolding behind quoted
extract_json_string_field payload_text field =
    after_marker (behind (String.◌++◌ "\"" (String.◌++◌ field "\"")) payload_text)
