-- ===== src/TomlCompat.antt =====
-- core/toml_compat.py: the loader of the settings files. `int` and `float` of a text are the
-- firmware's; a float is given as its text, as in ScalarPersistence.
pub mod Tables
mod RoundTrip
mod Setting
mod Values
pub mod Loaded
mod Tests
use Prim.Native.String
use Prim.Native.Char.{Char, code}
use c_py_nodus_ii.Prelude.{
  String, Bool, true, false, not, ◌&&◌, ◌||◌, Option, none, some, List, [], ◌∷◌, ◌==◌, str_eq,
  if◌then◌else◌,
}
use c_py_nodus_ii.Prelude.Text.{
  strip, is_space, is_blank, is_backslash, has, first_is, last_is, inner, split_at, same_upper,
}
use c_py_nodus_ii.Prelude.Int.{ℤ}
use c_py_nodus_ii.ScalarPersistence.{
  Scalar, flag, integer, float, text, is_hash, is_equals, is_header, header_name, format_scalar,
}

abbrev pub is_quote : Char → Bool
is_quote c = code c == 34

-- The loop of `_strip_comment`, with `in_string` and `escaped`.
unfoldable pub strip_comment_from : Bool → Bool → String → String
strip_comment_from in_string escaped String.[] = ""
strip_comment_from in_string escaped (String.◌∷◌ c s) =
    let inside = if is_quote c && not escaped then not in_string else in_string in
    let rest = strip_comment_from inside (is_backslash c && not escaped) s in
    if is_hash c && not inside then "" else String.◌∷◌ c rest

unfoldable pub strip_comment : String → String
unfolding strip_comment_from
strip_comment line = strip_comment_from false false line

abbrev pub behind : Option Char → String → String
behind none s = s
behind (some b) s = String.◌∷◌ b s

-- `text.replace("\\" + x, x)` for the characters `x` of the kind; a backslash that has been read
-- waits for the next character.
unfoldable pub replace_escaped : (Char → Bool) → Option Char → String → String
replace_escaped f waiting String.[] = behind waiting ""
replace_escaped f none (String.◌∷◌ c s) =
    let next = replace_escaped f (some c) s in
    let rest = replace_escaped f none s in if is_backslash c then next else String.◌∷◌ c rest
replace_escaped f (some b) (String.◌∷◌ c s) =
    let next = replace_escaped f (some c) s in
    let rest = replace_escaped f none s in
    if f c
    then String.◌∷◌ c rest
    else String.◌∷◌ b (if is_backslash c then next else String.◌∷◌ c rest)

unfoldable pub unescape : String → String
unfolding replace_escaped
unescape s = replace_escaped is_backslash none (replace_escaped is_quote none s)

-- `int(text)`, and `float(text)` by the text of its value; `none` is a `ValueError`.
pub record Numbers : Type 0 where
  pub as_int : String → Option ℤ
  pub as_float : String → Option String

abbrev pub without_first : String → String
without_first String.[] = ""
without_first (String.◌∷◌ c s) = s

-- Two characters or more, of which the first and the last are quotes.
abbrev pub is_quoted : String → Bool
is_quoted s = not (is_blank (without_first s)) && first_is is_quote s && last_is is_quote s

abbrev pub is_float_mark : Char → Bool
is_float_mark c = code c == 46 || code c == 101 || code c == 69

abbrev pub integer_or : String → Option ℤ → Scalar
integer_or s none = text s
integer_or s (some n) = integer n

abbrev float_or : String → Option String → Scalar
float_or s none = text s
float_or s (some x) = float x

unfoldable pub plain_value : Numbers → String → Scalar
plain_value numbers s =
    if same_upper s "true"
    then flag true
    else if same_upper s "false"
    then flag false
    else if has is_float_mark s
    then float_or s (numbers.as_float s)
    else integer_or s (numbers.as_int s)

-- `_parse_value`
unfoldable pub parse_value : Numbers → String → Scalar
unfolding unescape plain_value
parse_value numbers value =
    let s = strip is_space value in
    if is_quoted s then text (unescape (inner s)) else plain_value numbers s

-- `_format_value`, which is the same as `_format_scalar`
unfoldable pub format_value : Scalar → String
unfolding format_scalar
format_value v = format_scalar v

-- What the loop of `loads` makes of a line.
pub data Line : Type 0 where
  ignored : Line
  header : String → Line
  setting : String → Scalar → Line

abbrev pub setting_of : Numbers → Option (String × String) → Line
setting_of numbers none = ignored
setting_of numbers (some (key, value)) =
    setting (strip is_space key) (parse_value numbers (strip is_space value))

unfoldable pub read_line : Numbers → String → Line
unfolding strip_comment is_header header_name parse_value
read_line numbers raw_line =
    let line = strip is_space (strip_comment raw_line) in
    if is_blank line
    then ignored
    else if is_header line
    then header (header_name line)
    else setting_of numbers (split_at is_equals line)
