-- ===== src/ScalarPersistence.antt =====
-- features/scalar_persistence.py: one setting of a TOML file is replaced line by line. A file is its
-- lines, each with how it ends; how the file itself is replaced is Filesystem's `commit_file`.
pub mod Lines
pub mod Legible
pub mod Written
mod Tests
use Prim.Native.String
use Prim.Native.Char.{Char, char, code}
use c_py_nodus_ii.Prelude.{
  suc, Option, none, some, String, Bool, true, false, not, ◌&&◌, ◌||◌, List, [], ◌∷◌, ◌++◌, ◌==◌,
  str_eq, if◌then◌else◌,
}
use c_py_nodus_ii.Prelude.Text.{
  strip, is_space, is_blank, is_newline, is_return, has, before, first_is, last_is, inner, decimal,
}
use c_py_nodus_ii.Prelude.Int.{ℤ, pos, negsuc}

pub data Ending : Type 0 where
  unterminated : Ending
  newline : Ending
  return_newline : Ending

pub record FileLine : Type 0 where
  pub content : String
  pub ending : Ending

abbrev pub is_hash : Char → Bool
is_hash c = code c == 35

abbrev pub is_equals : Char → Bool
is_equals c = code c == 61

abbrev pub is_open_bracket : Char → Bool
is_open_bracket c = code c == 91

abbrev pub is_close_bracket : Char → Bool
is_close_bracket c = code c == 93

-- `body`
unfoldable pub body_of : String → String
body_of content = strip is_space (before is_hash content)

unfoldable pub is_header : String → Bool
is_header body = first_is is_open_bracket body && last_is is_close_bracket body

unfoldable pub header_name : String → String
header_name body = strip is_space (inner body)

-- `line_key` of a line in the section
unfoldable pub line_key : String → String
line_key body = if has is_equals body then strip is_space (before is_equals body) else ""

-- What the loop asks of a line, in the section that it has reached.
pub data LineKind : Type 0 where
  header : String → LineKind
  own_key : LineKind
  other : LineKind

unfoldable pub kind_of : String → String → String → String → LineKind
kind_of section key current body =
    if is_header body
    then header (header_name body)
    else if str_eq current section && str_eq (line_key body) key
    then own_key
    else other

-- `"{} = {}".format(key_text, value_text)`
abbrev pub key_line : String → String → String
key_line key value = String.◌++◌ key (String.◌++◌ " = " value)

abbrev pub section_line : String → String
section_line section = String.◌++◌ "[" (String.◌++◌ section "]")

abbrev pub line_with : String → Ending → FileLine
line_with content ending = record { content = content; ending = ending }

-- The line that a new header, or the end of the file, puts before itself.
unfoldable pub missing : String → String → String → String → Bool → List FileLine
missing section key value current written =
    if str_eq current section && not written
    then line_with (key_line key value) newline ∷ []
    else []

-- The writes when the file ends.
unfoldable pub finish : String → String → String → String → Bool → Bool → List FileLine
finish section key value current section_seen written =
    missing section key value current written
    ++ (if section_seen
        then []
        else line_with "" newline
          ∷ line_with (section_line section) newline
          ∷ line_with (key_line key value) newline
          ∷ [])

-- The writes of the loop, from a line on: the section that it is in, whether it has seen the section
-- that is asked for, and whether it has written.
unfoldable pub rewrite :
    String → String → String → String → Bool → Bool → List FileLine → List FileLine
rewrite section key value current seen written [] = finish section key value current seen written
rewrite section key value current seen written (line ∷ lines) =
    elim (kind_of section key current (body_of line.content)) [
      | header name ↦
          missing section key value current written
          ++ line
            ∷ rewrite section key value name (seen || str_eq name section)
                (written || str_eq current section) lines
      | own_key ↦
          line_with (key_line key value) line.ending
          ∷ rewrite section key value current seen true lines
      | other ↦ line ∷ rewrite section key value current seen written lines
    ]

-- A write after an unterminated line goes on with that line.
abbrev pub join_line : FileLine → List FileLine → List FileLine
join_line l [] = l ∷ []
join_line l (m ∷ ms) = elim l.ending [
  | unterminated ↦ line_with (String.◌++◌ l.content m.content) m.ending ∷ ms
  | newline ↦ l ∷ m ∷ ms
  | return_newline ↦ l ∷ m ∷ ms
]

unfoldable pub join_lines : List FileLine → List FileLine
join_lines [] = []
join_lines (l ∷ ls) = join_line l (join_lines ls)

abbrev is_newline_ending : Ending → Bool
is_newline_ending newline = true
is_newline_ending _ = false

-- A character before the lines; a return before a newline belongs to the end of the line.
abbrev put_first : Char → List FileLine → List FileLine
put_first c [] = []
put_first c (l ∷ ls) =
    if is_return c && is_blank l.content && is_newline_ending l.ending
    then line_with "" return_newline ∷ ls
    else line_with (String.◌∷◌ c l.content) l.ending ∷ ls

-- The lines that a reader finds in the text of a written line, which a value with a newline in it
-- makes several.
unfoldable pub split_line : String → Ending → List FileLine
split_line String.[] ending = line_with "" ending ∷ []
split_line (String.◌∷◌ c s) ending =
    let rest = split_line s ending in
    if is_newline c then line_with "" newline ∷ rest else put_first c rest

unfoldable pub split_lines : List FileLine → List FileLine
unfolding split_line
split_lines [] = []
split_lines (l ∷ ls) = split_line l.content l.ending ++ split_lines ls

-- `_format_scalar`; a float is given as its text, which has a point or an "e".
pub data Scalar : Type 0 where
  flag : Bool → Scalar
  integer : ℤ → Scalar
  float : String → Scalar
  text : String → Scalar

abbrev pub signed : ℤ → String
signed (pos n) = decimal n
signed (negsuc n) = String.◌++◌ "-" (decimal (suc n))

unfoldable pub escape : String → String
escape String.[] = String.[]
escape (String.◌∷◌ c s) =
    let rest = escape s in
    if code c == 92
    then String.◌∷◌ c (String.◌∷◌ c rest)
    else if code c == 34
    then String.◌∷◌ (char 92 tt) (String.◌∷◌ c rest)
    else String.◌∷◌ c rest

unfoldable pub format_scalar : Scalar → String
format_scalar (flag b) = if b then "true" else "false"
format_scalar (integer n) = signed n
format_scalar (float s) = s
format_scalar (text s) =
    String.◌++◌ (String.◌∷◌ (char 34 tt) (escape s)) (String.◌∷◌ (char 34 tt) "")

-- `write_toml_scalar` of a path that is not empty, by the lines that the new file has for a reader; `none` is
-- "config_key_missing".
unfoldable pub write_toml_scalar : String → String → Scalar → List FileLine → Option (List FileLine)
write_toml_scalar section key value lines =
    let section_text = strip is_space section in
    let key_text = strip is_space key in
    if is_blank section_text || is_blank key_text
    then none
    else some (
        split_lines
          (join_lines (rewrite section_text key_text (format_scalar value) "" false false lines)))
