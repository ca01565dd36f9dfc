-- ===== src/ScalarPersistence/Tests.antt =====
-- A settings file of two sections.
use c_py_nodus_ii.Prelude.{◌≡◌, refl, some, List, [], ◌∷◌, All}
use c_py_nodus_ii.Prelude.Int.{pos}
use c_py_nodus_ii.Prelude.Text.{
  strip, is_space, strip_left, strip_right, has, before, last_is, without_last,
}
use c_py_nodus_ii.ScalarPersistence.{
  unterminated, newline, FileLine, body_of, is_header, header_name, line_key, kind_of, line_with,
  missing, finish, rewrite, join_lines, split_line, split_lines, escape, text, integer,
  format_scalar, write_toml_scalar,
}
use c_py_nodus_ii.ScalarPersistence.Legible.{IsName}
use c_py_nodus_ii.ScalarPersistence.Written.{IsFileLine, IsWritten, write_toml_scalar-IsWritten}

abbrev settings : List FileLine
settings =
    line_with "[Network]" newline
    ∷ line_with "HOSTNAME = \"node\"" newline
    ∷ line_with "[Sensor]" newline
    ∷ line_with "INTERVAL = 30 # seconds" newline
    ∷ []

abbrev new_settings : List FileLine
new_settings =
    line_with "[Network]" newline
    ∷ line_with "HOSTNAME = \"node\"" newline
    ∷ line_with "[Sensor]" newline
    ∷ line_with "INTERVAL = 60" newline
    ∷ []

sensor-IsName : IsName (strip is_space " Sensor ")
unfolding strip_left strip_right has
sensor-IsName = record {
  some_text = refl;
  no_space = refl;
  no_hash = refl;
  no_equals = refl;
  no_bracket = refl;
}

interval-IsName : IsName (strip is_space "INTERVAL")
unfolding strip_left strip_right has
interval-IsName = record {
  some_text = refl;
  no_space = refl;
  no_hash = refl;
  no_equals = refl;
  no_bracket = refl;
}

write_toml_scalar-IsWritten_example :
    (out : List FileLine) × (write_toml_scalar " Sensor " "INTERVAL" (integer (pos 60)) settings
      ≡ some out)
    × IsWritten
        (strip is_space " Sensor ")
        (strip is_space "INTERVAL")
        (format_scalar (integer (pos 60)))
        settings
        out
    × All IsFileLine out
unfolding has format_scalar
write_toml_scalar-IsWritten_example =
    write_toml_scalar-IsWritten " Sensor " "INTERVAL" (integer (pos 60)) settings sensor-IsName
      interval-IsName refl ((tt, refl), ((tt, refl), ((tt, refl), ((tt, refl), tt))))

interval_written :
    write_toml_scalar " Sensor " "INTERVAL" (integer (pos 60)) settings ≡ some new_settings
unfolding write_toml_scalar split_lines split_line format_scalar rewrite finish missing join_lines
    kind_of body_of is_header header_name line_key strip_left strip_right has before last_is
    without_last
interval_written = refl

-- A key that is added behind a last line without a newline goes on with that line.
glued :
    write_toml_scalar "A" "y"
      (integer (pos 2))
      (line_with "[A]" newline ∷ line_with "x = 1" unterminated ∷ [])
    ≡ some (line_with "[A]" newline ∷ line_with "x = 1y = 2" newline ∷ [])
unfolding write_toml_scalar split_lines split_line format_scalar rewrite finish missing join_lines
    kind_of body_of is_header header_name line_key strip_left strip_right has before last_is
    without_last
glued = refl

-- A newline in a text is not escaped: the value brings a section of its own.
injected :
    write_toml_scalar "A" "x" (text "1\n[B]\ny = 2") (line_with "[A]" newline ∷ [])
    ≡ some (
        line_with "[A]" newline
        ∷ line_with "x = \"1" newline
        ∷ line_with "[B]" newline
        ∷ line_with "y = 2\"" newline
        ∷ [])
unfolding write_toml_scalar split_lines split_line escape format_scalar rewrite finish missing
    join_lines kind_of body_of is_header header_name line_key strip_left strip_right has before
    last_is without_last
injected = refl
