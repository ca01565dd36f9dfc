-- ===== src/TomlCompat/Tests.antt =====
-- Lines of settings files.
use Prim.Native.String
use c_py_nodus_ii.Prelude.{[], ◌∷◌, true, ◌≡◌, refl, none, some, str_eq, if◌then◌else◌}
use c_py_nodus_ii.Prelude.Text.{
  has, split_at, strip_left, strip_right, first_is, last_is, same_upper, without_last,
}
use c_py_nodus_ii.Prelude.Int.{pos}
use c_py_nodus_ii.ScalarPersistence.{Scalar, key_line, is_header, header_name}
use c_py_nodus_ii.TomlCompat.{
  Numbers, header, setting, read_line, strip_comment_from, strip_comment, parse_value, plain_value,
  unescape, replace_escaped, format_value,
}
use c_py_nodus_ii.TomlCompat.Tables.{
  loads_from, set_value, splitlines, splitlines_from, loads, entry, table, scalar, no_entries, find,
  put,
}
use c_py_nodus_ii.TomlCompat.Loaded.{loads_from-format_value}

abbrev numbers : Numbers
numbers = record { as_int = λ s. if str_eq s "7" then some (pos 7) else none; as_float = λ s. none }

a_comment : read_line numbers "  name = \"a#b\" # the name" ≡ setting "name" (Scalar.text "a#b")
unfolding read_line strip_comment_from strip_comment parse_value unescape replace_escaped split_at
    strip_left strip_right first_is last_is is_header without_last
a_comment = refl

a_section : read_line numbers "[ Switch ] # relays" ≡ header "Switch"
unfolding read_line strip_comment_from strip_comment strip_left strip_right first_is last_is
    is_header header_name without_last
a_section = refl

a_number : read_line numbers "COUNT=7" ≡ setting "COUNT" (Scalar.integer (pos 7))
unfolding read_line strip_comment_from strip_comment parse_value plain_value split_at strip_left
    strip_right first_is last_is is_header same_upper has
a_number = refl

loads_from-format_value_example :
    loads_from numbers
      (splitlines (
        String.◌++◌
          (key_line "PASSWORD" (format_value (Scalar.text "a\"#\\b")))
          (String.◌++◌ "\n" "COUNT = 7")))
      (entry "Wifi" (table no_entries) no_entries)
      ("Wifi" ∷ [])
    ≡ elim (set_value "PASSWORD"
        (Scalar.text "a\"#\\b")
        ("Wifi" ∷ [])
        (entry "Wifi" (table no_entries) no_entries)) [
          | none ↦ none
          | some changed ↦ loads_from numbers (splitlines "COUNT = 7") changed ("Wifi" ∷ [])
        ]
unfolding has
loads_from-format_value_example =
    loads_from-format_value numbers "PASSWORD" (Scalar.text "a\"#\\b") "COUNT = 7"
      (entry "Wifi" (table no_entries) no_entries) ("Wifi" ∷ [])
      (record {
        some_text = refl;
        no_space = refl;
        no_hash = refl;
        no_equals = refl;
        no_bracket = refl;
      })
      refl refl

-- The settings of a file with a nested section, and a section whose name is a setting.
two_sections :
    loads numbers "[Network.wifi]\n# none\r\nCOUNT = 7\n[Network]\nON = True"
    ≡ some (
        entry "Network"
          (table (
            entry "wifi"
              (table (entry "COUNT" (scalar (Scalar.integer (pos 7))) no_entries))
              (entry "ON" (scalar (Scalar.flag true)) no_entries)))
          no_entries)
unfolding loads splitlines_from read_line strip_comment_from strip_comment parse_value plain_value
    split_at strip_left strip_right first_is last_is is_header header_name same_upper has
    without_last find put
two_sections = refl

section_of_a_setting : loads numbers "A = true\n[A.b]\n" ≡ none
unfolding loads splitlines_from read_line strip_comment_from strip_comment parse_value plain_value
    split_at strip_left strip_right first_is last_is is_header header_name same_upper has
    without_last find put
section_of_a_setting = refl
