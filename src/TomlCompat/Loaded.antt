-- ===== src/TomlCompat/Loaded.antt =====
-- The setting that the node writes is what the loader reads, in the file that it stands in.
use Prim.Native.String
use c_py_nodus_ii.Prelude.{String, true, false, ◌≡◌, refl, ap, ◌∙◌, none, some, List, ◌∷◌, arith}
use c_py_nodus_ii.Prelude.Text.{is_line_break, has}
use c_py_nodus_ii.Prelude.Strip.{has-append, has-weaken}
use c_py_nodus_ii.ScalarPersistence.{Scalar, flag, integer, float, escape, signed, key_line}
use c_py_nodus_ii.ScalarPersistence.Written.{one_line-key_line}
use c_py_nodus_ii.ScalarPersistence.Legible.{IsName}
use c_py_nodus_ii.TomlCompat.{Numbers, format_value, setting, read_line}
use c_py_nodus_ii.TomlCompat.RoundTrip.{is_special, in_quotes, quoted_cons, quote_char}
use c_py_nodus_ii.TomlCompat.Setting.{IsValueText, read_line-key_line}
use c_py_nodus_ii.TomlCompat.Tables.{Table, splitlines, splitlines-line, loads_from, set_value}
use c_py_nodus_ii.TomlCompat.Values.{
  is_other, signed-IsNumeral, text_value, flag_value, integer_value,
}

-- A truth value, a text without line breaks, or an integer that `int` reads back from its decimal
-- text.
abbrev pub IsReadable : Numbers → Scalar → Type 0
IsReadable numbers (flag b) = Unit
IsReadable numbers (integer n) = numbers.as_int (signed n) ≡ some n
IsReadable numbers (float s) = ⊥
IsReadable numbers (Scalar.text s) = has is_line_break s ≡ false

readable_value :
    (numbers : Numbers) (v : Scalar) → IsReadable numbers v → IsValueText numbers (format_value v) v
unfolding format_value
readable_value numbers (flag b) h = flag_value numbers b
readable_value numbers (integer n) h = integer_value numbers n h
readable_value numbers (float s) h = absurd h
readable_value numbers (Scalar.text s) h = text_value numbers s

one_line-escape : (s : String) → has is_line_break s ≡ false → has is_line_break (escape s) ≡ false
unfolding has escape
one_line-escape String.[] h = refl
one_line-escape (String.◌∷◌ c s) h = ground (arith, h, one_line-escape s (ground (arith, h)))

one_line-quoted :
    (s : String) → has is_line_break s ≡ false → has is_line_break (in_quotes s) ≡ false
unfolding has
one_line-quoted s h =
    rw (quoted_cons s) (has-append is_line_break s (String.◌∷◌ quote_char "") ∙ rw h refl)

one_line-format_value :
    (numbers : Numbers) (v : Scalar)
    → IsReadable numbers v
    → has is_line_break (format_value v) ≡ false
unfolding format_value has
one_line-format_value numbers (flag true) h = refl
one_line-format_value numbers (flag false) h = refl
one_line-format_value numbers (integer n) h =
    has-weaken is_line_break is_other (λ c k. ground (arith, k)) (signed n) (signed-IsNumeral n).0
one_line-format_value numbers (float s) h = absurd h
one_line-format_value numbers (Scalar.text s) h = one_line-quoted (escape s) (one_line-escape s h)

-- The rest of a file, from a line with a setting on: the setting is put into the current table.
loads_from-setting :
    (numbers : Numbers) (line : String) (lines : List String) (document : Table)
    (current : List String) (key : String) (v : Scalar)
    → read_line numbers line ≡ setting key v
    → loads_from numbers (line ∷ lines) document current ≡ elim (set_value key v current document) [
      | none ↦ none
      | some changed ↦ loads_from numbers lines changed current
    ]
unfolding loads_from
loads_from-setting numbers line lines document current key v e = rw (loads_from, e) refl

-- The value is no float, `int` reads the decimal text of an integer back, and a text has no line
-- break in it; the key is a name without spaces, quotes, backslashes, "#", "=" and "[". Where the
-- loader reaches the line that is written for the value in the text of a file, be the value a text
-- with quotes, backslashes and "#" in it, it takes that line by itself, sets the key to the value in
-- the table of the section that it is in, and goes on with the text behind the line.
pub loads_from-format_value :
    (numbers : Numbers) (key : String) (v : Scalar) (behind : String) (document : Table)
    (current : List String)
    → IsName key
    → has is_special key ≡ false
    → IsReadable numbers v
    → loads_from numbers
        (splitlines (String.◌++◌ (key_line key (format_value v)) (String.◌++◌ "\n" behind)))
        document
        current
      ≡ elim (set_value key v current document) [
        | none ↦ none
        | some changed ↦ loads_from numbers (splitlines behind) changed current
      ]
loads_from-format_value numbers key v behind document current name plain readable =
    let line = key_line key (format_value v) in
    ap (λ lines. loads_from numbers lines document current)
      (splitlines-line line behind (
        one_line-key_line key (format_value v) name.no_space
          (one_line-format_value numbers v readable)))
    ∙ loads_from-setting numbers line (splitlines behind) document current key v (
        read_line-key_line numbers key (format_value v) v name plain
          (readable_value numbers v readable))
