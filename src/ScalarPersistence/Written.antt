-- ===== src/ScalarPersistence/Written.antt =====
-- A setting is read back as it was written, and the rest of the file is as it was.
use c_py_nodus_ii.Prelude.{
  ◌<◌, ◌≡◌, refl, sym, ap, subst, String, Bool, true, false, not, ◌&&◌, some, List, [], ◌∷◌, ◌++◌,
  length, arith, ◌∙◌, All, str_eq, Bool-cases, inl, inr,
}
use Prim.Native.String
use c_py_nodus_ii.Prelude.Strip.{has-append, has-weaken}
use c_py_nodus_ii.Prelude.Text.{strip, is_space, is_line_break, has}
use c_py_nodus_ii.ScalarPersistence.{
  Ending, unterminated, newline, return_newline, FileLine, body_of, LineKind, header, own_key,
  other, kind_of, key_line, section_line, missing, finish, rewrite, join_line, join_lines, Scalar,
  format_scalar, write_toml_scalar, line_with, split_line, split_lines,
}
use c_py_nodus_ii.ScalarPersistence.Legible.{IsName, names-IsLegible}
use c_py_nodus_ii.ScalarPersistence.Lines.{
  key_lines, other_lines, sees_section, IsLegible, added, IsRewritten-rewrite,
}

-- The line has an end of its own.
abbrev pub EndsLine : Ending → Type 0
EndsLine unterminated = ⊥
EndsLine _ = Unit

-- A line as a file is split into lines: it has an end, and no line break before that.
abbrev pub IsFileLine : FileLine → Type 0
IsFileLine line = EndsLine line.ending × (has is_line_break line.content ≡ false)

pub one_line-key_line :
    (key value : String)
    → has is_space key ≡ false
    → has is_line_break value ≡ false
    → has is_line_break (key_line key value) ≡ false
unfolding has
one_line-key_line key value k v =
    has-append is_line_break key (String.◌++◌ " = " value)
    ∙ rw
        (
          has-weaken is_line_break is_space (λ c h. ground (arith, h)) key k,
          has-append is_line_break " = " value,
          v,
        )
        refl

one_line-section_line :
    (section : String)
    → has is_space section ≡ false
    → has is_line_break (section_line section) ≡ false
unfolding has
one_line-section_line section k =
    has-append is_line_break "[" (String.◌++◌ section "]")
    ∙ rw
        (
          has-append is_line_break section "]",
          has-weaken is_line_break is_space (λ c h. ground (arith, h)) section k,
        )
        refl

join_same :
    (ending : Ending) (line : FileLine) (lines : List FileLine)
    → line.ending ≡ ending
    → EndsLine ending
    → join_line line lines ≡ line ∷ lines
join_same unterminated line lines e t = elim t [ ]
join_same newline line [] e t = refl
join_same return_newline line [] e t = refl
join_same newline line (m ∷ ms) e t = rw e
join_same return_newline line (m ∷ ms) e t = rw e

join_lines-same : (lines : List FileLine) → All IsFileLine lines → join_lines lines ≡ lines
unfolding join_lines
join_lines-same [] h = refl
join_lines-same (line ∷ lines) (t, h) =
    rw (join_lines-same lines h) (join_same line.ending line lines refl t.0)

missing-IsFileLine :
    (section key value current : String) (written : Bool) (lines : List FileLine)
    → has is_line_break (key_line key value) ≡ false
    → All IsFileLine lines
    → All IsFileLine (missing section key value current written ++ lines)
unfolding missing
missing-IsFileLine section key value current written lines k h =
    elim (Bool-cases (str_eq current section && not written)) [
      | inl e ↦ rw e ((tt, k), h)
      | inr e ↦ rw e h
    ]

module _ (section key value : String) (s : has is_line_break (section_line section) ≡ false)
    (k : has is_line_break (key_line key value) ≡ false) where
  abbrev AllFileLines : String → Bool → Bool → List FileLine → Type 0
  AllFileLines current seen written lines =
      All IsFileLine (rewrite section key value current seen written lines)

  finish-IsFileLine :
      (current : String) (seen written : Bool)
      → All IsFileLine (finish section key value current seen written)
  unfolding finish has
  finish-IsFileLine current true written =
      missing-IsFileLine section key value current written [] k tt
  finish-IsFileLine current false written =
      missing-IsFileLine section key value current written _ k
        ((tt, refl), ((tt, s), ((tt, k), tt)))

  line-IsFileLine :
      (current : String) (seen written : Bool) (line : FileLine) (lines : List FileLine)
      (kind : LineKind)
      → kind_of section key current (body_of line.content) ≡ kind
      → IsFileLine line
      → ((current : String) (seen written : Bool) → AllFileLines current seen written lines)
      → AllFileLines current seen written (line ∷ lines)
  unfolding rewrite
  line-IsFileLine current seen written line lines (header name) e t ih =
      rw (rewrite, e) (missing-IsFileLine section key value current written _ k (t, ih name _ _))
  line-IsFileLine current seen written line lines own_key e t ih =
      rw (rewrite, e) ((t.0, k), ih current seen true)
  line-IsFileLine current seen written line lines other e t ih =
      rw (rewrite, e) (t, ih current seen written)

  rewrite-IsFileLine :
      (current : String) (seen written : Bool) (lines : List FileLine)
      → All IsFileLine lines
      → AllFileLines current seen written lines
  unfolding rewrite
  rewrite-IsFileLine current seen written [] h = finish-IsFileLine current seen written
  rewrite-IsFileLine current seen written (line ∷ lines) (t, h) =
      line-IsFileLine current seen written line lines _ refl t
        (λ current seen written. rewrite-IsFileLine current seen written lines h)

-- A file line is read as the line that it is.
split_line-same :
    (content : String) (ending : Ending)
    → has is_line_break content ≡ false
    → split_line content ending ≡ line_with content ending ∷ []
unfolding has split_line
split_line-same String.[] ending h = refl
split_line-same (String.◌∷◌ c s) ending h =
    let rest = split_line-same s ending (ground (arith, h)) in ground (arith, h, rest)

split_lines-same : (lines : List FileLine) → All IsFileLine lines → split_lines lines ≡ lines
unfolding split_lines
split_lines-same [] h = refl
split_lines-same (line ∷ lines) (t, h) =
    rw (split_lines, split_line-same line.content line.ending t.1, split_lines-same lines h) refl

-- What is read of the new lines, where the old ones are those of a file.
abbrev pub IsWritten : String → String → String → List FileLine → List FileLine → Type 0
IsWritten section key value lines out =
    (0 < length (key_lines section key "" out))
    × All (λ c. c ≡ key_line key value) (key_lines section key "" out)
    × (other_lines section key "" out
        ≡ other_lines section key "" lines
          ++ added section (sees_section section key "" false lines))

joined-IsWritten :
    (section key value : String) (lines : List FileLine)
    → IsLegible section key value
    → All IsFileLine (rewrite section key value "" false false lines)
    → let out = join_lines (rewrite section key value "" false false lines) in
      IsWritten section key value lines out × All IsFileLine out
joined-IsWritten section key value lines legible h =
    let (new, others, some_key) =
      IsRewritten-rewrite section key value legible "" false false lines in
    let out = rewrite section key value "" false false lines in
    subst (λ out. IsWritten section key value lines out × All IsFileLine out)
      (sym (join_lines-same out h)) ((some_key refl, new, others), h)

-- A section and a key that are names, a value whose text has no line break, and a file whose every
-- line ends, with no line break before its end: the setting is written, so that the section has a
-- line of the key, every such line has the new value, and all other lines are as they were, followed
-- by a blank line and the section's header where the file had no such section; and what is written
-- is lines of a file again.
pub write_toml_scalar-IsWritten :
    (section key : String) (value : Scalar) (lines : List FileLine)
    → IsName (strip is_space section)
    → IsName (strip is_space key)
    → has is_line_break (format_scalar value) ≡ false
    → All IsFileLine lines
    → (out : List FileLine) × (write_toml_scalar section key value lines ≡ some out)
      × IsWritten (strip is_space section) (strip is_space key) (format_scalar value) lines out
      × All IsFileLine out
unfolding write_toml_scalar
write_toml_scalar-IsWritten section key value lines s k one_line h =
    let section_text = strip is_space section in
    let key_text = strip is_space key in
    let value_text = format_scalar value in
    let (written, same_lines) =
      joined-IsWritten section_text key_text value_text lines
        (names-IsLegible section_text key_text value_text s k)
        (rewrite-IsFileLine section_text key_text value_text
          (one_line-section_line section_text s.no_space)
          (one_line-key_line key_text value_text k.no_space one_line) "" false false lines h) in
    (
      join_lines (rewrite section_text key_text value_text "" false false lines),
      rw (s.some_text, k.some_text)
          (ap some (
            split_lines-same
              (join_lines (rewrite section_text key_text value_text "" false false lines))
              same_lines)),
      written,
      same_lines,
    )
