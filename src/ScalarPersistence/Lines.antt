-- ===== src/ScalarPersistence/Lines.antt =====
-- What is read of a file that features/scalar_persistence.py has rewritten.
use c_py_nodus_ii.Prelude.{
  ◌≤◌, ◌<◌, ◌≡◌, refl, ap, ◌∙◌, String, Bool, true, false, not, ◌&&◌, ◌||◌, List, [], ◌∷◌, ◌++◌,
  length, arith, All, str_eq, eq_iff, eq_refl, Bool-cases, inl, inr,
}
use c_py_nodus_ii.ScalarPersistence.{
  newline, FileLine, body_of, LineKind, header, own_key, other, kind_of, key_line, section_line,
  line_with, missing, finish, rewrite,
}

-- The lines that set the key in the section, read from the first line on.
unfoldable pub key_lines : String → String → String → List FileLine → List String
key_lines section key current [] = []
key_lines section key current (line ∷ lines) =
    elim (kind_of section key current (body_of line.content)) [
      | header name ↦ key_lines section key name lines
      | own_key ↦ line.content ∷ key_lines section key current lines
      | other ↦ key_lines section key current lines
    ]

-- All the other lines.
unfoldable pub other_lines : String → String → String → List FileLine → List FileLine
other_lines section key current [] = []
other_lines section key current (line ∷ lines) =
    elim (kind_of section key current (body_of line.content)) [
      | header name ↦ line ∷ other_lines section key name lines
      | own_key ↦ other_lines section key current lines
      | other ↦ line ∷ other_lines section key current lines
    ]

-- Whether a header of the section has been seen, at the end.
unfoldable pub sees_section : String → String → String → Bool → List FileLine → Bool
sees_section section key current seen [] = seen
sees_section section key current seen (line ∷ lines) =
    elim (kind_of section key current (body_of line.content)) [
      | header name ↦ sees_section section key name (seen || str_eq name section) lines
      | own_key ↦ sees_section section key current seen lines
      | other ↦ sees_section section key current seen lines
    ]

-- The new lines are read as what they are written for: the key's line in its section, and the
-- section's header.
pub record IsLegible (section key value : String) : Type 0 where
  pub key_read : kind_of section key section (body_of (key_line key value)) ≡ own_key
  pub header_read :
      (current : String)
      → kind_of section key current (body_of (section_line section)) ≡ header section
  pub blank_read : (current : String) → kind_of section key current (body_of "") ≡ other

abbrev pub added : String → Bool → List FileLine
added section true = []
added section false = line_with "" newline ∷ line_with (section_line section) newline ∷ []

module _ (section key value : String) (legible : IsLegible section key value) where
  at_section :
      (current : String)
      → str_eq current section ≡ true
      → kind_of section key current (body_of (key_line key value)) ≡ own_key
  at_section current e = rw ((eq_iff current section).0 e) legible.key_read

  -- The key's line is missing at the end of the section.
  is_missing : String → Bool → Bool
  is_missing current written = str_eq current section && not written

  missing_line :
      (current : String) (written : Bool)
      → is_missing current written ≡ true
      → missing section key value current written ≡ line_with (key_line key value) newline ∷ []
  unfolding missing is_missing
  missing_line current written e = rw e

  missing_none :
      (current : String) (written : Bool)
      → is_missing current written ≡ false
      → missing section key value current written ≡ []
  unfolding missing is_missing
  missing_none current written e = rw e

  is_missing-at :
      (current : String) (written : Bool)
      → is_missing current written ≡ true
      → str_eq current section ≡ true
  unfolding is_missing
  is_missing-at current written e = ground (arith, e)

  -- Some lines that set the key, all as it is now.
  abbrev AllNew : List String → Type 0
  AllNew contents = All (λ c. c ≡ key_line key value) contents

  -- The key's line is still to be written.
  abbrev pub needs_key : String → Bool → Bool → Bool
  needs_key current seen written = not written && (not seen || str_eq current section)

  -- What is read of the writes for some lines.
  abbrev IsRewritten : String → Bool → Bool → List FileLine → List FileLine → Type 0
  IsRewritten current seen written lines out =
      AllNew (key_lines section key current out)
      × (other_lines section key current out
          ≡ other_lines section key current lines
            ++ added section (sees_section section key current seen lines))
      × (needs_key current seen written ≡ true → 0 < length (key_lines section key current out))

  finished_added :
      (current : String)
      → let out =
          line_with "" newline
          ∷ line_with (section_line section) newline
          ∷ line_with (key_line key value) newline
          ∷ [] in
        (key_lines section key current out ≡ key_line key value ∷ [])
        × (other_lines section key current out ≡ added section false)
  unfolding key_lines other_lines
  finished_added current =
      let own = at_section section (eq_refl section) in
      (
        rw (key_lines, legible.blank_read current, legible.header_read current, own) refl,
        rw (other_lines, legible.blank_read current, legible.header_read current, own) refl,
      )

  -- The missing line before some writes.
  add_missing :
      (current : String) (written : Bool) (out : List FileLine)
      → let out' = missing section key value current written ++ out in
        (AllNew (key_lines section key current out) → AllNew (key_lines section key current out'))
        × (other_lines section key current out' ≡ other_lines section key current out)
        × (length (key_lines section key current out) ≤ length (key_lines section key current out'))
        × (is_missing current written ≡ true → 0 < length (key_lines section key current out'))
  unfolding key_lines other_lines
  add_missing current written out = elim (Bool-cases (is_missing current written)) [
    | inl m ↦
        let own = at_section current (is_missing-at current written m) in
        rw (missing_line current written m, key_lines, other_lines, own)
          (λ h. (refl, h), refl, omega arith, λ _. omega arith)
    | inr m ↦
        rw (missing_none current written m) (λ h. h, refl, omega arith, λ e. ground (arith, e, m))
  ]

  IsRewritten-finish :
      (current : String) (seen written : Bool)
      → IsRewritten current seen written [] (finish section key value current seen written)
  unfolding finish key_lines other_lines sees_section is_missing
  IsRewritten-finish current true written =
      let (all, same, more, some_line) = add_missing current written [] in
      (all tt, same, λ n. some_line (ground (arith, n)))
  IsRewritten-finish current false written =
      let (keys, others) = finished_added current in
      let (all, same, more, some_line) = add_missing current written (
        line_with "" newline
        ∷ line_with (section_line section) newline
        ∷ line_with (key_line key value) newline
        ∷ []) in
      (all (rw keys (refl, tt)), same ∙ others, λ n. omega (arith, more, ap length keys))

  own_at :
      (current body : String)
      → kind_of section key current body ≡ own_key
      → str_eq current section ≡ true
  unfolding kind_of
  own_at current body e = ground (arith, e)

  still_needed :
      (current name : String) (seen written : Bool)
      → needs_key current seen written ≡ true
      → is_missing current written ≡ false
      → needs_key name (seen || str_eq name section) (written || str_eq current section) ≡ true
  unfolding is_missing
  still_needed current name seen written n m = ground (arith, n, m)

  IsRewritten-line :
      (current : String) (seen written : Bool) (line : FileLine) (lines : List FileLine)
      (kind : LineKind)
      → kind_of section key current (body_of line.content) ≡ kind
      → ((current : String) (seen written : Bool)
          → IsRewritten current seen written lines
              (rewrite section key value current seen written lines))
      → IsRewritten current seen written
          (line ∷ lines)
          (rewrite section key value current seen written (line ∷ lines))
  unfolding rewrite key_lines other_lines sees_section is_missing
  IsRewritten-line current seen written line lines (header name) e ih =
      let seen' = seen || str_eq name section in
      let written' = written || str_eq current section in
      let (all, others, some_key) = ih name seen' written' in
      let out = line ∷ rewrite section key value name seen' written' lines in
      let (all', others', more, some_line) = add_missing current written out in
      rw (rewrite, other_lines, sees_section, e)
        (
          all' (rw (key_lines, e) all),
          others' ∙ rw (other_lines, e) (ap (λ ls. line ∷ ls) others),
          λ n. elim (Bool-cases (is_missing current written)) [
            | inl m ↦ some_line m
            | inr m ↦
                let reached : 0 < length (key_lines section key current out) =
                  rw (key_lines, e) (some_key (still_needed current name seen written n m)) in
                omega (arith, more, reached)
          ],
        )
  IsRewritten-line current seen written line lines own_key e ih =
      let (all, others, some_key) = ih current seen true in
      let own = at_section current (own_at current (body_of line.content) e) in
      rw (rewrite, key_lines, other_lines, sees_section, e, own)
        ((refl, all), others, λ _. omega arith)
  IsRewritten-line current seen written line lines other e ih =
      let (all, others, some_key) = ih current seen written in
      rw (rewrite, e, key_lines, other_lines, sees_section, e)
        (all, ap (λ ls. line ∷ ls) others, some_key)

  pub IsRewritten-rewrite :
      (current : String) (seen written : Bool) (lines : List FileLine)
      → IsRewritten current seen written lines
          (rewrite section key value current seen written lines)
  unfolding rewrite
  IsRewritten-rewrite current seen written [] = IsRewritten-finish current seen written
  IsRewritten-rewrite current seen written (line ∷ lines) =
      IsRewritten-line current seen written line lines _ refl
        (λ current seen written. IsRewritten-rewrite current seen written lines)
