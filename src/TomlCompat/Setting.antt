-- ===== src/TomlCompat/Setting.antt =====
-- The line of a setting, for any text of a value that the loader reads for itself.
use Prim.Native.String
use text.Mathlib.TextLemmas.{nil-append, cons-append, append_assoc}
use c_py_nodus_ii.Prelude.{String, false, ◌≡◌, refl, sym, ap, subst, ◌∙◌, some, arith}
use c_py_nodus_ii.Prelude.Text.{
  strip, strip_left, strip_right, is_space, is_blank, has, split_at, split_at-append,
}
use c_py_nodus_ii.Prelude.Strip.{
  strip_left-kept, strip_right-append, strip_right-dropped, has-append,
}
use c_py_nodus_ii.ScalarPersistence.{Scalar, key_line, is_equals, is_open_bracket, is_header}
use c_py_nodus_ii.ScalarPersistence.Legible.{
  IsName, first-has, equals_first, space_char, equals_char,
}
use c_py_nodus_ii.TomlCompat.{
  strip_comment_from, strip_comment, Numbers, parse_value, setting, read_line,
}
use c_py_nodus_ii.TomlCompat.RoundTrip.{is_special, comment-plain}

-- The text of a value: not empty, without spaces at its ends and without a comment.
pub record IsValueText (numbers : Numbers) (s : String) (v : Scalar) : Type 0 where
  pub some_text : is_blank s ≡ false
  pub left : strip_left is_space s ≡ s
  pub right : strip_right is_space s ≡ s
  pub no_comment : strip_comment_from false false s ≡ s
  pub value : parse_value numbers s ≡ v

blank_left : (a b : String) → is_blank a ≡ false → is_blank (String.◌++◌ a b) ≡ false
blank_left String.[] b h = ground (arith, h)
blank_left (String.◌∷◌ c a) b h = rw (cons-append c a b) refl

module _ (numbers : Numbers) (key s : String) (v : Scalar) (n : IsName key)
    (plain : has is_special key ≡ false) (t : IsValueText numbers s v) where
  line_comment : strip_comment (key_line key s) ≡ key_line key s
  unfolding strip_comment has
  line_comment =
      comment-plain key (String.◌++◌ " = " s) plain
      ∙ ap (String.◌++◌ key) (comment-plain " = " s refl ∙ ap (String.◌++◌ " = ") t.no_comment)

  line_stripped : strip is_space (key_line key s) ≡ key_line key s
  line_stripped =
      ap (strip_right is_space)
        (strip_left-kept is_space key (String.◌++◌ " = " s) n.some_text n.no_space)
      ∙ subst (λ l. strip_right is_space l ≡ l) (append_assoc key " = " s)
          (strip_right-append is_space (String.◌++◌ key " = ") s (ap is_blank t.right ∙ t.some_text)
            ∙ ap (String.◌++◌ (String.◌++◌ key " = ")) t.right)

  key_stripped : strip is_space (String.◌++◌ key " ") ≡ key
  unfolding strip_right
  key_stripped =
      ap (strip_right is_space) (strip_left-kept is_space key " " n.some_text n.no_space)
      ∙ strip_right-dropped is_space key " " n.no_space refl

  line_split :
      split_at is_equals (key_line key s) ≡ some (String.◌++◌ key " ", String.◌∷◌ space_char s)
  unfolding has
  line_split =
      ap (split_at is_equals) (
        ap (String.◌++◌ key) (equals_first s)
        ∙ sym (
            append_assoc key " " (String.◌∷◌ equals_char (String.◌∷◌ space_char s))
            ∙ ap (String.◌++◌ key) (
                cons-append space_char "" (String.◌∷◌ equals_char (String.◌∷◌ space_char s))
                ∙ ap (String.◌∷◌ space_char)
                    (nil-append (String.◌∷◌ equals_char (String.◌∷◌ space_char s))))))
      ∙ split_at-append is_equals (String.◌++◌ key " ") equals_char (String.◌∷◌ space_char s)
          (has-append is_equals key " " ∙ rw n.no_equals refl) refl

  value_stripped : strip is_space (String.◌∷◌ space_char s) ≡ s
  unfolding strip_left
  value_stripped = ap (strip_right is_space) t.left ∙ t.right

  pub read_line-key_line : read_line numbers (key_line key s) ≡ setting key v
  unfolding read_line is_header
  read_line-key_line =
      rw
        (
          line_comment,
          line_stripped,
          blank_left key (String.◌++◌ " = " s) n.some_text,
          first-has is_open_bracket key (String.◌++◌ " = " s) n.some_text n.no_bracket,
          line_split,
          key_stripped,
          value_stripped,
          t.value,
        )
        refl
