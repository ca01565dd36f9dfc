-- ===== src/ScalarPersistence/Legible.antt =====
-- The names of keys and sections whose lines read as what they are written for.
use Prim.Native.String.{String}
use Prim.Native.String
use Prim.Native.Char.{Char, char}
use text.Mathlib.TextLemmas.{nil-append, cons-append, append-nil}
use c_py_nodus_ii.Prelude.{
  ◌≡◌, refl, ap, sym, ◌∙◌, Bool, true, false, arith, str_eq, Bool-cases, inl, inr, eq_refl, eq_iff,
}
use c_py_nodus_ii.Prelude.Text.{
  has, before, strip, strip_left, strip_right, is_space, is_blank, first_is, last_is,
}
use c_py_nodus_ii.Prelude.Strip.{
  has-append, before-append, strip_left-kept, strip_right-append, strip_right-dropped,
  last_is-append, nonblank, without_last-append,
}
use c_py_nodus_ii.ScalarPersistence.{
  is_hash, is_equals, is_open_bracket, is_close_bracket, body_of, is_header, header_name, line_key,
  header, own_key, other, kind_of, key_line, section_line,
}
use c_py_nodus_ii.ScalarPersistence.Lines.{IsLegible}

-- A name that is not empty and has no space, "#", "=" or "[".
pub record IsName (s : String) : Type 0 where
  pub some_text : is_blank s ≡ false
  pub no_space : has is_space s ≡ false
  pub no_hash : has is_hash s ≡ false
  pub no_equals : has is_equals s ≡ false
  pub no_bracket : has is_open_bracket s ≡ false

pub first-has :
    (f : Char → Bool) (a b : String)
    → is_blank a ≡ false
    → has f a ≡ false
    → first_is f (String.◌++◌ a b) ≡ false
unfolding has
first-has f String.[] b n h = ground (arith, n)
first-has f (String.◌∷◌ c a) b n h = rw (cons-append c a b) (ground (arith, h))

strip-name : (s : String) → IsName s → strip is_space s ≡ s
unfolding strip_right
strip-name s n =
    let kept = strip_left-kept is_space s "" n.some_text n.no_space in
    let same = sym (ap (strip_left is_space) (append-nil s)) ∙ kept in
    ap (strip_right is_space) same ∙ strip_right-dropped is_space s "" n.no_space refl

not_blank : (s : String) → is_blank s ≡ false → str_eq "" s ≡ false
not_blank s h = elim (Bool-cases (str_eq "" s)) [
  | inl e ↦ ground (arith, h, ap is_blank ((eq_iff "" s).0 e))
  | inr e ↦ e
]

abbrev pub space_char : Char
space_char = char 32 tt

abbrev pub equals_char : Char
equals_char = char 61 tt

-- What follows the key of a line, without the spaces at the end.
after_key : String → String
after_key value =
    String.◌∷◌ space_char
      (String.◌∷◌ equals_char (strip_right is_space (String.◌∷◌ space_char value)))

pub equals_first :
    (s : String)
    → String.◌++◌ " = " s ≡ String.◌∷◌ space_char (String.◌∷◌ equals_char (String.◌∷◌ space_char s))
equals_first s = rw (
  cons-append space_char "= " s,
  cons-append equals_char " " s,
  cons-append space_char "" s,
  nil-append s,
)

strip_right-after_key : (s : String) → strip_right is_space (String.◌++◌ " = " s) ≡ after_key s
unfolding after_key strip_right
strip_right-after_key s = rw (equals_first s)

module _ (key value : String) (n : IsName key) where
  -- The value without a comment.
  value_left : String
  value_left = before is_hash value

  no_comment : before is_hash (key_line key value) ≡ String.◌++◌ key (String.◌++◌ " = " value_left)
  unfolding value_left has
  no_comment =
      before-append is_hash key (String.◌++◌ " = " value) n.no_hash
      ∙ ap (String.◌++◌ key) (before-append is_hash " = " value refl)

  body_of-key_line : body_of (key_line key value) ≡ String.◌++◌ key (after_key value_left)
  unfolding body_of after_key
  body_of-key_line =
      let tail = String.◌++◌ " = " value_left in
      ap (strip is_space) no_comment
      ∙ ap (strip_right is_space) (strip_left-kept is_space key tail n.some_text n.no_space)
      ∙ strip_right-append is_space key tail (ap is_blank (strip_right-after_key value_left))
      ∙ ap (String.◌++◌ key) (strip_right-after_key value_left)

  key_line_header : is_header (String.◌++◌ key (after_key value_left)) ≡ false
  unfolding is_header
  key_line_header =
      ground (arith, first-has is_open_bracket key (after_key value_left) n.some_text n.no_bracket)

  key_line_equals : has is_equals (String.◌++◌ key (after_key value_left)) ≡ true
  unfolding after_key has
  key_line_equals = ground (arith, has-append is_equals key (after_key value_left), n.no_equals)

  before_equals : before is_equals (String.◌++◌ key (after_key value_left)) ≡ String.◌++◌ key " "
  unfolding after_key before
  before_equals = before-append is_equals key (after_key value_left) n.no_equals

  strip_spaced : strip is_space (String.◌++◌ key " ") ≡ key
  unfolding strip_right
  strip_spaced =
      ap (strip_right is_space) (strip_left-kept is_space key " " n.some_text n.no_space)
      ∙ strip_right-dropped is_space key " " n.no_space refl

  line_key-key_line : line_key (String.◌++◌ key (after_key value_left)) ≡ key
  unfolding line_key
  line_key-key_line = rw (key_line_equals, before_equals) strip_spaced

  key_line_kind :
      (section : String) → kind_of section key section (body_of (key_line key value)) ≡ own_key
  unfolding kind_of
  key_line_kind section =
      rw (body_of-key_line, key_line_header, line_key-key_line, eq_refl section, eq_refl key) refl

  blank_line_kind : (section current : String) → kind_of section key current (body_of "") ≡ other
  unfolding kind_of body_of before strip_left strip_right is_header line_key has
  blank_line_kind section current = rw (not_blank key n.some_text) (ground arith)

abbrev open_char : Char
open_char = char 91 tt

abbrev close_char : Char
close_char = char 93 tt

module _ (section : String) (n : IsName section) where
  section_first :
      section_line section ≡ String.◌∷◌ open_char (String.◌++◌ section (String.◌∷◌ close_char ""))
  section_first =
      rw (cons-append open_char "" (String.◌++◌ section "]"), nil-append (String.◌++◌ section "]"))

  no_comment_section : before is_hash (section_line section) ≡ section_line section
  unfolding before has
  no_comment_section =
      before-append is_hash "[" (String.◌++◌ section "]") refl
      ∙ ap (String.◌++◌ "[") (before-append is_hash section "]" n.no_hash)

  section_end : strip_right is_space (String.◌++◌ section "]") ≡ String.◌++◌ section "]"
  unfolding strip_right
  section_end = strip_right-append is_space section "]" refl

  body_of-section_line : body_of (section_line section) ≡ section_line section
  unfolding body_of has
  body_of-section_line =
      ap (strip is_space) no_comment_section
      ∙ ap (strip_right is_space) (strip_left-kept is_space "[" (String.◌++◌ section "]") refl refl)
      ∙ strip_right-append is_space "[" (String.◌++◌ section "]")
          (ap is_blank section_end ∙ nonblank section close_char)
      ∙ ap (String.◌++◌ "[") section_end

  section_is_header : is_header (section_line section) ≡ true
  unfolding is_header last_is
  section_is_header =
      rw (section_first)
        (rw (nonblank section close_char, last_is-append is_close_bracket section close_char) refl)

  section_header_name : header_name (section_line section) ≡ section
  unfolding header_name
  section_header_name =
      rw (section_first) (rw (without_last-append section close_char) (strip-name section n))

  section_line_kind :
      (key current : String)
      → kind_of section key current (body_of (section_line section)) ≡ header section
  unfolding kind_of
  section_line_kind key current =
      rw (body_of-section_line, section_is_header, section_header_name) refl

-- The names of a section and of a key, whatever the value is.
pub names-IsLegible :
    (section key value : String) → IsName section → IsName key → IsLegible section key value
names-IsLegible section key value s k = record {
  key_read = key_line_kind key value k section;
  header_read = λ current. section_line_kind section s key current;
  blank_read = λ current. blank_line_kind key value k section current;
}
