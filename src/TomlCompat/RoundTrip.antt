-- ===== src/TomlCompat/RoundTrip.antt =====
-- The loader reads the line of a setting back as it was written.
use Prim.Native.String
use Prim.Native.Char.{Char, char}
use text.Mathlib.TextLemmas.{nil-append, cons-append}
use c_py_nodus_ii.Prelude.{
  String, Bool, true, false, ◌||◌, ◌≡◌, refl, ap, ◌∙◌, none, some, arith, inl, inr, Bool-cases,
  if◌then◌else◌,
}
use c_py_nodus_ii.Prelude.Text.{
  strip, strip_left, strip_right, is_space, is_blank, is_backslash, has, first_is, last_is, inner,
}
use c_py_nodus_ii.Prelude.Strip.{strip_right-append, last_is-append, nonblank, without_last-append}
use c_py_nodus_ii.ScalarPersistence.{Scalar, escape, is_hash}
use c_py_nodus_ii.TomlCompat.{
  is_quote, strip_comment_from, replace_escaped, unescape, Numbers, parse_value, without_first,
}

-- A waiting backslash stays before what was escaped.
replace-waiting :
    (b : Char) (s : String)
    → replace_escaped is_quote (some b) (escape s)
      ≡ String.◌∷◌ b (replace_escaped is_quote none (escape s))
unfolding replace_escaped escape
replace-waiting b String.[] = refl
replace-waiting b (String.◌∷◌ c s) = ground arith

-- The text with every backslash twice.
doubled : String → String
doubled String.[] = ""
doubled (String.◌∷◌ c s) =
    let rest = doubled s in
    if is_backslash c then String.◌∷◌ c (String.◌∷◌ c rest) else String.◌∷◌ c rest

replace-quotes : (s : String) → replace_escaped is_quote none (escape s) ≡ doubled s
unfolding replace_escaped escape doubled
replace-quotes String.[] = refl
replace-quotes (String.◌∷◌ c s) = ground (arith, replace-quotes s, replace-waiting c s)

replace-backslashes : (s : String) → replace_escaped is_backslash none (doubled s) ≡ s
unfolding replace_escaped doubled
replace-backslashes String.[] = refl
replace-backslashes (String.◌∷◌ c s) = ground (arith, replace-backslashes s)

unescape-escape : (s : String) → unescape (escape s) ≡ s
unfolding unescape
unescape-escape s = rw (replace-quotes s) (replace-backslashes s)

abbrev pub quote_char : Char
quote_char = char 34 tt

abbrev pub in_quotes : String → String
in_quotes s = String.◌++◌ (String.◌∷◌ quote_char s) (String.◌∷◌ quote_char "")

module _ (s : String) where
  pub quoted_cons : in_quotes s ≡ String.◌∷◌ quote_char (String.◌++◌ s (String.◌∷◌ quote_char ""))
  quoted_cons = cons-append quote_char s (String.◌∷◌ quote_char "")

  pub left-quoted : strip_left is_space (in_quotes s) ≡ in_quotes s
  unfolding strip_left
  left-quoted = rw quoted_cons refl

  pub right-quoted : strip_right is_space (in_quotes s) ≡ in_quotes s
  unfolding strip_right
  right-quoted =
      strip_right-append is_space (String.◌∷◌ quote_char s) (String.◌∷◌ quote_char "") refl

  strip-quoted : strip is_space (in_quotes s) ≡ in_quotes s
  strip-quoted = ap (strip_right is_space) left-quoted ∙ right-quoted

  first-quoted : first_is is_quote (in_quotes s) ≡ true
  first-quoted = rw quoted_cons refl

  last-quoted : last_is is_quote (in_quotes s) ≡ true
  last-quoted = last_is-append is_quote (String.◌∷◌ quote_char s) quote_char

  more-quoted : is_blank (without_first (in_quotes s)) ≡ false
  more-quoted = rw quoted_cons (nonblank s quote_char)

  inner-quoted : inner (in_quotes s) ≡ s
  inner-quoted = rw quoted_cons (without_last-append s quote_char)

-- The value of a text.
pub parse_value-text :
    (numbers : Numbers) (s : String) → parse_value numbers (in_quotes (escape s)) ≡ Scalar.text s
unfolding parse_value
parse_value-text numbers s =
    rw
      (
        strip-quoted (escape s),
        first-quoted (escape s),
        last-quoted (escape s),
        more-quoted (escape s),
        inner-quoted (escape s),
      )
      (ap Scalar.text (unescape-escape s))

-- The loop goes over a text without quotes, backslashes and "#" as it is.
abbrev pub is_special : Char → Bool
is_special c = is_quote c || is_backslash c || is_hash c

pub comment-plain :
    (a b : String)
    → has is_special a ≡ false
    → strip_comment_from false false (String.◌++◌ a b)
      ≡ String.◌++◌ a (strip_comment_from false false b)
unfolding strip_comment_from has
comment-plain String.[] b h = rw (nil-append b, nil-append (strip_comment_from false false b)) refl
comment-plain (String.◌∷◌ c a) b h =
    rw (cons-append c a b, cons-append c a (strip_comment_from false false b))
      (ground (arith, h, comment-plain a b))

-- And over an escaped text, up to the quote that closes it.
pub comment-escape :
    (s : String)
    → strip_comment_from true false (String.◌++◌ (escape s) (String.◌∷◌ quote_char ""))
      ≡ String.◌++◌ (escape s) (String.◌∷◌ quote_char "")
unfolding strip_comment_from escape
comment-escape String.[] = refl
comment-escape (String.◌∷◌ c s) =
    let end = String.◌∷◌ quote_char "" in
    let rest = cons-append c (escape s) end in
    elim (Bool-cases (is_backslash c)) [
      | inl e ↦
          let q : is_quote c ≡ false = ground (arith, e) in
          let h : is_hash c ≡ false = ground (arith, e) in
          rw (e, cons-append c (String.◌∷◌ c (escape s)) end, rest, strip_comment_from, q, h)
            (rw (e, comment-escape s) refl)
      | inr e ↦ elim (Bool-cases (is_quote c)) [
        | inl q ↦
            let h : is_hash c ≡ false = ground (arith, q) in
            rw
              (
                e,
                q,
                cons-append (char 92 tt) (String.◌∷◌ c (escape s)) end,
                rest,
                strip_comment_from,
              )
              (rw (q, h, e, comment-escape s) refl)
        | inr q ↦ rw (e, q, rest, strip_comment_from) (rw (q, e) (ground (arith, comment-escape s)))
      ]
    ]
