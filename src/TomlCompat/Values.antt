-- ===== src/TomlCompat/Values.antt =====
-- The texts of the values that the node writes, and the values that the loader makes of them.
use Prim.Native.String
use Prim.Native.Char.{Char, code}
use text.Mathlib.TextLemmas.{append-nil}
use c_py_nodus_ii.Prelude.{
  ℕ, zero, suc, ◌/◌, ◌%◌, String, Bool, true, false, not, ◌&&◌, ◌≡◌, refl, sym, ap, ◌∙◌, some,
  arith, ◌==◌, leb, ltb, if-elim,
}
use c_py_nodus_ii.Prelude.Text.{
  strip_left, strip_right, is_space, is_blank, has, digit, digits, decimal, same_upper, first_is,
}
use c_py_nodus_ii.Prelude.Strip.{
  strip_left-kept, strip_right-dropped, has-append, has-weaken, nonblank_append, strip-plain,
}
use c_py_nodus_ii.Prelude.Int.{ℤ, pos, negsuc}
use c_py_nodus_ii.ScalarPersistence.{Scalar, flag, integer, escape, signed}
use c_py_nodus_ii.TomlCompat.{
  strip_comment_from, Numbers, parse_value, plain_value, format_value, is_quote, is_float_mark,
}
use c_py_nodus_ii.TomlCompat.RoundTrip.{
  is_special, comment-plain, parse_value-text, comment-escape, left-quoted, right-quoted, in_quotes,
  quoted_cons, quote_char,
}
use c_py_nodus_ii.TomlCompat.Setting.{IsValueText}

pub text_value :
    (numbers : Numbers) (s : String) → IsValueText numbers (in_quotes (escape s)) (Scalar.text s)
unfolding strip_comment_from
text_value numbers s = record {
  some_text = ap is_blank (quoted_cons (escape s));
  left = left-quoted (escape s);
  right = right-quoted (escape s);
  no_comment =
      ap (strip_comment_from false false) (quoted_cons (escape s))
      ∙ ap (String.◌∷◌ quote_char) (comment-escape s)
      ∙ sym (quoted_cons (escape s));
  value = parse_value-text numbers s;
}

-- Neither a digit nor the minus sign.
abbrev pub is_other : Char → Bool
is_other c = not (leb 48 (code c) && leb (code c) 57) && not (code c == 45)

abbrev pub IsNumeral : String → Type 0
IsNumeral s = (has is_other s ≡ false) × (is_blank s ≡ false)

digit-IsNumeral : (n : ℕ) → IsNumeral (digit n)
unfolding has
digit-IsNumeral n =
    if-elim IsNumeral (n == 0) _ _ (λ _. (refl, refl))
      λ _.
        if-elim IsNumeral (n == 1) _ _ (λ _. (refl, refl))
          λ _.
            if-elim IsNumeral (n == 2) _ _ (λ _. (refl, refl))
              λ _.
                if-elim IsNumeral (n == 3) _ _ (λ _. (refl, refl))
                  λ _.
                    if-elim IsNumeral (n == 4) _ _ (λ _. (refl, refl))
                      λ _.
                        if-elim IsNumeral (n == 5) _ _ (λ _. (refl, refl))
                          λ _.
                            if-elim IsNumeral (n == 6) _ _ (λ _. (refl, refl))
                              λ _.
                                if-elim IsNumeral (n == 7) _ _ (λ _. (refl, refl))
                                  λ _.
                                    if-elim IsNumeral (n == 8) _ _ (λ _. (refl, refl))
                                      λ _. (refl, refl)

append-IsNumeral :
    (a b : String) → has is_other a ≡ false → IsNumeral b → IsNumeral (String.◌++◌ a b)
append-IsNumeral a b h (k, n) = (has-append is_other a b ∙ rw (h, k) refl, nonblank_append a b n)

digits-other : (fuel n : ℕ) → has is_other (digits fuel n) ≡ false
unfolding has
digits-other zero n = refl
digits-other (suc fuel) n =
    if-elim (λ s. has is_other s ≡ false) (ltb n 10) _ _ (λ _. (digit-IsNumeral n).0)
      (λ _.
        (append-IsNumeral (digits fuel (n / 10)) (digit (n % 10)) (digits-other fuel (n / 10))
          (digit-IsNumeral (n % 10))).0)

decimal-IsNumeral : (n : ℕ) → IsNumeral (decimal n)
decimal-IsNumeral n =
    if-elim IsNumeral (ltb n 10) _ _ (λ _. digit-IsNumeral n)
      (λ _.
        append-IsNumeral (digits n (n / 10)) (digit (n % 10)) (digits-other n (n / 10))
          (digit-IsNumeral (n % 10)))

pub signed-IsNumeral : (n : ℤ) → IsNumeral (signed n)
unfolding has
signed-IsNumeral (pos n) = decimal-IsNumeral n
signed-IsNumeral (negsuc n) =
    append-IsNumeral "-" (decimal (suc n)) refl (decimal-IsNumeral (suc n))

not_true : (s : String) → IsNumeral s → same_upper s "true" ≡ false
unfolding has same_upper
not_true String.[] n = refl
not_true (String.◌∷◌ c s) n = ground (arith, n.0)

not_false : (s : String) → IsNumeral s → same_upper s "false" ≡ false
unfolding has same_upper
not_false String.[] n = refl
not_false (String.◌∷◌ c s) n = ground (arith, n.0)

not_quoted : (s : String) → IsNumeral s → first_is is_quote s ≡ false
unfolding has
not_quoted String.[] n = refl
not_quoted (String.◌∷◌ c s) n = ground (arith, n.0)

-- A text that is no more than letters, digits and signs to the loader.
plain_value_text :
    (numbers : Numbers) (s : String) (v : Scalar)
    → is_blank s ≡ false
    → has is_space s ≡ false
    → has is_special s ≡ false
    → first_is is_quote s ≡ false
    → plain_value numbers s ≡ v
    → IsValueText numbers s v
unfolding strip_comment_from parse_value strip_right
plain_value_text numbers s v some_text no_space plain unquoted value = record {
  some_text = some_text;
  left =
      ap (strip_left is_space) (sym (append-nil s))
      ∙ strip_left-kept is_space s "" some_text no_space
      ∙ append-nil s;
  right =
      ap (strip_right is_space) (sym (append-nil s))
      ∙ strip_right-dropped is_space s "" no_space refl;
  no_comment =
      ap (strip_comment_from false false) (sym (append-nil s))
      ∙ comment-plain s "" plain
      ∙ append-nil s;
  value = rw (strip-plain is_space s no_space) (ground (arith, unquoted, value));
}

pub flag_value :
    (numbers : Numbers) (b : Bool) → IsValueText numbers (format_value (flag b)) (flag b)
unfolding has plain_value same_upper format_value
flag_value numbers true = plain_value_text numbers "true" (flag true) refl refl refl refl refl
flag_value numbers false = plain_value_text numbers "false" (flag false) refl refl refl refl refl

pub integer_value :
    (numbers : Numbers) (n : ℤ)
    → numbers.as_int (signed n) ≡ some n
    → IsValueText numbers (signed n) (integer n)
unfolding plain_value
integer_value numbers n reads =
    let numeral = signed-IsNumeral n in
    plain_value_text numbers (signed n) (integer n) numeral.1
      (has-weaken is_space is_other (λ c h. ground (arith, h)) (signed n) numeral.0)
      (has-weaken is_special is_other (λ c h. ground (arith, h)) (signed n) numeral.0)
      (not_quoted (signed n) numeral)
      (rw
        (
          not_true (signed n) numeral,
          not_false (signed n) numeral,
          has-weaken is_float_mark is_other (λ c h. ground (arith, h)) (signed n) numeral.0,
          reads,
        )
        refl)
