-- ===== src/Prelude/Text.antt =====
-- The text methods of Python that the components share, over characters by their numbers.
use Prim.Native.Nat.{ℕ, zero, suc, ◌+◌, ◌-◌, ◌*◌, ◌/◌, ◌%◌}
use Prim.Native.String.{String}
use Prim.Native.String
use Prim.Native.Char.{Char, code}
use mathlib.Core.Bool.{Bool, true, false, ◌&&◌, ◌||◌}
use mathlib.Core.Path.{◌≡◌, refl}
use mathlib.Core.Logic.{inl, inr}
use text.Mathlib.TextLemmas.{nil-append, cons-append}
use native.Mathlib.Omega.{arith}
use mathlib.Core.Option.{Option, none, some}
use c_py_nodus_ii.Prelude.Tests.{◌==◌, leb, ltb, if◌then◌else◌, Bool-cases}

abbrev pub is_slash : Char → Bool
is_slash c = code c == 47

abbrev pub is_backslash : Char → Bool
is_backslash c = code c == 92

-- The spaces that MicroPython's `strip` takes off.
abbrev pub is_space : Char → Bool
is_space c = code c == 32 || (leb 9 (code c) && leb (code c) 13)

abbrev pub is_newline : Char → Bool
is_newline c = code c == 10

abbrev pub is_return : Char → Bool
is_return c = code c == 13

-- Where `splitlines` of MicroPython ends a line.
abbrev pub is_line_break : Char → Bool
is_line_break c = is_newline c || is_return c

abbrev pub is_blank : String → Bool
is_blank String.[] = true
is_blank (String.◌∷◌ c s) = false

unfoldable pub strip_left : (Char → Bool) → String → String
strip_left f String.[] = String.[]
strip_left f (String.◌∷◌ c s) = let rest = strip_left f s in if f c then rest else String.◌∷◌ c s

unfoldable pub strip_right : (Char → Bool) → String → String
strip_right f String.[] = String.[]
strip_right f (String.◌∷◌ c s) =
    let rest = strip_right f s in if f c && is_blank rest then String.[] else String.◌∷◌ c rest

-- `s.strip(...)`, by the characters to take off
abbrev pub strip : (Char → Bool) → String → String
strip f s = strip_right f (strip_left f s)

unfoldable pub has : (Char → Bool) → String → Bool
has f String.[] = false
has f (String.◌∷◌ c s) = f c || has f s

-- `s.rsplit(c, 1)[-1]`
unfoldable pub after_last : (Char → Bool) → String → String
after_last f String.[] = String.[]
after_last f (String.◌∷◌ c s) =
    let rest = after_last f s in if has f s then rest else if f c then s else String.◌∷◌ c s

abbrev pub digit : ℕ → String
digit n =
    if n == 0
    then "0"
    else if n == 1
    then "1"
    else if n == 2
    then "2"
    else if n == 3
    then "3"
    else if n == 4
    then "4"
    else if n == 5
    then "5"
    else if n == 6
    then "6"
    else if n == 7
    then "7"
    else if n == 8
    then "8"
    else "9"

-- The decimal digits of a number below 10 ^ fuel.
abbrev pub digits : ℕ → ℕ → String
digits zero n = ""
digits (suc fuel) n =
    let rest = digits fuel (n / 10) in
    if ltb n 10 then digit n else String.◌++◌ rest (digit (n % 10))

-- `str(n)`
abbrev pub decimal : ℕ → String
decimal n = digits (suc n) n

abbrev more_digits : String → ℕ → Option ℕ
more_digits String.[] n = some n
more_digits (String.◌∷◌ c s) n =
    let rest = more_digits s (10 * n + (code c - 48)) in
    if leb 48 (code c) && leb (code c) 57 then rest else none

-- `int(text)` of a text of digits, and `none` for another text.
abbrev pub decimal_value : String → Option ℕ
decimal_value s = if is_blank s then none else more_digits s 0

abbrev pub is_colon : Char → Bool
is_colon c = code c == 58

abbrev starts_with_colon : String → Bool
starts_with_colon String.[] = false
starts_with_colon (String.◌∷◌ c s) = is_colon c

abbrev skip_one : String → String
skip_one String.[] = String.[]
skip_one (String.◌∷◌ c s) = s

-- What stands after the first "::".
unfoldable pub after_colons : String → Option String
after_colons String.[] = none
after_colons (String.◌∷◌ c s) =
    let rest = after_colons s in
    if is_colon c && starts_with_colon s then some (skip_one s) else rest

-- `s.split("::", 1)[-1]`
abbrev pub suffix_of : String → String
suffix_of s = elim (after_colons s) [ none ↦ s | some t ↦ t ]

-- `s[:n]`
abbrev pub text_take : ℕ → String → String
text_take zero s = ""
text_take (suc n) String.[] = ""
text_take (suc n) (String.◌∷◌ c s) = String.◌∷◌ c (text_take n s)

-- `s.startswith(p)`, by the characters' numbers
unfoldable pub has_prefix : String → String → Bool
has_prefix String.[] s = true
has_prefix (String.◌∷◌ c p) String.[] = false
has_prefix (String.◌∷◌ c p) (String.◌∷◌ d s) = code c == code d && has_prefix p s

abbrev with_first : Char → Option (String × String) → Option (String × String)
with_first c none = none
with_first c (some (a, b)) = some (String.◌∷◌ c a, b)

-- The texts before and after the first character of the kind.
unfoldable pub split_at : (Char → Bool) → String → Option (String × String)
split_at f String.[] = none
split_at f (String.◌∷◌ c s) =
    let rest = with_first c (split_at f s) in if f c then some (String.[], s) else rest

pub has_prefix-append : (p s : String) → has_prefix p (String.◌++◌ p s) ≡ true
unfolding has_prefix
has_prefix-append String.[] s = refl
has_prefix-append (String.◌∷◌ c p) s =
    rw (cons-append c p s) (ground (arith, has_prefix-append p s))

-- A text without such a character, then one, then any text.
pub split_at-append :
    (f : Char → Bool) (a : String) (c : Char) (b : String)
    → has f a ≡ false
    → f c ≡ true
    → split_at f (String.◌++◌ a (String.◌∷◌ c b)) ≡ some (a, b)
unfolding has split_at
split_at-append f String.[] c b h k = rw (nil-append (String.◌∷◌ c b), split_at, k)
split_at-append f (String.◌∷◌ d a) c b h k =
    rw (cons-append d a (String.◌∷◌ c b), split_at)
      (elim (Bool-cases (f d)) [
        | inl e ↦ ground (arith, h, e)
        | inr e ↦ rw (e, split_at-append f a c b (ground (arith, h, e)) k) refl
      ])

-- `s.split(c, 1)[0]`
unfoldable pub before : (Char → Bool) → String → String
before f String.[] = String.[]
before f (String.◌∷◌ c s) = let rest = before f s in if f c then String.[] else String.◌∷◌ c rest

abbrev pub first_is : (Char → Bool) → String → Bool
first_is f String.[] = false
first_is f (String.◌∷◌ c s) = f c

unfoldable pub last_is : (Char → Bool) → String → Bool
last_is f String.[] = false
last_is f (String.◌∷◌ c s) = let rest = last_is f s in if is_blank s then f c else rest

-- Without the last character.
unfoldable pub without_last : String → String
without_last String.[] = String.[]
without_last (String.◌∷◌ c s) =
    let rest = without_last s in if is_blank s then String.[] else String.◌∷◌ c rest

-- `s[1:-1]`
abbrev pub inner : String → String
inner String.[] = String.[]
inner (String.◌∷◌ c s) = without_last s

-- The number of the character in `s.upper()`.
abbrev pub upper_code : Char → ℕ
upper_code c = if leb 97 (code c) && leb (code c) 122 then code c - 32 else code c

-- `s.upper() == t`
unfoldable pub upper_is : String → String → Bool
upper_is String.[] String.[] = true
upper_is String.[] (String.◌∷◌ d t) = false
upper_is (String.◌∷◌ c s) String.[] = false
upper_is (String.◌∷◌ c s) (String.◌∷◌ d t) = upper_code c == code d && upper_is s t

-- `s.upper() == t.upper()`
unfoldable pub same_upper : String → String → Bool
same_upper String.[] String.[] = true
same_upper String.[] (String.◌∷◌ d t) = false
same_upper (String.◌∷◌ c s) String.[] = false
same_upper (String.◌∷◌ c s) (String.◌∷◌ d t) = upper_code c == upper_code d && same_upper s t
