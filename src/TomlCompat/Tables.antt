-- ===== src/TomlCompat/Tables.antt =====
-- `loads` of core/toml_compat.py: the nested tables that the lines of a file build. The table that
-- `current` refers to is given by its path; `none` is the exception of a path through a scalar.
use c_py_nodus_ii.Prelude.{
  String, Bool, ◌≡◌, refl, sym, ap, ◌∙◌, Option, none, some, List, [], ◌∷◌, str_eq, arith, eq_iff,
  if◌then◌else◌, Bool-cases, inl, inr, ◌==◌, false, true,
}
use Prim.Native.String
use Prim.Native.Char.{Char, char, code}
use text.Mathlib.TextLemmas.{nil-append, cons-append}
use c_py_nodus_ii.Prelude.Text.{
  strip, is_space, is_blank, is_newline, is_return, is_line_break, has,
}
use c_py_nodus_ii.ScalarPersistence.{Scalar}
use c_py_nodus_ii.TomlCompat.{Numbers, ignored, header, setting, read_line}

mutual
  pub data Table : Type 0 where
    no_entries : Table
    entry : String → Entry → Table → Table

  pub data Entry : Type 0 where
    scalar : Scalar → Entry
    table : Table → Entry

unfoldable pub find : String → Table → Option Entry
find key no_entries = none
find key (entry k e rest) = if str_eq k key then some e else find key rest

-- `table[key] = value`
unfoldable pub put : String → Entry → Table → Table
put key e no_entries = entry key e no_entries
put key e (entry k old rest) =
    let later = put key e rest in if str_eq k key then entry k e rest else entry k old later

pub find-put : (key : String) (e : Entry) (t : Table) → find key (put key e t) ≡ some e
unfolding find put
find-put key e no_entries = ground (arith, eq_iff key key)
find-put key e (entry k old rest) = elim (Bool-cases (str_eq k key)) [
  | inl h ↦ rw h (rw h refl)
  | inr h ↦ rw h (rw h (find-put key e rest))
]

abbrev put_table : String → Table → Option Table → Option Table
put_table key t none = none
put_table key t (some u) = some (put key (table u) t)

-- The table under a key, a new one where there is none; `none` for a scalar.
abbrev inner_table : Option Entry → Option Table
inner_table none = some no_entries
inner_table (some (table u)) = some u
inner_table (some (scalar s)) = none

abbrev at_inner : (Table → Option Table) → Option Table → Option Table
at_inner f none = none
at_inner f (some t) = f t

-- A change of the table at a path, whose missing tables are made.
unfoldable pub change : (Table → Option Table) → List String → Table → Option Table
unfolding find put
change f [] t = f t
change f (p ∷ ps) t = put_table p t (at_inner (change f ps) (inner_table (find p t)))

-- `current[key] = value`, where `current` has the path.
abbrev pub set_value : String → Scalar → List String → Table → Option Table
set_value key value path t = change (λ u. some (put key (scalar value) u)) path t

-- `document[...][key]`
unfoldable pub entry_at : List String → String → Table → Option Entry
unfolding find
entry_at [] key t = find key t
entry_at (p ∷ ps) key t = elim (find p t) [
  | none ↦ none
  | some e ↦ elim e [ scalar s ↦ none | table u ↦ entry_at ps key u ]
]

unfoldable pub set_default : String → Table → Option Table
unfolding find put
set_default key t = elim (find key t) [
  | none ↦ some (put key (table no_entries) t)
  | some e ↦ some t
]

-- The loop of `setdefault`; only the tables on the way to the last part are asked for more.
unfoldable pub open_section : List String → Table → Option Table
unfolding change set_default
open_section [] t = some t
open_section (p ∷ []) t = set_default p t
open_section (p ∷ q ∷ ps) t =
    put_table p t (at_inner (open_section (q ∷ ps)) (inner_table (find p t)))

abbrev is_dot : Char → Bool
is_dot c = code c == 46

abbrev with_first : Char → List String → List String
with_first c [] = String.◌∷◌ c "" ∷ []
with_first c (p ∷ ps) = String.◌∷◌ c p ∷ ps

-- `s.split(".")`
unfoldable pub split_dots : String → List String
split_dots String.[] = "" ∷ []
split_dots (String.◌∷◌ c s) =
    let rest = split_dots s in if is_dot c then "" ∷ rest else with_first c rest

abbrev stripped_all : List String → List String
stripped_all [] = []
stripped_all (p ∷ ps) = strip is_space p ∷ stripped_all ps

abbrev parts : String → List String
parts section = stripped_all (split_dots section)

-- `loads`, from a line on: the document and the path of `current`
unfoldable pub loads_from : Numbers → List String → Table → List String → Option Table
unfolding read_line change open_section split_dots
loads_from numbers [] document current = some document
loads_from numbers (line ∷ lines) document current = elim (read_line numbers line) [
  | ignored ↦ loads_from numbers lines document current
  | header section ↦
      if is_blank section
      then loads_from numbers lines document []
      else elim (open_section (parts section) document) [
        | none ↦ none
        | some opened ↦ loads_from numbers lines opened (parts section)
      ]
  | setting key value ↦ elim (set_value key value current document) [
    | none ↦ none
    | some changed ↦ loads_from numbers lines changed current
  ]
]

-- `text.splitlines()`, with whether a return has just been read, which a newline belongs to
unfoldable pub splitlines_from : Bool → String → List String
splitlines_from after_return String.[] = []
splitlines_from after_return (String.◌∷◌ c s) =
    let rest = splitlines_from false s in
    let behind_return = splitlines_from true s in
    if is_newline c
    then (if after_return then rest else "" ∷ rest)
    else if is_return c
    then "" ∷ behind_return
    else with_first c rest

abbrev pub splitlines : String → List String
splitlines = splitlines_from false

unfoldable pub loads : Numbers → String → Option Table
unfolding loads_from
loads numbers text = loads_from numbers (splitlines text) no_entries []

-- A line with no line break in it is the first that is split off.
pub splitlines-line :
    (line text : String)
    → has is_line_break line ≡ false
    → splitlines (String.◌++◌ line (String.◌++◌ "\n" text)) ≡ line ∷ splitlines text
unfolding splitlines_from has
splitlines-line String.[] text h =
    rw (nil-append (String.◌++◌ "\n" text), cons-append (char 10 tt) "" text, nil-append text) refl
splitlines-line (String.◌∷◌ c line) text h =
    rw (cons-append c line (String.◌++◌ "\n" text), splitlines_from)
      (ground (arith, h, splitlines-line line text (ground (arith, h))))

change_inner :
    (p key : String) (ps : List String) (value : Scalar) (t u t' : Table)
    → find p t' ≡ some (table u)
    → entry_at ps key u ≡ some (scalar value)
    → entry_at (p ∷ ps) key t' ≡ some (scalar value)
unfolding entry_at
change_inner p key ps value t u t' f e = rw (f, entry_at) e

-- The step of the next lemma, with what the path's first part holds and what becomes of it.
module _ (p key : String) (ps : List String) (value : Scalar) (t t' : Table)
    (ih : (u w : Table)
      → set_value key value ps u ≡ some w
      → entry_at ps key w ≡ some (scalar value)) where
  entry_at-placed :
      (u : Table) (c : Option Table)
      → set_value key value ps u ≡ c
      → put_table p t c ≡ some t'
      → entry_at (p ∷ ps) key t' ≡ some (scalar value)
  entry_at-placed u none e h = ground (arith, h)
  entry_at-placed u (some w) e h =
      let same : put p (table w) t ≡ t' = ground (arith, h) in
      change_inner p key ps value t w t' (ap (find p) (sym same) ∙ find-put p (table w) t)
        (ih u w e)

  entry_at-opened :
      (o : Option Table)
      → put_table p t (at_inner (set_value key value ps) o) ≡ some t'
      → entry_at (p ∷ ps) key t' ≡ some (scalar value)
  entry_at-opened none h = ground (arith, h)
  entry_at-opened (some u) h = entry_at-placed u (set_value key value ps u) refl h

-- What a setting puts at its path is found there.
pub entry_at-set_value :
    (path : List String) (key : String) (value : Scalar) (t t' : Table)
    → set_value key value path t ≡ some t'
    → entry_at path key t' ≡ some (scalar value)
unfolding change entry_at
entry_at-set_value [] key value t t' e =
    let same : put key (scalar value) t ≡ t' = ground (arith, e) in
    ap (find key) (sym same) ∙ find-put key (scalar value) t
entry_at-set_value (p ∷ ps) key value t t' e =
    entry_at-opened p key ps value t t' (entry_at-set_value ps key value) (inner_table (find p t)) e
