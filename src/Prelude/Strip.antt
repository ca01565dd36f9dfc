-- ===== src/Prelude/Strip.antt =====
-- How the text methods act on texts that are put together.
use Prim.Native.String.{String}
use Prim.Native.String
use Prim.Native.Char.{Char}
use text.Mathlib.TextLemmas.{nil-append, cons-append, append-nil}
use mathlib.Core.Path.{◌≡◌, refl, ap, sym, ◌∙◌}
use mathlib.Core.Logic.{inl, inr}
use mathlib.Core.Bool.{Bool, false, ◌||◌}
use native.Mathlib.Omega.{arith}
use c_py_nodus_ii.Prelude.Tests.{Bool-cases}
use c_py_nodus_ii.Prelude.Text.{
  has, before, strip, strip_left, strip_right, is_blank, last_is, without_last,
}

pub nonblank_append : (a b : String) → is_blank b ≡ false → is_blank (String.◌++◌ a b) ≡ false
nonblank_append String.[] b n = rw (nil-append b) n
nonblank_append (String.◌∷◌ c a) b n = rw (cons-append c a b)

pub nonblank : (a : String) (c : Char) → is_blank (String.◌++◌ a (String.◌∷◌ c "")) ≡ false
nonblank a c = nonblank_append a (String.◌∷◌ c "") refl

pub has-weaken :
    (f g : Char → Bool)
    → ((c : Char) → g c ≡ false → f c ≡ false)
    → (s : String) → has g s ≡ false
    → has f s ≡ false
unfolding has
has-weaken f g w String.[] h = refl
has-weaken f g w (String.◌∷◌ c s) h =
    let here = w c (ground (arith, h)) in
    ground (arith, here, has-weaken f g w s (ground (arith, h)))

module _ (f : Char → Bool) where
  pub has-append : (a b : String) → has f (String.◌++◌ a b) ≡ (has f a || has f b)
  unfolding has
  has-append String.[] b = rw (nil-append b)
  has-append (String.◌∷◌ c a) b = rw (cons-append c a b) (ground (arith, has-append a b))

  pub before-append :
      (a b : String) → has f a ≡ false → before f (String.◌++◌ a b) ≡ String.◌++◌ a (before f b)
  unfolding has before
  before-append String.[] b h = rw (nil-append b, nil-append (before f b))
  before-append (String.◌∷◌ c a) b h = elim (Bool-cases (f c)) [
    | inl e ↦ ground (arith, h, e)
    | inr e ↦
        rw (cons-append c a b, cons-append c a (before f b), before)
          (rw (e, before-append a b (ground (arith, h, e))) refl)
  ]

  pub strip_left-kept :
      (a b : String)
      → is_blank a ≡ false
      → has f a ≡ false
      → strip_left f (String.◌++◌ a b) ≡ String.◌++◌ a b
  unfolding has strip_left
  strip_left-kept String.[] b n h = ground (arith, n)
  strip_left-kept (String.◌∷◌ c a) b n h = rw (cons-append c a b) (ground (arith, h))

  -- What is left of the second text keeps the first one.
  pub strip_right-append :
      (a b : String)
      → is_blank (strip_right f b) ≡ false
      → strip_right f (String.◌++◌ a b) ≡ String.◌++◌ a (strip_right f b)
  unfolding strip_right
  strip_right-append String.[] b n = rw (nil-append b, nil-append (strip_right f b))
  strip_right-append (String.◌∷◌ c a) b n =
      rw (cons-append c a b, cons-append c a (strip_right f b), strip_right)
        (rw (strip_right-append a b n) (ground (arith, nonblank_append a (strip_right f b) n)))

  -- Nothing is left of the second text, and no character of the first one goes.
  pub strip_right-dropped :
      (a b : String) → has f a ≡ false → strip_right f b ≡ "" → strip_right f (String.◌++◌ a b) ≡ a
  unfolding has strip_right
  strip_right-dropped String.[] b h e = rw (nil-append b) e
  strip_right-dropped (String.◌∷◌ c a) b h e =
      rw (cons-append c a b, strip_right)
        (rw (strip_right-dropped a b (ground (arith, h)) e) (ground (arith, h)))

  pub last_is-append : (a : String) (c : Char) → last_is f (String.◌++◌ a (String.◌∷◌ c "")) ≡ f c
  unfolding last_is
  last_is-append String.[] c = rw (nil-append (String.◌∷◌ c ""))
  last_is-append (String.◌∷◌ d a) c =
      rw (cons-append d a (String.◌∷◌ c ""), last_is) (rw (nonblank a c, last_is-append a c) refl)

pub without_last-append :
    (a : String) (c : Char) → without_last (String.◌++◌ a (String.◌∷◌ c "")) ≡ a
unfolding without_last
without_last-append String.[] c = rw (nil-append (String.◌∷◌ c ""))
without_last-append (String.◌∷◌ d a) c =
    rw (cons-append d a (String.◌∷◌ c ""), without_last)
      (rw (nonblank a c, without_last-append a c) refl)

-- A text that holds none of the characters is not changed by `strip`.
pub strip-plain : (f : Char → Bool) (s : String) → has f s ≡ false → strip f s ≡ s
unfolding strip_left strip_right has
strip-plain f String.[] h = refl
strip-plain f (String.◌∷◌ c s) h =
    let e = append-nil (String.◌∷◌ c s) in
    let kept = strip_left-kept f (String.◌∷◌ c s) "" refl h in
    let kept' = ap (strip_left f) (sym e) ∙ kept ∙ e in
    rw (kept') (ap (strip_right f) (sym e) ∙ strip_right-dropped f (String.◌∷◌ c s) "" h refl)
