-- ===== src/Filesystem/Paths.antt =====
-- A path, its temporary and its backup are three different files.
use Prim.Native.String
use text.Mathlib.TextLemmas.{append_cancel_left, append-nil}
use c_py_nodus_ii.Prelude.{String, ◌≡◌, ◌≢◌, sym, ◌∙◌, false, arith, eq_iff, str_eq}
use c_py_nodus_ii.Filesystem.Defs.{bak, tmp}

pub str_eq-ne : (p q : String) → p ≢ q → str_eq p q ≡ false
str_eq-ne p q h = ground (arith, eq_iff p q)

append-ne : (p s : String) → s ≢ String.[] → String.◌++◌ p s ≢ p
append-ne p s h e = h (append_cancel_left p s String.[] (e ∙ sym (append-nil p)))

bak-ne : (p : String) → bak p ≢ p
bak-ne p = append-ne p ".bak" (ground (arith, eq_iff ".bak" ""))

tmp-ne : (p : String) → tmp p ≢ p
tmp-ne p = append-ne p ".tmp" (ground (arith, eq_iff ".tmp" ""))

bak-ne-tmp : (p : String) → bak p ≢ tmp p
bak-ne-tmp p e = absurd (different (append_cancel_left p ".bak" ".tmp" e))
  where
    different : ◌≢◌ {A = String} ".bak" ".tmp"
    different = ground (arith, eq_iff ".bak" ".tmp")

-- The tests between the three paths, as they come out.
pub record IsApart (path tmp_path backup_path : String) : Type 0 where
  pub live_bak : str_eq path backup_path ≡ false
  pub live_tmp : str_eq path tmp_path ≡ false
  pub bak_live : str_eq backup_path path ≡ false
  pub bak_tmp : str_eq backup_path tmp_path ≡ false
  pub tmp_live : str_eq tmp_path path ≡ false
  pub tmp_bak : str_eq tmp_path backup_path ≡ false

pub suffixes-IsApart : (p : String) → IsApart p (tmp p) (bak p)
suffixes-IsApart p = record {
  live_bak = str_eq-ne p (bak p) (λ e. bak-ne p (sym e));
  live_tmp = str_eq-ne p (tmp p) (λ e. tmp-ne p (sym e));
  bak_live = str_eq-ne (bak p) p (bak-ne p);
  bak_tmp = str_eq-ne (bak p) (tmp p) (bak-ne-tmp p);
  tmp_live = str_eq-ne (tmp p) p (tmp-ne p);
  tmp_bak = str_eq-ne (tmp p) (bak p) (λ e. bak-ne-tmp p (sym e));
}
