-- ===== src/Logs/Trim.antt =====
-- A trimmed log is a tail of the log, and keeps its newest entry.
use c_py_nodus_ii.Prelude.{
  ℕ, zero, suc, ◌-◌, ◌≤◌, ◌<◌, ◌≡◌, refl, ap, sym, ◌∙◌, true, false, some, List, [], ◌∷◌, ◌++◌,
  length, take, drop, take-append-drop, length-append, length-drop, arith, ltb, leb, leb→le,
  Bool-cases, inl, inr,
}
use mathlib.Core.List.{append_assoc}
use c_py_nodus_ii.Logs.{
  is_prefix, marker, find_marker, skip_continuation, cut_tail, trim_reboot_log, append_entry,
}

drop-append : (n : ℕ) (xs ys : List ℕ) → n ≤ length xs → drop n (xs ++ ys) ≡ drop n xs ++ ys
drop-append zero xs ys h = refl
drop-append (suc n) [] ys h = ground (arith, h)
drop-append (suc n) (x ∷ xs) ys h = drop-append n xs ys (omega (arith, h))

no_marker : is_prefix marker [] ≡ true → ⊥
unfolding is_prefix
no_marker h = ground (arith, h)

find_marker-append :
    (xs entry : List ℕ)
    → is_prefix marker entry ≡ true
    → (n : ℕ) × (find_marker (xs ++ entry) ≡ some n) × (n ≤ length xs)
unfolding find_marker
find_marker-append [] [] h = elim (no_marker h) [ ]
find_marker-append [] (b ∷ entry) h = (0, rw (find_marker, h) refl, omega arith)
find_marker-append (x ∷ xs) entry h =
    let (n, found, bound) = find_marker-append xs entry h in
    elim (Bool-cases (is_prefix marker (x ∷ (xs ++ entry)))) [
      | inl e ↦ (0, rw (find_marker, e) refl, omega arith)
      | inr e ↦ (suc n, rw (find_marker, e, found) refl, omega (arith, bound))
    ]

-- A text that begins with a marker begins with no continuation byte.
skip-marked : (bytes : List ℕ) → is_prefix marker bytes ≡ true → skip_continuation bytes ≡ bytes
unfolding skip_continuation is_prefix
skip-marked [] h = refl
skip-marked (b ∷ bytes) h = ground (arith, h)

found_zero : (bytes : List ℕ) → find_marker bytes ≡ some 0 → is_prefix marker bytes ≡ true
unfolding find_marker
found_zero [] h = ground (arith, h)
found_zero (b ∷ bytes) h = ground (arith, h)

-- What is kept of a text before an entry.
abbrev IsKept : List ℕ → List ℕ → List ℕ → Type 0
IsKept xs entry out =
    (dropped : List ℕ) × (kept : List ℕ) × (xs ≡ dropped ++ kept) × (out ≡ kept ++ entry)

cut_tail-append :
    (xs entry : List ℕ) → is_prefix marker entry ≡ true → IsKept xs entry (cut_tail (xs ++ entry))
unfolding cut_tail
cut_tail-append xs entry h =
    let (n, found, bound) = find_marker-append xs entry h in
    elim (Bool-cases (ltb 0 n)) [
      | inl e ↦ (
        take n xs,
        drop n xs,
        sym (take-append-drop n xs),
        rw (cut_tail, found, e) (drop-append n xs entry bound),
      )
      | inr e ↦
          let none_before : n ≡ 0 = ground (arith, e) in
          (
            [],
            xs,
            refl,
            rw (cut_tail, found, e)
                (skip-marked (xs ++ entry)
                  (found_zero (xs ++ entry) (found ∙ ap some none_before))),
          )
    ]

leb-false : (a b : ℕ) → leb a b ≡ false → b < a
leb-false a b h = ground (arith, h)

append_long :
    (max_bytes : ℕ) (content entry : List ℕ)
    → is_prefix marker entry ≡ true
    → length entry ≤ max_bytes
    → leb (length (content ++ entry)) max_bytes ≡ false
    → (dropped : List ℕ) × (kept : List ℕ) × (content ≡ dropped ++ kept)
      × (append_entry max_bytes content entry ≡ kept ++ entry)
      × (length (kept ++ entry) ≤ max_bytes)
unfolding append_entry trim_reboot_log
append_long max_bytes content entry h fits long =
    let over = length (content ++ entry) - max_bytes in
    let total = length-append content entry in
    let before : over ≤ length content = omega (arith, total, fits) in
    let (dropped, kept, split, cut) = cut_tail-append (drop over content) entry h in
    (
      take over content ++ dropped,
      kept,
      sym (take-append-drop over content)
          ∙ ap (λ ys. take over content ++ ys) split
          ∙ sym (append_assoc (take over content) dropped kept),
      rw (long, drop-append over content entry before) cut,
      omega (
        arith,
        length-append kept entry,
        length-append dropped kept,
        ap length split,
        length-drop over content,
        total,
        leb-false (length (content ++ entry)) max_bytes long,
      ),
    )

-- An entry that begins with the marker and fits into the limit: after it has been appended, the log
-- is within the limit and is a tail of the old log, followed by the whole entry.
pub append_entry-kept :
    (max_bytes : ℕ) (content entry : List ℕ)
    → is_prefix marker entry ≡ true
    → length entry ≤ max_bytes
    → (dropped : List ℕ) × (kept : List ℕ) × (content ≡ dropped ++ kept)
      × (append_entry max_bytes content entry ≡ kept ++ entry)
      × (length (kept ++ entry) ≤ max_bytes)
unfolding append_entry trim_reboot_log
append_entry-kept max_bytes content entry h fits =
    elim (Bool-cases (leb (length (content ++ entry)) max_bytes)) [
      | inl e ↦ ([], content, refl, rw e refl, leb→le _ _ e)
      | inr e ↦ append_long max_bytes content entry h fits e
    ]
