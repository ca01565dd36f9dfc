-- ===== src/LogTransfer/Checksum.antt =====
-- The checksum of features/log_transfer.py, taken in pieces.
use c_py_nodus_ii.Prelude.{ℕ, ◌%◌, ◌<◌, ◌≡◌, refl, List, [], ◌∷◌, ◌++◌, arith}
use c_py_nodus_ii.LogTransfer.{checksum_loop, checksum32}

checksum_loop-append :
    (xs ys : List ℕ) (s : ℕ) → checksum_loop s (xs ++ ys) ≡ checksum_loop (checksum_loop s xs) ys
unfolding checksum_loop
checksum_loop-append [] ys s = refl
checksum_loop-append (x ∷ xs) ys s = checksum_loop-append xs ys _

checksum_loop-bounded :
    (xs : List ℕ) (s : ℕ) → s < 4_294_967_296 → checksum_loop s xs < 4_294_967_296
unfolding checksum_loop
checksum_loop-bounded [] s b = b
checksum_loop-bounded (x ∷ xs) s b = checksum_loop-bounded xs _ (omega arith)

-- The checksum of a text in two pieces, the first one's being the seed of the second's.
pub checksum32-append :
    (xs ys : List ℕ) (s : ℕ) → checksum32 ys (checksum32 xs s) ≡ checksum32 (xs ++ ys) s
unfolding checksum32
checksum32-append xs ys s =
    let bounded = checksum_loop-bounded xs (s % 4_294_967_296) (omega arith) in
    let same : checksum_loop (s % 4_294_967_296) xs % 4_294_967_296
        ≡ checksum_loop (s % 4_294_967_296) xs =
      omega (arith, bounded) in
    rw (same, checksum_loop-append xs ys (s % 4_294_967_296))
