-- ===== src/LogTransfer/Messages.antt =====
-- What a receiver reads of the messages of features/log_transfer.py, and the rounds that publish them.
use c_py_nodus_ii.Prelude.{
  ℕ, zero, suc, ◌+◌, ◌≡◌, refl, sym, ap, ◌∙◌, true, false, Option, none, some, List, [], ◌∷◌, ◌++◌,
  length, drop, arith,
}
use c_py_nodus_ii.LogTransfer.{LogTransferSession, checksum32, checksum_hex, fnv_seed}
use c_py_nodus_ii.LogTransfer.Session.{
  Payload, ack, chunk, result, Result, Publication, Transport, Device, process_log_transfer_session,
}

pub append_assoc {ℓ} : {A : Type ℓ} (xs ys zs : List A) → (xs ++ ys) ++ zs ≡ xs ++ (ys ++ zs)
append_assoc [] ys zs = refl
append_assoc (x ∷ xs) ys zs = ap (λ r. x ∷ r) (append_assoc xs ys zs)

-- The result of a transfer of `bytes` in `n` chunks from `s`.
abbrev pub end_of : LogTransferSession → List ℕ → ℕ → Result
end_of s bytes n = record {
  message_id = s.message_id;
  complete = true;
  duplicate = false;
  filename = s.filename;
  size = s.size;
  chunks = s.sequence + n;
  checksum = checksum_hex (checksum32 bytes fnv_seed);
  error = "";
}

pub drop-append {ℓ} : {A : Type ℓ} (xs ys : List A) → drop (length xs) (xs ++ ys) ≡ ys
drop-append [] ys = refl
drop-append (x ∷ xs) ys = drop-append xs ys

pub append-nil {ℓ} : {A : Type ℓ} (xs : List A) → xs ++ [] ≡ xs
append-nil [] = refl
append-nil (x ∷ xs) = ap (λ r. x ∷ r) (append-nil xs)

module _ {ℓ} {T : Type ℓ} where
  -- `k` rounds of the loop on a device that does not change.
  unfoldable pub rounds : Device T → ℕ → Transport T → Transport T
  rounds d zero t = t
  rounds d (suc k) t = rounds d k (process_log_transfer_session d t).1

  abbrev bytes_in : (T → List ℕ) → Payload T → List ℕ
  bytes_in a2b (chunk c) = a2b c.data_text
  bytes_in a2b (ack a) = []
  bytes_in a2b (result r) = []

  -- The bytes that a receiver puts together from the chunks.
  unfoldable pub received : (T → List ℕ) → List (Publication T) → List ℕ
  received a2b [] = []
  received a2b (p ∷ ps) = bytes_in a2b p.payload ++ received a2b ps

  abbrev chunks_in : Payload T → ℕ
  chunks_in (chunk c) = 1
  chunks_in (ack a) = 0
  chunks_in (result r) = 0

  -- How many chunks there are.
  unfoldable pub chunk_count : List (Publication T) → ℕ
  chunk_count [] = 0
  chunk_count (p ∷ ps) = chunks_in p.payload + chunk_count ps

  abbrev result_in : Payload T → Option Result → Option Result
  result_in (result r) _ = some r
  result_in (ack a) old = old
  result_in (chunk c) old = old

  -- The newest result.
  unfoldable pub last_result : List (Publication T) → Option Result → Option Result
  last_result [] old = old
  last_result (p ∷ ps) old = last_result ps (result_in p.payload old)

  pub received-append :
      (a2b : T → List ℕ) (ps qs : List (Publication T))
      → received a2b (ps ++ qs) ≡ received a2b ps ++ received a2b qs
  unfolding received
  received-append a2b [] qs = refl
  received-append a2b (p ∷ ps) qs =
      ap (λ r. bytes_in a2b p.payload ++ r) (received-append a2b ps qs)
      ∙ sym (append_assoc (bytes_in a2b p.payload) (received a2b ps) (received a2b qs))

  pub chunk_count-append :
      (ps qs : List (Publication T)) → chunk_count (ps ++ qs) ≡ chunk_count ps + chunk_count qs
  unfolding chunk_count
  chunk_count-append [] qs = omega arith
  chunk_count-append (p ∷ ps) qs = ground (arith, chunk_count-append ps qs)

  pub last_result-append :
      (ps qs : List (Publication T)) (old : Option Result)
      → last_result (ps ++ qs) old ≡ last_result qs (last_result ps old)
  unfolding last_result
  last_result-append [] qs old = refl
  last_result-append (p ∷ ps) qs old = last_result-append ps qs _

  -- What the messages of `t'` say beside those of `t`: the rest of the bytes came, in `n` chunks.
  abbrev pub Delivered :
      (T → List ℕ) → Transport T → Transport T → LogTransferSession → List ℕ → List ℕ → ℕ → Type 0
  Delivered a2b t t' s bytes rest n =
      (t'.log_transfer_session ≡ none)
      × (received a2b t'.published ≡ received a2b t.published ++ rest)
      × (chunk_count t'.published ≡ chunk_count t.published + n)
      × (last_result t'.published none ≡ some (end_of s bytes n))
