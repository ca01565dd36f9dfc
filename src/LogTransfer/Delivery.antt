-- ===== src/LogTransfer/Delivery.antt =====
-- A transfer from its first chunk to its result.
use c_py_nodus_ii.Prelude.{
  ℕ, zero, suc, ◌+◌, ◌<◌, ◌≡◌, refl, sym, ap, subst, ◌∙◌, true, false, none, some, List, [], ◌∷◌,
  ◌++◌, length, take, drop, take-append-drop, length-drop, length-append, arith, not, if◌then◌else◌,
}
use c_py_nodus_ii.Prelude.Text.{is_space, strip}
use c_py_nodus_ii.LogTransfer.{LogTransferSession, checksum32, checksum_hex, fnv_seed}
use c_py_nodus_ii.LogTransfer.Checksum.{checksum32-append}
use c_py_nodus_ii.LogTransfer.Session.{
  Ack, publish, ack, Transport, Device, advance, completion, send, read_and_send, continue,
  command_result, ignored, logs_topic, process_log_transfer_session,
}
use c_py_nodus_ii.LogTransfer.Messages.{
  append_assoc, drop-append, append-nil, end_of, rounds, received, chunk_count, last_result,
  received-append, chunk_count-append, last_result-append, Delivered,
}

module _ {ℓ} {T : Type ℓ} where
  module _ (d : Device T) where
    process-idle :
        (t : Transport T) → t.log_transfer_session ≡ none → (process_log_transfer_session d t).1 ≡ t
    unfolding process_log_transfer_session continue
    process-idle t e = rw e refl

    idle-rounds : (k : ℕ) (t : Transport T) → t.log_transfer_session ≡ none → rounds d k t ≡ t
    unfolding rounds
    idle-rounds zero t e = refl
    idle-rounds (suc k) t e = ap (rounds d k) (process-idle t e) ∙ idle-rounds k t e

    process-sends :
        (t : Transport T) (s : LogTransferSession) (bytes : List ℕ)
        → t.connected ≡ true
        → t.log_transfer_session ≡ some s
        → d.files s.path ≡ some bytes
        → process_log_transfer_session d t ≡ send d s (take s.chunk_size (drop s.offset bytes)) t
    unfolding process_log_transfer_session continue read_and_send
    process-sends t s bytes c e f =
        ap (λ o. continue d o t) e
        ∙ ap
            (λ b.
              if not b
              then (command_result ignored "" 0 [] s.message_id false, t)
              else read_and_send d s (d.files s.path) t)
            c
        ∙ ap (λ o. read_and_send d s o t) f

  module _ (d : Device T) (a2b : T → List ℕ)
      (codec : (bytes : List ℕ) → a2b (d.b2a_base64 bytes) ≡ bytes) where
    sent-idle :
        (t : Transport T) (s : LogTransferSession) → (send d s [] t).1.log_transfer_session ≡ none
    unfolding send
    sent-idle t s = refl

    sent-session :
        (t : Transport T) (s : LogTransferSession) (x : ℕ) (xs : List ℕ)
        → (send d s (x ∷ xs) t).1.log_transfer_session ≡ some (advance d s (x ∷ xs))
    unfolding send
    sent-session t s x xs = refl

    sent-connected :
        (t : Transport T) (s : LogTransferSession) (x : ℕ) (xs : List ℕ)
        → t.connected ≡ true
        → (send d s (x ∷ xs) t).1.connected ≡ true
    unfolding send
    sent-connected t s x xs c = c

    completion-end :
        (s : LogTransferSession) (bytes : List ℕ)
        → s.file_checksum ≡ checksum32 bytes fnv_seed
        → completion d s ≡ end_of s bytes 0
    completion-end s bytes e =
        let no_more : s.sequence ≡ s.sequence + 0 = omega arith in
        ap (λ n. record (completion d s) { chunks = n }) no_more
        ∙ ap (λ n. record (end_of s bytes 0) { checksum = checksum_hex n }) e

    -- The round that finds nothing more to read.
    last_round :
        (t : Transport T) (s : LogTransferSession) (bytes : List ℕ)
        → s.file_checksum ≡ checksum32 bytes fnv_seed
        → Delivered a2b t (send d s [] t).1 s bytes [] 0
    unfolding send received chunk_count last_result
    last_round t s bytes e = (
      refl,
      received-append a2b t.published _,
      chunk_count-append t.published _,
      last_result-append t.published _ none ∙ ap some (completion-end s bytes e),
    )

    -- A round that sends a chunk, before rounds that send the rest.
    chunk_round :
        (t t' : Transport T) (s : LogTransferSession) (bytes : List ℕ) (x : ℕ) (xs rest : List ℕ)
        (n : ℕ)
        → Delivered a2b (send d s (x ∷ xs) t).1 t' (advance d s (x ∷ xs)) bytes rest n
        → Delivered a2b t t' s bytes (x ∷ xs ++ rest) (suc n)
    unfolding send received chunk_count last_result
    chunk_round t t' s bytes x xs rest n (idle, got, count, end) =
        let sent : received a2b (send d s (x ∷ xs) t).1.published
            ≡ received a2b t.published ++ (x ∷ xs) =
          received-append a2b t.published _
          ∙ ap (λ r. received a2b t.published ++ r) (append-nil _ ∙ codec (x ∷ xs)) in
        let one : chunk_count (send d s (x ∷ xs) t).1.published ≡ chunk_count t.published + 1 =
          chunk_count-append t.published _ in
        let sum : (s.sequence + 1) + n ≡ s.sequence + suc n = omega arith in
        (
          idle,
          got ∙ ap (λ r. r ++ rest) sent ∙ append_assoc (received a2b t.published) (x ∷ xs) rest,
          omega (arith, count, one),
          end ∙ ap (λ m. some (record (end_of s bytes n) { chunks = m })) sum,
        )

    step_to :
        (t : Transport T) (s : LogTransferSession) (bytes sent rest : List ℕ)
        → t.connected ≡ true
        → t.log_transfer_session ≡ some s
        → d.files s.path ≡ some bytes
        → bytes ≡ sent ++ rest
        → s.offset ≡ length sent
        → (process_log_transfer_session d t).1 ≡ (send d s (take s.chunk_size rest) t).1
    step_to t s bytes sent rest c e f split o =
        ap (λ r. r.1)
          (process-sends d t s bytes c e f
            ∙ ap (λ r. (send d s (take s.chunk_size r) t))
                (ap (λ i. drop i bytes) o ∙ ap (drop (length sent)) split ∙ drop-append sent rest))

    -- `k` rounds send what is left of a file, where `sent` has been sent.
    pub deliver :
        (k : ℕ) (t : Transport T) (s : LogTransferSession) (sent rest : List ℕ) (m : ℕ)
        (bytes : List ℕ)
        → t.connected ≡ true
        → t.log_transfer_session ≡ some s
        → d.files s.path ≡ some bytes
        → bytes ≡ sent ++ rest
        → s.offset ≡ length sent
        → s.file_checksum ≡ checksum32 sent fnv_seed
        → s.chunk_size ≡ suc m
        → length rest < k
        → (n : ℕ) × Delivered a2b t (rounds d k t) s bytes rest n
    unfolding rounds
    deliver zero t s sent rest m bytes c e f split o h p l = absurd (ground (arith, l))
    deliver (suc k) t s sent [] m bytes c e f split o h p l =
        let step =
          step_to t s bytes sent [] c e f split o ∙ ap (λ n. (send d s (take n []) t).1) p in
        (
          0,
          subst (λ t'. Delivered a2b t t' s bytes [] 0)
              (sym (ap (rounds d k) step ∙ idle-rounds d k _ (sent-idle t s)))
              (last_round t s bytes
                (h ∙ ap (λ b. checksum32 b fnv_seed) (sym (split ∙ append-nil sent)))),
        )
    deliver (suc k) t s sent (x ∷ xs) m bytes c e f split o h p l =
        let step =
          step_to t s bytes sent (x ∷ xs) c e f split o
          ∙ ap (λ n. (send d s (take n (x ∷ xs)) t).1) p in
        let chunked = x ∷ take m xs in
        let (n, delivered) =
          deliver k ((send d s chunked t).1) (advance d s chunked) (sent ++ chunked) (drop m xs) m
            bytes (sent-connected t s x (take m xs) c) (sent-session t s x (take m xs)) f
            (split
              ∙ ap (λ r. sent ++ (x ∷ r)) (sym (take-append-drop m xs))
              ∙ sym (append_assoc sent chunked (drop m xs)))
            (ap (λ i. i + length chunked) o ∙ sym (length-append sent chunked))
            (ap (λ i. checksum32 chunked i) h ∙ checksum32-append sent chunked fnv_seed) p
            (omega (arith, l, length-drop m xs)) in
        (
          suc n,
          subst (λ r. Delivered a2b t (rounds d (suc k) t) s bytes (x ∷ r) (suc n))
              (take-append-drop m xs)
              (subst
                (λ t'.
                  Delivered a2b t (rounds d k t') s bytes (x ∷ (take m xs ++ drop m xs)) (suc n))
                (sym step)
                (chunk_round t (rounds d k (send d s chunked t).1) s bytes x (take m xs) (drop m xs)
                  n delivered)),
        )

    -- An acknowledgement before a transfer carries nothing of it.
    pub Delivered-ack :
        (t t' : Transport T) (a : Ack) (s : LogTransferSession) (bytes rest : List ℕ) (n : ℕ)
        → Delivered a2b (publish d "ack" (ack a) t) t' s bytes rest n
        → Delivered a2b t t' s bytes rest n
    unfolding received chunk_count
    Delivered-ack t t' a s bytes rest n (idle, got, count, end) = (
      idle,
      got ∙ ap (λ r. r ++ rest) (received-append a2b t.published _ ∙ append-nil _),
      omega (
        arith,
        count,
        chunk_count-append t.published (
            record {
              topic = strip is_space (logs_topic d "ack");
              payload = ack a;
              timestamp = d.time;
            }
            ∷ []),
      ),
      end,
    )
