-- ===== src/LogTransfer/Requests.antt =====
-- What a request for a log may open, what both handlers count, and a request served to its end.
use c_py_nodus_ii.Prelude.{
  ℕ, zero, suc, ◌+◌, ◌≤◌, ◌≡◌, ◌⊎◌, inl, inr, refl, sym, ap, subst, String, Bool, true, false,
  Option, none, some, List, [], ◌∷◌, ◌++◌, length, length-append, arith, if-elim,
}
use c_py_nodus_ii.Prelude.Int.{ℤ, pos, negsuc}
use c_py_nodus_ii.Prelude.Text.{is_blank}
use c_py_nodus_ii.LogTransfer.{
  LogTransferSession, LogTransferCommand, Request, parse_log_transfer_command, build_session,
  session_for, log_path, is_allowed, requested_log, safe_filename, normalize_chunk_size, fnv_seed,
  checksum32, checksum_loop,
}
use c_py_nodus_ii.LogTransfer.Session.{
  Transport, Device, set_session, CommandResult, accept, handle, is_member,
  process_log_transfer_message,
}
use c_py_nodus_ii.LogTransfer.Messages.{rounds, Delivered}
use c_py_nodus_ii.LogTransfer.Delivery.{Delivered-ack, deliver}

-- The bounds of a chunk, and its being positive.
normalize_chunk_size-bounds :
    (n : ℤ) → (1 ≤ normalize_chunk_size n) × (normalize_chunk_size n ≤ 1024)
unfolding normalize_chunk_size
normalize_chunk_size-bounds (pos zero) = ground arith
normalize_chunk_size-bounds (pos (suc n)) = ground arith
normalize_chunk_size-bounds (negsuc n) = ground arith

-- A session that a request may open: of one of the two logs, in the settings folder, from its first
-- byte, in chunks of 1 to 1024 bytes, with the size that the file has.
abbrev pub Opened {ℓ} : {T : Type ℓ} → Device T → LogTransferSession → Type 0
Opened d s =
    (is_allowed s.filename ≡ true)
    × (s.path ≡ log_path d.settings_root s.filename)
    × ((bytes : List ℕ) × (d.files s.path ≡ some bytes) × (s.size ≡ length bytes))
    × (s.offset ≡ 0)
    × (s.sequence ≡ 0)
    × (1 ≤ s.chunk_size)
    × (s.chunk_size ≤ 1024)

-- A request: it keeps the session or opens one, and counts its publications.
abbrev pub Answered {ℓ} :
    {T : Type ℓ} → Device T → Transport T → CommandResult × Transport T → Type 0
Answered d t (r, t') =
    ((t'.log_transfer_session ≡ t.log_transfer_session)
      ⊎ ((s : LogTransferSession) × (t'.log_transfer_session ≡ some s) × Opened d s))
    × (length t'.published ≡ length t.published + r.published_count)

length-two {ℓ} :
    {A : Type ℓ} (xs : List A) (a b : A) → length ((xs ++ a ∷ []) ++ b ∷ []) ≡ length xs + 2
length-two xs a b = omega (arith, length-append (xs ++ a ∷ []) (b ∷ []), length-append xs (a ∷ []))

module _ {ℓ} {T : Type ℓ} (d : Device T) where
  -- The session that the request opens.
  abbrev pub session_of : Request → List ℕ → LogTransferSession
  session_of r bytes = record {
    message_id = r.message_id;
    filename = safe_filename r.filename;
    path = log_path d.settings_root (safe_filename r.filename);
    size = length bytes;
    chunk_size = normalize_chunk_size r.chunk_size;
    offset = 0;
    sequence = 0;
    file_checksum = fnv_seed;
  }

  safe_filename-is_allowed :
      (name : String)
      → is_blank (safe_filename name) ≡ false
      → is_allowed (safe_filename name) ≡ true
  unfolding safe_filename
  safe_filename-is_allowed name =
      if-elim (λ r. is_blank r ≡ false → is_allowed r ≡ true) (is_allowed (requested_log name))
        (requested_log name) "" (λ e _. e) (λ _ e. ground (arith, e))

  abbrev OpenedIf : LogTransferSession ⊎ String → Type 0
  OpenedIf (inl s) = Opened d s
  OpenedIf (inr code) = Unit

  session_for-Opened :
      (c : LogTransferCommand) (filename : String) (o : Option (List ℕ))
      → 1 ≤ c.chunk_size
      → c.chunk_size ≤ 1024
      → is_allowed filename ≡ true
      → d.files (log_path d.settings_root filename) ≡ o
      → OpenedIf (session_for c filename (log_path d.settings_root filename) o)
  unfolding session_for
  session_for-Opened c filename none l u a e = tt
  session_for-Opened c filename (some bytes) l u a e = (a, refl, (bytes, e, refl), refl, refl, l, u)

  build_session-Opened :
      (c : LogTransferCommand)
      → 1 ≤ c.chunk_size
      → c.chunk_size ≤ 1024
      → OpenedIf (build_session c d.settings_root d.files)
  unfolding build_session
  build_session-Opened c l u =
      if-elim OpenedIf _ _ _ (λ _. tt)
        λ e.
          session_for-Opened c (safe_filename c.filename) _ l u
            (safe_filename-is_allowed c.filename e) refl

  accept-Answered :
      (topic : String) (c : LogTransferCommand) (r : LogTransferSession ⊎ String) (t : Transport T)
      → OpenedIf r
      → Answered d t (accept d topic c r t)
  unfolding accept
  accept-Answered topic c (inl s) t o = (inr (s, refl, o), length-append t.published _)
  accept-Answered topic c (inr code) t o = (inl refl, length-two t.published _ _)

  command-Answered :
      (topic : String) (duplicates : List String) (c : LogTransferCommand) (t : Transport T)
      → 1 ≤ c.chunk_size
      → c.chunk_size ≤ 1024
      → Answered d t (handle d topic duplicates (some c) t)
  unfolding handle
  command-Answered topic duplicates c t l u =
      if-elim (Answered d t) (is_member c.message_id duplicates) _ _
        (λ _. (inl refl, length-two t.published _ _))
        (λ _. accept-Answered topic c _ t (build_session-Opened c l u))

  handle-Answered :
      (topic : String) (duplicates : List String) (p : Option Request) (t : Transport T)
      → Answered d t (handle d topic duplicates (parse_log_transfer_command p) t)
  unfolding handle parse_log_transfer_command
  handle-Answered topic duplicates none t = (inl refl, length-two t.published _ _)
  handle-Answered topic duplicates (some r) t =
      let (l, u) = normalize_chunk_size-bounds r.chunk_size in
      if-elim (λ c. Answered d t (handle d topic duplicates c t)) (is_blank r.message_id) none _
        (λ _. (inl refl, length-two t.published _ _))
        (λ _. command-Answered topic duplicates _ t l u)

  -- A request keeps the transfer that is under way or opens one, of one of the two allowed logs, in
  -- the settings folder, from its first byte and in chunks of 1 to 1024 bytes; and it publishes as
  -- many messages as its result counts.
  pub request_opens_only_logs :
      (topic : String) (blank : Bool) (p : Option Request) (duplicates : List String)
      (t : Transport T)
      → Answered d t (process_log_transfer_message d topic blank p duplicates t)
  unfolding process_log_transfer_message
  request_opens_only_logs topic blank p duplicates t =
      if-elim (Answered d t) blank _ _ (λ _. (inl refl, omega arith))
        (λ _. handle-Answered topic duplicates p t)

  -- The command that the request is read as.
  abbrev command_of : Request → LogTransferCommand
  command_of r = record {
    message_id = r.message_id;
    filename = r.filename;
    chunk_size = normalize_chunk_size r.chunk_size;
  }

  request-accepted :
      (topic : String) (r : Request) (duplicates : List String) (t : Transport T) (bytes : List ℕ)
      → is_blank r.message_id ≡ false
      → is_member r.message_id duplicates ≡ false
      → is_blank (safe_filename r.filename) ≡ false
      → d.files (log_path d.settings_root (safe_filename r.filename)) ≡ some bytes
      → process_log_transfer_message d topic false (some r) duplicates t
        ≡ accept d topic (command_of r) (inl (session_of r bytes)) t
  unfolding process_log_transfer_message handle parse_log_transfer_command build_session session_for
  request-accepted topic r duplicates t bytes m dup name file =
      let path = log_path d.settings_root (safe_filename r.filename) in rw (m, dup, name, file) refl

  positive : (n : ℕ) → 1 ≤ n → (m : ℕ) × (n ≡ suc m)
  positive zero l = absurd (ground (arith, l))
  positive (suc m) l = (m, refl)

  -- A request for a log that is there, from its acceptance to its last message: with a decoder of
  -- `b2a_base64` a receiver puts together the bytes of the file, and the result gives their number
  -- and checksum and how many chunks there were. One round more than there are bytes is enough.
  pub request_delivers_file :
      (a2b : T → List ℕ) (topic : String) (r : Request) (duplicates : List String) (t : Transport T)
      (bytes : List ℕ)
      → ((xs : List ℕ) → a2b (d.b2a_base64 xs) ≡ xs)
      → t.connected ≡ true
      → is_blank r.message_id ≡ false
      → is_member r.message_id duplicates ≡ false
      → is_blank (safe_filename r.filename) ≡ false
      → d.files (log_path d.settings_root (safe_filename r.filename)) ≡ some bytes
      → let t1 = (process_log_transfer_message d topic false (some r) duplicates t).1 in
        (n : ℕ) × Delivered a2b t
          (rounds d (suc (length bytes)) t1)
          (session_of r bytes)
          bytes
          bytes
          n
  unfolding accept checksum32 checksum_loop
  request_delivers_file a2b topic r duplicates t bytes codec c m dup name file =
      let accepted = ap (λ p. p.1) (request-accepted topic r duplicates t bytes m dup name file) in
      let (i, size) =
        positive (normalize_chunk_size r.chunk_size) (normalize_chunk_size-bounds r.chunk_size).0 in
      let t1 = (accept d topic (command_of r) (inl (session_of r bytes)) t).1 in
      let (n, delivered) =
        deliver d a2b codec (suc (length bytes)) t1 (session_of r bytes) [] bytes i bytes c refl
          file refl refl refl size (omega arith) in
      (
        n,
        subst
            (λ t'.
              Delivered a2b t (rounds d (suc (length bytes)) t') (session_of r bytes) bytes bytes n)
            (sym accepted)
            (Delivered-ack d a2b codec (set_session (some (session_of r bytes)) t)
              (rounds d (suc (length bytes)) t1) _ (session_of r bytes) bytes bytes n delivered),
      )
