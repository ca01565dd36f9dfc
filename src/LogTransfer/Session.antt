-- ===== src/LogTransfer/Session.antt =====
-- The two handlers of features/log_transfer.py and what they publish.
use c_py_nodus_ii.Prelude.{
  ℕ, ◌+◌, ◌⊎◌, inl, inr, String, Bool, true, false, not, ◌||◌, Option, none, some, List, [], ◌∷◌,
  ◌++◌, length, take, drop, str_eq, if◌then◌else◌,
}
use c_py_nodus_ii.Prelude.Text.{is_space, strip}
use c_py_nodus_ii.Topics.{mqtt_topic}
use c_py_nodus_ii.LogTransfer.{
  LogTransferSession, LogTransferCommand, Request, Files, parse_log_transfer_command, build_session,
  safe_filename, checksum32, checksum_hex, fnv_seed,
}

-- The payload of `_ack_payload`; a field that is empty or 0 is left out of the JSON.
pub record Ack : Type 0 where
  pub message_id : String
  pub accepted : Bool
  pub duplicate : Bool
  pub filename : String
  pub size : ℕ
  pub chunk_size : ℕ
  pub error : String

-- The payload of `_result_payload`, with the same fields left out.
pub record Result : Type 0 where
  pub message_id : String
  pub complete : Bool
  pub duplicate : Bool
  pub filename : String
  pub size : ℕ
  pub chunks : ℕ
  pub checksum : String
  pub error : String

-- The payload of a chunk; `T` is what `b2a_base64` returns.
pub record Chunk {ℓ} (T : Type ℓ) : Type ℓ where
  pub message_id : String
  pub filename : String
  pub sequence : ℕ
  pub offset : ℕ
  pub next_offset : ℕ
  pub size : ℕ
  pub data_text : T
  pub checksum : String

pub data Payload {ℓ} (T : Type ℓ) : Type ℓ where
  ack : Ack → Payload T
  chunk : Chunk T → Payload T
  result : Result → Payload T

-- A message on a topic, not retained, at a time.
pub record Publication {ℓ} (T : Type ℓ) : Type ℓ where
  pub topic : String
  pub payload : Payload T
  pub timestamp : ℕ

pub record Transport {ℓ} (T : Type ℓ) : Type ℓ where
  pub connected : Bool
  pub log_transfer_session : Option LogTransferSession
  pub published : List (Publication T)

pub data Phase : Type 0 where
  ignored published error : Phase

-- `CommandResult`, without the configuration that it passes on.
pub record CommandResult : Type 0 where
  pub phase : Phase
  pub topic : String
  pub published_count : ℕ
  pub errors : List String
  pub message_id : String
  pub duplicate : Bool

abbrev pub command_result : Phase → String → ℕ → List String → String → Bool → CommandResult
command_result phase topic published_count errors message_id duplicate = record {
  phase = phase;
  topic = topic;
  published_count = published_count;
  errors = errors;
  message_id = message_id;
  duplicate = duplicate;
}

abbrev pub plain_ack : String → Bool → Bool → String → Ack
plain_ack message_id accepted duplicate code = record {
  message_id = message_id;
  accepted = accepted;
  duplicate = duplicate;
  filename = "";
  size = 0;
  chunk_size = 0;
  error = code;
}

abbrev pub plain_result : String → Bool → Bool → String → String → Result
plain_result message_id complete duplicate filename code = record {
  message_id = message_id;
  complete = complete;
  duplicate = duplicate;
  filename = filename;
  size = 0;
  chunks = 0;
  checksum = "";
  error = code;
}

-- What the handlers take from the configuration and the firmware: the topic prefix, `_device_id`,
-- the time, the files and `b2a_base64` without its newline.
pub record Device {ℓ} (T : Type ℓ) : Type ℓ where
  pub base_topic : String
  pub device_id : String
  pub time : ℕ
  pub settings_root : String
  pub files : Files
  pub b2a_base64 : List ℕ → T

abbrev pub logs_topic {ℓ} : {T : Type ℓ} → Device T → String → String
logs_topic d name = mqtt_topic d.base_topic (d.device_id ∷ "logs" ∷ name ∷ [])

-- `transport.publish`
abbrev pub publish {ℓ} : {T : Type ℓ} → Device T → String → Payload T → Transport T → Transport T
publish d name payload t = record t {
  published =
      t.published
      ++ record {
        topic = strip is_space (logs_topic d name);
        payload = payload;
        timestamp = d.time;
      }
        ∷ [];
}

abbrev pub set_session {ℓ} : {T : Type ℓ} → Option LogTransferSession → Transport T → Transport T
set_session s t = record t { log_transfer_session = s }

-- `command.message_id in set(duplicate_message_ids)`
unfoldable pub is_member : String → List String → Bool
is_member m [] = false
is_member m (x ∷ xs) = str_eq x m || is_member m xs

module _ {ℓ} {T : Type ℓ} (d : Device T) where
  -- A request that is refused.
  abbrev refuse : String → String → String → String → Transport T → CommandResult × Transport T
  refuse topic message_id filename code t = (
    command_result error topic 2 (code ∷ []) message_id false,
    publish d "result" (result (plain_result message_id false false filename code))
        (publish d "ack" (ack (plain_ack message_id false false code)) t),
  )

  -- A request after `_build_session`.
  unfoldable pub accept :
      String
      → LogTransferCommand
      → LogTransferSession ⊎ String
      → Transport T
      → CommandResult × Transport T
  accept topic c (inr code) t = refuse topic c.message_id (safe_filename c.filename) code t
  accept topic c (inl s) t = (
    command_result published topic 1 [] c.message_id false,
    publish d "ack"
        (ack (record {
          message_id = c.message_id;
          accepted = true;
          duplicate = false;
          filename = s.filename;
          size = s.size;
          chunk_size = s.chunk_size;
          error = "";
        }))
        (set_session (some s) t),
  )

  -- A request after its parse.
  unfoldable pub handle :
      String → List String → Option LogTransferCommand → Transport T → CommandResult × Transport T
  handle topic duplicates none t = refuse topic "" "" "schema_invalid" t
  handle topic duplicates (some c) t =
      if is_member c.message_id duplicates
      then (
        command_result published topic 2 [] c.message_id true,
        publish d "result" (result (plain_result c.message_id true true "" ""))
            (publish d "ack" (ack (plain_ack c.message_id true true "")) t),
      )
      else accept topic c (build_session c d.settings_root d.files) t

  -- `blank` is an empty payload text.
  unfoldable pub process_log_transfer_message :
      String → Bool → Option Request → List String → Transport T → CommandResult × Transport T
  process_log_transfer_message topic blank payload duplicates t =
      if blank
      then (command_result ignored topic 0 [] "" false, t)
      else handle topic duplicates (parse_log_transfer_command payload) t

  abbrev pub chunk_of : LogTransferSession → List ℕ → Chunk T
  chunk_of s bytes = record {
    message_id = s.message_id;
    filename = s.filename;
    sequence = s.sequence;
    offset = s.offset;
    next_offset = s.offset + length bytes;
    size = s.size;
    data_text = d.b2a_base64 bytes;
    checksum = checksum_hex (checksum32 bytes fnv_seed);
  }

  abbrev pub advance : LogTransferSession → List ℕ → LogTransferSession
  advance s bytes = record s {
    offset = s.offset + length bytes;
    sequence = s.sequence + 1;
    file_checksum = checksum32 bytes s.file_checksum;
  }

  abbrev pub completion : LogTransferSession → Result
  completion s = record {
    message_id = s.message_id;
    complete = true;
    duplicate = false;
    filename = s.filename;
    size = s.size;
    chunks = s.sequence;
    checksum = checksum_hex s.file_checksum;
    error = "";
  }

  -- From `if not chunk:`; the argument is what was read.
  unfoldable pub send : LogTransferSession → List ℕ → Transport T → CommandResult × Transport T
  send s [] t = (
    command_result published (logs_topic d "result") 1 [] s.message_id false,
    publish d "result" (result (completion s)) (set_session none t),
  )
  send s (b ∷ bs) t = (
    command_result published (logs_topic d "chunk") 1 [] s.message_id false,
    set_session (some (advance s (b ∷ bs))) (publish d "chunk" (chunk (chunk_of s (b ∷ bs))) t),
  )

  -- `open`, `seek` and `read`; the argument is the content of the file, if there is one.
  unfoldable pub read_and_send :
      LogTransferSession → Option (List ℕ) → Transport T → CommandResult × Transport T
  read_and_send s none t = (
    command_result error (logs_topic d "result") 1 ("log_read_failed" ∷ []) s.message_id false,
    publish d "result" (result (plain_result s.message_id false false s.filename "log_read_failed"))
        (set_session none t),
  )
  read_and_send s (some bytes) t = send s (take s.chunk_size (drop s.offset bytes)) t

  unfoldable pub continue : Option LogTransferSession → Transport T → CommandResult × Transport T
  continue none t = (command_result ignored "" 0 [] "" false, t)
  continue (some s) t =
      if not t.connected
      then (command_result ignored "" 0 [] s.message_id false, t)
      else read_and_send s (d.files s.path) t

  unfoldable pub process_log_transfer_session : Transport T → CommandResult × Transport T
  unfolding continue
  process_log_transfer_session t = continue t.log_transfer_session t
