-- ===== src/Commands/Minimal.antt =====
-- The two tests of a calibration payload that does not decode it, and the failures that the intake
-- publishes in place of a handler: features/command_intake.py.
use c_py_nodus_ii.Prelude.{
  ℕ, String, Bool, true, false, ◌&&◌, ◌||◌, some, List, [], ◌∷◌, ◌==◌, if◌then◌else◌,
}
use c_py_nodus_ii.Prelude.Text.{strip, is_space, is_blank}
use c_py_nodus_ii.Commands.{
  ReceivedMessage, RuntimeConfig, Payload, config_ack, calibration_ack, config_result, error,
  CommandResult, Raised, memory, pystack, failure, Exec, pure, raise, current_config, publish,
  topic_in, device_id, ◌>>=◌,
}
use c_py_nodus_ii.Commands.Field.{extract_json_string_field}
use c_py_nodus_ii.Prelude.Text.{upper_code}
use c_py_nodus_ii.Commands.SwitchCommand.{otherwise}

-- `p.lower() in text.lower()`, both by the numbers of their upper case
unfoldable pub has_prefix_lower : String → String → Bool
has_prefix_lower String.[] s = true
has_prefix_lower (String.◌∷◌ c p) String.[] = false
has_prefix_lower (String.◌∷◌ c p) (String.◌∷◌ d s) =
    upper_code c == upper_code d && has_prefix_lower p s

unfoldable pub has_word : String → String → Bool
has_word p String.[] = is_blank p
has_word p (String.◌∷◌ c s) =
    let later = has_word p s in has_prefix_lower p (String.◌∷◌ c s) || later

abbrev names_apply : String → Bool
names_apply s = has_word "\"apply\"" s || has_word "\"set\"" s || has_word "\"update\"" s

-- `_payload_may_apply_calibration`
unfoldable pub payload_may_apply_calibration : String → Bool
payload_may_apply_calibration payload_text =
    let s = strip is_space payload_text in
    has_word "\"action\"" s && names_apply s && (has_word "offsets" s || has_word "calibration" s)

-- `_payload_may_apply_calibration_offsets`
unfoldable pub payload_may_apply_calibration_offsets : String → Bool
payload_may_apply_calibration_offsets payload_text =
    let s = strip is_space payload_text in
    has_word "\"offsets\"" s && has_word "\"action\"" s && names_apply s

-- The two failures that the intake publishes for another message than a switch command.
pub data FailureKind : Type 0 where
  calibration : FailureKind
  config : FailureKind

abbrev kind_name : FailureKind → String
kind_name calibration = "calibration"
kind_name config = "config"

abbrev kind_ack : FailureKind → String → Payload
kind_ack calibration message_id = calibration_ack message_id true
kind_ack config message_id = config_ack message_id true false

abbrev publish_memory : FailureKind → String
publish_memory calibration = "calibration_failure_publish_memory"
publish_memory config = "config_failure_publish_memory"

abbrev pub failure_result :
    FailureKind → RuntimeConfig → ReceivedMessage → ℕ → List String → CommandResult
failure_result kind c m count errors = record {
  phase = error;
  topic = m.topic;
  command_type = kind_name kind;
  published_count = count;
  errors = errors;
  runtime_config = some c;
  message_id = extract_json_string_field m.payload_text "message_id";
  persistence_mode = "volatile";
  requested_state = "";
  duplicate = false;
  halt_requested = false;
  reboot_requested = false;
  reboot_mode = "";
  ntp_resync_requested = false;
}

-- `except MemoryError` around the two publications, the first of which may have been made.
abbrev pub unpublished :
    FailureKind → RuntimeConfig → ReceivedMessage → String → ℕ → Raised → Exec CommandResult
unpublished kind c m why count memory =
    pure (failure_result kind c m count (why ∷ publish_memory kind ∷ []))
unpublished kind c m why count pystack = raise pystack
unpublished kind c m why count failure = raise failure

-- `_publish_minimal_calibration_failure` and `_publish_minimal_config_failure`
unfoldable pub publish_minimal_failure : FailureKind → ReceivedMessage → String → Exec CommandResult
publish_minimal_failure kind m why = do
  c ← current_config
  let id = extract_json_string_field m.payload_text "message_id"
  if is_blank (device_id c)
      then pure (failure_result kind c m 0 (why ∷ []))
      else otherwise
          (publish (topic_in c (device_id c ∷ kind_name kind ∷ "ack" ∷ [])) (kind_ack kind id)
            false)
          (unpublished kind c m why 0)
          λ _.
            otherwise
              (publish (topic_in c (device_id c ∷ kind_name kind ∷ "result" ∷ []))
                (config_result id false 0 false why) false)
              (unpublished kind c m why 1) λ _. pure (failure_result kind c m 2 (why ∷ []))
