-- ===== src/Commands/SwitchCommand.antt =====
-- `process_switch_command_message` of features/command_intake.py.
use c_py_nodus_ii.Prelude.{
  ◌+◌, String, Bool, true, false, Option, none, some, List, [], ◌∷◌, ◌++◌, if◌then◌else◌,
}
use c_py_nodus_ii.Prelude.Text.{strip, is_space, is_blank}
use c_py_nodus_ii.Switch.Hardware.{is_ready}
use c_py_nodus_ii.Switch.Config.{update_switch_runtime_config}
use c_py_nodus_ii.Switch.Service.{SwitchService, SwitchApplyResult}
use c_py_nodus_ii.Commands.{
  Payload, switch_result, config_ack, error, ignored, CommandResult, Raised, memory, pystack,
  failure, Outcome, done, raised, Exec, pure, raise, modify, current_config, publish, topic_in,
  ◌>>=◌, ◌>>◌,
}
use c_py_nodus_ii.Commands.Parse.{Firmware, SwitchCommand, parse_switch_command}
use c_py_nodus_ii.Commands.Switch.{
  PublishResult, Settings, persist_switch_state, apply_state, on_off, publish_switch_result,
  publish_switch_meta_patch,
}

abbrev pub settle : {A B : Type 0} → Outcome A → (Raised → Exec B) → (A → Exec B) → Exec B
settle (done a) h k = k a
settle (raised e) h k = h e

-- `m`, then `k` with its value, or `h` with what `m` raises.
unfoldable pub otherwise : {A B : Type 0} → Exec A → (Raised → Exec B) → (A → Exec B) → Exec B
otherwise m h k n = let (o, n') = m n in settle o h k n'

-- A result that says no more than why.
abbrev pub plain_result : String → List String → CommandResult
plain_result topic errors = record {
  phase = error;
  topic = topic;
  command_type = "switch";
  published_count = 0;
  errors = errors;
  runtime_config = none;
  message_id = "";
  persistence_mode = "";
  requested_state = "";
  duplicate = false;
  halt_requested = false;
  reboot_requested = false;
  reboot_mode = "";
  ntp_resync_requested = false;
}

abbrev or_volatile : String → String
or_volatile mode = if is_blank mode then "volatile" else mode

-- The variables that the `except` clause reads.
pub record Progress : Type 0 where
  pub applied : Bool
  pub persistence_mode : String
  pub persistence_errors : List String

abbrev pub nothing_applied : Progress
nothing_applied = record { applied = false; persistence_mode = ""; persistence_errors = [] }

abbrev pub error_name : Raised → String
error_name memory = "switch_command_memory"
error_name pystack = "switch_command_pystack"
error_name failure = ""

abbrev failed_payload : SwitchCommand → Progress → Raised → Payload
failed_payload command p e =
    switch_result command.message_id p.applied (if p.applied then 1 else 0) (error_name e)
      (or_volatile p.persistence_mode) p.persistence_errors

-- The `except` clause after it let another exception pass.
unfoldable pub publish_failed : SwitchCommand → String → Progress → Raised → Exec CommandResult
publish_failed command topic p e = do
  config ← current_config
  publish (topic_in config (command.channel_id ∷ "config" ∷ "result" ∷ []))
      (failed_payload command p e) false
  pure (record {
    phase = error;
    topic = topic;
    command_type = "switch";
    published_count = 2;
    errors = error_name e ∷ p.persistence_errors;
    runtime_config = some config;
    message_id = command.message_id;
    persistence_mode = or_volatile p.persistence_mode;
    requested_state = on_off command.desired_state;
    duplicate = false;
    halt_requested = false;
    reboot_requested = false;
    reboot_mode = "";
    ntp_resync_requested = false;
  })

unfoldable pub command_failed : SwitchCommand → String → Progress → Raised → Exec CommandResult
command_failed command topic p failure = raise failure
command_failed command topic p memory = publish_failed command topic p memory
command_failed command topic p pystack = publish_failed command topic p pystack

-- The configuration and the settings after the command was applied.
unfoldable pub record_state : Settings → SwitchApplyResult → Bool → Exec (String × List String)
record_state settings r state =
    if is_ready r.phase
    then (do
      modify λ n. record n {
        config = record n.config {
          switch = update_switch_runtime_config n.config.switch r.key state;
        };
      }
      persist_switch_state settings r.key state)
    else pure ("", [])

-- The two publications of the `try` clause, with the `return` behind it.
unfoldable pub publish_command :
    SwitchCommand → SwitchApplyResult → String → List String → Exec (PublishResult × PublishResult)
publish_command command r mode errors = do
  p ← publish_switch_result r command.message_id mode errors "" true
  m ← publish_switch_meta_patch r command.message_id "switch_set"
  pure (p, m)

abbrev command_result :
    SwitchCommand
    → String
    → String
    → List String
    → PublishResult
    → PublishResult
    → Exec CommandResult
command_result command topic mode errors p m n = (
  done (record {
    phase = p.phase;
    topic = topic;
    command_type = "switch";
    published_count = 1 + p.published_count + m.published_count;
    errors = p.errors ++ m.errors ++ errors;
    runtime_config = some n.config;
    message_id = command.message_id;
    persistence_mode = mode;
    requested_state = on_off command.desired_state;
    duplicate = false;
    halt_requested = false;
    reboot_requested = false;
    reboot_mode = "";
    ntp_resync_requested = false;
  }),
  n,
)

unfoldable pub publish_applied :
    SwitchCommand → String → SwitchApplyResult → String → List String → Exec CommandResult
publish_applied command topic r mode errors =
    otherwise (publish_command command r mode errors)
      (command_failed command topic (record {
        applied = is_ready r.phase;
        persistence_mode = mode;
        persistence_errors = errors;
      }))
      λ (p, m). command_result command topic mode errors p m

-- The `try` clause from where the state has been applied.
unfoldable pub after_apply :
    Settings → SwitchCommand → String → SwitchApplyResult → Exec CommandResult
after_apply settings command topic r =
    otherwise (record_state settings r command.desired_state)
      (command_failed command topic (record nothing_applied { applied = is_ready r.phase }))
      λ (mode, errors). publish_applied command topic r mode errors

-- From the acknowledgement on.
unfoldable pub run_switch_command :
    Settings → SwitchService → String → SwitchCommand → Exec CommandResult
run_switch_command settings service topic command = do
  config ← current_config
  publish (topic_in config (command.channel_id ∷ "config" ∷ "ack" ∷ []))
      (config_ack command.message_id true false) false
  otherwise (apply_state service command.channel_id command.desired_state)
      (command_failed command topic nothing_applied) (after_apply settings command topic)

abbrev pub run_parsed :
    Settings → SwitchService → String → Option SwitchCommand → Exec CommandResult
run_parsed settings service topic none = pure (plain_result topic ("invalid_switch_command" ∷ []))
run_parsed settings service topic (some command) = run_switch_command settings service topic command

-- Only a `MemoryError` of the parser is caught.
abbrev pub parse_failed : String → Raised → Exec CommandResult
parse_failed topic memory = pure (plain_result topic ("switch_command_memory" ∷ []))
parse_failed topic pystack = raise pystack
parse_failed topic failure = raise failure

unfoldable pub process_switch_command_message :
    Firmware → Settings → SwitchService → String → String → Exec CommandResult
process_switch_command_message f settings service topic payload_text =
    if is_blank (strip is_space payload_text)
    then pure (record (plain_result topic []) { phase = ignored })
    else do
      config ← current_config
      otherwise (parse_switch_command f topic payload_text config) (parse_failed topic)
          (run_parsed settings service topic)
