-- ===== src/Commands/Intake.antt =====
-- `process_inbound_messages` of features/command_intake.py. The handlers of the other messages are
-- the caller's: each is an action that answers or raises.
use c_py_nodus_ii.Prelude.{
  String, Bool, false, Option, none, some, List, [], ◌∷◌, ◌++◌, if◌then◌else◌,
}
use c_py_nodus_ii.Prelude.Text.{strip, is_space, is_blank}
use c_py_nodus_ii.Switch.Service.{SwitchService}
use c_py_nodus_ii.Commands.{
  ReceivedMessage, RuntimeConfig, error, CommandResult, Raised, memory, pystack, failure, done,
  Exec, pure, raise, modify, current_config, try_except, ◌>>=◌, ◌>>◌,
}
use c_py_nodus_ii.Commands.Routes.{
  is_switch_command_topic, is_device_config_topic, is_sensor_calibration_topic,
}
use c_py_nodus_ii.Commands.Minimal.{
  payload_may_apply_calibration, payload_may_apply_calibration_offsets, FailureKind, calibration,
  config, publish_minimal_failure,
}
use c_py_nodus_ii.Commands.Parse.{Firmware}
use c_py_nodus_ii.Commands.Switch.{Settings}
use c_py_nodus_ii.Commands.SwitchCommand.{otherwise, process_switch_command_message}

-- device_config.py, calibration_offsets.py, calibration_config.py, calibration_control.py and
-- command_handlers.py; the second and the third may leave a message to the next.
pub record Handlers : Type 0 where
  pub device_config : ReceivedMessage → Exec CommandResult
  pub calibration_offsets : ReceivedMessage → Exec (Option CommandResult)
  pub calibration_apply : ReceivedMessage → Exec (Option CommandResult)
  pub calibration_control : ReceivedMessage → Exec CommandResult
  pub command_handlers : Exec (List CommandResult)

-- `_is_empty_payload`
abbrev pub is_empty_payload : ReceivedMessage → Bool
is_empty_payload m = is_blank (strip is_space m.payload_text)

-- What the loop does with a message: it goes on, with a result or without, it ends with a result or
-- an exception's, or it leaves this message and the later ones to the command handlers.
pub data Verdict : Type 0 where
  next : Option CommandResult → Verdict
  halted : CommandResult → Verdict
  stopped : CommandResult → Verdict
  handed : Verdict

-- `runtime_config = result.runtime_config` where it is one
unfoldable pub adopt : Option RuntimeConfig → Exec (Unit {0})
adopt none = pure tt
adopt (some c) = modify λ n. record n { config = c }

-- `_restore_received_messages`
unfoldable pub restore_received_messages : List ReceivedMessage → Exec (Unit {0})
restore_received_messages ms =
    modify λ n. record n { received_messages = ms ++ n.received_messages }

-- `_clear_received_messages`
unfoldable pub clear_received_messages : Exec (Unit {0})
clear_received_messages = modify λ n. record n { received_messages = [] }

-- The two `except` clauses: a failure is published under the exception's name.
unfoldable pub failed :
    FailureKind → ReceivedMessage → String → String → Raised → Exec CommandResult
failed kind m memory_name pystack_name memory = publish_minimal_failure kind m memory_name
failed kind m memory_name pystack_name pystack = publish_minimal_failure kind m pystack_name
failed kind m memory_name pystack_name failure = raise failure

-- A configuration command.
unfoldable pub take_device_config : Handlers → ReceivedMessage → Exec Verdict
take_device_config h m = do
  r ←
      try_except (h.device_config m)
        (failed config m "config_handler_memory" "config_handler_pystack")
  adopt r.runtime_config
  pure (if r.halt_requested then halted r else next (some r))

-- The clauses of the fast paths put the later messages back, publish, and end the loop.
unfoldable pub stop_with :
    ReceivedMessage → List ReceivedMessage → String → String → Raised → Exec Verdict
stop_with m later memory_name pystack_name failure = raise failure
stop_with m later memory_name pystack_name e = do
  restore_received_messages later
  r ← failed calibration m memory_name pystack_name e
  pure (stopped r)

abbrev pub adopted : CommandResult → Exec Verdict
adopted r = do adopt r.runtime_config; pure (next (some r))

-- `calibration_control`, whose result's configuration is not taken over
unfoldable pub take_control : Handlers → ReceivedMessage → Exec Verdict
take_control h m = do
  r ←
      try_except (h.calibration_control m)
        (failed calibration m "calibration_control_memory" "calibration_control_pystack")
  pure (next (some r))

unfoldable pub take_apply : Handlers → ReceivedMessage → List ReceivedMessage → Exec Verdict
take_apply h m later =
    otherwise (h.calibration_apply m)
      (stop_with m later "calibration_handler_memory" "calibration_handler_pystack")
      λ o. elim o [ none ↦ take_control h m | some r ↦ adopted r ]

unfoldable pub take_offsets : Handlers → ReceivedMessage → List ReceivedMessage → Exec Verdict
take_offsets h m later =
    otherwise (h.calibration_offsets m)
      (stop_with m later "calibration_offsets_memory" "calibration_offsets_pystack")
      λ o. elim o [ none ↦ take_apply h m later | some r ↦ adopted r ]

unfoldable pub take_calibration : Handlers → ReceivedMessage → List ReceivedMessage → Exec Verdict
take_calibration h m later =
    if is_empty_payload m
    then pure (next none)
    else if payload_may_apply_calibration m.payload_text
    then if payload_may_apply_calibration_offsets m.payload_text
      then take_offsets h m later
      else take_apply h m later
    else take_control h m

unfoldable pub take_switch : Firmware → Settings → SwitchService → ReceivedMessage → Exec Verdict
take_switch f settings service m = do
  r ← process_switch_command_message f settings service m.topic m.payload_text
  adopted r

-- One round of the loop.
unfoldable pub take_message :
    Firmware
    → Settings
    → SwitchService
    → Handlers
    → ReceivedMessage
    → List ReceivedMessage
    → Exec Verdict
take_message f settings service h m later = do
  c ← current_config
  if is_switch_command_topic m.topic c
      then take_switch f settings service m
      else if is_device_config_topic m.topic c
      then if is_empty_payload m then pure (next none) else take_device_config h m
      else if is_sensor_calibration_topic m.topic c
      then take_calibration h m later
      else (do restore_received_messages (m ∷ later); pure handed)

abbrev pub heavy_failure : String → RuntimeConfig → CommandResult
heavy_failure topic c = record {
  phase = error;
  topic = topic;
  command_type = "command";
  published_count = 0;
  errors = "command_handler_memory" ∷ [];
  runtime_config = some c;
  message_id = "";
  persistence_mode = "";
  requested_state = "";
  duplicate = false;
  halt_requested = false;
  reboot_requested = false;
  reboot_mode = "";
  ntp_resync_requested = false;
}

-- `except MemoryError` around the command handlers
unfoldable pub heavy_failed : ReceivedMessage → Raised → Exec (List CommandResult)
heavy_failed m memory = do
  clear_received_messages
  c ← current_config
  pure (heavy_failure m.topic c ∷ [])
heavy_failed m pystack = raise pystack
heavy_failed m failure = raise failure

unfoldable pub run_handlers : Handlers → ReceivedMessage → Exec (List CommandResult)
run_handlers h m = try_except h.command_handlers (heavy_failed m)

abbrev pub with_result : Option CommandResult → List CommandResult → List CommandResult
with_result none rs = rs
with_result (some r) rs = r ∷ rs

-- The loop over the drained messages.
unfoldable pub take_messages :
    Firmware
    → Settings
    → SwitchService
    → Handlers
    → List ReceivedMessage
    → Exec (List CommandResult)
take_messages f settings service h [] = pure []
take_messages f settings service h (m ∷ later) = take_message f settings service h m later >>= λ v.
    elim v [
      | next o ↦ take_messages f settings service h later >>= λ rs. pure (with_result o rs)
      | halted r ↦ pure (r ∷ [])
      | stopped r ↦ pure (r ∷ [])
      | handed ↦ run_handlers h m
    ]

unfoldable pub process_inbound_messages :
    Firmware → Settings → SwitchService → Handlers → Exec (List CommandResult)
process_inbound_messages f settings service h = do
  ms ← (λ n. (done n.received_messages, n))
  clear_received_messages
  take_messages f settings service h ms
