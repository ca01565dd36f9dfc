-- ===== src/Commands/Single.antt =====
-- `process_device_config_message` and `process_calibration_message` of features/command_intake.py,
-- which take one message and let exceptions pass.
use c_py_nodus_ii.Prelude.{String, Option, none, some, [], if◌then◌else◌}
use c_py_nodus_ii.Commands.{
  ReceivedMessage, RuntimeConfig, ignored, CommandResult, Exec, pure, current_config, ◌>>=◌,
}
use c_py_nodus_ii.Commands.Minimal.{
  payload_may_apply_calibration_offsets, FailureKind, failure_result,
}
use c_py_nodus_ii.Commands.Intake.{Handlers, is_empty_payload}

-- A result for a blank payload.
abbrev ignored_result : String → RuntimeConfig → ReceivedMessage → CommandResult
ignored_result command_type c m = record (failure_result FailureKind.config c m 0 []) {
  phase = ignored;
  command_type = command_type;
  message_id = "";
  persistence_mode = "";
}

-- `process_device_config_message` of one message
unfoldable pub process_device_config_message : Handlers → ReceivedMessage → Exec CommandResult
process_device_config_message h m = do
  c ← current_config
  if is_empty_payload m then pure (ignored_result "config" c m) else h.device_config m

abbrev or_control : Handlers → ReceivedMessage → Option CommandResult → Exec CommandResult
or_control h m none = h.calibration_control m
or_control h m (some r) = pure r

abbrev or_apply : Handlers → ReceivedMessage → Option CommandResult → Exec CommandResult
or_apply h m none = h.calibration_apply m >>= or_control h m
or_apply h m (some r) = pure r

-- `process_calibration_message` of one message
unfoldable pub process_calibration_message : Handlers → ReceivedMessage → Exec CommandResult
process_calibration_message h m = do
  c ← current_config
  if is_empty_payload m
      then pure (ignored_result "calibration" c m)
      else if payload_may_apply_calibration_offsets m.payload_text
      then h.calibration_offsets m >>= or_apply h m
      else or_apply h m none
