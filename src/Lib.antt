-- ===== src/Lib.antt =====
-- cPyNodus_II is the CircuitPython firmware of a node that reads sensors and drives up to two relay
-- channels, and that is commanded over MQTT. This library models the parts of the package
-- cpynodus_ii that keep the node safe and reachable: how it saves files, how it boots and commands
-- its switches, when it reconnects or reboots, when it sets its clock, and how it sends its logs.
--
-- Parts and files:
--
-- Prelude: shared names, Boolean tests, lists over native numbers, integers (Prelude/Int), Python
-- dictionaries with text keys (Prelude/Dict) and text methods (Prelude/Text).
--
-- Filesystem: core/filesystem.py. A disk maps paths to contents; each call of `os` may run, raise
-- any error without effect, or be cut off by a loss of power, as a list of events says.
-- Filesystem/Defs has `commit_file`, `readable_path` and `clear_file`; `retire`, `install` and
-- `rollback` are the steps of `commit_file`. Where the list of events ends, the calls run. This is
-- the level of the order of the calls: each call of `os` happens whole or not at all and is durable
-- at once, so that `sync` changes nothing and a call of it that is left out is not noticed. What FAT
-- or flash can lose of calls that have returned is outside of the model; docs/configuration.md says
-- that the repository does not promise it either.
--
-- Recovery: core/recovery.py. `advance_recovery_state` with its policy and state, and its run over
-- a history of observations with the newest first. Times are integers of milliseconds, and a time
-- that was never set is -1000.
--
-- Switch: features/switch.py and switch_runtime.py (Switch/Plan), hardware/switch_adapter.py
-- (Switch/Hardware), features/switch_service.py (Switch/Service), features/switch_state.py and the
-- configuration of core/config.py that they read (Switch/Config). The boot is their composition, as
-- app.py makes it in `_build_switch_stack`. The board and `digitalio` are parameters: a board is the
-- pins that it names; `Digitalio` has the number of the handle that `DigitalInOut` gives a pin,
-- whether it gives one or raises, and what setting a handle's direction to `OUTPUT` does to the
-- values. The pins are the values that the handles hold. Switch/Binding says which pins the binding
-- claims and sets to outputs.
--
-- Ntp: core/ntp.py. `maybe_sync_ntp` with its configuration, and its run over a history of calls.
-- What the network, the NTP client and the RTC answer in a call is a parameter of the call.
--
-- Topics and LogTransfer: features/topics.py and features/log_transfer.py. The file system, the
-- time and `b2a_base64` are parameters, and what a decoder does is a hypothesis of the theorem that
-- needs it. A round is one call of `process_log_transfer_session`; one more round than the file has
-- bytes is enough, since each round but the last sends at least one byte.
--
-- SteadyState: features/steady_state.py. SteadyState.antt has the steps of an iteration and
-- SteadyState/Iteration puts them together as `run_steady_state_iteration` does. What the transport
-- and the publish cycles, the command intake, the calibration and the metadata refresh answer in an
-- iteration is the record `Inputs`.
--
-- Ota: ota/state.py, the record that hands an update over across a reboot, saved and loaded on the
-- disk of Filesystem. `json` is a parameter, and what it reads back is a hypothesis. A write of the
-- temporary file happens whole or not at all; no reader opens that file.
--
-- Automation: features/nodusweb_automation.py. Automation/Conditions, Actions, Service, Scripts and
-- RuleList have its functions, and Automation/Pins joins them to the switch service, through
-- features/web_handlers.py and features/web_config.py. The actions use the switches as an interface,
-- `Switches`, which the switch service fills. A metric is an integer in its smallest step, and what
-- `int` and `float` make of a field of a script is given. A check ends with a value, with a
-- `ValueError`, or with an exception that `save_rule` does not catch. `time.localtime` and the answer
-- of the write of the rules are parameters. The search for a free rule id has one try more than there
-- are rules.
--
-- Obfuscation: core/obfuscation.py. The hash functions, base64, UTF-8 and the ids of the board are a
-- record `Firmware`, and what the code relies on of them is `IsFirmware`. The loop of the key stream
-- has one round more than there are bytes, since no digest is empty.
--
-- ScalarPersistence: features/scalar_persistence.py, line by line; Filesystem has the `commit_file`
-- that it ends with.
--
-- TomlCompat: core/toml_compat.py. `read_line` and `parse_value` read a line and a value, and
-- TomlCompat/Tables splits a text into its lines and builds the nested tables. `int` and `float` of a
-- text are parameters.
--
-- Logs: core/reboot_log.py and core/recovery_log.py, the bytes of a log when an entry is appended.
--
-- Commands: features/command_intake.py, command_models.py and command_subscriptions.py. Commands has
-- the node's state, and actions on it that end with a value or an exception; Commands/Routes tells a
-- message by its topic, Commands/Parse reads a switch command, Commands/Switch and
-- Commands/SwitchCommand apply and announce it, and Commands/Intake has `process_inbound_messages`.
-- Which calls that need memory raise is a list, as the faults of Filesystem are. `json.loads`, the
-- settings' writer and the handlers of the other commands are parameters.
--
-- The parts meet in the main loop of app.py: it boots the switches from the saved configuration,
-- asks Recovery for its next action, calls Ntp, runs an iteration of SteadyState, which hands the
-- received messages to Commands and LogTransfer, and ticks Automation, which drives the switches of
-- Switch. The logs and the settings are replaced by Filesystem's `commit_file`.
--
-- Not modelled: floating point (times and metrics are integers), the decoding of JSON (a request or a
-- script is a record of the values read), the TOML text of the automations, the text of diagnostics,
-- the sockets, the web pages, the sensors' drivers, the transfer of an update and the main loop of
-- app.py itself, but for `_build_switch_stack`. `deinit` of a handle, the bytes that the file system
-- has cached and not written, and the infinite floats have no value in the model. The spaces around a
-- configured NTP server are taken off before.
pub mod Prelude
pub mod Filesystem
pub mod Switch
pub mod Recovery
pub mod Ntp
pub mod Topics
pub mod LogTransfer
pub mod SteadyState
pub mod Ota
pub mod Automation
pub mod Obfuscation
pub mod ScalarPersistence
pub mod Logs
pub mod Commands
pub mod TomlCompat
