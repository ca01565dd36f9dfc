-- ===== src/Commands/Tests.antt =====
-- Switch commands and queues on a node with one switch channel.
use c_py_nodus_ii.Prelude.{
  ℕ, String, true, false, ◌≡◌, ◌≤◌, ◌+◌, refl, Option, none, some, List, [], ◌∷◌, length,
}
use c_py_nodus_ii.Prelude.Text.{has, split_at, strip_left, strip_right}
use c_py_nodus_ii.Topics.{mqtt_topic, mqtt_base_topic, members, join}
use c_py_nodus_ii.Switch.Plan
use c_py_nodus_ii.Switch.Config.{SwitchChannelConfig, update_switch_runtime_config, update_channels}
use c_py_nodus_ii.Switch.Service.{
  SwitchService, apply_switch_state, apply_to, find_channel, set_pin_value,
}
use c_py_nodus_ii.Commands.{
  ReceivedMessage, RuntimeConfig, Phase, published, error, CommandResult, Raised, memory, pystack,
  Node, Outcome, done, raised, pure, allocate, publish, try_except, device_id, ◌>>=◌,
}
use c_py_nodus_ii.Commands.Routes.{
  any_channel, ends_with, is_switch_command_topic, is_device_config_topic,
  is_sensor_calibration_topic, config_set_topic, channel_id_from_topic, find_runtime_channel,
}
use c_py_nodus_ii.Prelude.Text.{upper_is}
use c_py_nodus_ii.Commands.Parse.{
  Firmware, object, field, no_fields, text, SwitchCommand, parse_switch_command, command_in,
  extract_switch_state, get, word_of, str_of, normalize_switch_state,
}
use c_py_nodus_ii.Commands.Switch.{
  Settings, persist_switch_state, apply_state, publish_state, publish_for_channel,
  publish_switch_result, publish_switch_meta_patch, publish_patch, comma_join,
}
use c_py_nodus_ii.Commands.SwitchCommand.{
  otherwise, publish_failed, command_failed, record_state, publish_command, publish_applied,
  after_apply, run_switch_command, process_switch_command_message,
}
use c_py_nodus_ii.Commands.Field.{extract_json_string_field, behind, without_prefix, quoted}
use c_py_nodus_ii.Commands.Intake.{
  Handlers, adopt, restore_received_messages, clear_received_messages, take_switch, take_message,
  run_handlers, heavy_failed, take_messages, process_inbound_messages,
}
use c_py_nodus_ii.Commands.Recognised.{channel_topic_recognised}
use c_py_nodus_ii.Commands.Announced.{switch_command_announced, switch_command-count_le}
use c_py_nodus_ii.Commands.Reported.{Announces}
use c_py_nodus_ii.Commands.Answered.{IsPublished, switch_command_answered}
use c_py_nodus_ii.Commands.Drained.{Drained, process_inbound_messages_loses_none}

abbrev pump : SwitchChannelConfig
pump = record {
  key = "RELAY1";
  label = "Pump";
  channel_id = "pump";
  enable_pin = "";
  control_pin = "IO5";
  last_state = false;
  override_script = false;
}

abbrev config_with : String → RuntimeConfig
config_with base = record {
  base_topic = base;
  sensor_id = "";
  hostname = "host";
  switch = record {
    present = true;
    device_id = "dev1";
    serial_number = "";
    location = "";
    channel_count = 1;
    channels = pump ∷ [];
  };
}

abbrev node_with : List ReceivedMessage → List (Option Raised) → Node
node_with ms faults = record {
  received_messages = ms;
  published_messages = [];
  subscriptions = [];
  config = config_with "nodus";
  pins = λ _. none;
  now = 7;
  faults = faults;
}

abbrev service : SwitchService
service = record {
  phase = Plan.ready;
  device_id = "dev1";
  channel_count = 1;
  channels =
      record {
        key = "RELAY1";
        channel_id = "pump";
        phase = Plan.ready;
        desired_state = false;
        enable_handle = none;
        control_handle = some 5;
        errors = [];
      }
      ∷ [];
  errors = [];
}

abbrev firmware : Firmware
firmware = record {
  loads =
      λ _. some (object (field "state" (text "off") (field "message_id" (text "m1") no_fields)));
  shown = λ _. "";
  last_state_first = true;
}

abbrev settings : Settings
settings = record { root = some "/"; write_toml_scalar = λ _ _ _ _. pure [] }

abbrev pump_topic : String
pump_topic = "nodus/pump/config/set"

pump_topic_text : config_set_topic (config_with "nodus") "pump" ≡ pump_topic
unfolding mqtt_topic mqtt_base_topic members join strip_left strip_right
pump_topic_text = refl

-- Under a base topic of two parts the message is taken for a command of the channel, and the channel
-- is then looked up under the base topic's second part.
two_part_base :
    (is_switch_command_topic "home/nodus/pump/config/set" (config_with "home/nodus") ≡ true)
    × (channel_id_from_topic "home/nodus/pump/config/set" ≡ "nodus")
unfolding is_switch_command_topic any_channel ends_with channel_id_from_topic split_at mqtt_topic
    mqtt_base_topic members join strip_left strip_right
two_part_base = (refl, refl)

abbrev outcome_of : Outcome CommandResult → Option (Phase × ℕ)
outcome_of (done r) = some (r.phase, r.published_count)
outcome_of (raised e) = none

abbrev run_on : String → List (Option Raised) → Option (Phase × ℕ) × ℕ
run_on payload faults =
    let (o, n) =
      process_switch_command_message firmware settings service pump_topic payload
        (node_with [] faults) in
    (outcome_of o, length n.published_messages)

on_published : run_on " on " [] ≡ (some (published, 5), 5)
unfolding process_switch_command_message parse_switch_command upper_is channel_id_from_topic
    split_at strip_left strip_right otherwise ◌>>=◌ allocate publish run_switch_command apply_state
    after_apply record_state persist_switch_state try_except publish_applied publish_command
    publish_switch_result publish_for_channel publish_state publish_switch_meta_patch publish_patch
    find_runtime_channel apply_switch_state apply_to find_channel set_pin_value
    update_switch_runtime_config
on_published = refl

abbrev run_switch : Outcome CommandResult × Node
run_switch =
    process_switch_command_message firmware settings service pump_topic " on " (node_with [] [])

abbrev result_or : {A : Type 0} → A → Outcome A → A
result_or a (done r) = r
result_or a (raised e) = a

abbrev no_result : CommandResult
no_result = record {
  phase = error;
  topic = "";
  command_type = "";
  published_count = 0;
  errors = [];
  runtime_config = none;
  message_id = "";
  persistence_mode = "";
  requested_state = "";
  duplicate = false;
  halt_requested = false;
  reboot_requested = false;
  reboot_mode = "";
  ntp_resync_requested = false;
}

abbrev switch_on : CommandResult
switch_on = result_or no_result (run_switch.0)

abbrev turn_on : SwitchCommand
turn_on = record { channel_id = "pump"; desired_state = true; message_id = "" }

channel_topic_recognised_example :
    (is_switch_command_topic (config_set_topic (config_with "nodus") "pump") (config_with "nodus")
      ≡ true)
    × (channel_id_from_topic (config_set_topic (config_with "nodus") "pump") ≡ "pump")
    × ((found : SwitchChannelConfig) × (find_runtime_channel (pump ∷ []) "pump" ≡ some found)
        × (found.channel_id ≡ "pump"))
unfolding has
channel_topic_recognised_example =
    channel_topic_recognised (config_with "nodus") [] [] pump refl (refl, refl) refl refl

switch_command_announced_example :
    (command : SwitchCommand) × ((parse_switch_command firmware pump_topic " on "
        (config_with "nodus")
        (node_with [] [])).0
      ≡ done (some command))
    × Announces service command (node_with [] []) switch_on (run_switch.1)
unfolding process_switch_command_message parse_switch_command upper_is channel_id_from_topic
    split_at strip_left strip_right otherwise ◌>>=◌ allocate publish run_switch_command apply_state
    after_apply record_state persist_switch_state try_except publish_applied publish_command
    publish_switch_result publish_for_channel publish_state publish_switch_meta_patch publish_patch
    find_runtime_channel apply_switch_state apply_to find_channel set_pin_value
    update_switch_runtime_config update_channels publish_failed command_failed command_in
    extract_switch_state get word_of str_of normalize_switch_state comma_join device_id mqtt_topic
    mqtt_base_topic members join
switch_command_announced_example =
    switch_command_announced firmware settings service pump_topic " on " (node_with [] []) switch_on
      (run_switch.1) (λ _ _ _ _ _. (refl, refl, refl)) refl refl

switch_command-count_le_example :
    0 + switch_on.published_count ≤ length (run_switch.1).published_messages
unfolding process_switch_command_message parse_switch_command upper_is channel_id_from_topic
    split_at strip_left strip_right otherwise ◌>>=◌ allocate publish run_switch_command apply_state
    after_apply record_state persist_switch_state try_except publish_applied publish_command
    publish_switch_result publish_for_channel publish_state publish_switch_meta_patch publish_patch
    find_runtime_channel apply_switch_state apply_to find_channel set_pin_value
    update_switch_runtime_config update_channels publish_failed command_failed command_in
    extract_switch_state get word_of str_of normalize_switch_state comma_join device_id mqtt_topic
    mqtt_base_topic members join
switch_command-count_le_example =
    switch_command-count_le firmware settings service pump_topic " on " (node_with [] []) switch_on
      (run_switch.1) (λ _ _ _ _ _. (refl, refl, refl)) refl

switch_command_answered_example :
    IsPublished ((run_switch_command settings service pump_topic turn_on (node_with [] [])).0)
unfolding apply_switch_state apply_to find_channel find_runtime_channel update_switch_runtime_config
    update_channels
switch_command_answered_example =
    switch_command_answered settings (λ _ _ _ _ _. ([], refl)) pump_topic turn_on service
      (node_with [] []) (record pump { last_state = true }) refl refl refl

abbrev handlers : Handlers
handlers = record {
  device_config = λ _. pure no_result;
  calibration_offsets = λ _. pure none;
  calibration_apply = λ _. pure none;
  calibration_control = λ _. pure no_result;
  command_handlers = λ n. (done [], record n { received_messages = [] });
}

abbrev received : String → String → ReceivedMessage
received topic payload = record { topic = topic; payload_text = payload }

abbrev queue : List ReceivedMessage
queue =
    received pump_topic "ON"
    ∷ received "nodus/dev1/config/set" " "
    ∷ received "nodus/dev1/fwupdate" "{}"
    ∷ []

abbrev run_queue : Outcome (List CommandResult) × Node
run_queue = process_inbound_messages firmware settings service handlers (node_with queue [])

process_inbound_messages_loses_none_example :
    Drained handlers queue (result_or [] (run_queue.0)) (run_queue.1)
unfolding process_switch_command_message parse_switch_command upper_is channel_id_from_topic
    split_at strip_left strip_right otherwise ◌>>=◌ allocate publish run_switch_command apply_state
    after_apply record_state persist_switch_state try_except publish_applied publish_command
    publish_switch_result publish_for_channel publish_state publish_switch_meta_patch publish_patch
    find_runtime_channel apply_switch_state apply_to find_channel set_pin_value
    update_switch_runtime_config update_channels publish_failed command_failed command_in
    extract_switch_state get word_of str_of normalize_switch_state comma_join device_id mqtt_topic
    mqtt_base_topic members join process_inbound_messages clear_received_messages take_messages
    take_message take_switch adopt is_switch_command_topic is_device_config_topic
    is_sensor_calibration_topic any_channel ends_with restore_received_messages run_handlers
    heavy_failed
process_inbound_messages_loses_none_example =
    process_inbound_messages_loses_none firmware settings (λ _ _ _ _. record { queue = λ _. refl })
      service handlers
      (record {
        device_config = λ _. record { queue = λ _. refl };
        calibration_offsets = λ _. record { queue = λ _. refl };
        calibration_apply = λ _. record { queue = λ _. refl };
        calibration_control = λ _. record { queue = λ _. refl };
      })
      (node_with queue []) (result_or [] (run_queue.0)) (run_queue.1) refl

-- The publication of the state raises: four messages are out and the result counts two.
state_not_published :
    run_on "ON" (none ∷ none ∷ none ∷ none ∷ none ∷ some memory ∷ []) ≡ (some (error, 2), 4)
unfolding process_switch_command_message parse_switch_command upper_is channel_id_from_topic
    split_at strip_left strip_right otherwise ◌>>=◌ allocate publish run_switch_command apply_state
    after_apply record_state persist_switch_state try_except publish_applied publish_command
    publish_switch_result publish_for_channel publish_state publish_switch_meta_patch publish_patch
    find_runtime_channel apply_switch_state apply_to find_channel set_pin_value
    update_switch_runtime_config update_channels publish_failed command_failed command_in
    extract_switch_state get word_of str_of normalize_switch_state comma_join device_id mqtt_topic
    mqtt_base_topic members join
state_not_published = refl

-- A `RuntimeError` of the JSON parser is not caught, and the messages behind are gone.
parser_raises :
    process_inbound_messages firmware settings service handlers
      (node_with (received pump_topic "{}" ∷ received pump_topic "OFF" ∷ []) (some pystack ∷ []))
    ≡ (raised pystack, node_with [] [])
unfolding process_switch_command_message parse_switch_command upper_is channel_id_from_topic
    split_at strip_left strip_right otherwise ◌>>=◌ allocate publish run_switch_command apply_state
    after_apply record_state persist_switch_state try_except publish_applied publish_command
    publish_switch_result publish_for_channel publish_state publish_switch_meta_patch publish_patch
    find_runtime_channel apply_switch_state apply_to find_channel set_pin_value
    update_switch_runtime_config update_channels publish_failed command_failed command_in
    extract_switch_state get word_of str_of normalize_switch_state comma_join device_id mqtt_topic
    mqtt_base_topic members join process_inbound_messages clear_received_messages take_messages
    take_message take_switch adopt is_switch_command_topic is_device_config_topic
    is_sensor_calibration_topic any_channel ends_with restore_received_messages run_handlers
    heavy_failed
parser_raises = refl

-- The state of a JSON document, and the message id found in its text.
off_published : run_on "{}" [] ≡ (some (published, 5), 5)
unfolding process_switch_command_message parse_switch_command upper_is channel_id_from_topic
    split_at strip_left strip_right otherwise ◌>>=◌ allocate publish run_switch_command apply_state
    after_apply record_state persist_switch_state try_except publish_applied publish_command
    publish_switch_result publish_for_channel publish_state publish_switch_meta_patch publish_patch
    find_runtime_channel apply_switch_state apply_to find_channel set_pin_value
    update_switch_runtime_config update_channels publish_failed command_failed command_in
    extract_switch_state get word_of str_of normalize_switch_state comma_join device_id mqtt_topic
    mqtt_base_topic members join
off_published = refl

message_id_found : extract_json_string_field "{\"message_id\" : \"a\\\"b\"}" "message_id" ≡ "a\\\"b"
unfolding extract_json_string_field behind without_prefix quoted split_at
message_id_found = refl
