-- ===== src/Commands/Parse.antt =====
-- `parse_switch_command` of features/command_intake.py. A JSON document is what MicroPython's
-- `json.loads` gives; `loads`, `shown`, which is `str` of a number, a list or a dict, and the order
-- in which a set of two keys is walked are the firmware's.
use Prim.Native.String
use c_py_nodus_ii.Prelude.{
  String, Bool, true, false, not, ◌&&◌, ◌||◌, Option, none, some, str_eq, if◌then◌else◌,
}
use c_py_nodus_ii.Prelude.Text.{strip, is_space, is_blank, upper_is, same_upper}
use c_py_nodus_ii.Switch.Config.{SwitchChannelConfig}
use c_py_nodus_ii.Commands.{RuntimeConfig, Exec, pure, allocate, ◌>>◌}
use c_py_nodus_ii.Commands.Routes.{channel_id_from_topic, find_runtime_channel}

-- A number is given by its digits and whether it is zero.
mutual
  pub data Json : Type 0 where
    null : Json
    boolean : Bool → Json
    number : (digits : String) (is_zero : Bool) → Json
    text : String → Json
    array : Items → Json
    object : Fields → Json

  pub data Items : Type 0 where
    no_items : Items
    item : Json → Items → Items

  pub data Fields : Type 0 where
    no_fields : Fields
    field : String → Json → Fields → Fields

pub record Firmware : Type 0 where
  pub loads : String → Option Json
  pub shown : Json → String
  pub last_state_first : Bool

-- `d.get(key)`, with None where it is missing
unfoldable pub get : String → Fields → Json
get key no_fields = null
get key (field k v rest) = if str_eq k key then v else get key rest

-- `str(value)`
unfoldable pub str_of : (Json → String) → Json → String
str_of shown null = "None"
str_of shown (boolean true) = "True"
str_of shown (boolean false) = "False"
str_of shown (number digits z) = digits
str_of shown (text s) = s
str_of shown v = shown v

abbrev is_truthy : Json → Bool
is_truthy null = false
is_truthy (boolean b) = b
is_truthy (number digits is_zero) = not is_zero
is_truthy (text s) = not (is_blank s)
is_truthy (array no_items) = false
is_truthy (array (item v vs)) = true
is_truthy (object no_fields) = false
is_truthy (object (field k v rest)) = true

-- `str(value or "").strip()`
unfoldable pub word_of : (Json → String) → Json → String
unfolding str_of
word_of shown v = if is_truthy v then strip is_space (str_of shown v) else ""

abbrev one_of : String → String → String → String → Bool
one_of s a b c = upper_is s a || upper_is s b || upper_is s c

-- `_normalize_switch_state`
unfoldable pub normalize_switch_state : (Json → String) → Json → Option Bool
unfolding str_of upper_is
normalize_switch_state shown (boolean b) = some b
normalize_switch_state shown null = none
normalize_switch_state shown v =
    let s = strip is_space (str_of shown v) in
    if one_of s "ON" "TRUE" "1"
    then some true
    else if one_of s "OFF" "FALSE" "0"
    then some false
    else none

abbrev or_else : Option Bool → Option Bool → Option Bool
or_else (some b) _ = some b
or_else none o = o

-- The fields of a dict, and none of another value.
abbrev pub fields_of : Json → Fields
fields_of (object fs) = fs
fields_of _ = no_fields

-- `_extract_switch_state` of a dict
unfoldable pub extract_switch_state : (Json → String) → Fields → Option Bool
unfolding get normalize_switch_state
extract_switch_state shown payload =
    let nested = fields_of (get "payload" payload) in
    or_else (normalize_switch_state shown (get "state" payload)) (
      or_else (normalize_switch_state shown (get "set" payload)) (
        or_else (normalize_switch_state shown (get "state" nested))
          (normalize_switch_state shown (get "set" nested))))

abbrev pub last_state_key : SwitchChannelConfig → String
last_state_key channel = String.◌++◌ channel.key "_LAST_STATE"

abbrev state_key : SwitchChannelConfig → String
state_key channel = String.◌++◌ channel.key "_STATE"

abbrev is_expected : SwitchChannelConfig → String → Bool
is_expected channel key =
    same_upper key (last_state_key channel) || same_upper key (state_key channel)

-- The loop over "updates"
unfoldable pub from_updates : (Json → String) → SwitchChannelConfig → Items → Option Bool
unfolding get word_of normalize_switch_state
from_updates shown channel no_items = none
from_updates shown channel (item v rest) =
    let later = from_updates shown channel rest in
    let update = fields_of v in
    if str_eq (word_of shown (get "section" update)) "Switch"
      && is_expected channel (word_of shown (get "key" update))
    then or_else (normalize_switch_state shown (get "value" update)) later
    else later

abbrev items_of : Json → Items
items_of (array vs) = vs
items_of _ = no_items

-- The value under the key `key.upper()`
unfoldable pub get_upper : String → Fields → Json
get_upper key no_fields = null
get_upper key (field k v rest) = if upper_is key k then v else get_upper key rest

-- The loop over the settings' two keys
unfoldable pub from_settings : Firmware → SwitchChannelConfig → Fields → Option Bool
unfolding get_upper normalize_switch_state
from_settings f channel settings =
    let last = normalize_switch_state f.shown (get_upper (last_state_key channel) settings) in
    let state = normalize_switch_state f.shown (get_upper (state_key channel) settings) in
    if f.last_state_first then or_else last state else or_else state last

-- `_extract_switch_state_from_config_updates` once the channel has been looked up
abbrev from_channel : Firmware → Fields → Option SwitchChannelConfig → Option Bool
from_channel f payload none = none
from_channel f payload (some channel) =
    let body = fields_of (get "payload" payload) in
    let settings = fields_of (get "settings" body) in
    or_else (from_updates f.shown channel (items_of (get "updates" body)))
      (from_settings f channel (fields_of (get "Switch" settings)))

unfoldable pub extract_switch_state_from_config_updates :
    Firmware → Fields → RuntimeConfig → String → Option Bool
unfolding get from_updates from_settings find_runtime_channel
extract_switch_state_from_config_updates f payload config channel_id =
    from_channel f payload (find_runtime_channel config.switch.channels channel_id)

pub record SwitchCommand : Type 0 where
  pub channel_id : String
  pub desired_state : Bool
  pub message_id : String

abbrev command_of : String → String → Option Bool → Option SwitchCommand
command_of id message_id none = none
command_of id message_id (some state) =
    some (record { channel_id = id; desired_state = state; message_id = message_id })

-- The command of a JSON document; what is no dict has none.
unfoldable pub command_in : Firmware → RuntimeConfig → String → Option Json → Option SwitchCommand
unfolding extract_switch_state extract_switch_state_from_config_updates get word_of
command_in f config id (some (object payload)) =
    command_of id (word_of f.shown (get "message_id" payload)) (
      or_else (extract_switch_state f.shown payload)
        (extract_switch_state_from_config_updates f payload config id))
command_in f config id _ = none

-- `json.loads` needs memory.
unfoldable pub parse_switch_command :
    Firmware → String → String → RuntimeConfig → Exec (Option SwitchCommand)
parse_switch_command f topic payload_text config =
    let id = channel_id_from_topic topic in
    let s = strip is_space payload_text in
    if is_blank id || is_blank s
    then pure none
    else if upper_is s "ON" || upper_is s "OFF"
    then pure (command_of id "" (some (upper_is s "ON")))
    else do allocate; pure (command_in f config id (f.loads s))
