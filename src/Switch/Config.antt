-- ===== src/Switch/Config.antt =====
-- `SwitchConfig` and `SwitchChannelConfig` of core/config.py, as they stand after normalisation,
-- and the in-place update of features/switch_state.py.
use c_py_nodus_ii.Prelude.{ℕ, String, Bool, List, [], ◌∷◌, str_eq, if◌then◌else◌}

pub record SwitchChannelConfig : Type 0 where
  pub key : String
  pub label : String
  pub channel_id : String
  pub enable_pin : String
  pub control_pin : String
  pub last_state : Bool
  pub override_script : Bool

pub record SwitchConfig : Type 0 where
  pub present : Bool
  pub device_id : String
  pub serial_number : String
  pub location : String
  pub channel_count : ℕ
  pub channels : List SwitchChannelConfig

-- The `for` loop of `update_switch_runtime_config`: the first channel with the key.
unfoldable pub update_channels : String → Bool → List SwitchChannelConfig → List SwitchChannelConfig
update_channels channel_key state [] = []
update_channels channel_key state (channel ∷ rest) =
    if str_eq channel.key channel_key
    then record channel { last_state = state } ∷ rest
    else channel ∷ update_channels channel_key state rest

unfoldable pub update_switch_runtime_config : SwitchConfig → String → Bool → SwitchConfig
unfolding update_channels
update_switch_runtime_config config channel_key state = record config {
  channels = update_channels channel_key state config.channels;
}
