-- ===== src/Commands/Routes.antt =====
-- Which topics the node subscribes to, and how the intake of features/command_intake.py tells by
-- its topic what a message is.
use c_py_nodus_ii.Prelude.{
  String, Bool, false, not, ◌&&◌, ◌||◌, Option, none, some, List, [], ◌∷◌, ◌++◌, str_eq,
  if◌then◌else◌,
}
use c_py_nodus_ii.Prelude.Text.{strip, is_space, is_slash, is_blank, split_at}
use c_py_nodus_ii.Switch.Config.{SwitchChannelConfig}
use c_py_nodus_ii.Commands.{RuntimeConfig, Exec, pure, modify, ◌>>=◌, ◌>>◌, topic_in, device_id}

-- `s.endswith(e)`
unfoldable pub ends_with : String → String → Bool
ends_with e String.[] = str_eq e ""
ends_with e (String.◌∷◌ c s) = let rest = ends_with e s in str_eq e (String.◌∷◌ c s) || rest

unfoldable pub any_channel : (SwitchChannelConfig → Bool) → List SwitchChannelConfig → Bool
any_channel f [] = false
any_channel f (c ∷ cs) = f c || any_channel f cs

abbrev pub config_set_topic : RuntimeConfig → String → String
config_set_topic config id = topic_in config (id ∷ "config" ∷ "set" ∷ [])

-- `_is_switch_command_topic`
unfoldable pub is_switch_command_topic : String → RuntimeConfig → Bool
unfolding any_channel
is_switch_command_topic topic config =
    let text = strip is_space topic in
    ends_with "/config/set" text
    && any_channel (λ channel. str_eq text (config_set_topic config channel.channel_id))
        config.switch.channels

-- `_is_device_config_topic`
unfoldable pub is_device_config_topic : String → RuntimeConfig → Bool
is_device_config_topic topic config =
    not (is_blank (device_id config)) && str_eq topic (config_set_topic config (device_id config))

-- `_is_sensor_calibration_topic`
unfoldable pub is_sensor_calibration_topic : String → RuntimeConfig → Bool
is_sensor_calibration_topic topic config =
    not (is_blank (device_id config))
    && str_eq topic (topic_in config (device_id config ∷ "calibration" ∷ "set" ∷ []))

abbrev first_of : Option (String × String) → String
first_of none = ""
first_of (some (a, b)) = a

-- `parts[1]` where the text has three parts or more
abbrev second_part : Option (String × String) → String
second_part none = ""
second_part (some (a, b)) = first_of (split_at is_slash b)

-- `_channel_id_from_topic`
unfoldable pub channel_id_from_topic : String → String
channel_id_from_topic topic = second_part (split_at is_slash (strip is_space topic))

-- `_find_runtime_channel`
unfoldable pub find_runtime_channel : List SwitchChannelConfig → String → Option SwitchChannelConfig
find_runtime_channel [] id = none
find_runtime_channel (channel ∷ rest) id =
    if str_eq channel.channel_id id then some channel else find_runtime_channel rest id

abbrev is_member : String → List String → Bool
is_member t [] = false
is_member t (u ∷ us) = str_eq t u || is_member t us

-- `MQTTTransport.subscribe`
unfoldable pub subscribe : String → Exec String
unfolding ◌>>=◌
subscribe topic = do
  let t = strip is_space topic
  modify λ n. record n {
    subscriptions =
        if is_member t n.subscriptions then n.subscriptions else n.subscriptions ++ t ∷ [];
  }
  pure t

-- Every topic of a list, in its order.
unfoldable pub subscribe_all : List String → Exec (List String)
unfolding subscribe ◌>>=◌
subscribe_all [] = pure []
subscribe_all (t ∷ ts) = do u ← subscribe t; us ← subscribe_all ts; pure (u ∷ us)

unfoldable pub channel_topics : RuntimeConfig → List SwitchChannelConfig → List String
channel_topics config [] = []
channel_topics config (c ∷ cs) = config_set_topic config c.channel_id ∷ channel_topics config cs

-- The topics of `subscribe_device_runtime_topics` and of `_subscribe_log_transfer_topics`.
unfoldable pub device_topics : RuntimeConfig → List String
device_topics config =
    let id = device_id config in
    if is_blank id
    then []
    else config_set_topic config id
      ∷ topic_in config (id ∷ "calibration" ∷ "set" ∷ [])
      ∷ topic_in config (id ∷ "fwupdate" ∷ [])
      ∷ topic_in config (id ∷ "logs" ∷ "get" ∷ [])
      ∷ []

unfoldable pub subscribe_device_runtime_topics : RuntimeConfig → Exec (List String)
unfolding subscribe_all
subscribe_device_runtime_topics config = subscribe_all (device_topics config)

unfoldable pub subscribe_switch_runtime_topics : RuntimeConfig → Exec (List String)
unfolding subscribe_all channel_topics
subscribe_switch_runtime_topics config =
    subscribe_all (channel_topics config config.switch.channels)

unfoldable pub subscribe_runtime_topics : RuntimeConfig → Exec (List String)
unfolding subscribe_device_runtime_topics subscribe_switch_runtime_topics ◌>>=◌
subscribe_runtime_topics config = do
  device ← subscribe_device_runtime_topics config
  switches ← subscribe_switch_runtime_topics config
  pure (device ++ switches)
