-- ===== src/Commands/Switch.antt =====
-- `process_switch_command_message` of features/command_intake.py and what it publishes, with
-- `persist_switch_state` of features/switch_state.py. `write_toml_scalar` is the caller's: what it
-- answers for a path, a section, a key and a value, or raises.
use Prim.Native.String
use c_py_nodus_ii.Prelude.{
  ℕ, ◌+◌, String, Bool, true, false, Option, none, some, List, [], ◌∷◌, ◌++◌, if◌then◌else◌, length,
}
use c_py_nodus_ii.Prelude.Text.{strip, strip_right, is_space, is_slash, is_blank}
use c_py_nodus_ii.Switch.Plan.{is_empty}
use c_py_nodus_ii.Switch.Hardware.{is_ready}
use c_py_nodus_ii.Switch.Config.{SwitchChannelConfig}
use c_py_nodus_ii.Switch.Service.{SwitchService, SwitchApplyResult, apply_switch_state}
use c_py_nodus_ii.Commands.{
  RuntimeConfig, Payload, switch_result, switch_event, switch_state, meta_patch, Phase, error,
  published, skipped, Raised, memory, pystack, failure, done, Exec, pure, raise, modify,
  current_config, allocate, publish, try_except, topic_in, device_id, ◌>>=◌, ◌>>◌,
}
use c_py_nodus_ii.Commands.Routes.{find_runtime_channel}
use c_py_nodus_ii.Commands.Parse.{last_state_key}

pub record PublishResult : Type 0 where
  pub phase : Phase
  pub published_count : ℕ
  pub topics : List String
  pub errors : List String

-- What the settings' writer answers, and the directory of the settings.
pub record Settings : Type 0 where
  pub root : Option String
  pub write_toml_scalar : String → String → String → Bool → Exec (List String)

abbrev pub mode_of : List String → String
mode_of errors = if is_empty errors then "persisted" else "volatile"

-- The two `except` clauses of `persist_switch_state`
unfoldable pub persist_failed : Raised → Exec (List String)
persist_failed memory = pure ("switch_state_persist_memory" ∷ [])
persist_failed pystack = pure ("switch_state_persist_pystack" ∷ [])
persist_failed failure = raise failure

-- `persist_switch_state`
unfoldable pub persist_switch_state : Settings → String → Bool → Exec (String × List String)
persist_switch_state settings key state = elim settings.root [
  | none ↦ pure ("volatile", "settings_not_writable" ∷ [])
  | some root ↦ do
    errors ←
        try_except
          (settings.write_toml_scalar (String.◌++◌ (strip_right is_slash root) "/switch.toml")
            "Switch" (String.◌++◌ key "_LAST_STATE") state)
          persist_failed
    pure (mode_of errors, errors)
]

-- `_apply_switch_state`: it needs memory before it writes the pins, and for its result.
unfoldable pub apply_state : SwitchService → String → Bool → Exec SwitchApplyResult
apply_state service channel_id state n =
    let (r, pins) = apply_switch_state service channel_id "" state n.pins in
    let run : Exec SwitchApplyResult = do
      allocate
      modify λ m. record m { pins = pins }
      allocate
      pure r
    in run n

abbrev pub on_off : Bool → String
on_off state = if state then "ON" else "OFF"

abbrev pub is_true : Option Bool → Bool
is_true (some b) = b
is_true none = false

-- `",".join(errors)`
unfoldable pub comma_join : List String → String
comma_join [] = ""
comma_join (e ∷ []) = e
comma_join (e ∷ f ∷ es) = String.◌++◌ e (String.◌++◌ "," (comma_join (f ∷ es)))

abbrev pub no_channel : PublishResult
no_channel = record {
  phase = error;
  published_count = 0;
  topics = [];
  errors = "switch_channel_not_found" ∷ [];
}

-- `_build_config_result_payload` with the two fields of the persistence
abbrev pub result_payload : SwitchApplyResult → String → String → List String → Payload
result_payload r message_id persistence_mode persistence_errors =
    switch_result message_id (is_ready r.phase) (if is_ready r.phase then 1 else 0)
      (if is_ready r.phase then "" else comma_join r.errors) persistence_mode persistence_errors

-- The messages of an applied state: the event, and the state that the broker retains.
unfoldable pub publish_state :
    RuntimeConfig → SwitchChannelConfig → Bool → String → String → List String → Exec PublishResult
publish_state config channel state message_id source topics = do
  now ← (λ n. (done n.now, n))
  event ←
      publish (topic_in config (channel.channel_id ∷ "event" ∷ []))
        (switch_event config.switch.device_id channel.channel_id channel.label (on_off state)
          message_id now (if is_blank source then none else some source))
        false
  retained ←
      publish (topic_in config (channel.channel_id ∷ "state" ∷ [])) (switch_state (on_off state))
        true
  pure (record {
    phase = published;
    published_count = length topics + 2;
    topics = topics ++ event.topic ∷ retained.topic ∷ [];
    errors = [];
  })

-- `_publish_switch_result` for a channel that the configuration has
unfoldable pub publish_for_channel :
    SwitchChannelConfig
    → SwitchApplyResult
    → String
    → String
    → List String
    → String
    → Bool
    → Exec PublishResult
publish_for_channel channel r message_id persistence_mode persistence_errors source include_result =
    do
      config ← current_config
      topics ←
          (if include_result
            then (do
              m ←
                  publish (topic_in config (channel.channel_id ∷ "config" ∷ "result" ∷ []))
                    (result_payload r message_id persistence_mode persistence_errors) false
              pure (m.topic ∷ []))
            else pure [])
      if is_ready r.phase
          then publish_state config channel (is_true r.applied_state) message_id source topics
          else pure (record {
            phase = error;
            published_count = length topics;
            topics = topics;
            errors = r.errors;
          })

unfoldable pub publish_switch_result :
    SwitchApplyResult → String → String → List String → String → Bool → Exec PublishResult
publish_switch_result r message_id persistence_mode persistence_errors source include_result = do
  config ← current_config
  elim (find_runtime_channel config.switch.channels r.channel_id) [
    | none ↦ pure no_channel
    | some channel ↦
        publish_for_channel channel r message_id persistence_mode persistence_errors source
          include_result
  ]

-- `_build_meta_patch_payload` of the one update of a channel
abbrev pub patch_payload :
    RuntimeConfig → SwitchChannelConfig → Bool → ℕ → String → String → Payload
patch_payload config channel state now source message_id =
    meta_patch (device_id config) now source message_id ("Switch" ∷ []) (
      record { section = "Switch"; key = strip is_space (last_state_key channel); value = state }
      ∷ [])

unfoldable pub publish_patch :
    RuntimeConfig → SwitchChannelConfig → Bool → String → String → Exec PublishResult
publish_patch config channel state message_id source = do
  now ← (λ n. (done n.now, n))
  publish (topic_in config (device_id config ∷ "meta" ∷ "patch" ∷ []))
      (patch_payload config channel state now source message_id) false
  pure (record {
    phase = published;
    published_count = 1;
    topics = topic_in config (device_id config ∷ "meta" ∷ "patch" ∷ []) ∷ [];
    errors = [];
  })

-- `_publish_switch_meta_patch`
unfoldable pub publish_switch_meta_patch : SwitchApplyResult → String → String → Exec PublishResult
publish_switch_meta_patch r message_id source = do
  config ← current_config
  if is_ready r.phase
      then elim (find_runtime_channel config.switch.channels r.channel_id) [
        | none ↦ pure no_channel
        | some channel ↦ publish_patch config channel (is_true r.applied_state) message_id source
      ]
      else pure (record { phase = skipped; published_count = 0; topics = []; errors = r.errors })
