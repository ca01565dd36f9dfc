-- ===== src/Switch/Plan.antt =====
-- features/switch.py and features/switch_runtime.py: what the boot intends for each channel.
use Prim.Native.String
use c_py_nodus_ii.Prelude.{
  ℕ, String, Bool, true, false, not, List, [], ◌∷◌, ◌++◌, map, str_eq, if◌then◌else◌,
}
use c_py_nodus_ii.Switch.Config.{SwitchChannelConfig, SwitchConfig}

pub record SwitchChannelInitialization : Type 0 where
  pub key : String
  pub channel_id : String
  pub enable_pin : String
  pub control_pin : String
  pub initial_state : Bool
  pub ready : Bool
  pub errors : List String

pub record SwitchInitialization : Type 0 where
  pub enabled : Bool
  pub ready : Bool
  pub device_id : String
  pub channel_count : ℕ
  pub channels : List SwitchChannelInitialization
  pub errors : List String

-- `if not text: channel_errors.append(error)`
abbrev pub required : String → String → List String
required text error = if str_eq text "" then error ∷ [] else []

abbrev pub is_empty {ℓ} : {A : Type ℓ} → List A → Bool
is_empty [] = true
is_empty (x ∷ xs) = false

unfoldable pub channel_errors : SwitchChannelConfig → List String
channel_errors c =
    required c.channel_id "missing_channel_id"
    ++ (required c.enable_pin "missing_enable_pin" ++ required c.control_pin "missing_control_pin")

-- f"{key}:{error}" for each error
abbrev pub keyed : String → List String → List String
keyed key errors = map (λ e. String.◌++◌ key (String.◌++◌ ":" e)) errors

unfoldable pub plan_channel : SwitchChannelConfig → SwitchChannelInitialization
unfolding channel_errors
plan_channel c = record {
  key = c.key;
  channel_id = c.channel_id;
  enable_pin = c.enable_pin;
  control_pin = c.control_pin;
  initial_state = c.last_state;
  ready = is_empty (channel_errors c);
  errors = channel_errors c;
}

-- The errors that the loop collects.
unfoldable pub collect_errors : List SwitchChannelConfig → List String
collect_errors [] = []
collect_errors (c ∷ cs) = keyed c.key (channel_errors c) ++ collect_errors cs

-- They, or `no_switch_channels`.
unfoldable pub plan_errors : List SwitchChannelConfig → List String
plan_errors [] = "no_switch_channels" ∷ []
plan_errors (c ∷ cs) = collect_errors (c ∷ cs)

unfoldable pub plan_switch_initialization : SwitchConfig → SwitchInitialization
plan_switch_initialization switch =
    if not switch.present
    then record {
      enabled = false;
      ready = false;
      device_id = "";
      channel_count = 0;
      channels = [];
      errors = "no_switch_config" ∷ [];
    }
    else record {
      enabled = true;
      ready = is_empty (plan_errors switch.channels);
      device_id = switch.device_id;
      channel_count = switch.channel_count;
      channels = map plan_channel switch.channels;
      errors = plan_errors switch.channels;
    }

-- The words that `phase` takes in this feature.
pub data Phase : Type 0 where
  inactive blocked ready error bound : Phase

pub record SwitchChannelRuntime : Type 0 where
  pub key : String
  pub channel_id : String
  pub enable_pin : String
  pub control_pin : String
  pub initial_state : Bool
  pub phase : Phase
  pub errors : List String

pub record SwitchRuntime : Type 0 where
  pub phase : Phase
  pub device_id : String
  pub channel_count : ℕ
  pub channels : List SwitchChannelRuntime
  pub errors : List String

abbrev ready_phase : Bool → Phase
ready_phase true = ready
ready_phase false = blocked

unfoldable pub channel_runtime : SwitchChannelInitialization → SwitchChannelRuntime
channel_runtime c = record {
  key = c.key;
  channel_id = c.channel_id;
  enable_pin = c.enable_pin;
  control_pin = c.control_pin;
  initial_state = c.initial_state;
  phase = ready_phase c.ready;
  errors = c.errors;
}

unfoldable pub build_switch_runtime : SwitchInitialization → SwitchRuntime
unfolding channel_runtime
build_switch_runtime i =
    if not i.enabled
    then record {
      phase = inactive;
      device_id = "";
      channel_count = 0;
      channels = [];
      errors = i.errors;
    }
    else record {
      phase = ready_phase i.ready;
      device_id = i.device_id;
      channel_count = i.channel_count;
      channels = map channel_runtime i.channels;
      errors = i.errors;
    }
