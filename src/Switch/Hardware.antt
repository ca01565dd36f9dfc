-- ===== src/Switch/Hardware.antt =====
-- hardware/switch_adapter.py. The board and `digitalio` are the firmware's: a board is the pins that
-- it names, and what `digitalio` does is a parameter.
use c_py_nodus_ii.Prelude.{
  ℕ, String, Bool, true, false, Option, none, some, List, [], ◌∷◌, ◌++◌, if◌then◌else◌, ◌&&◌,
}
use c_py_nodus_ii.Switch.Plan.{
  Phase, ready, error, bound, SwitchChannelRuntime, SwitchRuntime, keyed, is_empty,
}

-- `handle.value`; `none` where nothing has been read or written.
abbrev pub Pins : Type 0
Pins = ℕ → Option Bool

-- The handle that `DigitalInOut` makes of a pin; whether it makes one, by the pins that this boot has
-- claimed before, the last one first, where it raises for a pin that is in use; and what the values
-- of the handles are after the direction of one has been set to `OUTPUT`.
pub record Digitalio : Type 0 where
  pub handle_of : ℕ → ℕ
  pub is_free : List ℕ → ℕ → Bool
  pub set_output : ℕ → Pins → Pins

-- The pins of the board, where the module `board` can be imported, and `digitalio`, where it can.
pub record Platform : Type 0 where
  pub board : Option (String → Option ℕ)
  pub digitalio : Option Digitalio

pub record SwitchChannelHardwareAdapter : Type 0 where
  pub key : String
  pub channel_id : String
  pub phase : Phase
  pub desired_state : Bool
  pub enable_handle : Option ℕ
  pub control_handle : Option ℕ
  pub errors : List String

pub record SwitchHardwareAdapter : Type 0 where
  pub phase : Phase
  pub device_id : String
  pub channel_count : ℕ
  pub channels : List SwitchChannelHardwareAdapter
  pub errors : List String

-- `_resolve_pin`, by the error that it appends
abbrev pub pin_error : Option ℕ → String → List String
pin_error none code = code ∷ []
pin_error (some pin) code = []

abbrev pub import_error {ℓ} : {A : Type ℓ} → Option A → String → List String
import_error none code = code ∷ []
import_error (some m) code = []

abbrev channel_of :
    SwitchChannelRuntime → Phase → Option ℕ → Option ℕ → List String → SwitchChannelHardwareAdapter
channel_of c phase enable control errors = record {
  key = c.key;
  channel_id = c.channel_id;
  phase = phase;
  desired_state = c.initial_state;
  enable_handle = enable;
  control_handle = control;
  errors = errors;
}

-- The channel that the loop body adds after the two pins have been looked up.
unfoldable pub channel_binding :
    Digitalio → SwitchChannelRuntime → Option ℕ → Option ℕ → SwitchChannelHardwareAdapter
channel_binding digitalio c (some enable) (some control) =
    channel_of c bound (some (digitalio.handle_of enable)) (some (digitalio.handle_of control)) []
channel_binding digitalio c enable control =
    channel_of c error none none (
      pin_error enable "missing_enable_pin_object"
      ++ pin_error control "missing_control_pin_object")

-- Both handles can be made, the one for enable first.
abbrev pub can_claim : Digitalio → List ℕ → ℕ → ℕ → Bool
can_claim digitalio claimed enable control =
    digitalio.is_free claimed enable && digitalio.is_free (enable ∷ claimed) control

-- `_configure_output` of both handles
abbrev pub configure_outputs : Digitalio → ℕ → ℕ → Pins → Pins
configure_outputs digitalio enable control pins =
    digitalio.set_output (digitalio.handle_of control)
      (digitalio.set_output (digitalio.handle_of enable) pins)

-- The loop body after the two pins have been looked up, with the pins that are claimed then; `none`
-- is the exception of `DigitalInOut`.
unfoldable pub bind_pins :
    Digitalio
    → SwitchChannelRuntime
    → Option ℕ
    → Option ℕ
    → List ℕ
    → Pins
    → Option SwitchChannelHardwareAdapter × List ℕ × Pins
unfolding channel_binding
bind_pins digitalio c (some enable) (some control) claimed pins =
    if can_claim digitalio claimed enable control
    then (
      some (channel_binding digitalio c (some enable) (some control)),
      control ∷ enable ∷ claimed,
      configure_outputs digitalio enable control pins,
    )
    else (none, claimed, pins)
bind_pins digitalio c enable control claimed pins =
    (some (channel_binding digitalio c enable control), claimed, pins)

abbrev pub with_channel :
    SwitchChannelHardwareAdapter
    → Option (List SwitchChannelHardwareAdapter)
    → Option (List SwitchChannelHardwareAdapter)
with_channel a none = none
with_channel a (some rest) = some (a ∷ rest)

-- The loop over the channels; the exception ends it, and what was configured stays.
unfoldable pub bind_channels :
    (String → Option ℕ)
    → Digitalio
    → List SwitchChannelRuntime
    → List ℕ
    → Pins
    → Option (List SwitchChannelHardwareAdapter) × Pins
unfolding bind_pins
bind_channels board digitalio [] claimed pins = (some [], pins)
bind_channels board digitalio (c ∷ cs) claimed pins =
    let (binding, claimed', pins') =
      bind_pins digitalio c (board c.enable_pin) (board c.control_pin) claimed pins in
    let (rest, pins'') = bind_channels board digitalio cs claimed' pins' in
    elim binding [ none ↦ (none, pins') | some a ↦ (with_channel a rest, pins'') ]

abbrev pub adapter_errors : List SwitchChannelHardwareAdapter → List String
adapter_errors [] = []
adapter_errors (c ∷ cs) = keyed c.key c.errors ++ adapter_errors cs

abbrev pub unbound : SwitchRuntime → Phase → List String → SwitchHardwareAdapter
unbound r phase errors = record {
  phase = phase;
  device_id = r.device_id;
  channel_count = r.channel_count;
  channels = [];
  errors = errors;
}

abbrev pub bound_or_error : Bool → Phase
bound_or_error true = bound
bound_or_error false = error

abbrev pub adapter_with : SwitchRuntime → List SwitchChannelHardwareAdapter → SwitchHardwareAdapter
adapter_with r channels = record {
  phase = bound_or_error (is_empty (adapter_errors channels));
  device_id = r.device_id;
  channel_count = r.channel_count;
  channels = channels;
  errors = adapter_errors channels;
}

unfoldable pub bind_modules :
    Option (String → Option ℕ)
    → Option Digitalio
    → SwitchRuntime
    → Pins
    → Option SwitchHardwareAdapter × Pins
unfolding bind_channels
bind_modules (some board) (some digitalio) r pins =
    let (channels, pins') = bind_channels board digitalio r.channels [] pins in
    (elim channels [ none ↦ none | some cs ↦ some (adapter_with r cs) ], pins')
bind_modules board digitalio r pins = (
  some (
      unbound r error (
        import_error board "board_module_unavailable"
        ++ import_error digitalio "digitalio_module_unavailable")),
  pins,
)

abbrev pub is_ready : Phase → Bool
is_ready ready = true
is_ready _ = false

unfoldable pub bind_switch_hardware :
    Platform → SwitchRuntime → Pins → Option SwitchHardwareAdapter × Pins
unfolding bind_modules
bind_switch_hardware p r pins =
    if is_ready r.phase
    then bind_modules p.board p.digitalio r pins
    else (some (unbound r r.phase r.errors), pins)
