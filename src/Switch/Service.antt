-- ===== src/Switch/Service.antt =====
-- features/switch_service.py: the pins are the values that the handles hold.
use c_py_nodus_ii.Prelude.{
  ℕ, String, Bool, true, false, not, ◌&&◌, ◌||◌, Option, none, some, List, [], ◌∷◌, ◌++◌, str_eq,
  ◌==◌, if◌then◌else◌,
}
use c_py_nodus_ii.Prelude.Dict.{Dict, insert}
use c_py_nodus_ii.Switch.Plan.{Phase, ready, error, bound, SwitchRuntime, keyed, is_empty}
use c_py_nodus_ii.Switch.Hardware.{SwitchChannelHardwareAdapter, SwitchHardwareAdapter, is_ready}
pub use c_py_nodus_ii.Switch.Hardware.{Pins}

-- `_set_pin_value`
unfoldable pub set_pin_value : Option ℕ → Bool → Pins → Pins
set_pin_value none v pins = pins
set_pin_value (some h) v pins = λ k. if h == k then some v else pins k

pub record SwitchApplyResult : Type 0 where
  pub phase : Phase
  pub key : String
  pub device_id : String
  pub channel_id : String
  pub applied_state : Option Bool
  pub errors : List String

pub record SwitchChannelService : Type 0 where
  pub key : String
  pub channel_id : String
  pub phase : Phase
  pub desired_state : Bool
  pub enable_handle : Option ℕ
  pub control_handle : Option ℕ
  pub errors : List String

pub record SwitchService : Type 0 where
  pub phase : Phase
  pub device_id : String
  pub channel_count : ℕ
  pub channels : List SwitchChannelService
  pub errors : List String

abbrev pub is_bound : Phase → Bool
is_bound bound = true
is_bound _ = false

-- One round of the loop of `start_switch_service`, without its writes.
unfoldable pub channel_service : SwitchChannelHardwareAdapter → SwitchChannelService
channel_service c =
    if is_bound c.phase
    then record {
      key = c.key;
      channel_id = c.channel_id;
      phase = ready;
      desired_state = c.desired_state;
      enable_handle = c.enable_handle;
      control_handle = c.control_handle;
      errors = [];
    }
    else record {
      key = c.key;
      channel_id = "";
      phase = c.phase;
      desired_state = c.desired_state;
      enable_handle = none;
      control_handle = none;
      errors = c.errors;
    }

-- Its writes: enable first, then the desired state.
unfoldable pub drive : SwitchChannelHardwareAdapter → Pins → Pins
drive c pins =
    if is_bound c.phase
    then set_pin_value c.control_handle c.desired_state (set_pin_value c.enable_handle true pins)
    else pins

unfoldable pub start_channels :
    List SwitchChannelHardwareAdapter → Pins → List SwitchChannelService × List String × Pins
start_channels [] pins = ([], [], pins)
start_channels (c ∷ cs) pins =
    let (channels, errors, pins') = start_channels cs (drive c pins) in
    (
      channel_service c ∷ channels,
      (if is_bound c.phase then [] else keyed c.key c.errors) ++ errors,
      pins',
    )

abbrev pub ready_or_error : Bool → Phase
ready_or_error true = ready
ready_or_error false = error

abbrev pub or_else : List String → List String → List String
or_else [] ys = ys
or_else (x ∷ xs) ys = x ∷ xs

unfoldable pub start_switch_service :
    SwitchRuntime → SwitchHardwareAdapter → Pins → SwitchService × Pins
start_switch_service r a pins =
    if not (is_bound a.phase)
    then (
      record {
        phase = a.phase;
        device_id = r.device_id;
        channel_count = r.channel_count;
        channels = [];
        errors = or_else a.errors r.errors;
      },
      pins,
    )
    else let (channels, errors, pins') = start_channels a.channels pins in
      (
        record {
          phase = ready_or_error (is_empty errors);
          device_id = r.device_id;
          channel_count = r.channel_count;
          channels = channels;
          errors = errors;
        },
        pins',
      )

-- `_find_channel`; an argument that is None is the empty text.
unfoldable pub find_channel :
    String → String → List SwitchChannelService → Option SwitchChannelService
find_channel channel_id channel_key [] = none
find_channel channel_id channel_key (c ∷ cs) =
    if not (str_eq channel_key "") && str_eq c.key channel_key
    then some c
    else if not (str_eq channel_id "") && str_eq c.channel_id channel_id
    then some c
    else find_channel channel_id channel_key cs

abbrev refused : SwitchService → String → Phase → String → List String → SwitchApplyResult
refused s channel_id phase key errors = record {
  phase = phase;
  key = key;
  device_id = s.device_id;
  channel_id = channel_id;
  applied_state = none;
  errors = errors;
}

-- `apply_switch_state` once the channel has been looked up.
unfoldable pub apply_to :
    SwitchService
    → String
    → String
    → Bool
    → Option SwitchChannelService
    → Pins
    → SwitchApplyResult × Pins
apply_to s channel_id channel_key state none pins =
    (refused s channel_id error channel_key ("switch_channel_not_found" ∷ []), pins)
apply_to s channel_id channel_key state (some c) pins =
    if not (is_ready c.phase) then (refused s channel_id c.phase c.key c.errors, pins) else (
      record {
        phase = ready;
        key = c.key;
        device_id = s.device_id;
        channel_id = c.channel_id;
        applied_state = some state;
        errors = [];
      },
      set_pin_value c.control_handle state (set_pin_value c.enable_handle true pins),
    )

unfoldable pub apply_switch_state :
    SwitchService → String → String → Bool → Pins → SwitchApplyResult × Pins
apply_switch_state s channel_id channel_key state pins =
    if not (is_ready s.phase)
    then (refused s channel_id s.phase channel_key s.errors, pins)
    else apply_to s channel_id channel_key state (find_channel channel_id channel_key s.channels)
        pins

pub record ChannelSnapshot : Type 0 where
  pub phase : Phase
  pub state : Option Bool

-- `getattr(getattr(channel, "control_handle", None), "value", None)`
abbrev pub control_value : SwitchChannelService → Pins → Option Bool
control_value c pins = elim c.control_handle [ none ↦ none | some h ↦ pins h ]

unfoldable pub snapshot_from :
    List SwitchChannelService → Pins → Dict ChannelSnapshot → Dict ChannelSnapshot
snapshot_from [] pins snapshots = snapshots
snapshot_from (c ∷ cs) pins snapshots =
    snapshot_from cs pins
      (insert c.key (record { phase = c.phase; state = control_value c pins }) snapshots)

abbrev is_error : Phase → Bool
is_error error = true
is_error _ = false

unfoldable pub snapshot_switch_states : SwitchService → Pins → Dict ChannelSnapshot
snapshot_switch_states s pins =
    if is_ready s.phase || is_error s.phase then snapshot_from s.channels pins [] else []
