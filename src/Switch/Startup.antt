-- ===== src/Switch/Startup.antt =====
-- The boot of the switch feature as a whole, `_build_switch_stack` of app.py, and how the channels
-- that are bound are started.
use c_py_nodus_ii.Prelude.{
  ℕ, String, ◌≡◌, refl, ap, ◌∙◌, Bool, true, false, not, ◌&&◌, Option, none, some, List, [], ◌∷◌,
  ◌++◌, map, arith, str_eq, if◌then◌else◌, Bool-cases, inl, inr,
}
use c_py_nodus_ii.Switch.Config.{SwitchChannelConfig, SwitchConfig}
use c_py_nodus_ii.Switch.Plan.{
  SwitchRuntime, SwitchChannelRuntime, is_empty, keyed, channel_errors, collect_errors,
  plan_channel, plan_switch_initialization, channel_runtime, build_switch_runtime,
}
use c_py_nodus_ii.Switch.Hardware.{
  Platform, Digitalio, SwitchHardwareAdapter, SwitchChannelHardwareAdapter, is_ready,
  channel_binding, adapter_with, adapter_errors, bind_switch_hardware,
}
use c_py_nodus_ii.Switch.Service.{
  Pins, set_pin_value, SwitchService, is_bound, drive, start_channels, start_switch_service,
}

abbrev pub runtime_of : SwitchConfig → SwitchRuntime
runtime_of cfg = build_switch_runtime (plan_switch_initialization cfg)

-- What follows the binding; its exception ends the boot.
unfoldable pub start_bound :
    SwitchRuntime → Option SwitchHardwareAdapter × Pins → Option SwitchService × Pins
unfolding start_switch_service
start_bound r (none, pins) = (none, pins)
start_bound r (some a, pins) = let (s, pins') = start_switch_service r a pins in (some s, pins')

-- The four calls of `_build_switch_stack`, which it leaves out where no switch is configured; `none`
-- is an exception.
unfoldable pub boot : Platform → SwitchConfig → Pins → Option SwitchService × Pins
unfolding start_bound bind_switch_hardware
boot p cfg pins = start_bound (runtime_of cfg) (bind_switch_hardware p (runtime_of cfg) pins)

-- A channel that names its id and both its pins.
abbrev pub is_complete : SwitchChannelConfig → Bool
is_complete c =
    not (str_eq c.channel_id "") && not (str_eq c.enable_pin "") && not (str_eq c.control_pin "")

abbrev pub is_some {ℓ} : {A : Type ℓ} → Option A → Bool
is_some none = false
is_some (some a) = true

abbrev pub all {ℓ} : {A : Type ℓ} → (A → Bool) → List A → Bool
all f [] = true
all f (x ∷ xs) = f x && all f xs

-- Both pins of the channel are on the board.
abbrev pub has_pins : (String → Option ℕ) → SwitchChannelConfig → Bool
has_pins board c = is_some (board c.enable_pin) && is_some (board c.control_pin)

abbrev pub modules_find :
    Option (String → Option ℕ) → Option Digitalio → List SwitchChannelConfig → Bool
modules_find (some board) (some digitalio) cs = all (has_pins board) cs
modules_find _ _ cs = false

-- What the boot needs of the configuration and the board.
abbrev pub is_usable : Platform → SwitchConfig → Bool
is_usable p cfg =
    cfg.present
    && not (is_empty cfg.channels)
    && all is_complete cfg.channels
    && modules_find p.board p.digitalio cfg.channels

is_empty-append {ℓ} :
    {A : Type ℓ} (xs ys : List A) → is_empty (xs ++ ys) ≡ (is_empty xs && is_empty ys)
is_empty-append [] ys = refl
is_empty-append (x ∷ xs) ys = refl

is_empty-keyed :
    (key : String) (errors : List String) → is_empty (keyed key errors) ≡ is_empty errors
is_empty-keyed key [] = refl
is_empty-keyed key (e ∷ es) = refl

is_empty-channel_errors : (c : SwitchChannelConfig) → is_empty (channel_errors c) ≡ is_complete c
unfolding channel_errors
is_empty-channel_errors c = ground arith

pub is_empty-collect_errors :
    (cs : List SwitchChannelConfig) → is_empty (collect_errors cs) ≡ all is_complete cs
unfolding collect_errors
is_empty-collect_errors [] = refl
is_empty-collect_errors (c ∷ cs) =
    simp (is_empty-append, is_empty-keyed, is_empty-channel_errors, is_empty-collect_errors cs)

is_empty-channel_binding :
    (d : Digitalio) (c : SwitchChannelRuntime) (enable control : Option ℕ)
    → is_empty (channel_binding d c enable control).errors ≡ (is_some enable && is_some control)
unfolding channel_binding
is_empty-channel_binding d c enable control = ground arith

abbrev pub runtimes : List SwitchChannelConfig → List SwitchChannelRuntime
runtimes cs = map channel_runtime (map plan_channel cs)

-- What the loop makes of the channels, one by one, where nothing is raised.
abbrev pub bindings :
    (String → Option ℕ) → Digitalio → List SwitchChannelRuntime → List SwitchChannelHardwareAdapter
bindings board d [] = []
bindings board d (c ∷ cs) =
    channel_binding d c (board c.enable_pin) (board c.control_pin) ∷ bindings board d cs

is_empty-adapter_errors :
    (board : String → Option ℕ) (d : Digitalio) (cs : List SwitchChannelConfig)
    → is_empty (adapter_errors (bindings board d (runtimes cs))) ≡ all (has_pins board) cs
is_empty-adapter_errors board d [] = refl
is_empty-adapter_errors board d (c ∷ cs) =
    simp
      (
        is_empty-append,
        is_empty-keyed,
        is_empty-channel_binding,
        is_empty-adapter_errors board d cs,
      )
      (unfold channel_runtime plan_channel in refl)

-- The handle of a pin of the board.
abbrev pub handle_at : (String → Option ℕ) → (ℕ → ℕ) → String → Option ℕ
handle_at board dio pin = elim (board pin) [ none ↦ none | some k ↦ some (dio k) ]

-- The writes for each channel in turn: enable on, then the last state.
abbrev pub driven : (String → Option ℕ) → (ℕ → ℕ) → List SwitchChannelConfig → Pins → Pins
driven board dio [] pins = pins
driven board dio (c ∷ cs) pins = driven board dio cs (
    set_pin_value (handle_at board dio c.control_pin) c.last_state
      (set_pin_value (handle_at board dio c.enable_pin) true pins))

drive-channel_binding :
    (board : String → Option ℕ) (d : Digitalio) (c : SwitchChannelConfig) (pins : Pins)
    → has_pins board c ≡ true
    → let a =
        channel_binding d
          (channel_runtime (plan_channel c))
          (board c.enable_pin)
          (board c.control_pin) in
      (is_bound a.phase ≡ true)
      × (drive a pins
          ≡ set_pin_value
              (handle_at board d.handle_of c.control_pin)
              c.last_state
              (set_pin_value (handle_at board d.handle_of c.enable_pin) true pins))
unfolding channel_binding channel_runtime plan_channel drive
drive-channel_binding board d c pins h = ground arith

start_channels-bound :
    (a : SwitchChannelHardwareAdapter) (rest : List SwitchChannelHardwareAdapter) (pins : Pins)
    → is_bound a.phase ≡ true
    → (start_channels (a ∷ rest) pins).1 ≡ (start_channels rest (drive a pins)).1
unfolding start_channels
start_channels-bound a rest pins h = rw h

start_channels-driven :
    (board : String → Option ℕ) (d : Digitalio) (cs : List SwitchChannelConfig) (pins : Pins)
    → all (has_pins board) cs ≡ true
    → let (channels, errors, pins') = start_channels (bindings board d (runtimes cs)) pins in
      (errors ≡ []) × (pins' ≡ driven board d.handle_of cs pins)
unfolding start_channels channel_runtime plan_channel
start_channels-driven board d [] pins h = (refl, refl)
start_channels-driven board d (c ∷ cs) pins h =
    let (here, later) : (has_pins board c ≡ true) × (all (has_pins board) cs ≡ true) =
      ground arith in
    let a =
      channel_binding d (channel_runtime (plan_channel c)) (board c.enable_pin)
        (board c.control_pin) in
    let (binds, drives) = drive-channel_binding board d c pins here in
    let (none_left, ends) = start_channels-driven board d cs (drive a pins) later in
    (
      start_channels-bound a (bindings board d (runtimes cs)) pins binds ∙ none_left,
      ends ∙ ap (driven board d.handle_of cs) drives,
    )

-- The writes of the boot, where the modules are there.
abbrev pub driven_by :
    Option (String → Option ℕ) → Option Digitalio → List SwitchChannelConfig → Pins → Pins
driven_by (some board) (some d) cs pins = driven board d.handle_of cs pins
driven_by _ _ cs pins = pins

-- What the start does with the bound channels.
pub started-bindings :
    (board : String → Option ℕ) (d : Digitalio) (cs : List SwitchChannelConfig) (r : SwitchRuntime)
    (pins : Pins)
    → let (s, pins') =
        start_switch_service r (adapter_with r (bindings board d (runtimes cs))) pins in
      (is_ready s.phase ≡ all (has_pins board) cs)
      × (pins' ≡ (if all (has_pins board) cs then driven board d.handle_of cs pins else pins))
unfolding start_switch_service
started-bindings board d cs r pins =
    rw (is_empty-adapter_errors board d cs) (elim (Bool-cases (all (has_pins board) cs)) [
      | inl h ↦
          let (none_left, drives) = start_channels-driven board d cs pins h in
          rw (h, none_left, drives) (refl, refl)
      | inr h ↦ rw h (refl, refl)
    ])
