-- ===== src/Switch/Boot.antt =====
-- The boot of the switch feature as a whole: what it does to the pins, and when every configured
-- channel is driven to its last state.
use c_py_nodus_ii.Prelude.{
  ◌≡◌, refl, Bool, true, false, not, ◌&&◌, List, [], ◌∷◌, arith, if◌then◌else◌, Bool-cases, inl,
  inr,
}
use c_py_nodus_ii.Switch.Config.{SwitchChannelConfig, SwitchConfig}
use c_py_nodus_ii.Switch.Plan.{
  ready, SwitchRuntime, is_empty, plan_errors, plan_switch_initialization, build_switch_runtime,
}
use c_py_nodus_ii.Switch.Hardware.{Platform, Pins, is_ready, bind_modules, bind_switch_hardware}
use c_py_nodus_ii.Switch.Service.{is_bound, start_switch_service}
use c_py_nodus_ii.Switch.Startup.{
  runtime_of, boot, start_bound, is_complete, all, is_usable, driven_by, runtimes,
  is_empty-collect_errors,
}
use c_py_nodus_ii.Switch.Binding.{
  claims_by, outputs_by, readiness, unless_raised, IsBooted, bound-IsBooted,
}

-- Channels that are all complete, in a configuration that has them.
abbrev pub channels_planned : SwitchConfig → Bool
channels_planned cfg = cfg.present && not (is_empty cfg.channels) && all is_complete cfg.channels

-- No pin of the channels whose two pins are on the board is in use when the boot comes to it.
abbrev pub claims : Platform → SwitchConfig → Bool
claims p cfg = if channels_planned cfg then claims_by p.board p.digitalio cfg.channels else true

-- The pins with the outputs that the binding sets.
abbrev pub configured : Platform → SwitchConfig → Pins → Pins
configured p cfg pins =
    if channels_planned cfg then outputs_by p.board p.digitalio cfg.channels pins else pins

module _ (p : Platform) (cfg : SwitchConfig) (pins : Pins) where
  plan_errors-planned :
      (cs : List SwitchChannelConfig)
      → is_empty (plan_errors cs) ≡ (not (is_empty cs) && all is_complete cs)
  unfolding plan_errors
  plan_errors-planned [] = refl
  plan_errors-planned (c ∷ cs) = is_empty-collect_errors (c ∷ cs)

  runtime-ready :
      channels_planned cfg ≡ true
      → ((runtime_of cfg).phase ≡ ready) × ((runtime_of cfg).channels ≡ runtimes cfg.channels)
  unfolding plan_switch_initialization build_switch_runtime
  runtime-ready h = ground (arith, plan_errors-planned cfg.channels)

  runtime-unready :
      channels_planned cfg ≡ false
      → (is_ready (runtime_of cfg).phase ≡ false) × (is_bound (runtime_of cfg).phase ≡ false)
  unfolding plan_switch_initialization build_switch_runtime
  runtime-unready h = ground (arith, plan_errors-planned cfg.channels)

  start-unready :
      (r : SwitchRuntime)
      → is_ready r.phase ≡ false
      → is_bound r.phase ≡ false
      → IsBooted true false (λ pins. pins) pins (start_bound r (bind_switch_hardware p r pins))
  unfolding bind_switch_hardware start_bound start_switch_service
  start-unready r e f = ground arith

  bind-ready :
      (r : SwitchRuntime)
      → r.phase ≡ ready
      → bind_switch_hardware p r pins ≡ bind_modules p.board p.digitalio r pins
  unfolding bind_switch_hardware
  bind-ready r e = ground arith

  -- The boot ends by an exception exactly when a switch is configured with at least one channel, each
  -- channel names its id and both pins, `board` and `digitalio` can be imported, and `DigitalInOut`
  -- refuses a pin, in the order of the channels whose two pins are on the board. Otherwise the service
  -- is ready exactly when all but the last of this holds and the board has both pins of each channel.
  -- The pins that are set to outputs are those of every channel with two pins on the board, up to
  -- the first with a refused pin, whatever becomes of the other channels; and only a service that is
  -- ready writes values, behind that: it turns on each enable pin and writes each last state, in the
  -- order of the channels.
  pub boot_drives_all_or_none :
      let (s, pins') = boot p cfg pins in
      (readiness s ≡ unless_raised (claims p cfg) (is_usable p cfg))
      × (pins' ≡ (
          if claims p cfg && is_usable p cfg
          then driven_by p.board p.digitalio cfg.channels (configured p cfg pins)
          else configured p cfg pins))
  unfolding boot
  boot_drives_all_or_none = elim (Bool-cases (channels_planned cfg)) [
    | inl h ↦
        let (ok, chs) = runtime-ready h in
        let (is, ends) =
          bound-IsBooted p.board p.digitalio cfg.channels (runtime_of cfg) pins chs in
        rw (bind-ready (runtime_of cfg) ok, is, ends, h) (refl, refl)
    | inr h ↦
        let (no_ready, no_bound) = runtime-unready h in
        let (is, ends) = start-unready (runtime_of cfg) no_ready no_bound in
        rw (is, ends, h) (refl, refl)
  ]
