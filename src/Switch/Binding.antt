-- ===== src/Switch/Binding.antt =====
-- What `bind_switch_hardware` does to the pins: which it claims and turns to outputs, and where it
-- ends by an exception.
use c_py_nodus_ii.Prelude.{
  ℕ, String, ◌≡◌, refl, ◌∙◌, Bool, true, ◌&&◌, Option, none, some, List, [], ◌∷◌, if◌then◌else◌,
  Bool-cases, inl, inr,
}
use c_py_nodus_ii.Switch.Config.{SwitchChannelConfig}
use c_py_nodus_ii.Switch.Plan.{SwitchRuntime, SwitchChannelRuntime, plan_channel, channel_runtime}
use c_py_nodus_ii.Switch.Hardware.{
  Digitalio, Pins, SwitchChannelHardwareAdapter, can_claim, configure_outputs, with_channel,
  bind_pins, bind_channels, bind_modules, channel_binding, is_ready,
}
use c_py_nodus_ii.Switch.Service.{SwitchService, start_switch_service}
use c_py_nodus_ii.Switch.Startup.{
  runtimes, bindings, start_bound, modules_find, driven_by, started-bindings,
}

-- The two pins of each channel that the board has both pins of.
abbrev with_pins : Option ℕ → Option ℕ → List (ℕ × ℕ) → List (ℕ × ℕ)
with_pins (some enable) (some control) found = (enable, control) ∷ found
with_pins _ _ found = found

abbrev pub found_pins : (String → Option ℕ) → List SwitchChannelConfig → List (ℕ × ℕ)
found_pins board [] = []
found_pins board (c ∷ cs) =
    with_pins (board c.enable_pin) (board c.control_pin) (found_pins board cs)

-- `DigitalInOut` makes a handle of every one of the pins in turn.
abbrev pub all_free : Digitalio → List ℕ → List (ℕ × ℕ) → Bool
all_free d claimed [] = true
all_free d claimed ((enable, control) ∷ found) =
    can_claim d claimed enable control && all_free d (control ∷ enable ∷ claimed) found

-- The pins that become outputs: both of each channel, up to the first channel that has a pin in use.
abbrev pub outputs : Digitalio → List ℕ → List (ℕ × ℕ) → Pins → Pins
outputs d claimed [] pins = pins
outputs d claimed ((enable, control) ∷ found) pins =
    let later =
      outputs d (control ∷ enable ∷ claimed) found (configure_outputs d enable control pins) in
    if can_claim d claimed enable control then later else pins

abbrev pub unless_raised : {A : Type 0} → Bool → A → Option A
unless_raised free a = if free then some a else none

module _ (board : String → Option ℕ) (d : Digitalio) where
  -- What becomes of the claims on the pins that are found, where nothing raised gives the channels.
  abbrev bound_as :
      List ℕ
      → List (ℕ × ℕ)
      → List SwitchChannelHardwareAdapter
      → Pins
      → Option (List SwitchChannelHardwareAdapter) × Pins
  bound_as claimed found bs pins =
      (unless_raised (all_free d claimed found) bs, outputs d claimed found pins)

  abbrev next_round :
      List SwitchChannelRuntime
      → Option SwitchChannelHardwareAdapter × List ℕ × Pins
      → Option (List SwitchChannelHardwareAdapter) × Pins
  next_round rs (binding, claimed, pins) =
      let (rest, pins') = bind_channels board d rs claimed pins in
      elim binding [ none ↦ (none, pins) | some a ↦ (with_channel a rest, pins') ]

  -- One round of the loop, with the two pins of the channel.
  bind_round :
      (r : SwitchChannelRuntime) (rs : List SwitchChannelRuntime) (found : List (ℕ × ℕ))
      (bs : List SwitchChannelHardwareAdapter)
      → ((claimed : List ℕ) (pins : Pins)
          → bind_channels board d rs claimed pins ≡ bound_as claimed found bs pins)
      → (enable control : Option ℕ) (claimed : List ℕ) (pins : Pins)
      → next_round rs (bind_pins d r enable control claimed pins)
        ≡ bound_as claimed
            (with_pins enable control found)
            (channel_binding d r enable control ∷ bs)
            pins
  unfolding bind_pins
  bind_round r rs found bs ih none control claimed pins =
      rw (ih claimed pins)
        (elim (Bool-cases (all_free d claimed found)) [ inl h ↦ rw h refl | inr h ↦ rw h refl ])
  bind_round r rs found bs ih (some enable) none claimed pins =
      rw (ih claimed pins)
        (elim (Bool-cases (all_free d claimed found)) [ inl h ↦ rw h refl | inr h ↦ rw h refl ])
  bind_round r rs found bs ih (some enable) (some control) claimed pins =
      let claimed' = control ∷ enable ∷ claimed in
      elim (Bool-cases (can_claim d claimed enable control)) [
        | inl f ↦
            rw (f, ih claimed' (configure_outputs d enable control pins))
              (elim (Bool-cases (all_free d claimed' found)) [
                | inl h ↦ rw h refl
                | inr h ↦ rw h refl
              ])
        | inr f ↦ rw f refl
      ]

  bind_channels-found :
      (cs : List SwitchChannelConfig) (claimed : List ℕ) (pins : Pins)
      → bind_channels board d (runtimes cs) claimed pins
        ≡ bound_as claimed (found_pins board cs) (bindings board d (runtimes cs)) pins
  unfolding bind_channels channel_runtime plan_channel
  bind_channels-found [] claimed pins = refl
  bind_channels-found (c ∷ cs) claimed pins =
      bind_round (channel_runtime (plan_channel c)) (runtimes cs) (found_pins board cs)
        (bindings board d (runtimes cs)) (bind_channels-found cs) (board c.enable_pin)
        (board c.control_pin) claimed pins

-- The same where the modules are there.
abbrev pub claims_by :
    Option (String → Option ℕ) → Option Digitalio → List SwitchChannelConfig → Bool
claims_by (some board) (some d) cs = all_free d [] (found_pins board cs)
claims_by _ _ cs = true

abbrev pub outputs_by :
    Option (String → Option ℕ) → Option Digitalio → List SwitchChannelConfig → Pins → Pins
outputs_by (some board) (some d) cs pins = outputs d [] (found_pins board cs) pins
outputs_by _ _ cs pins = pins

-- Whether the service of a boot is ready; `none` where the boot raised.
abbrev pub readiness : Option SwitchService → Option Bool
readiness none = none
readiness (some s) = some (is_ready s.phase)

-- The service is ready where the boot needs no more than that, and the pins are driven then; the
-- outputs are set before, and an exception leaves them set.
abbrev pub IsBooted : Bool → Bool → (Pins → Pins) → Pins → Option SwitchService × Pins → Type 0
IsBooted claims usable drives configured booted =
    (readiness booted.0 ≡ unless_raised claims usable)
    × (booted.1 ≡ (if claims && usable then drives configured else configured))

pub booted-usable :
    (claims usable : Bool) (drives : Pins → Pins) (configured : Pins)
    (booted : Option SwitchService × Pins)
    → IsBooted claims usable drives configured booted
    → claims ≡ true
    → usable ≡ true
    → (readiness booted.0 ≡ some true) × (booted.1 ≡ drives configured)
booted-usable claims usable drives configured booted (is, ends) c u =
    (is ∙ rw (c, u) refl, ends ∙ rw (c, u) refl)

-- What a boot of a usable runtime does, module by module.
pub bound-IsBooted :
    (board : Option (String → Option ℕ)) (dio : Option Digitalio) (cs : List SwitchChannelConfig)
    (r : SwitchRuntime) (pins : Pins)
    → r.channels ≡ runtimes cs
    → IsBooted
        (claims_by board dio cs)
        (modules_find board dio cs)
        (driven_by board dio cs)
        (outputs_by board dio cs pins)
        (start_bound r (bind_modules board dio r pins))
unfolding bind_modules start_bound start_switch_service
bound-IsBooted none none cs r pins e = (refl, refl)
bound-IsBooted none (some d) cs r pins e = (refl, refl)
bound-IsBooted (some b) none cs r pins e = (refl, refl)
bound-IsBooted (some b) (some d) cs r pins e =
    let claims = all_free d [] (found_pins b cs) in
    rw (e, bind_channels-found b d cs [] pins)
      (elim (Bool-cases claims) [
        | inl h ↦
            let (is, ends) = started-bindings b d cs r (outputs d [] (found_pins b cs) pins) in
            rw (h, is, ends) (refl, refl)
        | inr h ↦ rw h (refl, refl)
      ])
