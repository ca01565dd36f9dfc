-- ===== src/Switch/Tests.antt =====
-- A greenhouse with a pump and a fan, each on two pins of a board with four.
use c_py_nodus_ii.Prelude.{
  ℕ, String, ◌≡◌, ◌≢◌, Bool, not, ◌||◌, ◌&&◌, List, ◌==◌, refl, true, false, Option, none, some, [],
  ◌∷◌, arith, All, str_eq, eq_iff, if◌then◌else◌,
}
use c_py_nodus_ii.Prelude.Dict.{lookup}
use c_py_nodus_ii.Switch.Config.{SwitchChannelConfig, SwitchConfig}
use c_py_nodus_ii.Switch.Plan.{ready}
use c_py_nodus_ii.Switch.Hardware.{Digitalio}
use c_py_nodus_ii.Switch.Service.{
  Pins, SwitchService, SwitchChannelService, apply_switch_state, snapshot_switch_states,
}
use c_py_nodus_ii.Switch.Startup.{boot, is_usable, driven_by}
use c_py_nodus_ii.Switch.Boot.{boot_drives_all_or_none, claims, configured}
use c_py_nodus_ii.Switch.Restored.{
  boot_restores_states, value_at, wired, Restored, RefusesClaimedOnly,
}
use c_py_nodus_ii.Switch.Binding.{readiness, unless_raised}
use c_py_nodus_ii.Switch.Apply.{snapshot-apply_switch_state}

abbrev pump : SwitchChannelConfig
pump = record {
  key = "SWITCH_0";
  label = "Pump";
  channel_id = "dev-ch0";
  enable_pin = "D0";
  control_pin = "D1";
  last_state = true;
  override_script = false;
}

abbrev fan : SwitchChannelConfig
fan = record {
  key = "SWITCH_1";
  label = "Fan";
  channel_id = "dev-ch1";
  enable_pin = "D2";
  control_pin = "D3";
  last_state = false;
  override_script = false;
}

abbrev greenhouse : SwitchConfig
greenhouse = record {
  present = true;
  device_id = "dev";
  serial_number = "1";
  location = "greenhouse";
  channel_count = 2;
  channels = pump ∷ fan ∷ [];
}

abbrev board : String → Option ℕ
board pin =
    if str_eq pin "D0"
    then some 0
    else if str_eq pin "D1"
    then some 1
    else if str_eq pin "D2"
    then some 2
    else if str_eq pin "D3"
    then some 3
    else none

abbrev is_claimed : List ℕ → ℕ → Bool
is_claimed [] pin = false
is_claimed (other ∷ claimed) pin = other == pin || is_claimed claimed pin

-- A handle is as the pin; a pin is refused that has been claimed; an output begins with false.
abbrev dio : Digitalio
dio = record {
  handle_of = λ pin. pin;
  is_free = λ claimed pin. not (is_claimed claimed pin);
  set_output = λ h pins k. if h == k then some false else pins k;
}

claimed_elsewhere :
    (claimed : List ℕ) (pin : ℕ)
    → All (λ other. other ≢ pin) claimed
    → is_claimed claimed pin ≡ false
claimed_elsewhere [] pin h = refl
claimed_elsewhere (other ∷ claimed) pin (ne, h) =
    let rest = claimed_elsewhere claimed pin h in ground arith

dio-RefusesClaimedOnly : RefusesClaimedOnly dio
dio-RefusesClaimedOnly claimed pin h = rw (claimed_elsewhere claimed pin h) refl

abbrev dark : Pins
dark h = none

-- The fan is on a pin that the board has not.
abbrev fan_unwired : SwitchConfig
fan_unwired = record greenhouse { channels = pump ∷ record fan { control_pin = "D9" } ∷ [] }

-- Its enable pin is the control pin of the pump.
abbrev pin_shared : SwitchConfig
pin_shared = record greenhouse { channels = pump ∷ record fan { enable_pin = "D1" } ∷ [] }

boot_drives_all_or_none_example :
    let (s, pins') = boot (wired board dio) fan_unwired dark in
    (readiness s
      ≡ unless_raised
          (claims (wired board dio) fan_unwired)
          (is_usable (wired board dio) fan_unwired))
    × (pins' ≡ (
        if claims (wired board dio) fan_unwired && is_usable (wired board dio) fan_unwired
        then driven_by
            (some board)
            (some dio)
            (pump ∷ record fan { control_pin = "D9" } ∷ [])
            (configured (wired board dio) fan_unwired dark)
        else configured (wired board dio) fan_unwired dark))
boot_drives_all_or_none_example = boot_drives_all_or_none (wired board dio) fan_unwired dark

-- Both pins of the pump are outputs although the service is not ready.
pump_is_output :
    (is_usable (wired board dio) fan_unwired ≡ false)
    × (value_at (some 0) (configured (wired board dio) fan_unwired dark) ≡ some false)
    × (value_at (some 1) (configured (wired board dio) fan_unwired dark) ≡ some false)
    × (value_at (some 2) (configured (wired board dio) fan_unwired dark) ≡ none)
pump_is_output = (refl, refl, refl, refl)

shared_pin_raises : claims (wired board dio) pin_shared ≡ false
shared_pin_raises = refl

boot_restores_states_example :
    let (s, pins') = boot (wired board dio) greenhouse dark in
    (readiness s ≡ some true) × All (Restored board dio.handle_of pins') (pump ∷ fan ∷ [])
boot_restores_states_example =
    boot_restores_states board dio greenhouse dark dio-RefusesClaimedOnly refl (ground arith)

abbrev pump_service : SwitchChannelService
pump_service = record {
  key = "SWITCH_0";
  channel_id = "dev-ch0";
  phase = ready;
  desired_state = true;
  enable_handle = some 0;
  control_handle = some 1;
  errors = [];
}

abbrev fan_service : SwitchChannelService
fan_service = record {
  key = "SWITCH_1";
  channel_id = "dev-ch1";
  phase = ready;
  desired_state = false;
  enable_handle = some 2;
  control_handle = some 3;
  errors = [];
}

abbrev service : SwitchService
service = record {
  phase = ready;
  device_id = "dev";
  channel_count = 2;
  channels = pump_service ∷ fan_service ∷ [];
  errors = [];
}

snapshot-apply_switch_state_example :
    lookup "SWITCH_0"
      (snapshot_switch_states service ((apply_switch_state service "" "SWITCH_1" true dark).1))
    ≡ lookup "SWITCH_0" (snapshot_switch_states service dark)
snapshot-apply_switch_state_example =
    snapshot-apply_switch_state service (pump_service ∷ []) [] fan_service true dark "SWITCH_0" refl
      refl (ground (arith, eq_iff "SWITCH_1" "")) refl (ground arith)
      (ground (arith, eq_iff "SWITCH_1" "SWITCH_0")) tt
