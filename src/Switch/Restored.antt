-- ===== src/Switch/Restored.antt =====
-- What a boot leaves on the pins of the channels, where no two of them share a pin.
use c_py_nodus_ii.Prelude.{
  ℕ, String, ◌≡◌, ◌≢◌, sym, All, refl, ◌∙◌, Bool, true, Option, none, some, List, [], ◌∷◌, arith,
  Option-cases, inl, inr, ap, subst,
}
use c_py_nodus_ii.Switch.Config.{SwitchChannelConfig, SwitchConfig}
use c_py_nodus_ii.Switch.Hardware.{Digitalio, Platform, Pins, can_claim}
use c_py_nodus_ii.Switch.Service.{set_pin_value}
use c_py_nodus_ii.Switch.Startup.{boot, all, has_pins, is_usable, handle_at, driven, driven_by}
use c_py_nodus_ii.Switch.Binding.{all_free, found_pins, readiness, booted-usable}
use c_py_nodus_ii.Switch.Boot.{channels_planned, claims, configured, boot_drives_all_or_none}

-- The value that a handle holds.
abbrev pub value_at : Option ℕ → Pins → Option Bool
value_at none pins = none
value_at (some h) pins = pins h

module _ (board : String → Option ℕ) (dio : ℕ → ℕ) where
  abbrev enable_of : SwitchChannelConfig → Option ℕ
  enable_of c = handle_at board dio c.enable_pin

  abbrev control_of : SwitchChannelConfig → Option ℕ
  control_of c = handle_at board dio c.control_pin

  -- A handle that no channel of the list drives.
  abbrev pub Free : Option ℕ → List SwitchChannelConfig → Type 0
  Free h cs = All (λ c. (enable_of c ≢ h) × (control_of c ≢ h)) cs

  -- No two pins of the channels share a handle.
  abbrev pub Apart : List SwitchChannelConfig → Type 0
  Apart [] = Unit
  Apart (c ∷ cs) =
      (enable_of c ≢ control_of c) × Free (enable_of c) cs × Free (control_of c) cs × Apart cs

  -- The channel's enable pin is on and its control pin is at the last state.
  abbrev pub Restored : Pins → SwitchChannelConfig → Type 0
  Restored pins c =
      (value_at (enable_of c) pins ≡ some true) × (value_at (control_of c) pins ≡ some c.last_state)

  set_pin_value-other :
      (h k : Option ℕ) (v : Bool) (pins : Pins)
      → h ≢ k
      → value_at k (set_pin_value h v pins) ≡ value_at k pins
  unfolding set_pin_value
  set_pin_value-other none k v pins ne = refl
  set_pin_value-other (some h) none v pins ne = refl
  set_pin_value-other (some h) (some k) v pins ne = ground arith

  set_pin_value_self :
      (h : Option ℕ) (v : Bool) (pins : Pins)
      → h ≢ none
      → value_at h (set_pin_value h v pins) ≡ some v
  unfolding set_pin_value
  set_pin_value_self none v pins ne = absurd (ne refl)
  set_pin_value_self (some h) v pins ne = ground arith

  driven-other :
      (h : Option ℕ) (cs : List SwitchChannelConfig) (pins : Pins)
      → Free h cs
      → value_at h (driven board dio cs pins) ≡ value_at h pins
  driven-other h [] pins f = refl
  driven-other h (c ∷ cs) pins f =
      driven-other h cs _ f.1
      ∙ set_pin_value-other (control_of c) h c.last_state _ f.0.1
      ∙ set_pin_value-other (enable_of c) h true pins f.0.0

  handles_found :
      (c : SwitchChannelConfig)
      → has_pins board c ≡ true
      → (enable_of c ≢ none) × (control_of c ≢ none)
  handles_found c h = ground arith

  driven-Restored :
      (cs : List SwitchChannelConfig) (pins : Pins)
      → all (has_pins board) cs ≡ true
      → Apart cs
      → All (Restored (driven board dio cs pins)) cs
  driven-Restored [] pins h a = tt
  driven-Restored (c ∷ cs) pins h a =
      let (here, later) : (has_pins board c ≡ true) × (all (has_pins board) cs ≡ true) =
        ground arith in
      let (has_enable, has_control) = handles_found c here in
      (
        (
          driven-other (enable_of c) cs _ a.1
              ∙ set_pin_value-other (control_of c) (enable_of c) c.last_state _ (λ e. a.0 (sym e))
              ∙ set_pin_value_self (enable_of c) true pins has_enable,
          driven-other (control_of c) cs _ a.2
              ∙ set_pin_value_self (control_of c) c.last_state _ has_control,
        ),
        driven-Restored cs _ later a.3,
      )

-- A board and `digitalio` that can both be imported.
abbrev pub wired : (String → Option ℕ) → Digitalio → Platform
wired board d = record { board = some board; digitalio = some d }

-- `DigitalInOut` refuses only a pin that it has made a handle of.
abbrev pub RefusesClaimedOnly : Digitalio → Type 0
RefusesClaimedOnly d =
    (claimed : List ℕ) (pin : ℕ) → All (λ other. other ≢ pin) claimed → d.is_free claimed pin ≡ true

module _ (board : String → Option ℕ) (d : Digitalio) (law : RefusesClaimedOnly d) where
  abbrev ApartFrom : List SwitchChannelConfig → List ℕ → Type 0
  ApartFrom cs claimed = All (λ pin. Free board d.handle_of (some (d.handle_of pin)) cs) claimed

  handle_found :
      (pin : String) (n : ℕ)
      → board pin ≡ some n
      → handle_at board d.handle_of pin ≡ some (d.handle_of n)
  handle_found pin n e = rw (handle_at, e) refl

  later-ApartFrom :
      (c : SwitchChannelConfig) (cs : List SwitchChannelConfig) (claimed : List ℕ)
      → ApartFrom (c ∷ cs) claimed
      → ApartFrom cs claimed
  later-ApartFrom c cs [] h = tt
  later-ApartFrom c cs (pin ∷ claimed) (h, hs) = (h.1, later-ApartFrom c cs claimed hs)

  -- The two pins of the first channel are not among the claimed ones.
  unclaimed :
      (c : SwitchChannelConfig) (cs : List SwitchChannelConfig) (claimed : List ℕ)
      (enable control : ℕ)
      → board c.enable_pin ≡ some enable
      → board c.control_pin ≡ some control
      → ApartFrom (c ∷ cs) claimed
      → All (λ other. other ≢ enable) claimed × All (λ other. other ≢ control) claimed
  unclaimed c cs [] enable control e k h = (tt, tt)
  unclaimed c cs (pin ∷ claimed) enable control e k (h, hs) =
      let (not_enable, not_control) = unclaimed c cs claimed enable control e k hs in
      (
        (
          λ same.
              h.0.0
                (handle_found c.enable_pin enable e ∙ ap (λ n. some (d.handle_of n)) (sym same)),
          not_enable,
        ),
        (
          λ same.
              h.0.1
                (handle_found c.control_pin control k ∙ ap (λ n. some (d.handle_of n)) (sym same)),
          not_control,
        ),
      )

  all_free-Apart :
      (cs : List SwitchChannelConfig) (claimed : List ℕ)
      → all (has_pins board) cs ≡ true
      → ApartFrom cs claimed
      → Apart board d.handle_of cs
      → all_free d claimed (found_pins board cs) ≡ true
  all_free-Apart [] claimed h f a = refl
  all_free-Apart (c ∷ cs) claimed h f a = elim (Option-cases (board c.enable_pin)) [
    | inl e ↦ ground (arith, h, e)
    | inr (enable, e) ↦ elim (Option-cases (board c.control_pin)) [
      | inl k ↦ ground (arith, h, k)
      | inr (control, k) ↦
          let (not_enable, not_control) = unclaimed c cs claimed enable control e k f in
          let enable_handle = handle_found c.enable_pin enable e in
          let control_handle = handle_found c.control_pin control k in
          let apart : enable ≢ control = (λ same.
            a.0 (enable_handle ∙ ap (λ n. some (d.handle_of n)) same ∙ sym control_handle)) in
          let here : can_claim d claimed enable control ≡ true =
            rw (law claimed enable not_enable, law (enable ∷ claimed) control (apart, not_control))
              refl in
          let later =
            all_free-Apart cs (control ∷ enable ∷ claimed) (ground (arith, h))
              (
                subst (λ h. Free board d.handle_of h cs) control_handle a.2,
                (
                  subst (λ h. Free board d.handle_of h cs) enable_handle a.1,
                  later-ApartFrom c cs claimed f,
                ),
              )
              a.3 in
          rw (e, k, here, later) refl
    ]
  ]

-- Where the boot is usable, no two configured pins share a handle, and `DigitalInOut` refuses only a
-- pin that this boot has claimed before, the boot raises nothing, the service is ready, and each
-- channel's enable pin is on and its control pin holds the state that was saved for it.
pub boot_restores_states :
    (board : String → Option ℕ) (d : Digitalio) (cfg : SwitchConfig) (pins : Pins)
    → RefusesClaimedOnly d
    → is_usable (wired board d) cfg ≡ true
    → Apart board d.handle_of cfg.channels
    → let (s, pins') = boot (wired board d) cfg pins in
      (readiness s ≡ some true) × All (Restored board d.handle_of pins') cfg.channels
boot_restores_states board d cfg pins law usable apart =
    let planned : channels_planned cfg ≡ true = ground arith in
    let found : all (has_pins board) cfg.channels ≡ true = ground arith in
    let free = all_free-Apart board d law cfg.channels [] found tt apart in
    let p = wired board d in
    let claimed : claims p cfg ≡ true = rw (planned, free) refl in
    let (is, ends) =
      booted-usable (claims p cfg) (is_usable p cfg) (driven_by p.board p.digitalio cfg.channels)
        (configured p cfg pins) (boot p cfg pins) (boot_drives_all_or_none p cfg pins) claimed
        usable in
    (is, rw ends (driven-Restored board d.handle_of cfg.channels _ found apart))
