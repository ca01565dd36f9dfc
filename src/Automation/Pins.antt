-- ===== src/Automation/Pins.antt =====
-- The switches of the automations are those of the switch service: `_find_channel`,
-- `_channel_for_switch_key`, `_channel_state`, and `_apply_action` with the web's
-- `apply_web_switch_override` (features/web_config.py) and `handle_switch_state_request`
-- (features/web_handlers.py), whose success does not depend on what it persists.
use c_py_nodus_ii.Prelude.{
  ℕ, ◌≡◌, ◌≢◌, refl, sym, ap, subst, ◌∙◌, String, Bool, true, false, not, ◌&&◌, ◌||◌, Option, none,
  some, List, [], ◌∷◌, arith, str_eq, if◌then◌else◌, Option-cases, inl, inr,
}
use c_py_nodus_ii.Prelude.Text.{suffix_of}
use c_py_nodus_ii.Switch.Config.{SwitchConfig, update_switch_runtime_config}
use c_py_nodus_ii.Switch.Plan.{ready}
use c_py_nodus_ii.Switch.Hardware.{is_ready}
use c_py_nodus_ii.Switch.Service.{
  Pins, set_pin_value, SwitchChannelService, SwitchService, apply_switch_state, apply_to,
  find_channel, control_value, SwitchApplyResult,
}
use c_py_nodus_ii.Automation.Actions.{Switches}

-- `_find_channel` with the same text as id and as key
unfoldable pub local_channel : String → List SwitchChannelService → Option SwitchChannelService
local_channel suffix [] = none
local_channel suffix (c ∷ cs) =
    if not (str_eq suffix "") && (str_eq c.channel_id suffix || str_eq c.key suffix)
    then some c
    else local_channel suffix cs

abbrev pub channel_for_switch_key : SwitchService → String → Option SwitchChannelService
channel_for_switch_key s switch_key = local_channel (suffix_of switch_key) s.channels

abbrev pub value_of : Option SwitchChannelService → Pins → Option Bool
value_of none pins = none
value_of (some c) pins = control_value c pins

-- The pins, and the configuration that keeps the states for the next boot.
pub record NodeState : Type 0 where
  pub pins : Pins
  pub config : SwitchConfig

unfoldable pub service_channel_state : SwitchService → String → NodeState → Option Bool
service_channel_state s switch_key n = value_of (channel_for_switch_key s switch_key) n.pins

abbrev recorded : SwitchApplyResult → SwitchConfig → SwitchConfig
recorded r config = elim r.applied_state [
  | none ↦ config
  | some state ↦ update_switch_runtime_config config r.key state
]

unfoldable pub apply_web_switch_override :
    SwitchService → String → Bool → NodeState → SwitchApplyResult × NodeState
apply_web_switch_override s channel_id state n =
    let (r, pins') = apply_switch_state s channel_id "" state n.pins in
    (
      r,
      record { pins = pins'; config = if is_ready r.phase then recorded r n.config else n.config },
    )

-- `handle_switch_state_request`, by its success
unfoldable pub switch_state_request : SwitchService → String → Bool → NodeState → Bool × NodeState
switch_state_request s channel_id state n =
    let (r, n') = apply_web_switch_override s channel_id state n in (is_ready r.phase, n')

abbrev pub apply_channel :
    SwitchService → Option SwitchChannelService → Bool → NodeState → Bool × NodeState
apply_channel s none state n = (false, n)
apply_channel s (some c) state n = switch_state_request s c.channel_id state n

unfoldable pub service_apply_action : SwitchService → String → Bool → NodeState → Bool × NodeState
service_apply_action s switch_key state n =
    apply_channel s (channel_for_switch_key s switch_key) state n

-- The service finds by its id the channel that an automation finds, and every ready channel has a
-- control handle.
pub record IsAddressed (s : SwitchService) : Type 0 where
  pub same_channel :
      (switch_key : String) (c d : SwitchChannelService)
      → channel_for_switch_key s switch_key ≡ some c
      → find_channel c.channel_id "" s.channels ≡ some d
      → c ≡ d
  pub has_control :
      (switch_key : String) (c : SwitchChannelService)
      → channel_for_switch_key s switch_key ≡ some c
      → c.phase ≡ ready
      → c.control_handle ≢ none

request_refused :
    (s : SwitchService) (channel_id : String) (state : Bool) (n : NodeState)
    → (switch_state_request s channel_id state n).0 ≡ false
    → (switch_state_request s channel_id state n).1 ≡ n
unfolding switch_state_request apply_web_switch_override apply_switch_state apply_to
request_refused s channel_id state n h =
    elim (Option-cases (find_channel channel_id "" s.channels)) [
      | inl f ↦ ground (arith, f, h)
      | inr (c, f) ↦ ground (arith, f, h)
    ]

control-written :
    (c : SwitchChannelService) (control : Option ℕ) (state : Bool) (pins : Pins)
    → c.control_handle ≡ control
    → control ≢ none
    → control_value c (set_pin_value c.control_handle state pins) ≡ some state
unfolding set_pin_value
control-written c none state pins e h = ground (arith, h)
control-written c (some b) state pins e h = ground (arith, e)

-- A request that is answered with success has found a ready channel and written it.
request_done :
    (s : SwitchService) (channel_id : String) (state : Bool) (n : NodeState)
    → (switch_state_request s channel_id state n).0 ≡ true
    → (c : SwitchChannelService) × (find_channel channel_id "" s.channels ≡ some c)
      × (c.phase ≡ ready)
      × ((switch_state_request s channel_id state n).1.pins
          ≡ set_pin_value c.control_handle state (set_pin_value c.enable_handle true n.pins))
unfolding switch_state_request apply_web_switch_override apply_switch_state apply_to
request_done s channel_id state n h = elim (Option-cases (find_channel channel_id "" s.channels)) [
  | inl f ↦ ground (arith, f, h)
  | inr (c, f) ↦ (c, f, ground (arith, f, h), ground (arith, f, h))
]

module _ (s : SwitchService) (state : Bool) (n : NodeState) where
  pub applied_reads :
      IsAddressed s
      → (key : String) (found : Option SwitchChannelService) → channel_for_switch_key s key ≡ found
      → (apply_channel s found state n).0 ≡ true
      → value_of found ((apply_channel s found state n).1.pins) ≡ some state
  applied_reads a key none e h = ground (arith, h)
  applied_reads a key (some c) e h =
      let (d, f, r, w) = request_done s c.channel_id state n h in
      let same = a.same_channel key c d e f in
      let own = a.has_control key c e (ap (λ (x : SwitchChannelService). x.phase) same ∙ r) in
      let Reads : SwitchChannelService → Type 0 = λ x.
        control_value c
          (set_pin_value x.control_handle state (set_pin_value x.enable_handle true n.pins))
        ≡ some state in
      subst (λ p. control_value c p ≡ some state) (sym w)
        (subst Reads same (control-written c c.control_handle state _ refl own))

  pub refused_keeps :
      (found : Option SwitchChannelService)
      → (apply_channel s found state n).0 ≡ false
      → (apply_channel s found state n).1 ≡ n
  refused_keeps none h = refl
  refused_keeps (some c) h = request_refused s c.channel_id state n h

-- The switch service as the switches of the automations: an application that succeeds is read back
-- from the control pin of the channel, and one that fails changes nothing.
unfoldable pub service_switches : (s : SwitchService) → IsAddressed s → Switches NodeState
unfolding service_channel_state service_apply_action
service_switches s a = record {
  channel_state = λ key n. service_channel_state s key n;
  apply_action = λ key state n. service_apply_action s key state n;
  state-apply =
      λ key state n h. applied_reads s state n a key (channel_for_switch_key s key) refl h;
  apply_refused = λ key state n h. refused_keeps s state n (channel_for_switch_key s key) h;
}
