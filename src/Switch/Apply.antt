-- ===== src/Switch/Apply.antt =====
-- `apply_switch_state` and the snapshot that the node publishes: a command changes what is shown of
-- its own channel and of no other.
use c_py_nodus_ii.Prelude.{
  ℕ, String, ◌≡◌, ◌≢◌, ◌⊎◌, refl, ◌∙◌, Bool, true, Option, none, some, List, [], ◌∷◌, ◌++◌, arith,
  str_eq, eq_iff, if◌then◌else◌, All, Option-cases, Bool-cases, inl, inr, ap,
}
use c_py_nodus_ii.Prelude.Dict.{Dict, lookup, insert, lookup-insert}
use c_py_nodus_ii.Switch.Plan.{ready}
use c_py_nodus_ii.Switch.Service.{
  Pins, set_pin_value, SwitchChannelService, SwitchService, find_channel, apply_to,
  apply_switch_state, ChannelSnapshot, control_value, snapshot_from, snapshot_switch_states,
}

-- A command that is not applied changes no pin, and one that is reports the state that it wrote.
pub apply_reports_what_it_wrote :
    (s : SwitchService) (channel_id channel_key : String) (state : Bool) (pins : Pins)
    → let (r, pins') = apply_switch_state s channel_id channel_key state pins in
      ((r.applied_state ≡ none) × (pins' ≡ pins)) ⊎ (r.applied_state ≡ some state)
unfolding apply_switch_state apply_to
apply_reports_what_it_wrote s channel_id channel_key state pins =
    elim (Option-cases (find_channel channel_id channel_key s.channels)) [
      | inl e ↦ ground arith
      | inr (c, e) ↦ ground arith
    ]

abbrev or_else {ℓ} : {A : Type ℓ} → Option A → Option A → Option A
or_else (some a) b = some a
or_else none b = b

abbrev snapshot_of : SwitchChannelService → Pins → ChannelSnapshot
snapshot_of c pins = record { phase = c.phase; state = control_value c pins }

-- What the loop finally holds under a key: the last channel that has it.
abbrev shown : String → List SwitchChannelService → Pins → Option ChannelSnapshot
shown k [] pins = none
shown k (c ∷ cs) pins =
    or_else (shown k cs pins) (if str_eq c.key k then some (snapshot_of c pins) else none)

lookup-snapshot_from :
    (k : String) (cs : List SwitchChannelService) (pins : Pins) (d : Dict ChannelSnapshot)
    → lookup k (snapshot_from cs pins d) ≡ or_else (shown k cs pins) (lookup k d)
unfolding snapshot_from
lookup-snapshot_from k [] pins d = refl
lookup-snapshot_from k (c ∷ cs) pins d = ground (
  arith,
  lookup-snapshot_from k cs pins (insert c.key (snapshot_of c pins) d),
  lookup-insert c.key k (snapshot_of c pins) d,
)

-- Two handles that are not one.
abbrev pub Differ : Option ℕ → Option ℕ → Type 0
Differ (some h) (some k) = h ≢ k
Differ _ _ = Unit {0}

-- Another channel than `c`: its key is another, and the command writes no handle that it shows.
abbrev pub IsOther : SwitchChannelService → SwitchChannelService → Type 0
IsOther c o =
    (c.key ≢ o.key)
    × Differ c.enable_handle o.control_handle
    × Differ c.control_handle o.control_handle

abbrev written : SwitchChannelService → Bool → Pins → Pins
written c state pins =
    set_pin_value c.control_handle state (set_pin_value c.enable_handle true pins)

value-written :
    (enable control other : Option ℕ) (state : Bool) (pins : Pins) (c o : SwitchChannelService)
    → c.enable_handle ≡ enable
    → c.control_handle ≡ control
    → o.control_handle ≡ other
    → IsOther c o
    → control_value o (written c state pins) ≡ control_value o pins
unfolding set_pin_value
value-written none none none state pins c o e f g i = ground arith
value-written none none (some k) state pins c o e f g i = ground arith
value-written none (some b) none state pins c o e f g i = ground arith
value-written none (some b) (some k) state pins c o e f g i = ground arith
value-written (some a) none none state pins c o e f g i = ground arith
value-written (some a) none (some k) state pins c o e f g i = ground arith
value-written (some a) (some b) none state pins c o e f g i = ground arith
value-written (some a) (some b) (some k) state pins c o e f g i = ground arith

module _ (c : SwitchChannelService) (state : Bool) (pins : Pins) where
  -- The other channels show what they showed, and nothing under the key of `c`.
  shown-others :
      (k : String) (cs : List SwitchChannelService)
      → All (IsOther c) cs
      → (shown k cs (written c state pins) ≡ shown k cs pins)
        × (str_eq c.key k ≡ true → shown k cs pins ≡ none)
  shown-others k [] i = (refl, λ _. refl)
  shown-others k (o ∷ cs) i =
      let (same, absent) = shown-others k cs i.1 in
      let value =
        value-written c.enable_handle c.control_handle o.control_handle state pins c o refl refl
          refl i.0 in
      (rw (same, value), λ e. ground (arith, absent e, eq_iff c.key k, eq_iff o.key k))

  own-value :
      (control : Option ℕ)
      → c.control_handle ≡ control
      → c.control_handle ≢ none
      → control_value c (written c state pins) ≡ some state
  unfolding set_pin_value
  own-value none e h = ground arith
  own-value (some b) e h = ground arith

  shown-applied :
      (k : String) (before after : List SwitchChannelService)
      → c.phase ≡ ready
      → c.control_handle ≢ none
      → All (IsOther c) before
      → All (IsOther c) after
      → shown k (before ++ c ∷ after) (written c state pins) ≡ (
          if str_eq c.key k
          then some (record { phase = ready; state = some state })
          else shown k (before ++ c ∷ after) pins)
  shown-applied k [] after r h ib ia =
      let (same, absent) = shown-others k after ia in
      elim (Bool-cases (str_eq c.key k)) [
        | inl e ↦ rw (same, absent e, e, r, own-value c.control_handle refl h)
        | inr e ↦ rw (same, e)
      ]
  shown-applied k (o ∷ before) after r h ib ia =
      let value =
        value-written c.enable_handle c.control_handle o.control_handle state pins c o refl refl
          refl ib.0 in
      let ih = shown-applied k before after r h ib.1 ia in
      elim (Bool-cases (str_eq c.key k)) [ inl e ↦ rw (ih, e) | inr e ↦ rw (ih, value, e) ]

  found-key :
      (before after : List SwitchChannelService)
      → c.key ≢ ""
      → All (IsOther c) before
      → find_channel "" c.key (before ++ c ∷ after) ≡ some c
  unfolding find_channel
  found-key [] after ne ib = ground (arith, eq_iff c.key "", eq_iff c.key c.key)
  found-key (o ∷ before) after ne ib =
      let ih = found-key before after ne ib.1 in
      ground (arith, ih, eq_iff c.key "", eq_iff o.key c.key, eq_iff "" "")

applied-pins :
    (s : SwitchService) (c : SwitchChannelService) (state : Bool) (pins : Pins)
    → s.phase ≡ ready
    → find_channel "" c.key s.channels ≡ some c
    → c.phase ≡ ready
    → (apply_switch_state s "" c.key state pins).1 ≡ written c state pins
unfolding apply_switch_state apply_to
applied-pins s c state pins rs found rc = ground arith

ready-snapshot :
    (s : SwitchService) (pins : Pins)
    → s.phase ≡ ready
    → snapshot_switch_states s pins ≡ snapshot_from s.channels pins []
unfolding snapshot_switch_states
ready-snapshot s pins rs = ground arith

-- In a ready service, a command to a ready channel, by its key, on a control handle that no other
-- channel has: the node then shows the channel with the state that was asked for, and shows of
-- every other key what it showed before.
pub snapshot-apply_switch_state :
    (s : SwitchService) (before after : List SwitchChannelService) (c : SwitchChannelService)
    (state : Bool) (pins : Pins) (k : String)
    → s.phase ≡ ready
    → s.channels ≡ before ++ c ∷ after
    → c.key ≢ ""
    → c.phase ≡ ready
    → c.control_handle ≢ none
    → All (IsOther c) before
    → All (IsOther c) after
    → lookup k (snapshot_switch_states s ((apply_switch_state s "" c.key state pins).1)) ≡ (
        if str_eq c.key k
        then some (record { phase = ready; state = some state })
        else lookup k (snapshot_switch_states s pins))
snapshot-apply_switch_state s before after c state pins k rs cs ne rc h ib ia =
    let found = found-key c state pins before after ne ib in
    rw
      (
        applied-pins s c state pins rs (ap (find_channel "" c.key) cs ∙ found) rc,
        ready-snapshot s (written c state pins) rs,
        ready-snapshot s pins rs,
        cs,
        lookup-snapshot_from k (before ++ c ∷ after) (written c state pins) [],
        lookup-snapshot_from k (before ++ c ∷ after) pins [],
        shown-applied c state pins k before after rc h ib ia,
      )
      (elim (Bool-cases (str_eq c.key k)) [ inl e ↦ rw e refl | inr e ↦ rw e refl ])
