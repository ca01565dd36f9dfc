-- ===== src/Automation/Actions.antt =====
-- The actions of a rule: `_apply_rule`, over the switches that it reads and writes.
use c_py_nodus_ii.Prelude.{
  ℕ, suc, ◌+◌, ◌*◌, ◌≡◌, String, Bool, true, false, not, ◌&&◌, Option, none, some, List, [], ◌∷◌,
  leb, if◌then◌else◌,
}
use c_py_nodus_ii.Prelude.Dict.{Dict, lookup, insert, erase}
use c_py_nodus_ii.Automation.{Action, Rule, ActiveAction}
use c_py_nodus_ii.Automation.Conditions.{token}

-- The switches, in a state `W` of the pins: `_channel_state` and `_apply_action`. An application
-- that succeeds is read back, and one that fails changes nothing.
pub record Switches (W : Type 0) : Type 0 where
  pub channel_state : String → W → Option Bool
  pub apply_action : String → Bool → W → Bool × W
  pub state-apply :
      (key : String) (state : Bool) (w : W)
      → (apply_action key state w).0 ≡ true
      → channel_state key ((apply_action key state w).1) ≡ some state
  pub apply_refused :
      (key : String) (state : Bool) (w : W)
      → (apply_action key state w).0 ≡ false
      → (apply_action key state w).1 ≡ w

abbrev pub same_state : Bool → Bool → Bool
same_state true b = b
same_state false b = not b

-- What the two write: the records of the actions, and the pins.
abbrev pub Effect : Type 0 → Type 0
Effect W = Dict ActiveAction × W

-- A record that an action starts with; a delay is in seconds.
abbrev pub new_active : Action → ℕ → ActiveAction
new_active action now = record {
  due = now + action.delay_s * 1000;
  applied = false;
  revert_to = none;
}

unfoldable pub write_switch :
    {W : Type 0} → Switches W → Action → String → ActiveAction → Bool → Effect W → Effect W
write_switch switches action key active current (actives, w) =
    let (success, w') = switches.apply_action action.switch_key action.set w in
    if success
    then (insert key (record active { applied = true; revert_to = some current }) actives, w')
    else (actives, w')

-- The body under `if matched:`, once `active` is there.
unfoldable pub apply_due :
    {W : Type 0} → Switches W → Action → String → ActiveAction → ℕ → Effect W → Effect W
apply_due switches action key active now (actives, w) =
    if not active.applied && leb active.due now
    then elim (switches.channel_state action.switch_key w) [
      | none ↦ (actives, w)
      | some current ↦
          if same_state current action.set
          then (insert key (record active { applied = true }) actives, w)
          else write_switch switches action key active current (actives, w)
    ]
    else (actives, w)

-- The body under `elif active is not None:`
abbrev pub revert : {W : Type 0} → Switches W → Action → ActiveAction → Option Bool → W → Bool × W
revert switches action active none w = (true, w)
revert switches action active (some state) w =
    if active.applied && action.previous_state
    then switches.apply_action action.switch_key state w
    else (true, w)

unfoldable pub release :
    {W : Type 0} → Switches W → Action → String → ActiveAction → Effect W → Effect W
release switches action key active (actives, w) =
    let (released, w') = revert switches action active active.revert_to w in
    (if released then erase key actives else actives, w')

-- One round of the loop over the actions, with what `_active_actions.get(token)` gives.
unfoldable pub step_with :
    {W : Type 0}
    → Switches W
    → Bool
    → Action
    → String
    → ℕ
    → Option ActiveAction
    → Effect W
    → Effect W
step_with switches true action key now none (actives, w) =
    apply_due switches action key (new_active action now) now
      (insert key (new_active action now) actives, w)
step_with switches true action key now (some active) e = apply_due switches action key active now e
step_with switches false action key now none e = e
step_with switches false action key now (some active) e = release switches action key active e

unfoldable pub step_action :
    {W : Type 0} → Switches W → Bool → Action → String → ℕ → Effect W → Effect W
step_action switches matched action key now (actives, w) =
    step_with switches matched action key now (lookup key actives) (actives, w)

unfoldable pub apply_actions :
    {W : Type 0} → Switches W → Bool → String → ℕ → List Action → ℕ → Effect W → Effect W
apply_actions switches matched rule_id index [] now e = e
apply_actions switches matched rule_id index (action ∷ actions) now e =
    apply_actions switches matched rule_id (suc index) actions now
      (step_action switches matched action (token rule_id index) now e)

-- `_apply_rule`
unfoldable pub apply_rule : {W : Type 0} → Switches W → Rule → Bool → ℕ → Effect W → Effect W
apply_rule switches rule matched now e =
    apply_actions switches matched rule.rule_id 0 rule.script.actions now e
