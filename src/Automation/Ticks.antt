-- ===== src/Automation/Ticks.antt =====
-- What `tick` may do, and what the state file keeps.
use c_py_nodus_ii.Prelude.{
  ℕ, suc, ◌+◌, ◌≤◌, ◌<◌, ◌≡◌, refl, String, Bool, true, false, not, ◌&&◌, ◌||◌, Option, none, some,
  List, [], ◌∷◌, arith, ltb, leb, eq_iff, ◌⊎◌, if◌then◌else◌, if-elim, Option-cases, inl, inr,
}
use c_py_nodus_ii.Prelude.Int.{ℤ}
use c_py_nodus_ii.Prelude.Dict.{Dict, insert, lookup, lookup-insert}
use c_py_nodus_ii.Automation.{Action, Rule, ActiveAction, LocalTime, AutomationState}
use c_py_nodus_ii.Automation.Conditions.{token}
use c_py_nodus_ii.Automation.Actions.{
  Switches, Effect, same_state, write_switch, apply_due, revert, release, new_active, step_with,
  step_action, apply_actions, apply_rule,
}
use c_py_nodus_ii.Automation.Service.{
  evaluation_interval, given, run_rules, evaluate_rules, tick, is_allowed, runtime_document,
  load_runtime_state, rule_matched,
}

-- Once a tick has evaluated the rules, a tick less than five seconds later only takes the metrics.
pub tick_paced :
    {W : Type 0} (switches : Switches W) (localtime : ℕ → LocalTime) (first second epoch epoch' : ℕ)
    (metrics metrics' : Option (Dict (Option ℤ))) (s : AutomationState) (w : W)
    → s.next_evaluation_at ≤ first
    → second < first + evaluation_interval
    → let (s', w') = tick switches localtime true first epoch metrics s w in
      tick switches localtime true second epoch' metrics' s' w'
      ≡ (record s' { latest_metrics = given metrics' s'.latest_metrics }, w')
unfolding tick evaluate_rules
tick_paced switches localtime first second epoch epoch' metrics metrics' s w a b = ground arith

abbrev reloaded : ActiveAction → ActiveAction
reloaded active = record { due = 0; applied = true; revert_to = active.revert_to }

-- What a record becomes when the node restarts: an applied one is due at once, another is lost.
abbrev pub restarted : Option ActiveAction → Option ActiveAction
restarted none = none
restarted (some active) = if active.applied then some (reloaded active) else none

-- No key twice.
abbrev pub IsDict : {V : Type 0} → Dict V → Type 0
IsDict [] = Unit
IsDict ((key, v) ∷ d) = (lookup key d ≡ none) × IsDict d

abbrev or_else : Option ActiveAction → Option ActiveAction → Option ActiveAction
or_else none b = b
or_else (some a) b = some a

load_runtime-runtime_document :
    (key : String) (allowed : List String) (actives acc : Dict ActiveAction)
    → IsDict actives
    → lookup key (load_runtime_state allowed (runtime_document actives) acc)
      ≡ or_else
          (if is_allowed key allowed then restarted (lookup key actives) else none)
          (lookup key acc)
unfolding load_runtime_state runtime_document lookup
load_runtime-runtime_document key allowed [] acc h = ground arith
load_runtime-runtime_document key allowed ((k, active) ∷ actives) acc h =
    let loaded = reloaded active in
    ground (
      arith,
      load_runtime-runtime_document key allowed actives acc h.1,
      load_runtime-runtime_document key allowed actives (insert k loaded acc) h.1,
      lookup-insert k key loaded acc,
      eq_iff k key,
      h.0,
    )

-- A restart between two ticks: of the action records, whose tokens belong to the rules, those that
-- were applied come back from the state file with the state to go back to, and no other does.
pub restart_keeps_applied :
    (key : String) (allowed : List String) (actives : Dict ActiveAction)
    → IsDict actives
    → is_allowed key allowed ≡ true
    → lookup key (load_runtime_state allowed (runtime_document actives) [])
      ≡ restarted (lookup key actives)
unfolding lookup
restart_keeps_applied key allowed actives d a =
    ground (arith, load_runtime-runtime_document key allowed actives [] d, a)

-- Some action of the rules is on the switch.
abbrev pub OnSwitch : String → List Action → Type 0
OnSwitch key [] = ⊥
OnSwitch key (a ∷ actions) = (a.switch_key ≡ key) ⊎ OnSwitch key actions

abbrev pub OnRules : String → List Rule → Type 0
OnRules key [] = ⊥
OnRules key (rule ∷ rules) = OnSwitch key rule.script.actions ⊎ OnRules key rules

module _ {W : Type 0} (switches : Switches W) (P : W → Type 0) where
  -- Writing the switch keeps what `P` says of the pins.
  abbrev pub Keeps : String → Type 0
  Keeps key = (state : Bool) (w : W) → P w → P ((switches.apply_action key state w).1)

  abbrev Holds : Effect W → Type 0
  Holds e = P e.1

  write_switch-Holds :
      (action : Action) (key : String) (active : ActiveAction) (current : Bool) (e : Effect W)
      → Keeps action.switch_key
      → Holds e
      → Holds (write_switch switches action key active current e)
  unfolding write_switch
  write_switch-Holds action key active current (actives, w) k h =
      if-elim Holds ((switches.apply_action action.switch_key action.set w).0) _ _
        (λ _. k action.set w h) (λ _. k action.set w h)

  apply_due-Holds :
      (action : Action) (key : String) (active : ActiveAction) (now : ℕ) (e : Effect W)
      → Keeps action.switch_key
      → Holds e
      → Holds (apply_due switches action key active now e)
  unfolding apply_due
  apply_due-Holds action key active now (actives, w) k h =
      if-elim Holds (not active.applied && leb active.due now) _ _
        (λ _. elim (Option-cases (switches.channel_state action.switch_key w)) [
          | inl s ↦ rw s h
          | inr (current, s) ↦ rw s (
              if-elim Holds (same_state current action.set) _ _ (λ _. h)
                (λ _. write_switch-Holds action key active current (actives, w) k h))
        ])
        (λ _. h)

  revert-Holds :
      (action : Action) (active : ActiveAction) (to : Option Bool) (w : W)
      → Keeps action.switch_key
      → P w
      → P ((revert switches action active to w).1)
  revert-Holds action active none w k h = h
  revert-Holds action active (some state) w k h =
      if-elim (λ (r : Bool × W). P r.1) (active.applied && action.previous_state) _ _
        (λ _. k state w h) (λ _. h)

  step-Holds :
      (matched : Bool) (action : Action) (key : String) (now : ℕ) (found : Option ActiveAction)
      (e : Effect W)
      → Keeps action.switch_key
      → Holds e
      → Holds (step_with switches matched action key now found e)
  unfolding step_with release
  step-Holds true action key now none (actives, w) k h =
      apply_due-Holds action key (new_active action now) now
        (insert key (new_active action now) actives, w) k h
  step-Holds true action key now (some active) e k h = apply_due-Holds action key active now e k h
  step-Holds false action key now none e k h = h
  step-Holds false action key now (some active) (actives, w) k h =
      revert-Holds action active active.revert_to w k h

  apply_actions-Holds :
      (matched : Bool) (rule_id : String) (now index : ℕ) (actions : List Action) (e : Effect W)
      → ((key : String) → OnSwitch key actions → Keeps key)
      → Holds e
      → Holds (apply_actions switches matched rule_id index actions now e)
  unfolding apply_actions step_action
  apply_actions-Holds matched rule_id now index [] e k h = h
  apply_actions-Holds matched rule_id now index (a ∷ actions) e k h =
      apply_actions-Holds matched rule_id now (suc index) actions _ (λ key o. k key (inr o))
        (step-Holds matched a (token rule_id index) now (lookup (token rule_id index) e.0) e
          (k a.switch_key (inl refl)) h)

  run_rules-Holds :
      (localtime : ℕ → LocalTime) (rules : List Rule) (now epoch : ℕ) (metrics : Dict (Option ℤ))
      (states : Dict Bool) (e : Effect W)
      → ((key : String) → OnRules key rules → Keeps key)
      → Holds e
      → Holds ((run_rules switches localtime rules now epoch metrics states e).1)
  unfolding run_rules apply_rule
  run_rules-Holds localtime [] now epoch metrics states e k h = h
  run_rules-Holds localtime (rule ∷ rules) now epoch metrics states e k h =
      let (matched, states') = rule_matched localtime rule epoch metrics states in
      run_rules-Holds localtime rules now epoch metrics states' _ (λ key o. k key (inr o))
        (apply_actions-Holds matched rule.rule_id now 0 rule.script.actions e
          (λ key o. k key (inl o)) h)

-- A tick writes no switch but those that the actions of its rules name: what every write of such a
-- switch keeps of the pins, the tick keeps.
pub tick_writes_own_switches :
    {W : Type 0} (switches : Switches W) (P : W → Type 0) (localtime : ℕ → LocalTime)
    (active : Bool) (now epoch : ℕ) (metrics : Option (Dict (Option ℤ))) (s : AutomationState)
    (w : W)
    → ((key : String) → OnRules key s.rules → Keeps switches P key)
    → P w
    → P ((tick switches localtime active now epoch metrics s w).1)
unfolding tick evaluate_rules
tick_writes_own_switches {W} switches P localtime active now epoch metrics s w k h =
    if-elim (λ (r : AutomationState × W). P r.1) (not active || ltb now s.next_evaluation_at) _ _
      (λ _. h)
      (λ _.
        run_rules-Holds switches P localtime s.rules now epoch (given metrics s.latest_metrics)
          s.condition_states (s.active_actions, w) k h)
