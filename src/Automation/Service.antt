-- ===== src/Automation/Service.antt =====
-- `NodusWebAutomationService` over its rules: whether it is active, `update_context`, `tick` and
-- `channel_controlled`. A rule of the list has passed `_normalize_script`, so that no evaluation
-- raises. What `_persist_runtime_state` writes is the text of `runtime_document`.
use c_py_nodus_ii.Prelude.{
  ℕ, suc, ◌+◌, String, Bool, true, false, not, ◌&&◌, ◌||◌, Option, none, some, List, [], ◌∷◌, ◌++◌,
  ltb, str_eq, if◌then◌else◌,
}
use c_py_nodus_ii.Prelude.Int.{ℤ}
use c_py_nodus_ii.Prelude.Dict.{Dict, insert}
use c_py_nodus_ii.Prelude.Text.{is_blank}
use c_py_nodus_ii.Automation.{Action, Rule, ActiveAction, LocalTime, AutomationState}
use c_py_nodus_ii.Automation.Conditions.{token, rule_matches}
use c_py_nodus_ii.Automation.Actions.{Switches, Effect, apply_rule}

unfoldable pub nodusweb_automations_enabled : String → Bool → Bool
nodusweb_automations_enabled active_profile switch_present =
    str_eq active_profile "nodusweb" && switch_present

-- `EVALUATION_INTERVAL_S`
abbrev pub evaluation_interval : ℕ
evaluation_interval = 5000

abbrev pub given {ℓ} : {A : Type ℓ} → Option A → A → A
given none a = a
given (some b) a = b

-- Whether a rule that is not enabled matched is not asked.
unfoldable pub rule_matched :
    (ℕ → LocalTime) → Rule → ℕ → Dict (Option ℤ) → Dict Bool → Bool × Dict Bool
rule_matched localtime rule now metrics states =
    if rule.enabled then rule_matches localtime rule now metrics states else (false, states)

-- The loop of `tick` over the rules.
unfoldable pub run_rules :
    {W : Type 0}
    → Switches W
    → (ℕ → LocalTime)
    → List Rule
    → ℕ
    → ℕ
    → Dict (Option ℤ)
    → Dict Bool
    → Effect W
    → Dict Bool × Effect W
run_rules switches localtime [] now_monotonic now_epoch metrics states e = (states, e)
run_rules switches localtime (rule ∷ rules) now_monotonic now_epoch metrics states e =
    let (matched, states') = rule_matched localtime rule now_epoch metrics states in
    run_rules switches localtime rules now_monotonic now_epoch metrics states'
      (apply_rule switches rule matched now_monotonic e)

unfoldable pub evaluate_rules :
    {W : Type 0} → Switches W → (ℕ → LocalTime) → AutomationState → ℕ → ℕ → W → AutomationState × W
evaluate_rules switches localtime s now_monotonic now_epoch w =
    let (states, e) =
      run_rules switches localtime s.rules now_monotonic now_epoch s.latest_metrics
        s.condition_states (s.active_actions, w) in
    (
      record s {
        next_evaluation_at = now_monotonic + evaluation_interval;
        condition_states = states;
        active_actions = e.0;
      },
      e.1,
    )

unfoldable pub tick :
    {W : Type 0}
    → Switches W
    → (ℕ → LocalTime)
    → Bool
    → ℕ
    → ℕ
    → Option (Dict (Option ℤ))
    → AutomationState
    → W
    → AutomationState × W
tick switches localtime active now_monotonic now_epoch metrics s w =
    let s' = record s { latest_metrics = given metrics s.latest_metrics } in
    if not active || ltb now_monotonic s.next_evaluation_at
    then (s', w)
    else evaluate_rules switches localtime s' now_monotonic now_epoch w

-- `any` over the actions of a rule
unfoldable pub owns : String → List Action → Bool
owns canonical [] = false
owns canonical (a ∷ actions) = str_eq a.switch_key canonical || owns canonical actions

abbrev pub owner_name : Rule → String
owner_name rule = if is_blank rule.script.name then rule.rule_id else rule.script.name

-- `channel_controlled`, by the channel's "device::channel" name
unfoldable pub channel_controlled : String → List Rule → List String
channel_controlled canonical [] = []
channel_controlled canonical (rule ∷ rules) =
    let rest = channel_controlled canonical rules in
    if rule.enabled && owns canonical rule.script.actions then owner_name rule ∷ rest else rest

-- `_persist_runtime_state`: the applied actions, with the states to go back to.
unfoldable pub runtime_document : Dict ActiveAction → Dict (Option Bool)
runtime_document [] = []
runtime_document ((key, active) ∷ actives) =
    let rest = runtime_document actives in
    if active.applied then (key, active.revert_to) ∷ rest else rest

abbrev pub is_allowed : String → List String → Bool
is_allowed key [] = false
is_allowed key (k ∷ ks) = str_eq k key || is_allowed key ks

abbrev action_tokens : String → ℕ → List Action → List String
action_tokens rule_id index [] = []
action_tokens rule_id index (a ∷ actions) =
    token rule_id index ∷ action_tokens rule_id (suc index) actions

-- The tokens of the actions of the rules.
unfoldable pub allowed_tokens : List Rule → List String
allowed_tokens [] = []
allowed_tokens (rule ∷ rules) =
    action_tokens rule.rule_id 0 rule.script.actions ++ allowed_tokens rules

-- `_load_runtime_state` of a document that `_persist_runtime_state` wrote, by the tokens of the
-- rules' actions
unfoldable pub load_runtime_state :
    List String → Dict (Option Bool) → Dict ActiveAction → Dict ActiveAction
load_runtime_state allowed [] actives = actives
load_runtime_state allowed ((key, revert_to) ∷ entries) actives =
    if is_allowed key allowed
    then load_runtime_state allowed entries
        (insert key (record { due = 0; applied = true; revert_to = revert_to }) actives)
    else load_runtime_state allowed entries actives
