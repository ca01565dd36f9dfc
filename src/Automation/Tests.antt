-- ===== src/Automation/Tests.antt =====
-- Automations of a node with a fan and a lamp.
use c_py_nodus_ii.Prelude.{
  ℕ, ◌≡◌, refl, subst, String, true, false, ◌||◌, Option, none, some, List, [], ◌∷◌, arith, eq_iff,
  All, inl, inr,
}
use c_py_nodus_ii.Prelude.Int.{ℤ, pos, ◌-ℤ◌}
use c_py_nodus_ii.Prelude.Dict.{Dict, lookup, insert, erase}
use c_py_nodus_ii.Prelude.Text.{after_colons, has}
use c_py_nodus_ii.Switch.Plan.{ready}
use c_py_nodus_ii.Switch.Service.{
  Pins, SwitchChannelService, SwitchService, set_pin_value, find_channel, apply_switch_state,
  apply_to,
}
use c_py_nodus_ii.Automation.{
  TimerCondition, greater, SensorCondition, TimeCondition, sensor, or_break, time, Action, Rule,
  ActiveAction, LocalTime, AutomationState,
}
use c_py_nodus_ii.Automation.Conditions.{
  compare, condition_matches, sensor_matches, sensor_value_matches, clock_ready, build_groups,
  any_group, held_threshold, compare_threshold, time_matches, rule_matches, evaluate,
}
use c_py_nodus_ii.Automation.Groups.{group_holds, holds_after_or, rule_matches_groups}
use c_py_nodus_ii.Automation.Hysteresis.{InBandOf, results, sensor_holds-InBand}
use c_py_nodus_ii.Automation.Clock.{is_open, time_matches_window}
use c_py_nodus_ii.Automation.Actions.{
  Switches, step_action, step_with, apply_due, write_switch, release,
}
use c_py_nodus_ii.Automation.Delay.{Evaluation, run, no_write_before_due}
use c_py_nodus_ii.Automation.Restore.{action_restores_state, action_applied_when_due}
use c_py_nodus_ii.Automation.Service.{load_runtime_state, runtime_document, tick}
use c_py_nodus_ii.Automation.Ticks.{
  OnRules, Keeps, restarted, restart_keeps_applied, tick_writes_own_switches,
}
use c_py_nodus_ii.Automation.Raw.{
  flag, raises, RawScript, ◌>>=◌, RawCondition, items, not_iterable, Site,
}
use c_py_nodus_ii.Automation.Scripts.{
  normalize_script, normalize_all, normalize_condition, normalize_time, normalize_clock, read_days,
}
use c_py_nodus_ii.Automation.Normal.{IsScript, Ensures, normalize_script-IsScript}
use c_py_nodus_ii.Automation.RuleList.{
  belongs, normalize_rule, normalize_rule_id, new_rule_id, name_of, save_normalized, save_rule,
}
use c_py_nodus_ii.Automation.RuleLaws.{IsRuleList}
use c_py_nodus_ii.Automation.SavedRules.{save_rule-IsRuleList}
use c_py_nodus_ii.Automation.Requests.{Saves, save_rule_answer}
use c_py_nodus_ii.Automation.Pins.{
  IsAddressed, service_switches, service_channel_state, service_apply_action, switch_state_request,
  apply_web_switch_override, NodeState, local_channel,
}
use c_py_nodus_ii.Automation.Channels.{distinct-IsAddressed}

abbrev channel : String → String → ℕ → ℕ → SwitchChannelService
channel key id enable control = record {
  key = key;
  channel_id = id;
  phase = ready;
  desired_state = false;
  enable_handle = some enable;
  control_handle = some control;
  errors = [];
}

abbrev node : SwitchService
node = record {
  phase = ready;
  device_id = "sw1";
  channel_count = 2;
  channels = channel "ch1" "fan" 1 2 ∷ channel "ch2" "lamp" 3 4 ∷ [];
  errors = [];
}

node-IsAddressed : IsAddressed node
node-IsAddressed =
    distinct-IsAddressed node
      (ground (arith, eq_iff "fan" ""), refl, (ground (arith, eq_iff "lamp" ""), refl, tt))
      (ground arith, (ground arith, tt))

abbrev switches : Switches NodeState
switches = service_switches node node-IsAddressed

abbrev all_off : Pins
all_off h = some false

abbrev node_off : NodeState
node_off = record {
  pins = all_off;
  config = record {
    present = true;
    device_id = "sw1";
    serial_number = "";
    location = "";
    channel_count = 0;
    channels = [];
  };
}

-- Ten seconds after the rule begins to hold, the fan is turned on.
abbrev fan_on : Action
fan_on = record { switch_key = "sw1::fan"; set = true; previous_state = true; delay_s = 10 }

abbrev hot : SensorCondition
hot = record { metric = "temperature"; op = greater; value = pos 250; hyst = pos 20 }

-- From 22:00 on Sunday to 06:00 on Monday.
abbrev night : TimeCondition
night = record { start = 1320; end = 360; days = 6 ∷ [] }

abbrev cooling : Rule
cooling = record {
  rule_id = "cooling";
  enabled = true;
  script = record {
    name = "Cooling";
    conditions = sensor hot ∷ or_break ∷ time night ∷ [];
    actions = fan_on ∷ [];
  };
}

abbrev monday_one : LocalTime
monday_one = record { year = 2026; weekday = 0; hour = 1; minute = 0 }

abbrev localtime : ℕ → LocalTime
localtime t = monday_one

abbrev metrics : Dict (Option ℤ)
metrics = ("temperature", some (pos 240)) ∷ []

abbrev service : AutomationState
service = record {
  rules = cooling ∷ [];
  next_evaluation_at = 0;
  latest_metrics = metrics;
  condition_states = [];
  active_actions = [];
}

rule_matches_groups_example : rule_matches localtime cooling 0 metrics [] ≡ (
    let (rs, states) = evaluate localtime "cooling" 0 cooling.script.conditions 0 metrics [] in
    (group_holds rs || holds_after_or rs, states))
rule_matches_groups_example = rule_matches_groups localtime cooling 0 metrics []

night_matches : (rule_matches localtime cooling 0 metrics []).0 ≡ true
unfolding rule_matches evaluate condition_matches sensor_matches sensor_value_matches compare
    compare_threshold held_threshold time_matches clock_ready build_groups any_group lookup insert
night_matches = refl

sensor_holds-InBand_example :
    All
      (λ r. r ≡ true)
      (results "cooling:0" hot (pos 245 ∷ pos 231 ∷ []) (("cooling:0", true) ∷ []))
unfolding lookup InBandOf ◌-ℤ◌
sensor_holds-InBand_example =
    sensor_holds-InBand "cooling:0" hot (pos 245 ∷ pos 231 ∷ []) (("cooling:0", true) ∷ [])
      ((omega arith, omega arith), ((omega arith, omega arith), tt))

time_matches_window_example : time_matches night monday_one ≡ is_open night monday_one (6 ∷ [])
time_matches_window_example =
    time_matches_window night monday_one (omega arith, omega arith, (omega arith, tt)) (omega arith)
      (omega arith, omega arith, omega arith)

no_write_before_due_example :
    (run switches fan_on "cooling:0"
      ((true, 1000) ∷ (false, 6000) ∷ (true, 10999) ∷ [])
      ([], node_off)).1
    ≡ node_off
unfolding lookup
no_write_before_due_example =
    no_write_before_due switches fan_on "cooling:0" 1000
      ((true, 1000) ∷ (false, 6000) ∷ (true, 10999) ∷ []) [] node_off refl
      ((omega arith, omega arith), ((omega arith, omega arith), ((omega arith, omega arith), tt)))

-- The fan is turned on after ten seconds, and off again when the rule no longer holds.
abbrev episode : List Evaluation
episode = (true, 0) ∷ (true, 10000) ∷ (false, 15000) ∷ []

action_restores_state_example :
    switches.channel_state "sw1::fan" ((run switches fan_on "cooling:0" episode ([], node_off)).1)
    ≡ switches.channel_state "sw1::fan" node_off
unfolding run step_action step_with apply_due write_switch release lookup insert erase
    service_switches service_channel_state service_apply_action switch_state_request
    apply_web_switch_override local_channel after_colons find_channel apply_switch_state apply_to
    set_pin_value
action_restores_state_example =
    action_restores_state switches fan_on "cooling:0" episode [] node_off refl refl refl

abbrev waiting : ActiveAction
waiting = record { due = 10000; applied = false; revert_to = none }

action_applied_when_due_example :
    switches.channel_state "sw1::fan" (
      (step_action switches true fan_on "cooling:0" 12000
        (("cooling:0", waiting) ∷ [], node_off)).1)
    ≡ some true
unfolding lookup service_switches service_channel_state service_apply_action switch_state_request
    apply_web_switch_override local_channel after_colons find_channel apply_switch_state apply_to
    set_pin_value
action_applied_when_due_example =
    action_applied_when_due switches fan_on "cooling:0" 12000 waiting false
      (("cooling:0", waiting) ∷ []) node_off refl refl (omega arith) refl refl

abbrev two_records : Dict ActiveAction
two_records =
    ("cooling:0", record { due = 10000; applied = true; revert_to = some false })
    ∷ ("light:0", record { due = 900; applied = false; revert_to = none })
    ∷ []

restart_keeps_applied_example :
    lookup "light:0"
      (load_runtime_state ("cooling:0" ∷ "light:0" ∷ []) (runtime_document two_records) [])
    ≡ restarted (lookup "light:0" two_records)
unfolding lookup
restart_keeps_applied_example =
    restart_keeps_applied "light:0" ("cooling:0" ∷ "light:0" ∷ []) two_records (refl, (refl, tt))
      refl

-- The lamp's pin is not the fan's.
fan-Keeps_lamp :
    (key : String) → OnRules key (cooling ∷ []) → Keeps switches (λ n. n.pins 4 ≡ some false) key
unfolding service_switches service_channel_state service_apply_action switch_state_request
    apply_web_switch_override local_channel after_colons find_channel apply_switch_state apply_to
    set_pin_value
fan-Keeps_lamp key (inl (inl e)) state w h =
    subst (λ k. (switches.apply_action k state w).1.pins 4 ≡ some false) e h
fan-Keeps_lamp key (inl (inr o)) state w h = elim o [ ]
fan-Keeps_lamp key (inr o) state w h = elim o [ ]

tick_writes_own_switches_example :
    (tick switches localtime true 20000 0 none service node_off).1.pins 4 ≡ some false
tick_writes_own_switches_example =
    tick_writes_own_switches switches (λ n. n.pins 4 ≡ some false) localtime true 20000 0 none
      service node_off fan-Keeps_lamp refl

abbrev site : Site
site = record {
  sensor_id = "s1";
  device_id = "sw1";
  channels =
      record {
        key = "ch1";
        label = "Fan";
        channel_id = "fan";
        enable_pin = "GP1";
        control_pin = "GP2";
        last_state = false;
        override_script = false;
      }
      ∷ [];
  now_epoch = none;
}

abbrev raw : RawScript
raw = record {
  is_dict = true;
  is_truthy = true;
  json_length = 200;
  name = "Cooling";
  conditions =
      record {
        is_dict = true;
        kind = "sensor";
        sensor_id = "";
        metric = "temperature";
        op = ">";
        value = some (pos 250);
        hyst = some (pos 20);
        start = none;
        end = none;
        days = items [];
        duration_min = none;
        period_min = none;
        freq_hours = none;
        anchor_epoch = none;
      }
      ∷ [];
  actions =
      record {
        is_dict = true;
        switch_key = "sw1::Fan";
        set = flag true;
        revert_action = "previous_state";
        delay_s = some (pos 10);
      }
      ∷ [];
}

normalize_script-IsScript_example : Ensures IsScript (normalize_script site raw)
normalize_script-IsScript_example = normalize_script-IsScript site raw

abbrev persist : List Rule → Option String
persist rules = none

empty-IsRuleList : IsRuleList []
empty-IsRuleList = record { rule_limit = omega arith; none_twice = tt; scripts = tt }

abbrev no_rules : AutomationState
no_rules = record service { rules = [] }

save_rule-IsRuleList_example :
    IsRuleList (
      (save_rule switches persist site true "cooling" "cooling" true raw no_rules node_off).1.rules)
save_rule-IsRuleList_example =
    save_rule-IsRuleList switches persist site true "cooling" "cooling" true raw no_rules node_off
      empty-IsRuleList

save_rule_answer_example :
    Saves
      (normalize_rule site "cooling" "cooling" true raw [])
      no_rules
      node_off
      (save_rule switches persist site true "cooling" "cooling" true raw no_rules node_off)
save_rule_answer_example =
    save_rule_answer switches persist site true "cooling" "cooling" true raw no_rules node_off

-- A text in place of the script, and no id.
script_without_get :
    save_rule switches persist site true "" "automation" true
      (record raw { is_dict = false })
      no_rules
      node_off
    ≡ (raises "AttributeError", no_rules, node_off)
unfolding save_rule normalize_rule normalize_rule_id new_rule_id name_of save_normalized ◌>>=◌
script_without_get = refl

-- A number in place of the list of the days.
abbrev number_of_days : RawCondition
number_of_days = record {
  is_dict = true;
  kind = "time";
  sensor_id = "";
  metric = "";
  op = "";
  value = none;
  hyst = none;
  start = some (pos 22, pos 0);
  end = some (pos 6, pos 0);
  days = not_iterable;
  duration_min = none;
  period_min = none;
  freq_hours = none;
  anchor_epoch = none;
}

days_not_iterable :
    save_rule switches persist site true "night" "night" true
      (record raw { conditions = number_of_days ∷ [] })
      no_rules
      node_off
    ≡ (raises "TypeError", no_rules, node_off)
unfolding save_rule normalize_rule normalize_rule_id save_normalized normalize_script normalize_all
    normalize_condition normalize_time normalize_clock read_days ◌>>=◌ has
days_not_iterable = refl

-- A record of the rule "a:b" is released with the rule "a".
prefix_shared : belongs "a" "a:b:0" ≡ true
prefix_shared = refl

prefix_not_shared : belongs "a" "ab:0" ≡ false
prefix_not_shared = refl

-- Ten minutes of every hour, from an anchor on.
abbrev pulse : TimerCondition
pulse = record { duration_min = 10; period_min = 60; anchor_epoch = pos 100 }
