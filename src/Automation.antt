-- ===== src/Automation.antt =====
-- features/nodusweb_automation.py: the local automations of a switch node. A rule is a list of
-- conditions, split into groups at "or", and a list of actions on switches. A sensor's values and
-- thresholds are integers in the smallest step of the metric, the monotonic clock counts
-- milliseconds, and a clock time "HH:MM" is its minute of the day.
pub mod Conditions
pub mod Groups
pub mod Hysteresis
pub mod Clock
pub mod Actions
pub mod Delay
pub mod Owes
pub mod Restore
pub mod Service
pub mod Ticks
pub mod Raw
pub mod Scripts
pub mod Normal
pub mod RuleList
pub mod RuleLaws
pub mod SavedRules
pub mod Requests
pub mod Pins
pub mod Channels
mod Tests
use c_py_nodus_ii.Prelude.{ℕ, String, Bool, Option, List}
use c_py_nodus_ii.Prelude.Int.{ℤ}
use c_py_nodus_ii.Prelude.Dict.{Dict}

-- `_VALID_OPERATORS`
pub data Operator : Type 0 where
  greater : Operator
  greater_equal : Operator
  less : Operator
  less_equal : Operator
  equal : Operator
  not_equal : Operator

pub record SensorCondition : Type 0 where
  pub metric : String
  pub op : Operator
  pub value : ℤ
  pub hyst : ℤ

pub record TimeCondition : Type 0 where
  pub start : ℕ
  pub end : ℕ
  pub days : List ℕ

pub record TimerCondition : Type 0 where
  pub duration_min : ℕ
  pub period_min : ℕ
  pub anchor_epoch : ℤ

-- `_VALID_CONDITION_TYPES`, with the fields of each
pub data Condition : Type 0 where
  sensor : SensorCondition → Condition
  time : TimeCondition → Condition
  timer : TimerCondition → Condition
  or_break : Condition

-- `set` is the state that the action asks for; `previous_state` is the `revert_action`, and false
-- is "do_nothing".
pub record Action : Type 0 where
  pub switch_key : String
  pub set : Bool
  pub previous_state : Bool
  pub delay_s : ℕ

pub record Script : Type 0 where
  pub name : String
  pub conditions : List Condition
  pub actions : List Action

pub record Rule : Type 0 where
  pub rule_id : String
  pub enabled : Bool
  pub script : Script

-- A value of `_active_actions`.
pub record ActiveAction : Type 0 where
  pub due : ℕ
  pub applied : Bool
  pub revert_to : Option Bool

-- What `time.localtime` gives, as far as it is read.
pub record LocalTime : Type 0 where
  pub year : ℕ
  pub weekday : ℕ
  pub hour : ℕ
  pub minute : ℕ

-- `NodusWebAutomationService`. A metric whose value `float` does not take is `none`.
pub record AutomationState : Type 0 where
  pub rules : List Rule
  pub next_evaluation_at : ℕ
  pub latest_metrics : Dict (Option ℤ)
  pub condition_states : Dict Bool
  pub active_actions : Dict ActiveAction
