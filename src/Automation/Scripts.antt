-- ===== src/Automation/Scripts.antt =====
-- `_normalize_script` and what it calls.
use Prim.Native.String
use c_py_nodus_ii.Prelude.{
  ℕ, ◌+◌, ◌*◌, String, Bool, true, false, not, ◌&&◌, ◌||◌, Option, none, some, List, [], ◌∷◌, ◌++◌,
  length, ltb, leb, str_eq, if◌then◌else◌,
}
use c_py_nodus_ii.Prelude.Int.{ℤ, pos, negsuc, pos_part, leb_ℤ, ltb_ℤ, max_ℤ}
use c_py_nodus_ii.Prelude.Text.{strip, is_space, is_blank, suffix_of, text_take}
use c_py_nodus_ii.Switch.Config.{SwitchChannelConfig}
use c_py_nodus_ii.Automation.{
  Operator, greater, greater_equal, less, less_equal, equal, not_equal, Condition, sensor, time,
  timer, or_break, Action, Script,
}
use c_py_nodus_ii.Automation.Conditions.{is_day}
use c_py_nodus_ii.Automation.Raw.{
  Checked, valid, value_error, raises, RawDays, items, not_iterable, pure, ◌>>=◌, ◌>>◌, require,
  some_or, RawCondition, RawState, flag, text, RawAction, RawScript, Site,
}

-- `"{}::{}".format(device_id, channel_id)`
abbrev pub switch_key_of : String → String → String
switch_key_of device_id channel_id = String.◌++◌ device_id (String.◌++◌ "::" channel_id)

unfoldable pub operator_of : String → Option Operator
operator_of s =
    if str_eq s ">"
    then some greater
    else if str_eq s ">="
    then some greater_equal
    else if str_eq s "<"
    then some less
    else if str_eq s "<="
    then some less_equal
    else if str_eq s "=="
    then some equal
    else if str_eq s "!="
    then some not_equal
    else none

abbrev both : {A B : Type 0} → Option A → Option B → Option (A × B)
both (some a) (some b) = some (a, b)
both a b = none

-- `str(condition.get("op", ">") or ">").strip()`
abbrev operator_or_greater : String → String
operator_or_greater s = strip is_space (if is_blank s then ">" else s)

unfoldable pub normalize_sensor : Site → RawCondition → Checked Condition
normalize_sensor site c = do
  require (is_blank c.sensor_id || str_eq c.sensor_id site.sensor_id) "automation_sensor_not_local"
  require (not (is_blank c.metric)) "automation_metric_required"
  op ← some_or (operator_of (operator_or_greater c.op)) "automation_operator_invalid"
  numbers ← some_or (both c.value c.hyst) "automation_threshold_invalid"
  pure (
      sensor
        (record { metric = c.metric; op = op; value = numbers.0; hyst = max_ℤ (pos 0) numbers.1 }))

-- `_normalize_clock` and then `_clock_minutes`
unfoldable pub normalize_clock : Option (ℤ × ℤ) → Checked ℕ
normalize_clock none = value_error "automation_time_invalid"
normalize_clock (some (hour, minute)) =
    if ltb_ℤ hour (pos 0) || ltb_ℤ (pos 23) hour || ltb_ℤ minute (pos 0) || ltb_ℤ (pos 59) minute
    then value_error "automation_time_invalid"
    else valid (pos_part hour * 60 + pos_part minute)

-- The loop over the days.
unfoldable pub collect_days : List (Option ℤ) → List ℕ → List ℕ
collect_days [] days = days
collect_days (none ∷ values) days = collect_days values days
collect_days (some (negsuc n) ∷ values) days = collect_days values days
collect_days (some (pos day) ∷ values) days =
    if leb day 6 && not (is_day day days)
    then collect_days values (days ++ day ∷ [])
    else collect_days values days

abbrev every_day : List (Option ℤ)
every_day =
    some (pos 0)
    ∷ some (pos 1)
    ∷ some (pos 2)
    ∷ some (pos 3)
    ∷ some (pos 4)
    ∷ some (pos 5)
    ∷ some (pos 6)
    ∷ []

abbrev pub days_or_all : List (Option ℤ) → List (Option ℤ)
days_or_all [] = every_day
days_or_all (d ∷ ds) = d ∷ ds

unfoldable pub read_days : RawDays → Checked (List ℕ)
unfolding collect_days
read_days (items values) = valid (collect_days (days_or_all values) [])
read_days not_iterable = raises "TypeError"

abbrev pub no_day : List ℕ → Bool
no_day [] = true
no_day (d ∷ ds) = false

unfoldable pub normalize_time : RawCondition → Checked Condition
normalize_time c = do
  start ← normalize_clock c.start
  end ← normalize_clock c.end
  days ← read_days c.days
  require (not (no_day days)) "automation_days_required"
  pure (time (record { start = start; end = end; days = days }))

abbrev hours : Option ℤ → Option ℤ
hours none = none
hours (some (pos n)) = some (pos (n * 60))
hours (some (negsuc n)) = some (negsuc (n * 60 + 59))

-- A period in minutes that is not positive is taken in hours.
abbrev period_of : Option ℤ → Option ℤ → Option ℤ
period_of none freq = none
period_of (some p) freq = if leb_ℤ p (pos 0) then hours freq else some p

abbrev anchor_of : Option ℤ → Option ℕ → Checked ℤ
anchor_of (some anchor) now = valid anchor
anchor_of none (some now) = valid (pos now)
anchor_of none none = value_error "automation_clock_unavailable"

unfoldable pub normalize_timer : Site → RawCondition → Checked Condition
normalize_timer site c = do
  times ←
      some_or (both c.duration_min (period_of c.period_min c.freq_hours)) "automation_timer_invalid"
  require (ltb_ℤ (pos 0) times.0 && ltb_ℤ (pos 0) times.1 && ltb_ℤ times.0 times.1)
      "automation_timer_invalid"
  anchor ← anchor_of c.anchor_epoch site.now_epoch
  pure (
      timer (record {
        duration_min = pos_part times.0;
        period_min = pos_part times.1;
        anchor_epoch = anchor;
      }))

unfoldable pub normalize_condition : Site → RawCondition → Checked Condition
normalize_condition site c =
    if not c.is_dict
    then value_error "automation_condition_invalid"
    else if str_eq c.kind "astral"
    then value_error "automation_astral_unsupported"
    else if str_eq c.kind "or"
    then valid or_break
    else if str_eq c.kind "sensor"
    then normalize_sensor site c
    else if str_eq c.kind "time"
    then normalize_time c
    else if str_eq c.kind "timer"
    then normalize_timer site c
    else value_error "automation_condition_type"

abbrev pub desired_of : RawState → Bool
desired_of (flag b) = b
desired_of (text s) = str_eq s "on" || str_eq s "true" || str_eq s "1"

abbrev find_target : String → List SwitchChannelConfig → Option SwitchChannelConfig
find_target suffix [] = none
find_target suffix (c ∷ cs) =
    if str_eq suffix c.channel_id || str_eq suffix c.key || str_eq suffix c.label
    then some c
    else find_target suffix cs

unfoldable pub normalize_action : Site → RawAction → Checked Action
normalize_action site a = do
  require a.is_dict "automation_action_invalid"
  channel ←
      some_or (find_target (suffix_of a.switch_key) site.channels) "automation_switch_not_local"
  require (str_eq a.revert_action "previous_state" || str_eq a.revert_action "do_nothing")
      "automation_revert_invalid"
  delay ← some_or a.delay_s "automation_delay_invalid"
  require (leb_ℤ (pos 0) delay && leb_ℤ delay (pos 60)) "automation_delay_invalid"
  pure (record {
    switch_key = switch_key_of site.device_id channel.channel_id;
    set = desired_of a.set;
    previous_state = str_eq a.revert_action "previous_state";
    delay_s = pos_part delay;
  })

unfoldable pub normalize_all : {A B : Type 0} → (A → Checked B) → List A → Checked (List B)
normalize_all f [] = valid []
normalize_all f (x ∷ xs) = do y ← f x; ys ← normalize_all f xs; pure (y ∷ ys)

abbrev pub is_or : Condition → Bool
is_or or_break = true
is_or _ = false

-- Whether the last condition of the list is an "or", and whether two stand together: the loop, with
-- `previous_or`.
unfoldable pub ends_in_or : Bool → List Condition → Bool
ends_in_or last [] = last
ends_in_or last (c ∷ cs) = ends_in_or (is_or c) cs

unfoldable pub repeats_or : Bool → List Condition → Bool
repeats_or previous_or [] = false
repeats_or previous_or (c ∷ cs) = (is_or c && previous_or) || repeats_or (is_or c) cs

abbrev pub starts_with_or : List Condition → Bool
starts_with_or [] = false
starts_with_or (c ∷ cs) = is_or c

unfoldable pub normalize_script : Site → RawScript → Checked Script
normalize_script site s = do
  require s.is_dict "automation_script_invalid"
  require (leb s.json_length 1536) "automation_script_too_large"
  require (ltb 0 (length s.conditions)) "automation_conditions_required"
  require (ltb 0 (length s.actions)) "automation_actions_required"
  require (leb (length s.conditions) 12) "automation_condition_limit"
  require (leb (length s.actions) 4) "automation_action_limit"
  conditions ← normalize_all (normalize_condition site) s.conditions
  require (not (starts_with_or conditions || ends_in_or false conditions)) "automation_or_position"
  require (not (repeats_or false conditions)) "automation_or_position"
  actions ← normalize_all (normalize_action site) s.actions
  require (not (is_blank (strip is_space s.name))) "automation_name_required"
  pure (record {
    name = text_take 64 (strip is_space s.name);
    conditions = conditions;
    actions = actions;
  })
