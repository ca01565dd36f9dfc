-- ===== src/Automation/Conditions.antt =====
-- The conditions of a rule: `_compare`, `_sensor_matches`, `_time_matches`, `_condition_matches` and
-- `_rule_matches`.
use Prim.Native.String
use c_py_nodus_ii.Prelude.{
  ℕ, suc, ◌+◌, ◌-◌, ◌*◌, ◌%◌, String, Bool, true, false, not, ◌&&◌, ◌||◌, Option, none, some, List,
  [], ◌∷◌, ltb, leb, ◌==◌, if◌then◌else◌,
}
use c_py_nodus_ii.Prelude.Text.{decimal}
use c_py_nodus_ii.Prelude.Int.{ℤ, pos, negsuc, ◌+ℤ◌, ◌-ℤ◌, ltb_ℤ, leb_ℤ, max_ℤ}
use c_py_nodus_ii.Prelude.Dict.{Dict, lookup, insert}
use c_py_nodus_ii.Automation.{
  Operator, greater, greater_equal, less, less_equal, equal, not_equal, SensorCondition,
  TimeCondition, TimerCondition, Condition, sensor, time, timer, or_break, Rule, LocalTime,
}

abbrev pub equal_ℤ : ℤ → ℤ → Bool
equal_ℤ a b = leb_ℤ a b && leb_ℤ b a

unfoldable pub compare : ℤ → Operator → ℤ → Bool
compare value greater threshold = ltb_ℤ threshold value
compare value greater_equal threshold = leb_ℤ threshold value
compare value less threshold = ltb_ℤ value threshold
compare value less_equal threshold = leb_ℤ value threshold
compare value equal threshold = equal_ℤ value threshold
compare value not_equal threshold = not (equal_ℤ value threshold)

-- The threshold of a condition that held at the last evaluation.
unfoldable pub held_threshold : Operator → ℤ → ℤ → ℤ
held_threshold greater threshold hyst = threshold -ℤ hyst
held_threshold greater_equal threshold hyst = threshold -ℤ hyst
held_threshold less threshold hyst = threshold +ℤ hyst
held_threshold less_equal threshold hyst = threshold +ℤ hyst
held_threshold op threshold hyst = threshold

abbrev pub hyst_of : SensorCondition → ℤ
hyst_of c = max_ℤ (pos 0) c.hyst

unfoldable pub compare_threshold : Bool → SensorCondition → ℤ
compare_threshold previous c =
    if previous && not (equal_ℤ (hyst_of c) (pos 0))
    then held_threshold c.op c.value (hyst_of c)
    else c.value

abbrev pub token : String → ℕ → String
token rule_id index = String.◌++◌ rule_id (String.◌++◌ ":" (decimal index))

abbrev pub or_false : Option Bool → Bool
or_false none = false
or_false (some b) = b

-- `_sensor_matches` of a metric that `float` takes
unfoldable pub sensor_value_matches : String → SensorCondition → ℤ → Dict Bool → Bool × Dict Bool
sensor_value_matches key c value states =
    let matched = compare value c.op (compare_threshold (or_false (lookup key states)) c) in
    (matched, insert key matched states)

abbrev pub metric_value : Option (Option ℤ) → Option ℤ
metric_value none = none
metric_value (some v) = v

unfoldable pub sensor_matches :
    String → SensorCondition → Dict (Option ℤ) → Dict Bool → Bool × Dict Bool
sensor_matches key c metrics states = elim (metric_value (lookup c.metric metrics)) [
  | none ↦ (false, states)
  | some value ↦ sensor_value_matches key c value states
]

abbrev pub is_day : ℕ → List ℕ → Bool
is_day d [] = false
is_day d (e ∷ es) = e == d || is_day d es

abbrev pub minute_of : LocalTime → ℕ
minute_of t = t.hour * 60 + t.minute

-- After midnight, a window that began the day before.
abbrev pub window_day : TimeCondition → LocalTime → ℕ
window_day c t =
    if ltb c.end c.start && ltb (minute_of t) c.end then (t.weekday + 6) % 7 else t.weekday

unfoldable pub time_matches : TimeCondition → LocalTime → Bool
time_matches c t =
    if not (is_day (window_day c t) c.days)
    then false
    else if c.start == c.end
    then true
    else if ltb c.start c.end
    then leb c.start (minute_of t) && ltb (minute_of t) c.end
    else leb c.start (minute_of t) || ltb (minute_of t) c.end

unfoldable pub clock_ready : LocalTime → Bool
clock_ready t = leb 2023 t.year

-- Python's `%` with a positive right side.
abbrev pub mod_ℤ : ℤ → ℕ → ℕ
mod_ℤ (pos n) p = n % p
mod_ℤ (negsuc n) p = p - 1 - n % p

unfoldable pub timer_matches : TimerCondition → ℕ → Bool
timer_matches c now_epoch =
    ltb (mod_ℤ (pos now_epoch -ℤ c.anchor_epoch) (c.period_min * 60)) (c.duration_min * 60)

-- `_condition_matches`; the condition is not an "or".
unfoldable pub condition_matches :
    (ℕ → LocalTime) → String → Condition → ℕ → Dict (Option ℤ) → Dict Bool → Bool × Dict Bool
condition_matches localtime key (sensor c) now metrics states = sensor_matches key c metrics states
condition_matches localtime key (time c) now metrics states =
    (clock_ready (localtime now) && time_matches c (localtime now), states)
condition_matches localtime key (timer c) now metrics states =
    (clock_ready (localtime now) && timer_matches c now, states)
condition_matches localtime key or_break now metrics states = (false, states)

-- Every condition is evaluated, in order; an "or" gives `none`.
unfoldable pub evaluate :
    (ℕ → LocalTime)
    → String
    → ℕ
    → List Condition
    → ℕ
    → Dict (Option ℤ)
    → Dict Bool
    → List (Option Bool) × Dict Bool
evaluate localtime rule_id index [] now metrics states = ([], states)
evaluate localtime rule_id index (or_break ∷ cs) now metrics states =
    let (results, states') = evaluate localtime rule_id (suc index) cs now metrics states in
    (none ∷ results, states')
evaluate localtime rule_id index (c ∷ cs) now metrics states =
    let (matched, states1) =
      condition_matches localtime (token rule_id index) c now metrics states in
    let (results, states2) = evaluate localtime rule_id (suc index) cs now metrics states1 in
    (some matched ∷ results, states2)

abbrev pub is_empty : List Bool → Bool
is_empty [] = true
is_empty (b ∷ bs) = false

abbrev pub all : List Bool → Bool
all [] = true
all (b ∷ bs) = b && all bs

-- The loop: the open group, its newest member first, and the closed ones, the newest first.
unfoldable pub build_groups : List (Option Bool) → List Bool → List (List Bool) → List (List Bool)
build_groups [] group closed = group ∷ closed
build_groups (none ∷ rs) group closed =
    if is_empty group then build_groups rs [] closed else build_groups rs [] (group ∷ closed)
build_groups (some b ∷ rs) group closed = build_groups rs (b ∷ group) closed

-- `any(group and all(group) for group in groups)`
unfoldable pub any_group : List (List Bool) → Bool
any_group [] = false
any_group (group ∷ groups) = (not (is_empty group) && all group) || any_group groups

unfoldable pub rule_matches :
    (ℕ → LocalTime) → Rule → ℕ → Dict (Option ℤ) → Dict Bool → Bool × Dict Bool
rule_matches localtime rule now metrics states =
    let (results, states') =
      evaluate localtime rule.rule_id 0 rule.script.conditions now metrics states in
    (any_group (build_groups results [] []), states')
