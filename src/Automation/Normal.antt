-- ===== src/Automation/Normal.antt =====
-- What a script has that `_normalize_script` lets through.
use c_py_nodus_ii.Prelude.{
  ℕ, suc, ◌≤◌, ◌<◌, ◌≡◌, refl, ap, String, Bool, true, false, not, ◌&&◌, ◌||◌, Option, none, some,
  List, [], ◌∷◌, ◌++◌, length, arith, All, leb, str_eq, if-elim, Bool-cases, inl, inr,
}
use c_py_nodus_ii.Prelude.Int.{ℤ, pos, negsuc, ◌≤ℤ◌}
use c_py_nodus_ii.Automation.{Condition, sensor, time, timer, or_break, Action, Script}
use c_py_nodus_ii.Automation.Conditions.{is_day}
use c_py_nodus_ii.Automation.Clock.{IsWindow}
use c_py_nodus_ii.Automation.Raw.{
  Checked, valid, value_error, raises, RawDays, items, not_iterable, ◌>>=◌, ◌>>◌, require,
  RawCondition, RawAction, RawScript, Site,
}
use c_py_nodus_ii.Automation.Scripts.{
  normalize_sensor, normalize_clock, collect_days, days_or_all, read_days, no_day, normalize_time,
  normalize_timer, normalize_condition, normalize_action, normalize_all, starts_with_or, ends_in_or,
  repeats_or, normalize_script,
}

-- A property of what a check lets through.
abbrev pub Ensures : {A : Type 0} → (A → Type 0) → Checked A → Type 0
Ensures P (valid a) = P a
Ensures P (value_error e) = Unit
Ensures P (raises e) = Unit

Ensures-bind :
    {A B : Type 0} (P : A → Type 0) (Q : B → Type 0) (m : Checked A) (f : A → Checked B)
    → Ensures P m
    → ((a : A) → P a → Ensures Q (f a))
    → Ensures Q (m >>= f)
unfolding ◌>>=◌
Ensures-bind P Q (valid a) f h k = k a h
Ensures-bind P Q (value_error e) f h k = tt
Ensures-bind P Q (raises e) f h k = tt

Ensures-require :
    {B : Type 0} (Q : B → Type 0) (b : Bool) (e : String) (m : Checked B)
    → (b ≡ true → Ensures Q m)
    → Ensures Q (require b e >> m)
unfolding ◌>>=◌
Ensures-require Q true e m k = k refl
Ensures-require Q false e m k = tt

anything : {A : Type 0} (m : Checked A) → Ensures (λ _. Unit {0}) m
anything (valid a) = tt
anything (value_error e) = tt
anything (raises e) = tt

-- The values that `evaluate` counts on: a window of the day on some days, a timer that is off for
-- a part of its period.
abbrev pub IsCondition : Condition → Type 0
IsCondition (sensor c) = pos 0 ≤ℤ c.hyst
IsCondition (time c) = IsWindow c × (no_day c.days ≡ false)
IsCondition (timer c) = (0 < c.duration_min) × (c.duration_min < c.period_min)
IsCondition or_break = Unit

-- Every "or" stands between two other conditions; whether the last one was an "or" or the start.
abbrev pub Placed : Bool → List Condition → Type 0
Placed true [] = ⊥
Placed false [] = Unit
Placed true (or_break ∷ cs) = ⊥
Placed false (or_break ∷ cs) = Placed true cs
Placed after_or (c ∷ cs) = Placed false cs

-- The delay of an action is a minute at most.
abbrev pub IsShort : Action → Type 0
IsShort a = a.delay_s ≤ 60

pub record IsScript (s : Script) : Type 0 where
  pub conditions_valid : All IsCondition s.conditions
  pub placed : Placed true s.conditions
  pub condition_limit : length s.conditions ≤ 12
  pub delays : All IsShort s.actions
  pub some_action : 0 < length s.actions
  pub action_limit : length s.actions ≤ 4

clock_bound : (c : Option (ℤ × ℤ)) → Ensures (λ m. m < 1440) (normalize_clock c)
unfolding normalize_clock
clock_bound none = tt
clock_bound (some (hour, minute)) = ground arith

All-append : {A : Type 0} (P : A → Type 0) (xs ys : List A) → All P xs → All P ys → All P (xs ++ ys)
All-append P [] ys h k = k
All-append P (x ∷ xs) ys (p, h) k = (p, All-append P xs ys h k)

days_bound :
    (values : List (Option ℤ)) (days : List ℕ)
    → All (λ d. d < 7) days
    → All (λ d. d < 7) (collect_days values days)
unfolding collect_days
days_bound [] days h = h
days_bound (none ∷ values) days h = days_bound values days h
days_bound (some (negsuc n) ∷ values) days h = days_bound values days h
days_bound (some (pos day) ∷ values) days h =
    elim (Bool-cases (leb day 6 && not (is_day day days))) [
      | inl e ↦ rw e (
          days_bound values (days ++ day ∷ [])
            (All-append (λ d. d < 7) days (day ∷ []) h (ground (arith, e), tt)))
      | inr e ↦ rw e (days_bound values days h)
    ]

read_days-bound : (days : RawDays) → Ensures (All (λ d. d < 7)) (read_days days)
unfolding read_days
read_days-bound (items values) = days_bound (days_or_all values) [] tt
read_days-bound not_iterable = tt

sensor-IsCondition :
    (site : Site) (c : RawCondition) → Ensures IsCondition (normalize_sensor site c)
unfolding normalize_sensor
sensor-IsCondition site c = Ensures-require IsCondition _ _ _ λ _.
    Ensures-require IsCondition _ _ _ λ _.
      Ensures-bind (λ _. Unit {0}) IsCondition _ _ (anything _)
        λ op _. Ensures-bind (λ _. Unit {0}) IsCondition _ _ (anything _) λ numbers _. ground arith

time-IsCondition : (c : RawCondition) → Ensures IsCondition (normalize_time c)
unfolding normalize_time
time-IsCondition c =
    Ensures-bind (λ m. m < 1440) IsCondition _ _ (clock_bound c.start)
      λ start s.
        Ensures-bind (λ m. m < 1440) IsCondition _ _ (clock_bound c.end)
          λ end e.
            Ensures-bind (All (λ d. d < 7)) IsCondition _ _ (read_days-bound c.days) λ days ds.
              Ensures-require IsCondition _ _ _ λ some_day. ((s, e, ds), ground (arith, some_day))

timer-IsCondition : (site : Site) (c : RawCondition) → Ensures IsCondition (normalize_timer site c)
unfolding normalize_timer
timer-IsCondition site c =
    Ensures-bind (λ _. Unit {0}) IsCondition _ _ (anything _)
      λ times _. Ensures-require IsCondition _ _ _ λ valid_times.
        Ensures-bind (λ _. Unit {0}) IsCondition _ _ (anything _)
          λ anchor _. (ground (arith, valid_times), ground (arith, valid_times))

normalize_condition-IsCondition :
    (site : Site) (c : RawCondition) → Ensures IsCondition (normalize_condition site c)
unfolding normalize_condition
normalize_condition-IsCondition site c =
    let P = Ensures IsCondition in
    if-elim P (not c.is_dict) _ _ (λ _. tt)
      λ _.
        if-elim P (str_eq c.kind "astral") _ _ (λ _. tt)
          λ _.
            if-elim P (str_eq c.kind "or") _ _ (λ _. tt)
              λ _.
                if-elim P (str_eq c.kind "sensor") _ _ (λ _. sensor-IsCondition site c)
                  λ _.
                    if-elim P (str_eq c.kind "time") _ _ (λ _. time-IsCondition c)
                      λ _.
                        if-elim P (str_eq c.kind "timer") _ _ (λ _. timer-IsCondition site c)
                          λ _. tt

action-IsShort : (site : Site) (a : RawAction) → Ensures IsShort (normalize_action site a)
unfolding normalize_action
action-IsShort site a = Ensures-require IsShort _ _ _ λ _.
    Ensures-bind (λ _. Unit {0}) IsShort _ _ (anything _)
      λ channel _. Ensures-require IsShort _ _ _ λ _.
        Ensures-bind (λ _. Unit {0}) IsShort _ _ (anything _)
          λ delay _. Ensures-require IsShort _ _ _ λ short. ground (arith, short)

all-Ensures :
    {A B : Type 0} (P : B → Type 0) (f : A → Checked B) (xs : List A)
    → ((x : A) → Ensures P (f x))
    → Ensures (λ ys. All P ys × (length ys ≡ length xs)) (normalize_all f xs)
unfolding normalize_all
all-Ensures P f [] h = (tt, refl)
all-Ensures P f (x ∷ xs) h =
    Ensures-bind P (λ ys. All P ys × (length ys ≡ suc (length xs))) (f x) _ (h x)
      λ y p.
        Ensures-bind (λ ys. All P ys × (length ys ≡ length xs))
          (λ ys. All P ys × (length ys ≡ suc (length xs))) (normalize_all f xs) _
          (all-Ensures P f xs h) λ ys q. ((p, q.0), ap suc q.1)

-- The three tests on the positions, together.
Placed-after :
    (after_or : Bool) (cs : List Condition)
    → ends_in_or after_or cs ≡ false
    → repeats_or after_or cs ≡ false
    → Placed after_or cs
unfolding ends_in_or repeats_or
Placed-after true [] e r = ground arith
Placed-after false [] e r = tt
Placed-after true (or_break ∷ cs) e r = ground arith
Placed-after false (or_break ∷ cs) e r = Placed-after true cs e r
Placed-after true (sensor c ∷ cs) e r = Placed-after false cs e r
Placed-after false (sensor c ∷ cs) e r = Placed-after false cs e r
Placed-after true (time c ∷ cs) e r = Placed-after false cs e r
Placed-after false (time c ∷ cs) e r = Placed-after false cs e r
Placed-after true (timer c ∷ cs) e r = Placed-after false cs e r
Placed-after false (timer c ∷ cs) e r = Placed-after false cs e r

Placed-script :
    (cs : List Condition)
    → 0 < length cs
    → not (starts_with_or cs || ends_in_or false cs) ≡ true
    → not (repeats_or false cs) ≡ true
    → Placed true cs
unfolding ends_in_or repeats_or
Placed-script [] n e r = ground arith
Placed-script (or_break ∷ cs) n e r = ground arith
Placed-script (sensor c ∷ cs) n e r = Placed-after false cs (ground (arith, e)) (ground (arith, r))
Placed-script (time c ∷ cs) n e r = Placed-after false cs (ground (arith, e)) (ground (arith, r))
Placed-script (timer c ∷ cs) n e r = Placed-after false cs (ground (arith, e)) (ground (arith, r))

-- Every script that `_normalize_script` lets through: one to twelve conditions with values in their
-- ranges, every "or" between two other conditions, and one to four actions that wait a minute at
-- most.
pub normalize_script-IsScript :
    (site : Site) (s : RawScript) → Ensures IsScript (normalize_script site s)
unfolding normalize_script
normalize_script-IsScript site s = Ensures-require IsScript _ _ _ λ _.
    Ensures-require IsScript _ _ _ λ _. Ensures-require IsScript _ _ _ λ some_condition.
      Ensures-require IsScript _ _ _ λ some_action.
        Ensures-require IsScript _ _ _ λ condition_limit.
          Ensures-require IsScript _ _ _ λ action_limit.
            Ensures-bind (λ cs. All IsCondition cs × (length cs ≡ length s.conditions)) IsScript _ _
              (all-Ensures IsCondition (normalize_condition site) s.conditions
                (normalize_condition-IsCondition site))
              λ conditions c. Ensures-require IsScript _ _ _ λ ends.
                Ensures-require IsScript _ _ _ λ repeats.
                  Ensures-bind (λ as'. All IsShort as' × (length as' ≡ length s.actions)) IsScript _
                    _ (all-Ensures IsShort (normalize_action site) s.actions (action-IsShort site))
                    λ actions a. Ensures-require IsScript _ _ _ λ _. record {
                      conditions_valid = c.0;
                      placed =
                          Placed-script conditions (ground (arith, some_condition, c.1)) ends
                            repeats;
                      condition_limit = ground (arith, condition_limit, c.1);
                      delays = a.0;
                      some_action = ground (arith, some_action, a.1);
                      action_limit = ground (arith, action_limit, a.1);
                    }
