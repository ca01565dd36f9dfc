-- ===== src/Automation/Clock.antt =====
-- The conditions on the clock: `_time_matches` and the timer of `_condition_matches`.
use c_py_nodus_ii.Prelude.{
  ℕ, ◌+◌, ◌-◌, ◌*◌, ◌%◌, ◌<◌, ◌≡◌, ◌≢◌, refl, ◌∙◌, Bool, false, ◌&&◌, ◌||◌, List, [], ◌∷◌, arith,
  All, ltb, leb, ◌==◌, if◌then◌else◌,
}
use native.Mathlib.Nat
use c_py_nodus_ii.Prelude.Int.{ℤ, pos, pos_part, neg_part, ◌+ℤ◌, ◌-ℤ◌, eq_of_parts}
use c_py_nodus_ii.Automation.{TimeCondition, TimerCondition, LocalTime}
use c_py_nodus_ii.Automation.Conditions.{is_day, minute_of, window_day, time_matches, timer_matches}

-- The minutes of the week.
abbrev week : ℕ
week = 7 * 1440

-- The minutes since the window last began on day `d`.
abbrev pub minutes_since : TimeCondition → LocalTime → ℕ → ℕ
minutes_since c t d = (t.weekday * 1440 + minute_of t + week - (d * 1440 + c.start)) % week

-- How long the window is open.
abbrev pub window_length : TimeCondition → ℕ
window_length c = (c.end + 1440 - c.start) % 1440

-- On one of the days the window began less than its length ago.
unfoldable pub is_open : TimeCondition → LocalTime → List ℕ → Bool
is_open c t [] = false
is_open c t (d ∷ ds) = ltb (minutes_since c t d) (window_length c) || is_open c t ds

-- A clock shows a time of some day of the week.
abbrev pub IsClockTime : LocalTime → Type 0
IsClockTime t = (t.weekday < 7) × (t.hour < 24) × (t.minute < 60)

abbrev pub IsWindow : TimeCondition → Type 0
IsWindow c = (c.start < 1440) × (c.end < 1440) × All (λ d. d < 7) c.days

-- Whether the time of day is in the window, as the code tests it.
abbrev in_window : ℕ → ℕ → ℕ → Bool
in_window start end minute =
    if ltb start end then leb start minute && ltb minute end else leb start minute || ltb minute end

one_day :
    (start end minute day d : ℕ)
    → start < 1440
    → end < 1440
    → start ≢ end
    → minute < 1440
    → day < 7
    → d < 7
    → ltb ((day * 1440 + minute + 10080 - (d * 1440 + start)) % 10080) ((end + 1440 - start) % 1440)
      ≡ (d == (if ltb end start && ltb minute end then (day + 6) % 7 else day)
          && in_window start end minute)
one_day start end minute day d a b n m w h = ground arith

either_day : (a b w : Bool) → ((a && w) || (b && w)) ≡ ((a || b) && w)
either_day a b w = ground arith

some_day :
    (c : TimeCondition) (t : LocalTime) (ds : List ℕ)
    → c.start < 1440
    → c.end < 1440
    → c.start ≢ c.end
    → IsClockTime t
    → All (λ d. d < 7) ds
    → is_open c t ds ≡ (is_day (window_day c t) ds && in_window c.start c.end (minute_of t))
unfolding is_open
some_day c t [] a b n i h = refl
some_day c t (d ∷ ds) a b n (w, hr, mi) (i, h) =
    let one = one_day c.start c.end (minute_of t) t.weekday d a b n (omega arith) w i in
    let rest = some_day c t ds a b n (w, hr, mi) h in
    rw (one, rest) (either_day (d == window_day c t) (is_day (window_day c t) ds) _)

-- A window whose start and end differ: the condition holds exactly when the window was opened, on
-- one of its days, less than its length ago, counted in minutes of the week, also when it runs
-- over midnight and over the end of the week.
pub time_matches_window :
    (c : TimeCondition) (t : LocalTime)
    → IsWindow c
    → c.start ≢ c.end
    → IsClockTime t
    → time_matches c t ≡ is_open c t c.days
unfolding time_matches
time_matches_window c t (a, b, h) n i = ground (arith, some_day c t c.days a b n i h)

mod_add : (k p r : ℕ) → r < p → (k * p + r) % p ≡ r
mod_add k p r h = Nat.mul-add-mod_self_right k p r ∙ Nat.mod-eq_of_lt h

since_anchor :
    (now : ℕ) (anchor : ℤ) (n : ℕ)
    → pos now ≡ anchor +ℤ pos n
    → pos_part (pos now -ℤ anchor) + 0 ≡ n + neg_part (pos now -ℤ anchor)
unfolding ◌+ℤ◌ ◌-ℤ◌
since_anchor now anchor n e = ground arith

-- From the anchor of a timer on, the timer holds in the first minutes of every period, as many as
-- its duration.
pub timer_matches_period :
    (c : TimerCondition) (k r now : ℕ)
    → pos now ≡ c.anchor_epoch +ℤ pos (k * (c.period_min * 60) + r)
    → r < c.period_min * 60
    → timer_matches c now ≡ ltb r (c.duration_min * 60)
unfolding timer_matches
timer_matches_period c k r now e h =
    let period = c.period_min * 60 in
    let since =
      eq_of_parts (pos now -ℤ c.anchor_epoch) (pos (k * period + r))
        (since_anchor now c.anchor_epoch (k * period + r) e) in
    rw (since, mod_add k period r h)
