-- ===== src/Ntp/Due.antt =====
-- The times between the attempts of core/ntp.py.
use c_py_nodus_ii.Prelude.{
  ℕ, ap, ◌∙◌, ◌≡◌, refl, Bool, true, false, not, ◌&&◌, Option, none, some, List, [], ◌∷◌, arith,
  All, if◌then◌else◌, if-elim,
}
use c_py_nodus_ii.Prelude.Int.{ℤ, pos, ◌-ℤ◌, ◌≤ℤ◌, leb_ℤ, ltb_ℤ}
use c_py_nodus_ii.Ntp.{
  Phase, skipped, synced, deferred, error, NtpConfig, Network, NtpState, NtpResult, never,
  ntp_targets, Attempt, answered_by, failed, try_targets, after_attempt, sync_due,
  sync_unless_disabled, maybe_sync_ntp, leave_cooldown, skip, is_cooldown, is_disabled,
}
use c_py_nodus_ii.Ntp.Calls.{Call, run, outcome, same_server}
use c_py_nodus_ii.Ntp.Budget.{failure_phase-cases}

abbrev pub is_skipped : Phase → Bool
is_skipped skipped = true
is_skipped _ = false

abbrev pub is_synced : Phase → Bool
is_synced synced = true
is_synced _ = false

-- When the newest attempt was made, and the newest that succeeded.
unfoldable pub last_attempt : NtpConfig → List Call → Option ℤ
last_attempt c [] = none
last_attempt c (o ∷ earlier) =
    let rest = last_attempt c earlier in
    if is_skipped (outcome c o earlier) then rest else some o.now

unfoldable pub last_sync : NtpConfig → List Call → Option ℤ
last_sync c [] = none
last_sync c (o ∷ earlier) =
    let rest = last_sync c earlier in if is_synced (outcome c o earlier) then some o.now else rest

-- A day has gone by since the last synchronisation or, before the first, a minute since the last
-- attempt.
abbrev pub due_after : NtpConfig → Option ℤ → Option ℤ → ℤ → Bool
due_after c (some t) attempt now = leb_ℤ c.sync_interval_s (now -ℤ t)
due_after c none (some t) now = leb_ℤ c.retry_interval_s (now -ℤ t)
due_after c none none now = true

abbrev time_or_never : Option ℤ → ℤ
time_or_never (some t) = t
time_or_never none = never

abbrev some_time : Option ℤ → Option ℤ
some_time (some t) = some t
some_time none = some (pos 0)

-- What one call does to the two times.
module _ (c : NtpConfig) (n : Network) (s : NtpState) (now : ℤ) where
  after_attempt-times :
      (count window : ℕ) (a : Attempt)
      → let r = after_attempt c s now count window a in
        (is_skipped r.phase ≡ false)
        × (r.state.last_attempt_at ≡ now)
        × (r.state.last_sync_at ≡ (if is_synced r.phase then now else s.last_sync_at))
  unfolding after_attempt
  after_attempt-times count window (answered_by target text) = (refl, refl, refl)
  after_attempt-times count window (failed errors) = ground (arith, failure_phase-cases errors)

abbrev Times : NtpConfig → NtpState → ℤ → NtpResult → Type 0
Times c s now r =
    (r.state.last_attempt_at ≡ (if is_skipped r.phase then s.last_attempt_at else now))
    × (r.state.last_sync_at ≡ (if is_synced r.phase then now else s.last_sync_at))
    × (is_skipped r.phase ≡ false → sync_due c s now ≡ true)

module _ (c : NtpConfig) (n : Network) (now : ℤ) where
  skip-Times : (s : NtpState) → Times c s now (skip s "")
  skip-Times s = (refl, refl, λ e. ground (arith, e))

  attempt-Times :
      (s : NtpState) (count window : ℕ) (a : Attempt)
      → sync_due c s now ≡ true
      → Times c s now (after_attempt c s now count window a)
  attempt-Times s count window a due =
      let (e, f, g) = after_attempt-times c n s now count window a in (rw e f, g, λ _. due)

  unless_disabled-Times :
      (same : Bool) (s : NtpState) → Times c s now (sync_unless_disabled c n same s now)
  unfolding sync_unless_disabled
  unless_disabled-Times same s =
      if-elim (Times c s now) (same && is_disabled s.phase) _ _ (λ _. skip-Times s)
        λ _.
          if-elim (Times c s now) (not (sync_due c s now)) _ _ (λ _. skip-Times s)
            λ e. attempt-Times s _ _ _ (ground (arith, e))

  maybe_sync_ntp-Times : (s : NtpState) → Times c s now (maybe_sync_ntp c n s now)
  unfolding maybe_sync_ntp sync_due
  maybe_sync_ntp-Times s =
      if-elim (Times c s now) (not c.ntp_enabled) _ _ (λ _. skip-Times s)
        λ _.
          if-elim (Times c s now) (not n.ready) _ _ (λ _. skip-Times s)
            λ _.
              if-elim (Times c s now)
                (same_server c s && is_cooldown s.phase && ltb_ℤ now s.cooldown_until) _ _
                (λ _. skip-Times s)
                λ _.
                  if-elim (λ s'. Times c s now (sync_unless_disabled c n (same_server c s) s' now))
                    (same_server c s && is_cooldown s.phase) _ _
                    (λ _. unless_disabled-Times _ (leave_cooldown s))
                    (λ _. unless_disabled-Times _ s)

module _ (c : NtpConfig) where
  run-times :
      (calls : List Call)
      → ((run c calls).last_attempt_at ≡ time_or_never (last_attempt c calls))
        × ((run c calls).last_sync_at ≡ time_or_never (last_sync c calls))
  unfolding run last_attempt last_sync
  run-times [] = (refl, refl)
  run-times (o ∷ earlier) =
      let (e, f) = run-times earlier in
      let (g, h, _) = maybe_sync_ntp-Times c o.network o.now (run c earlier) in
      ground (arith, e, f, g, h)

  -- The times of a history that are not negative.
  times-nonneg :
      (calls : List Call)
      → All (λ o. pos 0 ≤ℤ o.now) calls
      → (pos 0 ≤ℤ time_or_never (some_time (last_attempt c calls)))
        × (pos 0 ≤ℤ time_or_never (some_time (last_sync c calls)))
  unfolding last_attempt last_sync
  times-nonneg [] p = ground arith
  times-nonneg (o ∷ earlier) p = ground (arith, times-nonneg earlier p.1)

  -- On a clock that is never negative, the node asks a server only when it is due: a sync interval
  -- after the last synchronisation, or before the first one a retry interval after the last attempt.
  pub attempt_is_due :
      (o : Call) (earlier : List Call)
      → All (λ o. pos 0 ≤ℤ o.now) earlier
      → is_skipped (outcome c o earlier) ≡ false
      → due_after c (last_sync c earlier) (last_attempt c earlier) o.now ≡ true
  unfolding sync_due
  attempt_is_due o earlier p e =
      let (f, g) = run-times earlier in
      let (_, _, due) = maybe_sync_ntp-Times c o.network o.now (run c earlier) in
      let now_due = due e in ground (arith, f, g, now_due, times-nonneg earlier p)

-- The result of an attempt that failed while the limit is not reached.
abbrev pub is_retrying : Phase → Bool
is_retrying deferred = true
is_retrying error = true
is_retrying _ = false

abbrev Kept : NtpConfig → NtpResult → Type 0
Kept c r = is_retrying r.phase ≡ true → (r.state.phase ≡ r.phase) × (c.ntp_enabled ≡ true)

module _ (c : NtpConfig) (n : Network) (now : ℤ) (on : c.ntp_enabled ≡ true) where
  after_attempt-Kept :
      (s : NtpState) (count window : ℕ) (a : Attempt)
      → Kept c (after_attempt c s now count window a)
  unfolding after_attempt
  after_attempt-Kept s count window (answered_by target text) e = ground (arith, e)
  after_attempt-Kept s count window (failed errors) e = ground (arith, e, on)

  unless_disabled-Kept : (same : Bool) (s : NtpState) → Kept c (sync_unless_disabled c n same s now)
  unfolding sync_unless_disabled
  unless_disabled-Kept same s =
      if-elim (Kept c) (same && is_disabled s.phase) _ _ (λ _ e. ground (arith, e))
        λ _.
          if-elim (Kept c) (not (sync_due c s now)) _ _ (λ _ e. ground (arith, e))
            λ _. after_attempt-Kept s _ _ _

maybe_sync_ntp-Kept :
    (c : NtpConfig) (n : Network) (now : ℤ) (s : NtpState) → Kept c (maybe_sync_ntp c n s now)
unfolding maybe_sync_ntp
maybe_sync_ntp-Kept c n now s =
    if-elim (Kept c) (not c.ntp_enabled) _ _ (λ _ e. ground (arith, e))
      λ on.
        if-elim (Kept c) (not n.ready) _ _ (λ _ e. ground (arith, e))
          λ _.
            if-elim (Kept c) (same_server c s && is_cooldown s.phase && ltb_ℤ now s.cooldown_until)
              _ _ (λ _ e. ground (arith, e))
              λ _. unless_disabled-Kept c n now (ground (arith, on)) _ _

still_due :
    (c : NtpConfig) (s s' : NtpState) (now : ℤ)
    → pos 0 ≤ℤ s.last_sync_at
    → s'.last_sync_at ≡ s.last_sync_at
    → sync_due c s now ≡ true
    → sync_due c s' now ≡ true
unfolding sync_due
still_due c s s' now set e due = ground (arith, set, e, due)

attempted :
    (c : NtpConfig) (n : Network) (s : NtpState) (now : ℤ)
    → c.ntp_enabled ≡ true
    → n.ready ≡ true
    → is_retrying s.phase ≡ true
    → sync_due c s now ≡ true
    → is_skipped (maybe_sync_ntp c n s now).phase ≡ false
unfolding maybe_sync_ntp sync_unless_disabled
attempted c n s now on up retry due =
    let not_cooling : is_cooldown s.phase ≡ false = ground (arith, retry) in
    let not_disabled : is_disabled s.phase ≡ false = ground (arith, retry) in
    let same = same_server c s in
    let (e, _, _) =
      after_attempt-times c n s now (if same then s.failure_count else 0)
        (if same then s.failure_window else 1) (try_targets n (ntp_targets c) []) in
    ground (arith, not_cooling, not_disabled, e)

-- Once the clock has been set, a failed attempt below the limit is not paced: the next call, at the
-- same time and on any network that is ready, is an attempt again.
pub failed_resync_repeats_at_once :
    (c : NtpConfig) (n n' : Network) (s : NtpState) (now : ℤ)
    → pos 0 ≤ℤ s.last_sync_at
    → is_retrying (maybe_sync_ntp c n s now).phase ≡ true
    → n'.ready ≡ true
    → is_skipped (maybe_sync_ntp c n' (maybe_sync_ntp c n s now).state now).phase ≡ false
failed_resync_repeats_at_once c n n' s now set retry up =
    let (state_phase, on) = maybe_sync_ntp-Kept c n now s retry in
    let (_, last, due) = maybe_sync_ntp-Times c n now s in
    let is_due : sync_due c s now ≡ true = due (ground (arith, retry)) in
    let kept : (maybe_sync_ntp c n s now).state.last_sync_at ≡ s.last_sync_at =
      ground (arith, last, retry) in
    attempted c n' (maybe_sync_ntp c n s now).state now on up (ap is_retrying state_phase ∙ retry)
      (still_due c s (maybe_sync_ntp c n s now).state now set kept is_due)
