-- ===== src/Ntp/Budget.antt =====
-- The attempts of core/ntp.py that may fail before the node gives up.
use c_py_nodus_ii.Prelude.{
  ℕ, ◌*◌, ◌<◌, ◌≤◌, ◌≡◌, ◌⊎◌, refl, String, true, false, ◌&&◌, List, [], ◌∷◌, arith, ◌==◌, ap, ◌∙◌,
  Bool-cases, inl, inr,
}
use c_py_nodus_ii.Prelude.Int.{ℤ}
use c_py_nodus_ii.Ntp.{
  deferred, error, NtpConfig, Network, NtpState, NtpResult, ntp_targets, Attempt, answered_by,
  failed, try_targets, after_attempt, is_cooldown, is_disabled, leave_cooldown,
  sync_unless_disabled, maybe_sync_ntp, failure_phase,
}
use c_py_nodus_ii.Ntp.Calls.{
  Call, run, outcome, count_failure, failures, primary-is_in, answered-is_in, spent, is_within,
  within, spent_of, same_server, count_of, window_of,
}

-- A step that keeps the bound and counts as its phase says.
abbrev Counts : NtpConfig → ℕ → NtpResult → Type 0
Counts c before r = (is_within c r.state ≡ true) × (spent c r.state ≡ count_failure r.phase before)

pub failure_phase-cases :
    (es : List String) → (failure_phase es ≡ deferred) ⊎ (failure_phase es ≡ error)
unfolding failure_phase
failure_phase-cases [] = inl refl
failure_phase-cases (e ∷ es) = ground (arith, failure_phase-cases es)

after_attempt-Counts :
    (c : NtpConfig) (n : Network) (s : NtpState) (now : ℤ) (count window : ℕ) (a : Attempt)
    → 0 < c.max_dns_failures
    → within c.max_dns_failures false count window ≡ true
    → try_targets n (ntp_targets c) [] ≡ a
    → Counts c (spent_of c.max_dns_failures count window) (after_attempt c s now count window a)
unfolding after_attempt is_within spent
after_attempt-Counts c n s now count window (answered_by target text) m w e =
    let known = answered-is_in c n (ntp_targets c) [] target text e in rw known (ground arith)
after_attempt-Counts c n s now count window (failed errors) m w e =
    ground (arith, primary-is_in c, failure_phase-cases errors)

module _ (c : NtpConfig) (n : Network) (now : ℤ) (m : 0 < c.max_dns_failures) where
  attempt-Counts :
      (s : NtpState)
      → is_within c s ≡ true
      → same_server c s && is_disabled s.phase ≡ false
      → Counts c
          (spent c s)
          (after_attempt c s now (count_of c s) (window_of c s) (try_targets n (ntp_targets c) []))
  unfolding is_within spent
  attempt-Counts s w d =
      after_attempt-Counts c n s now (count_of c s) (window_of c s)
        (try_targets n (ntp_targets c) []) m (ground arith) refl

  unless_disabled-Counts :
      (s : NtpState)
      → is_within c s ≡ true
      → Counts c (spent c s) (sync_unless_disabled c n (same_server c s) s now)
  unfolding sync_unless_disabled
  unless_disabled-Counts s w = elim (Bool-cases (same_server c s && is_disabled s.phase)) [
    | inl e ↦ ground (arith, e)
    | inr e ↦ ground (arith, e, attempt-Counts s w e)
  ]

  -- A state that leaves its cooldown counts what it counted.
  leave_cooldown-Counts :
      (s : NtpState)
      → is_within c s ≡ true
      → same_server c s && is_cooldown s.phase ≡ true
      → (is_within c (leave_cooldown s) ≡ true) × (spent c (leave_cooldown s) ≡ spent c s)
  unfolding is_within spent
  leave_cooldown-Counts s w e = ground arith

  maybe_sync_ntp-Counts :
      (s : NtpState) → is_within c s ≡ true → Counts c (spent c s) (maybe_sync_ntp c n s now)
  unfolding maybe_sync_ntp
  maybe_sync_ntp-Counts s w = elim (Bool-cases (same_server c s && is_cooldown s.phase)) [
    | inl e ↦
        let (still, same) = leave_cooldown-Counts s w e in
        ground (arith, e, same, unless_disabled-Counts (leave_cooldown s) still)
    | inr e ↦ ground (arith, e, unless_disabled-Counts s w)
  ]

module _ (c : NtpConfig) (m : 0 < c.max_dns_failures) where
  run-Counts :
      (calls : List Call)
      → (is_within c (run c calls) ≡ true) × (spent c (run c calls) ≡ failures c calls)
  unfolding run failures is_within spent
  run-Counts [] = ground arith
  run-Counts (o ∷ earlier) =
      let (w, e) = run-Counts earlier in
      let (w', e') = maybe_sync_ntp-Counts c o.network o.now m (run c earlier) w in
      (w', e' ∙ ap (count_failure (outcome c o earlier)) e)

  -- Under one configuration with a limit of failures, whatever the network answers and whenever it
  -- is asked: at most twice the limit of attempts fail in a row without a synchronisation between
  -- them, and the node is disabled exactly when so many have.
  pub attempts_bounded :
      (calls : List Call)
      → (failures c calls ≤ 2 * c.max_dns_failures)
        × (is_disabled (run c calls).phase ≡ (failures c calls == 2 * c.max_dns_failures))
  unfolding is_within spent
  attempts_bounded calls = let (w, e) = run-Counts calls in ground arith
