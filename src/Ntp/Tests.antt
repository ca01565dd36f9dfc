-- ===== src/Ntp/Tests.antt =====
-- Calls of core/ntp.py on a network that answers and on one that resolves no name.
use c_py_nodus_ii.Prelude.{◌≤◌, ◌≡◌, refl, true, false, none, some, List, [], ◌∷◌, arith, ◌==◌}
use c_py_nodus_ii.Prelude.Int.{ℤ, pos, ◌-ℤ◌, ◌+ℤ◌}
use c_py_nodus_ii.Ntp.{
  default_config, default_server, NtpState, initial_state, Network, answered, raised, disabled,
  synced, is_disabled, maybe_sync_ntp, ntp_targets, sync_unless_disabled, sync_due, after_attempt,
  try_targets, all_dns_not_found, is_dns_not_found_error, failure_phase,
}
use c_py_nodus_ii.Ntp.Calls.{Call, run, failures}
use c_py_nodus_ii.Ntp.Budget.{attempts_bounded}
use c_py_nodus_ii.Ntp.Due.{
  is_skipped, due_after, last_sync, last_attempt, attempt_is_due, failed_resync_repeats_at_once,
}

abbrev online : Network
online = record {
  ready = true;
  unresolved = λ name. none;
  reply = λ name. answered "2026-01-01T00:00:00";
}

abbrev no_names : Network
no_names = record {
  ready = true;
  unresolved = λ name. some "[Errno -2] Name or service not known";
  reply = λ name. raised "timed out";
}

abbrev at : Network → ℤ → Call
at n t = record { network = n; now = t }

-- Three failures a minute apart, and three more after an hour.
abbrev outage : List Call
outage =
    at no_names (pos 3_900_000)
    ∷ at no_names (pos 3_840_000)
    ∷ at no_names (pos 3_780_000)
    ∷ at no_names (pos 180_000)
    ∷ at no_names (pos 120_000)
    ∷ at no_names (pos 60_000)
    ∷ []

attempts_bounded_example :
    (failures default_config outage ≤ 6)
    × (is_disabled (run default_config outage).phase ≡ (failures default_config outage == 6))
attempts_bounded_example = attempts_bounded default_config (omega arith) outage

outage-disabled : (run default_config outage).phase ≡ disabled
unfolding maybe_sync_ntp ntp_targets run sync_unless_disabled sync_due after_attempt try_targets
    all_dns_not_found is_dns_not_found_error ◌-ℤ◌ ◌+ℤ◌
outage-disabled = refl

attempt_is_due_example :
    let earlier = at no_names (pos 60_000) ∷ [] in
    due_after default_config
      (last_sync default_config earlier)
      (last_attempt default_config earlier)
      (pos 120_000)
    ≡ true
unfolding maybe_sync_ntp ntp_targets run sync_unless_disabled sync_due after_attempt try_targets
    all_dns_not_found is_dns_not_found_error ◌-ℤ◌ ◌+ℤ◌
attempt_is_due_example =
    attempt_is_due default_config (at online (pos 120_000)) (at no_names (pos 60_000) ∷ [])
      (ground arith) refl

-- The clock was set at 1 s, and a day later no name resolves.
abbrev set_once : NtpState
set_once = record initial_state {
  phase = synced;
  server = default_server;
  datetime_text = "2026-01-01T00:00:00";
  last_attempt_at = pos 1_000;
  last_sync_at = pos 1_000;
}

failed_resync_repeats_at_once_example :
    let s = (maybe_sync_ntp default_config no_names set_once (pos 86_401_000)).state in
    is_skipped (maybe_sync_ntp default_config no_names s (pos 86_401_000)).phase ≡ false
unfolding maybe_sync_ntp ntp_targets failure_phase sync_unless_disabled sync_due after_attempt
    try_targets all_dns_not_found is_dns_not_found_error ◌-ℤ◌ ◌+ℤ◌
failed_resync_repeats_at_once_example =
    failed_resync_repeats_at_once default_config no_names no_names set_once (pos 86_401_000)
      (ground arith) refl refl
