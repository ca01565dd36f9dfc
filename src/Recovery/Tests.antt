-- ===== src/Recovery/Tests.antt =====
-- Runs of core/recovery.py at concrete observations.
use c_py_nodus_ii.Prelude.{◌≡◌, refl, List, [], ◌∷◌, true, false, if◌then◌else◌, arith}
use c_py_nodus_ii.Prelude.Int.{ℤ, pos, ◌-ℤ◌, ◌≤ℤ◌}
use c_py_nodus_ii.Recovery.{
  default_policy, Observation, ensure_phase, phase_elapsed, interval_elapsed, wifi_interval,
  advance_wifi, advance_recovery_state,
}
use c_py_nodus_ii.Recovery.Phases.{run, kind, since}
use c_py_nodus_ii.Recovery.Reboot.{reboot_due, reboot_reason_of, reboot_exactly_when_due}
use c_py_nodus_ii.Recovery.Pacing.{wifi_attempts_paced}

abbrev wifi_down : ℤ → Observation
wifi_down t = record {
  now = t;
  ap_mode = false;
  mqtt_enabled = true;
  wifi_link_ready = false;
  transport_connected = false;
}

abbrev mqtt_down : ℤ → Observation
mqtt_down t = record (wifi_down t) { wifi_link_ready = true }

abbrev outage : List Observation
outage = wifi_down (pos 70_000) ∷ wifi_down (pos 1_000) ∷ mqtt_down (pos 500) ∷ []

-- The outage began at 1 s, so 901 s is its limit.
reboot_exactly_when_due_example :
    let o = wifi_down (pos 901_000) in
    let d = advance_recovery_state default_policy (run default_policy outage) o in
    let due = reboot_due default_policy (kind o) (since (o ∷ outage)) o.now in
    (d.request_soft_reboot ≡ due)
    × (d.reboot_reason ≡ (if due then reboot_reason_of (kind o) else ""))
reboot_exactly_when_due_example =
    reboot_exactly_when_due default_policy (wifi_down (pos 901_000)) outage (omega arith)
      (omega arith) (omega arith)

due_at_limit :
    reboot_due default_policy
      (kind (wifi_down (pos 901_000)))
      (since (wifi_down (pos 901_000) ∷ outage))
      (pos 901_000)
    ≡ true
unfolding ◌-ℤ◌
due_at_limit = refl

wifi_attempts_paced_example :
    let s₂ = run default_policy (wifi_down (pos 2_000) ∷ wifi_down (pos 1_000) ∷ []) in
    (pos 5_000 ≤ℤ pos 6_000 -ℤ pos 1_000)
    × (wifi_interval default_policy (phase_elapsed s₂ (pos 6_000)) ≤ℤ pos 6_000 -ℤ pos 1_000)
unfolding run advance_recovery_state advance_wifi ensure_phase phase_elapsed interval_elapsed
    wifi_interval ◌-ℤ◌
wifi_attempts_paced_example =
    wifi_attempts_paced default_policy (wifi_down (pos 1_000)) (wifi_down (pos 6_000))
      (wifi_down (pos 2_000) ∷ []) [] refl refl ((refl, omega arith), tt) (omega arith)
      (omega arith)
