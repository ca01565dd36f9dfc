-- ===== src/Recovery/Reboot.antt =====
-- When a soft reboot is requested: exactly when one unbroken outage has lasted as long as its limit.
use c_py_nodus_ii.Prelude.{
  ◌≡◌, ◌≢◌, refl, List, ◌∷◌, Bool, false, String, inl, inr, arith, if◌then◌else◌, Bool-cases,
}
use c_py_nodus_ii.Prelude.Int.{ℤ, pos, ◌-ℤ◌, ◌≤ℤ◌, ◌<ℤ◌, leb_ℤ, -ℤ_parts}
use c_py_nodus_ii.Recovery.{
  RecoveryPolicy, Phase, idle, ap, wifi, RecoveryState, RecoveryDecision, Observation, ensure_phase,
  phase_elapsed, advance_ap, advance_wifi, advance_mqtt, advance_recovery_state,
}
use c_py_nodus_ii.Recovery.Phases.{run, kind, since, Clocked, run-phase, run-started, since_nonneg}

-- The limit of an outage of one kind has passed since it began.
abbrev pub reboot_due : RecoveryPolicy → Phase → ℤ → ℤ → Bool
reboot_due policy ap started now = leb_ℤ policy.ap_timeout_s (now -ℤ started)
reboot_due policy wifi started now = leb_ℤ policy.wifi_timeout_s (now -ℤ started)
reboot_due policy _ started now = false

abbrev pub reboot_reason_of : Phase → String
reboot_reason_of ap = "ap_idle_timeout"
reboot_reason_of wifi = "wifi_recovery_timeout"
reboot_reason_of _ = ""

elapsed_limit :
    (s : RecoveryState) (limit now : ℤ)
    → pos 0 <ℤ limit
    → pos 0 ≤ℤ s.phase_started_at
    → leb_ℤ limit (phase_elapsed s now) ≡ leb_ℤ limit (now -ℤ s.phase_started_at)
unfolding phase_elapsed
elapsed_limit s limit now p q = ground (arith, -ℤ_parts now s.phase_started_at)

abbrev Requests : RecoveryDecision → Bool → Phase → Type 0
Requests d due phase =
    (d.request_soft_reboot ≡ due) × (d.reboot_reason ≡ (if due then reboot_reason_of phase else ""))

advance_ap-Requests :
    (policy : RecoveryPolicy) (s : RecoveryState) (now : ℤ)
    → Requests
        (advance_ap policy s now)
        (leb_ℤ policy.ap_timeout_s (phase_elapsed (ensure_phase s ap now) now))
        ap
unfolding advance_ap
advance_ap-Requests policy s now =
    elim (Bool-cases (leb_ℤ policy.ap_timeout_s (phase_elapsed (ensure_phase s ap now) now))) [
      | inl e ↦ rw e (refl, refl)
      | inr e ↦ rw e (refl, refl)
    ]

advance_wifi-Requests :
    (policy : RecoveryPolicy) (s : RecoveryState) (now : ℤ)
    → Requests
        (advance_wifi policy s now)
        (leb_ℤ policy.wifi_timeout_s (phase_elapsed (ensure_phase s wifi now) now))
        wifi
unfolding advance_wifi
advance_wifi-Requests policy s now =
    elim (Bool-cases (leb_ℤ policy.wifi_timeout_s (phase_elapsed (ensure_phase s wifi now) now))) [
      | inl e ↦ rw e (refl, refl)
      | inr e ↦ rw e (refl, refl)
    ]

-- The clock of the phase that the branch for `phase` works with.
ensure-started :
    (policy : RecoveryPolicy) (o : Observation) (earlier : List Observation) (phase : Phase)
    → phase ≢ idle
    → kind o ≡ phase
    → (ensure_phase (run policy earlier) phase o.now).phase_started_at ≡ since (o ∷ earlier)
unfolding ensure_phase
ensure-started policy o earlier phase busy e =
    ground (arith, run-phase policy earlier, run-started policy earlier)

-- After any history, the next decision requests a reboot exactly when the observation shows an
-- idle access point or a lost Wi-Fi link that has gone on, with no other observation between, for
-- at least the limit of its kind; the reason names that kind, and is empty with no request. The
-- clock is not negative and the two limits are positive.
pub reboot_exactly_when_due :
    (policy : RecoveryPolicy) (o : Observation) (earlier : List Observation)
    → Clocked (o ∷ earlier)
    → pos 0 <ℤ policy.ap_timeout_s
    → pos 0 <ℤ policy.wifi_timeout_s
    → let d = advance_recovery_state policy (run policy earlier) o in
      let due = reboot_due policy (kind o) (since (o ∷ earlier)) o.now in
      (d.request_soft_reboot ≡ due)
      × (d.reboot_reason ≡ (if due then reboot_reason_of (kind o) else ""))
unfolding advance_recovery_state advance_mqtt
reboot_exactly_when_due policy o earlier c p q = ground (
  arith,
  advance_ap-Requests policy (run policy earlier) o.now,
  advance_wifi-Requests policy (run policy earlier) o.now,
  ensure-started policy o earlier ap,
  ensure-started policy o earlier wifi,
  since_nonneg (o ∷ earlier) c,
  elapsed_limit (ensure_phase (run policy earlier) ap o.now) policy.ap_timeout_s o.now p,
  elapsed_limit (ensure_phase (run policy earlier) wifi o.now) policy.wifi_timeout_s o.now q,
)
