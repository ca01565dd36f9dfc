-- ===== src/Recovery/Phases.antt =====
-- The loop that feeds each decision's state into the next call, over a history of observations
-- with the newest first, and an independent reading of that history.
use c_py_nodus_ii.Prelude.{◌≡◌, ◌≢◌, refl, sym, ◌∙◌, List, [], ◌∷◌, arith, not, if◌then◌else◌, All}
use c_py_nodus_ii.Prelude.Int.{ℤ, pos, ◌≤ℤ◌}
use c_py_nodus_ii.Recovery.{
  RecoveryPolicy, RecoveryState, Phase, idle, ap, wifi, mqtt, never, idle_state, same_phase,
  Observation, ensure_phase, advance_ap, advance_wifi, advance_mqtt, advance_recovery_state,
}

unfoldable pub run : RecoveryPolicy → List Observation → RecoveryState
run policy [] = idle_state
run policy (o ∷ earlier) = (advance_recovery_state policy (run policy earlier) o).state

-- What an observation shows by itself.
abbrev pub kind : Observation → Phase
kind o =
    if o.ap_mode
    then ap
    else if not o.wifi_link_ready
    then wifi
    else if o.transport_connected
    then idle
    else if not o.mqtt_enabled
    then idle
    else mqtt

abbrev pub last_kind : List Observation → Phase
last_kind [] = idle
last_kind (o ∷ _) = kind o

abbrev start_of : Phase → ℤ → ℤ
start_of idle t = never
start_of _ t = t

-- The time of the first observation of the newest unbroken stretch of one kind.
abbrev pub since : List Observation → ℤ
since [] = never
since (o ∷ earlier) =
    if same_phase (last_kind earlier) (kind o) then since earlier else start_of (kind o) o.now

step-phase :
    (policy : RecoveryPolicy) (s : RecoveryState) (o : Observation)
    → (advance_recovery_state policy s o).state.phase ≡ kind o
unfolding advance_recovery_state advance_ap advance_wifi advance_mqtt ensure_phase
step-phase policy s o = ground arith

pub run-phase :
    (policy : RecoveryPolicy) (h : List Observation) → (run policy h).phase ≡ last_kind h
unfolding run
run-phase policy [] = refl
run-phase policy (o ∷ earlier) = step-phase policy (run policy earlier) o

step-started :
    (policy : RecoveryPolicy) (s : RecoveryState) (o : Observation)
    → (s.phase ≡ idle → s.phase_started_at ≡ never)
    → (advance_recovery_state policy s o).state.phase_started_at
      ≡ (if same_phase s.phase (kind o) then s.phase_started_at else start_of (kind o) o.now)
unfolding advance_recovery_state advance_ap advance_wifi advance_mqtt ensure_phase
step-started policy s o h = ground arith

since-idle : (h : List Observation) → last_kind h ≡ idle → since h ≡ never
since-idle [] e = refl
since-idle (o ∷ earlier) e = ground (arith, since-idle earlier)

-- The phase clock that the state carries is the start of the newest unbroken stretch.
pub run-started :
    (policy : RecoveryPolicy) (h : List Observation) → (run policy h).phase_started_at ≡ since h
unfolding run
run-started policy [] = refl
run-started policy (o ∷ earlier) =
    let clock = run-started policy earlier in
    let phase = run-phase policy earlier in
    ground (
      arith,
      step-started policy (run policy earlier) o (λ e. clock ∙ since-idle earlier (sym phase ∙ e)),
      clock,
      phase,
    )

-- The monotonic clock is never negative.
abbrev pub Clocked : List Observation → Type 0
Clocked h = All (λ o. pos 0 ≤ℤ o.now) h

pub since_nonneg : (h : List Observation) → Clocked h → last_kind h ≢ idle → pos 0 ≤ℤ since h
since_nonneg [] c busy = absurd (busy refl)
since_nonneg (o ∷ earlier) c busy = ground (arith, since_nonneg earlier c.1)
