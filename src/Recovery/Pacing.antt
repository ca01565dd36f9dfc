-- ===== src/Recovery/Pacing.antt =====
-- The pace of reconnect attempts within one outage.
use c_py_nodus_ii.Prelude.{◌≡◌, List, [], ◌∷◌, ◌++◌, true, arith, All}
use c_py_nodus_ii.Prelude.Int.{ℤ, pos, ◌-ℤ◌, ◌≤ℤ◌, ◌<ℤ◌, -ℤ_parts}
use c_py_nodus_ii.Recovery.{
  RecoveryPolicy, RecoveryState, Phase, wifi, mqtt, Observation, ensure_phase, phase_elapsed,
  interval_elapsed, wifi_interval, advance_ap, advance_wifi, advance_mqtt, advance_recovery_state,
}
use c_py_nodus_ii.Recovery.Phases.{run, kind}

-- In the outage, after an attempt at `t` or later.
abbrev WifiTried : ℤ → RecoveryState → Type 0
WifiTried t s = (s.phase ≡ wifi) × (t ≤ℤ s.last_wifi_attempt_at)

abbrev MqttTried : ℤ → RecoveryState → Type 0
MqttTried t s = (s.phase ≡ mqtt) × (t ≤ℤ s.last_mqtt_rebuild_at)

-- An observation that shows the outage `phase`, no earlier than `t`.
abbrev GoesOn : ℤ → Phase → Observation → Type 0
GoesOn t phase o = (kind o ≡ phase) × (t ≤ℤ o.now)

module _ (policy : RecoveryPolicy) (t : ℤ) where
  step-WifiTried :
      (s : RecoveryState) (o : Observation)
      → GoesOn t wifi o
      → WifiTried t s
      → WifiTried t (advance_recovery_state policy s o).state
  unfolding advance_recovery_state advance_wifi ensure_phase
  step-WifiTried s o g h = ground arith

  step-MqttTried :
      (s : RecoveryState) (o : Observation)
      → GoesOn t mqtt o
      → MqttTried t s
      → MqttTried t (advance_recovery_state policy s o).state
  unfolding advance_recovery_state advance_mqtt ensure_phase
  step-MqttTried s o g h = ground arith

  run-WifiTried :
      (between earlier : List Observation)
      → All (GoesOn t wifi) between
      → WifiTried t (run policy earlier)
      → WifiTried t (run policy (between ++ earlier))
  unfolding run
  run-WifiTried [] earlier g h = h
  run-WifiTried (o ∷ between) earlier g h =
      step-WifiTried (run policy (between ++ earlier)) o g.0 (run-WifiTried between earlier g.1 h)

  run-MqttTried :
      (between earlier : List Observation)
      → All (GoesOn t mqtt) between
      → MqttTried t (run policy earlier)
      → MqttTried t (run policy (between ++ earlier))
  unfolding run
  run-MqttTried [] earlier g h = h
  run-MqttTried (o ∷ between) earlier g h =
      step-MqttTried (run policy (between ++ earlier)) o g.0 (run-MqttTried between earlier g.1 h)

interval_waited :
    (t last now interval : ℤ)
    → interval_elapsed last now interval ≡ true
    → pos 0 <ℤ interval
    → pos 0 ≤ℤ t
    → t ≤ℤ last
    → interval ≤ℤ now -ℤ t
unfolding interval_elapsed
interval_waited t last now interval h p q r = ground (arith, -ℤ_parts now last, -ℤ_parts now t)

wifi-attempted :
    (policy : RecoveryPolicy) (s : RecoveryState) (o : Observation)
    → (advance_recovery_state policy s o).attempt_wifi_reconnect ≡ true
    → s.phase ≡ wifi
    → interval_elapsed s.last_wifi_attempt_at o.now (wifi_interval policy (phase_elapsed s o.now))
      ≡ true
unfolding advance_recovery_state advance_ap advance_wifi advance_mqtt ensure_phase
wifi-attempted policy s o h e = ground arith

mqtt-attempted :
    (policy : RecoveryPolicy) (s : RecoveryState) (o : Observation)
    → (advance_recovery_state policy s o).attempt_mqtt_rebuild ≡ true
    → s.phase ≡ mqtt
    → interval_elapsed s.last_mqtt_rebuild_at o.now policy.mqtt_rebuild_interval_s ≡ true
unfolding advance_recovery_state advance_ap advance_wifi advance_mqtt ensure_phase
mqtt-attempted policy s o h e = ground arith

wifi-marked :
    (policy : RecoveryPolicy) (s : RecoveryState) (o : Observation)
    → (advance_recovery_state policy s o).attempt_wifi_reconnect ≡ true
    → WifiTried o.now (advance_recovery_state policy s o).state
unfolding advance_recovery_state advance_ap advance_wifi advance_mqtt ensure_phase
wifi-marked policy s o h = ground arith

mqtt-marked :
    (policy : RecoveryPolicy) (s : RecoveryState) (o : Observation)
    → (advance_recovery_state policy s o).attempt_mqtt_rebuild ≡ true
    → MqttTried o.now (advance_recovery_state policy s o).state
unfolding advance_recovery_state advance_ap advance_wifi advance_mqtt ensure_phase
mqtt-marked policy s o h = ground arith

wifi_interval-ge :
    (policy : RecoveryPolicy) (elapsed : ℤ)
    → policy.wifi_retry_interval_s ≤ℤ wifi_interval policy elapsed
unfolding wifi_interval
wifi_interval-ge policy elapsed = ground arith

-- Two Wi-Fi reconnect attempts, the first at `o₁` and the second at `o₂`, with nothing but the same
-- outage observed from one to the other and no observation earlier than the first, are apart by at
-- least the retry interval, and by the longer interval in force at the second where the outage has
-- lasted past the backoff limit. The first time is not negative and the retry interval is positive.
pub wifi_attempts_paced :
    (policy : RecoveryPolicy) (o₁ o₂ : Observation) (between earlier : List Observation)
    → (advance_recovery_state policy (run policy earlier) o₁).attempt_wifi_reconnect ≡ true
    → (advance_recovery_state policy
        (run policy (between ++ o₁ ∷ earlier))
        o₂).attempt_wifi_reconnect
      ≡ true
    → All (GoesOn o₁.now wifi) between
    → pos 0 ≤ℤ o₁.now
    → pos 0 <ℤ policy.wifi_retry_interval_s
    → (policy.wifi_retry_interval_s ≤ℤ o₂.now -ℤ o₁.now)
      × (wifi_interval policy (phase_elapsed (run policy (between ++ o₁ ∷ earlier)) o₂.now)
          ≤ℤ o₂.now -ℤ o₁.now)
unfolding run
wifi_attempts_paced policy o₁ o₂ between earlier a₁ a₂ g n p =
    let s₂ = run policy (between ++ o₁ ∷ earlier) in
    let tried =
      run-WifiTried policy o₁.now between (o₁ ∷ earlier) g
        (wifi-marked policy (run policy earlier) o₁ a₁) in
    let ge = wifi_interval-ge policy (phase_elapsed s₂ o₂.now) in
    let gap =
      interval_waited o₁.now s₂.last_wifi_attempt_at o₂.now
        (wifi_interval policy (phase_elapsed s₂ o₂.now)) (wifi-attempted policy s₂ o₂ a₂ tried.0)
        (omega arith) n tried.1 in
    (omega arith, gap)

-- Two MQTT client rebuilds with only the same MQTT outage observed from one to the other, none
-- earlier than the first, are apart by at least the rebuild interval. The first time is not
-- negative and the interval is positive.
pub mqtt_rebuilds_paced :
    (policy : RecoveryPolicy) (o₁ o₂ : Observation) (between earlier : List Observation)
    → (advance_recovery_state policy (run policy earlier) o₁).attempt_mqtt_rebuild ≡ true
    → (advance_recovery_state policy (run policy (between ++ o₁ ∷ earlier)) o₂).attempt_mqtt_rebuild
      ≡ true
    → All (GoesOn o₁.now mqtt) between
    → pos 0 ≤ℤ o₁.now
    → pos 0 <ℤ policy.mqtt_rebuild_interval_s
    → policy.mqtt_rebuild_interval_s ≤ℤ o₂.now -ℤ o₁.now
unfolding run
mqtt_rebuilds_paced policy o₁ o₂ between earlier a₁ a₂ g n p =
    let s₂ = run policy (between ++ o₁ ∷ earlier) in
    let tried =
      run-MqttTried policy o₁.now between (o₁ ∷ earlier) g
        (mqtt-marked policy (run policy earlier) o₁ a₁) in
    interval_waited o₁.now s₂.last_mqtt_rebuild_at o₂.now policy.mqtt_rebuild_interval_s
      (mqtt-attempted policy s₂ o₂ a₂ tried.0) p n tried.1
