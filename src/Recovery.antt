-- ===== src/Recovery.antt =====
-- cpynodus_ii/core/recovery.py: the recovery decisions for Wi-Fi, MQTT and the idle access point.
mod Phases
pub mod Reboot
pub mod Pacing
mod Tests
use c_py_nodus_ii.Prelude.{Bool, true, false, String, not, if◌then◌else◌}
use c_py_nodus_ii.Prelude.Int.{ℤ, pos, negsuc, ◌-ℤ◌, ltb_ℤ, leb_ℤ, max_ℤ}

-- `RecoveryPolicy`; a time is a number of ticks, one thousandth of a second each.
pub record RecoveryPolicy : Type 0 where
  pub wifi_timeout_s : ℤ
  pub wifi_retry_interval_s : ℤ
  pub wifi_backoff_after_s : ℤ
  pub wifi_backoff_retry_interval_s : ℤ
  pub mqtt_timeout_s : ℤ
  pub mqtt_rebuild_interval_s : ℤ
  pub ap_timeout_s : ℤ

abbrev pub default_policy : RecoveryPolicy
default_policy = record {
  wifi_timeout_s = pos 900_000;
  wifi_retry_interval_s = pos 5_000;
  wifi_backoff_after_s = pos 60_000;
  wifi_backoff_retry_interval_s = pos 30_000;
  mqtt_timeout_s = pos 180_000;
  mqtt_rebuild_interval_s = pos 30_000;
  ap_timeout_s = pos 600_000;
}

-- The phases that `phase` takes.
pub data Phase : Type 0 where
  idle ap wifi mqtt : Phase

pub record RecoveryState : Type 0 where
  pub phase : Phase
  pub phase_started_at : ℤ
  pub last_wifi_attempt_at : ℤ
  pub last_mqtt_rebuild_at : ℤ

-- -1.0, for "never"
abbrev pub never : ℤ
never = negsuc 999

-- `RecoveryState()`
abbrev pub idle_state : RecoveryState
idle_state = record {
  phase = idle;
  phase_started_at = never;
  last_wifi_attempt_at = never;
  last_mqtt_rebuild_at = never;
}

pub record RecoveryDecision : Type 0 where
  pub state : RecoveryState
  pub allow_mqtt_connect : Bool
  pub attempt_wifi_reconnect : Bool
  pub attempt_mqtt_rebuild : Bool
  pub request_soft_reboot : Bool
  pub reboot_reason : String

abbrev pub same_phase : Phase → Phase → Bool
same_phase idle idle = true
same_phase ap ap = true
same_phase wifi wifi = true
same_phase mqtt mqtt = true
same_phase _ _ = false

-- `_ensure_phase`
unfoldable pub ensure_phase : RecoveryState → Phase → ℤ → RecoveryState
ensure_phase s phase now =
    if same_phase s.phase phase
    then s
    else record idle_state { phase = phase; phase_started_at = now }

-- `_phase_elapsed`
unfoldable pub phase_elapsed : RecoveryState → ℤ → ℤ
phase_elapsed s now =
    if ltb_ℤ s.phase_started_at (pos 0) then pos 0 else max_ℤ (pos 0) (now -ℤ s.phase_started_at)

-- `_interval_elapsed`
unfoldable pub interval_elapsed : ℤ → ℤ → ℤ → Bool
interval_elapsed last_at now interval =
    if leb_ℤ interval (pos 0)
    then true
    else if ltb_ℤ last_at (pos 0)
    then true
    else leb_ℤ interval (now -ℤ last_at)

-- `RecoveryDecision(state=..., allow_mqtt_connect=...)`, the rest by default.
abbrev pub plain_decision : RecoveryState → Bool → RecoveryDecision
plain_decision s allow = record {
  state = s;
  allow_mqtt_connect = allow;
  attempt_wifi_reconnect = false;
  attempt_mqtt_rebuild = false;
  request_soft_reboot = false;
  reboot_reason = "";
}

-- The branch `if ap_mode`.
unfoldable pub advance_ap : RecoveryPolicy → RecoveryState → ℤ → RecoveryDecision
advance_ap policy s now =
    let ap_state = ensure_phase s ap now in
    if leb_ℤ policy.ap_timeout_s (phase_elapsed ap_state now)
    then record (plain_decision ap_state false) {
      request_soft_reboot = true;
      reboot_reason = "ap_idle_timeout";
    }
    else plain_decision ap_state false

-- The interval between two attempts, longer once the outage has lasted `wifi_backoff_after_s`.
unfoldable pub wifi_interval : RecoveryPolicy → ℤ → ℤ
wifi_interval policy elapsed =
    if leb_ℤ policy.wifi_backoff_after_s elapsed
    then max_ℤ policy.wifi_retry_interval_s policy.wifi_backoff_retry_interval_s
    else policy.wifi_retry_interval_s

-- The branch `if not wifi_link_ready`.
unfoldable pub advance_wifi : RecoveryPolicy → RecoveryState → ℤ → RecoveryDecision
advance_wifi policy s now =
    let wifi_state = ensure_phase s wifi now in
    let elapsed = phase_elapsed wifi_state now in
    let attempt =
      interval_elapsed wifi_state.last_wifi_attempt_at now (wifi_interval policy elapsed) in
    if leb_ℤ policy.wifi_timeout_s elapsed
    then record (plain_decision wifi_state false) {
      request_soft_reboot = true;
      reboot_reason = "wifi_recovery_timeout";
    }
    else record (plain_decision wifi_state false) {
      state = if attempt then record wifi_state { last_wifi_attempt_at = now } else wifi_state;
      attempt_wifi_reconnect = attempt;
    }

-- The last part: Wi-Fi is up, MQTT is wanted and not connected.
unfoldable pub advance_mqtt : RecoveryPolicy → RecoveryState → ℤ → RecoveryDecision
advance_mqtt policy s now =
    let mqtt_state = ensure_phase s mqtt now in
    let attempt =
      interval_elapsed mqtt_state.last_mqtt_rebuild_at now policy.mqtt_rebuild_interval_s in
    record (plain_decision mqtt_state true) {
      state = if attempt then record mqtt_state { last_mqtt_rebuild_at = now } else mqtt_state;
      attempt_mqtt_rebuild = attempt;
    }

-- What one call observes: the time and the four flags.
pub record Observation : Type 0 where
  pub now : ℤ
  pub ap_mode : Bool
  pub mqtt_enabled : Bool
  pub wifi_link_ready : Bool
  pub transport_connected : Bool

unfoldable pub advance_recovery_state :
    RecoveryPolicy → RecoveryState → Observation → RecoveryDecision
advance_recovery_state policy s o =
    if o.ap_mode
    then advance_ap policy s o.now
    else if not o.wifi_link_ready
    then advance_wifi policy s o.now
    else if o.transport_connected
    then plain_decision idle_state true
    else if not o.mqtt_enabled
    then plain_decision idle_state false
    else advance_mqtt policy s o.now
