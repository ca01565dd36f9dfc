-- ===== src/Ntp.antt =====
-- cpynodus_ii/core/ntp.py: when the clock is synchronised, and when the node gives up. The socket
-- pool, `adafruit_ntp` and the RTC are the firmware's: what they answer is `Network`.
pub mod Calls
pub mod Budget
pub mod Due
mod Tests
use Prim.Native.String
use text.Mathlib.Text.{starts_with, find?}
use c_py_nodus_ii.Prelude.{
  ℕ, ◌+◌, String, Bool, true, false, not, ◌&&◌, ◌||◌, Option, none, some, List, [], ◌∷◌, ◌++◌,
  str_eq, ltb, leb, if◌then◌else◌,
}
use c_py_nodus_ii.Prelude.Int.{ℤ, pos, negsuc, ◌+ℤ◌, ◌-ℤ◌, ltb_ℤ, leb_ℤ}

-- The words that `phase` takes, of a state and of a result.
pub data Phase : Type 0 where
  idle skipped synced deferred error cooldown disabled : Phase

-- A time is a number of ticks, one thousandth of a second each.
pub record NtpState : Type 0 where
  pub phase : Phase
  pub server : String
  pub datetime_text : String
  pub last_attempt_at : ℤ
  pub last_sync_at : ℤ
  pub failure_count : ℕ
  pub failure_window : ℕ
  pub cooldown_until : ℤ
  pub errors : List String

-- -1.0
abbrev pub never : ℤ
never = negsuc 999

-- `NTPState()`
abbrev pub initial_state : NtpState
initial_state = record {
  phase = idle;
  server = "";
  datetime_text = "";
  last_attempt_at = never;
  last_sync_at = never;
  failure_count = 0;
  failure_window = 1;
  cooldown_until = never;
  errors = [];
}

pub record NtpResult : Type 0 where
  pub phase : Phase
  pub state : NtpState
  pub errors : List String

-- What `maybe_sync_ntp` is given beside the state and the time: the two servers without the spaces
-- around them, and the intervals.
pub record NtpConfig : Type 0 where
  pub ntp_enabled : Bool
  pub ntp_server : String
  pub ntp_server_ip : String
  pub retry_interval_s : ℤ
  pub sync_interval_s : ℤ
  pub max_dns_failures : ℕ
  pub cooldown_interval_s : ℤ

abbrev pub default_server : String
default_server = "us.pool.ntp.org"

-- The arguments that are not given.
abbrev pub default_config : NtpConfig
default_config = record {
  ntp_enabled = true;
  ntp_server = default_server;
  ntp_server_ip = "";
  retry_interval_s = pos 60_000;
  sync_interval_s = pos 86_400_000;
  max_dns_failures = 3;
  cooldown_interval_s = pos 3_600_000;
}

-- The outcome of the `try` block: the formatted time that the clock was set to, or the exception.
pub data Reply : Type 0 where
  answered : String → Reply
  raised : String → Reply

-- Whether the network stack is ready, the exception with which a name is not resolved, and the
-- reply of a server.
pub record Network : Type 0 where
  pub ready : Bool
  pub unresolved : String → Option String
  pub reply : String → Reply

abbrev pub primary_of : NtpConfig → String
primary_of c = if str_eq c.ntp_server "" then default_server else c.ntp_server

-- `_ntp_targets`
unfoldable pub ntp_targets : NtpConfig → List String
ntp_targets c =
    if not (str_eq c.ntp_server_ip "") && not (str_eq c.ntp_server_ip (primary_of c))
    then primary_of c ∷ c.ntp_server_ip ∷ []
    else primary_of c ∷ []

-- `server in targets`
abbrev pub is_in : String → List String → Bool
is_in s [] = false
is_in s (t ∷ ts) = str_eq s t || is_in s ts

abbrev is_some {ℓ} : {A : Type ℓ} → Option A → Bool
is_some none = false
is_some (some a) = true

-- `_is_dns_not_found_error`; an error begins with `ntp_`, so there is nothing to strip.
unfoldable pub is_dns_not_found_error : String → Bool
is_dns_not_found_error text =
    is_some (find? text ":-2") || is_some (find? text "Errno -2") || str_eq text "-2"

-- The loop of `_all_dns_not_found`.
unfoldable pub all_not_found : List String → Bool
all_not_found [] = true
all_not_found (e ∷ es) = is_dns_not_found_error e && all_not_found es

unfoldable pub all_dns_not_found : List String → Bool
unfolding all_not_found
all_dns_not_found [] = false
all_dns_not_found (e ∷ es) = all_not_found (e ∷ es)

-- `_failure_phase`
unfoldable pub failure_phase : List String → Phase
failure_phase [] = deferred
failure_phase (e ∷ es) =
    let rest = failure_phase es in if starts_with e "ntp_dns_unready:" then rest else error

-- `_sync_due`
unfoldable pub sync_due : NtpConfig → NtpState → ℤ → Bool
sync_due c s now =
    if leb_ℤ (pos 0) s.last_sync_at
    then leb_ℤ c.sync_interval_s (now -ℤ s.last_sync_at)
    else if leb_ℤ (pos 0) s.last_attempt_at
    then leb_ℤ c.retry_interval_s (now -ℤ s.last_attempt_at)
    else true

-- What the loop over the targets ends with.
pub data Attempt : Type 0 where
  answered_by : String → String → Attempt
  failed : List String → Attempt

abbrev pub target_error : String → Option String → Reply → List String
target_error target (some exc) r = String.◌++◌ "ntp_dns_unready:" exc ∷ []
target_error target none (raised exc) =
    String.◌++◌ "ntp_sync_failed:" (String.◌++◌ target (String.◌++◌ ":" exc)) ∷ []
target_error target none (answered text) = []

abbrev pub one_target : String → Option String → Reply → Attempt → Attempt
one_target target none (answered text) rest = answered_by target text
one_target target none (raised exc) rest = rest
one_target target (some exc) r rest = rest

unfoldable pub try_targets : Network → List String → List String → Attempt
try_targets n [] errors = failed errors
try_targets n (t ∷ ts) errors =
    let rest = try_targets n ts (errors ++ target_error t (n.unresolved t) (n.reply t)) in
    one_target t (n.unresolved t) (n.reply t) rest

abbrev pub skip : NtpState → String → NtpResult
skip s code = record { phase = skipped; state = s; errors = code ∷ [] }

-- The state after a failed attempt, which keeps the time of the last synchronisation.
abbrev pub failed_state : NtpState → Phase → String → ℤ → ℕ → ℕ → ℤ → List String → NtpResult
failed_state s phase server now count window until errors = record {
  phase = phase;
  state = record {
    phase = phase;
    server = server;
    datetime_text = s.datetime_text;
    last_attempt_at = now;
    last_sync_at = s.last_sync_at;
    failure_count = count;
    failure_window = window;
    cooldown_until = until;
    errors = errors;
  };
  errors = errors;
}

-- From the end of the loop over the targets: `count` and `window` are the failures so far.
unfoldable pub after_attempt : NtpConfig → NtpState → ℤ → ℕ → ℕ → Attempt → NtpResult
after_attempt c s now count window (answered_by target text) = record {
  phase = synced;
  state = record {
    phase = synced;
    server = target;
    datetime_text = text;
    last_attempt_at = now;
    last_sync_at = now;
    failure_count = 0;
    failure_window = 1;
    cooldown_until = never;
    errors = [];
  };
  errors = [];
}
after_attempt c s now count window (failed errors) =
    if ltb 0 c.max_dns_failures && leb c.max_dns_failures (count + 1)
    then (if leb window 1
        then failed_state s cooldown (primary_of c) now 0 2 (now +ℤ c.cooldown_interval_s) errors
        else failed_state s disabled (primary_of c) now (count + 1) window never errors)
    else failed_state s (if all_dns_not_found errors then deferred else failure_phase errors)
        (primary_of c) now (count + 1) window never errors

abbrev pub is_cooldown : Phase → Bool
is_cooldown cooldown = true
is_cooldown _ = false

abbrev pub is_disabled : Phase → Bool
is_disabled disabled = true
is_disabled _ = false

-- A state whose cooldown is over begins its second window.
abbrev pub leave_cooldown : NtpState → NtpState
leave_cooldown s = record s {
  phase = idle;
  failure_count = 0;
  failure_window = 2;
  cooldown_until = never;
}

-- From the test of a disabled state; `same` is `same_server`.
unfoldable pub sync_unless_disabled : NtpConfig → Network → Bool → NtpState → ℤ → NtpResult
sync_unless_disabled c n same s now =
    if same && is_disabled s.phase
    then skip s "ntp_disabled_after_dns_failures"
    else if not (sync_due c s now)
    then skip s "ntp_not_due"
    else after_attempt c s now (if same then s.failure_count else 0)
        (if same then s.failure_window else 1) (try_targets n (ntp_targets c) [])

unfoldable pub maybe_sync_ntp : NtpConfig → Network → NtpState → ℤ → NtpResult
maybe_sync_ntp c n s now =
    let same = is_in s.server (ntp_targets c) in
    if not c.ntp_enabled
    then skip s "ntp_disabled"
    else if not n.ready
    then skip s "network_not_ready"
    else if same && is_cooldown s.phase && ltb_ℤ now s.cooldown_until
    then skip s "ntp_cooldown_active"
    else sync_unless_disabled c n same (if same && is_cooldown s.phase then leave_cooldown s else s)
        now
