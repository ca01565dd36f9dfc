-- ===== src/SteadyState.antt =====
-- cpynodus_ii/features/steady_state.py: one iteration of the main loop. What the transport and the
-- parts that an iteration calls answer is `Inputs`.
pub mod Iteration
pub mod Handled
pub mod Cadence
mod Tests
use c_py_nodus_ii.Prelude.{
  ℕ, ◌+◌, ◌-◌, ◌==◌, String, Bool, true, false, not, ◌&&◌, ◌||◌, Option, none, some, List, [], ◌∷◌,
  ◌++◌, length, drop, ltb, str_eq, if◌then◌else◌,
}
use c_py_nodus_ii.Prelude.Int.{ℤ, pos, negsuc, ◌-ℤ◌, ltb_ℤ, leb_ℤ, min_ℤ}

-- A time is a number of ticks, one thousandth of a second each.
pub record SteadyState : Type 0 where
  pub connection_generation : ℕ
  pub switch_meta_generation : ℕ
  pub sensor_interval_s : ℤ
  pub availability_interval_s : ℤ
  pub last_sensor_publish_at : ℤ
  pub last_availability_publish_at : ℤ
  pub handled_message_ids : List String
  pub handled_message_id_limit : ℕ

-- `SteadyState()`
abbrev pub initial_state : SteadyState
initial_state = record {
  connection_generation = 0;
  switch_meta_generation = 0;
  sensor_interval_s = pos 60_000;
  availability_interval_s = pos 30_000;
  last_sensor_publish_at = negsuc 999;
  last_availability_publish_at = negsuc 999;
  handled_message_ids = [];
  handled_message_id_limit = 64;
}

-- The result of a publish cycle.
pub record Publish : Type 0 where
  pub phase : String
  pub published_count : ℕ
  pub errors : List String

-- What an iteration reads of a configuration.
pub record RuntimeConfig : Type 0 where
  pub sensor_present : Bool
  pub switch_present : Bool

pub record CommandResult : Type 0 where
  pub phase : String
  pub published_count : ℕ
  pub errors : List String
  pub runtime_config : Option RuntimeConfig
  pub message_id : String
  pub halt_requested : Bool

-- `idle` says that the transport has neither subscriptions nor publications waiting, `snapshot_ready`
-- that there is a sensor service and its snapshot was ready at the start of a connection. Each
-- publish cycle is what it answers if it is called; the inbound messages are processed by what has
-- been handled.
pub record Inputs : Type 0 where
  pub connected : Bool
  pub connection_generation : ℕ
  pub idle : Bool
  pub runtime_config : RuntimeConfig
  pub has_sensor_service : Bool
  pub snapshot_ready : Bool
  pub now_monotonic : ℤ
  pub subscribed_topics : List String
  pub startup : Publish
  pub ota_status : Publish
  pub switch_meta : Publish
  pub process_inbound : List String → List CommandResult
  pub calibration : CommandResult
  pub metadata : Publish
  pub log_transfer : Publish
  pub sensor : Publish
  pub availability : Publish

pub record SteadyStateResult : Type 0 where
  pub state : SteadyState
  pub runtime_config : RuntimeConfig
  pub subscribed_topics : List String
  pub startup : Publish
  pub command_results : List CommandResult
  pub sensor : Publish
  pub availability : Publish
  pub ota_status : Publish
  pub calibration : CommandResult
  pub log_transfer : Publish
  pub command_published_count : ℕ
  pub total_published_count : ℕ
  pub errors : List String

-- `_skipped_publish_result`
abbrev pub skipped : String → Publish
skipped code = record { phase = "skipped"; published_count = 0; errors = code ∷ [] }

abbrev pub is_published : Publish → Bool
is_published p = str_eq p.phase "published"

-- The connection is a new one.
abbrev pub is_startup : Inputs → SteadyState → Bool
is_startup i s = i.connected && not (i.connection_generation == s.connection_generation)

-- The state after `publish_startup_cycle`.
unfoldable pub after_startup : Inputs → SteadyState → SteadyState
after_startup i s = record s {
  connection_generation = i.connection_generation;
  switch_meta_generation =
      if is_published i.startup && i.runtime_config.switch_present
      then i.connection_generation
      else s.switch_meta_generation;
  last_sensor_publish_at = if i.snapshot_ready then i.now_monotonic else s.last_sensor_publish_at;
  last_availability_publish_at =
      if is_published i.startup
        && (i.runtime_config.sensor_present || i.runtime_config.switch_present)
      then i.now_monotonic
      else s.last_availability_publish_at;
}

-- The switch metadata is published in an iteration of its own, while nothing waits.
abbrev pub needs_switch_meta : Inputs → SteadyState → Bool
needs_switch_meta i s =
    i.connected
    && i.runtime_config.switch_present
    && not (s.switch_meta_generation == i.connection_generation)
    && i.idle

unfoldable pub after_switch_meta : Inputs → SteadyState → SteadyState
after_switch_meta i s =
    if needs_switch_meta i s && is_published i.switch_meta
    then record s { switch_meta_generation = i.connection_generation }
    else s

-- `working_state` when the inbound messages are processed.
unfoldable pub connected_state : Inputs → SteadyState → SteadyState
connected_state i s = if is_startup i s then after_startup i s else after_switch_meta i s

unfoldable pub any_halt : List CommandResult → Bool
any_halt [] = false
any_halt (r ∷ rs) = r.halt_requested || any_halt rs

abbrev pub config_or : Option RuntimeConfig → RuntimeConfig → RuntimeConfig
config_or (some c) _ = c
config_or none c = c

unfoldable pub updated_config : List CommandResult → RuntimeConfig → RuntimeConfig
updated_config [] c = c
updated_config (r ∷ rs) c = updated_config rs (config_or r.runtime_config c)

unfoldable pub is_member : String → List String → Bool
is_member m [] = false
is_member m (x ∷ xs) = str_eq x m || is_member m xs

-- One message id in the loop over the results.
abbrev pub remember : String → List String → List String
remember m ids = if not (str_eq m "") && not (is_member m ids) then ids ++ m ∷ [] else ids

unfoldable pub remember_all : List CommandResult → List String → List String
remember_all [] ids = ids
remember_all (r ∷ rs) ids = remember_all rs (remember r.message_id ids)

-- `ids[-limit:]` of a list that is too long; a limit of 0 keeps it whole.
unfoldable pub trim : ℕ → List String → List String
trim limit ids =
    if ltb limit (length ids)
    then (if limit == 0 then ids else drop (length ids - limit) ids)
    else ids

unfoldable pub sum_published : List CommandResult → ℕ
sum_published [] = 0
sum_published (r ∷ rs) = r.published_count + sum_published rs

unfoldable pub all_errors : List CommandResult → List String
all_errors [] = []
all_errors (r ∷ rs) = r.errors ++ all_errors rs

abbrev pub interval_over : ℤ → ℤ → ℤ → Bool
interval_over last interval now = ltb_ℤ last (pos 0) || leb_ℤ interval (now -ℤ last)

abbrev pub should_poll_sensor : Inputs → SteadyState → Bool
should_poll_sensor i s =
    i.has_sensor_service
    && i.runtime_config.sensor_present
    && i.connected
    && interval_over s.last_sensor_publish_at s.sensor_interval_s i.now_monotonic

-- The state after the sensor cycle: a poll that publishes and an iteration without a poll write the
-- handled ids, a poll that does not publish writes nothing.
unfoldable pub after_sensor : Inputs → List String → SteadyState → SteadyState
after_sensor i ids s =
    if should_poll_sensor i s
    then (if is_published i.sensor
        then record s { last_sensor_publish_at = i.now_monotonic; handled_message_ids = ids }
        else s)
    else record s { handled_message_ids = ids }

-- `_effective_availability_interval_s`
abbrev pub effective_availability_interval : RuntimeConfig → SteadyState → ℤ
effective_availability_interval c s =
    if c.switch_present && not c.sensor_present
    then min_ℤ s.availability_interval_s (pos 45_000)
    else s.availability_interval_s

abbrev pub should_refresh : Inputs → RuntimeConfig → SteadyState → Bool
should_refresh i c s =
    i.connected
    && (c.sensor_present || c.switch_present)
    && interval_over s.last_availability_publish_at (effective_availability_interval c s)
        i.now_monotonic

unfoldable pub after_availability : Inputs → RuntimeConfig → SteadyState → SteadyState
after_availability i c s =
    if should_refresh i c s && is_published i.availability
    then record s { last_availability_publish_at = i.now_monotonic }
    else s
