-- ===== src/SteadyState/Iteration.antt =====
-- `run_steady_state_iteration` of features/steady_state.py, from its steps.
use c_py_nodus_ii.Prelude.{none, false, ◌+◌, String, not, ◌&&◌, List, [], ◌++◌, if◌then◌else◌}
use c_py_nodus_ii.SteadyState.{
  SteadyState, Publish, CommandResult, Inputs, SteadyStateResult, skipped, is_startup,
  needs_switch_meta, connected_state, any_halt, config_or, updated_config, remember_all, trim,
  sum_published, all_errors, should_poll_sensor, after_sensor, should_refresh, after_availability,
}

abbrev pub startup_result : Inputs → SteadyState → Publish
startup_result i s = if is_startup i s then i.startup else skipped "startup_not_required"

abbrev pub ota_status_result : Inputs → SteadyState → Publish
ota_status_result i s = if is_startup i s then i.ota_status else skipped "ota_status_not_required"

abbrev pub switch_meta_result : Inputs → SteadyState → Publish
switch_meta_result i s =
    if not (is_startup i s) && needs_switch_meta i s
    then i.switch_meta
    else skipped "switch_meta_not_required"

abbrev pub topics_of : Inputs → SteadyState → List String
topics_of i s = if is_startup i s then i.subscribed_topics else []

-- What the early return reports of a step that it skips.
abbrev no_publish : Publish
no_publish = record { phase = "skipped"; published_count = 0; errors = [] }

abbrev no_calibration : CommandResult
no_calibration = record {
  phase = "skipped";
  published_count = 0;
  errors = [];
  runtime_config = none;
  message_id = "";
  halt_requested = false;
}

-- The early return after a command that asks for a halt.
unfoldable pub halted_result : Inputs → SteadyState → List CommandResult → SteadyStateResult
halted_result i s results = record {
  state = connected_state i s;
  runtime_config = i.runtime_config;
  subscribed_topics = topics_of i s;
  startup = startup_result i s;
  command_results = results;
  sensor = no_publish;
  availability = no_publish;
  ota_status = ota_status_result i s;
  calibration = no_calibration;
  log_transfer = no_publish;
  command_published_count = sum_published results;
  total_published_count = sum_published results;
  errors = [];
}

-- The rest of an iteration; `w` is `working_state`.
unfoldable pub continued_result :
    Inputs → SteadyState → SteadyState → List CommandResult → SteadyStateResult
continued_result i s w results =
    let c = config_or i.calibration.runtime_config (updated_config results i.runtime_config) in
    let ids = trim w.handled_message_id_limit (remember_all results w.handled_message_ids) in
    let sensor =
      if should_poll_sensor i w then i.sensor else skipped "sensor_poll_interval_not_elapsed" in
    let polled = after_sensor i ids w in
    let availability =
      if should_refresh i c polled
      then i.availability
      else skipped "availability_refresh_not_required" in
    record {
      state = after_availability i c polled;
      runtime_config = c;
      subscribed_topics = topics_of i s;
      startup = startup_result i s;
      command_results = results;
      sensor = sensor;
      availability = availability;
      ota_status = ota_status_result i s;
      calibration = i.calibration;
      log_transfer = i.log_transfer;
      command_published_count = sum_published results;
      total_published_count =
          (startup_result i s).published_count
          + (ota_status_result i s).published_count
          + (switch_meta_result i s).published_count
          + i.metadata.published_count
          + sum_published results
          + i.calibration.published_count
          + i.log_transfer.published_count
          + sensor.published_count
          + availability.published_count;
      errors =
          (startup_result i s).errors
          ++ ((ota_status_result i s).errors
              ++ ((switch_meta_result i s).errors
                  ++ (all_errors results
                      ++ (i.calibration.errors
                          ++ (i.metadata.errors
                              ++ (i.log_transfer.errors
                                  ++ ((if should_poll_sensor i w then i.sensor.errors else [])
                                      ++ (if should_refresh i c polled
                                          then i.availability.errors
                                          else []))))))));
    }

unfoldable pub after_commands : Inputs → SteadyState → List CommandResult → SteadyStateResult
after_commands i s results =
    if any_halt results
    then halted_result i s results
    else continued_result i s (connected_state i s) results

unfoldable pub run_steady_state_iteration : Inputs → SteadyState → SteadyStateResult
run_steady_state_iteration i s =
    after_commands i s (i.process_inbound (connected_state i s).handled_message_ids)
