-- ===== src/SteadyState/Tests.antt =====
-- Iterations of the main loop on a sensor node.
use c_py_nodus_ii.Prelude.{◌≡◌, refl, true, false, none, List, [], ◌∷◌, arith, eq_iff}
use c_py_nodus_ii.Prelude.Int.{ℤ, pos, ◌-ℤ◌, ◌≤ℤ◌}
use c_py_nodus_ii.SteadyState.{
  SteadyState, initial_state, Publish, skipped, RuntimeConfig, CommandResult, Inputs, is_member,
  any_halt, remember_all, connected_state, after_startup, after_switch_meta, after_sensor,
  after_availability, trim, updated_config,
}
use c_py_nodus_ii.SteadyState.Iteration.{
  run_steady_state_iteration, after_commands, continued_result, halted_result,
}
use c_py_nodus_ii.SteadyState.Handled.{handled_ids_after_iteration, newest_command_is_remembered}
use c_py_nodus_ii.SteadyState.Cadence.{sensor_publications_paced}

abbrev published : Publish
published = record { phase = "published"; published_count = 1; errors = [] }

abbrev sensor_node : RuntimeConfig
sensor_node = record { sensor_present = true; switch_present = false }

abbrev no_command : CommandResult
no_command = record {
  phase = "ignored";
  published_count = 0;
  errors = [];
  runtime_config = none;
  message_id = "";
  halt_requested = false;
}

abbrev command : CommandResult
command = record no_command { phase = "published"; message_id = "m1" }

-- An iteration at a time, with the sensor's publication and the commands that come in.
abbrev inputs : ℤ → Publish → List CommandResult → Inputs
inputs now sensor commands = record {
  connected = true;
  connection_generation = 1;
  idle = true;
  runtime_config = sensor_node;
  has_sensor_service = true;
  snapshot_ready = true;
  now_monotonic = now;
  subscribed_topics = [];
  startup = published;
  ota_status = skipped "";
  switch_meta = skipped "";
  process_inbound = λ ids. commands;
  calibration = no_command;
  metadata = skipped "";
  log_transfer = skipped "";
  sensor = sensor;
  availability = published;
}

-- A node that has been connected since 0 s.
abbrev running : SteadyState
running = record initial_state { connection_generation = 1; last_sensor_publish_at = pos 0 }

abbrev failing : Publish
failing = record { phase = "error"; published_count = 0; errors = "sensor_read_failed" ∷ [] }

-- The sensor is due at 60 s and fails: the command's id is not kept.
handled_ids_after_iteration_example :
    let i = inputs (pos 60_000) failing (command ∷ []) in
    (run_steady_state_iteration i running).state.handled_message_ids ≡ []
unfolding connected_state after_switch_meta any_halt ◌-ℤ◌
handled_ids_after_iteration_example =
    handled_ids_after_iteration (inputs (pos 60_000) failing (command ∷ [])) running

newest_command_is_remembered_example :
    is_member "m1"
      (run_steady_state_iteration
        (inputs (pos 1_000) failing (command ∷ []))
        running).state.handled_message_ids
    ≡ true
unfolding connected_state after_switch_meta any_halt remember_all is_member ◌-ℤ◌
newest_command_is_remembered_example =
    newest_command_is_remembered (inputs (pos 1_000) failing (command ∷ [])) running [] command
      (omega arith) refl refl refl (ground (arith, eq_iff "m1" "")) refl

-- Published at 60 s, polled without a publication at 120 s and published at 130 s.
sensor_publications_paced_example : pos 60_000 ≤ℤ (pos 130_000 -ℤ pos 60_000)
unfolding run_steady_state_iteration after_commands continued_result halted_result connected_state
    after_startup after_switch_meta after_sensor after_availability any_halt trim remember_all
    updated_config ◌-ℤ◌
sensor_publications_paced_example =
    sensor_publications_paced running
      (run_steady_state_iteration (inputs (pos 120_000) failing [])
        (run_steady_state_iteration (inputs (pos 60_000) published []) running).state).state
      (inputs (pos 60_000) published []) (inputs (pos 130_000) published [])
      (inputs (pos 120_000) failing [] ∷ []) refl (omega arith) (refl, refl, tt) refl refl refl
