-- ===== src/SteadyState/Cadence.antt =====
-- The pace of the sensor's publications in the loop of features/steady_state.py.
use c_py_nodus_ii.Prelude.{
  String, ◌≡◌, refl, sym, ap, ◌∙◌, true, false, List, [], ◌∷◌, arith, if◌then◌else◌, if-elim,
  Bool-cases, inl, inr,
}
use c_py_nodus_ii.Prelude.Int.{ℤ, pos, ◌-ℤ◌, ◌≤ℤ◌}
use c_py_nodus_ii.SteadyState.{
  SteadyState, RuntimeConfig, CommandResult, Inputs, Publish, skipped, trim, remember_all,
  is_published, is_startup, after_startup, after_switch_meta, connected_state, any_halt,
  interval_over, should_poll_sensor, after_sensor, after_availability,
}
use c_py_nodus_ii.SteadyState.Iteration.{
  halted_result, continued_result, after_commands, run_steady_state_iteration,
}

-- The times of a state that the sensor's publications are paced by.
abbrev SameTimes : SteadyState → SteadyState → Type 0
SameTimes s s' =
    (s'.last_sensor_publish_at ≡ s.last_sensor_publish_at)
    × (s'.sensor_interval_s ≡ s.sensor_interval_s)

connected_state-SameTimes :
    (i : Inputs) (s : SteadyState) → is_startup i s ≡ false → SameTimes s (connected_state i s)
unfolding connected_state after_switch_meta
connected_state-SameTimes i s e =
    rw e (if-elim (SameTimes s) _ _ s (λ _. (refl, refl)) (λ _. (refl, refl)))

after_availability-SameTimes :
    (i : Inputs) (c : RuntimeConfig) (s : SteadyState) → SameTimes s (after_availability i c s)
unfolding after_availability
after_availability-SameTimes i c s =
    if-elim (SameTimes s) _ _ s (λ _. (refl, refl)) (λ _. (refl, refl))

-- The sensor's publication of an iteration that is not halted.
abbrev sensor_of : Inputs → SteadyState → Publish
sensor_of i w =
    if should_poll_sensor i w then i.sensor else skipped "sensor_poll_interval_not_elapsed"

abbrev PacedBy : Inputs → SteadyState → Publish → SteadyState → Type 0
PacedBy i w sensor s =
    (s.last_sensor_publish_at
      ≡ (if is_published sensor then i.now_monotonic else w.last_sensor_publish_at))
    × (s.sensor_interval_s ≡ w.sensor_interval_s)
    × (is_published sensor ≡ true
        → interval_over w.last_sensor_publish_at w.sensor_interval_s i.now_monotonic ≡ true)

after_sensor-Paced :
    (i : Inputs) (ids : List String) (w : SteadyState)
    → PacedBy i w (sensor_of i w) (after_sensor i ids w)
unfolding after_sensor
after_sensor-Paced i ids w = elim (Bool-cases (should_poll_sensor i w)) [
  | inr e ↦ rw e (refl, refl, λ p. ground (arith, p))
  | inl e ↦ elim (Bool-cases (is_published i.sensor)) [
    | inl f ↦ rw (e, f) (refl, refl, λ _. ground (arith, e))
    | inr f ↦ rw (e, f) (refl, refl, λ p. ground (arith, p))
  ]
]

commands-Paced :
    (i : Inputs) (s : SteadyState) (results : List CommandResult)
    → let r = after_commands i s results in PacedBy i (connected_state i s) r.sensor r.state
unfolding after_commands halted_result continued_result
commands-Paced i s results = elim (Bool-cases (any_halt results)) [
  | inl e ↦ rw e (refl, refl, λ p. ground (arith, p))
  | inr e ↦
      let (last, interval, due) =
        after_sensor-Paced i
          (trim (connected_state i s).handled_message_id_limit
            (remember_all results (connected_state i s).handled_message_ids))
          (connected_state i s) in
      let (same, same_interval) = after_availability-SameTimes i _ _ in
      rw e (same ∙ last, same_interval ∙ interval, due)
]

iteration-Paced :
    (i : Inputs) (s : SteadyState)
    → let r = run_steady_state_iteration i s in PacedBy i (connected_state i s) r.sensor r.state
unfolding run_steady_state_iteration
iteration-Paced i s = commands-Paced i s _

-- Iterations on one connection that do not publish the sensor.
abbrev pub Quiet : List Inputs → SteadyState → Type 0
Quiet [] s = Unit
Quiet (i ∷ is) s =
    (is_startup i s ≡ false)
    × (is_published (run_steady_state_iteration i s).sensor ≡ false)
    × Quiet is (run_steady_state_iteration i s).state

abbrev pub state_after : List Inputs → SteadyState → SteadyState
state_after [] s = s
state_after (i ∷ is) s = state_after is (run_steady_state_iteration i s).state

Quiet-SameTimes : (is : List Inputs) (s : SteadyState) → Quiet is s → SameTimes s (state_after is s)
Quiet-SameTimes [] s q = (refl, refl)
Quiet-SameTimes (i ∷ is) s (here, silent, later) =
    let (last, interval) = Quiet-SameTimes is (run_steady_state_iteration i s).state later in
    let (same, same_interval, _) = iteration-Paced i s in
    let (kept, kept_interval) = connected_state-SameTimes i s here in
    (last ∙ same ∙ rw silent kept, interval ∙ same_interval ∙ kept_interval)

connected_state-interval :
    (i : Inputs) (s : SteadyState) → (connected_state i s).sensor_interval_s ≡ s.sensor_interval_s
unfolding connected_state after_startup after_switch_meta
connected_state-interval i s =
    if-elim (λ (s' : SteadyState). s'.sensor_interval_s ≡ s.sensor_interval_s) (is_startup i s) _ _
      (λ _. refl)
      λ _.
        if-elim (λ (s' : SteadyState). s'.sensor_interval_s ≡ s.sensor_interval_s) _ _ s (λ _. refl)
          (λ _. refl)

over-since :
    (last interval now : ℤ)
    → pos 0 ≤ℤ last
    → interval_over last interval now ≡ true
    → interval ≤ℤ (now -ℤ last)
over-since last interval now p e = ground (arith, p, e)

-- Two publications of the sensor on one connection, with none between them, are at least the sensor
-- interval apart, where the first is not at a negative time.
pub sensor_publications_paced :
    (s s' : SteadyState) (i j : Inputs) (between : List Inputs)
    → is_published (run_steady_state_iteration i s).sensor ≡ true
    → pos 0 ≤ℤ i.now_monotonic
    → Quiet between (run_steady_state_iteration i s).state
    → s' ≡ state_after between (run_steady_state_iteration i s).state
    → is_startup j s' ≡ false
    → is_published (run_steady_state_iteration j s').sensor ≡ true
    → s.sensor_interval_s ≤ℤ (j.now_monotonic -ℤ i.now_monotonic)
sensor_publications_paced s s' i j between first nonneg quiet reached here second =
    let (at, interval, _) = iteration-Paced i s in
    let (kept, kept_interval) =
      Quiet-SameTimes between (run_steady_state_iteration i s).state quiet in
    let (held, held_interval) = connected_state-SameTimes j s' here in
    let (_, _, due) = iteration-Paced j s' in
    let last : (connected_state j s').last_sensor_publish_at ≡ i.now_monotonic =
      held
      ∙ ap (λ t. t.last_sensor_publish_at) reached
      ∙ kept
      ∙ at
      ∙ ap (λ b. if b then i.now_monotonic else (connected_state i s).last_sensor_publish_at)
          first in
    let same : (connected_state j s').sensor_interval_s ≡ s.sensor_interval_s =
      held_interval
      ∙ ap (λ t. t.sensor_interval_s) reached
      ∙ kept_interval
      ∙ interval
      ∙ connected_state-interval i s in
    over-since i.now_monotonic s.sensor_interval_s j.now_monotonic nonneg (
      ap (λ t. interval_over t s.sensor_interval_s j.now_monotonic) (sym last)
      ∙ ap (λ n. interval_over (connected_state j s').last_sensor_publish_at n j.now_monotonic)
          (sym same)
      ∙ due second)
