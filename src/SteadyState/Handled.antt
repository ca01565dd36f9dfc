-- ===== src/SteadyState/Handled.antt =====
-- The message ids that the loop of features/steady_state.py keeps, so that a message that comes
-- again is not handled again.
use c_py_nodus_ii.Prelude.{
  ℕ, zero, suc, ◌-◌, ◌<◌, ◌≤◌, ◌≡◌, ◌≢◌, refl, ap, ◌∙◌, String, Bool, true, false, not, ◌&&◌, ◌||◌,
  List, [], ◌∷◌, ◌++◌, length, drop, length-drop, length-append, arith, eq_iff, if◌then◌else◌,
  if-elim, Bool-cases, inl, inr,
}
use c_py_nodus_ii.SteadyState.{
  SteadyState, RuntimeConfig, CommandResult, Inputs, is_published, is_startup, after_startup,
  after_switch_meta, connected_state, any_halt, is_member, remember, remember_all, trim,
  should_poll_sensor, after_sensor, after_availability,
}
use c_py_nodus_ii.SteadyState.Iteration.{
  halted_result, continued_result, after_commands, run_steady_state_iteration,
}

-- The ids of a state and their limit.
abbrev SameIds : SteadyState → SteadyState → Type 0
SameIds s s' =
    (s'.handled_message_ids ≡ s.handled_message_ids)
    × (s'.handled_message_id_limit ≡ s.handled_message_id_limit)

connected_state-SameIds : (i : Inputs) (s : SteadyState) → SameIds s (connected_state i s)
unfolding connected_state after_startup after_switch_meta
connected_state-SameIds i s =
    if-elim (SameIds s) (is_startup i s) _ _ (λ _. (refl, refl))
      λ _. if-elim (SameIds s) _ _ s (λ _. (refl, refl)) (λ _. (refl, refl))

after_availability-SameIds :
    (i : Inputs) (c : RuntimeConfig) (s : SteadyState) → SameIds s (after_availability i c s)
unfolding after_availability
after_availability-SameIds i c s = if-elim (SameIds s) _ _ s (λ _. (refl, refl)) (λ _. (refl, refl))

-- An iteration that reads the sensor and does not publish it.
abbrev pub poll_fails : Inputs → SteadyState → Bool
poll_fails i s = should_poll_sensor i (connected_state i s) && not (is_published i.sensor)

-- What an iteration keeps of the ids, given the results of its commands.
abbrev pub kept_ids : Inputs → SteadyState → List CommandResult → List String
kept_ids i s results =
    if any_halt results || poll_fails i s
    then s.handled_message_ids
    else trim s.handled_message_id_limit (remember_all results s.handled_message_ids)

after_sensor-ids :
    (i : Inputs) (ids : List String) (s : SteadyState)
    → (after_sensor i ids s).handled_message_ids ≡ (
        if should_poll_sensor i s && not (is_published i.sensor)
        then s.handled_message_ids
        else ids)
unfolding after_sensor
after_sensor-ids i ids s = ground arith

results-ids :
    (i : Inputs) (s : SteadyState) (results : List CommandResult)
    → (after_commands i s results).state.handled_message_ids ≡ kept_ids i s results
unfolding after_commands halted_result continued_result
results-ids i s results =
    let (ids, limit) = connected_state-SameIds i s in
    elim (Bool-cases (any_halt results)) [
      | inl e ↦ rw e ids
      | inr e ↦ rw e (
          (after_availability-SameIds i _ _).0
          ∙ after_sensor-ids i _ (connected_state i s)
          ∙ rw (ids, limit) refl)
    ]

-- Whatever the parts answer, an iteration ends with the ids of its commands added and the list cut
-- to its limit, except where a command asks for a halt or a sensor is read and not published: then
-- it ends with the ids that it began with.
pub handled_ids_after_iteration :
    (i : Inputs) (s : SteadyState)
    → (run_steady_state_iteration i s).state.handled_message_ids
      ≡ kept_ids i s (i.process_inbound s.handled_message_ids)
unfolding run_steady_state_iteration
handled_ids_after_iteration i s =
    let (ids, _) = connected_state-SameIds i s in
    ap (λ h. (after_commands i s (i.process_inbound h)).state.handled_message_ids) ids
    ∙ results-ids i s _

remember_all-append :
    (rs : List CommandResult) (r : CommandResult) (ids : List String)
    → remember_all (rs ++ r ∷ []) ids ≡ remember r.message_id (remember_all rs ids)
unfolding remember_all
remember_all-append [] r ids = refl
remember_all-append (q ∷ rs) r ids = remember_all-append rs r _

trim-length : (limit : ℕ) (ids : List String) → 0 < limit → length (trim limit ids) ≤ limit
unfolding trim
trim-length limit ids p = ground (arith, length-drop (length ids - limit) ids)

-- A list of ids within a positive limit stays within it.
pub handled_ids_bounded :
    (i : Inputs) (s : SteadyState)
    → 0 < s.handled_message_id_limit
    → length s.handled_message_ids ≤ s.handled_message_id_limit
    → length (run_steady_state_iteration i s).state.handled_message_ids ≤ s.handled_message_id_limit
handled_ids_bounded i s p l = rw (handled_ids_after_iteration i s) (
    let results = i.process_inbound s.handled_message_ids in
    if-elim (λ ids. length ids ≤ s.handled_message_id_limit) (any_halt results || poll_fails i s)
      s.handled_message_ids
      (trim s.handled_message_id_limit (remember_all results s.handled_message_ids)) (λ _. l)
      (λ _. trim-length _ _ p))

is_member-last :
    (m : String) (ids : List String) (k : ℕ)
    → k ≤ length ids
    → is_member m (drop k (ids ++ m ∷ [])) ≡ true
unfolding is_member
is_member-last m [] zero l = ground (arith, eq_iff m m)
is_member-last m [] (suc k) l = absurd (ground (arith, l))
is_member-last m (x ∷ xs) zero l = ground (arith, is_member-last m xs zero (omega arith))
is_member-last m (x ∷ xs) (suc k) l = is_member-last m xs k (omega (arith, l))

is_member-trim :
    (m : String) (ids : List String) (limit : ℕ)
    → 0 < limit
    → is_member m (trim limit (ids ++ m ∷ [])) ≡ true
unfolding trim
is_member-trim m ids limit p =
    let none_dropped = is_member-last m ids 0 (omega arith) in
    let most_dropped =
      is_member-last m ids (length (ids ++ m ∷ []) - limit)
        (omega (arith, length-append ids (m ∷ []), p)) in
    ground (arith, p, none_dropped, most_dropped)

-- The newest command of an iteration, with an id that is not known yet, is known after the
-- iteration, where nothing asks for a halt and no poll of the sensor fails.
pub newest_command_is_remembered :
    (i : Inputs) (s : SteadyState) (earlier : List CommandResult) (r : CommandResult)
    → 0 < s.handled_message_id_limit
    → i.process_inbound s.handled_message_ids ≡ earlier ++ r ∷ []
    → any_halt (earlier ++ r ∷ []) ≡ false
    → poll_fails i s ≡ false
    → r.message_id ≢ ""
    → is_member r.message_id (remember_all earlier s.handled_message_ids) ≡ false
    → is_member r.message_id (run_steady_state_iteration i s).state.handled_message_ids ≡ true
newest_command_is_remembered i s earlier r p e halt poll m new =
    let known = remember_all earlier s.handled_message_ids in
    let added : remember r.message_id known ≡ known ++ r.message_id ∷ [] =
      ground (arith, new, m, eq_iff r.message_id "") in
    rw
      (
        handled_ids_after_iteration i s,
        e,
        halt,
        poll,
        remember_all-append earlier r s.handled_message_ids,
        added,
      )
      (is_member-trim r.message_id known s.handled_message_id_limit p)
