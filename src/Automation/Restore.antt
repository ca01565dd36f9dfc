-- ===== src/Automation/Restore.antt =====
-- What an action leaves behind: the state that its switch had.
use c_py_nodus_ii.Prelude.{
  ℕ, ◌≤◌, ◌≡◌, refl, sym, ◌∙◌, ap, subst, String, Bool, true, false, Option, none, some, List, [],
  ◌∷◌, arith, if◌then◌else◌, if-elim, Bool-cases, inl, inr,
}
use c_py_nodus_ii.Prelude.Dict.{Dict, lookup, insert, erase}
use c_py_nodus_ii.Automation.{Action, ActiveAction}
use c_py_nodus_ii.Automation.Actions.{
  Switches, same_state, Effect, new_active, revert, release, step_with, step_action,
}
use c_py_nodus_ii.Automation.Owes.{
  Owes, OwesOf, Owed, Owed-inserted, write_switch_done, Owes-nothing, Owes-state, apply_due_known,
  apply_due-Owed,
}
use c_py_nodus_ii.Automation.Delay.{Evaluation, run, lookup-erase_same}

module _ {W : Type 0} (switches : Switches W) (action : Action) (key : String)
    (original : Option Bool) where
  module _ (active : ActiveAction) (actives : Dict ActiveAction) (w : W) where
    abbrev before : Option Bool
    before = switches.channel_state action.switch_key w

    reverted_some :
        (b : Bool)
        → action.previous_state ≡ true
        → active.applied ≡ true
        → revert switches action active (some b) w ≡ switches.apply_action action.switch_key b w
    reverted_some b p a = rw (a, p)

    reverted_none :
        (b : Bool) → active.applied ≡ false → revert switches action active (some b) w ≡ (true, w)
    reverted_none b a = rw a

    -- A success goes back to the before that is owed, and a failure changes no pin.
    unfoldable Reverts : Bool × W → Type 0
    Reverts r =
        (r.0 ≡ true → switches.channel_state action.switch_key r.1 ≡ original)
        × (r.0 ≡ false → r.1 ≡ w)

    revert-Reverts :
        (to : Option Bool)
        → action.previous_state ≡ true
        → Owes original active.applied to before
        → Reverts (revert switches action active to w)
    unfolding Reverts
    revert-Reverts none p owes = (
      λ _. Owes-nothing switches action key original active.applied none before (inr refl) owes,
      λ _. refl,
    )
    revert-Reverts (some b) p owes = elim (Bool-cases active.applied) [
      | inr a ↦ subst Reverts (sym (reverted_none b a)) (
        λ _. Owes-nothing switches action key original active.applied (some b) before (inl a) owes,
        λ _. refl,
      )
      | inl a ↦ subst Reverts (sym (reverted_some b p a)) (
        λ e.
            switches.state-apply action.switch_key b w e
            ∙ sym (Owes-state switches action key original b active.applied before a owes),
        λ e. switches.apply_refused action.switch_key b w e,
      )
    ]

    released-Owed :
        (r : Bool × W)
        → Reverts r
        → Owed switches action key original (actives, w)
        → Owed switches action key original (if r.0 then erase key actives else actives, r.1)
    unfolding Reverts OwesOf
    released-Owed (true, w') f h = rw (lookup-erase_same switches action key actives) (f.0 refl)
    released-Owed (false, w') f h = rw (f.1 refl) h

    release-Owed :
        action.previous_state ≡ true
        → Owes original active.applied active.revert_to before
        → Owed switches action key original (actives, w)
        → Owed switches action key original (release switches action key active (actives, w))
    unfolding release
    release-Owed p owes h =
        released-Owed (revert switches action active active.revert_to w)
          (revert-Reverts active.revert_to p owes) h

  step-Owed :
      (matched : Bool) (now : ℕ) (found : Option ActiveAction) (actives : Dict ActiveAction) (w : W)
      → action.previous_state ≡ true
      → lookup key actives ≡ found
      → Owed switches action key original (actives, w)
      → Owed switches action key original
          (step_with switches matched action key now found (actives, w))
  unfolding step_with OwesOf Owes
  step-Owed true now none actives w p l h =
      let new = new_active action now in
      let owes = subst (λ r. OwesOf original r (switches.channel_state action.switch_key w)) l h in
      apply_due-Owed switches action key original new (insert key new actives) w now owes
        (Owed-inserted switches action key original new actives w owes)
  step-Owed true now (some active) actives w p l h =
      let owes = subst (λ r. OwesOf original r (switches.channel_state action.switch_key w)) l h in
      apply_due-Owed switches action key original active actives w now owes h
  step-Owed false now none actives w p l h = h
  step-Owed false now (some active) actives w p l h =
      let owes = subst (λ r. OwesOf original r (switches.channel_state action.switch_key w)) l h in
      release-Owed active actives w p owes h

  run-Owed :
      (es : List Evaluation) (actives : Dict ActiveAction) (w : W)
      → action.previous_state ≡ true
      → Owed switches action key original (actives, w)
      → Owed switches action key original (run switches action key es (actives, w))
  unfolding run step_action
  run-Owed [] actives w p h = h
  run-Owed ((matched, now) ∷ es) actives w p h =
      let e = step_with switches matched action key now (lookup key actives) (actives, w) in
      run-Owed es e.0 e.1 p (step-Owed matched now (lookup key actives) actives w p refl h)

-- An action with "previous_state", over any evaluations of its rule that nothing else on the switch
-- comes between: whenever the action has no record again, the switch has the state that it had
-- before the first of them.
pub action_restores_state :
    {W : Type 0} (switches : Switches W) (action : Action) (key : String) (es : List Evaluation)
    (actives : Dict ActiveAction) (w : W)
    → action.previous_state ≡ true
    → lookup key actives ≡ none
    → lookup key ((run switches action key es (actives, w)).0) ≡ none
    → switches.channel_state action.switch_key ((run switches action key es (actives, w)).1)
      ≡ switches.channel_state action.switch_key w
unfolding OwesOf
action_restores_state switches action key es actives w p l e =
    let original = switches.channel_state action.switch_key w in
    let owed = run-Owed switches action key original es actives w p (rw l refl) in
    subst
      (λ r.
        OwesOf original r
          (switches.channel_state action.switch_key ((run switches action key es (actives, w)).1)))
      e owed

same_state-eq : (a b : Bool) → same_state a b ≡ true → a ≡ b
same_state-eq true b h = sym h
same_state-eq false b h = ground arith

abbrev IsApplied : {W : Type 0} → Switches W → Action → Effect W → Type 0
IsApplied switches action e = switches.channel_state action.switch_key e.1 ≡ some action.set

-- An action that waits and is due: an evaluation that matches, where the switch is there and takes
-- the state, ends with the switch in the state that the action asks for.
pub action_applied_when_due :
    {W : Type 0} (switches : Switches W) (action : Action) (key : String) (now : ℕ)
    (active : ActiveAction) (current : Bool) (actives : Dict ActiveAction) (w : W)
    → lookup key actives ≡ some active
    → active.applied ≡ false
    → active.due ≤ now
    → switches.channel_state action.switch_key w ≡ some current
    → (switches.apply_action action.switch_key action.set w).0 ≡ true
    → switches.channel_state action.switch_key
        ((step_action switches true action key now (actives, w)).1)
      ≡ some action.set
unfolding step_action step_with
action_applied_when_due switches action key now active current actives w l a d s ok = rw l (
    subst (IsApplied switches action)
      (sym (
        apply_due_known switches action key none active actives w now current (ground (arith, a, d))
          s))
      (if-elim (IsApplied switches action) (same_state current action.set) _ _
        (λ e. s ∙ ap some (same_state-eq current action.set e))
        (λ _.
          subst (IsApplied switches action)
            (sym (write_switch_done switches action key none active current actives w ok))
            (switches.state-apply action.switch_key action.set w ok))))
