-- ===== src/Automation/Owes.antt =====
-- What the record of an action says of its switch, and that a matching evaluation keeps it true.
use c_py_nodus_ii.Prelude.{
  ℕ, ◌≡◌, ◌⊎◌, refl, sym, ◌∙◌, subst, String, Bool, true, false, not, ◌&&◌, Option, none, some,
  arith, leb, if◌then◌else◌, if-elim, Bool-cases, Option-cases, inl, inr,
}
use c_py_nodus_ii.Prelude.Dict.{Dict, lookup, insert}
use c_py_nodus_ii.Automation.{Action, ActiveAction}
use c_py_nodus_ii.Automation.Actions.{Switches, same_state, Effect, write_switch, apply_due}
use c_py_nodus_ii.Automation.Delay.{lookup-insert_same}

-- The switch that had the state `original` before the action: what its record says of it, and of
-- the state that it has now.
unfoldable pub Owes : Option Bool → Bool → Option Bool → Option Bool → Type 0
Owes original true (some b) now = original ≡ some b
Owes original true none now = now ≡ original
Owes original false none now = now ≡ original
Owes original false (some b) now = ⊥

unfoldable pub OwesOf : Option Bool → Option ActiveAction → Option Bool → Type 0
OwesOf original none now = now ≡ original
OwesOf original (some active) now = Owes original active.applied active.revert_to now

module _ {W : Type 0} (switches : Switches W) (action : Action) (key : String)
    (original : Option Bool) where
  abbrev pub Owed : Effect W → Type 0
  Owed e = OwesOf original (lookup key e.0) (switches.channel_state action.switch_key e.1)

  pub Owed-inserted :
      (active : ActiveAction) (actives : Dict ActiveAction) (w : W)
      → Owes original active.applied active.revert_to (switches.channel_state action.switch_key w)
      → Owed (insert key active actives, w)
  unfolding OwesOf
  Owed-inserted active actives w h = rw (lookup-insert_same switches action key active actives) h

  pub write_switch_done :
      (active : ActiveAction) (current : Bool) (actives : Dict ActiveAction) (w : W)
      → (switches.apply_action action.switch_key action.set w).0 ≡ true
      → write_switch switches action key active current (actives, w) ≡ (
        insert key (record active { applied = true; revert_to = some current }) actives,
        (switches.apply_action action.switch_key action.set w).1,
      )
  unfolding write_switch
  write_switch_done active current actives w e = rw e

  write_switch_failed :
      (active : ActiveAction) (current : Bool) (actives : Dict ActiveAction) (w : W)
      → (switches.apply_action action.switch_key action.set w).0 ≡ false
      → write_switch switches action key active current (actives, w) ≡ (actives, w)
  unfolding write_switch
  write_switch_failed active current actives w e =
      rw (e, switches.apply_refused action.switch_key action.set w e)

  write_switch-Owed :
      (active : ActiveAction) (current : Bool) (actives : Dict ActiveAction) (w : W)
      → original ≡ some current
      → Owed (actives, w)
      → Owed (write_switch switches action key active current (actives, w))
  unfolding Owes
  write_switch-Owed active current actives w o h =
      elim (Bool-cases (switches.apply_action action.switch_key action.set w).0) [
        | inl e ↦ subst Owed (sym (write_switch_done active current actives w e)) (
            Owed-inserted (record active { applied = true; revert_to = some current }) actives
              ((switches.apply_action action.switch_key action.set w).1) o)
        | inr e ↦ subst Owed (sym (write_switch_failed active current actives w e)) h
      ]

  if_same : {A : Type 0} {x : A} (b : Bool) → (if b then x else x) ≡ x
  if_same true = refl
  if_same false = refl

  -- What a record that has not been applied, or has no state to go back to, says of the switch.
  pub Owes-nothing :
      (applied : Bool) (revert_to now : Option Bool)
      → (applied ≡ false) ⊎ (revert_to ≡ none)
      → Owes original applied revert_to now
      → now ≡ original
  unfolding Owes
  Owes-nothing true none now a h = h
  Owes-nothing true (some b) now a h = ground arith
  Owes-nothing false none now a h = h
  Owes-nothing false (some b) now a h = elim h [ ]

  pub Owes-state :
      (b applied : Bool) (now : Option Bool)
      → applied ≡ true
      → Owes original applied (some b) now
      → original ≡ some b
  unfolding Owes
  Owes-state b true now a h = h
  Owes-state b false now a h = elim h [ ]

  unapplied-Owes :
      (applied : Bool) (revert_to now : Option Bool)
      → applied ≡ false
      → Owes original applied revert_to now
      → Owes original true revert_to now
  unfolding Owes
  unapplied-Owes applied none now a h = Owes-nothing applied none now (inl a) h
  unapplied-Owes true (some b) now a h = ground arith
  unapplied-Owes false (some b) now a h = elim h [ ]

  module _ (active : ActiveAction) (actives : Dict ActiveAction) (w : W) where
    abbrev pub state : Option Bool
    state = switches.channel_state action.switch_key w

    apply_due_idle :
        (now : ℕ)
        → not active.applied && leb active.due now ≡ false
        → apply_due switches action key active now (actives, w) ≡ (actives, w)
    unfolding apply_due
    apply_due_idle now e = rw e

    apply_due_unknown :
        (now : ℕ)
        → state ≡ none
        → apply_due switches action key active now (actives, w) ≡ (actives, w)
    unfolding apply_due
    apply_due_unknown now e = rw e (if_same (not active.applied && leb active.due now))

    pub apply_due_known :
        (now : ℕ) (current : Bool)
        → not active.applied && leb active.due now ≡ true
        → state ≡ some current
        → apply_due switches action key active now (actives, w) ≡ (
            if same_state current action.set
            then (insert key (record active { applied = true }) actives, w)
            else write_switch switches action key active current (actives, w))
    unfolding apply_due
    apply_due_known now current e s = rw (e, s)

    is_unapplied :
        (now : ℕ) → not active.applied && leb active.due now ≡ true → active.applied ≡ false
    is_unapplied now e = ground arith

    pub apply_due-Owed :
        (now : ℕ)
        → Owes original active.applied active.revert_to state
        → Owed (actives, w)
        → Owed (apply_due switches action key active now (actives, w))
    apply_due-Owed now owes h = elim (Bool-cases (not active.applied && leb active.due now)) [
      | inr e ↦ subst Owed (sym (apply_due_idle now e)) h
      | inl e ↦ elim (Option-cases state) [
        | inl s ↦ subst Owed (sym (apply_due_unknown now s)) h
        | inr (current, s) ↦
            let a = is_unapplied now e in
            subst Owed (sym (apply_due_known now current e s)) (
              if-elim Owed (same_state current action.set) _ _
                (λ _.
                  Owed-inserted (record active { applied = true }) actives w
                    (unapplied-Owes active.applied active.revert_to state a owes))
                (λ _.
                  write_switch-Owed active current actives w
                    (sym (Owes-nothing active.applied active.revert_to state (inl a) owes) ∙ s) h))
      ]
    ]
