-- ===== src/Automation/Delay.antt =====
-- One action over the evaluations of its rule: when it writes its switch, and what it leaves.
use c_py_nodus_ii.Prelude.{
  ℕ, ◌+◌, ◌*◌, ◌≤◌, ◌<◌, ◌≡◌, refl, ◌∙◌, String, Bool, true, false, Option, none, some, List, [],
  ◌∷◌, arith, All, eq_iff, Option-cases, inl, inr,
}
use c_py_nodus_ii.Prelude.Dict.{Dict, lookup, insert, erase, lookup-insert, lookup-erase}
use c_py_nodus_ii.Automation.{Action, ActiveAction}
use c_py_nodus_ii.Automation.Actions.{
  Switches, Effect, new_active, apply_due, release, step_with, step_action,
}

-- An evaluation of the rule: whether it matched, and when.
abbrev pub Evaluation : Type 0
Evaluation = Bool × ℕ

unfoldable pub run :
    {W : Type 0} → Switches W → Action → String → List Evaluation → Effect W → Effect W
run switches action key [] e = e
run switches action key ((matched, now) ∷ rest) e =
    run switches action key rest (step_action switches matched action key now e)

-- The record of an action that has not been due: none, or one that waits beyond a time.
unfoldable pub Waits : ℕ → Option ActiveAction → Type 0
Waits time none = Unit
Waits time (some active) = (active.applied ≡ false) × (time ≤ active.due)

module _ {W : Type 0} (switches : Switches W) (action : Action) (key : String) where
  pub lookup-insert_same :
      (active : ActiveAction) (actives : Dict ActiveAction)
      → lookup key (insert key active actives) ≡ some active
  lookup-insert_same active actives =
      ground (arith, lookup-insert key key active actives, eq_iff key key)

  pub lookup-erase_same : (actives : Dict ActiveAction) → lookup key (erase key actives) ≡ none
  lookup-erase_same actives = ground (arith, lookup-erase key key actives, eq_iff key key)

  apply_due_early :
      (active : ActiveAction) (now : ℕ) (actives : Dict ActiveAction) (w : W)
      → now < active.due
      → apply_due switches action key active now (actives, w) ≡ (actives, w)
  unfolding apply_due
  apply_due_early active now actives w h = ground arith

  release_unapplied :
      (active : ActiveAction) (actives : Dict ActiveAction) (w : W)
      → active.applied ≡ false
      → release switches action key active (actives, w) ≡ (erase key actives, w)
  unfolding release
  release_unapplied active actives w h = elim (Option-cases active.revert_to) [
    | inl e ↦ rw e
    | inr (b, e) ↦ rw (e, h)
  ]

  step_early :
      (time now : ℕ) (matched : Bool) (record_now : Option ActiveAction)
      (actives : Dict ActiveAction) (w : W)
      → now < time
      → time ≤ now + action.delay_s * 1000
      → lookup key actives ≡ record_now
      → Waits time record_now
      → let e = step_with switches matched action key now record_now (actives, w) in
        Waits time (lookup key e.0) × (e.1 ≡ w)
  unfolding step_with Waits
  step_early time now true none actives w h d l p =
      let new = new_active action now in
      let same = apply_due_early new now (insert key new actives) w (omega arith) in
      rw (same, lookup-insert_same new actives) ((refl, omega arith), refl)
  step_early time now true (some active) actives w h d l p =
      rw (apply_due_early active now actives w (omega (arith, p.1)), l) (p, refl)
  step_early time now false none actives w h d l p = rw l (tt, refl)
  step_early time now false (some active) actives w h d l p =
      rw (release_unapplied active actives w p.0, lookup-erase_same actives) (tt, refl)

  run_early :
      (time : ℕ) (es : List Evaluation) (actives : Dict ActiveAction) (w : W)
      → All (λ (e : Evaluation). (e.1 < time) × (time ≤ e.1 + action.delay_s * 1000)) es
      → Waits time (lookup key actives)
      → (run switches action key es (actives, w)).1 ≡ w
  unfolding run step_action
  run_early time [] actives w h p = refl
  run_early time ((matched, now) ∷ es) actives w ((a, b), h) p =
      let step = step_early time now matched (lookup key actives) actives w a b refl p in
      let e = step_with switches matched action key now (lookup key actives) (actives, w) in
      run_early time es e.0 e.1 h step.0 ∙ step.1

early :
    (start delay : ℕ) (es : List Evaluation)
    → All (λ (e : Evaluation). (start ≤ e.1) × (e.1 < start + delay)) es
    → All (λ (e : Evaluation). (e.1 < start + delay) × (start + delay ≤ e.1 + delay)) es
early start delay [] h = tt
early start delay (e ∷ es) ((a, b), h) = ((b, omega (arith, a)), early start delay es h)

-- An action that starts anew: none of the evaluations within its delay after the first writes a
-- switch, however they match.
pub no_write_before_due :
    {W : Type 0} (switches : Switches W) (action : Action) (key : String) (start : ℕ)
    (es : List Evaluation) (actives : Dict ActiveAction) (w : W)
    → lookup key actives ≡ none
    → All (λ (e : Evaluation). (start ≤ e.1) × (e.1 < start + action.delay_s * 1000)) es
    → (run switches action key es (actives, w)).1 ≡ w
unfolding Waits
no_write_before_due switches action key start es actives w l h =
    let delay = action.delay_s * 1000 in
    run_early switches action key (start + delay) es actives w (early start delay es h) (rw l tt)
