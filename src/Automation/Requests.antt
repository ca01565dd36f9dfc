-- ===== src/Automation/Requests.antt =====
-- The answers of `save_rule` and `delete_rule`, with what the service holds after them.
use c_py_nodus_ii.Prelude.{
  ◌≡◌, ◌⊎◌, refl, ◌∙◌, String, Bool, false, not, ◌&&◌, Option, none, some, List, [], ◌∷◌, ◌++◌,
  length, arith, All, leb, str_eq, eq_iff, if◌then◌else◌, if-elim, Bool-cases, Option-cases, inl,
  inr,
}
use c_py_nodus_ii.Prelude.Dict.{Dict}
use c_py_nodus_ii.Automation.{Rule, Action, ActiveAction, AutomationState}
use c_py_nodus_ii.Automation.Actions.{Switches, Effect}
use c_py_nodus_ii.Automation.Raw.{Checked, valid, value_error, raises, RawScript, Site}
use c_py_nodus_ii.Automation.RuleList.{
  is_used, replace_rule, without_rule, find_rule, candidate_rules, accept_rules, failed, Saved,
  persist_candidate, normalize_rule, save_normalized, save_rule, delete_found, delete_rule,
  release_rule, clear_rule_runtime, belongs, release_tokens, release_token, action_of_token,
}

find-replace_rule :
    (r : Rule) (id : String) (rules : List Rule)
    → find_rule id (replace_rule r rules)
      ≡ (if is_used r.rule_id rules && str_eq r.rule_id id then some r else find_rule id rules)
unfolding replace_rule find_rule
find-replace_rule r id [] = refl
find-replace_rule r id (rule ∷ rules) = ground (
  arith,
  find-replace_rule r id rules,
  eq_iff rule.rule_id id,
  eq_iff r.rule_id id,
  eq_iff rule.rule_id r.rule_id,
)

find-append :
    (r : Rule) (id : String) (rules : List Rule)
    → is_used r.rule_id rules ≡ false
    → find_rule id (rules ++ r ∷ []) ≡ (if str_eq r.rule_id id then some r else find_rule id rules)
unfolding find_rule
find-append r id [] u = refl
find-append r id (rule ∷ rules) u = ground (
  arith,
  find-append r id rules,
  u,
  eq_iff rule.rule_id id,
  eq_iff r.rule_id id,
  eq_iff rule.rule_id r.rule_id,
)

find-without_rule :
    (id id' : String) (rules : List Rule)
    → find_rule id' (without_rule id rules) ≡ (if str_eq id id' then none else find_rule id' rules)
unfolding without_rule find_rule
find-without_rule id id' [] = ground arith
find-without_rule id id' (rule ∷ rules) = ground (
  arith,
  find-without_rule id id' rules,
  eq_iff rule.rule_id id,
  eq_iff rule.rule_id id',
  eq_iff id id',
)

-- The list holds the rule under its id, and under another id what it held.
abbrev pub Holds : Rule → List Rule → List Rule → Type 0
Holds rule before after =
    (id : String)
    → find_rule id after ≡ (if str_eq rule.rule_id id then some rule else find_rule id before)

candidate-Holds :
    (rule : Rule) (rules : List Rule)
    → ((e : String) × (candidate_rules rule rules ≡ value_error e))
      ⊎ ((candidate : List Rule) × (candidate_rules rule rules ≡ valid candidate)
          × Holds rule rules candidate)
unfolding candidate_rules
candidate-Holds rule rules = elim (Bool-cases (is_used rule.rule_id rules)) [
  | inl u ↦ inr (replace_rule rule rules, rw u, λ id. find-replace_rule rule id rules ∙ rw u)
  | inr u ↦ elim (Bool-cases (leb 12 (length rules))) [
    | inl l ↦ inl ("automation_rule_limit", rw (u, l))
    | inr l ↦ inr (rules ++ rule ∷ [], rw (u, l), λ id. find-append rule id rules u)
  ]
]

-- The request was refused; or an exception that `save_rule` does not catch left the normalisation; or
-- the answer is the id of a rule that the list now holds.
abbrev pub Saves : {W : Type 0} → Checked Rule → AutomationState → W → Saved W → Type 0
Saves rule s w saved =
    ((e : String) × (saved ≡ failed e s w))
    ⊎ (((e : String) × (rule ≡ raises e) × (saved ≡ (raises e, s, w)))
        ⊎ ((r : Rule) × (rule ≡ valid r)
            × (saved.0 ≡ valid r.rule_id)
            × Holds r s.rules saved.1.rules))

module _ {W : Type 0} (switches : Switches W) (persist : List Rule → Option String) where
  accepted_rules :
      (rule_id : String) (found : Bool) (candidate : List Rule) (s : AutomationState) (w : W)
      → let saved = accept_rules switches rule_id found candidate s w in
        (saved.0 ≡ valid rule_id) × (saved.1.rules ≡ candidate)
  unfolding accept_rules
  accepted_rules rule_id found candidate s w = (refl, refl)

  normalized-Saves :
      (rule : Checked Rule) (s : AutomationState) (w : W)
      → Saves rule s w (save_normalized switches persist rule s w)
  unfolding save_normalized persist_candidate
  normalized-Saves (value_error e) s w = inl (e, refl)
  normalized-Saves (raises e) s w = inr (inl (e, refl, refl))
  normalized-Saves (valid rule) s w = elim (candidate-Holds rule s.rules) [
    | inl (e, c) ↦ inl (e, rw c)
    | inr (candidate, c, h) ↦ elim (Option-cases (persist candidate)) [
      | inr (e, p) ↦ inl (e, rw (c, persist_candidate, p))
      | inl p ↦
          let a = accepted_rules rule.rule_id (is_used rule.rule_id s.rules) candidate s w in
          inr (
            inr (rule, refl, rw (c, persist_candidate, p) a.0, rw (c, persist_candidate, p, a.1) h))
    ]
  ]

-- A request to save a rule is answered by an error and changes neither the service nor a switch; or
-- it leaves by an exception other than a `ValueError`, which is then the one of the normalisation,
-- and changes neither; or it is answered with the id of the normalised rule, which the list then
-- holds, with every other rule as it was.
pub save_rule_answer :
    {W : Type 0} (switches : Switches W) (persist : List Rule → Option String) (site : Site)
    (active : Bool) (rule_id name_id : String) (enabled : Bool) (script : RawScript)
    (s : AutomationState) (w : W)
    → Saves
        (normalize_rule site rule_id name_id enabled script s.rules)
        s
        w
        (save_rule switches persist site active rule_id name_id enabled script s w)
unfolding save_rule
save_rule_answer switches persist site active rule_id name_id enabled script s w =
    let rule = normalize_rule site rule_id name_id enabled script s.rules in
    if-elim (Saves rule s w) (not active) _ _ (λ _. inl ("automation_profile_inactive", refl))
      (λ _. normalized-Saves switches persist rule s w)

-- Nothing in a dictionary belongs to the rule.
abbrev pub Free : {V : Type 0} → String → Dict V → Type 0
Free rule_id d = All (λ e. belongs rule_id e.0 ≡ false) d

release_tokens-Free :
    {W : Type 0} (switches : Switches W) (rule_id : String) (actions : List Action)
    (actives : Dict ActiveAction) (w : W)
    → Free rule_id ((release_tokens switches rule_id actions actives w).0)
unfolding release_tokens
release_tokens-Free switches rule_id actions [] w = tt
release_tokens-Free {W} switches rule_id actions ((key, active) ∷ actives) w =
    if-elim (λ (e : Effect W). Free rule_id e.0) (belongs rule_id key) _ _
      (λ _.
        release_tokens-Free switches rule_id actions actives
          (release_token switches (action_of_token key actions) active w))
      (λ b. (b, release_tokens-Free switches rule_id actions actives w))

clear_rule_runtime-Free :
    (rule_id : String) (states : Dict Bool) → Free rule_id (clear_rule_runtime rule_id states)
unfolding clear_rule_runtime
clear_rule_runtime-Free rule_id [] = tt
clear_rule_runtime-Free rule_id ((key, b) ∷ states) =
    if-elim (Free rule_id) (belongs rule_id key) _ _ (λ _. clear_rule_runtime-Free rule_id states)
      (λ e. (e, clear_rule_runtime-Free rule_id states))

-- The rule is gone from the list, every other rule is as it was, and neither an action record nor
-- the state of a condition is left under a token of the rule.
abbrev pub IsDeleted : String → AutomationState → AutomationState → Type 0
IsDeleted rule_id before after =
    ((id : String)
      → find_rule id after.rules ≡ (if str_eq rule_id id then none else find_rule id before.rules))
    × Free rule_id after.active_actions
    × Free rule_id after.condition_states

abbrev pub Deletes : {W : Type 0} → String → AutomationState → W → Saved W → Type 0
Deletes rule_id s w saved =
    ((e : String) × (saved ≡ failed e s w))
    ⊎ ((saved.0 ≡ valid rule_id) × IsDeleted rule_id s saved.1)

released-Free :
    {W : Type 0} (switches : Switches W) (rule_id : String) (s : AutomationState) (w : W)
    → let s' = (release_rule switches rule_id s w).0 in
      Free rule_id s'.active_actions × Free rule_id s'.condition_states
unfolding release_rule
released-Free switches rule_id s w = (
  release_tokens-Free switches rule_id _ s.active_actions w,
  clear_rule_runtime-Free rule_id s.condition_states,
)

found-Deletes :
    {W : Type 0} (switches : Switches W) (persist : List Rule → Option String) (rule_id : String)
    (s : AutomationState) (w : W)
    → Deletes rule_id s w (delete_found switches persist rule_id s w)
unfolding delete_found
found-Deletes switches persist rule_id s w =
    elim (Option-cases (persist (without_rule rule_id s.rules))) [
      | inr (e, p) ↦ inl (e, rw (delete_found, p))
      | inl p ↦
          let (actives, states) = released-Free switches rule_id s w in
          inr (
            rw (delete_found, p) refl,
            rw (delete_found, p) (λ id. find-without_rule rule_id id s.rules, actives, states),
          )
    ]

-- A request to delete a rule fails and changes neither the service nor a switch, or the rule is gone,
-- with every action record and condition state that begins with its id.
pub delete_rule_answer :
    {W : Type 0} (switches : Switches W) (persist : List Rule → Option String) (active : Bool)
    (rule_id : String) (s : AutomationState) (w : W)
    → Deletes rule_id s w (delete_rule switches persist active rule_id s w)
unfolding delete_rule
delete_rule_answer switches persist active rule_id s w =
    if-elim (Deletes rule_id s w) (not active) _ _ (λ _. inl ("automation_profile_inactive", refl))
      (λ _.
        if-elim (Deletes rule_id s w) (not (is_used rule_id s.rules)) _ _
          (λ _. inl ("automation_rule_not_found", refl))
          (λ _. found-Deletes switches persist rule_id s w))
