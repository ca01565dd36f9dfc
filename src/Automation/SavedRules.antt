-- ===== src/Automation/SavedRules.antt =====
-- Saving and deleting keep the invariant of the list of the rules.
use c_py_nodus_ii.Prelude.{String, Bool, not, Option, List, if-elim, Option-cases, inl, inr}
use c_py_nodus_ii.Automation.{Script, Rule, AutomationState}
use c_py_nodus_ii.Automation.Actions.{Switches}
use c_py_nodus_ii.Automation.Raw.{Checked, valid, value_error, raises, ◌>>=◌, RawScript, Site}
use c_py_nodus_ii.Automation.Scripts.{normalize_script}
use c_py_nodus_ii.Automation.Normal.{IsScript, Ensures, normalize_script-IsScript}
use c_py_nodus_ii.Automation.RuleList.{
  is_used, without_rule, candidate_rules, accept_rules, Saved, persist_candidate, normalize_rule_id,
  normalize_rule, rule_with, save_normalized, save_rule, delete_found, delete_rule,
}
use c_py_nodus_ii.Automation.RuleLaws.{IsRuleList, candidate-IsRuleList, without-IsRuleList}

-- The list of rules after a request.
abbrev saved_rules : {W : Type 0} → Saved W → List Rule
saved_rules saved = saved.1.rules

abbrev KeepsList : {W : Type 0} → Saved W → Type 0
KeepsList saved = IsRuleList (saved_rules saved)

bound_script :
    (enabled : Bool) (id : Checked String) (script : Checked Script)
    → Ensures IsScript script
    → Ensures
        (λ (rule : Rule). IsScript rule.script)
        (id >>= λ i. script >>= λ s. valid (rule_with i enabled s))
unfolding ◌>>=◌
bound_script enabled (value_error e) script h = tt
bound_script enabled (raises e) script h = tt
bound_script enabled (valid i) (value_error e) h = tt
bound_script enabled (valid i) (raises e) h = tt
bound_script enabled (valid i) (valid s) h = h

normalize_rule-IsScript :
    (site : Site) (rule_id name_id : String) (enabled : Bool) (script : RawScript)
    (rules : List Rule)
    → Ensures
        (λ (rule : Rule). IsScript rule.script)
        (normalize_rule site rule_id name_id enabled script rules)
unfolding normalize_rule
normalize_rule-IsScript site rule_id name_id enabled script rules =
    bound_script enabled (normalize_rule_id rule_id script name_id rules)
      (normalize_script site script) (normalize_script-IsScript site script)

module _ {W : Type 0} (switches : Switches W) (persist : List Rule → Option String) where
  persisted-IsRuleList :
      (r : Rule) (candidate : Checked (List Rule)) (s : AutomationState) (w : W)
      → Ensures IsRuleList candidate
      → IsRuleList s.rules
      → KeepsList (persist_candidate switches persist r candidate s w)
  unfolding persist_candidate accept_rules
  persisted-IsRuleList r (value_error e) s w c h = h
  persisted-IsRuleList r (raises e) s w c h = h
  persisted-IsRuleList r (valid candidate) s w c h = elim (Option-cases (persist candidate)) [
    | inl p ↦ rw (persist_candidate, p) c
    | inr (e, p) ↦ rw (persist_candidate, p) h
  ]

  normalized-IsRuleList :
      (rule : Checked Rule) (s : AutomationState) (w : W)
      → Ensures (λ (r : Rule). IsScript r.script) rule
      → IsRuleList s.rules
      → KeepsList (save_normalized switches persist rule s w)
  unfolding save_normalized
  normalized-IsRuleList (value_error e) s w r h = h
  normalized-IsRuleList (raises e) s w r h = h
  normalized-IsRuleList (valid rule) s w r h =
      persisted-IsRuleList rule (candidate_rules rule s.rules) s w
        (candidate-IsRuleList rule s.rules r h) h

  delete_found-IsRuleList :
      (rule_id : String) (s : AutomationState) (w : W)
      → IsRuleList s.rules
      → KeepsList (delete_found switches persist rule_id s w)
  unfolding delete_found
  delete_found-IsRuleList rule_id s w h =
      elim (Option-cases (persist (without_rule rule_id s.rules))) [
        | inl p ↦ rw (delete_found, p) (without-IsRuleList rule_id s.rules h)
        | inr (e, p) ↦ rw (delete_found, p) h
      ]

-- Whatever is asked and whether or not it can be persisted: after a rule has been saved, the list
-- still has twelve rules at most, no id twice, and scripts that evaluation can run.
pub save_rule-IsRuleList :
    {W : Type 0} (switches : Switches W) (persist : List Rule → Option String) (site : Site)
    (active : Bool) (rule_id name_id : String) (enabled : Bool) (script : RawScript)
    (s : AutomationState) (w : W)
    → IsRuleList s.rules
    → IsRuleList
        ((save_rule switches persist site active rule_id name_id enabled script s w).1.rules)
unfolding save_rule
save_rule-IsRuleList switches persist site active rule_id name_id enabled script s w h =
    if-elim KeepsList (not active) _ _ (λ _. h)
      (λ _.
        normalized-IsRuleList switches persist
          (normalize_rule site rule_id name_id enabled script s.rules) s w
          (normalize_rule-IsScript site rule_id name_id enabled script s.rules) h)

-- The same of a deletion.
pub delete_rule-IsRuleList :
    {W : Type 0} (switches : Switches W) (persist : List Rule → Option String) (active : Bool)
    (rule_id : String) (s : AutomationState) (w : W)
    → IsRuleList s.rules
    → IsRuleList ((delete_rule switches persist active rule_id s w).1.rules)
unfolding delete_rule
delete_rule-IsRuleList switches persist active rule_id s w h =
    if-elim KeepsList (not active) _ _ (λ _. h)
      (λ _.
        if-elim KeepsList (not (is_used rule_id s.rules)) _ _ (λ _. h)
          (λ _. delete_found-IsRuleList switches persist rule_id s w h))
