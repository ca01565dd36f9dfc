-- ===== src/Automation/RuleList.antt =====
-- `save_rule`, `delete_rule`, `_release_rule` and `_normalize_rule_id`. `persist` is `_persist_rules`:
-- the text of an error, or nothing where the file was replaced.
use Prim.Native.String
use Prim.Native.Char.{Char, code}
use text.Mathlib.Text
use c_py_nodus_ii.Prelude.{
  ℕ, zero, suc, String, Bool, false, not, ◌&&◌, ◌||◌, Option, none, some, List, [], ◌∷◌, ◌++◌,
  length, leb, str_eq, if◌then◌else◌,
}
use c_py_nodus_ii.Prelude.Dict.{Dict}
use c_py_nodus_ii.Prelude.Text.{
  has, is_blank, is_colon, after_last, decimal, decimal_value, text_take,
}
use c_py_nodus_ii.Automation.{Action, Script, Rule, ActiveAction, AutomationState}
use c_py_nodus_ii.Automation.Actions.{Switches, Effect, revert}
use c_py_nodus_ii.Automation.Raw.{
  Checked, valid, value_error, raises, require, ◌>>=◌, ◌>>◌, pure, RawScript, Site,
}
use c_py_nodus_ii.Automation.Scripts.{normalize_script}

abbrev pub is_used : String → List Rule → Bool
is_used rule_id [] = false
is_used rule_id (rule ∷ rules) = str_eq rule.rule_id rule_id || is_used rule_id rules

-- The `while` loop, from a suffix on. It ends within one try more than there are rules.
unfoldable pub free_id : ℕ → String → ℕ → String → List Rule → Option String
free_id zero base suffix candidate rules = none
free_id (suc fuel) base suffix candidate rules =
    let rest =
      free_id fuel base (suc suffix)
        (String.◌++◌ (text_take 36 base) (String.◌++◌ "_" (decimal suffix))) rules in
    if is_used candidate rules then rest else some candidate

abbrev text_length : String → ℕ
text_length String.[] = 0
text_length (String.◌∷◌ c s) = suc (text_length s)

abbrev is_control : Char → Bool
is_control c = leb (code c) 31

abbrev given_id : Option String → Checked String
given_id none = value_error "automation_rule_id_invalid"
given_id (some id) = valid id

-- `(script or {}).get("name", ...)` as an id, "automation" where it has none: a script that is no dictionary has no `get`, unless it
-- counts as false.
unfoldable pub name_of : RawScript → String → Checked String
name_of script name_id =
    if script.is_dict
    then valid name_id
    else if script.is_truthy
    then raises "AttributeError"
    else valid "automation"

-- The id of a request without one.
unfoldable pub new_rule_id : RawScript → String → List Rule → Checked String
new_rule_id script name_id rules = do
  name ← name_of script name_id
  given_id (free_id (suc (length rules)) (text_take 40 name) 2 (text_take 40 name) rules)

-- `_normalize_rule_id`, by the id without spaces around it, the script, and its name as an id.
unfoldable pub normalize_rule_id : String → RawScript → String → List Rule → Checked String
normalize_rule_id rule_id script name_id rules = do
  id ← if is_blank rule_id then new_rule_id script name_id rules else valid rule_id
  require (leb (text_length id) 48 && not (has is_control id)) "automation_rule_id_invalid"
  pure id

abbrev action_at : ℕ → List Action → Option Action
action_at n [] = none
action_at zero (a ∷ actions) = some a
action_at (suc n) (a ∷ actions) = action_at n actions

-- `actions[int(token.rsplit(":", 1)[1])]`
abbrev pub action_of_token : String → List Action → Option Action
action_of_token key actions = elim (decimal_value (after_last is_colon key)) [
  | none ↦ none
  | some n ↦ action_at n actions
]

abbrev pub release_token : {W : Type 0} → Switches W → Option Action → ActiveAction → W → W
release_token switches none active w = w
release_token switches (some action) active w = (revert switches action active active.revert_to w).1

abbrev pub belongs : String → String → Bool
belongs rule_id key = Text.starts_with key (String.◌++◌ rule_id ":")

-- The loop over the tokens.
unfoldable pub release_tokens :
    {W : Type 0} → Switches W → String → List Action → Dict ActiveAction → W → Effect W
release_tokens switches rule_id actions [] w = ([], w)
release_tokens switches rule_id actions ((key, active) ∷ actives) w =
    let released =
      release_tokens switches rule_id actions actives
        (release_token switches (action_of_token key actions) active w) in
    let (kept, w') = release_tokens switches rule_id actions actives w in
    if belongs rule_id key then released else ((key, active) ∷ kept, w')

unfoldable pub clear_rule_runtime : String → Dict Bool → Dict Bool
clear_rule_runtime rule_id [] = []
clear_rule_runtime rule_id ((key, b) ∷ states) =
    let rest = clear_rule_runtime rule_id states in
    if belongs rule_id key then rest else (key, b) ∷ rest

unfoldable pub find_rule : String → List Rule → Option Rule
find_rule rule_id [] = none
find_rule rule_id (rule ∷ rules) =
    if str_eq rule.rule_id rule_id then some rule else find_rule rule_id rules

abbrev rule_actions : Option Rule → List Action
rule_actions none = []
rule_actions (some rule) = rule.script.actions

-- `_release_rule`
unfoldable pub release_rule :
    {W : Type 0} → Switches W → String → AutomationState → W → AutomationState × W
release_rule switches rule_id s w =
    let (actives, w') =
      release_tokens switches rule_id (rule_actions (find_rule rule_id s.rules)) s.active_actions
        w in
    (
      record s {
        active_actions = actives;
        condition_states = clear_rule_runtime rule_id s.condition_states;
      },
      w',
    )

-- The rules with one replaced.
unfoldable pub replace_rule : Rule → List Rule → List Rule
replace_rule replacement [] = []
replace_rule replacement (rule ∷ rules) =
    (if str_eq rule.rule_id replacement.rule_id then replacement else rule)
    ∷ replace_rule replacement rules

unfoldable pub without_rule : String → List Rule → List Rule
without_rule rule_id [] = []
without_rule rule_id (rule ∷ rules) =
    let rest = without_rule rule_id rules in
    if str_eq rule.rule_id rule_id then rest else rule ∷ rest

abbrev pub Saved : Type 0 → Type 0
Saved W = Checked String × AutomationState × W

abbrev pub failed : {W : Type 0} → String → AutomationState → W → Saved W
failed e s w = (value_error e, s, w)

-- The list that is to be persisted.
unfoldable pub candidate_rules : Rule → List Rule → Checked (List Rule)
candidate_rules replacement rules =
    if is_used replacement.rule_id rules
    then valid (replace_rule replacement rules)
    else if leb 12 (length rules)
    then value_error "automation_rule_limit"
    else valid (rules ++ replacement ∷ [])

-- What follows once the file is written.
unfoldable pub accept_rules :
    {W : Type 0} → Switches W → String → Bool → List Rule → AutomationState → W → Saved W
accept_rules switches rule_id found candidate s w =
    let (s', w') = if found then release_rule switches rule_id s w else (s, w) in
    (
      valid rule_id,
      record s' {
        rules = candidate;
        condition_states = clear_rule_runtime rule_id s'.condition_states;
      },
      w',
    )

unfoldable pub persist_candidate :
    {W : Type 0}
    → Switches W
    → (List Rule → Option String)
    → Rule
    → Checked (List Rule)
    → AutomationState
    → W
    → Saved W
persist_candidate switches persist replacement (value_error e) s w = failed e s w
persist_candidate switches persist replacement (raises e) s w = (raises e, s, w)
persist_candidate switches persist replacement (valid candidate) s w = elim (persist candidate) [
  | some e ↦ failed e s w
  | none ↦
      accept_rules switches replacement.rule_id (is_used replacement.rule_id s.rules) candidate s w
]

abbrev pub rule_with : String → Bool → Script → Rule
rule_with rule_id enabled script = record { rule_id = rule_id; enabled = enabled; script = script }

-- The rule that the two `_normalize_…` calls make of the request.
unfoldable pub normalize_rule : Site → String → String → Bool → RawScript → List Rule → Checked Rule
normalize_rule site rule_id name_id enabled script rules = do
  id ← normalize_rule_id rule_id script name_id rules
  normalized ← normalize_script site script
  pure (rule_with id enabled normalized)

unfoldable pub save_normalized :
    {W : Type 0}
    → Switches W
    → (List Rule → Option String)
    → Checked Rule
    → AutomationState
    → W
    → Saved W
save_normalized switches persist (value_error e) s w = failed e s w
save_normalized switches persist (raises e) s w = (raises e, s, w)
save_normalized switches persist (valid rule) s w =
    persist_candidate switches persist rule (candidate_rules rule s.rules) s w

unfoldable pub save_rule :
    {W : Type 0}
    → Switches W
    → (List Rule → Option String)
    → Site
    → Bool
    → String
    → String
    → Bool
    → RawScript
    → AutomationState
    → W
    → Saved W
save_rule switches persist site active rule_id name_id enabled script s w =
    if not active
    then failed "automation_profile_inactive" s w
    else save_normalized switches persist
        (normalize_rule site rule_id name_id enabled script s.rules) s w

unfoldable pub delete_found :
    {W : Type 0} → Switches W → (List Rule → Option String) → String → AutomationState → W → Saved W
delete_found switches persist rule_id s w = elim (persist (without_rule rule_id s.rules)) [
  | some e ↦ failed e s w
  | none ↦
      let (s', w') = release_rule switches rule_id s w in
      (valid rule_id, record s' { rules = without_rule rule_id s.rules }, w')
]

-- The id is without spaces around it.
unfoldable pub delete_rule :
    {W : Type 0}
    → Switches W
    → (List Rule → Option String)
    → Bool
    → String
    → AutomationState
    → W
    → Saved W
delete_rule switches persist active rule_id s w =
    if not active
    then failed "automation_profile_inactive" s w
    else if not (is_used rule_id s.rules)
    then failed "automation_rule_not_found" s w
    else delete_found switches persist rule_id s w
