-- ===== src/Automation/RuleLaws.antt =====
-- The invariant of the list of the rules, under the two changes that it takes.
use c_py_nodus_ii.Prelude.{
  ◌≤◌, ◌≡◌, refl, String, false, not, ◌&&◌, ◌||◌, List, [], ◌∷◌, ◌++◌, length, length-append, arith,
  All, leb, str_eq, eq_iff, if-elim,
}
use c_py_nodus_ii.Automation.{Rule}
use c_py_nodus_ii.Automation.Normal.{IsScript, Ensures}
use c_py_nodus_ii.Automation.RuleList.{is_used, replace_rule, without_rule, candidate_rules}

-- No id twice.
abbrev pub NoneTwice : List Rule → Type 0
NoneTwice [] = Unit
NoneTwice (rule ∷ rules) = (is_used rule.rule_id rules ≡ false) × NoneTwice rules

-- Twelve rules at most, no id twice, and scripts as `_normalize_script` leaves them.
pub record IsRuleList (rules : List Rule) : Type 0 where
  pub rule_limit : length rules ≤ 12
  pub none_twice : NoneTwice rules
  pub scripts : All (λ (rule : Rule). IsScript rule.script) rules

used-replace_rule :
    (r : Rule) (id : String) (rules : List Rule)
    → is_used id (replace_rule r rules) ≡ is_used id rules
unfolding replace_rule
used-replace_rule r id [] = refl
used-replace_rule r id (rule ∷ rules) =
    ground (arith, used-replace_rule r id rules, eq_iff rule.rule_id r.rule_id)

length-replace_rule : (r : Rule) (rules : List Rule) → length (replace_rule r rules) ≡ length rules
unfolding replace_rule
length-replace_rule r [] = refl
length-replace_rule r (rule ∷ rules) = rw (length-replace_rule r rules)

NoneTwice-replace_rule :
    (r : Rule) (rules : List Rule) → NoneTwice rules → NoneTwice (replace_rule r rules)
unfolding replace_rule
NoneTwice-replace_rule r [] h = tt
NoneTwice-replace_rule r (rule ∷ rules) (a, h) = (
  ground (
    arith,
    a,
    used-replace_rule r rule.rule_id rules,
    used-replace_rule r r.rule_id rules,
    eq_iff rule.rule_id r.rule_id,
  ),
  NoneTwice-replace_rule r rules h,
)

scripts-replace_rule :
    (P : Rule → Type 0) (r : Rule) (rules : List Rule)
    → P r
    → All P rules
    → All P (replace_rule r rules)
unfolding replace_rule
scripts-replace_rule P r [] p h = tt
scripts-replace_rule P r (rule ∷ rules) p (q, h) = (
  if-elim P (str_eq rule.rule_id r.rule_id) r rule (λ _. p) (λ _. q),
  scripts-replace_rule P r rules p h,
)

used-append :
    (id : String) (r : Rule) (rules : List Rule)
    → is_used id (rules ++ r ∷ []) ≡ (is_used id rules || str_eq r.rule_id id)
used-append id r [] = ground arith
used-append id r (rule ∷ rules) = ground (arith, used-append id r rules)

NoneTwice-append :
    (r : Rule) (rules : List Rule)
    → is_used r.rule_id rules ≡ false
    → NoneTwice rules
    → NoneTwice (rules ++ r ∷ [])
NoneTwice-append r [] a h = (refl, tt)
NoneTwice-append r (rule ∷ rules) a (b, h) = (
  ground (
    arith,
    a,
    b,
    used-append rule.rule_id r rules,
    eq_iff r.rule_id rule.rule_id,
    eq_iff rule.rule_id r.rule_id,
  ),
  NoneTwice-append r rules (ground (arith, a)) h,
)

All-append_one :
    (P : Rule → Type 0) (r : Rule) (rules : List Rule) → P r → All P rules → All P (rules ++ r ∷ [])
All-append_one P r [] p h = (p, tt)
All-append_one P r (rule ∷ rules) p (q, h) = (q, All-append_one P r rules p h)

pub candidate-IsRuleList :
    (r : Rule) (rules : List Rule)
    → IsScript r.script
    → IsRuleList rules
    → Ensures IsRuleList (candidate_rules r rules)
unfolding candidate_rules
candidate-IsRuleList r rules p h =
    if-elim (Ensures IsRuleList) (is_used r.rule_id rules) _ _
      (λ _. record {
        rule_limit = omega (arith, length-replace_rule r rules, h.rule_limit);
        none_twice = NoneTwice-replace_rule r rules h.none_twice;
        scripts = scripts-replace_rule (λ rule. IsScript rule.script) r rules p h.scripts;
      })
      (λ unused.
        if-elim (Ensures IsRuleList) (leb 12 (length rules)) _ _ (λ _. tt)
          (λ room. record {
            rule_limit = ground (arith, length-append rules (r ∷ []), room);
            none_twice = NoneTwice-append r rules unused h.none_twice;
            scripts = All-append_one (λ rule. IsScript rule.script) r rules p h.scripts;
          }))

used-without_rule :
    (id id' : String) (rules : List Rule)
    → is_used id' (without_rule id rules) ≡ (not (str_eq id id') && is_used id' rules)
unfolding without_rule
used-without_rule id id' [] = ground arith
used-without_rule id id' (rule ∷ rules) = ground (
  arith,
  used-without_rule id id' rules,
  eq_iff rule.rule_id id,
  eq_iff rule.rule_id id',
  eq_iff id id',
)

length-without_rule :
    (id : String) (rules : List Rule) → length (without_rule id rules) ≤ length rules
unfolding without_rule
length-without_rule id [] = omega arith
length-without_rule id (rule ∷ rules) = ground (arith, length-without_rule id rules)

NoneTwice-without_rule :
    (id : String) (rules : List Rule) → NoneTwice rules → NoneTwice (without_rule id rules)
unfolding without_rule
NoneTwice-without_rule id [] h = tt
NoneTwice-without_rule id (rule ∷ rules) (a, h) =
    if-elim NoneTwice (str_eq rule.rule_id id) _ _ (λ _. NoneTwice-without_rule id rules h)
      (λ _. (
        ground (arith, a, used-without_rule id rule.rule_id rules),
        NoneTwice-without_rule id rules h,
      ))

scripts-without_rule :
    (P : Rule → Type 0) (id : String) (rules : List Rule)
    → All P rules
    → All P (without_rule id rules)
unfolding without_rule
scripts-without_rule P id [] h = tt
scripts-without_rule P id (rule ∷ rules) (p, h) =
    if-elim (All P) (str_eq rule.rule_id id) _ _ (λ _. scripts-without_rule P id rules h)
      (λ _. (p, scripts-without_rule P id rules h))

pub without-IsRuleList :
    (id : String) (rules : List Rule) → IsRuleList rules → IsRuleList (without_rule id rules)
without-IsRuleList id rules h = record {
  rule_limit = omega (arith, length-without_rule id rules, h.rule_limit);
  none_twice = NoneTwice-without_rule id rules h.none_twice;
  scripts = scripts-without_rule (λ rule. IsScript rule.script) id rules h.scripts;
}
