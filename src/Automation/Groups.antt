-- ===== src/Automation/Groups.antt =====
-- `_rule_matches` against its meaning: a disjunction of conjunctions.
use c_py_nodus_ii.Prelude.{
  ℕ, ◌≡◌, Bool, true, false, ◌&&◌, ◌||◌, Option, none, some, List, [], ◌∷◌, arith, if◌then◌else◌,
}
use c_py_nodus_ii.Prelude.Int.{ℤ}
use c_py_nodus_ii.Prelude.Dict.{Dict}
use c_py_nodus_ii.Automation.{LocalTime, Rule}
use c_py_nodus_ii.Automation.Conditions.{
  evaluate, is_empty, all, build_groups, any_group, rule_matches,
}

-- Only conditions that hold, up to the next "or" or the end.
unfoldable pub holds_to_or : List (Option Bool) → Bool
holds_to_or [] = true
holds_to_or (none ∷ rs) = true
holds_to_or (some b ∷ rs) = b && holds_to_or rs

-- One condition at least, and only conditions that hold, up to the next "or" or the end.
unfoldable pub group_holds : List (Option Bool) → Bool
group_holds [] = false
group_holds (none ∷ rs) = false
group_holds (some b ∷ rs) = b && holds_to_or rs

-- Right after some "or", a group begins that holds.
unfoldable pub holds_after_or : List (Option Bool) → Bool
holds_after_or [] = false
holds_after_or (none ∷ rs) = group_holds rs || holds_after_or rs
holds_after_or (some b ∷ rs) = holds_after_or rs

any_group-build_groups :
    (rs : List (Option Bool)) (group : List Bool) (closed : List (List Bool))
    → any_group (build_groups rs group closed) ≡ (
        any_group closed
        || (if is_empty group then group_holds rs else all group && holds_to_or rs)
        || holds_after_or rs)
unfolding any_group build_groups group_holds holds_to_or holds_after_or
any_group-build_groups [] [] closed = ground arith
any_group-build_groups [] (b ∷ group) closed = ground arith
any_group-build_groups (none ∷ rs) [] closed = ground (arith, any_group-build_groups rs [] closed)
any_group-build_groups (none ∷ rs) (b ∷ group) closed =
    ground (arith, any_group-build_groups rs [] ((b ∷ group) ∷ closed))
any_group-build_groups (some c ∷ rs) [] closed =
    ground (arith, any_group-build_groups rs (c ∷ []) closed)
any_group-build_groups (some c ∷ rs) (b ∷ group) closed =
    ground (arith, any_group-build_groups rs (c ∷ b ∷ group) closed)

-- A rule matches exactly when, among the results of its conditions, a group of one condition or
-- more holds as a whole: it begins at the first condition or right after an "or", and it ends
-- before the next "or" or with the last condition.
pub rule_matches_groups :
    (localtime : ℕ → LocalTime) (rule : Rule) (now : ℕ) (metrics : Dict (Option ℤ))
    (states : Dict Bool)
    → let (results, states') =
        evaluate localtime rule.rule_id 0 rule.script.conditions now metrics states in
      rule_matches localtime rule now metrics states
      ≡ (group_holds results || holds_after_or results, states')
unfolding rule_matches any_group
rule_matches_groups localtime rule now metrics states =
    let results = (evaluate localtime rule.rule_id 0 rule.script.conditions now metrics states).0 in
    ground (arith, any_group-build_groups results [] [])
