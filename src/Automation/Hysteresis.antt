-- ===== src/Automation/Hysteresis.antt =====
-- The hysteresis of `_sensor_matches`.
use c_py_nodus_ii.Prelude.{
  ◌≡◌, refl, ◌∙◌, String, Bool, true, false, List, [], ◌∷◌, arith, All, eq_iff,
}
use c_py_nodus_ii.Prelude.Int.{ℤ, ◌+ℤ◌, ◌-ℤ◌, ◌≤ℤ◌, ◌<ℤ◌, +ℤ_parts, -ℤ_parts}
use c_py_nodus_ii.Prelude.Dict.{Dict, lookup, insert, lookup-insert}
use c_py_nodus_ii.Automation.{
  Operator, greater, greater_equal, less, less_equal, equal, not_equal, SensorCondition,
}
use c_py_nodus_ii.Automation.Conditions.{
  compare, held_threshold, compare_threshold, or_false, sensor_value_matches,
}

-- The values that neither start a condition nor end it: "==" and "!=" have none.
unfoldable pub InBandOf : Operator → ℤ → ℤ → ℤ → Type 0
InBandOf greater threshold hyst v = (threshold -ℤ hyst <ℤ v) × (v ≤ℤ threshold)
InBandOf greater_equal threshold hyst v = (threshold -ℤ hyst ≤ℤ v) × (v <ℤ threshold)
InBandOf less threshold hyst v = (v <ℤ threshold +ℤ hyst) × (threshold ≤ℤ v)
InBandOf less_equal threshold hyst v = (v ≤ℤ threshold +ℤ hyst) × (threshold <ℤ v)
InBandOf op threshold hyst v = ⊥

abbrev pub InBand : SensorCondition → ℤ → Type 0
InBand c v = InBandOf c.op c.value c.hyst v

-- The results of a condition over the values of some evaluations, one after the other.
unfoldable pub results : String → SensorCondition → List ℤ → Dict Bool → List Bool
results key c [] states = []
results key c (v ∷ vs) states =
    let (matched, states') = sensor_value_matches key c v states in
    matched ∷ results key c vs states'

threshold_in_band :
    (op : Operator) (threshold hyst v : ℤ) (previous : Bool) (c : SensorCondition)
    → c.op ≡ op
    → c.value ≡ threshold
    → c.hyst ≡ hyst
    → InBandOf op threshold hyst v
    → compare v op (compare_threshold previous c) ≡ previous
unfolding compare compare_threshold held_threshold InBandOf
threshold_in_band greater threshold hyst v true c o t e h = ground (arith, -ℤ_parts threshold hyst)
threshold_in_band greater threshold hyst v false c o t e h = ground (arith, -ℤ_parts threshold hyst)
threshold_in_band greater_equal threshold hyst v true c o t e h =
    ground (arith, -ℤ_parts threshold hyst)
threshold_in_band greater_equal threshold hyst v false c o t e h =
    ground (arith, -ℤ_parts threshold hyst)
threshold_in_band less threshold hyst v true c o t e h = ground (arith, +ℤ_parts threshold hyst)
threshold_in_band less threshold hyst v false c o t e h = ground (arith, +ℤ_parts threshold hyst)
threshold_in_band less_equal threshold hyst v true c o t e h =
    ground (arith, +ℤ_parts threshold hyst)
threshold_in_band less_equal threshold hyst v false c o t e h =
    ground (arith, +ℤ_parts threshold hyst)
threshold_in_band equal threshold hyst v previous c o t e h = elim h [ ]
threshold_in_band not_equal threshold hyst v previous c o t e h = elim h [ ]

results-InBand :
    (key : String) (c : SensorCondition) (previous : Bool) (vs : List ℤ) (states : Dict Bool)
    → or_false (lookup key states) ≡ previous
    → All (InBand c) vs
    → All (λ r. r ≡ previous) (results key c vs states)
unfolding results sensor_value_matches
results-InBand key c previous [] states e h = tt
results-InBand key c previous (v ∷ vs) states e h =
    let matched = compare v c.op (compare_threshold (or_false (lookup key states)) c) in
    let same =
      threshold_in_band c.op c.value c.hyst v (or_false (lookup key states)) c refl refl refl h.0 in
    (
      same ∙ e,
      results-InBand key c previous vs (insert key matched states)
          (ground (arith, lookup-insert key key matched states, eq_iff key key, same, e)) h.1,
    )

-- As long as the values stay in the band of a condition, from its threshold up to its hysteresis
-- away from it, every evaluation of the condition gives what the last evaluation before them gave.
pub sensor_holds-InBand :
    (key : String) (c : SensorCondition) (vs : List ℤ) (states : Dict Bool)
    → All (InBand c) vs
    → All (λ r. r ≡ or_false (lookup key states)) (results key c vs states)
sensor_holds-InBand key c vs states h =
    results-InBand key c (or_false (lookup key states)) vs states refl h
