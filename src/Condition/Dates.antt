-- ===== src/Condition/Dates.antt =====
-- policy/condition/datefunc.go: the condition functions on times.
use silo_pkg.Prelude.{List, [], ◌∷◌, Bool, false, not, ◌||◌, Option, none, some}
use silo_pkg.Prelude.Bytes.{Bytes}
use silo_pkg.Condition.Values.{Values}
use silo_pkg.Condition.Keys.{Key, get_values_by_key}
use silo_pkg.Condition.Name.{
  Name, date_equals, date_not_equals, date_less_than, date_less_than_equals, date_greater_than,
  date_greater_than_equals,
}
use silo_pkg.Condition.Value.{string_value, int_value, bool_value, invalid_value, ValueSet}
use silo_pkg.Condition.Numeric.{
  Comparison, equals, not_equals, greater_than, greater_than_equals, less_than, less_than_equals,
}
use silo_pkg.Condition.Library.{Library}

-- `dateFunc`
pub record DateFunc (Time : Type 0) : Type 0 where
  pub n : Name
  pub k : Key
  pub value : Time
  pub c : Comparison

module _ (L : Library) where
  -- the switch of `evaluate`
  unfoldable pub compare_times : Comparison → L.Time → L.Time → Bool
  compare_times equals t value = L.time_equal value t
  compare_times not_equals t value = not (L.time_equal value t)
  compare_times greater_than t value = L.after t value
  compare_times greater_than_equals t value = L.after t value || L.time_equal t value
  compare_times less_than t value = L.before t value
  compare_times less_than_equals t value = L.before t value || L.time_equal t value

  time_test : DateFunc L.Time → Option L.Time → Bool
  unfolding compare_times
  time_test f none = false
  time_test f (some t) = compare_times f.c t f.value

  first_time_test : DateFunc L.Time → List Bytes → Bool
  unfolding time_test
  first_time_test f [] = false
  first_time_test f (v ∷ rvalues) = time_test f (L.parse_time v)

  -- `dateFunc.evaluate`
  unfoldable pub date_evaluate : DateFunc L.Time → Values → Bool
  unfolding first_time_test
  date_evaluate f values = first_time_test f (get_values_by_key values f.k)

  -- `valueToTime`; `none` is the error
  unfoldable pub value_to_time : ValueSet → Option L.Time
  value_to_time [] = none
  value_to_time (string_value s ∷ []) = L.parse_time s
  value_to_time (int_value i ∷ []) = none
  value_to_time (bool_value b ∷ []) = none
  value_to_time (invalid_value ∷ []) = none
  value_to_time (v ∷ w ∷ values) = none

  date_with : Bytes → Key → Comparison → Option L.Time → Option (DateFunc L.Time)
  date_with n key cond none = none
  date_with n key cond (some v) =
      some (record { n = record { qualifier = []; name = n }; k = key; value = v; c = cond })

  -- `newDateFunc`
  unfoldable pub new_date_func : Bytes → Key → ValueSet → Comparison → Option (DateFunc L.Time)
  unfolding date_with value_to_time
  new_date_func n key values cond = date_with n key cond (value_to_time values)

  -- `newDateEqualsFunc` and its siblings; the qualifier is not used
  unfoldable pub new_date_equals_func : Key → ValueSet → Bytes → Option (DateFunc L.Time)
  unfolding new_date_func
  new_date_equals_func key values qualifier = new_date_func date_equals key values equals

  unfoldable pub new_date_not_equals_func : Key → ValueSet → Bytes → Option (DateFunc L.Time)
  unfolding new_date_func
  new_date_not_equals_func key values qualifier =
      new_date_func date_not_equals key values not_equals

  unfoldable pub new_date_greater_than_func : Key → ValueSet → Bytes → Option (DateFunc L.Time)
  unfolding new_date_func
  new_date_greater_than_func key values qualifier =
      new_date_func date_greater_than key values greater_than

  unfoldable pub new_date_greater_than_equals_func :
      Key → ValueSet → Bytes → Option (DateFunc L.Time)
  unfolding new_date_func
  new_date_greater_than_equals_func key values qualifier =
      new_date_func date_greater_than_equals key values greater_than_equals

  unfoldable pub new_date_less_than_func : Key → ValueSet → Bytes → Option (DateFunc L.Time)
  unfolding new_date_func
  new_date_less_than_func key values qualifier = new_date_func date_less_than key values less_than

  unfoldable pub new_date_less_than_equals_func : Key → ValueSet → Bytes → Option (DateFunc L.Time)
  unfolding new_date_func
  new_date_less_than_equals_func key values qualifier =
      new_date_func date_less_than_equals key values less_than_equals
