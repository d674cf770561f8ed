-- ===== src/Condition/Numeric.antt =====
-- policy/condition/numericfunc.go: the condition functions on numbers.
use silo_pkg.Prelude.{List, [], ◌∷◌, Bool, true, false, not, Option, none, some}
use silo_pkg.Prelude.Bytes.{Bytes}
use silo_pkg.Prelude.Ints.{ℤ, ltb_ℤ, leb_ℤ, eqb_ℤ, atoi}
use silo_pkg.Condition.Values.{Values}
use silo_pkg.Condition.Keys.{Key, get_values_by_key}
use silo_pkg.Condition.Name.{
  Name, numeric_equals, numeric_not_equals, numeric_less_than, numeric_less_than_equals,
  numeric_greater_than, numeric_greater_than_if_exists, numeric_greater_than_equals,
}
use silo_pkg.Condition.Value.{string_value, int_value, bool_value, invalid_value, ValueSet}

-- `condition` of func.go
pub data Comparison : Type 0 where
  equals : Comparison
  not_equals : Comparison
  greater_than : Comparison
  greater_than_equals : Comparison
  less_than : Comparison
  less_than_equals : Comparison

-- `numericFunc`
pub record NumericFunc : Type 0 where
  pub n : Name
  pub k : Key
  pub value : ℤ
  pub c : Comparison
  pub if_exists : Bool

-- the switch of `evaluate`, on the number of the request and that of the condition
unfoldable pub compare : Comparison → ℤ → ℤ → Bool
compare equals rv value = eqb_ℤ rv value
compare not_equals rv value = not (eqb_ℤ rv value)
compare greater_than rv value = ltb_ℤ value rv
compare greater_than_equals rv value = leb_ℤ value rv
compare less_than rv value = ltb_ℤ rv value
compare less_than_equals rv value = leb_ℤ rv value

-- A value that is no number meets no condition.
unfoldable pub number_test : NumericFunc → Option ℤ → Bool
unfolding compare
number_test f none = false
number_test f (some rv) = compare f.c rv f.value

unfoldable pub first_number_test : NumericFunc → List Bytes → Bool
unfolding number_test
first_number_test f [] = f.if_exists
first_number_test f (v ∷ rvalues) = number_test f (atoi v)

-- `numericFunc.evaluate`
unfoldable pub numeric_evaluate : NumericFunc → Values → Bool
unfolding first_number_test
numeric_evaluate f values = first_number_test f (get_values_by_key values f.k)

-- `valueToInt`; `none` is the error
unfoldable pub value_to_int : ValueSet → Option ℤ
unfolding atoi
value_to_int [] = none
value_to_int (int_value i ∷ []) = some i
value_to_int (string_value s ∷ []) = atoi s
value_to_int (bool_value b ∷ []) = none
value_to_int (invalid_value ∷ []) = none
value_to_int (v ∷ w ∷ values) = none

unfoldable pub numeric_with : Bytes → Bool → Key → Comparison → Option ℤ → Option NumericFunc
numeric_with n if_exists key cond none = none
numeric_with n if_exists key cond (some v) = some (record {
  n = record { qualifier = []; name = n };
  k = key;
  value = v;
  c = cond;
  if_exists = if_exists;
})

-- `newNumericFunc`
unfoldable pub new_numeric_func : Bytes → Bool → Key → ValueSet → Comparison → Option NumericFunc
unfolding numeric_with value_to_int
new_numeric_func n if_exists key values cond =
    numeric_with n if_exists key cond (value_to_int values)

-- `newNumericEqualsFunc` and its siblings; the qualifier is not used
unfoldable pub new_numeric_equals_func : Key → ValueSet → Bytes → Option NumericFunc
unfolding new_numeric_func
new_numeric_equals_func key values qualifier =
    new_numeric_func numeric_equals false key values equals

unfoldable pub new_numeric_not_equals_func : Key → ValueSet → Bytes → Option NumericFunc
unfolding new_numeric_func
new_numeric_not_equals_func key values qualifier =
    new_numeric_func numeric_not_equals false key values not_equals

unfoldable pub new_numeric_greater_than_func : Key → ValueSet → Bytes → Option NumericFunc
unfolding new_numeric_func
new_numeric_greater_than_func key values qualifier =
    new_numeric_func numeric_greater_than false key values greater_than

unfoldable pub new_numeric_greater_than_if_exists_func : Key → ValueSet → Bytes → Option NumericFunc
unfolding new_numeric_func
new_numeric_greater_than_if_exists_func key values qualifier =
    new_numeric_func numeric_greater_than_if_exists true key values greater_than

unfoldable pub new_numeric_greater_than_equals_func : Key → ValueSet → Bytes → Option NumericFunc
unfolding new_numeric_func
new_numeric_greater_than_equals_func key values qualifier =
    new_numeric_func numeric_greater_than_equals false key values greater_than_equals

unfoldable pub new_numeric_less_than_func : Key → ValueSet → Bytes → Option NumericFunc
unfolding new_numeric_func
new_numeric_less_than_func key values qualifier =
    new_numeric_func numeric_less_than false key values less_than

unfoldable pub new_numeric_less_than_equals_func : Key → ValueSet → Bytes → Option NumericFunc
unfolding new_numeric_func
new_numeric_less_than_equals_func key values qualifier =
    new_numeric_func numeric_less_than_equals false key values less_than_equals
