-- ===== src/Condition/Public.antt =====
-- policy/condition: the exported constructors, which take Go values in place of the values of a policy.
use silo_pkg.Prelude.{List, [], ◌∷◌, Bool, true, false, Option}
use silo_pkg.Prelude.Bytes.{Bytes}
use silo_pkg.Prelude.Ints.{ℤ}
use silo_pkg.Condition.Keys.{Key}
use silo_pkg.Condition.Name.{
  string_equals, string_not_equals, string_equals_ignore_case, string_not_equals_ignore_case,
  numeric_equals, numeric_not_equals, numeric_less_than, numeric_less_than_equals,
  numeric_greater_than, numeric_greater_than_equals, date_equals, date_not_equals, date_less_than,
  date_less_than_equals, date_greater_than, date_greater_than_equals,
}
use silo_pkg.Condition.Value.{string_value, bool_value, ValueSet, value_add, new_value_set}
use silo_pkg.Condition.StringSets.{StringSets}
use silo_pkg.Condition.Library.{Library}
use silo_pkg.Condition.Strings.{StringFunc}
use silo_pkg.Condition.StringValues.{
  new_string_func, new_string_like_func, new_string_not_like_func,
}
use silo_pkg.Condition.Numeric.{
  Comparison, equals, not_equals, greater_than, greater_than_equals, less_than, less_than_equals,
  NumericFunc,
}
use silo_pkg.Condition.Flags.{BooleanFunc, new_boolean_func, NullFunc, new_null_func}
use silo_pkg.Condition.Dates.{DateFunc}

numeric_literal : Bytes → Bool → Comparison → Key → ℤ → NumericFunc
numeric_literal n if_exists c key value = record {
  n = record { qualifier = []; name = n };
  k = key;
  value = value;
  c = c;
  if_exists = if_exists;
}

unfoldable pub public_numeric_equals_func : Key → ℤ → NumericFunc
unfolding numeric_literal
public_numeric_equals_func key value = numeric_literal numeric_equals false equals key value

unfoldable pub public_numeric_not_equals_func : Key → ℤ → NumericFunc
unfolding numeric_literal
public_numeric_not_equals_func key value =
    numeric_literal numeric_not_equals false not_equals key value

unfoldable pub public_numeric_greater_than_func : Key → ℤ → NumericFunc
unfolding numeric_literal
public_numeric_greater_than_func key value =
    numeric_literal numeric_greater_than false greater_than key value

-- named NumericGreaterThan, as the source has it
unfoldable pub public_numeric_greater_than_if_exists_func : Key → ℤ → NumericFunc
unfolding numeric_literal
public_numeric_greater_than_if_exists_func key value =
    numeric_literal numeric_greater_than true greater_than key value

unfoldable pub public_numeric_greater_than_equals_func : Key → ℤ → NumericFunc
unfolding numeric_literal
public_numeric_greater_than_equals_func key value =
    numeric_literal numeric_greater_than_equals false greater_than_equals key value

unfoldable pub public_numeric_less_than_func : Key → ℤ → NumericFunc
unfolding numeric_literal
public_numeric_less_than_func key value =
    numeric_literal numeric_less_than false less_than key value

unfoldable pub public_numeric_less_than_equals_func : Key → ℤ → NumericFunc
unfolding numeric_literal
public_numeric_less_than_equals_func key value =
    numeric_literal numeric_less_than_equals false less_than_equals key value

-- `NewBoolFunc`
unfoldable pub public_bool_func : Key → Bool → Option BooleanFunc
unfolding new_boolean_func new_value_set
public_bool_func key value = new_boolean_func key (new_value_set (bool_value value ∷ [])) []

-- `NewNullFunc`
unfoldable pub public_null_func : Key → Bool → Option NullFunc
unfolding new_null_func new_value_set
public_null_func key value = new_null_func key (new_value_set (bool_value value ∷ [])) []

date_literal : {Time : Type 0} → Bytes → Comparison → Key → Time → DateFunc Time
date_literal n c key value = record {
  n = record { qualifier = []; name = n };
  k = key;
  value = value;
  c = c;
}

unfoldable pub public_date_equals_func : {Time : Type 0} → Key → Time → DateFunc Time
unfolding date_literal
public_date_equals_func key value = date_literal date_equals equals key value

unfoldable pub public_date_not_equals_func : {Time : Type 0} → Key → Time → DateFunc Time
unfolding date_literal
public_date_not_equals_func key value = date_literal date_not_equals not_equals key value

unfoldable pub public_date_greater_than_func : {Time : Type 0} → Key → Time → DateFunc Time
unfolding date_literal
public_date_greater_than_func key value = date_literal date_greater_than greater_than key value

unfoldable pub public_date_greater_than_equals_func : {Time : Type 0} → Key → Time → DateFunc Time
unfolding date_literal
public_date_greater_than_equals_func key value =
    date_literal date_greater_than_equals greater_than_equals key value

unfoldable pub public_date_less_than_func : {Time : Type 0} → Key → Time → DateFunc Time
unfolding date_literal
public_date_less_than_func key value = date_literal date_less_than less_than key value

unfoldable pub public_date_less_than_equals_func : {Time : Type 0} → Key → Time → DateFunc Time
unfolding date_literal
public_date_less_than_equals_func key value =
    date_literal date_less_than_equals less_than_equals key value

-- the loop over the values of the string constructors
unfoldable pub add_strings : ValueSet → List Bytes → ValueSet
unfolding value_add
add_strings vset [] = vset
add_strings vset (value ∷ values) = add_strings (value_add vset (string_value value)) values

module _ (S : StringSets) (L : Library) where
  unfoldable pub public_string_equals_func : Bytes → Key → List Bytes → Option (StringFunc S.Set)
  unfolding add_strings new_string_func
  public_string_equals_func qualifier key values =
      new_string_func S L string_equals key (add_strings [] values) qualifier false false false

  unfoldable pub public_string_not_equals_func :
      Bytes → Key → List Bytes → Option (StringFunc S.Set)
  unfolding add_strings new_string_func
  public_string_not_equals_func qualifier key values =
      new_string_func S L string_not_equals key (add_strings [] values) qualifier false false true

  unfoldable pub public_string_equals_ignore_case_func :
      Bytes → Key → List Bytes → Option (StringFunc S.Set)
  unfolding add_strings new_string_func
  public_string_equals_ignore_case_func qualifier key values =
      new_string_func S L string_equals_ignore_case key (add_strings [] values) qualifier true false
        false

  unfoldable pub public_string_not_equals_ignore_case_func :
      Bytes → Key → List Bytes → Option (StringFunc S.Set)
  unfolding add_strings new_string_func
  public_string_not_equals_ignore_case_func qualifier key values =
      new_string_func S L string_not_equals_ignore_case key (add_strings [] values) qualifier true
        false true

  unfoldable pub public_string_like_func : Bytes → Key → List Bytes → Option (StringFunc S.Set)
  unfolding add_strings new_string_like_func
  public_string_like_func qualifier key values =
      new_string_like_func S L key (add_strings [] values) qualifier

  unfoldable pub public_string_not_like_func : Bytes → Key → List Bytes → Option (StringFunc S.Set)
  unfolding add_strings new_string_not_like_func
  public_string_not_like_func qualifier key values =
      new_string_not_like_func S L key (add_strings [] values) qualifier
