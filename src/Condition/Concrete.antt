-- ===== src/Condition/Concrete.antt =====
-- policy/condition/func.go: the condition functions of all kinds, the table of their constructors, and
-- the nested map that package encoding/json reads and writes.
use silo_pkg.Prelude.{List, [], ◌∷◌, Bool, not, Option, none, some, Outcome, ret, if◌then◌else◌}
use mathlib.Core.Option
use silo_pkg.Prelude.Bytes.{Bytes, eqb}
use silo_pkg.Condition.Values.{Values}
use silo_pkg.Condition.Keys.{Key, key_is_valid}
use silo_pkg.Condition.Name.{
  Name, string_equals, string_not_equals, string_equals_ignore_case, string_not_equals_ignore_case,
  string_like, string_not_like, binary_equals, ip_address, not_ip_address, null, boolean,
  numeric_equals, numeric_not_equals, numeric_less_than, numeric_less_than_equals,
  numeric_greater_than, numeric_greater_than_if_exists, numeric_greater_than_equals, date_equals,
  date_not_equals, date_less_than, date_less_than_equals, date_greater_than,
  date_greater_than_equals,
}
use silo_pkg.Condition.Value.{string_value, int_value, bool_value, ValueSet, value_add}
use silo_pkg.Condition.Functions.{Function}
use silo_pkg.Condition.StringSets.{StringSets}
use silo_pkg.Condition.Library.{Library}
use silo_pkg.Condition.Strings.{StringFunc, string_evaluate, like_evaluate}
use silo_pkg.Condition.StringValues.{
  new_string_equals_func, new_string_not_equals_func, new_string_equals_ignore_case_func,
  new_string_not_equals_ignore_case_func, new_binary_equals_func, new_string_like_func,
  new_string_not_like_func,
}
use silo_pkg.Condition.Numeric.{
  NumericFunc, numeric_evaluate, new_numeric_equals_func, new_numeric_not_equals_func,
  new_numeric_greater_than_func, new_numeric_greater_than_if_exists_func,
  new_numeric_greater_than_equals_func, new_numeric_less_than_func,
  new_numeric_less_than_equals_func,
}
use silo_pkg.Condition.Flags.{
  BooleanFunc, boolean_evaluate, new_boolean_func, NullFunc, null_evaluate, new_null_func,
}
use silo_pkg.Condition.Dates.{
  DateFunc, date_evaluate, new_date_equals_func, new_date_not_equals_func,
  new_date_greater_than_func, new_date_greater_than_equals_func, new_date_less_than_func,
  new_date_less_than_equals_func,
}
use silo_pkg.Condition.Addresses.{
  IpAddrFunc, ip_evaluate, new_ip_address_func, new_not_ip_address_func,
}

-- The types that implement the interface `Function`.
pub data Concrete (S : StringSets) (L : Library) : Type 0 where
  string_func : StringFunc S.Set → Concrete S L
  like_func : StringFunc S.Set → Concrete S L
  ip_func : IpAddrFunc L.IpNet → Concrete S L
  null_func : NullFunc → Concrete S L
  boolean_func : BooleanFunc → Concrete S L
  numeric_func : NumericFunc → Concrete S L
  date_func : DateFunc L.Time → Concrete S L

module _ (S : StringSets) (L : Library) where
  -- the methods `evaluate`, `key` and `name`
  unfoldable pub concrete_evaluate : Concrete S L → Values → Outcome Bool
  concrete_evaluate (string_func f) values = string_evaluate S L.to_lower f values
  concrete_evaluate (like_func f) values = like_evaluate S f values
  concrete_evaluate (ip_func f) values = ret (ip_evaluate L f values)
  concrete_evaluate (null_func f) values = ret (null_evaluate f values)
  concrete_evaluate (boolean_func f) values = ret (boolean_evaluate f values)
  concrete_evaluate (numeric_func f) values = ret (numeric_evaluate f values)
  concrete_evaluate (date_func f) values = ret (date_evaluate L f values)

  unfoldable pub concrete_key : Concrete S L → Key
  concrete_key (string_func f) = f.k
  concrete_key (like_func f) = f.k
  concrete_key (ip_func f) = f.k
  concrete_key (null_func f) = f.k
  concrete_key (boolean_func f) = f.k
  concrete_key (numeric_func f) = f.k
  concrete_key (date_func f) = f.k

  unfoldable pub concrete_name : Concrete S L → Name
  concrete_name (string_func f) = f.n
  concrete_name (like_func f) = f.n
  concrete_name (ip_func f) = f.n
  concrete_name (null_func f) = record { qualifier = []; name = null }
  concrete_name (boolean_func f) = record { qualifier = []; name = boolean }
  concrete_name (numeric_func f) = f.n
  concrete_name (date_func f) = f.n

  -- a condition function behind the interface, with its text
  unfoldable pub as_function : (Concrete S L → Bytes) → Concrete S L → Function
  unfolding concrete_evaluate concrete_key
  as_function text f = record {
    evaluate = concrete_evaluate f;
    key = concrete_key f;
    text = text f;
  }

  string_values_into : Bool → ValueSet → List Bytes → ValueSet
  unfolding value_add
  string_values_into base64 values [] = values
  string_values_into base64 values (value ∷ rest) =
      string_values_into base64
        (value_add values (string_value (if base64 then L.encode_base64 value else value))) rest

  net_values_into : ValueSet → List L.IpNet → ValueSet
  unfolding value_add
  net_values_into values [] = values
  net_values_into values (net ∷ nets) =
      net_values_into (value_add values (string_value (L.net_string net))) nets

  -- the values of `toMap`
  unfoldable pub map_values : Concrete S L → ValueSet
  unfolding string_values_into net_values_into
  map_values (string_func f) = string_values_into f.base64 [] (S.to_slice f.values)
  map_values (like_func f) = string_values_into f.base64 [] (S.to_slice f.values)
  map_values (ip_func f) = net_values_into [] f.values
  map_values (null_func f) = bool_value f.value ∷ []
  map_values (boolean_func f) = string_value f.value ∷ []
  map_values (numeric_func f) = int_value f.value ∷ []
  map_values (date_func f) = string_value (L.format_time f.value) ∷ []

  -- `toMap`: the entries of the map
  unfoldable pub to_map : Concrete S L → List (Key × ValueSet)
  unfolding key_is_valid concrete_key map_values
  to_map f = if not (key_is_valid (concrete_key f)) then [] else (concrete_key f, map_values f) ∷ []

  abbrev Constructor : Type 0
  Constructor = Key → ValueSet → Bytes → Option (Concrete S L)

  -- a constructor of one of the types
  abbrev builds :
      {A : Type 0} → (A → Concrete S L) → (Key → ValueSet → Bytes → Option A) → Constructor
  builds wrap new key values qualifier = Option.map wrap (new key values qualifier)

  -- `conditionFuncMap`
  unfoldable pub condition_func_map : List (Bytes × Constructor)
  condition_func_map =
      (string_equals, builds string_func (new_string_equals_func S L))
      ∷ (string_not_equals, builds string_func (new_string_not_equals_func S L))
      ∷ (string_equals_ignore_case, builds string_func (new_string_equals_ignore_case_func S L))
      ∷ (
        string_not_equals_ignore_case,
        builds string_func (new_string_not_equals_ignore_case_func S L),
      )
      ∷ (binary_equals, builds string_func (new_binary_equals_func S L))
      ∷ (string_like, builds like_func (new_string_like_func S L))
      ∷ (string_not_like, builds like_func (new_string_not_like_func S L))
      ∷ (ip_address, builds ip_func (new_ip_address_func L))
      ∷ (not_ip_address, builds ip_func (new_not_ip_address_func L))
      ∷ (null, builds null_func new_null_func)
      ∷ (boolean, builds boolean_func new_boolean_func)
      ∷ (numeric_equals, builds numeric_func new_numeric_equals_func)
      ∷ (numeric_not_equals, builds numeric_func new_numeric_not_equals_func)
      ∷ (numeric_less_than, builds numeric_func new_numeric_less_than_func)
      ∷ (numeric_less_than_equals, builds numeric_func new_numeric_less_than_equals_func)
      ∷ (numeric_greater_than, builds numeric_func new_numeric_greater_than_func)
      ∷ (
        numeric_greater_than_if_exists,
        builds numeric_func new_numeric_greater_than_if_exists_func,
      )
      ∷ (numeric_greater_than_equals, builds numeric_func new_numeric_greater_than_equals_func)
      ∷ (date_equals, builds date_func (new_date_equals_func L))
      ∷ (date_not_equals, builds date_func (new_date_not_equals_func L))
      ∷ (date_less_than, builds date_func (new_date_less_than_func L))
      ∷ (date_less_than_equals, builds date_func (new_date_less_than_equals_func L))
      ∷ (date_greater_than, builds date_func (new_date_greater_than_func L))
      ∷ (date_greater_than_equals, builds date_func (new_date_greater_than_equals_func L))
      ∷ []

  unfoldable pub constructor_at : List (Bytes × Constructor) → Bytes → Option Constructor
  unfolding eqb
  constructor_at [] name = none
  constructor_at ((n, new) ∷ table) name =
      if eqb n name then some new else constructor_at table name

  -- the call of the constructor; a name that the table does not hold is an error
  unfoldable pub call : Option Constructor → Key → ValueSet → Bytes → Option (Concrete S L)
  call none key values qualifier = none
  call (some new) key values qualifier = new key values qualifier

  -- the lookup and the call in the loop of `UnmarshalJSON`
  unfoldable pub build : Name → Key → ValueSet → Option (Concrete S L)
  unfolding call constructor_at condition_func_map
  build n key values = call (constructor_at condition_func_map n.name) key values n.qualifier
