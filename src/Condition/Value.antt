-- ===== src/Condition/Value.antt =====
-- policy/condition/value.go and valueset.go: the values of a condition in a policy.
use silo_pkg.Prelude.{
  List, [], ◌∷◌, Bool, true, false, not, ◌||◌, Option, none, some, if◌then◌else◌, ◌==◌, drop,
}
use silo_pkg.Prelude.Bytes.{Bytes, eqb}
use silo_pkg.Prelude.Ints.{ℤ, eqb_ℤ}
use silo_pkg.Condition.Values.{before_byte, from_byte}

-- `Value`, by its kind; `invalid_value` is the zero value of the struct.
pub data Value : Type 0 where
  string_value : Bytes → Value
  int_value : ℤ → Value
  bool_value : Bool → Value
  invalid_value : Value

-- `Value.GetString`; `none` is the error
unfoldable pub get_string : Value → Option Bytes
get_string (string_value s) = some s
get_string _ = none

-- `Value.GetInt`
unfoldable pub get_int : Value → Option ℤ
get_int (int_value i) = some i
get_int _ = none

-- `Value.GetBool`
unfoldable pub get_bool : Value → Option Bool
get_bool (bool_value b) = some b
get_bool _ = none

-- Go's `==` on values
unfoldable pub value_eq : Value → Value → Bool
unfolding eqb
value_eq (string_value s) (string_value t) = eqb s t
value_eq (int_value i) (int_value j) = eqb_ℤ i j
value_eq (bool_value true) (bool_value b) = b
value_eq (bool_value false) (bool_value b) = not b
value_eq invalid_value invalid_value = true
value_eq _ _ = false

-- `ValueSet`: the values in the order in which a loop meets them
abbrev pub ValueSet : Type 0
ValueSet = List Value

unfoldable pub value_mem : Value → ValueSet → Bool
unfolding value_eq
value_mem value [] = false
value_mem value (v ∷ set) = value_eq v value || value_mem value set

-- `ValueSet.Add`
unfoldable pub value_add : ValueSet → Value → ValueSet
unfolding value_mem
value_add set value = if value_mem value set then set else value ∷ set

values_into : ValueSet → List Value → ValueSet
unfolding value_add
values_into set [] = set
values_into set (v ∷ values) = values_into (value_add set v) values

-- `NewValueSet`
unfoldable pub new_value_set : List Value → ValueSet
unfolding values_into
new_value_set values = values_into [] values

trim_slash : Bytes → Bytes
trim_slash [] = []
trim_slash (c ∷ path) = if c == b'/' then path else c ∷ path

-- `path2BucketAndObject`
unfoldable pub path_to_bucket_and_object : Bytes → Bytes × Bytes
unfolding trim_slash before_byte from_byte
path_to_bucket_and_object path =
    let rest = trim_slash path in (before_byte b'/' rest, drop 1 (from_byte b'/' rest))

-- `valuesToStringSlice`; `none` is the error
unfoldable pub values_to_string_slice : ValueSet → Option (List Bytes)
unfolding get_string
values_to_string_slice [] = some []
values_to_string_slice (v ∷ values) = elim (get_string v) [
  | none ↦ none
  | some s ↦ elim (values_to_string_slice values) [ none ↦ none | some ss ↦ some (s ∷ ss) ]
]
