-- ===== src/Condition/Flags.antt =====
-- policy/condition/boolfunc.go and nullfunc.go: the condition functions Bool and Null.
use silo_pkg.Prelude.{
  List, [], ◌∷◌, Bool, true, false, not, Option, none, some, if◌then◌else◌, is_empty, any,
}
use silo_pkg.Prelude.Bytes.{Bytes, eqb, codes}
use silo_pkg.Condition.Names.Keys.{aws_secure_transport}
use silo_pkg.Condition.Values.{Values}
use silo_pkg.Condition.Keys.{Key, get_values_by_key, key_is}
use silo_pkg.Condition.Value.{string_value, int_value, bool_value, invalid_value, ValueSet}

-- strconv.ParseBool
unfoldable pub parse_bool : Bytes → Option Bool
unfolding eqb
parse_bool s =
    if any (eqb s)
      (codes "1" ∷ codes "t" ∷ codes "T" ∷ codes "true" ∷ codes "TRUE" ∷ codes "True" ∷ [])
    then some true
    else if any (eqb s)
        (codes "0" ∷ codes "f" ∷ codes "F" ∷ codes "false" ∷ codes "FALSE" ∷ codes "False" ∷ [])
    then some false
    else none

-- strconv.FormatBool
unfoldable pub format_bool : Bool → Bytes
format_bool b = if b then codes "true" else codes "false"

-- `booleanFunc`
pub record BooleanFunc : Type 0 where
  pub k : Key
  pub value : Bytes

unfoldable pub first_is : Bytes → List Bytes → Bool
unfolding eqb
first_is value [] = false
first_is value (v ∷ rvalues) = eqb value v

-- `booleanFunc.evaluate`
unfoldable pub boolean_evaluate : BooleanFunc → Values → Bool
unfolding first_is
boolean_evaluate f values = first_is f.value (get_values_by_key values f.k)

-- the text itself, if it reads as a Boolean
unfoldable pub bool_text : Bytes → Option Bool → Option Bytes
bool_text s none = none
bool_text s (some b) = some s

-- the loop of `newBooleanFunc` over its one value, and the text of that value
unfoldable pub boolean_text : ValueSet → Option Bytes
unfolding bool_text format_bool
boolean_text [] = none
boolean_text (bool_value b ∷ []) = some (format_bool b)
boolean_text (string_value s ∷ []) = bool_text s (parse_bool s)
boolean_text (int_value i ∷ []) = none
boolean_text (invalid_value ∷ []) = none
boolean_text (v ∷ w ∷ values) = none

unfoldable pub boolean_with : Key → Option Bytes → Option BooleanFunc
boolean_with key none = none
boolean_with key (some text) = some (record { k = key; value = text })

-- `newBooleanFunc`; `none` is the error
unfoldable pub new_boolean_func : Key → ValueSet → Bytes → Option BooleanFunc
unfolding key_is boolean_text boolean_with
new_boolean_func key values qualifier =
    if not (key_is key aws_secure_transport) then none else boolean_with key (boolean_text values)

-- `nullFunc`
pub record NullFunc : Type 0 where
  pub k : Key
  pub value : Bool

-- `nullFunc.evaluate`
unfoldable pub null_evaluate : NullFunc → Values → Bool
null_evaluate f values =
    let rvalues = get_values_by_key values f.k in
    if f.value then is_empty rvalues else not (is_empty rvalues)

-- the loop of `newNullFunc` over its one value
unfoldable pub null_value : ValueSet → Option Bool
unfolding parse_bool
null_value [] = none
null_value (bool_value b ∷ []) = some b
null_value (string_value s ∷ []) = parse_bool s
null_value (int_value i ∷ []) = none
null_value (invalid_value ∷ []) = none
null_value (v ∷ w ∷ values) = none

unfoldable pub null_with : Key → Option Bool → Option NullFunc
null_with key none = none
null_with key (some value) = some (record { k = key; value = value })

-- `newNullFunc`
unfoldable pub new_null_func : Key → ValueSet → Bytes → Option NullFunc
unfolding null_value null_with
new_null_func key values qualifier = null_with key (null_value values)
