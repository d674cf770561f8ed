-- ===== src/Condition/ValueExamples.antt =====
-- policy/condition: the theorems on numbers, names, keys and maps at concrete inputs.
use silo_pkg.Prelude.{[], ◌∷◌, Bool, true, false, ◌≡◌, refl, ◌↔◌, none, some, All, map, ret}
use silo_pkg.Prelude.Bytes.{Bytes, codes, eqb}
use mathlib.Core.List.{List, Permᴰ}
use silo_pkg.Prelude.Ints.{pos, atoi}
use silo_pkg.Condition.Names.Keys.{s3_max_keys, aws_secure_transport}
use silo_pkg.Condition.Values.{Values}
use silo_pkg.Condition.Keys.{to_key, key_string, get_values_by_key, key_is_valid}
use silo_pkg.Condition.Name.{
  Name, numeric_less_than, boolean, string_like, for_any_value, name_string, name_is_valid,
  parse_name,
}
use silo_pkg.Condition.Value.{string_value, int_value}
use silo_pkg.Condition.Library.{Library}
use silo_pkg.Condition.Numeric.{
  NumericFunc, less_than, numeric_evaluate, new_numeric_less_than_func,
}
use silo_pkg.Condition.Flags.{new_boolean_func, parse_bool}
use silo_pkg.Condition.NumericLaws.{
  Accepts, numeric_evaluate_lem, opposed, numeric_evaluate-opposed,
}
use silo_pkg.Condition.TextForms.{parse_name-name_string}
use silo_pkg.Condition.ListSets.{list_sets, list_set_laws}
use silo_pkg.Condition.Concrete.{
  Concrete, to_map, map_values, boolean_func, numeric_func, build, concrete_key, concrete_name,
  as_function, concrete_evaluate,
}
use silo_pkg.Condition.Functions.{evaluate_all}
use silo_pkg.Condition.Evaluation.{evaluate_all-ret}
use silo_pkg.Condition.Json.{Nested, marshal_functions, unmarshal_functions}
use silo_pkg.Condition.JsonRoundTrip.{IsBuilt, unmarshal_functions-marshal_functions}

-- Times and addresses are texts here, and a net holds its own address.
abbrev texts : Library
texts = record {
  to_lower = λ s. s;
  decode_base64 = some;
  encode_base64 = λ s. s;
  check_valid_bucket_name = λ s. true;
  Time = Bytes;
  parse_time = some;
  format_time = λ s. s;
  time_equal = eqb;
  after = λ s t. false;
  before = λ s t. false;
  Ip = Bytes;
  IpNet = Bytes;
  parse_ip = some;
  parse_cidr = some;
  net_contains = eqb;
  net_string = λ s. s;
}

abbrev below_ten : NumericFunc
below_ten = record {
  n = record { qualifier = []; name = numeric_less_than };
  k = to_key s3_max_keys;
  value = pos 10;
  c = less_than;
  if_exists = false;
}

abbrev asks : Bytes → Values
asks v = (codes "max-keys", v ∷ []) ∷ []

negative_is_below : numeric_evaluate below_ten (asks (codes "-3")) ≡ true
unfolding numeric_evaluate get_values_by_key to_key atoi
negative_is_below = refl

numeric_evaluate_lem_example :
    (numeric_evaluate below_ten (asks (codes "-3")) ≡ true)
    ↔ Accepts below_ten (get_values_by_key (asks (codes "-3")) (to_key s3_max_keys))
numeric_evaluate_lem_example = numeric_evaluate_lem below_ten (asks (codes "-3"))

numeric_evaluate-opposed_example : (atoi (codes "ten") ≡ none) ↔ (
    (numeric_evaluate below_ten (asks (codes "ten")) ≡ false)
    × (numeric_evaluate (opposed below_ten) (asks (codes "ten")) ≡ false))
unfolding get_values_by_key to_key
numeric_evaluate-opposed_example =
    numeric_evaluate-opposed below_ten (asks (codes "ten")) (codes "ten") [] refl

abbrev any_like : Name
any_like = record { qualifier = for_any_value; name = string_like }

parse_name-name_string_example : parse_name (name_string any_like) ≡ some any_like
unfolding name_is_valid
parse_name-name_string_example = parse_name-name_string any_like refl

abbrev numeric_part : Concrete list_sets texts
numeric_part = numeric_func below_ten

abbrev boolean_part : Concrete list_sets texts
boolean_part = boolean_func (record { k = to_key aws_secure_transport; value = codes "T" })

numeric-IsBuilt : IsBuilt list_sets texts numeric_part
unfolding build key_is_valid to_key concrete_key new_numeric_less_than_func
numeric-IsBuilt = (
  (
    record { qualifier = []; name = numeric_less_than },
    to_key s3_max_keys,
    string_value (codes "10") ∷ [],
    refl,
  ),
  tt,
  refl,
)

boolean-IsBuilt : IsBuilt list_sets texts boolean_part
unfolding build key_is_valid to_key concrete_key new_boolean_func parse_bool
boolean-IsBuilt = (
  (
    record { qualifier = []; name = boolean },
    to_key aws_secure_transport,
    string_value (codes "T") ∷ [],
    refl,
  ),
  tt,
  refl,
)

-- The map of the two functions, its entries in the other order.
abbrev other_order : Nested
other_order =
    (codes "Bool", (codes "aws:SecureTransport", string_value (codes "T") ∷ []) ∷ [])
    ∷ (codes "NumericLessThan", (codes "s3:max-keys", int_value (pos 10) ∷ []) ∷ [])
    ∷ []

other_order_lem :
    Permᴰ (marshal_functions list_sets texts (numeric_part ∷ boolean_part ∷ [])) other_order
unfolding marshal_functions to_map map_values concrete_name name_string key_string eqb to_key
other_order_lem = Permᴰ.swap refl refl

unmarshal_functions-marshal_functions_example :
    (found : List (Concrete list_sets texts)) × (unmarshal_functions list_sets texts other_order
      ≡ some found)
    × Permᴰ (numeric_part ∷ boolean_part ∷ []) found
unfolding concrete_name name_string eqb
unmarshal_functions-marshal_functions_example =
    unmarshal_functions-marshal_functions list_sets texts numeric_part (boolean_part ∷ [])
      other_order (numeric-IsBuilt, (boolean-IsBuilt, tt)) ((refl, tt), (tt, tt)) other_order_lem

evaluate_all-ret_example :
    (b : Bool) × (evaluate_all
        (map (as_function list_sets texts (λ f. [])) (numeric_part ∷ boolean_part ∷ []))
        (asks (codes "7"))
      ≡ ret b)
    × ((b ≡ true)
        ↔ All
            (λ f. concrete_evaluate list_sets texts f (asks (codes "7")) ≡ ret true)
            (numeric_part ∷ boolean_part ∷ []))
evaluate_all-ret_example =
    evaluate_all-ret list_sets list_set_laws texts (λ f. []) (numeric_part ∷ boolean_part ∷ [])
      (asks (codes "7")) (refl, tt)
