-- ===== src/Condition/Name.antt =====
-- policy/condition/name.go: the names of condition functions.
use silo_pkg.Prelude.{
  List, [], ◌∷◌, ◌++◌, Bool, false, not, ◌&&◌, is_empty, Option, none, some, if◌then◌else◌, ◌≡◌,
  refl,
}
use silo_pkg.Prelude.Bytes.{Bytes, codes}
use silo_pkg.Prelude.Paths.{split}
use silo_pkg.Condition.Values.{has_key}

abbrev pub string_equals : Bytes
string_equals = codes "StringEquals"

abbrev pub string_not_equals : Bytes
string_not_equals = codes "StringNotEquals"

abbrev pub string_equals_ignore_case : Bytes
string_equals_ignore_case = codes "StringEqualsIgnoreCase"

abbrev pub string_not_equals_ignore_case : Bytes
string_not_equals_ignore_case = codes "StringNotEqualsIgnoreCase"

abbrev pub string_like : Bytes
string_like = codes "StringLike"

abbrev pub string_not_like : Bytes
string_not_like = codes "StringNotLike"

abbrev pub binary_equals : Bytes
binary_equals = codes "BinaryEquals"

abbrev pub ip_address : Bytes
ip_address = codes "IpAddress"

abbrev pub not_ip_address : Bytes
not_ip_address = codes "NotIpAddress"

abbrev pub null : Bytes
null = codes "Null"

abbrev pub boolean : Bytes
boolean = codes "Bool"

abbrev pub numeric_equals : Bytes
numeric_equals = codes "NumericEquals"

abbrev pub numeric_not_equals : Bytes
numeric_not_equals = codes "NumericNotEquals"

abbrev pub numeric_less_than : Bytes
numeric_less_than = codes "NumericLessThan"

abbrev pub numeric_less_than_equals : Bytes
numeric_less_than_equals = codes "NumericLessThanEquals"

abbrev pub numeric_greater_than : Bytes
numeric_greater_than = codes "NumericGreaterThan"

abbrev pub numeric_greater_than_if_exists : Bytes
numeric_greater_than_if_exists = codes "NumericGreaterThanIfExists"

abbrev pub numeric_greater_than_equals : Bytes
numeric_greater_than_equals = codes "NumericGreaterThanEquals"

abbrev pub date_equals : Bytes
date_equals = codes "DateEquals"

abbrev pub date_not_equals : Bytes
date_not_equals = codes "DateNotEquals"

abbrev pub date_less_than : Bytes
date_less_than = codes "DateLessThan"

abbrev pub date_less_than_equals : Bytes
date_less_than_equals = codes "DateLessThanEquals"

abbrev pub date_greater_than : Bytes
date_greater_than = codes "DateGreaterThan"

abbrev pub date_greater_than_equals : Bytes
date_greater_than_equals = codes "DateGreaterThanEquals"

abbrev pub for_all_values : Bytes
for_all_values = codes "ForAllValues"

abbrev pub for_any_value : Bytes
for_any_value = codes "ForAnyValue"

-- The keys of `Names`.
unfoldable pub names : List Bytes
names =
    string_equals ∷ string_not_equals ∷ string_equals_ignore_case ∷ string_not_equals_ignore_case
    ∷ binary_equals ∷ string_like ∷ string_not_like ∷ ip_address ∷ not_ip_address ∷ null ∷ boolean
    ∷ numeric_equals ∷ numeric_not_equals ∷ numeric_less_than ∷ numeric_less_than_equals
    ∷ numeric_greater_than ∷ numeric_greater_than_if_exists ∷ numeric_greater_than_equals
    ∷ date_equals ∷ date_not_equals ∷ date_less_than ∷ date_less_than_equals ∷ date_greater_than
    ∷ date_greater_than_equals ∷ []

-- The keys of `Qualifiers`.
unfoldable pub qualifiers : List Bytes
qualifiers = for_all_values ∷ for_any_value ∷ []

-- `name`
pub record Name : Type 0 where
  pub qualifier : Bytes
  pub name : Bytes

-- `name.String`
unfoldable pub name_string : Name → Bytes
name_string n = if not (is_empty n.qualifier) then n.qualifier ++ b':' ∷ n.name else n.name

-- `name.IsValid`
unfoldable pub name_is_valid : Name → Bool
unfolding has_key names qualifiers
name_is_valid n =
    if not (is_empty n.qualifier) && not (has_key qualifiers n.qualifier)
    then false
    else has_key names n.name

if_valid : Name → Option Name
unfolding name_is_valid
if_valid n = if name_is_valid n then some n else none

from_tokens : Bytes → List Bytes → Option Name
unfolding if_valid
from_tokens s [] = if_valid (record { qualifier = []; name = s })
from_tokens s (token ∷ []) = if_valid (record { qualifier = []; name = s })
from_tokens s (token ∷ name ∷ []) = if_valid (record { qualifier = token; name = name })
from_tokens s (token ∷ name ∷ more ∷ tokens) = none

-- `parseName`; `none` is the error
unfoldable pub parse_name : Bytes → Option Name
unfolding from_tokens split
parse_name s = from_tokens s (split b':' s)

qualified_name :
    parse_name (codes "ForAllValues:StringLike")
    ≡ some (record { qualifier = for_all_values; name = string_like })
unfolding parse_name
qualified_name = refl
