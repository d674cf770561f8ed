-- ===== src/Condition/Keys.antt =====
-- policy/condition/key.go: condition keys and sets of them. A set is the list of its elements, in
-- the order in which a loop over the Go map meets them.
use silo_pkg.Prelude.{
  Bool, false, not, ◌&&◌, ◌||◌, List, [], ◌∷◌, ◌++◌, if◌then◌else◌, is_empty, Option, none, some,
}
use silo_pkg.Prelude.Bytes.{Bytes, eqb}
use silo_pkg.Condition.Names.Lists.{all_supported_keys}
use silo_pkg.Condition.Values.{
  Values, values_at, values_or_nil, has_key, key_name, canonical_header_key, before_byte, from_byte,
}

pub record Key : Type 0 where
  pub name : Bytes
  pub variable : Bytes

-- Go's `==` on keys
unfoldable pub key_eq : Key → Key → Bool
unfolding eqb
key_eq a b = eqb a.name b.name && eqb a.variable b.variable

-- `Key.IsValid`
unfoldable pub key_is_valid : Key → Bool
unfolding has_key all_supported_keys
key_is_valid key = has_key all_supported_keys key.name

-- `Key.Is`
unfoldable pub key_is : Key → Bytes → Bool
unfolding eqb
key_is key name = eqb key.name name

-- `Key.Name`
unfoldable pub full_name : Key → Bytes
unfolding key_name
full_name key =
    if is_empty key.variable then key_name key.name else key_name key.name ++ b'/' ∷ key.variable

-- `Key.String`
unfoldable pub key_string : Key → Bytes
key_string key = if is_empty key.variable then key.name else key.name ++ b'/' ∷ key.variable

-- `KeyName.ToKey`
unfoldable pub to_key : Bytes → Key
to_key name = record { name = name; variable = [] }

unfoldable pub split_key : Bytes → Bytes → Key
split_key s [] = record { name = s; variable = [] }
split_key s (slash ∷ rest) = record { name = before_byte b'/' s; variable = rest }

-- `parseKey`; `none` is the error
unfoldable pub parse_key : Bytes → Option Key
unfolding split_key key_is_valid before_byte from_byte
parse_key s =
    let key = split_key s (from_byte b'/' s) in if key_is_valid key then some key else none

-- `getValuesByKey`
unfoldable pub get_values_by_key : Values → Key → List Bytes
unfolding values_at values_or_nil canonical_header_key full_name
get_values_by_key m key = elim (values_at m (full_name key)) [
  | some values ↦ values
  | none ↦ values_or_nil (values_at m (canonical_header_key (full_name key)))
]

-- `KeySet`
abbrev pub KeySet : Type 0
KeySet = List Key

unfoldable pub key_mem : Key → KeySet → Bool
unfolding key_eq
key_mem key [] = false
key_mem key (k ∷ set) = key_eq k key || key_mem key set

-- `KeySet.Add`
unfoldable pub key_add : KeySet → Key → KeySet
unfolding key_mem
key_add set key = if key_mem key set then set else key ∷ set

-- `KeySet.Merge`
unfoldable pub key_merge : KeySet → KeySet → KeySet
unfolding key_add
key_merge set [] = set
key_merge set (k ∷ mset) = key_merge (key_add set k) mset

-- `KeySet.Match`: the key itself, or its name with no variable
unfoldable pub key_match : KeySet → Key → Bool
unfolding key_mem to_key
key_match set key = key_mem key set || key_mem (to_key key.name) set

-- `KeySet.Difference`
unfoldable pub key_difference : KeySet → KeySet → KeySet
unfolding key_match
key_difference [] sset = []
key_difference (k ∷ set) sset =
    let rest = key_difference set sset in if not (key_match sset k) then k ∷ rest else rest
