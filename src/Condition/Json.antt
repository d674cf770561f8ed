-- ===== src/Condition/Json.antt =====
-- policy/condition/func.go: the nested map of names, keys and values that package encoding/json writes
-- for a list of condition functions and reads for it. A map is the list of its entries, no two of one
-- key, in some order: the writing functions put a new entry behind the others, json.Marshal sorts
-- them, and a loop over the map that is read meets them in any order, so the reading functions are
-- about every rearrangement of that list.
use silo_pkg.Prelude.{List, [], ◌∷◌, is_empty, Option, none, some, if◌then◌else◌, ◌++◌}
use mathlib.Core.Option
use silo_pkg.Prelude.Bytes.{Bytes, eqb}
use silo_pkg.Condition.Keys.{Key, key_string, parse_key}
use silo_pkg.Condition.Name.{Name, name_string, parse_name}
use silo_pkg.Condition.Value.{ValueSet}
use silo_pkg.Condition.StringSets.{StringSets}
use silo_pkg.Condition.Library.{Library}
use silo_pkg.Condition.Concrete.{Concrete, concrete_name, to_map, build}

-- map[string]ValueSet and map[string]map[string]ValueSet
abbrev pub KeyArgs : Type 0
KeyArgs = List (Bytes × ValueSet)

abbrev pub Nested : Type 0
Nested = List (Bytes × KeyArgs)

-- `m[key] = values`
unfoldable pub put_values : KeyArgs → Bytes → ValueSet → KeyArgs
unfolding eqb
put_values [] key values = (key, values) ∷ []
put_values ((k, v) ∷ m) key values =
    if eqb k key then (k, values) ∷ m else (k, v) ∷ put_values m key values

-- the loop over the map of one function
unfoldable pub put_entries : KeyArgs → List (Key × ValueSet) → KeyArgs
unfolding put_values key_string
put_entries m [] = m
put_entries m ((k, v) ∷ entries) = put_entries (put_values m (key_string k) v) entries

-- the entry of a name, which is an empty map at first, with the values of one function put in
unfoldable pub put_function : Nested → Bytes → List (Key × ValueSet) → Nested
unfolding put_entries eqb
put_function [] fname entries = (fname, put_entries [] entries) ∷ []
put_function ((n, m) ∷ nm) fname entries =
    if eqb n fname then (n, put_entries m entries) ∷ nm else (n, m) ∷ put_function nm fname entries

module _ (S : StringSets) (L : Library) where
  unfoldable pub marshal_into : Nested → List (Concrete S L) → Nested
  unfolding put_function to_map name_string concrete_name
  marshal_into nm [] = nm
  marshal_into nm (f ∷ functions) =
      marshal_into (put_function nm (name_string (concrete_name S L f)) (to_map S L f)) functions

  -- `Functions.MarshalJSON`: the map that it hands to json.Marshal
  unfoldable pub marshal_functions : List (Concrete S L) → Nested
  unfolding marshal_into
  marshal_functions functions = marshal_into [] functions

  -- the inner loop of `UnmarshalJSON`; `none` is an error
  unfoldable pub build_args : Name → KeyArgs → Option (List (Concrete S L))
  unfolding parse_key build Option.bind
  build_args n [] = some []
  build_args n ((key_text, values) ∷ args) = Option.bind (parse_key key_text) λ key.
      Option.bind (build S L n key values)
        λ f. Option.bind (build_args n args) λ funcs. some (f ∷ funcs)

  -- the outer loop
  unfoldable pub build_all : Nested → Option (List (Concrete S L))
  unfolding parse_name build_args Option.bind
  build_all [] = some []
  build_all ((name_text, args) ∷ nm) = Option.bind (parse_name name_text) λ n.
      Option.bind (build_args n args)
        λ funcs. Option.bind (build_all nm) λ more. some (funcs ++ more)

  -- `Functions.UnmarshalJSON` behind json.Unmarshal
  unfoldable pub unmarshal_functions : Nested → Option (List (Concrete S L))
  unfolding build_all
  unmarshal_functions nm = if is_empty nm then none else build_all nm
