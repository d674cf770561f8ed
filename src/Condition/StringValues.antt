-- ===== src/Condition/StringValues.antt =====
-- policy/condition/stringfunc.go: the constructors of the condition functions on strings.
use silo_pkg.Prelude.{
  List, [], ◌∷◌, Bool, true, false, not, ◌&&◌, ◌||◌, Option, none, some, if◌then◌else◌, is_empty,
  all,
}
use silo_pkg.Prelude.Bytes.{Bytes, eqb, codes}
use silo_pkg.Condition.Names.Keys.{
  s3_xamz_copy_source, s3_xamz_server_side_encryption,
  s3_xamz_server_side_encryption_customer_algorithm, s3_xamz_metadata_directive,
  s3_xamz_content_sha256,
}
use silo_pkg.Condition.Values.{has_key}
use silo_pkg.Condition.Keys.{Key, key_is}
use silo_pkg.Condition.Name.{
  qualifiers, string_equals, string_not_equals, string_equals_ignore_case,
  string_not_equals_ignore_case, string_like, string_not_like, binary_equals,
}
use silo_pkg.Condition.Value.{
  string_value, ValueSet, value_add, values_to_string_slice, path_to_bucket_and_object,
}
use silo_pkg.Condition.StringSets.{StringSets}
use silo_pkg.Condition.Library.{Library}
use silo_pkg.Condition.Strings.{StringFunc}

module _ (S : StringSets) (L : Library) where
  copy_source_is_valid : Bytes → Bool
  unfolding path_to_bucket_and_object
  copy_source_is_valid s =
      let (bucket, object) = path_to_bucket_and_object s in
      if is_empty object then false else L.check_valid_bucket_name bucket

  -- the second switch of the loop
  exact_value_is_valid : Key → Bytes → Bool
  unfolding key_is eqb
  exact_value_is_valid key s =
      if key_is key s3_xamz_server_side_encryption_customer_algorithm
      then eqb s (codes "AES256")
      else if key_is key s3_xamz_server_side_encryption
      then eqb s (codes "AES256") || eqb s (codes "aws:kms")
      else if key_is key s3_xamz_metadata_directive
      then eqb s (codes "COPY") || eqb s (codes "REPLACE")
      else if key_is key s3_xamz_content_sha256
      then not (is_empty s)
      else true

  -- one round of the loop of `validateStringValues`
  unfoldable pub string_value_is_valid : Bytes → Key → Bytes → Bool
  unfolding key_is eqb copy_source_is_valid exact_value_is_valid
  string_value_is_valid n key s =
      if key_is key s3_xamz_copy_source && not (copy_source_is_valid s)
      then false
      else if eqb n string_like || eqb n string_not_like
      then true
      else exact_value_is_valid key s

  -- `validateStringValues`; `false` is the error
  unfoldable pub validate_string_values : Bytes → Key → S.Set → Bool
  unfolding string_value_is_valid
  validate_string_values n key values = all (string_value_is_valid n key) (S.to_slice values)

  string_func_with :
      Bytes → Key → Bytes → Bool → Bool → Bool → Option (List Bytes) → Option (StringFunc S.Set)
  unfolding validate_string_values has_key qualifiers
  string_func_with n key qualifier ignore_case base64 negate none = none
  string_func_with n key qualifier ignore_case base64 negate (some value_strings) =
      let sset = S.create_string_set value_strings in
      if not (validate_string_values n key sset)
      then none
      else if not (is_empty qualifier) && not (has_key qualifiers qualifier)
      then none
      else some (record {
        n = record { qualifier = qualifier; name = n };
        k = key;
        values = sset;
        ignore_case = ignore_case;
        base64 = base64;
        negate = negate;
      })

  -- `newStringFunc`; `none` is the error
  unfoldable pub new_string_func :
      Bytes → Key → ValueSet → Bytes → Bool → Bool → Bool → Option (StringFunc S.Set)
  unfolding string_func_with values_to_string_slice
  new_string_func n key values qualifier ignore_case base64 negate =
      string_func_with n key qualifier ignore_case base64 negate (values_to_string_slice values)

  unfoldable pub new_string_equals_func : Key → ValueSet → Bytes → Option (StringFunc S.Set)
  unfolding new_string_func
  new_string_equals_func key values qualifier =
      new_string_func string_equals key values qualifier false false false

  unfoldable pub new_string_not_equals_func : Key → ValueSet → Bytes → Option (StringFunc S.Set)
  unfolding new_string_func
  new_string_not_equals_func key values qualifier =
      new_string_func string_not_equals key values qualifier false false true

  unfoldable pub new_string_equals_ignore_case_func :
      Key → ValueSet → Bytes → Option (StringFunc S.Set)
  unfolding new_string_func
  new_string_equals_ignore_case_func key values qualifier =
      new_string_func string_equals_ignore_case key values qualifier true false false

  unfoldable pub new_string_not_equals_ignore_case_func :
      Key → ValueSet → Bytes → Option (StringFunc S.Set)
  unfolding new_string_func
  new_string_not_equals_ignore_case_func key values qualifier =
      new_string_func string_not_equals_ignore_case key values qualifier true false true

  decoded_into : ValueSet → List Bytes → Option ValueSet
  unfolding value_add
  decoded_into vset [] = some vset
  decoded_into vset (value ∷ values) = elim (L.decode_base64 value) [
    | none ↦ none
    | some text ↦ decoded_into (value_add vset (string_value text)) values
  ]

  -- `NewBinaryEqualsFunc`
  unfoldable pub public_binary_equals_func : Bytes → Key → List Bytes → Option (StringFunc S.Set)
  unfolding new_string_func decoded_into
  public_binary_equals_func qualifier key values = elim (decoded_into [] values) [
    | none ↦ none
    | some vset ↦ new_string_func binary_equals key vset qualifier false true false
  ]

  -- `newBinaryEqualsFunc`
  unfoldable pub new_binary_equals_func : Key → ValueSet → Bytes → Option (StringFunc S.Set)
  unfolding public_binary_equals_func values_to_string_slice
  new_binary_equals_func key values qualifier = elim (values_to_string_slice values) [
    | none ↦ none
    | some value_strings ↦ public_binary_equals_func qualifier key value_strings
  ]

  unfoldable pub new_string_like_func : Key → ValueSet → Bytes → Option (StringFunc S.Set)
  unfolding new_string_func
  new_string_like_func key values qualifier =
      new_string_func string_like key values qualifier false false false

  unfoldable pub new_string_not_like_func : Key → ValueSet → Bytes → Option (StringFunc S.Set)
  unfolding new_string_func
  new_string_not_like_func key values qualifier =
      new_string_func string_not_like key values qualifier false false true
