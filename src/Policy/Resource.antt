-- ===== src/Policy/Resource.antt =====
-- policy/resource.go: resources, what they match and how they are read from text.
use silo_pkg.Prelude.{
  ℕ, zero, suc, Bool, true, false, not, ◌&&◌, ◌||◌, List, [], ◌∷◌, ◌++◌, is_empty, length, Option,
  none, some, if◌then◌else◌, ◌==◌, drop, Outcome, ret, panic, ◌>>=◌,
}
use silo_pkg.Prelude.Bytes.{Bytes, eqb, codes, has_prefix, contains_byte}
use silo_pkg.Prelude.Paths.{clean, split}
use silo_pkg.Wildcard.Loop.{match_as_pattern_prefix}
use silo_pkg.Wildcard.Correct.{matches}
use silo_pkg.Condition.Values.{Values, values_at, has_key, key_name, before_byte, from_byte}
use silo_pkg.Condition.Names.Lists.{common_keys}

-- `ResourceARNType`
pub data ArnType : Type 0 where
  unknown_arn arn_s3 arn_s3tables arn_kms arn_all : ArnType

pub record Resource : Type 0 where
  pub pattern : Bytes
  pub arn_type : ArnType

abbrev pub resource_arn_prefix : Bytes
resource_arn_prefix = codes "arn:aws:s3:::"

abbrev pub resource_arn_s3tables_prefix : Bytes
resource_arn_s3tables_prefix = codes "arn:aws:s3tables:::"

abbrev pub resource_arn_kms_prefix : Bytes
resource_arn_kms_prefix = codes "arn:minio:kms:::"

-- `ARNTypeToPrefix` as the method `String` reads it
unfoldable pub arn_string : ArnType → Bytes
arn_string unknown_arn = []
arn_string arn_s3 = resource_arn_prefix
arn_string arn_s3tables = resource_arn_s3tables_prefix
arn_string arn_kms = resource_arn_kms_prefix
arn_string arn_all = b'*' ∷ []

-- `ARNPrefixToType`, with its entries in one order
unfoldable pub arn_prefix_to_type : List (Bytes × ArnType)
arn_prefix_to_type =
    (resource_arn_prefix, arn_s3)
    ∷ (resource_arn_s3tables_prefix, arn_s3tables)
    ∷ (resource_arn_kms_prefix, arn_kms)
    ∷ (b'*' ∷ [], arn_all)
    ∷ []

unfoldable pub is_arn_prefix : List (Bytes × ArnType) → Bytes → Bool
is_arn_prefix [] s = false
is_arn_prefix ((k, v) ∷ m) s = eqb k s || is_arn_prefix m s

abbrev pub is_all : ArnType → Bool
is_all arn_all = true
is_all _ = false

-- `Resource.IsBareARN`
unfoldable pub is_bare_arn : Resource → Bool
unfolding is_arn_prefix arn_prefix_to_type
is_bare_arn r =
    if not (is_all r.arn_type) || eqb r.pattern (b'*' ∷ [])
    then false
    else is_arn_prefix arn_prefix_to_type r.pattern

is_kms_type : ArnType → Bool
is_kms_type arn_kms = true
is_kms_type arn_all = true
is_kms_type _ = false

is_s3_type : ArnType → Bool
is_s3_type arn_s3 = true
is_s3_type arn_all = true
is_s3_type _ = false

is_table_type : ArnType → Bool
is_table_type arn_s3tables = true
is_table_type arn_all = true
is_table_type _ = false

-- `isKMS`, `isS3` and `isTable`
unfoldable pub is_kms_resource : Resource → Bool
unfolding is_kms_type
is_kms_resource r = is_kms_type r.arn_type

unfoldable pub is_s3_resource : Resource → Bool
unfolding is_s3_type
is_s3_resource r = is_s3_type r.arn_type

unfoldable pub is_table_resource : Resource → Bool
unfolding is_table_type
is_table_resource r = is_table_type r.arn_type

-- `isBucketPattern` and `isObjectPattern`
unfoldable pub is_bucket_pattern : Resource → Bool
is_bucket_pattern r = not (contains_byte b'/' r.pattern) || eqb r.pattern (b'*' ∷ [])

unfoldable pub is_object_pattern : Resource → Bool
is_object_pattern r = contains_byte b'/' r.pattern || contains_byte b'*' r.pattern

abbrev is_unknown : ArnType → Bool
is_unknown unknown_arn = true
is_unknown _ = false

-- `Resource.IsValid`
unfoldable pub resource_is_valid : Resource → Bool
unfolding is_s3_resource is_table_resource is_kms_resource
resource_is_valid r =
    if is_unknown r.arn_type
    then false
    else if is_s3_resource r && has_prefix r.pattern (b'/' ∷ [])
    then false
    else if is_table_resource r && has_prefix r.pattern (b'/' ∷ [])
    then false
    else if is_kms_resource r
        && (contains_byte b'/' r.pattern
            || contains_byte b'\\' r.pattern
            || contains_byte b'.' r.pattern)
    then false
    else not (is_empty r.pattern)

-- `condition.CommonKeysMap[ckey]`
unfoldable pub is_common_key : Bytes → Bool
unfolding has_key common_keys
is_common_key ckey = has_key common_keys ckey

-- What a key's reference becomes: `rvalues[0]`, unless the key is no common key, is absent or has an
-- empty first value. To index an empty slice panics.
unfoldable pub replacement : Bytes → Option (List Bytes) → Outcome Bytes
replacement ckey none = ret (codes "${" ++ ckey ++ codes "}")
replacement ckey (some []) =
    if is_common_key ckey then panic else ret (codes "${" ++ ckey ++ codes "}")
replacement ckey (some (v ∷ rvalues)) =
    if is_common_key ckey && not (is_empty v) then ret v else ret (codes "${" ++ ckey ++ codes "}")

abbrev prepend : Bytes → Bytes → Outcome Bytes
prepend out rest = ret (out ++ rest)

-- The loop over `remain`; what is left to scan gets shorter in each round, so the length of the text
-- is fuel enough.
unfoldable pub replace_loop : ℕ → Values → Bytes → Outcome Bytes
replace_loop zero values remain = ret []
replace_loop (suc f) values [] = ret []
replace_loop (suc f) values (c ∷ []) = ret (c ∷ [])
replace_loop (suc f) values (c ∷ d ∷ []) = ret (c ∷ d ∷ [])
replace_loop (suc f) values (c ∷ d ∷ e ∷ remain) =
    let plain = replace_loop f values (d ∷ e ∷ remain) in
    let behind = replace_loop f values (drop 1 (from_byte b'}' (e ∷ remain))) in
    let ckey = before_byte b'}' (e ∷ remain) in
    if not (c == b'$')
    then plain >>= prepend (c ∷ [])
    else if not (d == b'{') || not (contains_byte b'}' (e ∷ remain))
    then plain >>= prepend (b'$' ∷ [])
    else (replacement ckey (values_at values (key_name ckey)) >>= λ out. behind >>= prepend out)

-- The pattern with the keys that it names replaced.
unfoldable pub expand : Values → Bytes → Outcome Bytes
expand values pattern =
    let remain = from_byte b'$' pattern in
    replace_loop (length remain) values remain >>= prepend (before_byte b'$' pattern)

-- the test at the end of `Match`, on the pattern after replacement
unfoldable pub path_match : Bytes → Bytes → Bool
path_match pattern resource =
    if not (eqb (clean resource) (codes ".")) && eqb (clean resource) pattern
    then true
    else matches pattern resource

-- `Resource.Match`
unfoldable pub resource_match : Resource → Bytes → Values → Outcome Bool
resource_match r resource values =
    if not (contains_byte b'$' r.pattern)
    then ret (path_match r.pattern resource)
    else (expand values r.pattern >>= λ pattern. ret (path_match pattern resource))

-- `Resource.MatchResource`: no condition values
unfoldable pub match_resource : Resource → Bytes → Outcome Bool
match_resource r resource = resource_match r resource []

-- `Resource.String`
unfoldable pub resource_string : Resource → Bytes
unfolding arn_string
resource_string r = arn_string r.arn_type ++ r.pattern

-- The loop of `ParseResource` over the entries of `ARNPrefixToType`, in the order of the list.
unfoldable pub parse_loop : List (Bytes × ArnType) → Bytes → Resource → Resource
parse_loop [] s r = r
parse_loop ((k, v) ∷ m) s r =
    let whole = parse_loop m s (record { pattern = k; arn_type = arn_all }) in
    let other = parse_loop m s r in
    if eqb s k
    then whole
    else if has_prefix s k
    then record { pattern = drop (length k) s; arn_type = v }
    else other

abbrev pub no_resource : Resource
no_resource = record { pattern = []; arn_type = unknown_arn }

checked : Resource → Option Resource
checked r =
    if is_unknown r.arn_type
    then none
    else if has_prefix r.pattern (b'/' ∷ [])
    then none
    else some r

-- `ParseResource`, over the map's entries in the order of the list; `none` is the error.
unfoldable pub parse_resource : List (Bytes × ArnType) → Bytes → Option Resource
unfolding parse_loop checked
parse_resource order s = checked (parse_loop order s no_resource)

-- `Resource.ValidateBucket`: whether it returns nil
unfoldable pub validate_bucket : Resource → Bytes → Bool
unfolding resource_is_valid match_as_pattern_prefix
validate_bucket r bucket_name =
    resource_is_valid r
    && (matches r.pattern bucket_name
        || match_as_pattern_prefix r.pattern (bucket_name ++ b'/' ∷ []))

table_parts : List Bytes → Bool
unfolding eqb
table_parts (bucket ∷ kind ∷ []) =
    not (is_empty bucket) && (eqb kind (codes "table") || eqb kind (codes "view"))
table_parts (bucket ∷ kind ∷ id ∷ []) =
    not (is_empty bucket) && (eqb kind (codes "table") || eqb kind (codes "view"))
table_parts _ = false

-- `isTableResourceString`
unfoldable pub is_table_resource_string : Bytes → Bool
unfolding table_parts split has_prefix
is_table_resource_string s = has_prefix s (codes "bucket/") && table_parts (split b'/' (drop 7 s))
