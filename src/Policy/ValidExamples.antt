-- ===== src/Policy/ValidExamples.antt =====
-- policy/statement.go and policy/policy.go: the theorems on validation and on duplicate statements at
-- concrete policies.
use silo_pkg.Prelude.{
  ◌≡◌, refl, true, false, [], ◌∷◌, ret, not, is_empty, some, Bool, List, All, ◌⊎◌,
}
use silo_pkg.Prelude.Bytes.{Bytes, codes, eqb, contains_byte, has_prefix}
use silo_pkg.Prelude.Sets.{mem}
use silo_pkg.Wildcard.Correct.{matches}
use silo_pkg.Wildcard.Loop.{has}
use silo_pkg.Condition.Values.{has_key}
use silo_pkg.Condition.Functions.{keys}
use silo_pkg.Condition.Keys.{key_difference}
use silo_pkg.Policy.Action.{
  match_any, action_match, action_is_valid, admin_is_valid, kms_is_valid, sts_is_valid,
  table_is_valid, vectors_is_valid, can_match_prefix, before_wildcard,
}
use silo_pkg.Policy.Effect.{allow, effect_is_valid}
use silo_pkg.Policy.ResourceSet.{
  resources_match, validate_s3_resources, validate_strict_resources, object_resource_exists,
}
use silo_pkg.Policy.ActionSet.{validate_actions, bytes_eq}
use silo_pkg.Policy.Resource.{resource_is_valid, is_object_pattern, is_bare_arn}
use silo_pkg.Policy.Names.Supported.{supported_actions}
use silo_pkg.Policy.Names.Admin.{supported_admin_actions}
use silo_pkg.Policy.Names.Sts.{supported_sts_actions}
use silo_pkg.Policy.Names.Kms.{supported_kms_actions}
use silo_pkg.Policy.Names.TableList.{supported_table_actions}
use silo_pkg.Policy.Names.Vectors.{supported_vectors_actions}
use silo_pkg.Policy.Statement.{is_admin, is_sts, is_kms, is_table, is_vectors, normalised_resource}
use silo_pkg.Policy.ActionTypes.{namespace_of, named_actions, validate_action_types}
use silo_pkg.Policy.Validate.{
  statement_is_valid, policy_is_valid, policy_is_valid_strict, resources_supported,
  statement_is_valid_strict, version_is_valid,
}
use silo_pkg.Policy.Validity.{
  policy_is_valid_strict-policy_is_valid, statement_is_valid-namespace_of,
  statement_is_valid_fields, valid_grant-resources_match,
}
use silo_pkg.Policy.Duplicates.{
  drop_duplicate_statements_original, apart, Among, has_equal,
  drop_duplicate_statements_original-apart, drop_duplicate_statements_original-All,
}
use silo_pkg.Policy.Statement.{Statement}
use silo_pkg.Policy.Samples.{statement_on, objects, whole_bucket, grants_bucket, put_policy}
use silo_pkg.Policy.Examples.{bucket_allowed}

abbrev any_string : Bytes → Bool
any_string s = true

not_admin : is_admin (statement_on allow whole_bucket) ≡ false
unfolding is_admin admin_is_valid has_key supported_admin_actions has can_match_prefix
    before_wildcard has_prefix
not_admin = refl

not_sts : is_sts (statement_on allow whole_bucket) ≡ false
unfolding is_sts sts_is_valid has_key supported_sts_actions
not_sts = refl

not_kms : is_kms (statement_on allow whole_bucket) ≡ false
unfolding is_kms kms_is_valid has_key supported_kms_actions
not_kms = refl

valid : statement_is_valid any_string (statement_on allow whole_bucket) ≡ true
unfolding statement_is_valid effect_is_valid eqb validate_action_types namespace_of admin_is_valid
    has_key supported_admin_actions has can_match_prefix before_wildcard has_prefix sts_is_valid
    supported_sts_actions kms_is_valid supported_kms_actions table_is_valid supported_table_actions
    vectors_is_valid supported_vectors_actions is_admin is_sts is_kms is_table is_vectors
    validate_s3_resources resource_is_valid contains_byte validate_actions action_is_valid
    supported_actions match_any action_match matches resources_supported object_resource_exists
    is_object_pattern keys key_difference
valid = refl

valid_strictly : policy_is_valid_strict any_string grants_bucket ≡ true
unfolding policy_is_valid_strict version_is_valid statement_is_valid_strict statement_is_valid
    validate_strict_resources is_bare_arn effect_is_valid eqb validate_action_types namespace_of
    admin_is_valid has_key supported_admin_actions has can_match_prefix before_wildcard has_prefix
    sts_is_valid supported_sts_actions kms_is_valid supported_kms_actions table_is_valid
    supported_table_actions vectors_is_valid supported_vectors_actions is_admin is_sts is_kms
    is_table is_vectors validate_s3_resources resource_is_valid contains_byte validate_actions
    action_is_valid supported_actions match_any action_match matches resources_supported
    object_resource_exists is_object_pattern keys key_difference
valid_strictly = refl

policy_is_valid_strict-policy_is_valid_example : policy_is_valid any_string grants_bucket ≡ true
policy_is_valid_strict-policy_is_valid_example =
    policy_is_valid_strict-policy_is_valid any_string grants_bucket valid_strictly

-- A statement on two actions of S3.
abbrev lists_bucket : Statement
lists_bucket = record {
  sid = [];
  effect = allow;
  actions = codes "s3:ListBucket" ∷ codes "s3:GetBucketLocation" ∷ [];
  not_actions = [];
  resources = whole_bucket ∷ [];
  not_resources = [];
  conditions = [];
}

lists_valid : statement_is_valid any_string lists_bucket ≡ true
unfolding statement_is_valid effect_is_valid eqb validate_action_types namespace_of admin_is_valid
    has_key supported_admin_actions has can_match_prefix before_wildcard has_prefix sts_is_valid
    supported_sts_actions kms_is_valid supported_kms_actions table_is_valid supported_table_actions
    vectors_is_valid supported_vectors_actions is_admin is_sts is_kms is_table is_vectors
    validate_s3_resources resource_is_valid contains_byte validate_actions action_is_valid
    supported_actions match_any action_match matches resources_supported object_resource_exists
    is_object_pattern keys key_difference
lists_valid = refl

statement_is_valid-namespace_of_example :
    namespace_of (codes "s3:ListBucket") ≡ namespace_of (codes "s3:GetBucketLocation")
unfolding mem named_actions eqb
statement_is_valid-namespace_of_example =
    statement_is_valid-namespace_of any_string lists_bucket (codes "s3:ListBucket")
      (codes "s3:GetBucketLocation") lists_valid refl refl

statement_is_valid_fields_example :
    (is_empty (statement_on allow whole_bucket).actions
      ≡ not (is_empty (statement_on allow whole_bucket).not_actions))
    × (is_empty (statement_on allow whole_bucket).resources
        ≡ not (is_empty (statement_on allow whole_bucket).not_resources))
statement_is_valid_fields_example =
    statement_is_valid_fields any_string (statement_on allow whole_bucket) not_admin not_sts not_kms
      valid

valid_grant-resources_match_example :
    (resource : Bytes) × (normalised_resource false (statement_on allow whole_bucket) put_policy
      ≡ some resource)
    × (resources_match (whole_bucket ∷ []) resource [] ≡ ret true)
unfolding eqb
valid_grant-resources_match_example =
    valid_grant-resources_match any_string false (statement_on allow whole_bucket) put_policy
      not_admin not_sts not_kms refl refl valid bucket_allowed

-- The first and the last statement are equal.
abbrev thrice : List Statement
thrice =
    statement_on allow objects ∷ statement_on allow whole_bucket ∷ statement_on allow objects ∷ []

drop_duplicate_statements_original-apart_example :
    apart (drop_duplicate_statements_original thrice) ≡ true
drop_duplicate_statements_original-apart_example = drop_duplicate_statements_original-apart thrice

drop_duplicate_statements_original-All_example :
    All
      (λ st.
        Among st (drop_duplicate_statements_original thrice)
        ⊎ (has_equal (drop_duplicate_statements_original thrice) st ≡ true))
      thrice
drop_duplicate_statements_original-All_example = drop_duplicate_statements_original-All thrice
