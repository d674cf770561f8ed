-- ===== src/Policy/BucketExamples.antt =====
-- policy/bucket-policy.go: the theorems on bucket policies at a concrete policy.
use silo_pkg.Prelude.{
  ◌≡◌, ◌≢◌, refl, true, false, [], ◌∷◌, ret, panic, Outcome, Bool, not, any, ◌&&◌, ◌||◌, All,
}
use silo_pkg.Prelude.Bytes.{codes, eqb, contains_byte, has_prefix}
use silo_pkg.Prelude.Paths.{clean, clean_parts, split}
use silo_pkg.Wildcard.Loop.{match_as_pattern_prefix, has}
use silo_pkg.Wildcard.Correct.{matches, matches_simple}
use silo_pkg.Policy.Effect.{allow, effect_is_valid}
use silo_pkg.Policy.Resource.{
  is_object_pattern, resource_is_valid, validate_bucket, resource_match, path_match,
}
use silo_pkg.Policy.ResourceSet.{resources_match, validate_bucket_resources, object_resource_exists}
use silo_pkg.Policy.BucketPolicy.{
  BpStatement, BucketPolicyArgs, BucketPolicy, bp_statement_is_allowed, bucket_policy_is_allowed,
  bucket_policy_validate, principal_match, bucket_policy_resource, bp_statement_is_valid,
  principal_is_valid, bp_resources_supported,
}
use silo_pkg.Policy.Validate.{version_is_valid}
use silo_pkg.Condition.Functions.{evaluate_all, keys}
use silo_pkg.Condition.Keys.{key_difference}
use silo_pkg.Condition.Values.{has_key}
use silo_pkg.Policy.ActionSet.{actions_match}
use silo_pkg.Policy.Action.{is_object_action, action_is_valid, match_any, action_match}
use silo_pkg.Policy.Names.Supported.{supported_object_actions}
use silo_pkg.Policy.BucketGrants.{
  denied_by, granted_by, Names, bucket_policy_is_allowed_lem, bucket_policy_validate-All,
}
use silo_pkg.Policy.Samples.{objects}

-- Everyone may read the objects of the bucket.
abbrev public_read : BpStatement
public_read = record {
  sid = [];
  effect = allow;
  principal = codes "*" ∷ [];
  actions = codes "s3:GetObject" ∷ [];
  not_actions = [];
  resources = objects ∷ [];
  not_resources = [];
  conditions = [];
}

abbrev public_policy : BucketPolicy
public_policy = record { id = []; version = codes "2012-10-17"; statements = public_read ∷ [] }

abbrev read_request : BucketPolicyArgs
read_request = record {
  account_name = codes "alice";
  action = codes "s3:GetObject";
  bucket_name = codes "mybucket";
  condition_values = [];
  is_owner = false;
  object_name = codes "a";
}

answers : {o : Outcome Bool} (b : Bool) → o ≡ ret b → o ≢ panic
answers b e h = cc

read_allowed : bp_statement_is_allowed public_read read_request ≡ ret true
unfolding bp_statement_is_allowed principal_match matches_simple actions_match
    bucket_policy_resource has_prefix resources_match resource_match path_match clean clean_parts
    matches contains_byte eqb evaluate_all split
read_allowed = refl

bucket_policy_is_allowed_lem_example :
    bucket_policy_is_allowed public_policy read_request
    ≡ ret (
        not (any (denied_by read_request) public_policy.statements)
        && (read_request.is_owner || any (granted_by read_request) public_policy.statements))
bucket_policy_is_allowed_lem_example =
    bucket_policy_is_allowed_lem read_request public_policy (answers true read_allowed, tt)

validated : bucket_policy_validate public_policy (codes "mybucket") ≡ true
unfolding bucket_policy_validate bp_statement_is_valid version_is_valid eqb effect_is_valid
    principal_is_valid bp_resources_supported is_object_action action_is_valid has_key match_any
    action_match matches supported_object_actions object_resource_exists is_object_pattern keys
    key_difference contains_byte validate_bucket_resources validate_bucket resource_is_valid
    has_prefix match_as_pattern_prefix has
validated = refl

bucket_policy_validate-All_example :
    All
      (λ (st : BpStatement).
        All (Names (codes "mybucket")) st.resources
        × All (Names (codes "mybucket")) st.not_resources)
      public_policy.statements
bucket_policy_validate-All_example =
    bucket_policy_validate-All public_policy (codes "mybucket") validated
