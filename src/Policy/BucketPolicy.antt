-- ===== src/Policy/BucketPolicy.antt =====
-- policy/bucket-policy.go, bucket-policy-statement.go, principal.go: bucket policies. A principal is the
-- list that ToSlice makes of its set of strings.
use silo_pkg.Prelude.{
  Bool, true, false, not, ◌&&◌, ◌||◌, List, [], ◌∷◌, ◌++◌, any, all, is_empty, if◌then◌else◌,
  Outcome, ret, ◌>>=◌, any_of,
}
use silo_pkg.Prelude.Bytes.{Bytes, eqb, has_prefix}
use silo_pkg.Wildcard.Correct.{matches_simple}
use silo_pkg.Condition.Values.{Values}
use silo_pkg.Condition.Keys.{key_difference}
use silo_pkg.Condition.Functions.{Functions, evaluate_all, keys}
use silo_pkg.Policy.Action.{Action, is_object_action}
use silo_pkg.Policy.ActionSet.{ActionSet, actions_match}
use silo_pkg.Policy.Effect.{Effect, allow, deny, effect_is_allowed, effect_is_valid}
use silo_pkg.Policy.ResourceSet.{
  ResourceSet, object_resource_exists, bucket_resource_exists, validate_bucket_resources,
}
use silo_pkg.Policy.Statement.{consult, refuses, excludes}
use silo_pkg.Policy.KeyMaps.{lookup, iam_action_condition_key_map}
use silo_pkg.Policy.Validate.{version_is_valid}

-- `Principal`
abbrev pub Principal : Type 0
Principal = List Bytes

-- `Principal.IsValid`
unfoldable pub principal_is_valid : Principal → Bool
principal_is_valid p = not (is_empty p)

-- `Principal.Match`
unfoldable pub principal_match : Principal → Bytes → Bool
principal_match p principal = any (λ pattern. matches_simple pattern principal) p

-- `BPStatement`
pub record BpStatement : Type 0 where
  pub sid : Bytes
  pub effect : Effect
  pub principal : Principal
  pub actions : ActionSet
  pub not_actions : ActionSet
  pub resources : ResourceSet
  pub not_resources : ResourceSet
  pub conditions : Functions

-- `BucketPolicyArgs`: the fields that a decision reads
pub record BucketPolicyArgs : Type 0 where
  pub account_name : Bytes
  pub action : Action
  pub bucket_name : Bytes
  pub condition_values : Values
  pub is_owner : Bool
  pub object_name : Bytes

-- the text `resource`
unfoldable pub bucket_policy_resource : BucketPolicyArgs → Bytes
bucket_policy_resource args =
    if not (is_empty args.object_name)
    then (if not (has_prefix args.object_name (b'/' ∷ []))
        then args.bucket_name ++ b'/' ∷ args.object_name
        else args.bucket_name ++ args.object_name)
    else args.bucket_name

-- the closure `check`
unfoldable pub bp_check : BpStatement → BucketPolicyArgs → Outcome Bool
unfolding consult
bp_check statement args =
    if not (principal_match statement.principal args.account_name)
    then ret false
    else if (not (actions_match statement.actions args.action) && not (is_empty statement.actions))
        || actions_match statement.not_actions args.action
    then ret false
    else do
      let resource = bucket_policy_resource args
      first ← consult false statement.resources resource args.condition_values
      if refuses first then ret false else do
        excluded ← consult false statement.not_resources resource args.condition_values
        if excludes excluded
            then ret false
            else evaluate_all statement.conditions args.condition_values

-- `BPStatement.IsAllowed`
unfoldable pub bp_statement_is_allowed : BpStatement → BucketPolicyArgs → Outcome Bool
unfolding bp_check effect_is_allowed
bp_statement_is_allowed statement args =
    bp_check statement args >>= λ b. ret (effect_is_allowed statement.effect b)

-- the test of one action against the kind of the resources
unfoldable pub bp_resources_supported : BpStatement → Action → Bool
bp_resources_supported statement action =
    if is_object_action action
    then not
        (not (is_empty statement.resources) && not (object_resource_exists statement.resources))
      && not (
          not (is_empty statement.not_resources)
          && not (object_resource_exists statement.not_resources))
    else not
        (not (is_empty statement.resources) && not (bucket_resource_exists statement.resources))
      && not (
          not (is_empty statement.not_resources)
          && not (bucket_resource_exists statement.not_resources))

-- `BPStatement.isValid`
unfoldable pub bp_statement_is_valid : BpStatement → Bool
bp_statement_is_valid statement =
    effect_is_valid statement.effect
    && principal_is_valid statement.principal
    && not (is_empty statement.actions && is_empty statement.not_actions)
    && not (not (is_empty statement.actions) && not (is_empty statement.not_actions))
    && not (is_empty statement.resources && is_empty statement.not_resources)
    && not (not (is_empty statement.resources) && not (is_empty statement.not_resources))
    && all
        (λ action.
          bp_resources_supported statement action
          && is_empty (
              key_difference (keys statement.conditions)
                (lookup iam_action_condition_key_map action)))
        statement.actions

-- `BPStatement.Validate`
unfoldable pub bp_statement_validate : BpStatement → Bytes → Bool
bp_statement_validate statement bucket_name =
    if not (bp_statement_is_valid statement)
    then false
    else if not (is_empty statement.resources)
        && not (validate_bucket_resources statement.resources bucket_name)
    then false
    else not (
        not (is_empty statement.not_resources)
        && not (validate_bucket_resources statement.not_resources bucket_name))

-- `BucketPolicy`
pub record BucketPolicy : Type 0 where
  pub id : Bytes
  pub version : Bytes
  pub statements : List BpStatement

unfoldable pub bp_denies : BucketPolicyArgs → BpStatement → Outcome Bool
unfolding eqb
bp_denies args statement =
    if eqb statement.effect deny
    then (bp_statement_is_allowed statement args >>= λ b. ret (not b))
    else ret false

unfoldable pub bp_grants : BucketPolicyArgs → BpStatement → Outcome Bool
unfolding eqb
bp_grants args statement =
    if eqb statement.effect allow then bp_statement_is_allowed statement args else ret false

-- `BucketPolicy.IsAllowed`
unfoldable pub bucket_policy_is_allowed : BucketPolicy → BucketPolicyArgs → Outcome Bool
unfolding bp_denies bp_grants
bucket_policy_is_allowed policy args = do
  denied ← any_of (bp_denies args) policy.statements
  if denied
      then ret false
      else if args.is_owner
      then ret true
      else any_of (bp_grants args) policy.statements

-- `BucketPolicy.isValid`
unfoldable pub bucket_policy_is_valid : BucketPolicy → Bool
bucket_policy_is_valid policy =
    version_is_valid policy.version && all bp_statement_is_valid policy.statements

-- `BucketPolicy.Validate`
unfoldable pub bucket_policy_validate : BucketPolicy → Bytes → Bool
unfolding bucket_policy_is_valid bp_statement_validate
bucket_policy_validate policy bucket_name =
    bucket_policy_is_valid policy
    && all (λ st. bp_statement_validate st bucket_name) policy.statements

-- `BucketPolicy.IsEmpty`
unfoldable pub bucket_policy_is_empty : BucketPolicy → Bool
bucket_policy_is_empty policy = is_empty policy.statements
