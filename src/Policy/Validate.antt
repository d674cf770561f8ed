-- ===== src/Policy/Validate.antt =====
-- policy/statement.go and policy/policy.go: which statements and policies are valid. A validator's
-- nil is true; the texts of the errors are left out.
use silo_pkg.Prelude.{Bool, true, false, not, ◌&&◌, ◌||◌, all, is_empty, if◌then◌else◌}
use silo_pkg.Prelude.Bytes.{Bytes, eqb, codes}
use silo_pkg.Condition.Keys.{KeySet, key_difference}
use silo_pkg.Condition.Functions.{keys}
use silo_pkg.Policy.Action.{Action}
use silo_pkg.Policy.ActionSet.{
  validate_admin_actions, validate_sts_actions, validate_kms_actions, validate_table_actions,
  validate_vectors_actions, validate_actions,
}
use silo_pkg.Policy.Effect.{effect_is_valid}
use silo_pkg.Policy.ResourceSet.{
  bucket_resource_exists, object_resource_exists, validate_strict_resources, validate_s3_resources,
  validate_kms_resources, validate_table_resources, validate_vectors_resources,
}
use silo_pkg.Policy.Statement.{
  Statement, is_admin, has_admin_resource, is_sts, is_kms, is_table, is_vectors,
}
use silo_pkg.Policy.KeyMaps.{
  iam_action_condition_key_map, lookup, admin_action_keys, sts_action_keys, table_keys,
  vectors_action_keys,
}
use silo_pkg.Policy.Decide.{Policy}
use silo_pkg.Policy.ActionTypes.{validate_action_types}

-- The loops over the actions that look for unsupported condition keys.
unfoldable pub keys_supported : (Action → KeySet) → Statement → Bool
keys_supported key_map st =
    all (λ action. is_empty (key_difference (keys st.conditions) (key_map action))) st.actions

-- `validateAdmin`
unfoldable pub validate_admin : Statement → Bool → Bool
validate_admin st strict =
    if not (validate_admin_actions st.actions)
    then false
    else if not (keys_supported admin_action_keys st)
    then false
    else if not strict
    then true
    else if not (is_empty st.resources) && not (is_empty st.not_resources)
    then false
    else if not (is_empty st.resources)
        && has_admin_resource st
        && not (validate_s3_resources st.resources)
    then false
    else not (
        not (is_empty st.not_resources)
        && has_admin_resource st
        && not (validate_s3_resources st.not_resources))

-- "Resource must not be empty", "Resource and NotResource cannot be specified in the same statement"
unfoldable pub one_resource_field : Statement → Bool
one_resource_field st =
    if is_empty st.resources && is_empty st.not_resources
    then false
    else not (not (is_empty st.resources) && not (is_empty st.not_resources))

-- "unsupported Resource found", "unsupported NotResource found", for one action
unfoldable pub resources_supported : Statement → Bool
resources_supported st =
    if not (is_empty st.resources)
      && not (object_resource_exists st.resources)
      && not (bucket_resource_exists st.resources)
    then false
    else not (
        not (is_empty st.not_resources)
        && not (object_resource_exists st.not_resources)
        && not (bucket_resource_exists st.not_resources))

-- The part of `isValid` for STS, KMS, tables and vectors statements.
unfoldable pub sts_statement_is_valid : Statement → Bool
sts_statement_is_valid st = validate_sts_actions st.actions && keys_supported sts_action_keys st

unfoldable pub kms_statement_is_valid : Statement → Bool
kms_statement_is_valid st =
    validate_kms_actions st.actions
    && validate_kms_resources st.resources
    && validate_kms_resources st.not_resources

unfoldable pub table_statement_is_valid : Statement → Bool
unfolding one_resource_field
table_statement_is_valid st =
    validate_table_actions st.actions
    && keys_supported table_keys st
    && one_resource_field st
    && validate_table_resources st.resources
    && validate_table_resources st.not_resources
    && all (λ action. resources_supported st) st.actions

unfoldable pub vectors_statement_is_valid : Statement → Bool
unfolding one_resource_field
vectors_statement_is_valid st =
    validate_vectors_actions st.actions
    && keys_supported vectors_action_keys st
    && one_resource_field st
    && validate_vectors_resources st.resources
    && validate_vectors_resources st.not_resources
    && all (λ action. resources_supported st) st.actions

-- The conditions on Effect, Action and NotAction with which both paths begin.
unfoldable pub head_is_valid : Statement → Bool
head_is_valid st =
    if not (effect_is_valid st.effect)
    then false
    else if is_empty st.actions && is_empty st.not_actions
    then false
    else if not (is_empty st.actions) && not (is_empty st.not_actions)
    then false
    else validate_action_types st

-- `DefaultVersion`
abbrev pub default_version : Bytes
default_version = codes "2012-10-17"

-- the test of the version with which `isValid` begins
unfoldable pub version_is_valid : Bytes → Bool
unfolding eqb
version_is_valid version = eqb version default_version || is_empty version

-- `valid_string` is utf8.ValidString of the standard library.
module _ (valid_string : Bytes → Bool) where
  -- The end of `isValid`, for S3 statements.
  unfoldable pub s3_statement_is_valid : Statement → Bool
  unfolding one_resource_field
  s3_statement_is_valid st =
      valid_string st.sid
      && one_resource_field st
      && validate_s3_resources st.resources
      && validate_s3_resources st.not_resources
      && validate_actions st.actions
      && all
          (λ action.
            resources_supported st
            && is_empty
                (key_difference (keys st.conditions) (lookup iam_action_condition_key_map action)))
          st.actions

  -- `Statement.isValid`, `Statement.Validate`
  unfoldable pub statement_is_valid : Statement → Bool
  unfolding head_is_valid validate_admin sts_statement_is_valid kms_statement_is_valid
      table_statement_is_valid vectors_statement_is_valid s3_statement_is_valid
  statement_is_valid st =
      if not (head_is_valid st)
      then false
      else if is_admin st
      then validate_admin st false
      else if is_sts st
      then sts_statement_is_valid st
      else if is_kms st
      then kms_statement_is_valid st
      else if is_table st
      then table_statement_is_valid st
      else if is_vectors st
      then vectors_statement_is_valid st
      else s3_statement_is_valid st

  -- `Statement.isValidStrict`, `Statement.ValidateStrict`
  unfoldable pub statement_is_valid_strict : Statement → Bool
  unfolding head_is_valid validate_admin
  statement_is_valid_strict st =
      if not (head_is_valid st)
      then false
      else if not (validate_strict_resources st.resources)
      then false
      else if not (validate_strict_resources st.not_resources)
      then false
      else if is_admin st
      then validate_admin st true
      else statement_is_valid st

  -- `Policy.isValid`, `Policy.Validate`
  unfoldable pub policy_is_valid : Policy → Bool
  policy_is_valid p = version_is_valid p.version && all statement_is_valid p.statements

  -- `Policy.ValidateStrict`
  unfoldable pub policy_is_valid_strict : Policy → Bool
  policy_is_valid_strict p =
      version_is_valid p.version && all statement_is_valid_strict p.statements
