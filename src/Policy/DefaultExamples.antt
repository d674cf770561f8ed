-- ===== src/Policy/DefaultExamples.antt =====
-- policy/constants.go: the built-in policies at a concrete request.
use silo_pkg.Prelude.{◌≡◌, refl, [], true, false, ret}
use silo_pkg.Prelude.Bytes.{codes, eqb, contains_byte}
use silo_pkg.Prelude.Sets.{set_of}
use silo_pkg.Prelude.Paths.{clean, clean_parts}
use silo_pkg.Wildcard.Loop.{has}
use silo_pkg.Policy.Names.Admin.{supported_admin_actions}
use silo_pkg.Condition.Functions.{evaluate_all}
use silo_pkg.Wildcard.Correct.{matches}
use silo_pkg.Policy.Names.Supported.{supported_actions}
use silo_pkg.Policy.Names.TableList.{supported_table_actions}
use silo_pkg.Policy.Names.Implicit.{implicit_data, implicit_warehouse}
use silo_pkg.Policy.Names.Kms.{supported_kms_actions}
use silo_pkg.Policy.Names.Sts.{supported_sts_actions}
use silo_pkg.Policy.ActionSet.{actions_match}
use silo_pkg.Policy.Action.{table_is_valid, kms_is_valid, admin_is_valid, sts_is_valid}
use silo_pkg.Condition.Values.{has_key}
use silo_pkg.Policy.Resource.{resource_match, path_match, expand}
use silo_pkg.Policy.ResourceSet.{resources_match}
use silo_pkg.Policy.Statement.{
  Args, is_allowed, is_table, is_kms, is_sts, is_admin, ignores_resources,
}
use silo_pkg.Policy.Decide.{policy_is_allowed, decide}
use silo_pkg.Policy.Defaults.{read_only_policy}
use silo_pkg.Policy.DefaultGrants.{objects, reads, policy_is_allowed-reads}

abbrev get_object : Args
get_object = record {
  action = codes "s3:GetObject";
  bucket_name = codes "mybucket";
  condition_values = [];
  is_owner = false;
  object_name = codes "a";
  deny_only = false;
}

allowed : policy_is_allowed false read_only_policy get_object ≡ ret true
unfolding policy_is_allowed read_only_policy decide eqb is_allowed actions_match set_of matches
    implicit_data implicit_warehouse is_table table_is_valid has_key supported_table_actions is_kms
    kms_is_valid supported_kms_actions ignores_resources is_sts sts_is_valid supported_sts_actions
    resources_match resource_match path_match expand is_admin admin_is_valid supported_admin_actions
    has contains_byte clean clean_parts evaluate_all
allowed = refl

policy_is_allowed-reads_example : reads (codes "s3:GetObject") ≡ true
unfolding supported_actions eqb
policy_is_allowed-reads_example =
    policy_is_allowed-reads objects false get_object refl refl refl allowed
