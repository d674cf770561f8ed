-- ===== src/Policy/Examples.antt =====
-- package policy: the theorems on statements and decisions at concrete policies and requests.
use silo_pkg.Prelude.{
  ◌≡◌, ◌≢◌, refl, true, false, [], ◌∷◌, ret, panic, Outcome, length, Bool, ◌↔◌, arith,
}
use silo_pkg.Prelude.Bytes.{codes, contains_byte, eqb, has_prefix}
use silo_pkg.Prelude.Paths.{clean, clean_parts}
use silo_pkg.Prelude.Sets.{distinct}
use silo_pkg.Wildcard.Correct.{matches}
use silo_pkg.Wildcard.Loop.{has}
use silo_pkg.Condition.Values.{has_key}
use silo_pkg.Condition.Functions.{evaluate_all}
use silo_pkg.Policy.Names.TableList.{supported_table_actions}
use silo_pkg.Policy.Names.Kms.{supported_kms_actions}
use silo_pkg.Policy.Names.Sts.{supported_sts_actions}
use silo_pkg.Policy.Names.Admin.{supported_admin_actions}
use silo_pkg.Policy.Action.{
  Action, match_any, admin_is_valid, table_is_valid, kms_is_valid, sts_is_valid, can_match_prefix,
  before_wildcard, action_match,
}
use silo_pkg.Policy.ActionSet.{actions_equal, actions_contain, bytes_eq, actions_match}
use silo_pkg.Policy.Effect.{allow}
use silo_pkg.Policy.Resource.{match_resource, path_match, resource_match}
use silo_pkg.Policy.ResourceSet.{resources_match, resource_eq}
use silo_pkg.Policy.Statement.{
  Statement, is_allowed, is_sensitive_bucket_mutation, ignores_resources, is_table, is_kms, is_sts,
  is_admin,
}
use silo_pkg.Policy.Decide.{Policy, decide, update_action_index}
use silo_pkg.Policy.Samples.{objects, whole_bucket, statement_on, put_policy, user_values}
use silo_pkg.Policy.Scan.{admin_is_valid-scan}
use silo_pkg.Policy.Hardening.{is_allowed_mono}
use silo_pkg.Policy.Withheld.{object_only_withheld, is_object_only}
use silo_pkg.Policy.Variables.{match_resource-path_match, resources_match_no_panic}
use silo_pkg.Policy.Decisions.{AllAnswer, decide-decision_spec, decision_spec, InRange}
use silo_pkg.Policy.Indexing.{update_action_index-InRange, decide-update_action_index}
use silo_pkg.Policy.SetLaws.{actions_equal_iff}

answers : {o : Outcome Bool} (b : Bool) → o ≡ ret b → o ≢ panic
answers b e h = cc

object_only_withheld_example : is_allowed false (statement_on allow objects) put_policy ≡ ret false
unfolding is_sensitive_bucket_mutation ignores_resources is_object_only contains_byte eqb is_sts
    sts_is_valid supported_sts_actions is_admin admin_is_valid supported_admin_actions has
    can_match_prefix before_wildcard has_prefix
object_only_withheld_example =
    object_only_withheld (statement_on allow objects) put_policy refl refl refl refl refl refl refl
      refl

-- The statement allows the request.
pub bucket_allowed : is_allowed false (statement_on allow whole_bucket) put_policy ≡ ret true
unfolding is_allowed resources_match resource_match path_match matches clean actions_match is_table
    table_is_valid is_kms kms_is_valid ignores_resources is_sts sts_is_valid is_admin admin_is_valid
    has_key supported_table_actions supported_kms_actions supported_sts_actions
    supported_admin_actions has can_match_prefix before_wildcard match_any action_match evaluate_all
    is_sensitive_bucket_mutation contains_byte clean_parts
bucket_allowed = refl

is_allowed_mono_example : is_allowed true (statement_on allow whole_bucket) put_policy ≡ ret true
unfolding contains_byte eqb
is_allowed_mono_example =
    is_allowed_mono (statement_on allow whole_bucket) put_policy refl refl bucket_allowed

-- A statement on one action that is no wildcard.
abbrev exact : Statement
exact = record {
  sid = [];
  effect = allow;
  actions = codes "s3:PutBucketPolicy" ∷ [];
  not_actions = [];
  resources = whole_bucket ∷ [];
  not_resources = [];
  conditions = [];
}

-- A policy with that statement and an index that names it.
abbrev indexed : Policy
indexed = record {
  id = [];
  version = codes "2012-10-17";
  statements = exact ∷ [];
  action_statement_index = (codes "s3:PutBucketPolicy", 0 ∷ []) ∷ [];
  has_deny = false;
}

indexed-InRange : InRange (length indexed.statements) indexed.action_statement_index
indexed-InRange = ((omega arith, tt), tt)

-- The index after one more run of `updateActionIndex`.
indexed_again :
    (update_action_index indexed).action_statement_index
    ≡ (codes "s3:PutBucketPolicy", 0 ∷ 0 ∷ []) ∷ []
unfolding update_action_index has eqb
indexed_again = refl

exact_allowed : is_allowed false exact put_policy ≡ ret true
unfolding is_allowed resources_match resource_match path_match matches clean actions_match is_table
    table_is_valid is_kms kms_is_valid ignores_resources is_sts sts_is_valid is_admin admin_is_valid
    has_key supported_table_actions supported_kms_actions supported_sts_actions
    supported_admin_actions has can_match_prefix before_wildcard match_any action_match evaluate_all
    is_sensitive_bucket_mutation contains_byte clean_parts
exact_allowed = refl

indexed_allowed : AllAnswer false put_policy indexed.statements
indexed_allowed = (answers true exact_allowed, tt)

decide-decision_spec_example :
    decide false indexed put_policy ≡ ret (decision_spec false indexed.statements put_policy)
decide-decision_spec_example =
    decide-decision_spec false put_policy indexed indexed_allowed indexed-InRange

update_action_index-InRange_example :
    InRange (length indexed.statements) (update_action_index indexed).action_statement_index
update_action_index-InRange_example = update_action_index-InRange indexed indexed-InRange

decide-update_action_index_example :
    decide false (update_action_index indexed) put_policy ≡ decide false indexed put_policy
decide-update_action_index_example =
    decide-update_action_index false put_policy indexed indexed_allowed indexed-InRange

admin_is_valid-scan_example :
    admin_is_valid (codes "admin:Create*")
    ≡ match_any (codes "admin:Create*") supported_admin_actions
admin_is_valid-scan_example = admin_is_valid-scan (codes "admin:Create*")

match_resource-path_match_example :
    match_resource objects (codes "mybucket/a")
    ≡ ret (path_match objects.pattern (codes "mybucket/a"))
match_resource-path_match_example = match_resource-path_match objects (codes "mybucket/a")

resources_match_no_panic_example :
    resources_match (objects ∷ []) (codes "mybucket/a") user_values ≢ panic
resources_match_no_panic_example =
    resources_match_no_panic (objects ∷ []) (codes "mybucket/a") user_values (refl, tt)

actions_equal_iff_example : (actions_equal (codes "s3:*" ∷ []) (codes "s3:*" ∷ []) ≡ true) ↔ (
    (action : Action)
    → actions_contain (codes "s3:*" ∷ []) action ≡ actions_contain (codes "s3:*" ∷ []) action)
unfolding distinct
actions_equal_iff_example = actions_equal_iff (codes "s3:*" ∷ []) (codes "s3:*" ∷ []) refl refl
