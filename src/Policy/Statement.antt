-- ===== src/Policy/Statement.antt =====
-- policy/statement.go: statements, and what one statement says of a request.
use silo_pkg.Prelude.{
  Bool, true, false, not, ◌&&◌, ◌||◌, List, [], ◌∷◌, ◌++◌, any, is_empty, Option, none, some,
  if◌then◌else◌, Outcome, ret, ◌>>=◌,
}
use silo_pkg.Prelude.Bytes.{Bytes, eqb, codes, has_prefix}
use silo_pkg.Condition.Values.{Values, has_key, before_byte}
use silo_pkg.Condition.Functions.{Functions, evaluate_all}
use silo_pkg.Policy.Names.S3.{
  delete_bucket_action, force_delete_bucket_action, put_bucket_policy_action,
  delete_bucket_policy_action, put_replication_configuration_action, put_bucket_lifecycle_action,
  put_bucket_object_lock_configuration_action, put_bucket_versioning_action, put_bucket_cors_action,
  delete_bucket_cors_action, put_bucket_qos_action, put_inventory_configuration_action,
}
use silo_pkg.Policy.Action.{
  Action, admin_is_valid, admin_has_resource, kms_is_valid, sts_is_valid, table_is_valid,
  vectors_is_valid,
}
use silo_pkg.Policy.ActionSet.{ActionSet, actions_match}
use silo_pkg.Policy.Effect.{Effect, allow, effect_is_allowed}
use silo_pkg.Policy.Resource.{is_table_resource_string}
use silo_pkg.Policy.ResourceSet.{ResourceSet, resources_match}

-- `Statement`
pub record Statement : Type 0 where
  pub sid : Bytes
  pub effect : Effect
  pub actions : ActionSet
  pub not_actions : ActionSet
  pub resources : ResourceSet
  pub not_resources : ResourceSet
  pub conditions : Functions

-- `Args`: the fields that a decision reads
pub record Args : Type 0 where
  pub action : Action
  pub bucket_name : Bytes
  pub condition_values : Values
  pub is_owner : Bool
  pub object_name : Bytes
  pub deny_only : Bool

-- The keys of `sensitiveBucketMutationActions`.
unfoldable pub sensitive_bucket_mutation_actions : List Action
sensitive_bucket_mutation_actions =
    delete_bucket_action ∷ force_delete_bucket_action ∷ put_bucket_policy_action
    ∷ delete_bucket_policy_action ∷ put_replication_configuration_action
    ∷ put_bucket_lifecycle_action ∷ put_bucket_object_lock_configuration_action
    ∷ put_bucket_versioning_action ∷ put_bucket_cors_action ∷ delete_bucket_cors_action
    ∷ put_bucket_qos_action ∷ put_inventory_configuration_action ∷ []

-- `isSensitiveBucketMutation`
unfoldable pub is_sensitive_bucket_mutation : Action → Bool
unfolding has_key sensitive_bucket_mutation_actions
is_sensitive_bucket_mutation action = has_key sensitive_bucket_mutation_actions action

-- `isAdmin`, `hasAdminResource`, `isSTS`, `isKMS`, `isTable`, `isVectors`
unfoldable pub is_admin : Statement → Bool
is_admin st = any admin_is_valid st.actions

unfoldable pub has_admin_resource : Statement → Bool
has_admin_resource st = any admin_has_resource st.actions

unfoldable pub is_sts : Statement → Bool
is_sts st = any sts_is_valid st.actions

unfoldable pub is_kms : Statement → Bool
is_kms st = any kms_is_valid st.actions

unfoldable pub is_table : Statement → Bool
is_table st = any table_is_valid st.actions

unfoldable pub is_vectors : Statement → Bool
is_vectors st = any vectors_is_valid st.actions

-- Whether the statement's actions say something of the request's action.
unfoldable pub action_applies : Statement → Action → Bool
action_applies st action =
    if (not (actions_match st.actions action) && not (is_empty st.actions))
      || actions_match st.not_actions action
    then false
    else true

-- `withheldBucketSlash`: the case in which the '/' behind the bucket's name is left out. `legacy` is
-- the value of `legacyBucketResourceMatch`.
unfoldable pub withholds_slash : Bool → Statement → Args → Bool
unfolding eqb
withholds_slash legacy st args =
    is_empty args.object_name
    && not (is_empty args.bucket_name)
    && not (legacy || not (eqb st.effect allow) || not (is_sensitive_bucket_mutation args.action))

-- The text that stands for the requested resource.
unfoldable pub request_resource : Bool → Statement → Args → Bytes
unfolding has_prefix withholds_slash
request_resource legacy st args =
    if not (is_empty args.object_name)
    then (if not (has_prefix args.object_name (b'/' ∷ []))
        then args.bucket_name ++ b'/' ∷ args.object_name
        else args.bucket_name ++ args.object_name)
    else if withholds_slash legacy st args
    then args.bucket_name
    else args.bucket_name ++ b'/' ∷ []

-- The S3 request for a table's data in the form of a tables resource; `none` is `return false`.
unfoldable pub table_resource : Args → Bytes → Option Bytes
unfolding before_byte is_table_resource_string
table_resource args resource =
    if is_table_resource_string resource
    then some resource
    else if is_empty args.bucket_name || is_empty args.object_name
    then none
    else let text =
        codes "bucket/"
        ++ (args.bucket_name ++ (codes "/table/" ++ before_byte b'/' args.object_name)) in
      if is_table_resource_string text then some text else none

unfoldable pub normalised_resource : Bool → Statement → Args → Option Bytes
unfolding table_resource request_resource
normalised_resource legacy st args =
    let resource = request_resource legacy st args in
    if is_table st && not (table_is_valid args.action)
    then table_resource args resource
    else some resource

-- `!ignore && len(set) > 0 && ok(set.Match(…))`: whether a set of resources is consulted, and its answer
unfoldable pub consult : Bool → ResourceSet → Bytes → Values → Outcome (Option Bool)
consult ignore set resource values =
    if ignore || is_empty set
    then ret none
    else (resources_match set resource values >>= λ b. ret (some b))

-- Whether the set is consulted and has no match; whether it is consulted and has one.
abbrev pub refuses : Option Bool → Bool
refuses (some false) = true
refuses _ = false

abbrev pub excludes : Option Bool → Bool
excludes (some true) = true
excludes _ = false

-- the check of the restored form, if the '/' was withheld
unfoldable pub consult_restored : Bool → Bool → ResourceSet → Bytes → Values → Outcome (Option Bool)
unfolding consult
consult_restored withheld ignore set resource values =
    if withheld then consult ignore set resource values else ret none

unfoldable pub restored_form : Bool → Bytes → Bytes
restored_form withheld resource = if withheld then resource ++ b'/' ∷ [] else resource

-- `ignoreResourceMatch`
unfoldable pub ignores_resources : Statement → Bool
ignores_resources st = is_sts st || (is_admin st && not (has_admin_resource st))

-- The part of `check` that matches the resource, in the order of its early returns.
unfoldable pub check_resources : Bool → Statement → Args → Bytes → Outcome Bool
unfolding consult consult_restored restored_form
check_resources withheld st args resource = do
  let ignore = ignores_resources st
  first ← consult ignore st.resources resource args.condition_values
  if refuses first then ret false else do
    let restored = restored_form withheld resource
    second ← consult_restored withheld ignore st.resources restored args.condition_values
    if refuses second then ret false else do
      excluded ← consult ignore st.not_resources restored args.condition_values
      if excludes excluded then ret false else evaluate_all st.conditions args.condition_values

-- the early return for KMS statements
unfoldable pub kms_short_cut : Statement → Bytes → Bool
unfolding eqb
kms_short_cut st resource = is_kms st && (eqb resource (b'/' ∷ []) || is_empty st.resources)

unfoldable pub check_at : Bool → Statement → Args → Option Bytes → Outcome Bool
unfolding kms_short_cut check_resources
check_at withheld st args none = ret false
check_at withheld st args (some resource) =
    if kms_short_cut st resource
    then evaluate_all st.conditions args.condition_values
    else check_resources withheld st args resource

-- the closure `check`
unfoldable pub check : Bool → Statement → Args → Outcome Bool
unfolding action_applies check_at normalised_resource
check legacy st args =
    if not (action_applies st args.action)
    then ret false
    else check_at (withholds_slash legacy st args) st args (normalised_resource legacy st args)

-- `Statement.IsAllowedPtr`, `Statement.IsAllowed`
unfoldable pub is_allowed : Bool → Statement → Args → Outcome Bool
unfolding check effect_is_allowed
is_allowed legacy st args = check legacy st args >>= λ b. ret (effect_is_allowed st.effect b)
