-- ===== src/Policy/Action.antt =====
-- policy/*action.go: what an action matches, and which actions are valid. Everywhere a Go map that
-- serves as a set is the list of its keys, in the order in which a loop over the map meets them.
use silo_pkg.Prelude.{
  Bool, true, false, not, ◌||◌, List, [], ◌∷◌, any, length, ltb, if◌then◌else◌, ◌==◌,
}
use silo_pkg.Prelude.Bytes.{Bytes, codes, has_prefix}
use silo_pkg.Wildcard.Loop.{has}
use silo_pkg.Wildcard.Correct.{matches}
use silo_pkg.Condition.Values.{has_key}
use silo_pkg.Policy.Names.Supported.{supported_actions, supported_object_actions}
use silo_pkg.Policy.Names.Admin.{supported_admin_actions, admin_actions_with_resource}
use silo_pkg.Policy.Names.Kms.{supported_kms_actions}
use silo_pkg.Policy.Names.Sts.{supported_sts_actions}
use silo_pkg.Policy.Names.TableList.{supported_table_actions}
use silo_pkg.Policy.Names.Vectors.{supported_vectors_actions}

-- `Action`, and the types of actions over the same strings
abbrev pub Action : Type 0
Action = Bytes

-- `Action.Match`, `AdminAction.Match`
unfoldable pub action_match : Action → Action → Bool
action_match action a = matches action a

-- a loop over a set of actions for one that the pattern matches
unfoldable pub match_any : Action → List Action → Bool
unfolding action_match
match_any action supported = any (action_match action) supported

-- `Action.IsObjectAction`
unfoldable pub is_object_action : Action → Bool
is_object_action action = match_any action supported_object_actions

-- `Action.IsValid`
unfoldable pub action_is_valid : Action → Bool
action_is_valid action = match_any action supported_actions

-- `AdminAction.HasResource`
unfoldable pub admin_has_resource : Action → Bool
admin_has_resource action =
    if has_key admin_actions_with_resource action
    then true
    else if not (has action)
    then false
    else match_any action admin_actions_with_resource

-- `adminActionPrefix`
abbrev pub admin_action_prefix : Bytes
admin_action_prefix = codes "admin:"

-- `s[:star]`, for the first wildcard of the pattern
unfoldable pub before_wildcard : Bytes → Bytes
before_wildcard [] = []
before_wildcard (c ∷ s) = if c == b'*' || c == b'?' then [] else c ∷ before_wildcard s

-- `canMatchPrefix`
unfoldable pub can_match_prefix : Bytes → Bytes → Bool
can_match_prefix head prefix =
    if ltb (length prefix) (length head) then has_prefix head prefix else has_prefix prefix head

-- `AdminAction.IsValid`
unfoldable pub admin_is_valid : Action → Bool
admin_is_valid action =
    if has_key supported_admin_actions action
    then true
    else if not (has action)
    then false
    else if not (can_match_prefix (before_wildcard action) admin_action_prefix)
    then false
    else match_any action supported_admin_actions

-- `KMSAction.IsValid`
unfoldable pub kms_is_valid : Action → Bool
kms_is_valid action = has_key supported_kms_actions action

-- `STSAction.IsValid`
unfoldable pub sts_is_valid : Action → Bool
sts_is_valid action = has_key supported_sts_actions action

-- `TableAction.IsValid`
unfoldable pub table_is_valid : Action → Bool
table_is_valid action = has_key supported_table_actions action

-- `VectorsAction.IsValid`
unfoldable pub vectors_is_valid : Action → Bool
vectors_is_valid action = has_key supported_vectors_actions action
