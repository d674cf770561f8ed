-- ===== src/Policy/KeyMaps.antt =====
-- policy/action.go, admin-action.go, sts-action.go, table-action.go, vectors-action.go: the condition
-- keys that each action takes.
use silo_pkg.Prelude.{Bool, List, [], ◌∷◌, ◌++◌, map, if◌then◌else◌, Option, none, some}
use silo_pkg.Prelude.Bytes.{Bytes, eqb}
use silo_pkg.Condition.Names.Lists.{
  common_keys, all_supported_keys, all_supported_admin_keys, all_supported_sts_keys,
}
use silo_pkg.Condition.Values.{has_key}
use silo_pkg.Condition.Keys.{KeySet, to_key, key_merge}
use silo_pkg.Policy.Names.S3.{all_actions}
use silo_pkg.Policy.Names.IamKeys.{iam_action_keys}
use silo_pkg.Policy.Names.TableKeys.{table_action_keys}
use silo_pkg.Policy.Names.Admin.{supported_admin_actions}
use silo_pkg.Policy.Names.Sts.{supported_sts_actions}
use silo_pkg.Policy.Names.TableList.{supported_table_actions}
use silo_pkg.Policy.Names.Vectors.{supported_vectors_actions}
use silo_pkg.Policy.Action.{Action, action_match}

-- `condition.NewKeySet` of the keys `name.ToKey()`
unfoldable pub new_key_set : List Bytes → KeySet
unfolding key_merge to_key
new_key_set names = key_merge [] (map to_key names)

with_common : List (Action × List Bytes) → List (Action × KeySet)
with_common [] = []
with_common ((action, names) ∷ m) = (action, new_key_set (names ++ common_keys)) ∷ with_common m

-- `IAMActionConditionKeyMap`
unfoldable pub iam_action_condition_key_map : List (Action × KeySet)
unfolding with_common iam_action_keys
iam_action_condition_key_map =
    (all_actions, new_key_set all_supported_keys) ∷ with_common iam_action_keys

merge_matches : Action → KeySet → List (Action × KeySet) → KeySet
merge_matches action merged [] = merged
merge_matches action merged ((act, ckey) ∷ m) =
    merge_matches action (if action_match action act then key_merge merged ckey else merged) m

-- `ActionConditionKeyMap.Lookup`
unfoldable pub lookup : List (Action × KeySet) → Action → KeySet
unfolding merge_matches
lookup m action = merge_matches action (new_key_set common_keys) m

-- `adminActionConditionKeyMap[action]`, the nil set for a key that is absent
unfoldable pub admin_action_keys : Action → KeySet
unfolding has_key
admin_action_keys action =
    if has_key supported_admin_actions action then new_key_set all_supported_admin_keys else []

-- `stsActionConditionKeyMap[action]`; its keys are those of `supportedSTSActions`
unfoldable pub sts_action_keys : Action → KeySet
unfolding has_key
sts_action_keys action =
    if has_key supported_sts_actions action then new_key_set all_supported_sts_keys else []

override_at : List (Action × List Bytes) → Action → Option (List Bytes)
unfolding eqb
override_at [] action = none
override_at ((a, names) ∷ m) action = if eqb a action then some names else override_at m action

table_keys_of : Bool → Option (List Bytes) → KeySet
table_keys_of supported (some names) = new_key_set (common_keys ++ names)
table_keys_of supported none = if supported then new_key_set common_keys else []

-- `tableActionConditionKeyMap[action]`
unfoldable pub table_keys : Action → KeySet
unfolding table_keys_of override_at table_action_keys has_key
table_keys action =
    table_keys_of (has_key supported_table_actions action) (override_at table_action_keys action)

-- `VectorsActionConditionKeyMap[action]`
unfoldable pub vectors_action_keys : Action → KeySet
unfolding has_key
vectors_action_keys action =
    if has_key supported_vectors_actions action then new_key_set common_keys else []
