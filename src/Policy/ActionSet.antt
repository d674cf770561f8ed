-- ===== src/Policy/ActionSet.antt =====
-- policy/actionset.go: sets of actions.
use silo_pkg.Prelude.{Bool, ◌||◌, List, [], ◌∷◌, ◌++◌, any, all, if◌then◌else◌}
use silo_pkg.Prelude.Bytes.{Bytes, eqb, eqb_iff}
use silo_pkg.Prelude.Sets.{Eq, mem, set_add, set_of, set_equals, set_intersection}
use silo_pkg.Policy.Names.Implicit.{implicit_data, implicit_warehouse}
use silo_pkg.Policy.Action.{
  Action, action_match, action_is_valid, admin_is_valid, kms_is_valid, sts_is_valid, table_is_valid,
  vectors_is_valid,
}

instance abbrev pub bytes_eq : Eq Bytes
bytes_eq = record { beq = eqb; beq_iff = eqb_iff }

abbrev pub ActionSet : Type 0
ActionSet = List Action

-- `ActionSet.Add`
unfoldable pub actions_add : ActionSet → Action → ActionSet
actions_add set action = set_add set action

-- `NewActionSet`
unfoldable pub new_action_set : List Action → ActionSet
new_action_set actions = set_of actions

-- `ActionSet.Contains`
unfoldable pub actions_contain : ActionSet → Action → Bool
actions_contain set action = mem action set

-- `implicitActions[r]`, the empty set for a key that is absent
unfoldable pub implicit_at : List (Bytes × List Bytes) → Action → ActionSet
implicit_at [] r = []
implicit_at ((j, actions) ∷ m) r = if eqb j r then actions else implicit_at m r

unfoldable pub implicit_of : Action → ActionSet
unfolding implicit_at
implicit_of r = implicit_at (implicit_data ++ implicit_warehouse) r

-- one round of the loop of `ActionSet.Match`
unfoldable pub covers : Action → Action → Bool
unfolding action_match actions_contain implicit_of
covers action r = action_match r action || actions_contain (implicit_of r) action

-- `ActionSet.Match`
unfoldable pub actions_match : ActionSet → Action → Bool
unfolding covers
actions_match set action = any (covers action) set

-- `ActionSet.Equals`
unfoldable pub actions_equal : ActionSet → ActionSet → Bool
actions_equal set other = set_equals set other

-- `ActionSet.Intersection`
unfoldable pub actions_intersection : ActionSet → ActionSet → ActionSet
actions_intersection set other = set_intersection set other

-- `ValidateAdmin`, `ValidateSTS`, `ValidateKMS`, `ValidateTable`, `ValidateVectors` and `Validate`:
-- whether they return nil
unfoldable pub validate_admin_actions : ActionSet → Bool
validate_admin_actions set = all admin_is_valid set

unfoldable pub validate_sts_actions : ActionSet → Bool
validate_sts_actions set = all sts_is_valid set

unfoldable pub validate_kms_actions : ActionSet → Bool
validate_kms_actions set = all kms_is_valid set

unfoldable pub validate_table_actions : ActionSet → Bool
validate_table_actions set = all table_is_valid set

unfoldable pub validate_vectors_actions : ActionSet → Bool
validate_vectors_actions set = all vectors_is_valid set

unfoldable pub validate_actions : ActionSet → Bool
validate_actions set = all action_is_valid set
