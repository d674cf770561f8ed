-- ===== src/Policy/SetLaws.antt =====
-- policy/actionset.go and policy/resourceset.go: what `Equals` of the two kinds of sets answers.
use silo_pkg.Prelude.{true, ◌≡◌, ◌↔◌}
use silo_pkg.Prelude.Sets.{mem, distinct, set_equals→mem, mem→set_equals}
use silo_pkg.Policy.Action.{Action}
use silo_pkg.Policy.ActionSet.{ActionSet, actions_contain, actions_equal, bytes_eq}
use silo_pkg.Policy.Resource.{Resource}
use silo_pkg.Policy.ResourceSet.{ResourceSet, resources_equal, resource_eq}

-- For sets of actions with no element twice, `ActionSet.Equals` answers true exactly if `Contains`
-- answers alike for every action.
pub actions_equal_iff :
    (set other : ActionSet)
    → distinct set ≡ true
    → distinct other ≡ true
    → (actions_equal set other ≡ true)
      ↔ ((action : Action) → actions_contain set action ≡ actions_contain other action)
unfolding actions_equal actions_contain
actions_equal_iff set other d d' = (set_equals→mem set other d, mem→set_equals set other d d')

-- For sets of resources with no element twice, `ResourceSet.Equals` answers true exactly if the same
-- resources are in both.
resources_equal_iff :
    (set other : ResourceSet)
    → distinct set ≡ true
    → distinct other ≡ true
    → (resources_equal set other ≡ true)
      ↔ ((resource : Resource) → mem resource set ≡ mem resource other)
unfolding resources_equal
resources_equal_iff set other d d' = (set_equals→mem set other d, mem→set_equals set other d d')
