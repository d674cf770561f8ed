-- ===== src/Policy/Decide.antt =====
-- policy/policy.go: policies and their decisions.
use silo_pkg.Prelude.{
  ℕ, suc, Bool, true, false, not, ◌||◌, List, [], ◌∷◌, ◌++◌, any, is_empty, get_elem?, Option, none,
  some, if◌then◌else◌, Outcome, ret, panic, ◌>>=◌, any_of,
}
use silo_pkg.Prelude.Bytes.{Bytes, eqb}
use silo_pkg.Wildcard.Loop.{has}
use silo_pkg.Policy.Action.{Action}
use silo_pkg.Policy.Effect.{allow, deny}
use silo_pkg.Policy.ResourceSet.{resources_match_resource}
use silo_pkg.Policy.Statement.{Statement, Args, is_allowed}

-- `actionStatementIndex`, a map
abbrev pub Index : Type 0
Index = List (Action × List ℕ)

-- `Policy`
pub record Policy : Type 0 where
  pub id : Bytes
  pub version : Bytes
  pub statements : List Statement
  pub action_statement_index : Index
  pub has_deny : Bool

-- `Decision`
pub data Decision : Type 0 where
  no_decision allow_decision deny_decision : Decision

-- `statement.Effect == Deny && !statement.IsAllowedPtr(args)`
unfoldable pub denies : Bool → Args → Statement → Outcome Bool
denies legacy args st =
    if eqb st.effect deny then (is_allowed legacy st args >>= λ b. ret (not b)) else ret false

-- `statement.Effect == Allow && statement.IsAllowedPtr(args)`
unfoldable pub grants : Bool → Args → Statement → Outcome Bool
grants legacy args st = if eqb st.effect allow then is_allowed legacy st args else ret false

-- `iamp.actionStatementIndex[action]`
unfoldable pub index_at : Index → Action → Option (List ℕ)
index_at [] action = none
index_at ((a, indexes) ∷ m) action = if eqb a action then some indexes else index_at m action

-- the body of the loop over the indexes; `iamp.Statements[index]` panics out of range
unfoldable pub grants_elem : Bool → Args → Option Statement → Outcome Bool
unfolding grants
grants_elem legacy args none = panic
grants_elem legacy args (some st) = grants legacy args st

unfoldable pub indexed_grant : Bool → Args → List Statement → Option (List ℕ) → Outcome Bool
unfolding grants_elem
indexed_grant legacy args statements none = ret false
indexed_grant legacy args statements (some indexes) =
    any_of (λ i. grants_elem legacy args (get_elem? statements i)) indexes

-- what `Decide` does behind the loop over the deny statements
unfoldable pub decide_rest : Bool → Policy → Args → Outcome Decision
unfolding index_at indexed_grant grants
decide_rest legacy p args =
    if args.deny_only then ret allow_decision else if args.is_owner then ret allow_decision else do
      indexed ←
          indexed_grant legacy args p.statements (index_at p.action_statement_index args.action)
      if indexed then ret allow_decision else do
        granted ← any_of (grants legacy args) p.statements
        ret (if granted then allow_decision else no_decision)

-- `Policy.Decide`
unfoldable pub decide : Bool → Policy → Args → Outcome Decision
unfolding denies decide_rest
decide legacy p args = do
  denied ← any_of (denies legacy args) p.statements
  if denied then ret deny_decision else decide_rest legacy p args

abbrev pub is_allow : Decision → Bool
is_allow allow_decision = true
is_allow _ = false

-- `Policy.IsAllowed`
unfoldable pub policy_is_allowed : Bool → Policy → Args → Outcome Bool
policy_is_allowed legacy p args = decide legacy p args >>= λ d. ret (is_allow d)

-- The loop of `IsAllowedSerial`, with `gotAllow`.
unfoldable pub serial_loop : Bool → Args → List Policy → Bool → Outcome Bool
serial_loop legacy args [] got_allow = ret got_allow
serial_loop legacy args (p ∷ policies) got_allow = decide legacy p args >>= elim [
  | deny_decision ↦ ret false
  | allow_decision ↦ serial_loop legacy args policies true
  | no_decision ↦ serial_loop legacy args policies got_allow
]

-- `IsAllowedSerial`
unfoldable pub is_allowed_serial : Bool → List Policy → Args → Outcome Bool
unfolding serial_loop
is_allowed_serial legacy policies args = serial_loop legacy args policies false

-- `HasDenyStatement`
unfoldable pub has_deny_statement : Policy → Bool
has_deny_statement p = p.has_deny || any (λ (st : Statement). eqb st.effect deny) p.statements

-- `Policy.MatchResource`
unfoldable pub policy_match_resource : Policy → Bytes → Outcome Bool
policy_match_resource p resource =
    any_of (λ (st : Statement). resources_match_resource st.resources resource) p.statements

-- `Policy.IsEmpty`
unfoldable pub policy_is_empty : Policy → Bool
policy_is_empty p = is_empty p.statements

-- `m[action] = append(m[action], i)`
unfoldable pub index_add : Index → Action → ℕ → Index
index_add [] action i = (action, i ∷ []) ∷ []
index_add ((a, indexes) ∷ m) action i =
    if eqb a action then (a, indexes ++ i ∷ []) ∷ m else (a, indexes) ∷ index_add m action i

-- the loop over the actions of the statement number i
unfoldable pub index_actions : Index → ℕ → List Action → Index
unfolding index_add has
index_actions index i [] = index
index_actions index i (action ∷ actions) =
    index_actions (if has action then index else index_add index action i) i actions

-- The loop of `updateActionIndex` from the statement number i on.
unfoldable pub index_statements : Index → Bool → ℕ → List Statement → Index × Bool
unfolding index_actions
index_statements index has_deny i [] = (index, has_deny)
index_statements index has_deny i (st ∷ statements) =
    index_statements (if eqb st.effect deny then index else index_actions index i st.actions)
      (if eqb st.effect deny then true else has_deny) (suc i) statements

-- `updateActionIndex`
unfoldable pub update_action_index : Policy → Policy
unfolding index_statements
update_action_index p =
    let (index, deny_seen) = index_statements p.action_statement_index p.has_deny 0 p.statements in
    record p { action_statement_index = index; has_deny = deny_seen }
