-- ===== src/Policy/Indexing.antt =====
-- policy/policy.go: the index that `updateActionIndex` builds names only statements that there are,
-- so `Decide` never reads outside of the statements, and its fast path changes no decision.
use silo_pkg.Prelude.{
  ℕ, suc, ◌+◌, ◌<◌, ◌≤◌, ◌≡◌, refl, sym, ap, ◌∙◌, Bool, true, ◌||◌, List, [], ◌∷◌, ◌++◌, any,
  length, All, arith, ret, Bool-cases, inl, inr,
}
use silo_pkg.Prelude.Bytes.{eqb}
use silo_pkg.Wildcard.Loop.{has}
use silo_pkg.Policy.Action.{Action}
use silo_pkg.Policy.Effect.{deny}
use silo_pkg.Policy.Statement.{Statement, Args}
use silo_pkg.Policy.Decide.{
  Policy, Index, decide, index_add, index_actions, index_statements, update_action_index,
  has_deny_statement,
}
use silo_pkg.Policy.Decisions.{InRange, AllAnswer, decision_spec, decide-decision_spec}

All-snoc : (n i : ℕ) (is : List ℕ) → All (λ j. j < n) is → i < n → All (λ j. j < n) (is ++ i ∷ [])
All-snoc n i [] h lt = (lt, tt)
All-snoc n i (j ∷ is) h lt = (h.0, All-snoc n i is h.1 lt)

index_add-InRange :
    (n : ℕ) (index : Index) (action : Action) (i : ℕ)
    → InRange n index
    → i < n
    → InRange n (index_add index action i)
unfolding index_add
index_add-InRange n [] action i r lt = ((lt, tt), tt)
index_add-InRange n ((a, is) ∷ index) action i r lt = elim (Bool-cases (eqb a action)) [
  | inl same ↦ rw same (All-snoc n i is r.0 lt, r.1)
  | inr other ↦ rw other (r.0, index_add-InRange n index action i r.1 lt)
]

index_actions-InRange :
    (n i : ℕ) (actions : List Action) (index : Index)
    → InRange n index
    → i < n
    → InRange n (index_actions index i actions)
unfolding index_actions
index_actions-InRange n i [] index r lt = r
index_actions-InRange n i (action ∷ actions) index r lt = elim (Bool-cases (has action)) [
  | inl wild ↦ rw wild (index_actions-InRange n i actions index r lt)
  | inr plain ↦ rw plain (
      index_actions-InRange n i actions (index_add index action i)
        (index_add-InRange n index action i r lt) lt)
]

index_statements-InRange :
    (n i : ℕ) (statements : List Statement) (index : Index) (has_deny : Bool)
    → InRange n index
    → i + length statements ≤ n
    → InRange n (index_statements index has_deny i statements).0
unfolding index_statements
index_statements-InRange n i [] index d r le = r
index_statements-InRange n i (st ∷ statements) index d r le =
    elim (Bool-cases (eqb st.effect deny)) [
      | inl denial ↦
          rw (denial, index_statements)
            (index_statements-InRange n (suc i) statements index true r (omega arith))
      | inr other ↦
          rw (other, index_statements)
            (index_statements-InRange n (suc i) statements (index_actions index i st.actions) d
              (index_actions-InRange n i st.actions index r (omega arith)) (omega arith))
    ]

-- `updateActionIndex` keeps an index that names only statements of the policy such an index.
pub update_action_index-InRange :
    (p : Policy)
    → InRange (length p.statements) p.action_statement_index
    → InRange (length p.statements) (update_action_index p).action_statement_index
unfolding update_action_index
update_action_index-InRange p r =
    index_statements-InRange (length p.statements) 0 p.statements p.action_statement_index
      p.has_deny r (omega arith)

same_statements : (p : Policy) → (update_action_index p).statements ≡ p.statements
unfolding update_action_index
same_statements p = refl

-- A policy whose index `updateActionIndex` has built decides every request at which no statement
-- panics as the same policy does with its index as it was: the fast path is an optimisation.
pub decide-update_action_index :
    (legacy : Bool) (args : Args) (p : Policy)
    → AllAnswer legacy args p.statements
    → InRange (length p.statements) p.action_statement_index
    → decide legacy (update_action_index p) args ≡ decide legacy p args
decide-update_action_index legacy args p h r =
    decide-decision_spec legacy args (update_action_index p) (rw (same_statements p) h)
      (rw (same_statements p) (update_action_index-InRange p r))
    ∙ ap (λ (s : List Statement). ret (decision_spec legacy s args)) (same_statements p)
    ∙ sym (decide-decision_spec legacy args p h r)

deny_seen :
    (i : ℕ) (statements : List Statement) (index : Index) (b : Bool)
    → (index_statements index b i statements).1
      ≡ (b || any (λ (st : Statement). eqb st.effect deny) statements)
unfolding index_statements
deny_seen i [] index b = ground arith
deny_seen i (st ∷ statements) index b = ground (
  arith,
  deny_seen (suc i) statements index true,
  deny_seen (suc i) statements (index_actions index i st.actions) b,
)

-- `HasDenyStatement` answers alike before and after `updateActionIndex` has set the cached flag.
has_deny_statement-update_action_index :
    (p : Policy) → has_deny_statement (update_action_index p) ≡ has_deny_statement p
unfolding has_deny_statement update_action_index
has_deny_statement-update_action_index p =
    ground (arith, deny_seen 0 p.statements p.action_statement_index p.has_deny)
