-- ===== src/Policy/DefaultGrants.antt =====
-- policy/constants.go: what the built-in policies for reading allow.
use silo_pkg.Prelude.{
  ◌≡◌, refl, sym, ◌∙◌, List, [], ◌∷◌, ◌++◌, Bool, true, false, not, ◌||◌, all, any, arith, Outcome,
  ret, panic, ◌>>=◌, any_of, Bool-cases, inl, inr, &&_split, if◌then◌else◌,
}
use silo_pkg.Prelude.Bytes.{Bytes, codes, eqb, eqb→eq, has_prefix}
use silo_pkg.Prelude.Sets.{set_of}
use silo_pkg.Wildcard.Correct.{matches}
use silo_pkg.Policy.Names.TableList.{supported_table_actions}
use silo_pkg.Policy.Names.Supported.{supported_actions}
use silo_pkg.Policy.Names.Implicit.{implicit_data, implicit_warehouse}
use silo_pkg.Policy.ActionSet.{actions_match}
use silo_pkg.Policy.Effect.{allow, effect_is_allowed}
use silo_pkg.Policy.Statement.{Statement, Args, is_allowed, check, action_applies}
use silo_pkg.Policy.Decide.{
  Policy, Decision, allow_decision, deny_decision, no_decision, decide, decide_rest, denies, grants,
  index_at, indexed_grant, policy_is_allowed, is_allow,
}
use silo_pkg.Policy.Defaults.{tables_read_only_policy, read_only_policy, console_read_only_policy}

any_of-true :
    {A : Type 0} (f : A → Outcome Bool) (q : A → Bool) (xs : List A)
    → ((x : A) → f x ≡ ret true → q x ≡ true)
    → any_of f xs ≡ ret true
    → any q xs ≡ true
any_of-true f q [] h e = cc
any_of-true f q (x ∷ xs) h e = one (f x) (q x) (h x) (any_of-true f q xs h) e
  where
    one :
        (o : Outcome Bool) (here : Bool)
        → (o ≡ ret true → here ≡ true)
        → (any_of f xs ≡ ret true → any q xs ≡ true)
        → (o >>= elim [ true ↦ ret true | false ↦ any_of f xs ]) ≡ ret true
        → (here || any q xs) ≡ true
    one (ret true) here h rest e = let yes = h refl in ground arith
    one (ret false) here h rest e = let later = rest e in ground arith
    one panic here h rest e = cc

either_way :
    (b : Bool)
    → ◌≡◌ {A = Outcome Bool}
        (if b then ret (if b then false else not false) else ret false)
        (ret false)
either_way true = refl
either_way false = refl

is_granted :
    (o : Outcome Bool)
    → (o
        >>= (λ granted. ret (if granted then allow_decision else no_decision))
        >>= (λ d. ret (is_allow d)))
      ≡ ret true
    → o ≡ ret true
is_granted (ret true) e = refl
is_granted (ret false) e = cc
is_granted panic e = cc

is_decided :
    (o : Outcome Bool) (rest : Outcome Decision)
    → (o >>= (λ denied. if denied then ret deny_decision else rest) >>= (λ d. ret (is_allow d)))
      ≡ ret true
    → (rest >>= (λ d. ret (is_allow d))) ≡ ret true
is_decided (ret true) rest e = cc
is_decided (ret false) rest e = e
is_decided panic rest e = cc

module _ (legacy : Bool) (args : Args) where
  check-other :
      (st : Statement) → action_applies st args.action ≡ false → check legacy st args ≡ ret false
  unfolding check
  check-other st other = rw other refl

  grants-other :
      (st : Statement) → action_applies st args.action ≡ false → grants legacy args st ≡ ret false
  unfolding grants is_allowed effect_is_allowed
  grants-other st other = rw (check-other st other) (either_way (eqb st.effect allow))

  -- A statement that grants a request applies to its action.
  grants-applies :
      (st : Statement) → grants legacy args st ≡ ret true → action_applies st args.action ≡ true
  grants-applies st e = elim (Bool-cases (action_applies st args.action)) [
    | inl applies ↦ applies
    | inr other ↦ absurd (false_true (sym (grants-other st other) ∙ e))
  ]
    where
      false_true : ◌≡◌ {A = Outcome Bool} (ret false) (ret true) → ⊥
      false_true e = cc

  -- A policy with no index that allows a request, which is not exempt, has a statement for its action.
  allowed-applies :
      (p : Policy)
      → p.action_statement_index ≡ []
      → args.deny_only ≡ false
      → args.is_owner ≡ false
      → policy_is_allowed legacy p args ≡ ret true
      → any (λ st. action_applies st args.action) p.statements ≡ true
  unfolding policy_is_allowed decide decide_rest index_at indexed_grant is_allowed
  allowed-applies p index deny_only owner e =
      let behind = is_decided (any_of (denies legacy args) p.statements) _ e in
      any_of-true (grants legacy args) (λ st. action_applies st args.action) p.statements
        grants-applies (is_granted _ (rw (deny_only, owner, index) at behind))

-- The built-in policies "readonly", "consolereadonly" and "tablesReadOnly".
pub data ReadOnly : Type 0 where
  objects console tables : ReadOnly

abbrev pub named : ReadOnly → Policy
named objects = read_only_policy
named console = console_read_only_policy
named tables = tables_read_only_policy

-- The name of an action that reads: s3:Get*, s3:List*, s3tables:Get*, s3tables:List*, s3tables:TableMetrics.
abbrev pub reads : Bytes → Bool
reads a =
    any (has_prefix a)
      (codes "s3:Get" ∷ codes "s3:List" ∷ codes "s3tables:Get" ∷ codes "s3tables:List" ∷ [])
    || eqb a (codes "s3tables:TableMetrics")

-- The actions on objects, buckets and tables.
abbrev pub data_actions : List Bytes
data_actions = supported_actions ++ supported_table_actions

-- Every one of the actions to which a statement of the policy applies is one that reads.
only_reads : Policy → Bool
only_reads p = all (λ a. not (any (λ st. action_applies st a) p.statements) || reads a) data_actions

named-reads : (k : ReadOnly) → only_reads (named k) ≡ true
unfolding only_reads action_applies read_only_policy console_read_only_policy
    tables_read_only_policy supported_actions supported_table_actions actions_match set_of eqb
    matches implicit_data implicit_warehouse has_prefix
named-reads objects = refl
named-reads console = refl
named-reads tables = refl

named_index : (k : ReadOnly) → (named k).action_statement_index ≡ []
unfolding read_only_policy console_read_only_policy tables_read_only_policy
named_index objects = refl
named_index console = refl
named_index tables = refl

one_of :
    (q r : Bytes → Bool) (actions : List Bytes) (a : Bytes)
    → all (λ x. not (q x) || r x) actions ≡ true
    → any (λ x. eqb x a) actions ≡ true
    → q a ≡ true
    → r a ≡ true
one_of q r [] a h m e = cc
one_of q r (x ∷ actions) a h m e =
    let (first, rest) = &&_split (not (q x) || r x) _ h in
    elim (Bool-cases (eqb x a)) [
      | inl same ↦
          let here : (not (q a) || r a) ≡ true = rw (← eqb→eq x a same) first in ground arith
      | inr other ↦ one_of q r actions a rest (ground arith) e
    ]

-- Whatever the bucket, the object and the values of its conditions, a request by someone who is not the owner,
-- not for `DenyOnly`, for one of the actions on objects, buckets and tables, that "readonly", "consolereadonly" or
-- "tablesReadOnly" allows is for an action that reads.
pub policy_is_allowed-reads :
    (k : ReadOnly) (legacy : Bool) (args : Args)
    → args.deny_only ≡ false
    → args.is_owner ≡ false
    → any (λ a. eqb a args.action) data_actions ≡ true
    → policy_is_allowed legacy (named k) args ≡ ret true
    → reads args.action ≡ true
unfolding only_reads
policy_is_allowed-reads k legacy args deny_only owner supported allowed =
    one_of (λ a. any (λ st. action_applies st a) (named k).statements) reads data_actions
      args.action (named-reads k) supported
      (allowed-applies legacy args (named k) (named_index k) deny_only owner allowed)
