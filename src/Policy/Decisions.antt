-- ===== src/Policy/Decisions.antt =====
-- policy/policy.go: what `Decide` decides, with its index of the actions and without.
use silo_pkg.Prelude.{
  ℕ, zero, suc, ◌<◌, ◌≡◌, ◌≢◌, ◌⊎◌, refl, ap, ◌∙◌, Bool, true, false, not, ◌&&◌, ◌||◌, List, [],
  ◌∷◌, any, length, All, get_elem?, if◌then◌else◌, arith, Outcome, ret, panic, any_of, any_of-ret,
  Bool-cases, inl, inr,
}
use silo_pkg.Prelude.Bytes.{eqb}
use silo_pkg.Policy.Action.{Action}
use silo_pkg.Policy.Effect.{allow, deny}
use silo_pkg.Policy.Statement.{Statement, Args, is_allowed}
use silo_pkg.Policy.Decide.{
  Policy, Index, Decision, no_decision, allow_decision, deny_decision, decide, decide_rest, denies,
  grants, grants_elem, index_at, indexed_grant,
}

abbrev pub bool_of : Outcome Bool → Bool
bool_of (ret b) = b
bool_of panic = false

-- Whether the statement's effect is "Deny" and it denies the request.
pub denied_by : Bool → Args → Statement → Bool
denied_by legacy args st = eqb st.effect deny && not (bool_of (is_allowed legacy st args))

-- Whether the statement's effect is "Allow" and it allows the request.
pub granted_by : Bool → Args → Statement → Bool
granted_by legacy args st = eqb st.effect allow && bool_of (is_allowed legacy st args)

-- The decision as a specification: denials first, then the exempt requests, then the grants.
pub decision_spec : Bool → List Statement → Args → Decision
decision_spec legacy statements args =
    if any (denied_by legacy args) statements
    then deny_decision
    else if args.deny_only || args.is_owner || any (granted_by legacy args) statements
    then allow_decision
    else no_decision

-- No statement panics at the request.
abbrev pub AllAnswer : Bool → Args → List Statement → Type 0
AllAnswer legacy args statements = All (λ st. is_allowed legacy st args ≢ panic) statements

-- The index names statements that there are.
abbrev pub InRange : ℕ → Index → Type 0
InRange n index = All (λ (e : Action × List ℕ). All (λ i. i < n) e.1) index

module _ (legacy : Bool) (args : Args) where
  denies_answers :
      (st : Statement)
      → is_allowed legacy st args ≢ panic
      → denies legacy args st ≡ ret (denied_by legacy args st)
  unfolding denies denied_by
  denies_answers st h = ground arith

  grants_answers :
      (st : Statement)
      → is_allowed legacy st args ≢ panic
      → grants legacy args st ≡ ret (granted_by legacy args st)
  unfolding grants granted_by
  grants_answers st h = ground arith

  denies-All :
      (statements : List Statement)
      → AllAnswer legacy args statements
      → All (λ st. denies legacy args st ≡ ret (denied_by legacy args st)) statements
  denies-All [] h = tt
  denies-All (st ∷ statements) h = (denies_answers st h.0, denies-All statements h.1)

  grants-All :
      (statements : List Statement)
      → AllAnswer legacy args statements
      → All (λ st. grants legacy args st ≡ ret (granted_by legacy args st)) statements
  grants-All [] h = tt
  grants-All (st ∷ statements) h = (grants_answers st h.0, grants-All statements h.1)

  -- A statement that the index names grants the request only if some statement of the policy does.
  abbrev Sound : List Statement → Outcome Bool → Type 0
  Sound statements o =
      (o ≡ ret false) ⊎ ((o ≡ ret true) × (any (granted_by legacy args) statements ≡ true))

  elem-Sound :
      (statements : List Statement) (i : ℕ)
      → AllAnswer legacy args statements
      → i < length statements
      → Sound statements (grants_elem legacy args (get_elem? statements i))
  elem-Sound [] i h lt = absurd (omega arith)
  elem-Sound (st ∷ statements) zero h lt = elim (Bool-cases (granted_by legacy args st)) [
    | inl g ↦ inr (unfold grants_elem in grants_answers st h.0 ∙ ap ret g, rw g)
    | inr g ↦ inl (unfold grants_elem in grants_answers st h.0 ∙ ap ret g)
  ]
  elem-Sound (st ∷ statements) (suc i) h lt = elim (elem-Sound statements i h.1 (omega arith)) [
    | inl no_grant ↦ inl no_grant
    | inr (e, g) ↦ inr (e, ground arith)
  ]

  elems-Sound :
      (statements : List Statement) (indexes : List ℕ)
      → AllAnswer legacy args statements
      → All (λ i. i < length statements) indexes
      → Sound statements (any_of (λ i. grants_elem legacy args (get_elem? statements i)) indexes)
  elems-Sound statements [] h r = inl refl
  elems-Sound statements (i ∷ indexes) h r = elim (elem-Sound statements i h r.0) [
    | inl e ↦ rw e (elems-Sound statements indexes h r.1)
    | inr (e, g) ↦ inr (rw e, g)
  ]

  index-Sound :
      (statements : List Statement) (index : Index) (action : Action)
      → AllAnswer legacy args statements
      → InRange (length statements) index
      → Sound statements (indexed_grant legacy args statements (index_at index action))
  unfolding index_at indexed_grant
  index-Sound statements [] action h r = inl refl
  index-Sound statements ((a, indexes) ∷ index) action h r = elim (Bool-cases (eqb a action)) [
    | inl same ↦ rw same (elems-Sound statements indexes h r.0)
    | inr other ↦ rw other (index-Sound statements index action h r.1)
  ]

  rest_spec : List Statement → Decision
  rest_spec statements =
      if args.deny_only || args.is_owner || any (granted_by legacy args) statements
      then allow_decision
      else no_decision

  decide_rest_lem :
      (p : Policy)
      → AllAnswer legacy args p.statements
      → InRange (length p.statements) p.action_statement_index
      → decide_rest legacy p args ≡ ret (rest_spec p.statements)
  unfolding decide_rest rest_spec
  decide_rest_lem p h r = ground (
    arith,
    index-Sound p.statements p.action_statement_index args.action h r,
    any_of-ret (grants legacy args) (granted_by legacy args) p.statements
        (grants-All p.statements h),
  )

  -- If no statement panics at the request and the index names only statements that there are, `Decide`
  -- decides as the specification does: a statement that denies the request decides it; else it is
  -- allowed for `DenyOnly`, for the owner and by a statement that grants it; else there is no decision.
  pub decide-decision_spec :
      (p : Policy)
      → AllAnswer legacy args p.statements
      → InRange (length p.statements) p.action_statement_index
      → decide legacy p args ≡ ret (decision_spec legacy p.statements args)
  unfolding decide decision_spec
  decide-decision_spec p h r =
      rw
        (any_of-ret (denies legacy args) (denied_by legacy args) p.statements
          (denies-All p.statements h))
        (unfold rest_spec in ground (arith, decide_rest_lem p h r))
