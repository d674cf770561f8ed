-- ===== src/Policy/Validity.antt =====
-- policy/statement.go and policy/policy.go: what a valid statement or policy is like.
use silo_pkg.Prelude.{
  ◌≡◌, refl, Bool, true, false, not, List, [], ◌∷◌, all, is_empty, ret, Option, some, none, arith,
}
use silo_pkg.Prelude.Bytes.{Bytes, eqb}
use silo_pkg.Prelude.Sets.{mem}
use silo_pkg.Policy.Action.{Action}
use silo_pkg.Policy.ActionSet.{bytes_eq}
use silo_pkg.Policy.Effect.{allow, effect_is_allowed}
use silo_pkg.Policy.ResourceSet.{resources_match}
use silo_pkg.Policy.Statement.{
  Statement, Args, is_admin, is_sts, is_kms, is_allowed, check, check_at, check_resources, consult,
  normalised_resource, ignores_resources, kms_short_cut, withholds_slash,
}
use silo_pkg.Policy.Decide.{Policy}
use silo_pkg.Policy.ActionTypes.{namespace_of, named_actions, validate_action_types}
use silo_pkg.Policy.Validate.{
  validate_admin, one_resource_field, head_is_valid, table_statement_is_valid,
  vectors_statement_is_valid, s3_statement_is_valid, statement_is_valid, statement_is_valid_strict,
  policy_is_valid, policy_is_valid_strict,
}
use silo_pkg.Policy.Namespaces.{types_alike}

-- Each kind of statement that needs resources has them in one of the two fields.
table_field : (st : Statement) → table_statement_is_valid st ≡ true → one_resource_field st ≡ true
unfolding table_statement_is_valid
table_field st h = ground arith

vectors_field :
    (st : Statement) → vectors_statement_is_valid st ≡ true → one_resource_field st ≡ true
unfolding vectors_statement_is_valid
vectors_field st h = ground arith

one_field :
    (st : Statement)
    → one_resource_field st ≡ true
    → is_empty st.resources ≡ not (is_empty st.not_resources)
unfolding one_resource_field
one_field st h = ground arith

strict_admin : (st : Statement) → validate_admin st true ≡ true → validate_admin st false ≡ true
unfolding validate_admin
strict_admin st h = ground arith

head_types : (st : Statement) → head_is_valid st ≡ true → validate_action_types st ≡ true
unfolding head_is_valid
head_types st h = ground arith

head_fields :
    (st : Statement) → head_is_valid st ≡ true → is_empty st.actions ≡ not (is_empty st.not_actions)
unfolding head_is_valid
head_fields st h = ground arith

module _ (valid_string : Bytes → Bool) where
  s3_field :
      (st : Statement) → s3_statement_is_valid valid_string st ≡ true → one_resource_field st ≡ true
  unfolding s3_statement_is_valid
  s3_field st h = ground arith

  valid_head :
      (st : Statement) → statement_is_valid valid_string st ≡ true → head_is_valid st ≡ true
  unfolding statement_is_valid
  valid_head st h = ground arith

  valid_field :
      (st : Statement)
      → is_admin st ≡ false
      → is_sts st ≡ false
      → is_kms st ≡ false
      → statement_is_valid valid_string st ≡ true
      → one_resource_field st ≡ true
  unfolding statement_is_valid
  valid_field st a s k h = ground (arith, table_field st, vectors_field st, s3_field st)

  strict-valid :
      (st : Statement)
      → statement_is_valid_strict valid_string st ≡ true
      → statement_is_valid valid_string st ≡ true
  unfolding statement_is_valid_strict statement_is_valid
  strict-valid st h = ground (arith, strict_admin st)

  all_strict :
      (statements : List Statement)
      → all (statement_is_valid_strict valid_string) statements ≡ true
      → all (statement_is_valid valid_string) statements ≡ true
  all_strict [] h = refl
  all_strict (st ∷ statements) h = ground (arith, strict-valid st, all_strict statements)

  -- Whatever strings are valid IDs, a policy that the strict validation accepts is accepted by the
  -- permissive one.
  pub policy_is_valid_strict-policy_is_valid :
      (p : Policy)
      → policy_is_valid_strict valid_string p ≡ true
      → policy_is_valid valid_string p ≡ true
  unfolding policy_is_valid_strict policy_is_valid
  policy_is_valid_strict-policy_is_valid p h = ground (arith, all_strict p.statements)

  -- Whatever strings are valid IDs, all actions that a valid statement names, be it in Action or in
  -- NotAction, are of one namespace.
  pub statement_is_valid-namespace_of :
      (st : Statement) (a b : Action)
      → statement_is_valid valid_string st ≡ true
      → mem a (named_actions st) ≡ true
      → mem b (named_actions st) ≡ true
      → namespace_of a ≡ namespace_of b
  statement_is_valid-namespace_of st a b h ma mb =
      types_alike st a b (head_types st (valid_head st h)) ma mb

  -- Whatever strings are valid IDs, a valid statement that is no admin, STS or KMS statement has exactly
  -- one of Action and NotAction, and exactly one of Resource and NotResource.
  pub statement_is_valid_fields :
      (st : Statement)
      → is_admin st ≡ false
      → is_sts st ≡ false
      → is_kms st ≡ false
      → statement_is_valid valid_string st ≡ true
      → (is_empty st.actions ≡ not (is_empty st.not_actions))
        × (is_empty st.resources ≡ not (is_empty st.not_resources))
  statement_is_valid_fields st a s k h =
      (head_fields st (valid_head st h), one_field st (valid_field st a s k h))

consulted :
    (st : Statement) (args : Args) (withheld : Bool) (resource : Bytes)
    → ignores_resources st ≡ false
    → is_empty st.resources ≡ false
    → check_resources withheld st args resource ≡ ret true
    → resources_match st.resources resource args.condition_values ≡ ret true
unfolding check_resources consult
consulted st args withheld resource i e h = ground arith

-- An "Allow" statement answers true only if its closure `check` does.
allowed_check :
    (legacy : Bool) (st : Statement) (args : Args)
    → eqb st.effect allow ≡ true
    → is_allowed legacy st args ≡ ret true
    → check_at (withholds_slash legacy st args) st args (normalised_resource legacy st args)
      ≡ ret true
unfolding is_allowed check effect_is_allowed
allowed_check legacy st args a h = ground arith

matched_at :
    (st : Statement) (args : Args) (withheld : Bool) (text : Option Bytes)
    → is_kms st ≡ false
    → ignores_resources st ≡ false
    → is_empty st.resources ≡ false
    → check_at withheld st args text ≡ ret true
    → (resource : Bytes) × (text ≡ some resource)
      × (resources_match st.resources resource args.condition_values ≡ ret true)
unfolding check_at kms_short_cut
matched_at st args withheld none k i e h = cc
matched_at st args withheld (some resource) k i e h =
    (resource, refl, ground (arith, consulted st args withheld resource i e))

not_ignored :
    (st : Statement) → is_admin st ≡ false → is_sts st ≡ false → ignores_resources st ≡ false
unfolding ignores_resources
not_ignored st a s = ground arith

-- Whatever strings are valid IDs, a valid "Allow" statement with no NotResource, that is no admin, STS or
-- KMS statement, allows only requests whose resource, in the form in which it is tested, one of the
-- statement's resources matches.
pub valid_grant-resources_match :
    (valid_string : Bytes → Bool) (legacy : Bool) (st : Statement) (args : Args)
    → is_admin st ≡ false
    → is_sts st ≡ false
    → is_kms st ≡ false
    → is_empty st.not_resources ≡ true
    → eqb st.effect allow ≡ true
    → statement_is_valid valid_string st ≡ true
    → is_allowed legacy st args ≡ ret true
    → (resource : Bytes) × (normalised_resource legacy st args ≡ some resource)
      × (resources_match st.resources resource args.condition_values ≡ ret true)
valid_grant-resources_match valid_string legacy st args a s k n allows v h =
    let fields = statement_is_valid_fields valid_string st a s k v in
    let present : is_empty st.resources ≡ false = ground arith in
    matched_at st args (withholds_slash legacy st args) (normalised_resource legacy st args) k
      (not_ignored st a s) present (allowed_check legacy st args allows h)
