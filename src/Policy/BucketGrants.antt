-- ===== src/Policy/BucketGrants.antt =====
-- policy/bucket-policy.go and policy/resource.go: what `BucketPolicy.IsAllowed` decides, and which
-- resources `ValidateBucket` admits.
use silo_pkg.Prelude.{
  ◌≡◌, ◌≢◌, Bool, true, false, not, ◌&&◌, ◌||◌, List, [], ◌∷◌, ◌++◌, any, all, All, any_of-ret, ret,
  panic, arith, ◌↔◌, ◌⊎◌, inl, inr, Bool-cases, &&_split, is_empty,
}
use silo_pkg.Prelude.Bytes.{Bytes, eqb}
use silo_pkg.Wildcard.Pattern.{Matches, meaning}
use silo_pkg.Wildcard.Loop.{match_as_pattern_prefix}
use silo_pkg.Wildcard.Correct.{matches, matches_iff}
use silo_pkg.Wildcard.Prefix.{match_as_pattern_prefix_iff}
use silo_pkg.Policy.Effect.{allow, deny}
use silo_pkg.Policy.Resource.{Resource, resource_is_valid, validate_bucket}
use silo_pkg.Policy.Decisions.{bool_of}
use silo_pkg.Policy.BucketPolicy.{
  BpStatement, BucketPolicyArgs, BucketPolicy, bp_statement_is_allowed, bp_denies, bp_grants,
  bucket_policy_is_allowed, bp_statement_validate, bucket_policy_validate, bucket_policy_is_valid,
}
use silo_pkg.Policy.ResourceSet.{ResourceSet, validate_bucket_resources}

-- No statement panics at the request.
abbrev pub AllAnswer : BucketPolicyArgs → List BpStatement → Type 0
AllAnswer args statements = All (λ st. bp_statement_is_allowed st args ≢ panic) statements

-- Whether the statement's effect is "Deny" and it denies the request.
unfoldable pub denied_by : BucketPolicyArgs → BpStatement → Bool
denied_by args st = eqb st.effect deny && not (bool_of (bp_statement_is_allowed st args))

-- Whether the statement's effect is "Allow" and it allows the request.
unfoldable pub granted_by : BucketPolicyArgs → BpStatement → Bool
granted_by args st = eqb st.effect allow && bool_of (bp_statement_is_allowed st args)

module _ (args : BucketPolicyArgs) where
  denies_answers :
      (st : BpStatement)
      → bp_statement_is_allowed st args ≢ panic
      → bp_denies args st ≡ ret (denied_by args st)
  unfolding bp_denies denied_by
  denies_answers st h = ground arith

  grants_answers :
      (st : BpStatement)
      → bp_statement_is_allowed st args ≢ panic
      → bp_grants args st ≡ ret (granted_by args st)
  unfolding bp_grants granted_by
  grants_answers st h = ground arith

  denies-All :
      (statements : List BpStatement)
      → AllAnswer args statements
      → All (λ st. bp_denies args st ≡ ret (denied_by args st)) statements
  denies-All [] h = tt
  denies-All (st ∷ statements) h = (denies_answers st h.0, denies-All statements h.1)

  grants-All :
      (statements : List BpStatement)
      → AllAnswer args statements
      → All (λ st. bp_grants args st ≡ ret (granted_by args st)) statements
  grants-All [] h = tt
  grants-All (st ∷ statements) h = (grants_answers st h.0, grants-All statements h.1)

  -- If no statement panics at the request, a bucket policy allows it exactly if no statement denies it,
  -- and the owner makes it or some statement grants it.
  pub bucket_policy_is_allowed_lem :
      (policy : BucketPolicy)
      → AllAnswer args policy.statements
      → bucket_policy_is_allowed policy args
        ≡ ret (
            not (any (denied_by args) policy.statements)
            && (args.is_owner || any (granted_by args) policy.statements))
  unfolding bucket_policy_is_allowed
  bucket_policy_is_allowed_lem policy h =
      rw
        (any_of-ret (bp_denies args) (denied_by args) policy.statements
          (denies-All policy.statements h))
        (ground (
          arith,
          any_of-ret (bp_grants args) (granted_by args) policy.statements
              (grants-All policy.statements h),
        ))

-- `ValidateBucket` admits a resource for a bucket exactly if the resource is valid and its pattern matches
-- the bucket's name or some text that begins with the name and a '/'.
validate_bucket_iff :
    (r : Resource) (bucket_name : Bytes)
    → (validate_bucket r bucket_name ≡ true) ↔ (
        (resource_is_valid r ≡ true)
        × (Matches false (meaning r.pattern) bucket_name
            ⊎ ((rest : Bytes) × Matches false
                  (meaning r.pattern)
                  ((bucket_name ++ b'/' ∷ []) ++ rest))))
unfolding validate_bucket
validate_bucket_iff r bucket_name = (to, from)
  where
    whole : (matches r.pattern bucket_name ≡ true) ↔ Matches false (meaning r.pattern) bucket_name
    whole = (matches_iff r.pattern bucket_name).1

    below :
        (match_as_pattern_prefix r.pattern (bucket_name ++ b'/' ∷ []) ≡ true)
        ↔ ((rest : Bytes) × Matches false (meaning r.pattern) ((bucket_name ++ b'/' ∷ []) ++ rest))
    below = match_as_pattern_prefix_iff r.pattern (bucket_name ++ b'/' ∷ [])

    to :
        validate_bucket r bucket_name ≡ true
        → (resource_is_valid r ≡ true)
          × (Matches false (meaning r.pattern) bucket_name
              ⊎ ((rest : Bytes) × Matches false
                    (meaning r.pattern)
                    ((bucket_name ++ b'/' ∷ []) ++ rest)))
    to h = elim (Bool-cases (matches r.pattern bucket_name)) [
      | inl m ↦ (ground arith, inl (whole.0 m))
      | inr m ↦ (ground arith, inr (below.0 (ground arith)))
    ]

    from :
        (resource_is_valid r ≡ true)
          × (Matches false (meaning r.pattern) bucket_name
              ⊎ ((rest : Bytes) × Matches false
                    (meaning r.pattern)
                    ((bucket_name ++ b'/' ∷ []) ++ rest)))
        → validate_bucket r bucket_name ≡ true
    from (v, inl m) = let found = whole.1 m in ground arith
    from (v, inr m) = let found = below.1 m in ground arith

-- The resource is valid and names the bucket or something in it.
abbrev pub Names : Bytes → Resource → Type 0
Names bucket_name r =
    (resource_is_valid r ≡ true)
    × (Matches false (meaning r.pattern) bucket_name
        ⊎ ((rest : Bytes) × Matches false (meaning r.pattern) ((bucket_name ++ b'/' ∷ []) ++ rest)))

Names-All :
    (set : ResourceSet) (bucket_name : Bytes)
    → (is_empty set ≡ true) ⊎ (validate_bucket_resources set bucket_name ≡ true)
    → All (Names bucket_name) set
unfolding validate_bucket_resources
Names-All [] bucket_name h = tt
Names-All (r ∷ set) bucket_name (inl h) = cc
Names-All (r ∷ set) bucket_name (inr h) =
    let (first, rest) = &&_split (validate_bucket r bucket_name) _ h in
    ((validate_bucket_iff r bucket_name).0 first, Names-All set bucket_name (inr rest))

statement-Names :
    (st : BpStatement) (bucket_name : Bytes)
    → bp_statement_validate st bucket_name ≡ true
    → All (Names bucket_name) st.resources × All (Names bucket_name) st.not_resources
unfolding bp_statement_validate
statement-Names st bucket_name h = (
  Names-All st.resources bucket_name (ground arith),
  Names-All st.not_resources bucket_name (ground arith),
)

statements-Names :
    (statements : List BpStatement) (bucket_name : Bytes)
    → all (λ st. bp_statement_validate st bucket_name) statements ≡ true
    → All
        (λ (st : BpStatement).
          All (Names bucket_name) st.resources × All (Names bucket_name) st.not_resources)
        statements
statements-Names [] bucket_name h = tt
statements-Names (st ∷ statements) bucket_name h =
    let (first, rest) = &&_split (bp_statement_validate st bucket_name) _ h in
    (statement-Names st bucket_name first, statements-Names statements bucket_name rest)

-- In a bucket policy that `Validate` accepts for a bucket, every resource in Resource and NotResource is
-- valid, and its pattern matches the bucket's name or some text that begins with the name and a '/'.
pub bucket_policy_validate-All :
    (policy : BucketPolicy) (bucket_name : Bytes)
    → bucket_policy_validate policy bucket_name ≡ true
    → All
        (λ (st : BpStatement).
          All (Names bucket_name) st.resources × All (Names bucket_name) st.not_resources)
        policy.statements
unfolding bucket_policy_validate
bucket_policy_validate-All policy bucket_name h =
    statements-Names policy.statements bucket_name (&&_split (bucket_policy_is_valid policy) _ h).1
