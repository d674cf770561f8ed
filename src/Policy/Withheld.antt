-- ===== src/Policy/Withheld.antt =====
-- policy/statement.go: a grant on the objects of a bucket is no grant of a sensitive write to the
-- bucket itself.
use silo_pkg.Prelude.{
  ℕ, ◌≡◌, refl, Bool, true, false, not, ◌&&◌, List, [], ◌∷◌, is_empty, arith, ret, Bool-cases, inl,
  inr, ◌==◌, all,
}
use silo_pkg.Prelude.Bytes.{Bytes, eqb, contains_byte, eqb→eq}
use silo_pkg.Prelude.Clean.{clean_no_slash}
use silo_pkg.Prelude.Paths.{clean}
use silo_pkg.Wildcard.Pattern.{Token, star, lit, token, Matches, byte, leave, take, cut, meaning}
use silo_pkg.Wildcard.Suffixes.{byte_inv}
use silo_pkg.Wildcard.Correct.{matches, matches_iff}
use silo_pkg.Condition.Values.{Values}
use silo_pkg.Policy.Hardening.{bare_not_table, bare_not_root, table_never}
use silo_pkg.Policy.Effect.{allow, effect_is_allowed}
use silo_pkg.Policy.Resource.{Resource, resource_match, path_match}
use silo_pkg.Policy.ResourceSet.{ResourceSet, resources_match}
use silo_pkg.Policy.Statement.{
  Statement, Args, withholds_slash, is_sensitive_bucket_mutation, request_resource,
  normalised_resource, check, check_at, check_resources, is_allowed, kms_short_cut, consult,
  ignores_resources,
}

token_slash : (c : ℕ) → (c == b'/') ≡ true → token c ≡ lit b'/'
unfolding token
token_slash c h = ground arith

slash_head :
    {p : List Token} (s : Bytes) → Matches false (lit b'/' ∷ p) s → contains_byte b'/' s ≡ true
unfolding contains_byte
slash_head [] d = elim d [ ]
slash_head (x ∷ s) d = let (a, _) = byte_inv tt d in ground arith

slash_tail :
    (t : Token) (p : List Token)
    → ((s' : Bytes) → Matches false p s' → contains_byte b'/' s' ≡ true)
    → (s : Bytes) → Matches false (t ∷ p) s
    → contains_byte b'/' s ≡ true
unfolding contains_byte
slash_tail t p ih _ (byte {x} {s} a d) = ground (arith, ih s d)
slash_tail t p ih s (leave d) = ih s d
slash_tail t p ih _ (take {x} {s} d) = ground (arith, slash_tail star p ih s d)
slash_tail t p ih _ (cut e) = cc

-- A text that a pattern with a '/' matches has a '/'.
Matches_slash :
    (p s : Bytes)
    → contains_byte b'/' p ≡ true
    → Matches false (meaning p) s
    → contains_byte b'/' s ≡ true
Matches_slash [] s h d = unfold contains_byte in cc
Matches_slash (c ∷ p) s h d = elim (Bool-cases (c == b'/')) [
  | inl e ↦ slash_head s (rw (token_slash c e) at d)
  | inr e ↦
      slash_tail (token c) (meaning p)
        (λ s' d'. Matches_slash p s' (unfold contains_byte in ground arith) d') s d
]

slash_no_match :
    (pattern bucket : Bytes)
    → contains_byte b'/' pattern ≡ true
    → contains_byte b'/' bucket ≡ false
    → path_match pattern bucket ≡ false
unfolding path_match
slash_no_match pattern bucket h n =
    let apart : eqb (clean bucket) pattern ≡ false = not_equal in
    let no_match : matches pattern bucket ≡ false = not_matched in ground arith
  where
    not_equal : eqb (clean bucket) pattern ≡ false
    not_equal = elim (Bool-cases (eqb (clean bucket) pattern)) [
      | inl e ↦ cc (eqb→eq (clean bucket) pattern e, clean_no_slash bucket n)
      | inr e ↦ e
    ]

    not_matched : matches pattern bucket ≡ false
    not_matched = elim (Bool-cases (matches pattern bucket)) [
      | inl m ↦ cc (Matches_slash pattern bucket h ((matches_iff pattern bucket).1.0 m))
      | inr m ↦ m
    ]

-- The pattern names objects only: it has a '/', and no variable.
unfoldable pub is_object_only : Resource → Bool
is_object_only r = contains_byte b'/' r.pattern && not (contains_byte b'$' r.pattern)

object_only_no_match :
    (set : ResourceSet) (bucket : Bytes) (values : Values)
    → all is_object_only set ≡ true
    → contains_byte b'/' bucket ≡ false
    → resources_match set bucket values ≡ ret false
unfolding resources_match resource_match is_object_only
object_only_no_match [] bucket values h n = refl
object_only_no_match (r ∷ set) bucket values h n =
    let slash : contains_byte b'/' r.pattern ≡ true = ground arith in
    let plain : contains_byte b'$' r.pattern ≡ false = ground arith in
    rw (plain, slash_no_match r.pattern bucket slash n)
      (object_only_no_match set bucket values (ground arith) n)

no_resource_no_check :
    (st : Statement) (args : Args) (bucket : Bytes)
    → ignores_resources st ≡ false
    → is_empty st.resources ≡ false
    → resources_match st.resources bucket args.condition_values ≡ ret false
    → check_resources true st args bucket ≡ ret false
unfolding check_resources consult
no_resource_no_check st args bucket i e m = rw (i, e, m)

withholds :
    (st : Statement) (args : Args)
    → is_empty args.object_name ≡ true
    → is_empty args.bucket_name ≡ false
    → eqb st.effect allow ≡ true
    → is_sensitive_bucket_mutation args.action ≡ true
    → withholds_slash false st args ≡ true
unfolding withholds_slash
withholds st args o b e s = rw (o, b, e, s)

check_at_bare :
    (st : Statement) (args : Args)
    → is_empty args.object_name ≡ true
    → contains_byte b'/' args.bucket_name ≡ false
    → ignores_resources st ≡ false
    → is_empty st.resources ≡ false
    → all is_object_only st.resources ≡ true
    → withholds_slash false st args ≡ true
    → check_at true st args (normalised_resource false st args) ≡ ret false
unfolding check_at normalised_resource request_resource kms_short_cut
check_at_bare st args o n i e objects w = ground (
  arith,
  bare_not_table args.bucket_name n,
  table_never args args.bucket_name o (bare_not_table args.bucket_name n),
  bare_not_root args.bucket_name n,
  no_resource_no_check st args args.bucket_name i e
      (object_only_no_match st.resources args.bucket_name args.condition_values objects n),
)

-- Without the legacy matching, an "Allow" statement all of whose resource patterns have a '/' and no
-- variable, and whose resources are matched at all, does not allow a sensitive bucket-level write: a
-- request with no object name, for a bucket whose name is not empty and has no '/'.
pub object_only_withheld :
    (st : Statement) (args : Args)
    → is_empty args.object_name ≡ true
    → is_empty args.bucket_name ≡ false
    → contains_byte b'/' args.bucket_name ≡ false
    → is_sensitive_bucket_mutation args.action ≡ true
    → eqb st.effect allow ≡ true
    → ignores_resources st ≡ false
    → is_empty st.resources ≡ false
    → all is_object_only st.resources ≡ true
    → is_allowed false st args ≡ ret false
unfolding is_allowed check effect_is_allowed
object_only_withheld st args o b n s a i e objects =
    let w = withholds st args o b a s in ground (arith, check_at_bare st args o n i e objects w)
