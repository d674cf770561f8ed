-- ===== src/Policy/Hardening.antt =====
-- policy/statement.go: what `legacyBucketResourceMatch` changes. Without it a grant of a sensitive
-- bucket-level write is never wider than with it, and no other answer depends on it.
use silo_pkg.Prelude.{
  ◌≡◌, refl, sym, ◌∙◌, true, false, [], ◌∷◌, ◌++◌, is_empty, none, arith, ret, Bool-cases, inl, inr,
}
use silo_pkg.Prelude.Bytes.{Bytes, eqb, codes, has_prefix, contains_byte}
use silo_pkg.Policy.Effect.{allow, effect_is_allowed}
use silo_pkg.Policy.Resource.{is_table_resource_string}
use silo_pkg.Policy.Statement.{
  Statement, Args, withholds_slash, request_resource, normalised_resource, table_resource, check,
  check_at, check_resources, is_allowed, kms_short_cut, consult_restored, restored_form,
}

-- The legacy mode withholds nothing.
withholds_legacy : (st : Statement) (args : Args) → withholds_slash true st args ≡ false
unfolding withholds_slash
withholds_legacy st args = ground arith

same_resource :
    (st : Statement) (args : Args)
    → withholds_slash false st args ≡ false
    → request_resource false st args ≡ request_resource true st args
unfolding request_resource
same_resource st args h = rw (h, withholds_legacy st args)

same_check :
    (st : Statement) (args : Args)
    → withholds_slash false st args ≡ false
    → is_allowed false st args ≡ is_allowed true st args
unfolding is_allowed check normalised_resource
same_check st args h = rw (same_resource st args h, h, withholds_legacy st args)

not_withheld :
    (st : Statement) (args : Args)
    → eqb st.effect allow ≡ false
    → withholds_slash false st args ≡ false
unfolding withholds_slash
not_withheld st args h = ground arith

-- A statement whose effect is not "Allow" answers alike with the legacy matching and without it: no
-- denial is weakened.
is_allowed_not_allow :
    (st : Statement) (args : Args)
    → eqb st.effect allow ≡ false
    → is_allowed false st args ≡ is_allowed true st args
is_allowed_not_allow st args h = same_check st args (not_withheld st args h)

-- A name with no '/' is no tables resource, nor is it one with a '/' put behind it.
no_slash_prefix :
    (s p : Bytes) → contains_byte b'/' s ≡ false → has_prefix s (p ++ b'/' ∷ []) ≡ false
unfolding contains_byte has_prefix
no_slash_prefix [] [] h = refl
no_slash_prefix [] (y ∷ p) h = refl
no_slash_prefix (x ∷ s) [] h = ground arith
no_slash_prefix (x ∷ s) (y ∷ p) h = ground (arith, no_slash_prefix s p)

pub bare_not_table : (s : Bytes) → contains_byte b'/' s ≡ false → is_table_resource_string s ≡ false
unfolding is_table_resource_string
bare_not_table s h = rw (no_slash_prefix s (codes "bucket") h)

pub bare_not_root : (s : Bytes) → contains_byte b'/' s ≡ false → eqb s (b'/' ∷ []) ≡ false
unfolding contains_byte eqb
bare_not_root [] h = refl
bare_not_root (x ∷ []) h = ground arith
bare_not_root (x ∷ y ∷ s) h = ground arith

slashed_not_root : (s : Bytes) → is_empty s ≡ false → eqb (s ++ b'/' ∷ []) (b'/' ∷ []) ≡ false
unfolding eqb
slashed_not_root [] h = cc
slashed_not_root (x ∷ []) h = ground arith
slashed_not_root (x ∷ y ∷ s) h = ground arith

-- What it takes to withhold the '/'.
withheld_parts :
    (st : Statement) (args : Args)
    → withholds_slash false st args ≡ true
    → (is_empty args.object_name ≡ true) × (is_empty args.bucket_name ≡ false)
unfolding withholds_slash
withheld_parts st args h = (ground arith, ground arith)

bare_resource :
    (st : Statement) (args : Args)
    → withholds_slash false st args ≡ true
    → (request_resource false st args ≡ args.bucket_name)
      × (request_resource true st args ≡ args.bucket_name ++ b'/' ∷ [])
unfolding request_resource
bare_resource st args h =
    let (o, _) = withheld_parts st args h in (rw (h, o), rw (withholds_legacy st args, o))

-- The check of the bare form and then of the restored one passes only if the check of the restored
-- form alone does.
check_resources_mono :
    (st : Statement) (args : Args) (bucket : Bytes)
    → check_resources true st args bucket ≡ ret true
    → check_resources false st args (bucket ++ b'/' ∷ []) ≡ ret true
unfolding check_resources consult_restored restored_form
check_resources_mono st args bucket h = ground arith

pub table_never :
    (args : Args) (resource : Bytes)
    → is_empty args.object_name ≡ true
    → is_table_resource_string resource ≡ false
    → table_resource args resource ≡ none
unfolding table_resource
table_never args resource o t = ground arith

check_at_mono :
    (st : Statement) (args : Args)
    → withholds_slash false st args ≡ true
    → contains_byte b'/' args.bucket_name ≡ false
    → check_at true st args (normalised_resource false st args) ≡ ret true
    → check_at false st args (normalised_resource true st args) ≡ ret true
unfolding check_at normalised_resource kms_short_cut
check_at_mono st args w n h = ground (
  arith,
  withheld_parts st args w,
  bare_resource st args w,
  bare_not_table args.bucket_name n,
  bare_not_root args.bucket_name n,
  slashed_not_root args.bucket_name,
  table_never args args.bucket_name,
  check_resources_mono st args args.bucket_name,
)

-- If the bucket's name has no '/', a statement that allows the request without the legacy matching
-- allows it with the legacy matching too: the hardening only takes grants away.
pub is_allowed_mono :
    (st : Statement) (args : Args)
    → contains_byte b'/' args.bucket_name ≡ false
    → eqb st.effect allow ≡ true
    → is_allowed false st args ≡ ret true
    → is_allowed true st args ≡ ret true
is_allowed_mono st args n a h = elim (Bool-cases (withholds_slash false st args)) [
  | inl w ↦
      unfold is_allowed check effect_is_allowed in
      ground (arith, w, withholds_legacy st args, check_at_mono st args w n)
  | inr same ↦ sym (same_check st args same) ∙ h
]
