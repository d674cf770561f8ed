-- ===== src/Policy/Parse.antt =====
-- policy/resource.go: `ParseResource` does not depend on the order in which Go walks the map of ARN
-- prefixes, and reads back what `String` writes.
use silo_pkg.Prelude.{
  ◌≡◌, refl, ap, Bool, true, false, ◌||◌, List, [], ◌∷◌, ◌++◌, is_empty, some, arith, Bool-cases,
  inl, inr, length, drop, ==_refl,
}
use silo_pkg.Prelude.Bytes.{Bytes, eqb, has_prefix, contains_byte}
use silo_pkg.Policy.Resource.{
  Resource, ArnType, unknown_arn, arn_s3, arn_s3tables, arn_kms, arn_all, arn_prefix_to_type,
  parse_loop, parse_resource, no_resource, resource_string, arn_string, resource_is_valid,
}
use silo_pkg.Policy.ParseLoop.{Entry, In, IsOrder, read_as, known, found, loop_misses, table_entry}

starts : Bytes → ArnType → Bool
starts s t = has_prefix s (arn_string t)

none_of :
    (s : Bytes)
    → (starts s arn_s3 || starts s arn_s3tables || starts s arn_kms || starts s arn_all) ≡ false
    → (t : ArnType) → known t ≡ true
    → has_prefix s (arn_string t) ≡ false
unfolding starts
none_of s h unknown_arn k = cc
none_of s h arn_s3 k = ground arith
none_of s h arn_s3tables k = ground arith
none_of s h arn_kms k = ground arith
none_of s h arn_all k = ground arith

abbrev Start : Bytes → Type 0
Start s = (t : ArnType) × (known t ≡ true) × (has_prefix s (arn_string t) ≡ true)

some_of :
    (s : Bytes)
    → (starts s arn_s3 || starts s arn_s3tables || starts s arn_kms || starts s arn_all) ≡ true
    → Start s
unfolding starts
some_of s h = elim (Bool-cases (starts s arn_s3)) [
  | inl a ↦ (arn_s3, refl, a)
  | inr a ↦ elim (Bool-cases (starts s arn_s3tables)) [
    | inl b ↦ (arn_s3tables, refl, b)
    | inr b ↦ elim (Bool-cases (starts s arn_kms)) [
      | inl c ↦ (arn_kms, refl, c)
      | inr c ↦ (arn_all, refl, ground arith)
    ]
  ]
]

missed :
    (order : List Entry) (s : Bytes)
    → IsOrder order
    → ((t : ArnType) → known t ≡ true → has_prefix s (arn_string t) ≡ false)
    → parse_loop order s no_resource ≡ no_resource
missed order s o h = loop_misses order s no_resource no_prefix
  where
    no_prefix : (e : Entry) → In e order → has_prefix s e.0 ≡ false
    no_prefix e i =
        let (shape, k) = table_entry e (o.1 e i) in rw (ap (λ (x : Entry). x.0) shape) (h e.1 k)

-- The order in which the model lists the map's entries is one.
pub arn_prefix_to_type-IsOrder : IsOrder arn_prefix_to_type
arn_prefix_to_type-IsOrder = (λ e i. i, λ e i. i)

-- In whatever order Go walks the map of ARN prefixes, `ParseResource` returns the same resource, or an
-- error for the same texts.
pub parse_resource_order :
    (order : List (Bytes × ArnType)) (s : Bytes)
    → IsOrder order
    → parse_resource order s ≡ parse_resource arn_prefix_to_type s
unfolding parse_resource
parse_resource_order order s o =
    elim (Bool-cases
      (starts s arn_s3 || starts s arn_s3tables || starts s arn_kms || starts s arn_all)) [
        | inl h ↦
            let (t, k, p) = some_of s h in
            rw (found order s t o k p, found arn_prefix_to_type s t arn_prefix_to_type-IsOrder k p)
        | inr h ↦ rw (
          missed order s o (none_of s h),
          missed arn_prefix_to_type s arn_prefix_to_type-IsOrder (none_of s h),
        )
      ]

has_prefix-append : (k s : Bytes) → has_prefix (k ++ s) k ≡ true
unfolding has_prefix
has_prefix-append [] [] = refl
has_prefix-append [] (y ∷ s) = refl
has_prefix-append (x ∷ k) s = rw (==_refl x) (has_prefix-append k s)

eqb-append : (k s : Bytes) → is_empty s ≡ false → eqb (k ++ s) k ≡ false
unfolding eqb
eqb-append [] [] h = cc
eqb-append [] (y ∷ s) h = refl
eqb-append (x ∷ k) s h = rw (==_refl x) (eqb-append k s h)

drop-append : (k s : Bytes) → drop (length k) (k ++ s) ≡ s
drop-append [] s = refl
drop-append (x ∷ k) s = drop-append k s

no_slash_start : (s : Bytes) → contains_byte b'/' s ≡ false → has_prefix s (b'/' ∷ []) ≡ false
unfolding contains_byte has_prefix
no_slash_start [] h = refl
no_slash_start (x ∷ s) h = ground arith

valid_parts :
    (r : Resource)
    → resource_is_valid r ≡ true
    → (known r.arn_type ≡ true)
      × (is_empty r.pattern ≡ false)
      × (has_prefix r.pattern (b'/' ∷ []) ≡ false)
unfolding resource_is_valid
valid_parts r h = (ground arith, ground arith, ground (arith, no_slash_start r.pattern))

read_back :
    (r : Resource)
    → is_empty r.pattern ≡ false
    → read_as (resource_string r) (arn_string r.arn_type, r.arn_type) ≡ r
unfolding read_as resource_string
read_back r h =
    rw (
      eqb-append (arn_string r.arn_type) r.pattern h,
      drop-append (arn_string r.arn_type) r.pattern,
    )

-- A valid resource, written by `String`, is read back by `ParseResource` as the same resource, in
-- whatever order Go walks the map of ARN prefixes.
pub parse_resource-resource_string :
    (order : List (Bytes × ArnType)) (r : Resource)
    → IsOrder order
    → resource_is_valid r ≡ true
    → parse_resource order (resource_string r) ≡ some r
unfolding parse_resource
parse_resource-resource_string order r o h =
    let (k, e, p) = valid_parts r h in
    let starts_so : has_prefix (resource_string r) (arn_string r.arn_type) ≡ true =
      unfold resource_string in has_prefix-append (arn_string r.arn_type) r.pattern in
    rw (found order (resource_string r) r.arn_type o k starts_so, read_back r e) (ground arith)
