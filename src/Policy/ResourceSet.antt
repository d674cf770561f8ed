-- ===== src/Policy/ResourceSet.antt =====
-- policy/resourceset.go: sets of resources.
use silo_pkg.Prelude.{
  Bool, true, false, not, ◌&&◌, List, ◌≡◌, ◌↔◌, arith, any, all, Outcome, any_of, &&_split,
}
use silo_pkg.Prelude.Bytes.{Bytes, eqb, eqb→eq, eqb_refl}
use silo_pkg.Prelude.Sets.{Eq, set_add, set_of, set_equals, set_intersection}
use silo_pkg.Condition.Values.{Values}
use silo_pkg.Policy.Resource.{
  Resource, ArnType, unknown_arn, arn_s3, arn_s3tables, arn_kms, arn_all, resource_match,
  match_resource, resource_is_valid, is_bare_arn, is_s3_resource, is_kms_resource,
  is_table_resource, is_bucket_pattern, is_object_pattern, validate_bucket,
}

arn_eq : ArnType → ArnType → Bool
arn_eq unknown_arn unknown_arn = true
arn_eq arn_s3 arn_s3 = true
arn_eq arn_s3tables arn_s3tables = true
arn_eq arn_kms arn_kms = true
arn_eq arn_all arn_all = true
arn_eq _ _ = false

arn_eq→eq : (a b : ArnType) → arn_eq a b ≡ true → a ≡ b
unfolding arn_eq
arn_eq→eq a b h = ground arith

arn_eq_refl : (a : ArnType) → arn_eq a a ≡ true
unfolding arn_eq
arn_eq_refl a = ground arith

-- Go's `==` on resources
pub resource_beq : Resource → Resource → Bool
unfolding arn_eq eqb
resource_beq a b = eqb a.pattern b.pattern && arn_eq a.arn_type b.arn_type

resource_beq→eq : (a b : Resource) → resource_beq a b ≡ true → a ≡ b
unfolding resource_beq
resource_beq→eq a b h =
    let (p, t) = &&_split (eqb a.pattern b.pattern) (arn_eq a.arn_type b.arn_type) h in
    ground (arith, eqb→eq a.pattern b.pattern p, arn_eq→eq a.arn_type b.arn_type t)

resource_beq_refl : (a : Resource) → resource_beq a a ≡ true
unfolding resource_beq
resource_beq_refl a = rw (eqb_refl a.pattern) (arn_eq_refl a.arn_type)

pub resource_beq_iff : (a b : Resource) → (resource_beq a b ≡ true) ↔ (a ≡ b)
resource_beq_iff a b = (resource_beq→eq a b, λ e. rw e (resource_beq_refl b))

instance abbrev pub resource_eq : Eq Resource
resource_eq = record { beq = resource_beq; beq_iff = resource_beq_iff }

abbrev pub ResourceSet : Type 0
ResourceSet = List Resource

-- `BucketResourceExists` and `ObjectResourceExists`
unfoldable pub bucket_resource_exists : ResourceSet → Bool
bucket_resource_exists set = any is_bucket_pattern set

unfoldable pub object_resource_exists : ResourceSet → Bool
object_resource_exists set = any is_object_pattern set

-- `ResourceSet.Add`, `NewResourceSet`
unfoldable pub resources_add : ResourceSet → Resource → ResourceSet
resources_add set resource = set_add set resource

unfoldable pub new_resource_set : List Resource → ResourceSet
new_resource_set resources = set_of resources

-- `ResourceSet.Equals`
unfoldable pub resources_equal : ResourceSet → ResourceSet → Bool
resources_equal set other = set_equals set other

-- `ResourceSet.Intersection`
unfoldable pub resources_intersection : ResourceSet → ResourceSet → ResourceSet
resources_intersection set other = set_intersection set other

-- `ResourceSet.MatchResource`
unfoldable pub resources_match_resource : ResourceSet → Bytes → Outcome Bool
resources_match_resource set resource = any_of (λ r. match_resource r resource) set

-- `ResourceSet.Match`
unfoldable pub resources_match : ResourceSet → Bytes → Values → Outcome Bool
resources_match set resource values = any_of (λ r. resource_match r resource values) set

-- `ValidateStrict`, `ValidateS3`, `ValidateKMS`, `ValidateTable`, `ValidateVectors` and
-- `ValidateBucket`: whether they return nil
unfoldable pub validate_strict_resources : ResourceSet → Bool
validate_strict_resources set = all (λ r. not (is_bare_arn r)) set

unfoldable pub validate_s3_resources : ResourceSet → Bool
validate_s3_resources set = all (λ r. is_s3_resource r && resource_is_valid r) set

unfoldable pub validate_kms_resources : ResourceSet → Bool
validate_kms_resources set = all (λ r. is_kms_resource r && resource_is_valid r) set

unfoldable pub validate_table_resources : ResourceSet → Bool
validate_table_resources set = all (λ r. is_table_resource r && resource_is_valid r) set

unfoldable pub validate_vectors_resources : ResourceSet → Bool
validate_vectors_resources set = all (λ r. is_s3_resource r && resource_is_valid r) set

unfoldable pub validate_bucket_resources : ResourceSet → Bytes → Bool
validate_bucket_resources set bucket_name = all (λ r. validate_bucket r bucket_name) set
