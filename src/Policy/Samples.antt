-- ===== src/Policy/Samples.antt =====
-- The policies and requests of the tests of package policy.
use silo_pkg.Prelude.{true, false, [], ◌∷◌}
use silo_pkg.Prelude.Bytes.{Bytes, codes}
use silo_pkg.Condition.Values.{Values}
use silo_pkg.Policy.Effect.{Effect, allow}
use silo_pkg.Policy.Resource.{Resource, arn_s3}
use silo_pkg.Policy.Statement.{Statement, Args}
use silo_pkg.Policy.Decide.{Policy}

-- arn:aws:s3:::mybucket/*
abbrev pub objects : Resource
objects = record { pattern = codes "mybucket/*"; arn_type = arn_s3 }

-- arn:aws:s3:::mybucket*
abbrev pub whole_bucket : Resource
whole_bucket = record { pattern = codes "mybucket*"; arn_type = arn_s3 }

-- A statement on all S3 actions with one resource.
abbrev pub statement_on : Effect → Resource → Statement
statement_on effect r = record {
  sid = [];
  effect = effect;
  actions = codes "s3:*" ∷ [];
  not_actions = [];
  resources = r ∷ [];
  not_resources = [];
  conditions = [];
}

-- A request for an action on the bucket "mybucket", with no object.
abbrev pub bucket_request : Bytes → Args
bucket_request action = record {
  action = action;
  bucket_name = codes "mybucket";
  condition_values = [];
  is_owner = false;
  object_name = [];
  deny_only = false;
}

abbrev pub put_policy : Args
put_policy = bucket_request (codes "s3:PutBucketPolicy")

-- The bucket owner's request for an object.
abbrev pub owner_request : Args
owner_request = record {
  action = codes "s3:GetObject";
  bucket_name = codes "mybucket";
  condition_values = [];
  is_owner = true;
  object_name = codes "a";
  deny_only = false;
}

abbrev pub policy_of : Statement → Policy
policy_of st = record {
  id = [];
  version = codes "2012-10-17";
  statements = st ∷ [];
  action_statement_index = [];
  has_deny = false;
}

abbrev pub grants_objects : Policy
grants_objects = policy_of (statement_on allow objects)

abbrev pub grants_bucket : Policy
grants_bucket = policy_of (statement_on allow whole_bucket)

abbrev pub user_values : Values
user_values = (codes "username", codes "alice" ∷ []) ∷ []
