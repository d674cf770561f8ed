-- ===== src/Policy/Names/Vectors.antt =====
-- policy/vectors-action.go: the S3 Vectors actions.
use silo_pkg.Prelude.{List, [], ◌∷◌}
use silo_pkg.Prelude.Bytes.{Bytes, codes}

abbrev pub s3vectors_create_vector_bucket_action : Bytes
s3vectors_create_vector_bucket_action = codes "s3vectors:CreateVectorBucket"

abbrev pub s3vectors_delete_vector_bucket_action : Bytes
s3vectors_delete_vector_bucket_action = codes "s3vectors:DeleteVectorBucket"

abbrev pub s3vectors_get_vector_bucket_action : Bytes
s3vectors_get_vector_bucket_action = codes "s3vectors:GetVectorBucket"

abbrev pub s3vectors_list_vector_buckets_action : Bytes
s3vectors_list_vector_buckets_action = codes "s3vectors:ListVectorBuckets"

abbrev pub s3vectors_create_index_action : Bytes
s3vectors_create_index_action = codes "s3vectors:CreateIndex"

abbrev pub s3vectors_delete_index_action : Bytes
s3vectors_delete_index_action = codes "s3vectors:DeleteIndex"

abbrev pub s3vectors_get_index_action : Bytes
s3vectors_get_index_action = codes "s3vectors:GetIndex"

abbrev pub s3vectors_list_indexes_action : Bytes
s3vectors_list_indexes_action = codes "s3vectors:ListIndexes"

abbrev pub s3vectors_put_vectors_action : Bytes
s3vectors_put_vectors_action = codes "s3vectors:PutVectors"

abbrev pub s3vectors_get_vectors_action : Bytes
s3vectors_get_vectors_action = codes "s3vectors:GetVectors"

abbrev pub s3vectors_delete_vectors_action : Bytes
s3vectors_delete_vectors_action = codes "s3vectors:DeleteVectors"

abbrev pub s3vectors_list_vectors_action : Bytes
s3vectors_list_vectors_action = codes "s3vectors:ListVectors"

abbrev pub s3vectors_query_vectors_action : Bytes
s3vectors_query_vectors_action = codes "s3vectors:QueryVectors"

abbrev pub all_s3vectors_actions : Bytes
all_s3vectors_actions = codes "s3vectors:*"

-- The keys of `SupportedVectorsActions`.
unfoldable pub supported_vectors_actions : List Bytes
supported_vectors_actions =
    s3vectors_create_vector_bucket_action ∷ s3vectors_delete_vector_bucket_action
    ∷ s3vectors_get_vector_bucket_action ∷ s3vectors_list_vector_buckets_action
    ∷ s3vectors_create_index_action ∷ s3vectors_delete_index_action ∷ s3vectors_get_index_action
    ∷ s3vectors_list_indexes_action ∷ s3vectors_put_vectors_action ∷ s3vectors_get_vectors_action
    ∷ s3vectors_delete_vectors_action ∷ s3vectors_list_vectors_action
    ∷ s3vectors_query_vectors_action ∷ all_s3vectors_actions ∷ []
