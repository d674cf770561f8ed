-- ===== src/Policy/Names/IamKeys.antt =====
-- policy/action.go: the condition keys that an S3 action takes besides the common ones.
use silo_pkg.Prelude.{List, [], ◌∷◌}
use silo_pkg.Prelude.Bytes.{Bytes}
use silo_pkg.Condition.Names.Keys.{
  existing_object_tag, request_object_tag, request_object_tag_keys, s3_delimiter, s3_max_keys,
  s3_object_lock_legal_hold, s3_object_lock_mode, s3_object_lock_remaining_retention_days,
  s3_object_lock_retain_until_date, s3_prefix, s3_version_id, s3_xamz_copy_source,
  s3_xamz_metadata_directive, s3_xamz_server_side_encryption,
  s3_xamz_server_side_encryption_aws_kms_key_id, s3_xamz_server_side_encryption_customer_algorithm,
  s3_xamz_storage_class,
}
use silo_pkg.Policy.Names.S3.{
  abort_multipart_upload_action, bypass_governance_retention_action, create_bucket_action,
  delete_object_action, delete_object_tagging_action, delete_object_version_action,
  delete_object_version_tagging_action, get_bucket_location_action,
  get_bucket_object_lock_configuration_action, get_bucket_policy_status_action,
  get_bucket_tagging_action, get_object_action, get_object_attributes_action,
  get_object_legal_hold_action, get_object_retention_action, get_object_tagging_action,
  get_object_version_action, get_object_version_attributes_action,
  get_object_version_for_replication_action, get_object_version_tagging_action,
  get_replication_configuration_action, head_bucket_action, list_all_my_buckets_action,
  list_bucket_action, list_bucket_multipart_uploads_action, list_bucket_versions_action,
  list_multipart_upload_parts_action, listen_bucket_notification_action, listen_notification_action,
  put_bucket_object_lock_configuration_action, put_bucket_tagging_action, put_object_action,
  put_object_fan_out_action, put_object_legal_hold_action, put_object_retention_action,
  put_object_tagging_action, put_object_version_tagging_action,
  put_replication_configuration_action, replicate_delete_action, replicate_object_action,
  replicate_tags_action, reset_bucket_replication_state_action, restore_object_action,
  update_object_encryption_action,
}

-- The entries of `createActionConditionKeyMap` but the one of `AllActions`.
unfoldable pub iam_action_keys : List (Bytes × List Bytes)
iam_action_keys =
    (abort_multipart_upload_action, [])
    ∷ (create_bucket_action, [])
    ∷ (delete_object_action, s3_version_id ∷ [])
    ∷ (get_bucket_location_action, [])
    ∷ (get_bucket_policy_status_action, [])
    ∷ (
      get_object_action,
      s3_xamz_server_side_encryption ∷ s3_xamz_server_side_encryption_customer_algorithm
          ∷ s3_xamz_server_side_encryption_aws_kms_key_id ∷ s3_version_id ∷ existing_object_tag
          ∷ [],
    )
    ∷ (head_bucket_action, [])
    ∷ (get_object_attributes_action, existing_object_tag ∷ [])
    ∷ (get_object_version_attributes_action, s3_version_id ∷ existing_object_tag ∷ [])
    ∷ (list_all_my_buckets_action, [])
    ∷ (list_bucket_action, s3_prefix ∷ s3_delimiter ∷ s3_max_keys ∷ [])
    ∷ (list_bucket_versions_action, s3_prefix ∷ s3_delimiter ∷ s3_max_keys ∷ [])
    ∷ (list_bucket_multipart_uploads_action, [])
    ∷ (listen_notification_action, [])
    ∷ (listen_bucket_notification_action, [])
    ∷ (list_multipart_upload_parts_action, [])
    ∷ (
      put_object_action,
      s3_xamz_copy_source ∷ s3_xamz_server_side_encryption
          ∷ s3_xamz_server_side_encryption_customer_algorithm
          ∷ s3_xamz_server_side_encryption_aws_kms_key_id ∷ s3_xamz_metadata_directive
          ∷ s3_xamz_storage_class ∷ s3_version_id ∷ s3_object_lock_retain_until_date
          ∷ s3_object_lock_mode ∷ s3_object_lock_legal_hold ∷ request_object_tag_keys
          ∷ request_object_tag ∷ [],
    )
    ∷ (
      put_object_retention_action,
      s3_xamz_server_side_encryption ∷ s3_xamz_server_side_encryption_customer_algorithm
          ∷ s3_xamz_server_side_encryption_aws_kms_key_id ∷ s3_object_lock_remaining_retention_days
          ∷ s3_object_lock_retain_until_date ∷ s3_object_lock_mode ∷ s3_version_id ∷ [],
    )
    ∷ (
      get_object_retention_action,
      s3_xamz_server_side_encryption ∷ s3_xamz_server_side_encryption_customer_algorithm
          ∷ s3_xamz_server_side_encryption_aws_kms_key_id ∷ s3_version_id ∷ [],
    )
    ∷ (
      put_object_legal_hold_action,
      s3_xamz_server_side_encryption ∷ s3_xamz_server_side_encryption_customer_algorithm
          ∷ s3_xamz_server_side_encryption_aws_kms_key_id ∷ s3_object_lock_legal_hold
          ∷ s3_version_id ∷ [],
    )
    ∷ (get_object_legal_hold_action, [])
    ∷ (
      bypass_governance_retention_action,
      s3_version_id ∷ s3_object_lock_remaining_retention_days ∷ s3_object_lock_retain_until_date
          ∷ s3_object_lock_mode ∷ s3_object_lock_legal_hold ∷ request_object_tag_keys
          ∷ request_object_tag ∷ [],
    )
    ∷ (get_bucket_object_lock_configuration_action, [])
    ∷ (put_bucket_object_lock_configuration_action, [])
    ∷ (get_bucket_tagging_action, [])
    ∷ (put_bucket_tagging_action, request_object_tag_keys ∷ request_object_tag ∷ [])
    ∷ (
      put_object_tagging_action,
      s3_version_id ∷ existing_object_tag ∷ request_object_tag_keys ∷ request_object_tag ∷ [],
    )
    ∷ (get_object_tagging_action, s3_version_id ∷ existing_object_tag ∷ [])
    ∷ (delete_object_tagging_action, s3_version_id ∷ existing_object_tag ∷ [])
    ∷ (
      update_object_encryption_action,
      s3_xamz_server_side_encryption ∷ s3_xamz_server_side_encryption_customer_algorithm
          ∷ s3_xamz_server_side_encryption_aws_kms_key_id ∷ s3_version_id ∷ [],
    )
    ∷ (
      put_object_version_tagging_action,
      s3_version_id ∷ existing_object_tag ∷ request_object_tag_keys ∷ request_object_tag ∷ [],
    )
    ∷ (get_object_version_action, s3_version_id ∷ existing_object_tag ∷ [])
    ∷ (get_object_version_tagging_action, s3_version_id ∷ existing_object_tag ∷ [])
    ∷ (delete_object_version_action, s3_version_id ∷ [])
    ∷ (delete_object_version_tagging_action, s3_version_id ∷ existing_object_tag ∷ [])
    ∷ (get_replication_configuration_action, [])
    ∷ (put_replication_configuration_action, [])
    ∷ (replicate_object_action, s3_version_id ∷ existing_object_tag ∷ [])
    ∷ (replicate_delete_action, s3_version_id ∷ existing_object_tag ∷ [])
    ∷ (replicate_tags_action, s3_version_id ∷ existing_object_tag ∷ [])
    ∷ (get_object_version_for_replication_action, s3_version_id ∷ existing_object_tag ∷ [])
    ∷ (restore_object_action, [])
    ∷ (reset_bucket_replication_state_action, [])
    ∷ (put_object_fan_out_action, [])
    ∷ []
