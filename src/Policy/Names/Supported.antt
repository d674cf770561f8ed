-- ===== src/Policy/Names/Supported.antt =====
-- policy/action.go: the tables of supported S3 actions.
use silo_pkg.Prelude.{List, [], ◌∷◌}
use silo_pkg.Prelude.Bytes.{Bytes}
use silo_pkg.Policy.Names.S3.{
  abort_multipart_upload_action, create_bucket_action, delete_bucket_action,
  force_delete_bucket_action, delete_bucket_policy_action, delete_bucket_cors_action,
  delete_object_action, get_bucket_location_action, get_bucket_notification_action,
  get_bucket_policy_action, get_bucket_cors_action, get_object_action, get_object_attributes_action,
  head_bucket_action, list_all_my_buckets_action, list_bucket_action,
  get_bucket_policy_status_action, list_bucket_versions_action,
  list_bucket_multipart_uploads_action, listen_notification_action,
  listen_bucket_notification_action, list_multipart_upload_parts_action,
  put_bucket_lifecycle_action, get_bucket_lifecycle_action, put_bucket_notification_action,
  put_bucket_policy_action, put_bucket_cors_action, put_bucket_qos_action, get_bucket_qos_action,
  put_object_action, delete_object_version_action, delete_object_version_tagging_action,
  get_object_version_action, get_object_version_attributes_action,
  get_object_version_tagging_action, put_object_version_tagging_action,
  bypass_governance_retention_action, put_object_retention_action, get_object_retention_action,
  get_object_legal_hold_action, put_object_legal_hold_action,
  get_bucket_object_lock_configuration_action, put_bucket_object_lock_configuration_action,
  get_bucket_tagging_action, put_bucket_tagging_action, get_object_tagging_action,
  put_object_tagging_action, delete_object_tagging_action, update_object_encryption_action,
  put_bucket_encryption_action, get_bucket_encryption_action, put_bucket_versioning_action,
  get_bucket_versioning_action, get_replication_configuration_action,
  put_replication_configuration_action, replicate_object_action, replicate_delete_action,
  replicate_tags_action, get_object_version_for_replication_action, restore_object_action,
  reset_bucket_replication_state_action, put_object_fan_out_action,
  put_inventory_configuration_action, get_inventory_configuration_action, create_session_action,
  all_actions,
}

-- The keys of `SupportedActions`.
unfoldable pub supported_actions : List Bytes
supported_actions =
    abort_multipart_upload_action ∷ create_bucket_action ∷ delete_bucket_action
    ∷ force_delete_bucket_action ∷ delete_bucket_policy_action ∷ delete_bucket_cors_action
    ∷ delete_object_action ∷ get_bucket_location_action ∷ get_bucket_notification_action
    ∷ get_bucket_policy_action ∷ get_bucket_cors_action ∷ get_object_action ∷ head_bucket_action
    ∷ list_all_my_buckets_action ∷ list_bucket_action ∷ get_bucket_policy_status_action
    ∷ list_bucket_versions_action ∷ list_bucket_multipart_uploads_action
    ∷ listen_notification_action ∷ listen_bucket_notification_action
    ∷ list_multipart_upload_parts_action ∷ put_bucket_lifecycle_action ∷ get_bucket_lifecycle_action
    ∷ put_bucket_notification_action ∷ put_bucket_policy_action ∷ put_bucket_cors_action
    ∷ put_bucket_qos_action ∷ get_bucket_qos_action ∷ put_object_action
    ∷ bypass_governance_retention_action ∷ put_object_retention_action ∷ get_object_retention_action
    ∷ get_object_legal_hold_action ∷ put_object_legal_hold_action
    ∷ get_bucket_object_lock_configuration_action ∷ put_bucket_object_lock_configuration_action
    ∷ get_bucket_tagging_action ∷ put_bucket_tagging_action ∷ get_object_version_action
    ∷ get_object_attributes_action ∷ get_object_version_attributes_action
    ∷ get_object_version_tagging_action ∷ delete_object_version_action
    ∷ delete_object_version_tagging_action ∷ put_object_version_tagging_action
    ∷ get_object_tagging_action ∷ put_object_tagging_action ∷ delete_object_tagging_action
    ∷ update_object_encryption_action ∷ put_bucket_encryption_action ∷ get_bucket_encryption_action
    ∷ put_bucket_versioning_action ∷ get_bucket_versioning_action
    ∷ get_replication_configuration_action ∷ put_replication_configuration_action
    ∷ replicate_object_action ∷ replicate_delete_action ∷ replicate_tags_action
    ∷ get_object_version_for_replication_action ∷ restore_object_action
    ∷ reset_bucket_replication_state_action ∷ put_object_fan_out_action
    ∷ put_inventory_configuration_action ∷ get_inventory_configuration_action
    ∷ create_session_action ∷ all_actions ∷ []

-- The keys of `SupportedObjectActions`.
unfoldable pub supported_object_actions : List Bytes
supported_object_actions =
    all_actions ∷ abort_multipart_upload_action ∷ delete_object_action ∷ get_object_action
    ∷ list_multipart_upload_parts_action ∷ put_object_action ∷ bypass_governance_retention_action
    ∷ put_object_retention_action ∷ get_object_retention_action ∷ put_object_legal_hold_action
    ∷ get_object_legal_hold_action ∷ get_object_tagging_action ∷ put_object_tagging_action
    ∷ delete_object_tagging_action ∷ update_object_encryption_action ∷ get_object_version_action
    ∷ get_object_version_tagging_action ∷ delete_object_version_action
    ∷ delete_object_version_tagging_action ∷ put_object_version_tagging_action
    ∷ replicate_object_action ∷ replicate_delete_action ∷ replicate_tags_action
    ∷ get_object_version_for_replication_action ∷ restore_object_action
    ∷ reset_bucket_replication_state_action ∷ put_object_fan_out_action
    ∷ get_object_attributes_action ∷ get_object_version_attributes_action ∷ []
