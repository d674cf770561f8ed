-- ===== src/Policy/Names/S3.antt =====
-- policy/action.go: the names of the S3 actions.
use silo_pkg.Prelude.Bytes.{Bytes, codes}

abbrev pub abort_multipart_upload_action : Bytes
abort_multipart_upload_action = codes "s3:AbortMultipartUpload"

abbrev pub create_bucket_action : Bytes
create_bucket_action = codes "s3:CreateBucket"

abbrev pub delete_bucket_action : Bytes
delete_bucket_action = codes "s3:DeleteBucket"

abbrev pub force_delete_bucket_action : Bytes
force_delete_bucket_action = codes "s3:ForceDeleteBucket"

abbrev pub delete_bucket_policy_action : Bytes
delete_bucket_policy_action = codes "s3:DeleteBucketPolicy"

abbrev pub delete_bucket_cors_action : Bytes
delete_bucket_cors_action = codes "s3:DeleteBucketCors"

abbrev pub delete_object_action : Bytes
delete_object_action = codes "s3:DeleteObject"

abbrev pub get_bucket_location_action : Bytes
get_bucket_location_action = codes "s3:GetBucketLocation"

abbrev pub get_bucket_notification_action : Bytes
get_bucket_notification_action = codes "s3:GetBucketNotification"

abbrev pub get_bucket_policy_action : Bytes
get_bucket_policy_action = codes "s3:GetBucketPolicy"

abbrev pub get_bucket_cors_action : Bytes
get_bucket_cors_action = codes "s3:GetBucketCors"

abbrev pub get_object_action : Bytes
get_object_action = codes "s3:GetObject"

abbrev pub get_object_attributes_action : Bytes
get_object_attributes_action = codes "s3:GetObjectAttributes"

abbrev pub head_bucket_action : Bytes
head_bucket_action = codes "s3:HeadBucket"

abbrev pub list_all_my_buckets_action : Bytes
list_all_my_buckets_action = codes "s3:ListAllMyBuckets"

abbrev pub list_bucket_action : Bytes
list_bucket_action = codes "s3:ListBucket"

abbrev pub get_bucket_policy_status_action : Bytes
get_bucket_policy_status_action = codes "s3:GetBucketPolicyStatus"

abbrev pub list_bucket_versions_action : Bytes
list_bucket_versions_action = codes "s3:ListBucketVersions"

abbrev pub list_bucket_multipart_uploads_action : Bytes
list_bucket_multipart_uploads_action = codes "s3:ListBucketMultipartUploads"

abbrev pub listen_notification_action : Bytes
listen_notification_action = codes "s3:ListenNotification"

abbrev pub listen_bucket_notification_action : Bytes
listen_bucket_notification_action = codes "s3:ListenBucketNotification"

abbrev pub list_multipart_upload_parts_action : Bytes
list_multipart_upload_parts_action = codes "s3:ListMultipartUploadParts"

abbrev pub put_bucket_lifecycle_action : Bytes
put_bucket_lifecycle_action = codes "s3:PutLifecycleConfiguration"

abbrev pub get_bucket_lifecycle_action : Bytes
get_bucket_lifecycle_action = codes "s3:GetLifecycleConfiguration"

abbrev pub put_bucket_notification_action : Bytes
put_bucket_notification_action = codes "s3:PutBucketNotification"

abbrev pub put_bucket_policy_action : Bytes
put_bucket_policy_action = codes "s3:PutBucketPolicy"

abbrev pub put_bucket_cors_action : Bytes
put_bucket_cors_action = codes "s3:PutBucketCors"

abbrev pub put_bucket_qos_action : Bytes
put_bucket_qos_action = codes "s3:PutBucketQOS"

abbrev pub get_bucket_qos_action : Bytes
get_bucket_qos_action = codes "s3:GetBucketQOS"

abbrev pub put_object_action : Bytes
put_object_action = codes "s3:PutObject"

abbrev pub delete_object_version_action : Bytes
delete_object_version_action = codes "s3:DeleteObjectVersion"

abbrev pub delete_object_version_tagging_action : Bytes
delete_object_version_tagging_action = codes "s3:DeleteObjectVersionTagging"

abbrev pub get_object_version_action : Bytes
get_object_version_action = codes "s3:GetObjectVersion"

abbrev pub get_object_version_attributes_action : Bytes
get_object_version_attributes_action = codes "s3:GetObjectVersionAttributes"

abbrev pub get_object_version_tagging_action : Bytes
get_object_version_tagging_action = codes "s3:GetObjectVersionTagging"

abbrev pub put_object_version_tagging_action : Bytes
put_object_version_tagging_action = codes "s3:PutObjectVersionTagging"

abbrev pub bypass_governance_retention_action : Bytes
bypass_governance_retention_action = codes "s3:BypassGovernanceRetention"

abbrev pub put_object_retention_action : Bytes
put_object_retention_action = codes "s3:PutObjectRetention"

abbrev pub get_object_retention_action : Bytes
get_object_retention_action = codes "s3:GetObjectRetention"

abbrev pub get_object_legal_hold_action : Bytes
get_object_legal_hold_action = codes "s3:GetObjectLegalHold"

abbrev pub put_object_legal_hold_action : Bytes
put_object_legal_hold_action = codes "s3:PutObjectLegalHold"

abbrev pub get_bucket_object_lock_configuration_action : Bytes
get_bucket_object_lock_configuration_action = codes "s3:GetBucketObjectLockConfiguration"

abbrev pub put_bucket_object_lock_configuration_action : Bytes
put_bucket_object_lock_configuration_action = codes "s3:PutBucketObjectLockConfiguration"

abbrev pub get_bucket_tagging_action : Bytes
get_bucket_tagging_action = codes "s3:GetBucketTagging"

abbrev pub put_bucket_tagging_action : Bytes
put_bucket_tagging_action = codes "s3:PutBucketTagging"

abbrev pub get_object_tagging_action : Bytes
get_object_tagging_action = codes "s3:GetObjectTagging"

abbrev pub put_object_tagging_action : Bytes
put_object_tagging_action = codes "s3:PutObjectTagging"

abbrev pub delete_object_tagging_action : Bytes
delete_object_tagging_action = codes "s3:DeleteObjectTagging"

abbrev pub update_object_encryption_action : Bytes
update_object_encryption_action = codes "s3:UpdateObjectEncryption"

abbrev pub put_bucket_encryption_action : Bytes
put_bucket_encryption_action = codes "s3:PutEncryptionConfiguration"

abbrev pub get_bucket_encryption_action : Bytes
get_bucket_encryption_action = codes "s3:GetEncryptionConfiguration"

abbrev pub put_bucket_versioning_action : Bytes
put_bucket_versioning_action = codes "s3:PutBucketVersioning"

abbrev pub get_bucket_versioning_action : Bytes
get_bucket_versioning_action = codes "s3:GetBucketVersioning"

abbrev pub get_replication_configuration_action : Bytes
get_replication_configuration_action = codes "s3:GetReplicationConfiguration"

abbrev pub put_replication_configuration_action : Bytes
put_replication_configuration_action = codes "s3:PutReplicationConfiguration"

abbrev pub replicate_object_action : Bytes
replicate_object_action = codes "s3:ReplicateObject"

abbrev pub replicate_delete_action : Bytes
replicate_delete_action = codes "s3:ReplicateDelete"

abbrev pub replicate_tags_action : Bytes
replicate_tags_action = codes "s3:ReplicateTags"

abbrev pub get_object_version_for_replication_action : Bytes
get_object_version_for_replication_action = codes "s3:GetObjectVersionForReplication"

abbrev pub restore_object_action : Bytes
restore_object_action = codes "s3:RestoreObject"

abbrev pub reset_bucket_replication_state_action : Bytes
reset_bucket_replication_state_action = codes "s3:ResetBucketReplicationState"

abbrev pub put_object_fan_out_action : Bytes
put_object_fan_out_action = codes "s3:PutObjectFanOut"

abbrev pub put_inventory_configuration_action : Bytes
put_inventory_configuration_action = codes "s3:PutInventoryConfiguration"

abbrev pub get_inventory_configuration_action : Bytes
get_inventory_configuration_action = codes "s3:GetInventoryConfiguration"

abbrev pub create_session_action : Bytes
create_session_action = codes "s3express:CreateSession"

abbrev pub all_actions : Bytes
all_actions = codes "s3:*"
