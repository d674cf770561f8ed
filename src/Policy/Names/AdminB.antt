-- ===== src/Policy/Names/AdminB.antt =====
-- policy/admin-action.go: the names of the admin actions, second part.
use silo_pkg.Prelude.Bytes.{Bytes, codes}

abbrev pub remove_user_from_group_admin_action : Bytes
remove_user_from_group_admin_action = codes "admin:RemoveUserFromGroup"

abbrev pub get_group_admin_action : Bytes
get_group_admin_action = codes "admin:GetGroup"

abbrev pub list_groups_admin_action : Bytes
list_groups_admin_action = codes "admin:ListGroups"

abbrev pub enable_group_admin_action : Bytes
enable_group_admin_action = codes "admin:EnableGroup"

abbrev pub disable_group_admin_action : Bytes
disable_group_admin_action = codes "admin:DisableGroup"

abbrev pub create_policy_admin_action : Bytes
create_policy_admin_action = codes "admin:CreatePolicy"

abbrev pub delete_policy_admin_action : Bytes
delete_policy_admin_action = codes "admin:DeletePolicy"

abbrev pub get_policy_admin_action : Bytes
get_policy_admin_action = codes "admin:GetPolicy"

abbrev pub attach_policy_admin_action : Bytes
attach_policy_admin_action = codes "admin:AttachUserOrGroupPolicy"

abbrev pub update_policy_association_action : Bytes
update_policy_association_action = codes "admin:UpdatePolicyAssociation"

abbrev pub list_user_policies_admin_action : Bytes
list_user_policies_admin_action = codes "admin:ListUserPolicies"

abbrev pub set_bucket_quota_admin_action : Bytes
set_bucket_quota_admin_action = codes "admin:SetBucketQuota"

abbrev pub get_bucket_quota_admin_action : Bytes
get_bucket_quota_admin_action = codes "admin:GetBucketQuota"

abbrev pub set_bucket_target_action : Bytes
set_bucket_target_action = codes "admin:SetBucketTarget"

abbrev pub get_bucket_target_action : Bytes
get_bucket_target_action = codes "admin:GetBucketTarget"

abbrev pub replication_diff : Bytes
replication_diff = codes "admin:ReplicationDiff"

abbrev pub import_bucket_metadata_action : Bytes
import_bucket_metadata_action = codes "admin:ImportBucketMetadata"

abbrev pub export_bucket_metadata_action : Bytes
export_bucket_metadata_action = codes "admin:ExportBucketMetadata"

abbrev pub set_tier_action : Bytes
set_tier_action = codes "admin:SetTier"

abbrev pub list_tier_action : Bytes
list_tier_action = codes "admin:ListTier"

abbrev pub export_iam_action : Bytes
export_iam_action = codes "admin:ExportIAM"

abbrev pub import_iam_action : Bytes
import_iam_action = codes "admin:ImportIAM"

abbrev pub list_batch_jobs_action : Bytes
list_batch_jobs_action = codes "admin:ListBatchJobs"

abbrev pub describe_batch_job_action : Bytes
describe_batch_job_action = codes "admin:DescribeBatchJob"

abbrev pub start_batch_job_action : Bytes
start_batch_job_action = codes "admin:StartBatchJob"

abbrev pub cancel_batch_job_action : Bytes
cancel_batch_job_action = codes "admin:CancelBatchJob"

abbrev pub generate_batch_job_action : Bytes
generate_batch_job_action = codes "admin:GenerateBatchJob"

abbrev pub inventory_control_action : Bytes
inventory_control_action = codes "admin:InventoryControl"

abbrev pub cluster_info_action : Bytes
cluster_info_action = codes "admin:ClusterInfo"

abbrev pub pool_list_action : Bytes
pool_list_action = codes "admin:PoolList"

abbrev pub pool_info_action : Bytes
pool_info_action = codes "admin:PoolInfo"

abbrev pub node_list_action : Bytes
node_list_action = codes "admin:NodeList"

abbrev pub node_info_action : Bytes
node_info_action = codes "admin:NodeInfo"

abbrev pub set_info_action : Bytes
set_info_action = codes "admin:SetInfo"

abbrev pub drive_list_action : Bytes
drive_list_action = codes "admin:DriveList"

abbrev pub drive_info_action : Bytes
drive_info_action = codes "admin:DriveInfo"

abbrev pub delta_sharing_admin_action : Bytes
delta_sharing_admin_action = codes "admin:DeltaSharing"

abbrev pub delta_sharing_create_share_action : Bytes
delta_sharing_create_share_action = codes "admin:DeltaSharingCreateShare"

abbrev pub delta_sharing_delete_share_action : Bytes
delta_sharing_delete_share_action = codes "admin:DeltaSharingDeleteShare"

abbrev pub delta_sharing_list_shares_action : Bytes
delta_sharing_list_shares_action = codes "admin:DeltaSharingListShares"

abbrev pub delta_sharing_get_share_action : Bytes
delta_sharing_get_share_action = codes "admin:DeltaSharingGetShare"

abbrev pub delta_sharing_update_share_action : Bytes
delta_sharing_update_share_action = codes "admin:DeltaSharingUpdateShare"

abbrev pub delta_sharing_create_token_action : Bytes
delta_sharing_create_token_action = codes "admin:DeltaSharingCreateToken"

abbrev pub delta_sharing_delete_token_action : Bytes
delta_sharing_delete_token_action = codes "admin:DeltaSharingDeleteToken"

abbrev pub delta_sharing_list_tokens_action : Bytes
delta_sharing_list_tokens_action = codes "admin:DeltaSharingListTokens"

abbrev pub read_alerts_action : Bytes
read_alerts_action = codes "admin:ReadAlerts"

abbrev pub read_api_logs_action : Bytes
read_api_logs_action = codes "admin:ReadAPILogs"

abbrev pub read_error_logs_action : Bytes
read_error_logs_action = codes "admin:ReadErrorLogs"

abbrev pub read_audit_logs_action : Bytes
read_audit_logs_action = codes "admin:ReadAuditLogs"

abbrev pub all_admin_actions : Bytes
all_admin_actions = codes "admin:*"
