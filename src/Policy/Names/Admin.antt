-- ===== src/Policy/Names/Admin.antt =====
-- policy/admin-action.go: the tables of supported admin actions.
use silo_pkg.Prelude.{List, [], ◌∷◌}
use silo_pkg.Prelude.Bytes.{Bytes}
use silo_pkg.Policy.Names.AdminA.{
  heal_admin_action, decommission_admin_action, rebalance_admin_action, storage_info_admin_action,
  prometheus_admin_action, data_usage_info_admin_action, force_unlock_admin_action,
  top_locks_admin_action, profiling_admin_action, trace_admin_action, console_log_admin_action,
  kms_create_key_admin_action, kms_key_status_admin_action, server_info_admin_action,
  health_info_admin_action, license_info_admin_action, bandwidth_monitor_action,
  inspect_data_action, server_update_admin_action, service_restart_admin_action,
  service_stop_admin_action, service_freeze_admin_action, service_cordon_admin_action,
  config_update_admin_action, create_user_admin_action, delete_user_admin_action,
  list_users_admin_action, enable_user_admin_action, disable_user_admin_action,
  get_user_admin_action, change_my_password_admin_action, site_replication_add_action,
  site_replication_disable_action, site_replication_remove_action, site_replication_resync_action,
  site_replication_info_action, site_replication_operation_action, tables_replication_add_action,
  tables_replication_remove_action, tables_replication_info_action,
  create_service_account_admin_action, update_service_account_admin_action,
  remove_service_account_admin_action, list_service_accounts_admin_action,
  list_temporary_accounts_admin_action, add_user_to_group_admin_action,
}
use silo_pkg.Policy.Names.AdminB.{
  remove_user_from_group_admin_action, get_group_admin_action, list_groups_admin_action,
  enable_group_admin_action, disable_group_admin_action, create_policy_admin_action,
  delete_policy_admin_action, get_policy_admin_action, attach_policy_admin_action,
  update_policy_association_action, list_user_policies_admin_action, set_bucket_quota_admin_action,
  get_bucket_quota_admin_action, set_bucket_target_action, get_bucket_target_action,
  replication_diff, import_bucket_metadata_action, export_bucket_metadata_action, set_tier_action,
  list_tier_action, export_iam_action, import_iam_action, list_batch_jobs_action,
  describe_batch_job_action, start_batch_job_action, cancel_batch_job_action,
  generate_batch_job_action, inventory_control_action, cluster_info_action, pool_list_action,
  pool_info_action, node_list_action, node_info_action, set_info_action, drive_list_action,
  drive_info_action, delta_sharing_admin_action, delta_sharing_create_share_action,
  delta_sharing_delete_share_action, delta_sharing_list_shares_action,
  delta_sharing_get_share_action, delta_sharing_update_share_action,
  delta_sharing_create_token_action, delta_sharing_delete_token_action,
  delta_sharing_list_tokens_action, read_alerts_action, read_api_logs_action,
  read_error_logs_action, read_audit_logs_action, all_admin_actions,
}

-- The keys of `SupportedAdminActions`.
unfoldable pub supported_admin_actions : List Bytes
supported_admin_actions =
    heal_admin_action ∷ storage_info_admin_action ∷ data_usage_info_admin_action
    ∷ top_locks_admin_action ∷ profiling_admin_action ∷ prometheus_admin_action ∷ trace_admin_action
    ∷ console_log_admin_action ∷ kms_create_key_admin_action ∷ kms_key_status_admin_action
    ∷ server_info_admin_action ∷ health_info_admin_action ∷ license_info_admin_action
    ∷ bandwidth_monitor_action ∷ inspect_data_action ∷ server_update_admin_action
    ∷ service_restart_admin_action ∷ service_stop_admin_action ∷ service_freeze_admin_action
    ∷ config_update_admin_action ∷ create_user_admin_action ∷ delete_user_admin_action
    ∷ list_users_admin_action ∷ enable_user_admin_action ∷ disable_user_admin_action
    ∷ get_user_admin_action ∷ change_my_password_admin_action ∷ add_user_to_group_admin_action
    ∷ remove_user_from_group_admin_action ∷ get_group_admin_action ∷ list_groups_admin_action
    ∷ enable_group_admin_action ∷ disable_group_admin_action ∷ create_service_account_admin_action
    ∷ update_service_account_admin_action ∷ remove_service_account_admin_action
    ∷ list_service_accounts_admin_action ∷ list_temporary_accounts_admin_action
    ∷ create_policy_admin_action ∷ delete_policy_admin_action ∷ get_policy_admin_action
    ∷ attach_policy_admin_action ∷ update_policy_association_action
    ∷ list_user_policies_admin_action ∷ set_bucket_quota_admin_action
    ∷ get_bucket_quota_admin_action ∷ set_bucket_target_action ∷ get_bucket_target_action
    ∷ replication_diff ∷ set_tier_action ∷ list_tier_action ∷ decommission_admin_action
    ∷ rebalance_admin_action ∷ site_replication_add_action ∷ site_replication_disable_action
    ∷ site_replication_info_action ∷ site_replication_operation_action
    ∷ site_replication_remove_action ∷ site_replication_resync_action
    ∷ tables_replication_add_action ∷ tables_replication_remove_action
    ∷ tables_replication_info_action ∷ import_bucket_metadata_action ∷ export_bucket_metadata_action
    ∷ export_iam_action ∷ import_iam_action ∷ force_unlock_admin_action ∷ list_batch_jobs_action
    ∷ describe_batch_job_action ∷ start_batch_job_action ∷ cancel_batch_job_action
    ∷ generate_batch_job_action ∷ inventory_control_action ∷ cluster_info_action ∷ pool_list_action
    ∷ pool_info_action ∷ node_list_action ∷ node_info_action ∷ set_info_action ∷ drive_list_action
    ∷ drive_info_action ∷ service_cordon_admin_action ∷ delta_sharing_admin_action
    ∷ delta_sharing_create_share_action ∷ delta_sharing_delete_share_action
    ∷ delta_sharing_list_shares_action ∷ delta_sharing_get_share_action
    ∷ delta_sharing_update_share_action ∷ delta_sharing_create_token_action
    ∷ delta_sharing_delete_token_action ∷ delta_sharing_list_tokens_action ∷ read_api_logs_action
    ∷ read_error_logs_action ∷ read_audit_logs_action ∷ read_alerts_action ∷ all_admin_actions ∷ []

-- The keys of `AdminActionsWithResource`.
unfoldable pub admin_actions_with_resource : List Bytes
admin_actions_with_resource =
    set_bucket_quota_admin_action ∷ get_bucket_quota_admin_action ∷ set_bucket_target_action
    ∷ get_bucket_target_action ∷ replication_diff ∷ import_bucket_metadata_action
    ∷ export_bucket_metadata_action ∷ heal_admin_action ∷ inventory_control_action ∷ []
