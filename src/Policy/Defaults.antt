-- ===== src/Policy/Defaults.antt =====
-- policy/constants.go: the built-in policies.
use silo_pkg.Prelude.{List, [], ◌∷◌, false}
use silo_pkg.Prelude.Bytes.{Bytes, codes}
use silo_pkg.Policy.Names.AdminA.{
  add_user_to_group_admin_action, bandwidth_monitor_action, config_update_admin_action,
  console_log_admin_action, create_service_account_admin_action, create_user_admin_action,
  data_usage_info_admin_action, decommission_admin_action, delete_user_admin_action,
  disable_user_admin_action, enable_user_admin_action, force_unlock_admin_action,
  get_user_admin_action, heal_admin_action, health_info_admin_action, license_info_admin_action,
  list_service_accounts_admin_action, list_temporary_accounts_admin_action, list_users_admin_action,
  profiling_admin_action, prometheus_admin_action, rebalance_admin_action,
  remove_service_account_admin_action, server_info_admin_action, server_update_admin_action,
  service_cordon_admin_action, service_freeze_admin_action, service_restart_admin_action,
  service_stop_admin_action, storage_info_admin_action, top_locks_admin_action, trace_admin_action,
  update_service_account_admin_action,
}
use silo_pkg.Policy.Names.AdminB.{
  all_admin_actions, attach_policy_admin_action, cancel_batch_job_action, cluster_info_action,
  create_policy_admin_action, delete_policy_admin_action, describe_batch_job_action,
  disable_group_admin_action, drive_info_action, drive_list_action, enable_group_admin_action,
  export_bucket_metadata_action, export_iam_action, generate_batch_job_action,
  get_bucket_quota_admin_action, get_group_admin_action, get_policy_admin_action,
  import_bucket_metadata_action, import_iam_action, inventory_control_action,
  list_batch_jobs_action, list_groups_admin_action, list_tier_action,
  list_user_policies_admin_action, node_info_action, node_list_action, pool_info_action,
  pool_list_action, remove_user_from_group_admin_action, set_bucket_quota_admin_action,
  set_info_action, set_tier_action, start_batch_job_action, update_policy_association_action,
}
use silo_pkg.Policy.Names.Kms.{all_kms_actions}
use silo_pkg.Policy.Names.S3.{
  all_actions, get_bucket_location_action, get_object_action, list_bucket_action, put_object_action,
}
use silo_pkg.Policy.Names.Table.{
  all_s3tables_actions, s3tables_create_table_action, s3tables_create_view_action,
  s3tables_delete_view_action, s3tables_get_config_action, s3tables_get_namespace_action,
  s3tables_get_table_action, s3tables_get_table_data_action, s3tables_get_table_encryption_action,
  s3tables_get_table_maintenance_configuration_action,
  s3tables_get_table_maintenance_job_status_action, s3tables_get_table_metadata_location_action,
  s3tables_get_table_policy_action, s3tables_get_view_action, s3tables_get_warehouse_action,
  s3tables_get_warehouse_encryption_action, s3tables_get_warehouse_maintenance_configuration_action,
  s3tables_get_warehouse_policy_action, s3tables_list_namespaces_action,
  s3tables_list_tables_action, s3tables_list_views_action, s3tables_list_warehouses_action,
  s3tables_put_table_data_action, s3tables_register_table_action, s3tables_register_view_action,
  s3tables_rename_table_action, s3tables_rename_view_action, s3tables_table_metrics_action,
  s3tables_update_namespace_properties_action, s3tables_update_table_action,
  s3tables_update_table_metadata_location_action, s3tables_update_view_action,
}
use silo_pkg.Policy.ActionSet.{new_action_set}
use silo_pkg.Policy.Effect.{allow}
use silo_pkg.Policy.Resource.{Resource, arn_s3, arn_s3tables}
use silo_pkg.Policy.ResourceSet.{new_resource_set}
use silo_pkg.Policy.Statement.{Statement}
use silo_pkg.Policy.Decide.{Policy}
use silo_pkg.Policy.Validate.{default_version}

-- `NewResource`
unfoldable pub new_resource : Bytes → Resource
new_resource pattern = record { pattern = pattern; arn_type = arn_s3 }

-- `NewS3TablesResource`
unfoldable pub new_s3tables_resource : Bytes → Resource
new_s3tables_resource pattern = record { pattern = pattern; arn_type = arn_s3tables }

-- a statement of the list, which allows these actions on these resources
unfoldable pub canned : List Bytes → List Resource → Statement
unfolding new_action_set new_resource_set
canned actions resources = record {
  sid = [];
  effect = allow;
  actions = new_action_set actions;
  not_actions = [];
  resources = new_resource_set resources;
  not_resources = [];
  conditions = [];
}

unfoldable pub canned_policy : List Statement → Policy
canned_policy statements = record {
  id = [];
  version = default_version;
  statements = statements;
  action_statement_index = [];
  has_deny = false;
}

-- "readwrite"
unfoldable pub read_write_policy : Policy
unfolding canned_policy canned new_resource new_s3tables_resource
read_write_policy = canned_policy (canned (all_actions ∷ []) (new_resource (codes "*") ∷ []) ∷ [])

-- "readonly"
unfoldable pub read_only_policy : Policy
unfolding canned_policy canned new_resource new_s3tables_resource
read_only_policy = canned_policy (
    canned (get_bucket_location_action ∷ get_object_action ∷ []) (new_resource (codes "*") ∷ [])
    ∷ [])

-- "consolereadonly"
unfoldable pub console_read_only_policy : Policy
unfolding canned_policy canned new_resource new_s3tables_resource
console_read_only_policy = canned_policy (
    canned (get_bucket_location_action ∷ get_object_action ∷ list_bucket_action ∷ [])
      (new_resource (codes "*") ∷ [])
    ∷ [])

-- "writeonly"
unfoldable pub write_only_policy : Policy
unfolding canned_policy canned new_resource new_s3tables_resource
write_only_policy =
    canned_policy (canned (put_object_action ∷ []) (new_resource (codes "*") ∷ []) ∷ [])

-- "diagnostics"
unfoldable pub diagnostics_policy : Policy
unfolding canned_policy canned new_resource new_s3tables_resource
diagnostics_policy = canned_policy (
    canned
      (profiling_admin_action ∷ trace_admin_action ∷ console_log_admin_action
        ∷ server_info_admin_action ∷ top_locks_admin_action ∷ health_info_admin_action
        ∷ bandwidth_monitor_action ∷ prometheus_admin_action ∷ [])
      (new_resource (codes "*") ∷ [])
    ∷ [])

-- "tablesAdmin"
unfoldable pub tables_admin_policy : Policy
unfolding canned_policy canned new_resource new_s3tables_resource
tables_admin_policy =
    canned_policy (canned (all_s3tables_actions ∷ []) (new_s3tables_resource (codes "*") ∷ []) ∷ [])

-- "iamAdmin"
unfoldable pub iam_admin_policy : Policy
unfolding canned_policy canned new_resource new_s3tables_resource
iam_admin_policy = canned_policy (
    canned
      (create_user_admin_action ∷ delete_user_admin_action ∷ list_users_admin_action
        ∷ enable_user_admin_action ∷ disable_user_admin_action ∷ get_user_admin_action
        ∷ add_user_to_group_admin_action ∷ remove_user_from_group_admin_action
        ∷ get_group_admin_action ∷ list_groups_admin_action ∷ enable_group_admin_action
        ∷ disable_group_admin_action ∷ create_policy_admin_action ∷ delete_policy_admin_action
        ∷ get_policy_admin_action ∷ attach_policy_admin_action ∷ update_policy_association_action
        ∷ list_user_policies_admin_action ∷ create_service_account_admin_action
        ∷ update_service_account_admin_action ∷ remove_service_account_admin_action
        ∷ list_service_accounts_admin_action ∷ list_temporary_accounts_admin_action
        ∷ export_iam_action ∷ import_iam_action ∷ [])
      []
    ∷ [])

-- "infraAdmin"
unfoldable pub infra_admin_policy : Policy
unfolding canned_policy canned new_resource new_s3tables_resource
infra_admin_policy = canned_policy (
    canned
      (server_update_admin_action ∷ service_restart_admin_action ∷ service_stop_admin_action
        ∷ service_freeze_admin_action ∷ service_cordon_admin_action ∷ server_info_admin_action
        ∷ storage_info_admin_action ∷ config_update_admin_action ∷ heal_admin_action
        ∷ force_unlock_admin_action ∷ decommission_admin_action ∷ rebalance_admin_action
        ∷ set_bucket_quota_admin_action ∷ get_bucket_quota_admin_action ∷ set_tier_action
        ∷ list_tier_action ∷ license_info_admin_action ∷ data_usage_info_admin_action
        ∷ import_bucket_metadata_action ∷ export_bucket_metadata_action ∷ start_batch_job_action
        ∷ list_batch_jobs_action ∷ describe_batch_job_action ∷ cancel_batch_job_action
        ∷ generate_batch_job_action ∷ inventory_control_action ∷ cluster_info_action
        ∷ pool_list_action ∷ pool_info_action ∷ node_list_action ∷ node_info_action
        ∷ set_info_action ∷ drive_list_action ∷ drive_info_action ∷ [])
      []
    ∷ [])

-- "tablesReadWrite"
unfoldable pub tables_read_write_policy : Policy
unfolding canned_policy canned new_resource new_s3tables_resource
tables_read_write_policy = canned_policy (
    canned
      (s3tables_get_warehouse_action ∷ s3tables_get_warehouse_encryption_action
        ∷ s3tables_get_warehouse_maintenance_configuration_action
        ∷ s3tables_get_warehouse_policy_action ∷ s3tables_list_warehouses_action
        ∷ s3tables_get_namespace_action ∷ s3tables_list_namespaces_action
        ∷ s3tables_update_namespace_properties_action ∷ s3tables_get_table_action
        ∷ s3tables_list_tables_action ∷ s3tables_get_table_data_action
        ∷ s3tables_put_table_data_action ∷ s3tables_get_table_encryption_action
        ∷ s3tables_get_table_maintenance_configuration_action
        ∷ s3tables_get_table_maintenance_job_status_action
        ∷ s3tables_get_table_metadata_location_action ∷ s3tables_get_table_policy_action
        ∷ s3tables_create_table_action ∷ s3tables_update_table_action
        ∷ s3tables_update_table_metadata_location_action ∷ s3tables_rename_table_action
        ∷ s3tables_register_table_action ∷ s3tables_get_view_action ∷ s3tables_list_views_action
        ∷ s3tables_create_view_action ∷ s3tables_update_view_action ∷ s3tables_rename_view_action
        ∷ s3tables_delete_view_action ∷ s3tables_register_view_action ∷ s3tables_get_config_action
        ∷ s3tables_table_metrics_action ∷ [])
      (new_s3tables_resource (codes "*") ∷ [])
    ∷ [])

-- "tablesReadOnly"
unfoldable pub tables_read_only_policy : Policy
unfolding canned_policy canned new_resource new_s3tables_resource
tables_read_only_policy = canned_policy (
    canned
      (s3tables_get_warehouse_action ∷ s3tables_get_warehouse_encryption_action
        ∷ s3tables_get_warehouse_maintenance_configuration_action
        ∷ s3tables_get_warehouse_policy_action ∷ s3tables_list_warehouses_action
        ∷ s3tables_get_namespace_action ∷ s3tables_list_namespaces_action
        ∷ s3tables_get_table_action ∷ s3tables_list_tables_action ∷ s3tables_get_table_data_action
        ∷ s3tables_get_table_encryption_action ∷ s3tables_get_table_maintenance_configuration_action
        ∷ s3tables_get_table_maintenance_job_status_action
        ∷ s3tables_get_table_metadata_location_action ∷ s3tables_get_table_policy_action
        ∷ s3tables_get_view_action ∷ s3tables_list_views_action ∷ s3tables_get_config_action
        ∷ s3tables_table_metrics_action ∷ [])
      (new_s3tables_resource (codes "*") ∷ [])
    ∷ [])

-- "consoleAdmin"
unfoldable pub console_admin_policy : Policy
unfolding canned_policy canned new_resource new_s3tables_resource
console_admin_policy = canned_policy (
    canned (all_admin_actions ∷ []) []
    ∷ canned (all_kms_actions ∷ []) []
    ∷ canned (all_actions ∷ []) (new_resource (codes "*") ∷ [])
    ∷ canned (all_s3tables_actions ∷ []) (new_s3tables_resource (codes "*") ∷ [])
    ∷ [])

-- `DefaultPolicies`
unfoldable pub default_policies : List (Bytes × Policy)
unfolding read_write_policy read_only_policy console_read_only_policy write_only_policy
    diagnostics_policy tables_admin_policy iam_admin_policy infra_admin_policy
    tables_read_write_policy tables_read_only_policy console_admin_policy
default_policies =
    (codes "readwrite", read_write_policy)
    ∷ (codes "readonly", read_only_policy)
    ∷ (codes "consolereadonly", console_read_only_policy)
    ∷ (codes "writeonly", write_only_policy)
    ∷ (codes "diagnostics", diagnostics_policy)
    ∷ (codes "tablesAdmin", tables_admin_policy)
    ∷ (codes "iamAdmin", iam_admin_policy)
    ∷ (codes "infraAdmin", infra_admin_policy)
    ∷ (codes "tablesReadWrite", tables_read_write_policy)
    ∷ (codes "tablesReadOnly", tables_read_only_policy)
    ∷ (codes "consoleAdmin", console_admin_policy)
    ∷ []
