-- ===== src/Policy/Names/TableList.antt =====
-- policy/table-action.go: the table of supported S3 Tables actions.
use silo_pkg.Prelude.{List, [], ◌∷◌}
use silo_pkg.Prelude.Bytes.{Bytes}
use silo_pkg.Policy.Names.Table.{
  s3tables_create_namespace_action, s3tables_create_table_action, s3tables_delete_namespace_action,
  s3tables_delete_table_action, s3tables_delete_table_policy_action, s3tables_get_namespace_action,
  s3tables_get_table_action, s3tables_get_table_data_action, s3tables_get_table_encryption_action,
  s3tables_get_table_maintenance_configuration_action,
  s3tables_get_table_maintenance_job_status_action, s3tables_get_table_metadata_location_action,
  s3tables_get_table_policy_action, s3tables_list_namespaces_action, s3tables_list_tables_action,
  s3tables_put_table_data_action, s3tables_put_table_encryption_action,
  s3tables_put_table_maintenance_configuration_action, s3tables_put_table_policy_action,
  s3tables_register_table_action, s3tables_rename_table_action,
  s3tables_update_table_metadata_location_action, s3tables_create_warehouse_action,
  s3tables_create_table_bucket_action, s3tables_delete_warehouse_action,
  s3tables_delete_table_bucket_action, s3tables_delete_warehouse_encryption_action,
  s3tables_delete_table_bucket_encryption_action, s3tables_delete_warehouse_policy_action,
  s3tables_delete_table_bucket_policy_action, s3tables_get_warehouse_action,
  s3tables_get_table_bucket_action, s3tables_get_warehouse_encryption_action,
  s3tables_get_table_bucket_encryption_action,
  s3tables_get_warehouse_maintenance_configuration_action,
  s3tables_get_table_bucket_maintenance_configuration_action, s3tables_get_warehouse_policy_action,
  s3tables_get_table_bucket_policy_action, s3tables_list_warehouses_action,
  s3tables_list_table_buckets_action, s3tables_put_warehouse_encryption_action,
  s3tables_put_table_bucket_encryption_action,
  s3tables_put_warehouse_maintenance_configuration_action,
  s3tables_put_table_bucket_maintenance_configuration_action, s3tables_put_warehouse_policy_action,
  s3tables_put_table_bucket_policy_action, s3tables_get_config_action,
  s3tables_table_metrics_action, s3tables_update_table_action, s3tables_create_view_action,
  s3tables_delete_view_action, s3tables_get_view_action, s3tables_rename_view_action,
  s3tables_update_view_action, s3tables_list_views_action, s3tables_register_view_action,
  s3tables_update_namespace_properties_action, s3tables_tag_resource_action,
  s3tables_untag_resource_action, s3tables_list_tags_for_resource_action, all_s3tables_actions,
}

-- The keys of `SupportedTableActions`.
unfoldable pub supported_table_actions : List Bytes
supported_table_actions =
    s3tables_create_namespace_action ∷ s3tables_create_table_action
    ∷ s3tables_create_table_bucket_action ∷ s3tables_delete_namespace_action
    ∷ s3tables_delete_table_action ∷ s3tables_delete_table_bucket_action
    ∷ s3tables_delete_table_bucket_encryption_action ∷ s3tables_delete_table_bucket_policy_action
    ∷ s3tables_delete_table_policy_action ∷ s3tables_get_namespace_action
    ∷ s3tables_get_table_action ∷ s3tables_get_table_bucket_action
    ∷ s3tables_get_table_bucket_encryption_action
    ∷ s3tables_get_table_bucket_maintenance_configuration_action
    ∷ s3tables_get_table_bucket_policy_action ∷ s3tables_get_table_data_action
    ∷ s3tables_get_table_encryption_action ∷ s3tables_get_table_maintenance_configuration_action
    ∷ s3tables_get_table_maintenance_job_status_action ∷ s3tables_get_table_metadata_location_action
    ∷ s3tables_get_table_policy_action ∷ s3tables_list_namespaces_action
    ∷ s3tables_list_table_buckets_action ∷ s3tables_list_tables_action
    ∷ s3tables_put_table_bucket_encryption_action
    ∷ s3tables_put_table_bucket_maintenance_configuration_action
    ∷ s3tables_put_table_bucket_policy_action ∷ s3tables_put_table_data_action
    ∷ s3tables_put_table_encryption_action ∷ s3tables_put_table_maintenance_configuration_action
    ∷ s3tables_put_table_policy_action ∷ s3tables_register_table_action
    ∷ s3tables_rename_table_action ∷ s3tables_update_table_metadata_location_action
    ∷ s3tables_create_warehouse_action ∷ s3tables_delete_warehouse_action
    ∷ s3tables_delete_warehouse_encryption_action ∷ s3tables_delete_warehouse_policy_action
    ∷ s3tables_get_warehouse_action ∷ s3tables_get_warehouse_encryption_action
    ∷ s3tables_get_warehouse_maintenance_configuration_action ∷ s3tables_get_warehouse_policy_action
    ∷ s3tables_list_warehouses_action ∷ s3tables_put_warehouse_encryption_action
    ∷ s3tables_put_warehouse_maintenance_configuration_action ∷ s3tables_put_warehouse_policy_action
    ∷ s3tables_get_config_action ∷ s3tables_table_metrics_action ∷ s3tables_update_table_action
    ∷ s3tables_create_view_action ∷ s3tables_delete_view_action ∷ s3tables_get_view_action
    ∷ s3tables_rename_view_action ∷ s3tables_update_view_action ∷ s3tables_list_views_action
    ∷ s3tables_register_view_action ∷ s3tables_update_namespace_properties_action
    ∷ s3tables_tag_resource_action ∷ s3tables_untag_resource_action
    ∷ s3tables_list_tags_for_resource_action ∷ all_s3tables_actions ∷ []
