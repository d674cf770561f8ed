-- ===== src/Policy/Names/Table.antt =====
-- policy/table-action.go: the names of the S3 Tables actions.
use silo_pkg.Prelude.Bytes.{Bytes, codes}

abbrev pub s3tables_create_namespace_action : Bytes
s3tables_create_namespace_action = codes "s3tables:CreateNamespace"

abbrev pub s3tables_create_table_action : Bytes
s3tables_create_table_action = codes "s3tables:CreateTable"

abbrev pub s3tables_delete_namespace_action : Bytes
s3tables_delete_namespace_action = codes "s3tables:DeleteNamespace"

abbrev pub s3tables_delete_table_action : Bytes
s3tables_delete_table_action = codes "s3tables:DeleteTable"

abbrev pub s3tables_delete_table_policy_action : Bytes
s3tables_delete_table_policy_action = codes "s3tables:DeleteTablePolicy"

abbrev pub s3tables_get_namespace_action : Bytes
s3tables_get_namespace_action = codes "s3tables:GetNamespace"

abbrev pub s3tables_get_table_action : Bytes
s3tables_get_table_action = codes "s3tables:GetTable"

abbrev pub s3tables_get_table_data_action : Bytes
s3tables_get_table_data_action = codes "s3tables:GetTableData"

abbrev pub s3tables_get_table_encryption_action : Bytes
s3tables_get_table_encryption_action = codes "s3tables:GetTableEncryption"

abbrev pub s3tables_get_table_maintenance_configuration_action : Bytes
s3tables_get_table_maintenance_configuration_action =
    codes "s3tables:GetTableMaintenanceConfiguration"

abbrev pub s3tables_get_table_maintenance_job_status_action : Bytes
s3tables_get_table_maintenance_job_status_action = codes "s3tables:GetTableMaintenanceJobStatus"

abbrev pub s3tables_get_table_metadata_location_action : Bytes
s3tables_get_table_metadata_location_action = codes "s3tables:GetTableMetadataLocation"

abbrev pub s3tables_get_table_policy_action : Bytes
s3tables_get_table_policy_action = codes "s3tables:GetTablePolicy"

abbrev pub s3tables_list_namespaces_action : Bytes
s3tables_list_namespaces_action = codes "s3tables:ListNamespaces"

abbrev pub s3tables_list_tables_action : Bytes
s3tables_list_tables_action = codes "s3tables:ListTables"

abbrev pub s3tables_put_table_data_action : Bytes
s3tables_put_table_data_action = codes "s3tables:PutTableData"

abbrev pub s3tables_put_table_encryption_action : Bytes
s3tables_put_table_encryption_action = codes "s3tables:PutTableEncryption"

abbrev pub s3tables_put_table_maintenance_configuration_action : Bytes
s3tables_put_table_maintenance_configuration_action =
    codes "s3tables:PutTableMaintenanceConfiguration"

abbrev pub s3tables_put_table_policy_action : Bytes
s3tables_put_table_policy_action = codes "s3tables:PutTablePolicy"

abbrev pub s3tables_register_table_action : Bytes
s3tables_register_table_action = codes "s3tables:RegisterTable"

abbrev pub s3tables_rename_table_action : Bytes
s3tables_rename_table_action = codes "s3tables:RenameTable"

abbrev pub s3tables_update_table_metadata_location_action : Bytes
s3tables_update_table_metadata_location_action = codes "s3tables:UpdateTableMetadataLocation"

abbrev pub s3tables_create_warehouse_action : Bytes
s3tables_create_warehouse_action = codes "s3tables:CreateWarehouse"

abbrev pub s3tables_create_table_bucket_action : Bytes
s3tables_create_table_bucket_action = codes "s3tables:CreateTableBucket"

abbrev pub s3tables_delete_warehouse_action : Bytes
s3tables_delete_warehouse_action = codes "s3tables:DeleteWarehouse"

abbrev pub s3tables_delete_table_bucket_action : Bytes
s3tables_delete_table_bucket_action = codes "s3tables:DeleteTableBucket"

abbrev pub s3tables_delete_warehouse_encryption_action : Bytes
s3tables_delete_warehouse_encryption_action = codes "s3tables:DeleteWarehouseEncryption"

abbrev pub s3tables_delete_table_bucket_encryption_action : Bytes
s3tables_delete_table_bucket_encryption_action = codes "s3tables:DeleteTableBucketEncryption"

abbrev pub s3tables_delete_warehouse_policy_action : Bytes
s3tables_delete_warehouse_policy_action = codes "s3tables:DeleteWarehousePolicy"

abbrev pub s3tables_delete_table_bucket_policy_action : Bytes
s3tables_delete_table_bucket_policy_action = codes "s3tables:DeleteTableBucketPolicy"

abbrev pub s3tables_get_warehouse_action : Bytes
s3tables_get_warehouse_action = codes "s3tables:GetWarehouse"

abbrev pub s3tables_get_table_bucket_action : Bytes
s3tables_get_table_bucket_action = codes "s3tables:GetTableBucket"

abbrev pub s3tables_get_warehouse_encryption_action : Bytes
s3tables_get_warehouse_encryption_action = codes "s3tables:GetWarehouseEncryption"

abbrev pub s3tables_get_table_bucket_encryption_action : Bytes
s3tables_get_table_bucket_encryption_action = codes "s3tables:GetTableBucketEncryption"

abbrev pub s3tables_get_warehouse_maintenance_configuration_action : Bytes
s3tables_get_warehouse_maintenance_configuration_action =
    codes "s3tables:GetWarehouseMaintenanceConfiguration"

abbrev pub s3tables_get_table_bucket_maintenance_configuration_action : Bytes
s3tables_get_table_bucket_maintenance_configuration_action =
    codes "s3tables:GetTableBucketMaintenanceConfiguration"

abbrev pub s3tables_get_warehouse_policy_action : Bytes
s3tables_get_warehouse_policy_action = codes "s3tables:GetWarehousePolicy"

abbrev pub s3tables_get_table_bucket_policy_action : Bytes
s3tables_get_table_bucket_policy_action = codes "s3tables:GetTableBucketPolicy"

abbrev pub s3tables_list_warehouses_action : Bytes
s3tables_list_warehouses_action = codes "s3tables:ListWarehouses"

abbrev pub s3tables_list_table_buckets_action : Bytes
s3tables_list_table_buckets_action = codes "s3tables:ListTableBuckets"

abbrev pub s3tables_put_warehouse_encryption_action : Bytes
s3tables_put_warehouse_encryption_action = codes "s3tables:PutWarehouseEncryption"

abbrev pub s3tables_put_table_bucket_encryption_action : Bytes
s3tables_put_table_bucket_encryption_action = codes "s3tables:PutTableBucketEncryption"

abbrev pub s3tables_put_warehouse_maintenance_configuration_action : Bytes
s3tables_put_warehouse_maintenance_configuration_action =
    codes "s3tables:PutWarehouseMaintenanceConfiguration"

abbrev pub s3tables_put_table_bucket_maintenance_configuration_action : Bytes
s3tables_put_table_bucket_maintenance_configuration_action =
    codes "s3tables:PutTableBucketMaintenanceConfiguration"

abbrev pub s3tables_put_warehouse_policy_action : Bytes
s3tables_put_warehouse_policy_action = codes "s3tables:PutWarehousePolicy"

abbrev pub s3tables_put_table_bucket_policy_action : Bytes
s3tables_put_table_bucket_policy_action = codes "s3tables:PutTableBucketPolicy"

abbrev pub s3tables_get_config_action : Bytes
s3tables_get_config_action = codes "s3tables:GetConfig"

abbrev pub s3tables_table_metrics_action : Bytes
s3tables_table_metrics_action = codes "s3tables:TableMetrics"

abbrev pub s3tables_update_table_action : Bytes
s3tables_update_table_action = codes "s3tables:UpdateTable"

abbrev pub s3tables_create_view_action : Bytes
s3tables_create_view_action = codes "s3tables:CreateView"

abbrev pub s3tables_delete_view_action : Bytes
s3tables_delete_view_action = codes "s3tables:DeleteView"

abbrev pub s3tables_get_view_action : Bytes
s3tables_get_view_action = codes "s3tables:GetView"

abbrev pub s3tables_rename_view_action : Bytes
s3tables_rename_view_action = codes "s3tables:RenameView"

abbrev pub s3tables_update_view_action : Bytes
s3tables_update_view_action = codes "s3tables:UpdateView"

abbrev pub s3tables_list_views_action : Bytes
s3tables_list_views_action = codes "s3tables:ListViews"

abbrev pub s3tables_register_view_action : Bytes
s3tables_register_view_action = codes "s3tables:RegisterView"

abbrev pub s3tables_update_namespace_properties_action : Bytes
s3tables_update_namespace_properties_action = codes "s3tables:UpdateNamespaceProperties"

abbrev pub s3tables_tag_resource_action : Bytes
s3tables_tag_resource_action = codes "s3tables:TagResource"

abbrev pub s3tables_untag_resource_action : Bytes
s3tables_untag_resource_action = codes "s3tables:UntagResource"

abbrev pub s3tables_list_tags_for_resource_action : Bytes
s3tables_list_tags_for_resource_action = codes "s3tables:ListTagsForResource"

abbrev pub all_s3tables_actions : Bytes
all_s3tables_actions = codes "s3tables:*"
