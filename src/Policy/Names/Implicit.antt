-- ===== src/Policy/Names/Implicit.antt =====
-- policy/actionset.go: the table of the actions that an action allows besides itself.
use silo_pkg.Prelude.{List, [], ◌∷◌}
use silo_pkg.Prelude.Bytes.{Bytes}
use silo_pkg.Policy.Names.S3.{
  abort_multipart_upload_action, delete_object_action, get_object_action, list_bucket_action,
  list_multipart_upload_parts_action, put_object_action, get_object_version_action,
}
use silo_pkg.Policy.Names.Table.{
  s3tables_delete_table_action, s3tables_get_table_data_action, s3tables_put_table_data_action,
  s3tables_create_warehouse_action, s3tables_create_table_bucket_action,
  s3tables_delete_warehouse_action, s3tables_delete_table_bucket_action,
  s3tables_delete_warehouse_encryption_action, s3tables_delete_table_bucket_encryption_action,
  s3tables_delete_warehouse_policy_action, s3tables_delete_table_bucket_policy_action,
  s3tables_get_warehouse_action, s3tables_get_table_bucket_action,
  s3tables_get_warehouse_encryption_action, s3tables_get_table_bucket_encryption_action,
  s3tables_get_warehouse_maintenance_configuration_action,
  s3tables_get_table_bucket_maintenance_configuration_action, s3tables_get_warehouse_policy_action,
  s3tables_get_table_bucket_policy_action, s3tables_list_warehouses_action,
  s3tables_list_table_buckets_action, s3tables_put_warehouse_encryption_action,
  s3tables_put_table_bucket_encryption_action,
  s3tables_put_warehouse_maintenance_configuration_action,
  s3tables_put_table_bucket_maintenance_configuration_action, s3tables_put_warehouse_policy_action,
  s3tables_put_table_bucket_policy_action, all_s3tables_actions,
}

unfoldable pub implicit_data : List (Bytes × List Bytes)
implicit_data =
    (get_object_version_action, get_object_action ∷ [])
    ∷ (s3tables_get_table_data_action, get_object_action ∷ list_multipart_upload_parts_action ∷ [])
    ∷ (
      s3tables_put_table_data_action,
      put_object_action ∷ abort_multipart_upload_action ∷ list_bucket_action ∷ [],
    )
    ∷ (s3tables_delete_table_action, delete_object_action ∷ [])
    ∷ (
      all_s3tables_actions,
      get_object_action ∷ put_object_action ∷ delete_object_action ∷ list_bucket_action
          ∷ list_multipart_upload_parts_action ∷ abort_multipart_upload_action ∷ [],
    )
    ∷ (s3tables_create_table_bucket_action, s3tables_create_warehouse_action ∷ [])
    ∷ (s3tables_delete_table_bucket_action, s3tables_delete_warehouse_action ∷ [])
    ∷ (
      s3tables_delete_table_bucket_encryption_action,
      s3tables_delete_warehouse_encryption_action ∷ [],
    )
    ∷ (s3tables_delete_table_bucket_policy_action, s3tables_delete_warehouse_policy_action ∷ [])
    ∷ (s3tables_get_table_bucket_action, s3tables_get_warehouse_action ∷ [])
    ∷ (s3tables_get_table_bucket_encryption_action, s3tables_get_warehouse_encryption_action ∷ [])
    ∷ (
      s3tables_get_table_bucket_maintenance_configuration_action,
      s3tables_get_warehouse_maintenance_configuration_action ∷ [],
    )
    ∷ (s3tables_get_table_bucket_policy_action, s3tables_get_warehouse_policy_action ∷ [])
    ∷ (s3tables_list_table_buckets_action, s3tables_list_warehouses_action ∷ [])
    ∷ []

unfoldable pub implicit_warehouse : List (Bytes × List Bytes)
implicit_warehouse =
    (s3tables_put_table_bucket_encryption_action, s3tables_put_warehouse_encryption_action ∷ [])
    ∷ (
      s3tables_put_table_bucket_maintenance_configuration_action,
      s3tables_put_warehouse_maintenance_configuration_action ∷ [],
    )
    ∷ (s3tables_put_table_bucket_policy_action, s3tables_put_warehouse_policy_action ∷ [])
    ∷ (s3tables_create_warehouse_action, s3tables_create_table_bucket_action ∷ [])
    ∷ (s3tables_delete_warehouse_action, s3tables_delete_table_bucket_action ∷ [])
    ∷ (
      s3tables_delete_warehouse_encryption_action,
      s3tables_delete_table_bucket_encryption_action ∷ [],
    )
    ∷ (s3tables_delete_warehouse_policy_action, s3tables_delete_table_bucket_policy_action ∷ [])
    ∷ (s3tables_get_warehouse_action, s3tables_get_table_bucket_action ∷ [])
    ∷ (s3tables_get_warehouse_encryption_action, s3tables_get_table_bucket_encryption_action ∷ [])
    ∷ (
      s3tables_get_warehouse_maintenance_configuration_action,
      s3tables_get_table_bucket_maintenance_configuration_action ∷ [],
    )
    ∷ (s3tables_get_warehouse_policy_action, s3tables_get_table_bucket_policy_action ∷ [])
    ∷ (s3tables_list_warehouses_action, s3tables_list_table_buckets_action ∷ [])
    ∷ (s3tables_put_warehouse_encryption_action, s3tables_put_table_bucket_encryption_action ∷ [])
    ∷ (
      s3tables_put_warehouse_maintenance_configuration_action,
      s3tables_put_table_bucket_maintenance_configuration_action ∷ [],
    )
    ∷ (s3tables_put_warehouse_policy_action, s3tables_put_table_bucket_policy_action ∷ [])
    ∷ []
