-- ===== src/Policy/Names/AdminA.antt =====
-- policy/admin-action.go: the names of the admin actions, first part.
use silo_pkg.Prelude.Bytes.{Bytes, codes}

abbrev pub heal_admin_action : Bytes
heal_admin_action = codes "admin:Heal"

abbrev pub decommission_admin_action : Bytes
decommission_admin_action = codes "admin:Decommission"

abbrev pub rebalance_admin_action : Bytes
rebalance_admin_action = codes "admin:Rebalance"

abbrev pub storage_info_admin_action : Bytes
storage_info_admin_action = codes "admin:StorageInfo"

abbrev pub prometheus_admin_action : Bytes
prometheus_admin_action = codes "admin:Prometheus"

abbrev pub data_usage_info_admin_action : Bytes
data_usage_info_admin_action = codes "admin:DataUsageInfo"

abbrev pub force_unlock_admin_action : Bytes
force_unlock_admin_action = codes "admin:ForceUnlock"

abbrev pub top_locks_admin_action : Bytes
top_locks_admin_action = codes "admin:TopLocksInfo"

abbrev pub profiling_admin_action : Bytes
profiling_admin_action = codes "admin:Profiling"

abbrev pub trace_admin_action : Bytes
trace_admin_action = codes "admin:ServerTrace"

abbrev pub console_log_admin_action : Bytes
console_log_admin_action = codes "admin:ConsoleLog"

abbrev pub kms_enable_admin_action : Bytes
kms_enable_admin_action = codes "admin:KMSEnable"

abbrev pub kms_backup_admin_action : Bytes
kms_backup_admin_action = codes "admin:KMSBackup"

abbrev pub kms_restore_admin_action : Bytes
kms_restore_admin_action = codes "admin:KMSRestore"

abbrev pub kms_create_key_admin_action : Bytes
kms_create_key_admin_action = codes "admin:KMSCreateKey"

abbrev pub kms_key_status_admin_action : Bytes
kms_key_status_admin_action = codes "admin:KMSKeyStatus"

abbrev pub kms_key_rotate_admin_action : Bytes
kms_key_rotate_admin_action = codes "admin:KMSKeyRotate"

abbrev pub server_info_admin_action : Bytes
server_info_admin_action = codes "admin:ServerInfo"

abbrev pub health_info_admin_action : Bytes
health_info_admin_action = codes "admin:OBDInfo"

abbrev pub license_info_admin_action : Bytes
license_info_admin_action = codes "admin:LicenseInfo"

abbrev pub bandwidth_monitor_action : Bytes
bandwidth_monitor_action = codes "admin:BandwidthMonitor"

abbrev pub inspect_data_action : Bytes
inspect_data_action = codes "admin:InspectData"

abbrev pub server_update_admin_action : Bytes
server_update_admin_action = codes "admin:ServerUpdate"

abbrev pub service_restart_admin_action : Bytes
service_restart_admin_action = codes "admin:ServiceRestart"

abbrev pub service_stop_admin_action : Bytes
service_stop_admin_action = codes "admin:ServiceStop"

abbrev pub service_freeze_admin_action : Bytes
service_freeze_admin_action = codes "admin:ServiceFreeze"

abbrev pub service_cordon_admin_action : Bytes
service_cordon_admin_action = codes "admin:ServiceCordon"

abbrev pub config_update_admin_action : Bytes
config_update_admin_action = codes "admin:ConfigUpdate"

abbrev pub create_user_admin_action : Bytes
create_user_admin_action = codes "admin:CreateUser"

abbrev pub delete_user_admin_action : Bytes
delete_user_admin_action = codes "admin:DeleteUser"

abbrev pub list_users_admin_action : Bytes
list_users_admin_action = codes "admin:ListUsers"

abbrev pub enable_user_admin_action : Bytes
enable_user_admin_action = codes "admin:EnableUser"

abbrev pub disable_user_admin_action : Bytes
disable_user_admin_action = codes "admin:DisableUser"

abbrev pub get_user_admin_action : Bytes
get_user_admin_action = codes "admin:GetUser"

abbrev pub change_my_password_admin_action : Bytes
change_my_password_admin_action = codes "admin:ChangeMyPassword"

abbrev pub site_replication_add_action : Bytes
site_replication_add_action = codes "admin:SiteReplicationAdd"

abbrev pub site_replication_disable_action : Bytes
site_replication_disable_action = codes "admin:SiteReplicationDisable"

abbrev pub site_replication_remove_action : Bytes
site_replication_remove_action = codes "admin:SiteReplicationRemove"

abbrev pub site_replication_resync_action : Bytes
site_replication_resync_action = codes "admin:SiteReplicationResync"

abbrev pub site_replication_info_action : Bytes
site_replication_info_action = codes "admin:SiteReplicationInfo"

abbrev pub site_replication_operation_action : Bytes
site_replication_operation_action = codes "admin:SiteReplicationOperation"

abbrev pub tables_replication_add_action : Bytes
tables_replication_add_action = codes "admin:TablesReplicationAdd"

abbrev pub tables_replication_remove_action : Bytes
tables_replication_remove_action = codes "admin:TablesReplicationRemove"

abbrev pub tables_replication_info_action : Bytes
tables_replication_info_action = codes "admin:TablesReplicationInfo"

abbrev pub create_service_account_admin_action : Bytes
create_service_account_admin_action = codes "admin:CreateServiceAccount"

abbrev pub update_service_account_admin_action : Bytes
update_service_account_admin_action = codes "admin:UpdateServiceAccount"

abbrev pub remove_service_account_admin_action : Bytes
remove_service_account_admin_action = codes "admin:RemoveServiceAccount"

abbrev pub list_service_accounts_admin_action : Bytes
list_service_accounts_admin_action = codes "admin:ListServiceAccounts"

abbrev pub list_temporary_accounts_admin_action : Bytes
list_temporary_accounts_admin_action = codes "admin:ListTemporaryAccounts"

abbrev pub add_user_to_group_admin_action : Bytes
add_user_to_group_admin_action = codes "admin:AddUserToGroup"
