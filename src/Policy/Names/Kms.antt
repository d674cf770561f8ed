-- ===== src/Policy/Names/Kms.antt =====
-- policy/kms-action.go: the KMS actions.
use silo_pkg.Prelude.{List, [], ◌∷◌}
use silo_pkg.Prelude.Bytes.{Bytes, codes}

abbrev pub kms_create_key_action : Bytes
kms_create_key_action = codes "kms:CreateKey"

abbrev pub kms_delete_key_action : Bytes
kms_delete_key_action = codes "kms:DeleteKey"

abbrev pub kms_list_keys_action : Bytes
kms_list_keys_action = codes "kms:ListKeys"

abbrev pub kms_import_key_action : Bytes
kms_import_key_action = codes "kms:ImportKey"

abbrev pub kms_describe_policy_action : Bytes
kms_describe_policy_action = codes "kms:DescribePolicy"

abbrev pub kms_assign_policy_action : Bytes
kms_assign_policy_action = codes "kms:AssignPolicy"

abbrev pub kms_delete_policy_action : Bytes
kms_delete_policy_action = codes "kms:DeletePolicy"

abbrev pub kms_set_policy_action : Bytes
kms_set_policy_action = codes "kms:SetPolicy"

abbrev pub kms_get_policy_action : Bytes
kms_get_policy_action = codes "kms:GetPolicy"

abbrev pub kms_list_policies_action : Bytes
kms_list_policies_action = codes "kms:ListPolicies"

abbrev pub kms_describe_identity_action : Bytes
kms_describe_identity_action = codes "kms:DescribeIdentity"

abbrev pub kms_describe_self_identity_action : Bytes
kms_describe_self_identity_action = codes "kms:DescribeSelfIdentity"

abbrev pub kms_delete_identity_action : Bytes
kms_delete_identity_action = codes "kms:DeleteIdentity"

abbrev pub kms_list_identities_action : Bytes
kms_list_identities_action = codes "kms:ListIdentities"

abbrev pub kms_key_status_action : Bytes
kms_key_status_action = codes "kms:KeyStatus"

abbrev pub kms_status_action : Bytes
kms_status_action = codes "kms:Status"

abbrev pub kmsapi_action : Bytes
kmsapi_action = codes "kms:API"

abbrev pub kms_metrics_action : Bytes
kms_metrics_action = codes "kms:Metrics"

abbrev pub kms_version_action : Bytes
kms_version_action = codes "kms:Version"

abbrev pub kms_audit_log_action : Bytes
kms_audit_log_action = codes "kms:AuditLog"

abbrev pub kms_error_log_action : Bytes
kms_error_log_action = codes "kms:ErrorLog"

abbrev pub all_kms_actions : Bytes
all_kms_actions = codes "kms:*"

-- The keys of `supportedKMSActions`.
unfoldable pub supported_kms_actions : List Bytes
supported_kms_actions =
    kms_create_key_action ∷ kms_delete_key_action ∷ kms_list_keys_action ∷ kms_import_key_action
    ∷ kms_describe_policy_action ∷ kms_assign_policy_action ∷ kms_delete_policy_action
    ∷ kms_set_policy_action ∷ kms_get_policy_action ∷ kms_list_policies_action
    ∷ kms_describe_identity_action ∷ kms_describe_self_identity_action ∷ kms_delete_identity_action
    ∷ kms_list_identities_action ∷ kms_key_status_action ∷ kms_status_action ∷ kmsapi_action
    ∷ kms_metrics_action ∷ kms_version_action ∷ kms_audit_log_action ∷ kms_error_log_action
    ∷ all_kms_actions ∷ []
