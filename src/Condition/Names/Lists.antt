-- ===== src/Condition/Names/Lists.antt =====
-- policy/condition/keyname.go: the lists of supported condition keys.
use silo_pkg.Prelude.{List, [], ◌∷◌}
use silo_pkg.Prelude.Bytes.{Bytes}
use silo_pkg.Condition.Names.Keys.{
  s3tables_kms_key_arn, s3tables_sse_algorithm, s3tables_namespace, s3tables_table_name,
  s3tables_view_name, s3tables_register_location, s3_xamz_copy_source,
  s3_xamz_server_side_encryption, s3_xamz_server_side_encryption_customer_algorithm,
  s3_xamz_metadata_directive, s3_xamz_content_sha256, s3_xamz_storage_class,
  s3_xamz_server_side_encryption_aws_kms_key_id, s3_location_constraint, s3_prefix, s3_delimiter,
  s3_version_id, s3_max_keys, s3_object_lock_remaining_retention_days, s3_object_lock_mode,
  s3_object_lock_retain_until_date, s3_object_lock_legal_hold, aws_referer, aws_source_ip,
  aws_user_agent, aws_secure_transport, aws_current_time, aws_epoch_time, aws_principal_type,
  aws_user_id, aws_username, aws_groups, s3_signature_version, s3_signature_age, s3_auth_type,
  s3_express_session_mode, existing_object_tag, request_object_tag_keys, request_object_tag,
  jwt_sub, jwt_iss, jwt_aud, jwt_jti, jwt_upn, jwt_name, jwt_groups, jwt_given_name,
  jwt_family_name, jwt_middle_name, jwt_nick_name, jwt_pref_username, jwt_profile, jwt_picture,
  jwt_website, jwt_email, jwt_gender, jwt_birthdate, jwt_phone_number, jwt_address, jwt_scope,
  jwt_client_id, ldap_user, ldap_username, ldap_groups, sts_duration_seconds, svc_duration_seconds,
}

-- `JWTKeys`
unfoldable pub jwt_keys : List Bytes
jwt_keys =
    jwt_sub ∷ jwt_iss ∷ jwt_aud ∷ jwt_jti ∷ jwt_name ∷ jwt_upn ∷ jwt_groups ∷ jwt_given_name
    ∷ jwt_family_name ∷ jwt_middle_name ∷ jwt_nick_name ∷ jwt_pref_username ∷ jwt_profile
    ∷ jwt_picture ∷ jwt_website ∷ jwt_email ∷ jwt_gender ∷ jwt_birthdate ∷ jwt_phone_number
    ∷ jwt_address ∷ jwt_scope ∷ jwt_client_id ∷ []

-- `AllSupportedKeys`
unfoldable pub all_supported_keys : List Bytes
all_supported_keys =
    s3_signature_version ∷ s3_auth_type ∷ s3_signature_age ∷ s3_xamz_copy_source
    ∷ s3_xamz_server_side_encryption ∷ s3_xamz_server_side_encryption_customer_algorithm
    ∷ s3_xamz_metadata_directive ∷ s3_xamz_storage_class
    ∷ s3_xamz_server_side_encryption_aws_kms_key_id ∷ s3_xamz_content_sha256
    ∷ s3_location_constraint ∷ s3_prefix ∷ s3_delimiter ∷ s3_max_keys ∷ s3_version_id
    ∷ s3_object_lock_remaining_retention_days ∷ s3_object_lock_mode ∷ s3_object_lock_legal_hold
    ∷ s3_object_lock_retain_until_date ∷ s3tables_kms_key_arn ∷ s3tables_sse_algorithm
    ∷ s3tables_namespace ∷ s3tables_table_name ∷ s3tables_view_name ∷ s3tables_register_location
    ∷ aws_referer ∷ aws_source_ip ∷ aws_user_agent ∷ aws_secure_transport ∷ aws_current_time
    ∷ aws_epoch_time ∷ aws_principal_type ∷ aws_user_id ∷ aws_username ∷ aws_groups ∷ ldap_user
    ∷ ldap_username ∷ ldap_groups ∷ request_object_tag ∷ existing_object_tag
    ∷ request_object_tag_keys ∷ jwt_sub ∷ jwt_iss ∷ jwt_aud ∷ jwt_jti ∷ jwt_name ∷ jwt_upn
    ∷ jwt_groups ∷ jwt_given_name ∷ jwt_family_name ∷ jwt_middle_name ∷ jwt_nick_name
    ∷ jwt_pref_username ∷ jwt_profile ∷ jwt_picture ∷ jwt_website ∷ jwt_email ∷ jwt_gender
    ∷ jwt_birthdate ∷ jwt_phone_number ∷ jwt_address ∷ jwt_scope ∷ jwt_client_id
    ∷ sts_duration_seconds ∷ svc_duration_seconds ∷ []

-- `CommonKeys`
unfoldable pub common_keys : List Bytes
unfolding jwt_keys
common_keys =
    s3_signature_version ∷ s3_auth_type ∷ s3_signature_age ∷ s3_xamz_content_sha256
    ∷ s3_location_constraint ∷ s3_express_session_mode ∷ aws_referer ∷ aws_source_ip
    ∷ aws_user_agent ∷ aws_secure_transport ∷ aws_current_time ∷ aws_epoch_time ∷ aws_principal_type
    ∷ aws_user_id ∷ aws_username ∷ aws_groups ∷ ldap_user ∷ ldap_username ∷ ldap_groups ∷ jwt_keys

-- `AllSupportedAdminKeys`
unfoldable pub all_supported_admin_keys : List Bytes
unfolding jwt_keys
all_supported_admin_keys =
    aws_referer ∷ aws_source_ip ∷ aws_user_agent ∷ aws_secure_transport ∷ aws_current_time
    ∷ aws_epoch_time ∷ aws_principal_type ∷ aws_user_id ∷ aws_username ∷ aws_groups ∷ ldap_user
    ∷ ldap_username ∷ ldap_groups ∷ svc_duration_seconds ∷ jwt_keys

-- `AllSupportedSTSKeys`
unfoldable pub all_supported_sts_keys : List Bytes
all_supported_sts_keys =
    aws_principal_type ∷ aws_secure_transport ∷ sts_duration_seconds ∷ ldap_user ∷ aws_user_id
    ∷ aws_groups ∷ ldap_groups ∷ ldap_username ∷ aws_username ∷ []
