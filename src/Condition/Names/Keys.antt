-- ===== src/Condition/Names/Keys.antt =====
-- policy/condition/keyname.go: the names of the condition keys.
use silo_pkg.Prelude.Bytes.{Bytes, codes}

abbrev pub s3tables_kms_key_arn : Bytes
s3tables_kms_key_arn = codes "s3tables:KMSKeyArn"

abbrev pub s3tables_sse_algorithm : Bytes
s3tables_sse_algorithm = codes "s3tables:SSEAlgorithm"

abbrev pub s3tables_namespace : Bytes
s3tables_namespace = codes "s3tables:namespace"

abbrev pub s3tables_table_name : Bytes
s3tables_table_name = codes "s3tables:tableName"

abbrev pub s3tables_view_name : Bytes
s3tables_view_name = codes "s3tables:viewName"

abbrev pub s3tables_register_location : Bytes
s3tables_register_location = codes "s3tables:registerLocation"

abbrev pub s3_xamz_copy_source : Bytes
s3_xamz_copy_source = codes "s3:x-amz-copy-source"

abbrev pub s3_xamz_server_side_encryption : Bytes
s3_xamz_server_side_encryption = codes "s3:x-amz-server-side-encryption"

abbrev pub s3_xamz_server_side_encryption_customer_algorithm : Bytes
s3_xamz_server_side_encryption_customer_algorithm =
    codes "s3:x-amz-server-side-encryption-customer-algorithm"

abbrev pub s3_xamz_metadata_directive : Bytes
s3_xamz_metadata_directive = codes "s3:x-amz-metadata-directive"

abbrev pub s3_xamz_content_sha256 : Bytes
s3_xamz_content_sha256 = codes "s3:x-amz-content-sha256"

abbrev pub s3_xamz_storage_class : Bytes
s3_xamz_storage_class = codes "s3:x-amz-storage-class"

abbrev pub s3_xamz_server_side_encryption_aws_kms_key_id : Bytes
s3_xamz_server_side_encryption_aws_kms_key_id =
    codes "s3:x-amz-server-side-encryption-aws-kms-key-id"

abbrev pub s3_location_constraint : Bytes
s3_location_constraint = codes "s3:LocationConstraint"

abbrev pub s3_prefix : Bytes
s3_prefix = codes "s3:prefix"

abbrev pub s3_delimiter : Bytes
s3_delimiter = codes "s3:delimiter"

abbrev pub s3_version_id : Bytes
s3_version_id = codes "s3:versionid"

abbrev pub s3_max_keys : Bytes
s3_max_keys = codes "s3:max-keys"

abbrev pub s3_object_lock_remaining_retention_days : Bytes
s3_object_lock_remaining_retention_days = codes "s3:object-lock-remaining-retention-days"

abbrev pub s3_object_lock_mode : Bytes
s3_object_lock_mode = codes "s3:object-lock-mode"

abbrev pub s3_object_lock_retain_until_date : Bytes
s3_object_lock_retain_until_date = codes "s3:object-lock-retain-until-date"

abbrev pub s3_object_lock_legal_hold : Bytes
s3_object_lock_legal_hold = codes "s3:object-lock-legal-hold"

abbrev pub aws_referer : Bytes
aws_referer = codes "aws:Referer"

abbrev pub aws_source_ip : Bytes
aws_source_ip = codes "aws:SourceIp"

abbrev pub aws_user_agent : Bytes
aws_user_agent = codes "aws:UserAgent"

abbrev pub aws_secure_transport : Bytes
aws_secure_transport = codes "aws:SecureTransport"

abbrev pub aws_current_time : Bytes
aws_current_time = codes "aws:CurrentTime"

abbrev pub aws_epoch_time : Bytes
aws_epoch_time = codes "aws:EpochTime"

abbrev pub aws_principal_type : Bytes
aws_principal_type = codes "aws:principaltype"

abbrev pub aws_user_id : Bytes
aws_user_id = codes "aws:userid"

abbrev pub aws_username : Bytes
aws_username = codes "aws:username"

abbrev pub aws_groups : Bytes
aws_groups = codes "aws:groups"

abbrev pub s3_signature_version : Bytes
s3_signature_version = codes "s3:signatureversion"

abbrev pub s3_signature_age : Bytes
s3_signature_age = codes "s3:signatureAge"

abbrev pub s3_auth_type : Bytes
s3_auth_type = codes "s3:authType"

abbrev pub s3_express_session_mode : Bytes
s3_express_session_mode = codes "s3express:SessionMode"

abbrev pub existing_object_tag : Bytes
existing_object_tag = codes "s3:ExistingObjectTag"

abbrev pub request_object_tag_keys : Bytes
request_object_tag_keys = codes "s3:RequestObjectTagKeys"

abbrev pub request_object_tag : Bytes
request_object_tag = codes "s3:RequestObjectTag"

abbrev pub jwt_sub : Bytes
jwt_sub = codes "jwt:sub"

abbrev pub jwt_iss : Bytes
jwt_iss = codes "jwt:iss"

abbrev pub jwt_aud : Bytes
jwt_aud = codes "jwt:aud"

abbrev pub jwt_jti : Bytes
jwt_jti = codes "jwt:jti"

abbrev pub jwt_upn : Bytes
jwt_upn = codes "jwt:upn"

abbrev pub jwt_name : Bytes
jwt_name = codes "jwt:name"

abbrev pub jwt_groups : Bytes
jwt_groups = codes "jwt:groups"

abbrev pub jwt_given_name : Bytes
jwt_given_name = codes "jwt:given_name"

abbrev pub jwt_family_name : Bytes
jwt_family_name = codes "jwt:family_name"

abbrev pub jwt_middle_name : Bytes
jwt_middle_name = codes "jwt:middle_name"

abbrev pub jwt_nick_name : Bytes
jwt_nick_name = codes "jwt:nickname"

abbrev pub jwt_pref_username : Bytes
jwt_pref_username = codes "jwt:preferred_username"

abbrev pub jwt_profile : Bytes
jwt_profile = codes "jwt:profile"

abbrev pub jwt_picture : Bytes
jwt_picture = codes "jwt:picture"

abbrev pub jwt_website : Bytes
jwt_website = codes "jwt:website"

abbrev pub jwt_email : Bytes
jwt_email = codes "jwt:email"

abbrev pub jwt_gender : Bytes
jwt_gender = codes "jwt:gender"

abbrev pub jwt_birthdate : Bytes
jwt_birthdate = codes "jwt:birthdate"

abbrev pub jwt_phone_number : Bytes
jwt_phone_number = codes "jwt:phone_number"

abbrev pub jwt_address : Bytes
jwt_address = codes "jwt:address"

abbrev pub jwt_scope : Bytes
jwt_scope = codes "jwt:scope"

abbrev pub jwt_client_id : Bytes
jwt_client_id = codes "jwt:client_id"

abbrev pub ldap_user : Bytes
ldap_user = codes "ldap:user"

abbrev pub ldap_username : Bytes
ldap_username = codes "ldap:username"

abbrev pub ldap_groups : Bytes
ldap_groups = codes "ldap:groups"

abbrev pub sts_duration_seconds : Bytes
sts_duration_seconds = codes "sts:DurationSeconds"

abbrev pub svc_duration_seconds : Bytes
svc_duration_seconds = codes "svc:DurationSeconds"
