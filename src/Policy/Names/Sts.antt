-- ===== src/Policy/Names/Sts.antt =====
-- policy/sts-action.go: the STS actions.
use silo_pkg.Prelude.{List, [], ◌∷◌}
use silo_pkg.Prelude.Bytes.{Bytes, codes}

abbrev pub assume_role_action : Bytes
assume_role_action = codes "sts:AssumeRole"

abbrev pub assume_role_ldap_identity_action : Bytes
assume_role_ldap_identity_action = codes "sts:AssumeRoleLDAPIdentity"

abbrev pub assume_role_with_custom_token_action : Bytes
assume_role_with_custom_token_action = codes "sts:AssumeRoleWithCustomToken"

abbrev pub assume_role_with_web_identity_action : Bytes
assume_role_with_web_identity_action = codes "sts:AssumeRoleWithWebIdentity"

abbrev pub assume_role_with_client_grants_action : Bytes
assume_role_with_client_grants_action = codes "sts:AssumeRoleWithClientGrants"

abbrev pub assume_role_with_client_certificate_action : Bytes
assume_role_with_client_certificate_action = codes "sts:AssumeRoleWithClientCertificate"

abbrev pub all_sts_actions : Bytes
all_sts_actions = codes "sts:*"

-- The keys of `supportedSTSActions`.
unfoldable pub supported_sts_actions : List Bytes
supported_sts_actions =
    all_sts_actions ∷ assume_role_action ∷ assume_role_ldap_identity_action
    ∷ assume_role_with_web_identity_action ∷ assume_role_with_custom_token_action
    ∷ assume_role_with_client_grants_action ∷ assume_role_with_client_certificate_action ∷ []
