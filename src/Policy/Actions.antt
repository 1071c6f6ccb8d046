-- ===== src/Policy/Actions.antt =====
-- policy.go: the actions, their SCL permission names, and the rules of each action.
use regenerative_architectur.Base.{String, Option, none, some, List, [], ◌∷◌}

pub data Action : Type 0 where
  token_grant_authorization_code token_grant_refresh token_grant_client_credentials
        token_grant_device_code token_grant_token_exchange token_introspect token_revoke
        userinfo_read authorize_initiate admin_user_read admin_user_create admin_user_update
        admin_user_delete admin_user_restore admin_user_purge admin_clients_manage
        admin_consents_manage admin_tenants_manage admin_settings_read admin_settings_update
        admin_audit_events_read admin_keys_read admin_keys_rotate admin_groups_read
        admin_groups_write admin_agents_manage admin_authorization_detail_types_manage
        admin_applications_manage admin_application_assignments_manage
        admin_application_categories_manage admin_federation_trusts_manage my_applications_read :
      Action
  -- A text that is no declared action.
  undeclared : String → Action

pub data Rule : Type 0 where
  client_must_declare_grant pkce_verification_passed redirect_uri_exact_match
        redirect_uri_registered code_not_redeemed code_not_expired token_active
        token_within_absolute_ttl sender_constraint_satisfied client_is_confidential
        device_code_approved device_code_not_expired caller_is_authenticated_client
        caller_owns_token token_has_openid_scope client_registered scope_subset_of_client_scope
        token_exchange_resource_present pkce_present par_required_if_fapi actor_is_admin
        actor_is_system_admin actor_is_control_plane_user actor_is_active actor_is_authenticated
        actor_and_resource_share_tenant actor_is_admin_or_system_admin :
      Rule

abbrev admin_rules : List Rule
admin_rules = actor_is_admin ∷ actor_is_active ∷ actor_is_authenticated ∷ []

abbrev tenant_admin_rules : List Rule
tenant_admin_rules =
    actor_is_admin ∷ actor_is_active ∷ actor_is_authenticated ∷ actor_and_resource_share_tenant ∷ []

abbrev control_plane_rules : List Rule
control_plane_rules =
    actor_is_system_admin ∷ actor_is_control_plane_user ∷ actor_is_active ∷ actor_is_authenticated
    ∷ []

abbrev settings_rules : List Rule
settings_rules =
    actor_is_admin_or_system_admin ∷ actor_is_active ∷ actor_is_authenticated
    ∷ actor_and_resource_share_tenant ∷ []

abbrev reader_rules : List Rule
reader_rules = actor_is_admin_or_system_admin ∷ actor_is_active ∷ actor_is_authenticated ∷ []

-- The map `actionRules`; `none` is a missing key.
unfoldable pub action_rules : Action → Option (List Rule)
action_rules token_grant_authorization_code = some (
    client_must_declare_grant ∷ pkce_verification_passed ∷ redirect_uri_exact_match
    ∷ code_not_redeemed ∷ code_not_expired ∷ [])
action_rules token_grant_refresh = some (
    client_must_declare_grant ∷ token_active ∷ token_within_absolute_ttl
    ∷ sender_constraint_satisfied ∷ [])
action_rules token_grant_client_credentials =
    some (client_is_confidential ∷ client_must_declare_grant ∷ [])
action_rules token_grant_device_code = some (device_code_approved ∷ device_code_not_expired ∷ [])
action_rules token_grant_token_exchange = some (
    client_must_declare_grant ∷ scope_subset_of_client_scope ∷ token_exchange_resource_present ∷ [])
action_rules token_introspect = some (caller_is_authenticated_client ∷ [])
action_rules token_revoke = some (caller_owns_token ∷ [])
action_rules userinfo_read = some (token_has_openid_scope ∷ token_active ∷ [])
action_rules authorize_initiate = some (
    client_registered ∷ redirect_uri_registered ∷ scope_subset_of_client_scope ∷ pkce_present
    ∷ par_required_if_fapi ∷ [])
action_rules admin_user_read = some admin_rules
action_rules admin_user_create = some admin_rules
action_rules admin_user_update = some admin_rules
action_rules admin_user_delete = some tenant_admin_rules
action_rules admin_user_restore = some tenant_admin_rules
action_rules admin_user_purge = some tenant_admin_rules
action_rules admin_clients_manage = some tenant_admin_rules
action_rules admin_consents_manage = some tenant_admin_rules
action_rules admin_tenants_manage = some control_plane_rules
action_rules admin_settings_read = some settings_rules
action_rules admin_settings_update = some settings_rules
action_rules admin_audit_events_read = some reader_rules
action_rules admin_keys_read = some reader_rules
action_rules admin_keys_rotate = some control_plane_rules
action_rules admin_groups_read = some tenant_admin_rules
action_rules admin_groups_write = some tenant_admin_rules
action_rules admin_agents_manage = some tenant_admin_rules
action_rules admin_authorization_detail_types_manage = some tenant_admin_rules
action_rules admin_applications_manage = some tenant_admin_rules
action_rules admin_application_assignments_manage = some tenant_admin_rules
action_rules admin_application_categories_manage = some tenant_admin_rules
action_rules admin_federation_trusts_manage = some tenant_admin_rules
action_rules my_applications_read =
    some (actor_is_authenticated ∷ actor_and_resource_share_tenant ∷ [])
action_rules (undeclared _) = none
