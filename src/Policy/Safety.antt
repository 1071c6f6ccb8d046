-- ===== src/Policy/Safety.antt =====
-- Who may do what: the guarantees of the policy for administrators, tenants and refresh tokens.
use regenerative_architectur.Base.{
  ◌<◌, ◌≡◌, ◌≢◌, refl, ◌↔◌, ◌⊎◌, Bool, true, false, none, some, arith, contains, eq_iff,
}
use regenerative_architectur.Spec.{Time, or_clock, refresh_token, contains_grant}
use regenerative_architectur.Policy.Actions.{
  Action, action_rules, token_grant_refresh, token_grant_authorization_code,
  token_grant_client_credentials, token_grant_device_code, token_grant_token_exchange,
  token_introspect, token_revoke, userinfo_read, authorize_initiate, admin_tenants_manage,
  admin_keys_rotate, my_applications_read, undeclared, admin_user_read, admin_user_create,
  admin_user_update, admin_audit_events_read, admin_keys_read,
}
use regenerative_architectur.Policy.Rules.{AuthzRequest, user, rule_holds}
use regenerative_architectur.Policy.Evaluate.{evaluate, failed_rules}
use regenerative_architectur.Policy.Laws.{evaluate-permit_iff}

-- The actions whose SCL name begins with Admin.
abbrev pub is_admin_action : Action → Bool
is_admin_action token_grant_authorization_code = false
is_admin_action token_grant_refresh = false
is_admin_action token_grant_client_credentials = false
is_admin_action token_grant_device_code = false
is_admin_action token_grant_token_exchange = false
is_admin_action token_introspect = false
is_admin_action token_revoke = false
is_admin_action userinfo_read = false
is_admin_action authorize_initiate = false
is_admin_action my_applications_read = false
is_admin_action (undeclared _) = false
is_admin_action _ = true

pub record IsAdministrator (r : AuthzRequest) : Type 0 where
  pub a_user : r.subject.type ≡ user
  pub enabled : r.subject.disabled_at ≡ none
  pub signed_in : r.context.authenticated ≡ true
  pub privileged :
      (contains r.subject.roles "admin" ≡ true) ⊎ (contains r.subject.roles "system_admin" ≡ true)

admin_action :
    (clock : Time) (a : Action) (r : AuthzRequest)
    → r.action ≡ a
    → is_admin_action a ≡ true
    → (evaluate clock r).permit ≡ true
    → IsAdministrator r
unfolding action_rules rule_holds
admin_action clock token_grant_refresh r e h p = cc
admin_action clock _ r e h p = ground (arith, (evaluate-permit_iff clock r).0 p)

-- An admin action is permitted only to a signed-in user that is not disabled and has the role "admin"
-- or "system_admin".
pub evaluate-IsAdministrator :
    (clock : Time) (r : AuthzRequest)
    → is_admin_action r.action ≡ true
    → (evaluate clock r).permit ≡ true
    → IsAdministrator r
evaluate-IsAdministrator clock r h p = admin_action clock r.action r refl h p

-- The actions that a user of one tenant must not perform on another tenant's resources.
abbrev pub is_tenant_bound : Action → Bool
is_tenant_bound admin_user_read = false
is_tenant_bound admin_user_create = false
is_tenant_bound admin_user_update = false
is_tenant_bound admin_audit_events_read = false
is_tenant_bound admin_keys_read = false
is_tenant_bound admin_tenants_manage = false
is_tenant_bound admin_keys_rotate = false
is_tenant_bound my_applications_read = true
is_tenant_bound a = is_admin_action a

tenant_bound :
    (clock : Time) (a : Action) (r : AuthzRequest)
    → r.action ≡ a
    → is_tenant_bound a ≡ true
    → (evaluate clock r).permit ≡ true
    → (r.subject.tenant_id ≡ r.resource.tenant_id) × (r.subject.tenant_id ≢ "")
unfolding action_rules rule_holds
tenant_bound clock token_grant_refresh r e h p = cc
tenant_bound clock _ r e h p =
    let same = eq_iff r.subject.tenant_id r.resource.tenant_id in
    let empty = eq_iff r.subject.tenant_id "" in
    let known = (evaluate-permit_iff clock r).0 p in
    (ground (arith, same, known), λ e'. ground (arith, empty, known, e'))

-- A tenant-bound action is permitted only if the actor and the resource belong to the same tenant,
-- and that tenant is named.
pub evaluate-same_tenant :
    (clock : Time) (r : AuthzRequest)
    → is_tenant_bound r.action ≡ true
    → (evaluate clock r).permit ≡ true
    → (r.subject.tenant_id ≡ r.resource.tenant_id) × (r.subject.tenant_id ≢ "")
evaluate-same_tenant clock r h p = tenant_bound clock r.action r refl h p

-- Managing tenants and rotating keys is permitted only to users of the tenant "default" with the role
-- "system_admin"; the role "admin" does not suffice.
pub evaluate-control_plane :
    (clock : Time) (r : AuthzRequest)
    → (r.action ≡ admin_tenants_manage) ⊎ (r.action ≡ admin_keys_rotate)
    → (evaluate clock r).permit ≡ true
    → (r.subject.tenant_id ≡ "default") × (contains r.subject.roles "system_admin" ≡ true)
unfolding action_rules rule_holds
evaluate-control_plane clock r h p =
    ground (arith, eq_iff r.subject.tenant_id "default", (evaluate-permit_iff clock r).0 p)

-- What the refresh grant asks of a request, at the time `now`.
pub record MayRefresh (now : Time) (r : AuthzRequest) : Type 0 where
  pub declared : contains_grant r.subject.grant_types refresh_token ≡ true
  pub not_revoked : r.resource.revoked ≡ false
  pub not_rotated : r.resource.rotated ≡ false
  pub in_time : (r.resource.absolute_expires_at ≡ 0) ⊎ (now < r.resource.absolute_expires_at)
  pub proved : (r.resource.sender_constraint ≡ none) ⊎ (r.context.proof_of_possession ≡ some true)

-- A refresh is permitted exactly if the client declares the refresh grant, the token is neither
-- revoked nor rotated, it has no absolute expiry or is before it, and it has no sender constraint or
-- comes with a valid proof of possession.
pub evaluate-MayRefresh_iff :
    (clock : Time) (r : AuthzRequest)
    → r.action ≡ token_grant_refresh
    → ((evaluate clock r).permit ≡ true) ↔ MayRefresh (or_clock clock r.context.now) r
unfolding evaluate failed_rules action_rules rule_holds
evaluate-MayRefresh_iff clock r e = (λ p. ground arith, λ m. ground arith)
