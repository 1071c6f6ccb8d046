-- ===== src/Policy/Rules.antt =====
-- policy.go: AuthZRequest and the rule evaluators.
use regenerative_architectur.Base.{
  String, Bool, true, false, not, ◌&&◌, ◌||◌, Option, none, some, List, ◌==◌, nat_eq, contains,
  all_in, if◌then◌else◌,
}
use regenerative_architectur.Spec.{
  Time, before, or_clock, ClientType, confidential, GrantType, authorization_code, refresh_token,
  client_credentials, device_code, token_exchange, SenderConstraintType, client_type_eq,
  contains_grant,
}
use regenerative_architectur.Policy.Actions.{
  Action, token_grant_authorization_code, token_grant_refresh, token_grant_client_credentials,
  token_grant_device_code, token_grant_token_exchange, Rule, client_must_declare_grant,
  pkce_verification_passed, redirect_uri_exact_match, redirect_uri_registered, code_not_redeemed,
  code_not_expired, token_active, token_within_absolute_ttl, sender_constraint_satisfied,
  client_is_confidential, device_code_approved, device_code_not_expired,
  caller_is_authenticated_client, caller_owns_token, token_has_openid_scope, client_registered,
  scope_subset_of_client_scope, token_exchange_resource_present, pkce_present, par_required_if_fapi,
  actor_is_admin, actor_is_system_admin, actor_is_control_plane_user, actor_is_active,
  actor_is_authenticated, actor_and_resource_share_tenant, actor_is_admin_or_system_admin,
}

-- `Type`: "Client", "User", or any other text.
pub data SubjectType : Type 0 where
  client user other : SubjectType

pub record AuthzSubject : Type 0 where
  pub type : SubjectType
  pub id : String
  pub client_type : Option ClientType
  pub grant_types : List GrantType
  pub scopes : List String
  pub redirect_uris : List String
  pub require_par : Bool
  pub authenticated : Bool
  pub roles : List String
  pub tenant_id : String
  pub disabled_at : Option Time

pub record AuthzResource : Type 0 where
  pub id : String
  pub issued_to_client_id : String
  pub redirect_uri : String
  pub code_challenge : String
  pub expires_at : Time
  pub redeemed : Bool
  pub revoked : Bool
  pub rotated : Bool
  pub absolute_expires_at : Time
  pub sender_constraint : Option SenderConstraintType
  pub scopes : List String
  pub approved : Bool
  pub tenant_id : String

pub record AuthzContext : Type 0 where
  pub code_verifier : String
  pub redirect_uri : String
  -- The field `Valid` of the proof, where there is one.
  pub proof_of_possession : Option Bool
  pub par_used : Bool
  pub authenticated : Bool
  pub now : Time
  pub audience : String

pub record AuthzRequest : Type 0 where
  pub subject : AuthzSubject
  pub action : Action
  pub resource : AuthzResource
  pub context : AuthzContext

-- `none` is the empty grant.
unfoldable pub grant_from_action : Action → Option GrantType
grant_from_action token_grant_authorization_code = some authorization_code
grant_from_action token_grant_refresh = some refresh_token
grant_from_action token_grant_client_credentials = some client_credentials
grant_from_action token_grant_device_code = some device_code
grant_from_action token_grant_token_exchange = some token_exchange
grant_from_action _ = none

-- A zero expiry never expires; a zero `now` is read from the clock.
unfoldable pub is_expired : Time → Time → Time → Bool
is_expired clock expires_at now =
    if nat_eq expires_at 0 then false else not (before (or_clock clock now) expires_at)

abbrev is_client : SubjectType → Bool
is_client client = true
is_client _ = false

abbrev is_user : SubjectType → Bool
is_user user = true
is_user _ = false

abbrev is_token_exchange : Action → Bool
is_token_exchange token_grant_token_exchange = true
is_token_exchange _ = false

abbrev is_confidential : Option ClientType → Bool
is_confidential none = false
is_confidential (some c) = client_type_eq c confidential

abbrev is_none {ℓ} : {A : Type ℓ} → Option A → Bool
is_none none = true
is_none (some _) = false

abbrev is_valid_proof : Option Bool → Bool
is_valid_proof none = false
is_valid_proof (some valid) = valid

abbrev declares : Option GrantType → List GrantType → Bool
declares none grants = false
declares (some g) grants = contains_grant grants g

-- The map `ruleEvaluators`, with the clock that `isExpired` may read.
unfoldable pub rule_holds : Time → Rule → AuthzRequest → Bool
unfolding grant_from_action is_expired
rule_holds clock client_must_declare_grant r =
    declares (grant_from_action r.action) r.subject.grant_types
rule_holds clock pkce_verification_passed r =
    not (r.context.code_verifier == "") && not (r.resource.code_challenge == "")
rule_holds clock redirect_uri_exact_match r =
    not (r.context.redirect_uri == "")
    && not (r.resource.redirect_uri == "")
    && r.context.redirect_uri == r.resource.redirect_uri
rule_holds clock redirect_uri_registered r = contains r.subject.redirect_uris r.context.redirect_uri
rule_holds clock code_not_redeemed r = not r.resource.redeemed
rule_holds clock code_not_expired r = not (is_expired clock r.resource.expires_at r.context.now)
rule_holds clock token_active r = not r.resource.revoked && not r.resource.rotated
rule_holds clock token_within_absolute_ttl r =
    not (is_expired clock r.resource.absolute_expires_at r.context.now)
rule_holds clock sender_constraint_satisfied r =
    is_none r.resource.sender_constraint || is_valid_proof r.context.proof_of_possession
rule_holds clock client_is_confidential r = is_confidential r.subject.client_type
rule_holds clock device_code_approved r = r.resource.approved
rule_holds clock device_code_not_expired r =
    not (is_expired clock r.resource.expires_at r.context.now)
rule_holds clock caller_is_authenticated_client r =
    is_client r.subject.type && r.subject.authenticated
rule_holds clock caller_owns_token r = r.subject.id == r.resource.issued_to_client_id
rule_holds clock token_has_openid_scope r = contains r.resource.scopes "openid"
rule_holds clock client_registered r = is_client r.subject.type && not (r.subject.id == "")
rule_holds clock scope_subset_of_client_scope r = all_in r.resource.scopes r.subject.scopes
rule_holds clock token_exchange_resource_present r =
    is_token_exchange r.action && not (r.resource.id == "") && r.context.audience == r.resource.id
rule_holds clock pkce_present r = not (r.resource.code_challenge == "")
rule_holds clock par_required_if_fapi r = not r.subject.require_par || r.context.par_used
rule_holds clock actor_is_admin r = is_user r.subject.type && contains r.subject.roles "admin"
rule_holds clock actor_is_system_admin r =
    is_user r.subject.type && contains r.subject.roles "system_admin"
rule_holds clock actor_is_control_plane_user r =
    is_user r.subject.type && r.subject.tenant_id == "default"
rule_holds clock actor_is_active r = is_user r.subject.type && is_none r.subject.disabled_at
rule_holds clock actor_is_authenticated r = is_user r.subject.type && r.context.authenticated
rule_holds clock actor_and_resource_share_tenant r =
    is_user r.subject.type
    && not (r.subject.tenant_id == "")
    && r.subject.tenant_id == r.resource.tenant_id
rule_holds clock actor_is_admin_or_system_admin r =
    is_user r.subject.type
    && (contains r.subject.roles "admin" || contains r.subject.roles "system_admin")
