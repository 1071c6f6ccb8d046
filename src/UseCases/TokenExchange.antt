-- ===== src/UseCases/TokenExchange.antt =====
-- ra-idp-go/internal/oauth2/usecases/exchange_token.go: ExchangeToken (RFC 8693).
pub mod Checks
pub mod Exchanged
pub mod Stateless
use regenerative_architectur.Base.{
  ℕ, suc, String, Bool, true, false, not, ◌&&◌, ◌||◌, Option, none, some, List, [], ◌∷◌, ◌==◌, leb,
  all_in, if◌then◌else◌,
}
use regenerative_architectur.Base.Words.{fields, join, is_blank}
use regenerative_architectur.Spec.{Time, or_clock, unix}
use regenerative_architectur.Policy.{
  AuthzRequest, AuthzResponse, client, token_grant_token_exchange,
}
use regenerative_architectur.Oauth2.Details.{AuthorizationDetail, details_subset_of}
use regenerative_architectur.Oauth2.Records.{
  Oauth2Client, Act, innermost, acting_for, SenderConstraint, OauthError, Result, ok, err,
  invalid_request, invalid_grant, invalid_scope, invalid_client, invalid_authorization_details,
}
use regenerative_architectur.Oauth2.Events.{
  access_token_issued, token_exchanged, token_exchange_rejected,
}
use regenerative_architectur.UseCases.Monad.{
  M, ◌>>=◌, ◌>>◌, return, fail, guard_else, lift, some_or, emit,
}
use regenerative_architectur.UseCases.Ports.{Ports, AccessTokenInput}
use regenerative_architectur.UseCases.Senders.{sender_constraint_of, token_type_of, tag_of}
use regenerative_architectur.UseCases.Refresh.{authorize}
use regenerative_architectur.UseCases.Details.{
  DetailTypes, validate_authorization_details, load_authorization_detail_types,
}
use regenerative_architectur.UseCases.Tokens.{IntrospectionResult}

abbrev pub max_delegation_depth : ℕ
max_delegation_depth = 3

abbrev pub token_type_access_token_urn : String
token_type_access_token_urn = "urn:ietf:params:oauth:token-type:access_token"

pub record ExchangeTokenInput : Type 0 where
  pub client_id : String
  pub subject_token : String
  pub subject_token_type : String
  pub actor_token : String
  pub actor_token_type : String
  pub resource : List String
  pub scope : String
  pub requested_token_type : String
  pub proof_jkt : String
  pub proof_x5t_s256 : String
  pub authorization_details : List AuthorizationDetail

pub record ExchangeTokenResult : Type 0 where
  pub access_token : String
  pub issued_token_type : String
  pub token_type : String
  pub expires_in : ℕ
  pub scope : String
  pub authorization_details : List AuthorizationDetail

-- IntrospectAccessToken; `none` is a nil result.
abbrev pub Introspector : Type 0
Introspector = String → Result (Option IntrospectionResult)

unfoldable pub non_empty : List String → List String
non_empty [] = []
non_empty (v ∷ values) = let rest = non_empty values in if is_blank v then rest else v ∷ rest

abbrev pub single : List String → Option String
single (v ∷ []) = some v
single _ = none

-- An absent token type, or the only one that is served.
abbrev pub is_served_type : String → Bool
is_served_type t = t == "" || t == token_type_access_token_urn

abbrev pub active_token : Option IntrospectionResult → Option IntrospectionResult
active_token none = none
active_token (some r) = if r.active then some r else none

-- actDepth
unfoldable pub act_depth : Act → ℕ
act_depth (innermost sub) = 1
act_depth (acting_for sub nested) = suc (act_depth nested)

-- The actor, put around the chain of the subject token.
abbrev pub delegate : String → Option Act → Act
delegate actor none = innermost (some actor)
delegate actor (some nested) = acting_for (some actor) nested

abbrev pub may_act_allows : Option String → String → Bool
may_act_allows none actor = true
may_act_allows (some sub) actor = not (sub == "") && sub == actor

-- No request keeps the subject's scopes; `none` is a request beyond them.
unfoldable pub narrow_scopes : List String → List String → Option (List String)
narrow_scopes subject_scopes [] = some subject_scopes
narrow_scopes subject_scopes (s ∷ requested) =
    if all_in (s ∷ requested) subject_scopes then some (s ∷ requested) else none

abbrev pub is_ok : {A : Type 0} → Result A → Bool
is_ok (ok a) = true
is_ok (err e) = false

-- The request that evaluateTokenExchangePolicy asks the policy about.
unfoldable pub exchange_request : Oauth2Client → String → List String → Time → AuthzRequest
unfolding fields
exchange_request c resource scopes now = record {
  subject = record {
    type = client;
    id = c.client_id;
    client_type = some c.client_type;
    grant_types = c.grant_types;
    scopes = fields c.scope;
    redirect_uris = [];
    require_par = false;
    authenticated = false;
    roles = [];
    tenant_id = c.tenant_id;
    disabled_at = none;
  };
  action = token_grant_token_exchange;
  resource = record {
    id = resource;
    issued_to_client_id = "";
    redirect_uri = "";
    code_challenge = "";
    expires_at = 0;
    redeemed = false;
    revoked = false;
    rotated = false;
    absolute_expires_at = 0;
    sender_constraint = none;
    scopes = scopes;
    approved = false;
    tenant_id = c.tenant_id;
  };
  context = record {
    code_verifier = "";
    redirect_uri = "";
    proof_of_possession = none;
    par_used = false;
    authenticated = false;
    now = now;
    audience = resource;
  };
}

-- The deployment and the request, which every step of the exchange reads.
module _ (d : Ports) (introspector : Introspector) (types : DetailTypes) (tenant_id : String)
    (input : ExchangeTokenInput) (now : Time) where
  -- The closure `reject`: log and refuse.
  abbrev pub reject : {A : Type 0} → String → OauthError → M A
  reject actor e = do emit (token_exchange_rejected now tenant_id actor e); fail e

  -- The resource and the subject token.
  unfoldable pub find_subject : M (String × IntrospectionResult)
  unfolding non_empty
  find_subject = do
    resource ← some_or (single (non_empty input.resource)) (reject "" invalid_request)
    guard_else (is_served_type input.requested_token_type) (reject "" invalid_request)
    guard_else (not (input.subject_token == "")) (reject "" invalid_request)
    guard_else (is_served_type input.subject_token_type) (reject "" invalid_request)
    found ← lift (introspector input.subject_token)
    subject ← some_or (active_token found) (reject "" invalid_grant)
    return (resource, subject)

  -- The client, or who the actor token names.
  unfoldable pub find_actor : M String
  find_actor = elim (input.actor_token == "") [
    | true ↦ return input.client_id
    | false ↦ do
      guard_else (is_served_type input.actor_token_type) (reject "" invalid_request)
      found ← lift (introspector input.actor_token)
      actor ← some_or (active_token found) (reject "" invalid_grant)
      return actor.sub
  ]

  -- The details of the token: the subject's, or those asked for within them.
  unfoldable pub narrow_details :
      String → List AuthorizationDetail → List AuthorizationDetail → M (List AuthorizationDetail)
  unfolding validate_authorization_details load_authorization_detail_types
  narrow_details actor granted [] = return granted
  narrow_details actor granted (r ∷ requested) = do
    guard_else (is_ok (validate_authorization_details types tenant_id (r ∷ requested)))
        (reject actor invalid_authorization_details)
    loaded ← lift (load_authorization_detail_types types tenant_id (r ∷ requested))
    guard_else (details_subset_of (r ∷ requested) granted loaded)
        (reject actor invalid_authorization_details)
    return (r ∷ requested)

  abbrev pub exchanged_token :
      Oauth2Client
      → String
      → IntrospectionResult
      → String
      → List String
      → List AuthorizationDetail
      → AccessTokenInput
  exchanged_token c resource subject actor scopes details = record {
    client = c;
    sub = subject.sub;
    scopes = scopes;
    sender_constraint = sender_constraint_of input.proof_jkt input.proof_x5t_s256;
    auth_time = unix now;
    amr = [];
    acr = "";
    audiences = resource ∷ [];
    act = some (delegate actor subject.act);
    authorization_details = details;
  }

  -- The client's right, the signature and the events.
  unfoldable pub issue_exchanged :
      String
      → IntrospectionResult
      → String
      → List String
      → List AuthorizationDetail
      → M ExchangeTokenResult
  unfolding authorize exchange_request act_depth sender_constraint_of
  issue_exchanged resource subject actor scopes details = do
    found ← lift (d.find_client tenant_id input.client_id)
    c ← some_or found (reject actor invalid_client)
    decision ← lift (authorize d (exchange_request c resource scopes now))
    guard_else decision.permit (reject actor invalid_grant)
    signed ← lift (d.sign_access_token (exchanged_token c resource subject actor scopes details))
    let sc = sender_constraint_of input.proof_jkt input.proof_x5t_s256
    emit (access_token_issued now tenant_id signed.1 c.client_id subject.sub scopes (tag_of sc))
    emit (
        token_exchanged now tenant_id actor subject.sub resource
          (act_depth (delegate actor subject.act)))
    return (record {
      access_token = signed.0;
      issued_token_type = token_type_access_token_urn;
      token_type = token_type_of sc;
      expires_in = d.access_token_ttl_seconds;
      scope = join scopes;
      authorization_details = details;
    })

  -- The checks that stand between the tokens that are presented and the one that is issued.
  unfoldable pub exchange_at : M ExchangeTokenResult
  unfolding find_subject find_actor narrow_scopes narrow_details issue_exchanged fields act_depth
  exchange_at = do
    found ← find_subject
    let resource = found.0
    let subject = found.1
    actor ← find_actor
    guard_else (not (actor == "")) (reject "" invalid_request)
    guard_else (may_act_allows subject.may_act actor) (reject actor invalid_grant)
    guard_else (leb (act_depth (delegate actor subject.act)) max_delegation_depth)
        (reject actor invalid_request)
    scopes ←
        some_or (narrow_scopes (fields subject.scope) (fields input.scope))
          (reject actor invalid_scope)
    details ← narrow_details actor subject.authorization_details input.authorization_details
    issue_exchanged resource subject actor scopes details

unfoldable pub exchange_token :
    Ports → Introspector → DetailTypes → String → ExchangeTokenInput → Time → M ExchangeTokenResult
unfolding exchange_at
exchange_token d introspector types tenant_id input now =
    exchange_at d introspector types tenant_id input (or_clock d.clock now)
