-- ===== src/UseCases/Code/Authorize.antt =====
-- oauth2/usecases/authorize.go. The authorization details of RFC 9396 are left out: their check is a
-- port that answers with an error or none.
use regenerative_architectur.Base.{
  ◌+◌, String, Bool, not, ◌&&◌, ◌||◌, Option, none, some, [], ◌∷◌, ◌==◌, contains, all_in,
  if◌then◌else◌,
}
use regenerative_architectur.Base.Int.{ℤ}
use regenerative_architectur.Base.Words.{fields, join}
use regenerative_architectur.Spec.{Time, seconds, authorization_code, contains_grant}
use regenerative_architectur.Machines.CodeFlow.{received}
use regenerative_architectur.Stores.AuthorizationRequests.{save, stored}
use regenerative_architectur.Oauth2.Records.{
  Oauth2Client, AuthorizationRequest, Result, ok, err, invalid_request, unsupported_response_type,
  invalid_client, unauthorized_client, invalid_scope, oauth,
}
use regenerative_architectur.UseCases.Monad.{
  M, ◌>>=◌, ◌>>◌, return, fail, guard, lift, some_or, on_requests,
}
use regenerative_architectur.UseCases.Ports.{Ports, Entropy}

pub record AuthorizeRequestInput : Type 0 where
  pub client_id : String
  pub redirect_uri : String
  pub response_type : String
  pub scope : String
  pub state_param : String
  pub nonce : String
  pub code_challenge : String
  pub code_challenge_method : String
  pub prompt : String
  pub max_age : Option ℤ
  pub acr_values : String
  pub par_used : Bool
  pub par_request_uri : String

pub record AuthorizeRequestOutput : Type 0 where
  pub request : AuthorizationRequest
  pub client : Oauth2Client

-- `strings.TrimSpace(s) == ""` holds for the texts that have no fields.
unfoldable pub default_scope : String → String
unfolding fields
default_scope s = elim (fields s) [ [] ↦ "openid" | _ ∷ _ ↦ s ]

abbrev pub optional : String → Option String
optional s = if s == "" then none else some s

unfoldable pub known_prompt : String → Bool
known_prompt p = p == "" || p == "none" || p == "login" || p == "consent"

-- The checks on the shape of the request.
unfoldable pub check_authorize_input : AuthorizeRequestInput → M (Unit {0})
check_authorize_input input = do
  guard (not (input.client_id == "")) invalid_request
  guard (not (input.redirect_uri == "")) invalid_request
  guard (input.response_type == "code") unsupported_response_type
  guard (not (input.code_challenge == "")) invalid_request
  guard (input.code_challenge_method == "S256") invalid_request

-- The checks against the client.
unfoldable pub check_authorize_client : Ports → String → AuthorizeRequestInput → M Oauth2Client
unfolding default_scope known_prompt fields
check_authorize_client d tenant_id input = do
  found ← lift (d.find_client tenant_id input.client_id)
  c ← some_or found (fail invalid_client)
  guard (contains c.redirect_uris input.redirect_uri) invalid_request
  guard (contains_grant c.grant_types authorization_code) unauthorized_client
  guard (all_in (fields (default_scope input.scope)) (fields c.scope)) invalid_scope
  guard (not (c.require_pushed_authorization_requests && not input.par_used)) invalid_request
  guard (known_prompt input.prompt) invalid_request
  return c

unfoldable pub new_request : String → String → AuthorizeRequestInput → Time → AuthorizationRequest
unfolding default_scope fields
new_request tenant_id id input now = record {
  id = id;
  tenant_id = tenant_id;
  state = received;
  client_id = input.client_id;
  redirect_uri = input.redirect_uri;
  scope = join (fields (default_scope input.scope));
  state_param = optional input.state_param;
  nonce = optional input.nonce;
  code_challenge = input.code_challenge;
  prompt = optional input.prompt;
  max_age = input.max_age;
  par_request_uri = optional input.par_request_uri;
  sub = none;
  auth_time = none;
  amr = [];
  acr = none;
  acr_values = optional input.acr_values;
  created_at = now;
  expires_at = now + seconds 600;
}

-- An error of the validation becomes invalid_request.
abbrev pub as_invalid_request : Result (Unit {0}) → Result (Unit {0})
as_invalid_request (ok u) = ok u
as_invalid_request (err e) = err (oauth invalid_request)

-- The store keeps the caller's pointer, so the request that is returned has the tenant that Save has set.
-- `details` is the answer of ValidateAuthorizationDetails.
unfoldable pub authorize :
    Ports → Entropy → Result (Unit {0}) → String → AuthorizeRequestInput → M AuthorizeRequestOutput
unfolding check_authorize_input check_authorize_client new_request save
authorize d e details tenant_id input = do
  check_authorize_input input
  c ← check_authorize_client d tenant_id input
  lift details
  id ← lift e.id
  let req = new_request tenant_id id input d.clock
  lift (as_invalid_request (d.validate_request req))
  on_requests (save req)
  return (record { request = stored req; client = c })
