-- ===== src/UseCases/Code/Login.antt =====
-- oauth2/usecases/complete_login.go.
use regenerative_architectur.Base.{◌+◌, String, Bool, true, false, not, none, some, List, ◌==◌}
use regenerative_architectur.Base.Words.{fields}
use regenerative_architectur.Spec.{Time, seconds, before, unix}
use regenerative_architectur.Machines.CodeFlow.{
  AuthorizationCodeFlowState, received, authentication_pending, authenticated, code_issued, expired,
}
use regenerative_architectur.Machines.CodeRecord.{issued}
use regenerative_architectur.Stores.AuthorizationCodes.{save}
use regenerative_architectur.Stores.AuthorizationRequests.{
  find_request, update_state, attach_authentication,
}
use regenerative_architectur.Oauth2.Records.{
  AuthorizationRequest, AuthorizationCodeRecord, invalid_request,
}
use regenerative_architectur.UseCases.Monad.{
  World, M, ◌>>=◌, ◌>>◌, return, fail, guard, guard_else, lift, some_or, read, on_codes,
  try_requests, ignore_error,
}
use regenerative_architectur.UseCases.Ports.{Ports, Entropy}
use regenerative_architectur.UseCases.Code.Authorize.{optional}

pub record CompleteLoginInput : Type 0 where
  pub request_id : String
  pub sub : String
  pub auth_time : Time
  pub amr : List String
  pub acr : String

pub record CompleteLoginOutput : Type 0 where
  pub request : AuthorizationRequest
  pub code : AuthorizationCodeRecord

abbrev pub is_received : AuthorizationCodeFlowState → Bool
is_received received = true
is_received _ = false

-- The request that may be completed: known, of the tenant, in time and not used before.
unfoldable pub check_request : Ports → String → String → M AuthorizationRequest
unfolding find_request update_state
check_request d tenant_id id = do
  stored ← read (λ w. find_request w.requests id)
  req ← some_or stored (fail invalid_request)
  guard (req.tenant_id == tenant_id) invalid_request
  guard_else (not (before req.expires_at d.clock))
      (ignore_error (try_requests (update_state req.id expired)) >> fail invalid_request)
  guard (is_received req.state) invalid_request
  return req

-- The shortest path through the machine, with the authentication attached on the way.
unfoldable pub run_flow : AuthorizationRequest → CompleteLoginInput → M (Unit {0})
unfolding update_state attach_authentication
run_flow req input = do
  try_requests (update_state req.id authentication_pending)
  try_requests (update_state req.id authenticated)
  try_requests (attach_authentication req.id input.sub (unix input.auth_time) input.amr input.acr)
  try_requests (update_state req.id code_issued)

unfoldable pub login_code :
    AuthorizationRequest → CompleteLoginInput → String → Time → AuthorizationCodeRecord
unfolding fields
login_code req input value now = record {
  code = value;
  tenant_id = req.tenant_id;
  authorization_request_id = req.id;
  client_id = req.client_id;
  sub = input.sub;
  scopes = fields req.scope;
  redirect_uri = req.redirect_uri;
  code_challenge = req.code_challenge;
  nonce = req.nonce;
  auth_time = unix input.auth_time;
  amr = input.amr;
  acr = optional input.acr;
  state = issued;
  issued_at = now;
  expires_at = now + seconds 60;
  redeemed_at = none;
  issued_family_id = none;
}

-- The request behind the pointer that the store keeps: it has seen the updates.
unfoldable pub current : AuthorizationRequest → World → AuthorizationRequest
unfolding find_request
current req w = elim (find_request w.requests req.id) [ none ↦ req | some r ↦ r ]

unfoldable pub complete_login :
    Ports → Entropy → String → CompleteLoginInput → M CompleteLoginOutput
unfolding check_request run_flow login_code save current
complete_login d e tenant_id input = do
  req ← check_request d tenant_id input.request_id
  run_flow req input
  value ← lift e.token
  let code = login_code req input value d.clock
  lift (d.validate_code code)
  on_codes (save code)
  request ← read (current req)
  return (record { request = request; code = code })
