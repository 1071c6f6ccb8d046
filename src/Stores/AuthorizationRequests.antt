-- ===== src/Stores/AuthorizationRequests.antt =====
-- memory/authorization_requests.go: AuthorizationRequestStore. Save keeps the caller's pointer and Find
-- hands out the kept one, so a use case that holds a request sees the updates of its state.
pub mod Laws
use regenerative_architectur.Base.{String, Option, none, some, List, [], find, put}
use regenerative_architectur.Base.Int.{ℤ}
use regenerative_architectur.Machines.CodeFlow.{
  AuthorizationCodeFlowState, received, authentication_pending, authenticated, consent_pending,
  consented, code_issued, exchanged, rejected, expired, AuthorizationCodeFlowEvent,
  start_authentication, authenticate_user, request_consent, grant_consent, issue_code, redeem_code,
  reject_authorization, expire_request, transition,
}
use regenerative_architectur.Oauth2.Records.{AuthorizationRequest, Result, ok, err, internal}
use regenerative_architectur.Stores.Tenant.{default_tenant}

abbrev pub AuthorizationRequestStore : Type 0
AuthorizationRequestStore = List (String × AuthorizationRequest)

abbrev pub stored : AuthorizationRequest → AuthorizationRequest
stored req = record req { tenant_id = default_tenant req.tenant_id }

unfoldable pub save : AuthorizationRequest → AuthorizationRequestStore → AuthorizationRequestStore
save req s = put req.id (stored req) s

unfoldable pub find_request : AuthorizationRequestStore → String → Option AuthorizationRequest
find_request s id = find id s

-- `none` is the event "unknown", for which no table has a row.
unfoldable pub event_for_target_state :
    AuthorizationCodeFlowState → Option AuthorizationCodeFlowEvent
event_for_target_state received = none
event_for_target_state authentication_pending = some start_authentication
event_for_target_state authenticated = some authenticate_user
event_for_target_state consent_pending = some request_consent
event_for_target_state consented = some grant_consent
event_for_target_state code_issued = some issue_code
event_for_target_state exchanged = some redeem_code
event_for_target_state rejected = some reject_authorization
event_for_target_state expired = some expire_request

unfoldable pub next_state :
    AuthorizationCodeFlowState → AuthorizationCodeFlowState → Option AuthorizationCodeFlowState
unfolding transition event_for_target_state
next_state from to = elim (event_for_target_state to) [
  | none ↦ none
  | some event ↦ transition from event
]

abbrev set_state :
    String
    → AuthorizationRequest
    → Option AuthorizationCodeFlowState
    → AuthorizationRequestStore
    → Result (Unit {0}) × AuthorizationRequestStore
set_state id req none s = (err (internal "invalid transition"), s)
set_state id req (some next) s = (ok tt, put id (record req { state = next }) s)

unfoldable pub update_state :
    String
    → AuthorizationCodeFlowState
    → AuthorizationRequestStore
    → Result (Unit {0}) × AuthorizationRequestStore
update_state id to s = elim (find id s) [
  | none ↦ (err (internal "authorization request not found"), s)
  | some req ↦ set_state id req (next_state req.state to) s
]

unfoldable pub attach_authentication :
    String
    → String
    → ℤ
    → List String
    → String
    → AuthorizationRequestStore
    → Result (Unit {0}) × AuthorizationRequestStore
attach_authentication id sub auth_time amr acr s = elim (find id s) [
  | none ↦ (err (internal "authorization request not found"), s)
  | some req ↦ (
    ok tt,
    put id (record req { sub = some sub; auth_time = some auth_time; amr = amr; acr = some acr }) s,
  )
]
