-- ===== src/Machines/CodeFlow.antt =====
-- ra-idp-go/internal/shared/spec/authorization_code_machine.go and enums.go: AuthorizationCodeFlow.
pub mod Runs
use regenerative_architectur.Base.{Bool, true, false, Option, none, some, List, [], ◌∷◌}
use regenerative_architectur.Machines.Table.{Transition, row, find_transition}

pub data AuthorizationCodeFlowState : Type 0 where
  received authentication_pending authenticated consent_pending consented code_issued exchanged
        rejected expired :
      AuthorizationCodeFlowState

pub data AuthorizationCodeFlowEvent : Type 0 where
  start_authorization start_authentication authenticate_user request_consent grant_consent
        issue_code redeem_code reject_authorization expire_request :
      AuthorizationCodeFlowEvent

pub State-discrete : Discrete AuthorizationCodeFlowState
State-discrete = hlevel

pub Event-discrete : Discrete AuthorizationCodeFlowEvent
Event-discrete = hlevel

unfoldable pub transitions : List (Transition AuthorizationCodeFlowState AuthorizationCodeFlowEvent)
transitions =
    row received start_authentication authentication_pending
    ∷ row authentication_pending authenticate_user authenticated
    ∷ row authenticated request_consent consent_pending
    ∷ row consent_pending grant_consent consented
    ∷ row authenticated issue_code code_issued
    ∷ row consented issue_code code_issued
    ∷ row code_issued redeem_code exchanged
    ∷ row received reject_authorization rejected
    ∷ row authentication_pending reject_authorization rejected
    ∷ row consent_pending reject_authorization rejected
    ∷ row received expire_request expired
    ∷ row authentication_pending expire_request expired
    ∷ row consent_pending expire_request expired
    ∷ row code_issued expire_request expired
    ∷ []

-- `none` is the error "no transition".
unfoldable pub transition :
    AuthorizationCodeFlowState → AuthorizationCodeFlowEvent → Option AuthorizationCodeFlowState
unfolding transitions find_transition State-discrete Event-discrete
transition s e = find_transition State-discrete Event-discrete transitions s e

unfoldable pub is_terminal : AuthorizationCodeFlowState → Bool
is_terminal exchanged = true
is_terminal rejected = true
is_terminal expired = true
is_terminal _ = false
