-- ===== src/Machines/CodeRecord.antt =====
-- ra-idp-go/internal/shared/spec/authorization_code_machine.go: AuthorizationCodeRecordLifecycle.
use regenerative_architectur.Base.{Bool, true, false, Option, List, [], ◌∷◌}
use regenerative_architectur.Machines.Table.{Transition, row, find_transition}

pub data AuthorizationCodeRecordState : Type 0 where
  issued redeemed expired : AuthorizationCodeRecordState

pub data AuthorizationCodeRecordEvent : Type 0 where
  redeem expire : AuthorizationCodeRecordEvent

pub State-discrete : Discrete AuthorizationCodeRecordState
State-discrete = hlevel

pub Event-discrete : Discrete AuthorizationCodeRecordEvent
Event-discrete = hlevel

unfoldable pub transitions :
    List (Transition AuthorizationCodeRecordState AuthorizationCodeRecordEvent)
transitions = row issued redeem redeemed ∷ row issued expire expired ∷ []

unfoldable pub transition :
    AuthorizationCodeRecordState
    → AuthorizationCodeRecordEvent
    → Option AuthorizationCodeRecordState
unfolding transitions find_transition State-discrete Event-discrete
transition s e = find_transition State-discrete Event-discrete transitions s e

unfoldable pub is_terminal : AuthorizationCodeRecordState → Bool
is_terminal redeemed = true
is_terminal expired = true
is_terminal issued = false
