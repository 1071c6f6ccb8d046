-- ===== src/Machines/DeviceFlow.antt =====
-- ra-idp-go/internal/shared/spec/device_code_machine.go and enums.go: DeviceCodeFlow (RFC 8628).
pub mod Runs
use regenerative_architectur.Base.{ℕ, Bool, true, false, Option, List, [], ◌∷◌}
use regenerative_architectur.Machines.Table.{Transition, row, find_transition}

pub data DeviceCodeFlowState : Type 0 where
  issued user_code_entered approved denied exchanged expired : DeviceCodeFlowState

pub data DeviceCodeFlowEvent : Type 0 where
  enter_user_code approve deny exchange expire : DeviceCodeFlowEvent

pub State-discrete : Discrete DeviceCodeFlowState
State-discrete = hlevel

pub Event-discrete : Discrete DeviceCodeFlowEvent
Event-discrete = hlevel

unfoldable pub transitions : List (Transition DeviceCodeFlowState DeviceCodeFlowEvent)
transitions =
    row issued enter_user_code user_code_entered
    ∷ row user_code_entered approve approved
    ∷ row user_code_entered deny denied
    ∷ row approved exchange exchanged
    ∷ row issued expire expired
    ∷ row user_code_entered expire expired
    ∷ row approved expire expired
    ∷ []

unfoldable pub transition : DeviceCodeFlowState → DeviceCodeFlowEvent → Option DeviceCodeFlowState
unfolding transitions find_transition State-discrete Event-discrete
transition s e = find_transition State-discrete Event-discrete transitions s e

unfoldable pub is_terminal : DeviceCodeFlowState → Bool
is_terminal denied = true
is_terminal exchanged = true
is_terminal expired = true
is_terminal _ = false

pub record DeviceCodePolling : Type 0 where
  pub default_interval_seconds : ℕ
  pub slow_down_increment_seconds : ℕ

unfoldable pub default_device_code_polling : DeviceCodePolling
default_device_code_polling = record {
  default_interval_seconds = 5;
  slow_down_increment_seconds = 5;
}
