-- ===== src/Machines/DeviceFlow/Runs.antt =====
-- Runs of the device code flow.
use regenerative_architectur.Base.{◌≡◌, refl, ◌↔◌, true, none, some, List, [], ◌∷◌, arith}
use regenerative_architectur.Machines.Table.{run}
use regenerative_architectur.Machines.DeviceFlow.{
  DeviceCodeFlowState, DeviceCodeFlowEvent, issued, user_code_entered, approved, exchanged,
  enter_user_code, approve, exchange, expire, transition, is_terminal,
}

-- A state is terminal exactly when no event has a transition from it.
pub terminal_iff_no_transition :
    (s : DeviceCodeFlowState)
    → (is_terminal s ≡ true) ↔ ((e : DeviceCodeFlowEvent) → transition s e ≡ none)
unfolding is_terminal transition
terminal_iff_no_transition s = (λ h e. ground arith, back s)
  where
    back :
        (t : DeviceCodeFlowState)
        → ((e : DeviceCodeFlowEvent) → transition t e ≡ none)
        → is_terminal t ≡ true
    back issued h = cc (h expire)
    back user_code_entered h = cc (h expire)
    back approved h = cc (h expire)
    back _ h = refl

-- A run of the device flow from `issued` to `exchanged` is the one that enters the user code, approves
-- and exchanges, in that order: there is no other list of events that gets there.
pub exchanged_only_by_approval :
    (es : List DeviceCodeFlowEvent)
    → (run transition issued es ≡ some exchanged) ↔ (es ≡ enter_user_code ∷ approve ∷ exchange ∷ [])
unfolding run transition
exchanged_only_by_approval es = (forth es, λ e. rw e)
  where
    forth :
        (ds : List DeviceCodeFlowEvent)
        → run transition issued ds ≡ some exchanged
        → ds ≡ enter_user_code ∷ approve ∷ exchange ∷ []
    forth [] h = cc
    forth (a ∷ []) h = ground arith
    forth (a ∷ b ∷ []) h = ground arith
    forth (a ∷ b ∷ c ∷ []) h = ground arith
    forth (a ∷ b ∷ c ∷ d ∷ ds) h = ground arith
