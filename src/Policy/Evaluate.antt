-- ===== src/Policy/Evaluate.antt =====
-- policy.go: `Evaluate`.
use regenerative_architectur.Base.{Bool, true, false, none, some, List, [], ◌∷◌, if◌then◌else◌}
use regenerative_architectur.Spec.{Time}
use regenerative_architectur.Policy.Actions.{Action, Rule, action_rules}
use regenerative_architectur.Policy.Rules.{AuthzRequest, rule_holds}

pub data Reason : Type 0 where
  undefined_action : Action → Reason
  failed : Rule → Reason

pub record AuthzResponse : Type 0 where
  pub permit : Bool
  pub reasons : List Reason

-- The loop over the rules of the action: the names of those that fail, in order. Every rule of the
-- table has an evaluator, so the branch for a rule without one is not reached.
unfoldable pub failed_rules : Time → List Rule → AuthzRequest → List Reason
failed_rules clock [] r = []
failed_rules clock (rule ∷ rules) r =
    let rest = failed_rules clock rules r in
    if rule_holds clock rule r then rest else failed rule ∷ rest

abbrev respond : List Reason → AuthzResponse
respond [] = record { permit = true; reasons = [] }
respond (f ∷ fs) = record { permit = false; reasons = f ∷ fs }

unfoldable pub evaluate : Time → AuthzRequest → AuthzResponse
evaluate clock r = elim (action_rules r.action) [
  | none ↦ record { permit = false; reasons = undefined_action r.action ∷ [] }
  | some rules ↦ respond (failed_rules clock rules r)
]
