-- ===== src/Policy/Laws.antt =====
-- What `evaluate` answers, in terms of the rules of the action.
use regenerative_architectur.Base.{
  ◌≡◌, refl, ◌↔◌, true, some, List, [], ◌∷◌, arith, All, Bool-cases, inl, inr, Option-cases,
}
use regenerative_architectur.Spec.{Time}
use regenerative_architectur.Policy.Actions.{Rule, action_rules}
use regenerative_architectur.Policy.Rules.{AuthzRequest, rule_holds}
use regenerative_architectur.Policy.Evaluate.{failed_rules, evaluate}

abbrev pub Holds : Time → AuthzRequest → Rule → Type 0
Holds clock r rule = rule_holds clock rule r ≡ true

failed_rules-eq-nil :
    (clock : Time) (rules : List Rule) (r : AuthzRequest)
    → (failed_rules clock rules r ≡ []) ↔ All (Holds clock r) rules
unfolding failed_rules
failed_rules-eq-nil clock [] r = (λ _. tt, λ _. refl)
failed_rules-eq-nil clock (rule ∷ rules) r = elim (Bool-cases (rule_holds clock rule r)) [
  | inl holds ↦
      let ih = failed_rules-eq-nil clock rules r in
      (λ h. (holds, ih.0 (rw holds at h)), λ h. rw holds (ih.1 h.1))
  | inr fails ↦ (λ h. absurd (cc (rw fails at h)), λ h. cc (h.0))
]

-- `evaluate` permits a request exactly when its action has rules in the table and all of them hold.
pub evaluate-permit_iff :
    (clock : Time) (r : AuthzRequest)
    → ((evaluate clock r).permit ≡ true)
      ↔ ((rules : List Rule) × (action_rules r.action ≡ some rules) × All (Holds clock r) rules)
unfolding evaluate
evaluate-permit_iff clock r = elim (Option-cases (action_rules r.action)) [
  | inl missing ↦
      (λ h. absurd (ground (arith, missing)), λ h. absurd (ground (arith, missing, h.1)))
  | inr (rules, found) ↦ (
    λ h. (rules, found, (failed_rules-eq-nil clock rules r).0 (ground (arith, found))),
    λ h. ground (arith, found, h.1, (failed_rules-eq-nil clock rules r).1),
  )
]
