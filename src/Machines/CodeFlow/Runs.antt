-- ===== src/Machines/CodeFlow/Runs.antt =====
-- Runs of the authorization code flow: where they stop, how long they are, what they pass through.
use mathlib.Core.List.{Memᴰ}
use regenerative_architectur.Base.{
  ℕ, ◌+◌, ◌≤◌, ◌<◌, ◌≡◌, refl, sym, ◌↔◌, ◌⊎◌, inl, inr, true, none, some, List, [], ◌∷◌, arith,
  length, Option-cases,
}
use regenerative_architectur.Machines.Table.{run}
use regenerative_architectur.Machines.CodeFlow.{
  AuthorizationCodeFlowState, AuthorizationCodeFlowEvent, received, authentication_pending,
  authenticated, consent_pending, consented, code_issued, exchanged, rejected, expired,
  start_authentication, authenticate_user, issue_code, redeem_code, grant_consent, transition,
  is_terminal,
}

-- An upper bound on the transitions that are left.
abbrev pub rank : AuthorizationCodeFlowState → ℕ
rank received = 6
rank authentication_pending = 5
rank authenticated = 4
rank consent_pending = 3
rank consented = 2
rank code_issued = 1
rank _ = 0

transition-rank :
    (s : AuthorizationCodeFlowState) (e : AuthorizationCodeFlowEvent)
    {t : AuthorizationCodeFlowState}
    → transition s e ≡ some t
    → rank t < rank s
unfolding transition
transition-rank received e h = ground arith
transition-rank _ e h = ground arith

-- A state is terminal exactly when no event has a transition from it.
pub is_terminal_iff :
    (s : AuthorizationCodeFlowState)
    → (is_terminal s ≡ true) ↔ ((e : AuthorizationCodeFlowEvent) → transition s e ≡ none)
unfolding is_terminal transition
is_terminal_iff s = (λ h e. ground arith, back s)
  where
    back :
        (t : AuthorizationCodeFlowState)
        → ((e : AuthorizationCodeFlowEvent) → transition t e ≡ none)
        → is_terminal t ≡ true
    back received h = cc (h start_authentication)
    back authentication_pending h = cc (h authenticate_user)
    back authenticated h = cc (h issue_code)
    back consent_pending h = cc (h grant_consent)
    back consented h = cc (h issue_code)
    back code_issued h = cc (h redeem_code)
    back _ h = refl

-- A run of the authorization code flow that is not refused has at most as many events as the rank of
-- its first state exceeds the rank of its last.
pub length-run-le :
    (s : AuthorizationCodeFlowState) (es : List AuthorizationCodeFlowEvent)
    {t : AuthorizationCodeFlowState}
    → run transition s es ≡ some t
    → length es + rank t ≤ rank s
unfolding run
length-run-le s [] h = ground arith
length-run-le s (e ∷ es) {t} h = elim (Option-cases (transition s e)) [
  | inl no_step ↦ absurd (ground (arith, no_step))
  | inr (u, step) ↦ ground (arith, step, transition-rank s e step, length-run-le u es {t = t})
]

-- The events that a run to `exchanged` has to contain, from each state.
abbrev Needs : AuthorizationCodeFlowEvent → (AuthorizationCodeFlowState → ℕ) → Type 0
Needs e before =
    (s : AuthorizationCodeFlowState) (d : AuthorizationCodeFlowEvent)
    (t : AuthorizationCodeFlowState)
    → transition s d ≡ some t
    → before s ≡ 1
    → (d ≡ e) ⊎ (before t ≡ 1)

needs_event :
    (e : AuthorizationCodeFlowEvent) (before : AuthorizationCodeFlowState → ℕ)
    → Needs e before
    → before exchanged ≡ 0
    → (s : AuthorizationCodeFlowState) (es : List AuthorizationCodeFlowEvent) → before s ≡ 1
    → run transition s es ≡ some exchanged
    → Memᴰ e es
unfolding run
needs_event e before keep last s [] b h = absurd (ground arith)
needs_event e before keep last s (d ∷ es) b h = elim (Option-cases (transition s d)) [
  | inl no_step ↦ absurd (ground (arith, no_step))
  | inr (t, step) ↦ elim (keep s d t step b) [
    | inl hit ↦ Memᴰ.head (sym hit)
    | inr later ↦ Memᴰ.tail (needs_event e before keep last t es later (ground (arith, step)))
  ]
]

abbrev before_authentication : AuthorizationCodeFlowState → ℕ
before_authentication received = 1
before_authentication authentication_pending = 1
before_authentication rejected = 1
before_authentication expired = 1
before_authentication _ = 0

abbrev before_code : AuthorizationCodeFlowState → ℕ
before_code code_issued = 0
before_code exchanged = 0
before_code _ = 1

abbrev before_redeem : AuthorizationCodeFlowState → ℕ
before_redeem exchanged = 0
before_redeem _ = 1

authenticate_needed : Needs authenticate_user before_authentication
unfolding transition
authenticate_needed received d t h b = ground arith
authenticate_needed _ d t h b = ground arith

code_needed : Needs issue_code before_code
unfolding transition
code_needed received d t h b = ground arith
code_needed _ d t h b = ground arith

redeem_needed : Needs redeem_code before_redeem
unfolding transition
redeem_needed received d t h b = ground arith
redeem_needed _ d t h b = ground arith

-- A run of the authorization code flow from `received` that ends in `exchanged` contains the events
-- `authenticate_user`, `issue_code` and `redeem_code`, and has at most six events.
pub exchanged_needs_authentication :
    (es : List AuthorizationCodeFlowEvent)
    → run transition received es ≡ some exchanged
    → Memᴰ authenticate_user es × Memᴰ issue_code es × Memᴰ redeem_code es × (length es ≤ 6)
exchanged_needs_authentication es h = (
  needs_event authenticate_user before_authentication authenticate_needed refl received es refl h,
  needs_event issue_code before_code code_needed refl received es refl h,
  needs_event redeem_code before_redeem redeem_needed refl received es refl h,
  omega (arith, length-run-le received es h),
)
