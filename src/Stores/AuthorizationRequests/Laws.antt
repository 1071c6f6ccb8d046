-- ===== src/Stores/AuthorizationRequests/Laws.antt =====
-- Updates of a stored request's state.
use regenerative_architectur.Base.{
  ◌≡◌, inl, inr, some, arith, find, find-put_self, Option-cases, String,
}
use regenerative_architectur.Machines.CodeFlow.{AuthorizationCodeFlowState, received}
use regenerative_architectur.Oauth2.Records.{AuthorizationRequest, ok}
use regenerative_architectur.Stores.AuthorizationRequests.{
  AuthorizationRequestStore, find_request, next_state, update_state,
}

-- The event that the store picks for a target state has transitions to that state only.
next_state-target :
    (from to : AuthorizationCodeFlowState) {t : AuthorizationCodeFlowState}
    → next_state from to ≡ some t
    → t ≡ to
unfolding next_state
next_state-target received to h = ground arith
next_state-target _ to h = ground arith

-- An update that succeeds leaves the stored request in exactly the state that was asked for, moved
-- there by one declared transition, and otherwise as it was.
pub update_state-find :
    (id : String) (to : AuthorizationCodeFlowState) (s : AuthorizationRequestStore)
    {t : AuthorizationRequestStore}
    → update_state id to s ≡ (ok tt, t)
    → (req : AuthorizationRequest) × (find_request s id ≡ some req)
      × (find_request t id ≡ some (record req { state = to }))
      × (next_state req.state to ≡ some to)
unfolding update_state find_request
update_state-find id to s {t} h = elim (Option-cases (find id s)) [
  | inl missing ↦ absurd (ground (arith, missing))
  | inr (req, found) ↦ elim (Option-cases (next_state req.state to)) [
    | inl refused ↦ absurd (ground (arith, found, refused))
    | inr (next, moved) ↦
        let same : next ≡ to = next_state-target req.state to moved in
        (
          req,
          found,
          ground (arith, found, moved, same, find-put_self id (record req { state = next }) s),
          ground (arith, moved, same),
        )
  ]
]
