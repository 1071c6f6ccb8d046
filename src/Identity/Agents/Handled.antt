-- ===== src/Identity/Agents/Handled.antt =====
-- What a request does to the stored agents.
use regenerative_architectur.Base.{◌≡◌, refl, String, not, ◌==◌}
use regenerative_architectur.Base.Texts.{trim_space}
use regenerative_architectur.Oauth2.Records.{Result, ok, err}
use regenerative_architectur.Stores.Agents.{Agent, own_key, save}
use regenerative_architectur.Identity.Results.{bind_ok, guard_ok}
use regenerative_architectur.Identity.Agents.{
  AdminAgentDeps, AgentState, Outcome, RegisterAgentInput, ensure_agent_name_available,
  ensure_agent_owner, normalize_roles, owner_of, register_agent,
}
use regenerative_architectur.Identity.Agents.Update.{update_agent}
use regenerative_architectur.Identity.Agents.Lifecycle.{
  set_agent_disabled, kill_agent, delete_agent,
}
use regenerative_architectur.Identity.Agents.Bindings.{bind_credential, unbind_credential}
use regenerative_architectur.Identity.Agents.Operations.{
  AgentRequest, register, update, set_disabled, kill, deletion, bind, unbind, handle, state_after,
  DrawsNew,
}
use regenerative_architectur.Identity.Agents.Steps.{Step, unchanged, entered}
use regenerative_architectur.Identity.Agents.Effects.{
  returned, set_agent_disabled-Step, kill_agent-Step, delete_agent-Step, bind_credential-Step,
  unbind_credential-Step,
}
use regenerative_architectur.Identity.Agents.Drafts.{update_agent-Step}

register_agent-Step :
    (d : AdminAgentDeps) (t : String) (draw : Result String) (in_ : RegisterAgentInput)
    (s s' : AgentState) (a : Agent)
    → DrawsNew t (register draw in_) s
    → register_agent d t draw in_ s ≡ ok (a, s')
    → Step t s.repo s'.repo
unfolding register_agent save own_key
register_agent-Step d t draw in_ s s' a new h =
    let (_, h1) = guard_ok (not (trim_space in_.name == "")) "agent name is required" _ h in
    let (_, _, h2) = bind_ok (ensure_agent_name_available d t (trim_space in_.name) "" s) _ h1 in
    let (_, h3) = guard_ok (not (owner_of in_ == "")) "agent owner is required" _ h2 in
    let (_, _, h4) = bind_ok (ensure_agent_owner d t (owner_of in_)) _ h3 in
    let (roles, _, h5) = bind_ok (normalize_roles in_.roles) _ h4 in
    let (id, drawn, h6) = bind_ok draw _ h5 in
    let (_, _, h7) = bind_ok (d.validate_agent _) _ h6 in
    returned t s.repo s' _ h7 (entered _ refl (new id drawn) refl)

-- An error leaves the state, and an outcome is taken apart.
state_after-Step :
    {A : Type 0} (t : String) (s : AgentState) (o : Outcome A)
    → ((a : A) (s' : AgentState) → o ≡ ok (a, s') → Step t s.repo s'.repo)
    → Step t s.repo (state_after s o).repo
state_after-Step t s (ok (a, s')) f = f a s' refl
state_after-Step t s (err e) f = unchanged refl

pub handle-Step :
    (d : AdminAgentDeps) (t : String) (r : AgentRequest) (s : AgentState)
    → DrawsNew t r s
    → Step t s.repo (handle d t r s).repo
unfolding handle
handle-Step d t (register draw in_) s new =
    state_after-Step t s (register_agent d t draw in_ s)
      λ a s'. register_agent-Step d t draw in_ s s' a new
handle-Step d t (update in_) s new =
    state_after-Step t s (update_agent d t in_ s) λ a s'. update_agent-Step d t in_ s s' a
handle-Step d t (set_disabled actor id off now) s new =
    state_after-Step t s (set_agent_disabled d t actor id off now s)
      λ a s'. set_agent_disabled-Step d t actor id off now s s' a
handle-Step d t (kill actor id now) s new =
    state_after-Step t s (kill_agent d t actor id now s)
      λ a s'. kill_agent-Step d t actor id now s s' a
handle-Step d t (deletion actor id now) s new =
    state_after-Step t s (delete_agent d t actor id now s)
      λ u s'. delete_agent-Step d t actor id now s s' u
handle-Step d t (bind actor id client now) s new =
    state_after-Step t s (bind_credential d t actor id client now s)
      λ u s'. bind_credential-Step d t actor id client now s s' u
handle-Step d t (unbind actor id client now) s new =
    state_after-Step t s (unbind_credential d t actor id client now s)
      λ u s'. unbind_credential-Step d t actor id client now s s' u
