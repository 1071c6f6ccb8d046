-- ===== src/Identity/Agents/Operations.antt =====
-- The operations of an administrator on agents, as requests, and sequences of them.
use regenerative_architectur.Base.{String, Bool, none, List, [], ◌∷◌, find, ◌≡◌}
use regenerative_architectur.Spec.{Time}
use regenerative_architectur.Oauth2.Records.{Result, ok, err}
use regenerative_architectur.Stores.Tenant.{tenant_key}
use regenerative_architectur.Identity.Agents.{
  AdminAgentDeps, AgentState, Outcome, RegisterAgentInput, register_agent,
}
use regenerative_architectur.Identity.Agents.Update.{UpdateAgentInput, update_agent}
use regenerative_architectur.Identity.Agents.Lifecycle.{
  set_agent_disabled, kill_agent, delete_agent,
}
use regenerative_architectur.Identity.Agents.Bindings.{bind_credential, unbind_credential}

pub data AgentRequest : Type 0 where
  -- with the draw of the identifier
  register : Result String → RegisterAgentInput → AgentRequest
  update : UpdateAgentInput → AgentRequest
  -- actor, agent, whether to disable, and the time
  set_disabled : String → String → Bool → Time → AgentRequest
  -- actor, agent and the time
  kill deletion : String → String → Time → AgentRequest
  -- actor, agent, client and the time
  bind unbind : String → String → String → Time → AgentRequest

-- An error changes nothing.
abbrev pub state_after : {A : Type 0} → AgentState → Outcome A → AgentState
state_after s (ok (a, t)) = t
state_after s (err e) = s

-- A request for a tenant.
unfoldable pub handle : AdminAgentDeps → String → AgentRequest → AgentState → AgentState
handle d tenant_id (register draw in_) s = state_after s (register_agent d tenant_id draw in_ s)
handle d tenant_id (update in_) s = state_after s (update_agent d tenant_id in_ s)
handle d tenant_id (set_disabled actor id off now) s =
    state_after s (set_agent_disabled d tenant_id actor id off now s)
handle d tenant_id (kill actor id now) s = state_after s (kill_agent d tenant_id actor id now s)
handle d tenant_id (deletion actor id now) s =
    state_after s (delete_agent d tenant_id actor id now s)
handle d tenant_id (bind actor id client now) s =
    state_after s (bind_credential d tenant_id actor id client now s)
handle d tenant_id (unbind actor id client now) s =
    state_after s (unbind_credential d tenant_id actor id client now s)

-- Requests, each for its tenant and with what the ports answer at its time.
abbrev pub Requests : Type 0
Requests = List (AdminAgentDeps × String × AgentRequest)

unfoldable pub handle_all : Requests → AgentState → AgentState
unfolding handle
handle_all [] s = s
handle_all ((d, tenant_id, r) ∷ rs) s = handle_all rs (handle d tenant_id r s)

-- The identifier that is drawn for a new agent is not in use.
abbrev pub DrawsNew : String → AgentRequest → AgentState → Type 0
DrawsNew tenant_id (register draw in_) s =
    (id : String) → draw ≡ ok id → find (tenant_key tenant_id id) s.repo.agents ≡ none
DrawsNew tenant_id _ s = Unit

abbrev pub AllDrawNew : Requests → AgentState → Type 0
AllDrawNew [] s = Unit
AllDrawNew ((d, tenant_id, r) ∷ rs) s =
    DrawsNew tenant_id r s × AllDrawNew rs (handle d tenant_id r s)
