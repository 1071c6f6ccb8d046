-- ===== src/Identity/Agents/Bindings.antt =====
-- BindCredential and UnbindCredential.
use regenerative_architectur.Base.{String, Bool, true, false, not, Option, none, some, ◌==◌}
use regenerative_architectur.Base.Texts.{trim_space}
use regenerative_architectur.Spec.{Time, or_clock}
use regenerative_architectur.Oauth2.Records.{Oauth2Client, Result, ok}
use regenerative_architectur.Stores.Agents.{
  Agent, AgentRepository, AgentCredentialBinding, find_by_id, find_by_client_id, add_binding,
  remove_binding,
}
use regenerative_architectur.Identity.Results.{◌>>=◌, ◌>>◌, return, guard, some_or}
use regenerative_architectur.Identity.Agents.{
  credential_bound, credential_unbound, AdminAgentDeps, AgentState, Outcome, emit, find_modifiable,
}

-- A nil repository of clients asks for nothing.
abbrev pub ensure_client :
    Option (String → String → Result (Option Oauth2Client)) → String → String → Result (Unit {0})
ensure_client none tenant_id client_id = ok tt
ensure_client (some find_client) tenant_id client_id = do
  found ← find_client tenant_id client_id
  client ← some_or found "client not found"
  return tt

abbrev is_other : String → Option Agent → Bool
is_other agent_id none = false
is_other agent_id (some a) = not (a.id == agent_id)

unfoldable pub ensure_unbound : String → String → String → AgentRepository → Result (Unit {0})
unfolding find_by_client_id
ensure_unbound tenant_id agent_id client_id r =
    guard (not (is_other agent_id (find_by_client_id tenant_id client_id r)))
      "client is already bound to another agent"

abbrev pub finish_binding :
    Time
    → String
    → String
    → AgentCredentialBinding
    → AgentState
    → Bool × AgentRepository
    → Outcome (Unit {0})
finish_binding now tenant_id actor_sub b s (true, r) = ok (
  tt,
  record {
    repo = r;
    events = emit (credential_bound now tenant_id actor_sub b.agent_id b.client_id) s.events;
  },
)
finish_binding now tenant_id actor_sub b s (false, r) = do
  ensure_unbound tenant_id b.agent_id b.client_id r
  return (tt, record s { repo = r })

abbrev pub new_binding : String → String → String → Time → AgentCredentialBinding
new_binding tenant_id agent_id client_id at = record {
  agent_id = agent_id;
  client_id = client_id;
  tenant_id = tenant_id;
  created_at = at;
}

unfoldable pub bind_credential :
    AdminAgentDeps → String → String → String → String → Time → AgentState → Outcome (Unit {0})
unfolding trim_space ensure_unbound add_binding
bind_credential d tenant_id actor_sub agent_id client now s = do
  a ← find_modifiable tenant_id agent_id s
  let client_id = trim_space client
  guard (not (client_id == "")) "client not found"
  ensure_client d.find_client tenant_id client_id
  ensure_unbound tenant_id agent_id client_id s.repo
  let at = or_clock d.clock now
  let b = new_binding tenant_id agent_id client_id at
  finish_binding at tenant_id actor_sub b s (add_binding b s.repo)

abbrev pub finish_unbinding :
    Time
    → String
    → String
    → String
    → String
    → AgentState
    → Bool × AgentRepository
    → Outcome (Unit {0})
finish_unbinding now tenant_id actor_sub agent_id client_id s (true, r) = ok (
  tt,
  record {
    repo = r;
    events = emit (credential_unbound now tenant_id actor_sub agent_id client_id) s.events;
  },
)
finish_unbinding now tenant_id actor_sub agent_id client_id s (false, r) =
    ok (tt, record s { repo = r })

-- There is no check for a killed agent here.
unfoldable pub unbind_credential :
    AdminAgentDeps → String → String → String → String → Time → AgentState → Outcome (Unit {0})
unfolding find_by_id remove_binding
unbind_credential d tenant_id actor_sub agent_id client_id now s = do
  a ← some_or (find_by_id tenant_id agent_id s.repo) "agent not found"
  finish_unbinding (or_clock d.clock now) tenant_id actor_sub agent_id client_id s
      (remove_binding tenant_id agent_id client_id s.repo)
