-- ===== src/Identity/Agents/Lifecycle.antt =====
-- SetAgentDisabled, KillAgent and DeleteAgent.
use regenerative_architectur.Base.{String, Bool, true, false, none, some}
use regenerative_architectur.Spec.{Time, or_clock}
use regenerative_architectur.Stores.Agents.{
  Agent, agent_active, agent_disabled, agent_killed, save, delete,
}
use regenerative_architectur.Identity.Results.{◌>>=◌, ◌>>◌, return}
use regenerative_architectur.Identity.Agents.{
  AgentEvent, disabled, enabled, killed, deleted, AdminAgentDeps, AgentState, Outcome, emit,
  find_modifiable,
}

-- Validates and saves a record, and logs the change.
abbrev pub save_changed : AdminAgentDeps → Agent → AgentEvent → AgentState → Outcome Agent
save_changed d a event s = do
  d.validate_agent a
  return (a, record { repo = save a s.repo; events = emit event s.events })

abbrev pub switched : Bool → Time → Agent → Agent
switched true now a = record a {
  updated_at = some now;
  status = agent_disabled;
  disabled_at = some now;
}
switched false now a = record a { updated_at = some now; status = agent_active; disabled_at = none }

abbrev switch_event : Bool → Time → String → String → String → AgentEvent
switch_event true = disabled
switch_event false = enabled

unfoldable pub set_agent_disabled :
    AdminAgentDeps → String → String → String → Bool → Time → AgentState → Outcome Agent
unfolding save
set_agent_disabled d tenant_id actor_sub id off now s = do
  a ← find_modifiable tenant_id id s
  let at = or_clock d.clock now
  save_changed d (switched off at a) (switch_event off at tenant_id actor_sub a.id) s

abbrev pub killed_from : Time → Agent → Agent
killed_from now a = record a { status = agent_killed; killed_at = some now; updated_at = some now }

unfoldable pub kill_agent :
    AdminAgentDeps → String → String → String → Time → AgentState → Outcome Agent
unfolding save
kill_agent d tenant_id actor_sub id now s = do
  a ← find_modifiable tenant_id id s
  let at = or_clock d.clock now
  save_changed d (killed_from at a) (killed at tenant_id actor_sub a.id) s

unfoldable pub delete_agent :
    AdminAgentDeps → String → String → String → Time → AgentState → Outcome (Unit {0})
unfolding delete
delete_agent d tenant_id actor_sub id now s = do
  a ← find_modifiable tenant_id id s
  return (
    tt,
    record {
      repo = delete tenant_id id s.repo;
      events = emit (deleted (or_clock d.clock now) tenant_id actor_sub id) s.events;
    },
  )
