-- ===== src/Identity/Agents.antt =====
-- identitymanagement/usecases/admin_agents.go, with normalizeRoles, normalizedNow and equalOptionalString of
-- admin_users.go and normalizeDescription of admin_groups.go. Every error is returned before anything
-- is written, so an operation returns an error, or its value with the new state.
pub mod Update
pub mod Lifecycle
pub mod Bindings
pub mod Operations
pub mod Steps
pub mod Effects
pub mod Drafts
pub mod Handled
pub mod Killed
pub mod Tenants
pub mod Exclusive
pub mod Sound
pub mod Clients
pub mod Invariant
use regenerative_architectur.Base.{
  String, Bool, true, false, not, ◌&&◌, ◌||◌, Option, none, some, List, [], ◌∷◌, ◌++◌, ◌==◌, map,
  contains, if◌then◌else◌,
}
use regenerative_architectur.Base.Texts.{trim_space, sort_by}
use regenerative_architectur.Spec.{Time, or_clock}
use regenerative_architectur.Oauth2.Records.{
  Oauth2Client, User, is_active, Result, ok, err, internal,
}
use regenerative_architectur.Stores.Agents.{
  AgentKind, autonomous, supervised, agent_active, Agent, AgentRepository, list_by_tenant,
  find_by_id, save, list_bindings, is_killed,
}
use regenerative_architectur.Identity.Results.{◌>>=◌, ◌>>◌, return, guard, some_or}

pub data AgentEvent : Type 0 where
  registered disabled enabled killed deleted : Time → String → String → String → AgentEvent
  -- with the changed fields
  updated : Time → String → String → String → List String → AgentEvent
  -- with the previous and the new owner
  owner_changed : Time → String → String → String → String → String → AgentEvent
  -- with the client
  credential_bound credential_unbound : Time → String → String → String → String → AgentEvent

-- The repository and the event log, newest first.
pub record AgentState : Type 0 where
  pub repo : AgentRepository
  pub events : List AgentEvent

abbrev pub Outcome : Type 0 → Type 0
Outcome A = Result (A × AgentState)

-- AdminAgentDeps without the repository of agents, with the clock and a sink of events. The
-- schema of spec/validation.go is a verdict, and `equal_fold` is `strings.EqualFold`.
pub record AdminAgentDeps : Type 0 where
  pub clock : Time
  -- `none` is a nil repository.
  pub find_client : Option (String → String → Result (Option Oauth2Client))
  pub find_user : Option (String → Result (Option User))
  pub validate_agent : Agent → Result (Unit {0})
  pub equal_fold : String → String → Bool

abbrev pub emit : AgentEvent → List AgentEvent → List AgentEvent
emit e events = e ∷ events

unfoldable pub normalize_agent_kind : Option String → AgentKind
normalize_agent_kind none = supervised
normalize_agent_kind (some kind) = if kind == "autonomous" then autonomous else supervised

unfoldable pub normalize_description : Option String → Option String
unfolding trim_space
normalize_description none = none
normalize_description (some description) =
    let trimmed = trim_space description in if trimmed == "" then none else some trimmed

unfoldable pub collect_roles : List String → List String → Result (List String)
unfolding trim_space
collect_roles out [] = ok out
collect_roles out (role ∷ roles) =
    let trimmed = trim_space role in
    let rest = collect_roles (if contains out trimmed then out else out ++ trimmed ∷ []) roles in
    if trimmed == "" then err (internal "role must not be empty") else rest

unfoldable pub normalize_roles : List String → Result (List String)
unfolding collect_roles sort_by
normalize_roles roles = do out ← collect_roles [] roles; return (sort_by (λ role. role) out)

unfoldable pub name_taken : (String → String → Bool) → String → String → List Agent → Bool
name_taken equal_fold name exclude_id [] = false
name_taken equal_fold name exclude_id (a ∷ agents) =
    not (a.id == exclude_id) && equal_fold a.name name
    || name_taken equal_fold name exclude_id agents

unfoldable pub ensure_agent_name_available :
    AdminAgentDeps → String → String → String → AgentState → Result (Unit {0})
unfolding name_taken list_by_tenant
ensure_agent_name_available d tenant_id name exclude_id s =
    guard (not (name_taken d.equal_fold name exclude_id (list_by_tenant tenant_id s.repo)))
      "agent name already exists"

unfoldable pub ensure_agent_owner : AdminAgentDeps → String → String → Result (Unit {0})
unfolding is_active
ensure_agent_owner d tenant_id owner_sub = do
  find_user ← some_or d.find_user "agent owner not found"
  found ← find_user owner_sub
  user ← some_or found "agent owner not found"
  guard (user.tenant_id == tenant_id && is_active user) "agent owner not found"

pub record AgentView : Type 0 where
  pub agent : Agent
  pub client_ids : List String

unfoldable pub agent_client_ids : String → String → AgentState → List String
unfolding list_bindings
agent_client_ids tenant_id agent_id s =
    map (λ b. b.client_id) (list_bindings tenant_id agent_id s.repo)

abbrev view_of : String → AgentState → Agent → AgentView
view_of tenant_id s a = record { agent = a; client_ids = agent_client_ids tenant_id a.id s }

unfoldable pub list_agents : String → AgentState → List AgentView
unfolding agent_client_ids list_by_tenant
list_agents tenant_id s = map (view_of tenant_id s) (list_by_tenant tenant_id s.repo)

unfoldable pub get_agent : String → String → AgentState → Result AgentView
unfolding agent_client_ids find_by_id
get_agent tenant_id id s = do
  a ← some_or (find_by_id tenant_id id s.repo) "agent not found"
  return (view_of tenant_id s a)

-- The agent of the tenant, unless it is killed.
abbrev pub find_modifiable : String → String → AgentState → Result Agent
find_modifiable tenant_id id s = do
  a ← some_or (find_by_id tenant_id id s.repo) "agent not found"
  guard (not (is_killed a.status)) "agent is killed and cannot be modified"
  return a

pub record RegisterAgentInput : Type 0 where
  pub actor_sub : String
  pub name : String
  pub description : Option String
  pub kind : Option String
  pub owner_sub : String
  pub roles : List String
  pub now : Time

-- The owner of a new agent: the actor if none is named.
unfoldable pub owner_of : RegisterAgentInput → String
unfolding trim_space
owner_of in_ =
    if trim_space in_.owner_sub == "" then trim_space in_.actor_sub else trim_space in_.owner_sub

abbrev pub new_agent : String → String → RegisterAgentInput → List String → Time → Agent
new_agent tenant_id id in_ roles now = record {
  id = id;
  tenant_id = tenant_id;
  name = trim_space in_.name;
  description = normalize_description in_.description;
  kind = normalize_agent_kind in_.kind;
  owner_sub = owner_of in_;
  status = agent_active;
  roles = roles;
  created_at = now;
  updated_at = none;
  disabled_at = none;
  killed_at = none;
}

-- RegisterAgent; `draw` is a draw of NewAgentID.
unfoldable pub register_agent :
    AdminAgentDeps → String → Result String → RegisterAgentInput → AgentState → Outcome Agent
unfolding trim_space normalize_description normalize_agent_kind owner_of normalize_roles
    ensure_agent_name_available ensure_agent_owner save
register_agent d tenant_id draw in_ s = do
  guard (not (trim_space in_.name == "")) "agent name is required"
  ensure_agent_name_available d tenant_id (trim_space in_.name) "" s
  guard (not (owner_of in_ == "")) "agent owner is required"
  ensure_agent_owner d tenant_id (owner_of in_)
  roles ← normalize_roles in_.roles
  id ← draw
  let now = or_clock d.clock in_.now
  let a = new_agent tenant_id id in_ roles now
  d.validate_agent a
  return (
    a,
    record {
      repo = save a s.repo;
      events = emit (registered now tenant_id in_.actor_sub id) s.events;
    },
  )
