-- ===== src/Tests/Agents.antt =====
-- Agents on a small repository.
use regenerative_architectur.Base.{◌≡◌, refl, sym, false, none, some, [], ◌∷◌, find, put, remove}
use regenerative_architectur.Spec.{Time}
use regenerative_architectur.Spec.Enums.{active}
use regenerative_architectur.Oauth2.Records.{User, ok}
use regenerative_architectur.Stores.Tenant.{default_tenant, tenant_key}
use regenerative_architectur.Stores.Agents.{
  Agent, agent_active, supervised, own_key, may_get_tokens, new_agent_repository, find_by_id, save,
  add_binding,
}
use regenerative_architectur.Identity.Agents.{
  AdminAgentDeps, AgentState, RegisterAgentInput, killed, register_agent, agent_client_ids,
}
use regenerative_architectur.Identity.Agents.Lifecycle.{killed_from, kill_agent, set_agent_disabled}
use regenerative_architectur.Identity.Agents.Bindings.{bind_credential}
use regenerative_architectur.Identity.Agents.Operations.{
  Requests, register, set_disabled, bind, handle, handle_all, AllDrawNew,
}
use regenerative_architectur.Identity.Agents.Steps.{WellKeyed, put-WellKeyed}
use regenerative_architectur.Identity.Agents.Effects.{ok_inj}
use regenerative_architectur.Identity.Agents.Tenants.{before_bar}
use regenerative_architectur.Identity.Agents.Sound.{Sound}
use regenerative_architectur.Identity.Agents.Invariant.{ArePlain, handle_all-Sound}
use regenerative_architectur.Identity.Agents.Killed.{handle_all-kill_agent}

abbrev now : Time
now = 63900000000000000000

abbrev alice : User
alice = record { sub = "alice"; tenant_id = "acme"; status = some active }

abbrev deps : AdminAgentDeps
deps = record {
  clock = now;
  find_client = none;
  find_user = some (λ sub. ok (some alice));
  validate_agent = λ a. ok tt;
  equal_fold = λ a b. false;
}

abbrev crawler : Agent
crawler = record {
  id = "agent_1";
  tenant_id = "acme";
  name = "crawler";
  description = none;
  kind = supervised;
  owner_sub = "alice";
  status = agent_active;
  roles = [];
  created_at = now;
  updated_at = none;
  disabled_at = none;
  killed_at = none;
}

abbrev one_agent : AgentState
one_agent = record {
  repo = record { agents = ("acme|agent_1", crawler) ∷ []; bindings = [] };
  events = [];
}

abbrev no_agent : AgentState
no_agent = record {
  repo = record { agents = ("acme|agent_1", killed_from now crawler) ∷ []; bindings = [] };
  events = killed now "acme" "alice" "agent_1" ∷ [];
}

one_agent-WellKeyed : WellKeyed one_agent.repo.agents
unfolding find put remove own_key tenant_key default_tenant
one_agent-WellKeyed = put-WellKeyed crawler [] λ k a h. cc

kill :
    kill_agent deps "acme" "alice" "agent_1" now one_agent ≡ ok (killed_from now crawler, no_agent)
unfolding kill_agent save own_key tenant_key default_tenant find put remove find_by_id
kill = refl

abbrev mapper : RegisterAgentInput
mapper = record {
  actor_sub = "alice";
  name = " mapper ";
  description = some "";
  kind = none;
  owner_sub = "";
  roles = [];
  now = now;
}

-- Somebody tries to enable the agent, and registers another one.
abbrev attempts : Requests
attempts =
    (deps, "acme", set_disabled "alice" "agent_1" false now)
    ∷ (deps, "acme", register (ok "agent_2") mapper)
    ∷ (deps, "acme", bind "alice" "agent_1" "web" now)
    ∷ []

attempts_new : AllDrawNew attempts no_agent
unfolding handle set_agent_disabled find_by_id find tenant_key default_tenant
attempts_new = (tt, (λ id e. rw (sym (ok_inj e)) refl, (tt, tt)))

handle_all-kill_agent_example :
    (find (tenant_key "acme" "agent_1") (handle_all attempts no_agent).repo.agents
      ≡ some (killed_from now crawler))
    × (may_get_tokens (killed_from now crawler) ≡ false)
handle_all-kill_agent_example =
    handle_all-kill_agent deps "acme" "alice" "agent_1" now one_agent no_agent
      (killed_from now crawler) attempts one_agent-WellKeyed kill attempts_new

abbrev no_agents : AgentState
no_agents = record { repo = new_agent_repository; events = [] }

no_agents-Sound : Sound no_agents.repo
unfolding find
no_agents-Sound = record {
  keyed = λ k a h. cc;
  plain = λ k a h. cc;
  rooted = λ k h. refl;
  exclusive = λ client j k a b p q same. let (f, h) = p in cc;
}

-- Two agents are registered, and the same client is offered to both.
abbrev rivals : Requests
rivals =
    (deps, "acme", register (ok "agent_1") mapper)
    ∷ (deps, "acme", register (ok "agent_2") mapper)
    ∷ (deps, "acme", bind "alice" "agent_1" "web" now)
    ∷ (deps, "acme", bind "alice" "agent_2" "web" now)
    ∷ []

rivals_plain : ArePlain rivals
unfolding before_bar default_tenant
rivals_plain = (refl, (refl, (refl, (refl, tt))))

rivals_new : AllDrawNew rivals no_agents
unfolding handle register_agent find put remove own_key tenant_key default_tenant
rivals_new = ((λ id e. refl), ((λ id e. rw (sym (ok_inj e)) refl), (tt, (tt, tt))))

-- The first one gets it, and the second is refused.
rivals_clients :
    (agent_client_ids "acme" "agent_1" (handle_all rivals no_agents) ≡ "web" ∷ [])
    × (agent_client_ids "acme" "agent_2" (handle_all rivals no_agents) ≡ [])
unfolding handle_all handle register_agent bind_credential add_binding agent_client_ids find put
    remove own_key tenant_key default_tenant find_by_id
rivals_clients = (refl, refl)

handle_all-Sound_example : Sound (handle_all rivals no_agents).repo
handle_all-Sound_example = handle_all-Sound rivals no_agents no_agents-Sound rivals_plain rivals_new
