-- ===== src/Stores/Agents.antt =====
-- memory/agents.go: AgentRepository, and the records of shared/spec/agents.go. Its methods return no
-- errors. A walk over a Go map is a walk over the association list.
use regenerative_architectur.Base.{
  String, Bool, true, false, ◌&&◌, ◌||◌, Option, none, some, List, [], ◌∷◌, ◌++◌, ◌==◌, find, put,
  remove, if◌then◌else◌,
}
use regenerative_architectur.Base.Texts.{sort_by}
use regenerative_architectur.Spec.{Time}
use regenerative_architectur.Stores.Tenant.{tenant_key}

pub data AgentStatus : Type 0 where
  agent_active agent_disabled agent_killed : AgentStatus

pub data AgentKind : Type 0 where
  autonomous supervised : AgentKind

pub record Agent : Type 0 where
  pub id : String
  pub tenant_id : String
  pub name : String
  pub description : Option String
  pub kind : AgentKind
  pub owner_sub : String
  pub status : AgentStatus
  pub roles : List String
  pub created_at : Time
  pub updated_at : Option Time
  pub disabled_at : Option Time
  pub killed_at : Option Time

abbrev is_unset : Option Time → Bool
is_unset none = true
is_unset (some t) = false

abbrev pub is_killed : AgentStatus → Bool
is_killed agent_killed = true
is_killed _ = false

abbrev is_in_use : AgentStatus → Bool
is_in_use agent_active = true
is_in_use _ = false

-- Agent.IsActive
unfoldable pub may_get_tokens : Agent → Bool
may_get_tokens a = is_in_use a.status && is_unset a.disabled_at && is_unset a.killed_at

pub record AgentCredentialBinding : Type 0 where
  pub agent_id : String
  pub client_id : String
  pub tenant_id : String
  pub created_at : Time

abbrev pub Agents : Type 0
Agents = List (String × Agent)

abbrev pub Bindings : Type 0
Bindings = List (String × List AgentCredentialBinding)

pub record AgentRepository : Type 0 where
  pub agents : Agents
  pub bindings : Bindings

abbrev pub new_agent_repository : AgentRepository
new_agent_repository = record { agents = []; bindings = [] }

unfoldable pub of_tenant : String → Agents → List Agent
of_tenant tenant_id [] = []
of_tenant tenant_id ((k, a) ∷ m) =
    let rest = of_tenant tenant_id m in if a.tenant_id == tenant_id then a ∷ rest else rest

unfoldable pub list_by_tenant : String → AgentRepository → List Agent
unfolding of_tenant sort_by
list_by_tenant tenant_id r = sort_by (λ a. a.name) (of_tenant tenant_id r.agents)

unfoldable pub find_by_id : String → String → AgentRepository → Option Agent
find_by_id tenant_id id r = find (tenant_key tenant_id id) r.agents

-- The key of an agent.
unfoldable pub own_key : Agent → String
own_key a = tenant_key a.tenant_id a.id

unfoldable pub save : Agent → AgentRepository → AgentRepository
save a r = record r { agents = put (own_key a) a r.agents }

unfoldable pub delete : String → String → AgentRepository → AgentRepository
delete tenant_id id r = record {
  agents = remove (tenant_key tenant_id id) r.agents;
  bindings = remove (tenant_key tenant_id id) r.bindings;
}

-- The bindings under a key, none for a missing one.
abbrev pub listed : Option (List AgentCredentialBinding) → List AgentCredentialBinding
listed none = []
listed (some bs) = bs

unfoldable pub list_bindings : String → String → AgentRepository → List AgentCredentialBinding
unfolding sort_by
list_bindings tenant_id agent_id r =
    sort_by (λ b. b.client_id) (listed (find (tenant_key tenant_id agent_id) r.bindings))

unfoldable pub has_client : String → List AgentCredentialBinding → Bool
has_client client_id [] = false
has_client client_id (b ∷ bs) = b.client_id == client_id || has_client client_id bs

-- The agents of the tenant to which a client is bound.
unfoldable pub bound_to : String → String → Agents → Bindings → List Agent
unfolding has_client
bound_to tenant_id client_id agents [] = []
bound_to tenant_id client_id agents ((k, bs) ∷ m) =
    let rest = bound_to tenant_id client_id agents m in
    elim (find k agents) [
      | none ↦ rest
      | some a ↦ if has_client client_id bs && a.tenant_id == tenant_id then a ∷ rest else rest
    ]

abbrev pub is_bound : List Agent → Bool
is_bound [] = false
is_bound (a ∷ others) = true

unfoldable pub add_binding : AgentCredentialBinding → AgentRepository → Bool × AgentRepository
unfolding bound_to has_client
add_binding b r =
    let key = tenant_key b.tenant_id b.agent_id in
    let bs = listed (find key r.bindings) in
    if is_bound (bound_to b.tenant_id b.client_id r.agents r.bindings) || has_client b.client_id bs
    then (false, r)
    else (true, record r { bindings = put key (bs ++ b ∷ []) r.bindings })

unfoldable pub without_client : String → List AgentCredentialBinding → List AgentCredentialBinding
without_client client_id [] = []
without_client client_id (b ∷ bs) =
    let rest = without_client client_id bs in if b.client_id == client_id then bs else b ∷ rest

unfoldable pub remove_binding : String → String → String → AgentRepository → Bool × AgentRepository
unfolding has_client without_client
remove_binding tenant_id agent_id client_id r =
    let key = tenant_key tenant_id agent_id in
    let bs = listed (find key r.bindings) in
    if has_client client_id bs
    then (true, record r { bindings = put key (without_client client_id bs) r.bindings })
    else (false, r)

abbrev first : List Agent → Option Agent
first [] = none
first (a ∷ others) = some a

unfoldable pub find_by_client_id : String → String → AgentRepository → Option Agent
unfolding bound_to
find_by_client_id tenant_id client_id r = first (bound_to tenant_id client_id r.agents r.bindings)
