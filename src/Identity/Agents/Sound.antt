-- ===== src/Identity/Agents/Sound.antt =====
-- The invariant of the repository of agents, kept by every request.
use regenerative_architectur.Base.{
  ◌≡◌, refl, sym, ap, ◌⊎◌, inl, inr, arith, String, true, false, none, some, List, [], ◌∷◌, ◌++◌,
  ◌==◌, find, put, remove, find-put, find-remove, eq_iff, some_inj, Bool-cases,
}
use regenerative_architectur.Stores.Tenant.{tenant_key}
use regenerative_architectur.Stores.Agents.{
  Agent, Agents, AgentRepository, AgentCredentialBinding, own_key, save, delete, listed, has_client,
  without_client, bound_to, is_bound, add_binding, remove_binding,
}
use regenerative_architectur.Identity.Agents.Steps.{
  Step, unchanged, entered, replaced, dropped, bound, unbound, WellKeyed, add_binding-agents,
  remove_binding-agents,
}
use regenerative_architectur.Identity.Agents.Tenants.{IsPlain, tenant_key-IsPlain}
use regenerative_architectur.Identity.Agents.Exclusive.{IsExclusive}

-- Bindings belong to agents.
abbrev pub IsRooted : AgentRepository → Type 0
IsRooted r = (k : String) → find k r.agents ≡ none → find k r.bindings ≡ none

abbrev pub HasPlainTenants : Agents → Type 0
HasPlainTenants m = (k : String) (a : Agent) → find k m ≡ some a → IsPlain a.tenant_id

pub record Sound (r : AgentRepository) : Type 0 where
  pub keyed : WellKeyed r.agents
  pub plain : HasPlainTenants r.agents
  pub rooted : IsRooted r
  pub exclusive : IsExclusive r

pub tenant_at :
    (r : AgentRepository) (t id : String) (a : Agent)
    → Sound r
    → IsPlain t
    → find (tenant_key t id) r.agents ≡ some a
    → a.tenant_id ≡ t
unfolding own_key
tenant_at r t id a s p f =
    tenant_key-IsPlain a.tenant_id t a.id id (s.plain (tenant_key t id) a f) p
      (s.keyed (tenant_key t id) a f)

pub find-remove_found :
    {V : Type 0} (j k : String) (v : V) (m : List (String × V))
    → find j (remove k m) ≡ some v
    → find j m ≡ some v
find-remove_found j k v m h = ground (arith, find-remove j k m)

put-HasPlainTenants :
    (k : String) (a : Agent) (m : Agents)
    → IsPlain a.tenant_id
    → HasPlainTenants m
    → HasPlainTenants (put k a m)
put-HasPlainTenants k a m p h j b f = elim (Bool-cases (j == k)) [
  | inl e ↦ let g = rw (find-put j k a m, e) at f in rw (sym (some_inj g)) p
  | inr e ↦ let g = rw (find-put j k a m, e) at f in h j b g
]

pub Step-HasPlainTenants :
    (t : String) (m n : AgentRepository)
    → IsPlain t
    → HasPlainTenants m.agents
    → Step t m n
    → HasPlainTenants n.agents
unfolding save delete
Step-HasPlainTenants t m n p h (unchanged e) = rw e h
Step-HasPlainTenants t m n p h (entered a here f e) =
    rw e (put-HasPlainTenants (own_key a) a m.agents (rw here p) h)
Step-HasPlainTenants t m n p h (replaced k b a f alive same e) =
    rw e (put-HasPlainTenants (own_key a) a m.agents (rw (ap (λ i. i.0) same) (h k b f)) h)
Step-HasPlainTenants t m n p h (dropped id b f alive e) =
    rw e λ j a g. h j a (find-remove_found j (tenant_key t id) a m.agents g)
Step-HasPlainTenants t m n p h (bound c a here f e) = rw (e, add_binding-agents c m) h
Step-HasPlainTenants t m n p h (unbound id client e) = rw (e, remove_binding-agents t id client m) h

-- The two stores of bindings that a change leaves.
abbrev pub bound_more : AgentCredentialBinding → AgentRepository → AgentRepository
bound_more c r =
    let key = tenant_key c.tenant_id c.agent_id in
    record r { bindings = put key (listed (find key r.bindings) ++ c ∷ []) r.bindings }

abbrev pub bound_less : String → String → AgentRepository → AgentRepository
bound_less key client r = record r {
  bindings = put key (without_client client (listed (find key r.bindings))) r.bindings;
}

pub add_binding-cases :
    (c : AgentCredentialBinding) (r : AgentRepository)
    → ((add_binding c r).1 ≡ r)
      ⊎ ((is_bound (bound_to c.tenant_id c.client_id r.agents r.bindings) ≡ false)
          × ((add_binding c r).1 ≡ bound_more c r))
unfolding add_binding
add_binding-cases c r =
    elim (Bool-cases (is_bound (bound_to c.tenant_id c.client_id r.agents r.bindings))) [
      | inl e ↦ inl (rw e refl)
      | inr e ↦
          elim (Bool-cases (
            has_client c.client_id
              (listed (find (tenant_key c.tenant_id c.agent_id) r.bindings)))) [
                | inl g ↦ inl (rw (e, g) refl)
                | inr g ↦ inr (e, rw (e, g) refl)
              ]
    ]

pub remove_binding-cases :
    (t id client : String) (r : AgentRepository)
    → ((remove_binding t id client r).1 ≡ r)
      ⊎ ((has_client client (listed (find (tenant_key t id) r.bindings)) ≡ true)
          × ((remove_binding t id client r).1 ≡ bound_less (tenant_key t id) client r))
unfolding remove_binding
remove_binding-cases t id client r =
    elim (Bool-cases (has_client client (listed (find (tenant_key t id) r.bindings)))) [
      | inl e ↦ inr (e, rw e refl)
      | inr e ↦ inl (rw e refl)
    ]

pub save-IsRooted : (a : Agent) (m : AgentRepository) → IsRooted m → IsRooted (save a m)
unfolding save
save-IsRooted a m w k h = ground (arith, find-put k (own_key a) a m.agents, w k)

pub delete-IsRooted : (t id : String) (m : AgentRepository) → IsRooted m → IsRooted (delete t id m)
unfolding delete
delete-IsRooted t id m w k h = ground (
  arith,
  find-remove k (tenant_key t id) m.agents,
  find-remove k (tenant_key t id) m.bindings,
  w k,
)

pub bound_more-IsRooted :
    (c : AgentCredentialBinding) (a : Agent) (m : AgentRepository)
    → find (tenant_key c.tenant_id c.agent_id) m.agents ≡ some a
    → IsRooted m
    → IsRooted (bound_more c m)
bound_more-IsRooted c a m f w k h =
    let key = tenant_key c.tenant_id c.agent_id in
    ground
      (arith, find-put k key (listed (find key m.bindings) ++ c ∷ []) m.bindings, eq_iff k key, w k)

pub bound_less-IsRooted :
    (key client : String) (m : AgentRepository)
    → has_client client (listed (find key m.bindings)) ≡ true
    → IsRooted m
    → IsRooted (bound_less key client m)
unfolding has_client
bound_less-IsRooted key client m g w k h = ground (
  arith,
  find-put k key (without_client client (listed (find key m.bindings))) m.bindings,
  eq_iff k key,
  w k,
)
