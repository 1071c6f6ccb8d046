-- ===== src/Identity/Agents/Steps.antt =====
-- What one operation for a tenant may do to the repository, and what that leaves of a killed agent.
use regenerative_architectur.Base.{
  String, true, false, none, some, ◌≡◌, ap, find, put, remove, find-put, find-remove, eq_iff, arith,
}
use regenerative_architectur.Stores.Tenant.{tenant_key}
use regenerative_architectur.Stores.Agents.{
  Agent, Agents, AgentRepository, AgentCredentialBinding, own_key, is_killed, save, delete,
  add_binding, remove_binding,
}

abbrev pub identity : Agent → String × String
identity a = (a.tenant_id, a.id)

pub data Step (tenant : String) (m n : AgentRepository) : Type 0 where
  unchanged : n ≡ m → Step tenant m n
  entered :
      (a : Agent)
      → a.tenant_id ≡ tenant
      → find (own_key a) m.agents ≡ none
      → n ≡ save a m
      → Step tenant m n
  -- with the identity of the one replaced, which is not killed
  replaced :
      (k : String) (b a : Agent)
      → find k m.agents ≡ some b
      → is_killed b.status ≡ false
      → identity a ≡ identity b
      → n ≡ save a m
      → Step tenant m n
  dropped :
      (id : String) (b : Agent)
      → find (tenant_key tenant id) m.agents ≡ some b
      → is_killed b.status ≡ false
      → n ≡ delete tenant id m
      → Step tenant m n
  bound :
      (c : AgentCredentialBinding) (a : Agent)
      → c.tenant_id ≡ tenant
      → find (tenant_key tenant c.agent_id) m.agents ≡ some a
      → n ≡ (add_binding c m).1
      → Step tenant m n
  unbound : (id client : String) → n ≡ (remove_binding tenant id client m).1 → Step tenant m n

pub add_binding-agents :
    (b : AgentCredentialBinding) (r : AgentRepository) → (add_binding b r).1.agents ≡ r.agents
unfolding add_binding
add_binding-agents b r = ground arith

pub remove_binding-agents :
    (t id client : String) (r : AgentRepository)
    → (remove_binding t id client r).1.agents ≡ r.agents
unfolding remove_binding
remove_binding-agents t id client r = ground arith

pub own_key-identity : (a b : Agent) → identity a ≡ identity b → own_key a ≡ own_key b
unfolding own_key
own_key-identity a b h = ap (λ p. tenant_key p.0 p.1) h

-- Every agent is stored under its own key.
abbrev pub WellKeyed : Agents → Type 0
WellKeyed m = (k : String) (a : Agent) → find k m ≡ some a → own_key a ≡ k

pub put-WellKeyed : (a : Agent) (m : Agents) → WellKeyed m → WellKeyed (put (own_key a) a m)
put-WellKeyed a m w k b h = ground (arith, find-put k (own_key a) a m, eq_iff k (own_key a), w k b)

pub remove-WellKeyed : (j : String) (m : Agents) → WellKeyed m → WellKeyed (remove j m)
remove-WellKeyed j m w k b h = ground (arith, find-remove k j m, w k b)

pub Step-WellKeyed :
    (t : String) (m n : AgentRepository) → WellKeyed m.agents → Step t m n → WellKeyed n.agents
unfolding save delete
Step-WellKeyed t m n w (unchanged e) = rw e w
Step-WellKeyed t m n w (entered a here f e) = rw e (put-WellKeyed a m.agents w)
Step-WellKeyed t m n w (replaced k b a f alive same e) = rw e (put-WellKeyed a m.agents w)
Step-WellKeyed t m n w (dropped id b f alive e) =
    rw e (remove-WellKeyed (tenant_key t id) m.agents w)
Step-WellKeyed t m n w (bound c a here f e) = rw (e, add_binding-agents c m) w
Step-WellKeyed t m n w (unbound id client e) = rw (e, remove_binding-agents t id client m) w

-- A killed agent stays as it is stored.
pub Step-killed :
    (t : String) (m n : AgentRepository) (k : String) (a : Agent)
    → WellKeyed m.agents
    → Step t m n
    → find k m.agents ≡ some a
    → is_killed a.status ≡ true
    → find k n.agents ≡ some a
unfolding save delete
Step-killed t m n k a w (unchanged e) f dead = rw e f
Step-killed t m n k a w (entered b here free e) f dead =
    rw e (ground (arith, find-put k (own_key b) b m.agents, eq_iff k (own_key b)))
Step-killed t m n k a w (replaced j c b g alive same e) f dead = rw e (
    ground
      (arith, find-put k (own_key b) b m.agents, eq_iff k (own_key b), w j c, own_key-identity b c))
Step-killed t m n k a w (dropped id c g alive e) f dead =
    rw e (ground (arith, find-remove k (tenant_key t id) m.agents, eq_iff k (tenant_key t id)))
Step-killed t m n k a w (bound c b here g e) f dead = rw (e, add_binding-agents c m) f
Step-killed t m n k a w (unbound id client e) f dead = rw (e, remove_binding-agents t id client m) f
