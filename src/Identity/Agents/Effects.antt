-- ===== src/Identity/Agents/Effects.antt =====
-- What each operation does to the stored agents.
use regenerative_architectur.Base.{
  ◌≡◌, refl, sym, ◌∙◌, ap, arith, String, Bool, true, false, not, some, ◌==◌, find,
}
use regenerative_architectur.Base.Texts.{trim_space}
use regenerative_architectur.Spec.{Time, or_clock}
use regenerative_architectur.Oauth2.Records.{Result, ok}
use regenerative_architectur.Stores.Tenant.{tenant_key}
use regenerative_architectur.Stores.Agents.{
  Agent, AgentRepository, AgentCredentialBinding, is_killed, find_by_id, save, delete, add_binding,
  remove_binding,
}
use regenerative_architectur.Identity.Results.{◌>>=◌, bind_ok, some_or_ok, guard_ok}
use regenerative_architectur.Identity.Agents.{
  AgentEvent, AdminAgentDeps, AgentState, Outcome, find_modifiable,
}
use regenerative_architectur.Identity.Agents.Lifecycle.{
  set_agent_disabled, kill_agent, delete_agent, switched, killed_from, save_changed,
}
use regenerative_architectur.Identity.Agents.Bindings.{
  bind_credential, unbind_credential, finish_binding, finish_unbinding, ensure_unbound,
  ensure_client, new_binding,
}
use regenerative_architectur.Identity.Agents.Steps.{
  identity, bound, unbound, Step, replaced, dropped,
}

pub ok_inj {ℓ} : {A : Type ℓ} {a b : A} → ◌≡◌ {A = Result A} (ok a) (ok b) → a ≡ b
ok_inj h = cc

outcome_state :
    {A : Type 0} {a b : A} {s t : AgentState} → ◌≡◌ {A = Outcome A} (ok (a, t)) (ok (b, s)) → t ≡ s
outcome_state h = ap (λ p. p.1) (ok_inj h)

pub find_modifiable_ok :
    {B : Type 0} (tenant_id id : String) (s : AgentState) (f : Agent → Result B) {b : B}
    → find_modifiable tenant_id id s >>= f ≡ ok b
    → (a : Agent) × (find (tenant_key tenant_id id) s.repo.agents ≡ some a)
      × (is_killed a.status ≡ false)
      × (f a ≡ ok b)
unfolding find_by_id
find_modifiable_ok tenant_id id s f h =
    let (a, found, h1) = bind_ok (find_modifiable tenant_id id s) f h in
    let (c, at, h2) =
      some_or_ok (find (tenant_key tenant_id id) s.repo.agents) "agent not found" _ found in
    let (alive, h3) =
      guard_ok (not (is_killed c.status)) "agent is killed and cannot be modified" _ h2 in
    (c, at, ground arith, ap f (ok_inj h3) ∙ h1)

-- The state that a finished operation returned.
pub returned :
    {A : Type 0} {a b : A} (t : String) (m : AgentRepository) (s s' : AgentState)
    → ◌≡◌ {A = Outcome A} (ok (a, s')) (ok (b, s))
    → Step t m s'.repo
    → Step t m s.repo
returned t m s s' h step = rw (sym (ap (λ v. v.repo) (outcome_state h))) step

pub save_changed-Step :
    (d : AdminAgentDeps) (t k : String) (b a r : Agent) (event : AgentEvent) (s s' : AgentState)
    → find k s.repo.agents ≡ some b
    → is_killed b.status ≡ false
    → identity a ≡ identity b
    → save_changed d a event s ≡ ok (r, s')
    → Step t s.repo s'.repo
unfolding save
save_changed-Step d t k b a r event s s' f alive same h =
    let (u, v, h1) = bind_ok (d.validate_agent a) _ h in
    returned t s.repo s' _ h1 (replaced k b a f alive same refl)

identity-switched :
    (off : Bool) (now : Time) (a : Agent) → identity (switched off now a) ≡ identity a
identity-switched true now a = refl
identity-switched false now a = refl

identity-killed_from : (now : Time) (a : Agent) → identity (killed_from now a) ≡ identity a
identity-killed_from now a = refl

pub set_agent_disabled-Step :
    (d : AdminAgentDeps) (t actor id : String) (off : Bool) (now : Time) (s s' : AgentState)
    (a : Agent)
    → set_agent_disabled d t actor id off now s ≡ ok (a, s')
    → Step t s.repo s'.repo
unfolding set_agent_disabled
set_agent_disabled-Step d t actor id off now s s' a h =
    let (b, f, alive, h1) = find_modifiable_ok t id s _ h in
    save_changed-Step d t (tenant_key t id) b _ a _ s s' f alive
      (identity-switched off (or_clock d.clock now) b) h1

pub kill_agent-Step :
    (d : AdminAgentDeps) (t actor id : String) (now : Time) (s s' : AgentState) (a : Agent)
    → kill_agent d t actor id now s ≡ ok (a, s')
    → Step t s.repo s'.repo
unfolding kill_agent
kill_agent-Step d t actor id now s s' a h =
    let (b, f, alive, h1) = find_modifiable_ok t id s _ h in
    save_changed-Step d t (tenant_key t id) b _ a _ s s' f alive
      (identity-killed_from (or_clock d.clock now) b) h1

pub delete_agent-Step :
    (d : AdminAgentDeps) (t actor id : String) (now : Time) (s s' : AgentState) (u : Unit {0})
    → delete_agent d t actor id now s ≡ ok (u, s')
    → Step t s.repo s'.repo
unfolding delete_agent delete
delete_agent-Step d t actor id now s s' u h =
    let (b, f, alive, h1) = find_modifiable_ok t id s _ h in
    returned t s.repo s' _ h1 (dropped id b f alive refl)

finish_binding-repo :
    (now : Time) (t actor : String) (b : AgentCredentialBinding) (s s' : AgentState) (u : Unit {0})
    (p : Bool × AgentRepository)
    → finish_binding now t actor b s p ≡ ok (u, s')
    → s'.repo ≡ p.1
finish_binding-repo now t actor b s s' u (true, r) h = ap (λ v. v.repo) (sym (outcome_state h))
finish_binding-repo now t actor b s s' u (false, r) h =
    let (v, e, h1) = bind_ok (ensure_unbound t b.agent_id b.client_id r) _ h in
    ap (λ v. v.repo) (sym (outcome_state h1))

finish_unbinding-repo :
    (now : Time) (t actor id client : String) (s s' : AgentState) (u : Unit {0})
    (p : Bool × AgentRepository)
    → finish_unbinding now t actor id client s p ≡ ok (u, s')
    → s'.repo ≡ p.1
finish_unbinding-repo now t actor id client s s' u (true, r) h =
    ap (λ v. v.repo) (sym (outcome_state h))
finish_unbinding-repo now t actor id client s s' u (false, r) h =
    ap (λ v. v.repo) (sym (outcome_state h))

pub bind_credential-Step :
    (d : AdminAgentDeps) (t actor id client : String) (now : Time) (s s' : AgentState)
    (u : Unit {0})
    → bind_credential d t actor id client now s ≡ ok (u, s')
    → Step t s.repo s'.repo
unfolding bind_credential
bind_credential-Step d t actor id client now s s' u h =
    let (a, f, alive, h1) = find_modifiable_ok t id s _ h in
    let (named, h2) = guard_ok (not (trim_space client == "")) "client not found" _ h1 in
    let (v, known, h3) = bind_ok (ensure_client d.find_client t (trim_space client)) _ h2 in
    let (x, free, h4) = bind_ok (ensure_unbound t id (trim_space client) s.repo) _ h3 in
    let b = new_binding t id (trim_space client) (or_clock d.clock now) in
    bound b a refl f
      (finish_binding-repo (or_clock d.clock now) t actor b s s' u (add_binding b s.repo) h4)

pub unbind_credential-Step :
    (d : AdminAgentDeps) (t actor id client : String) (now : Time) (s s' : AgentState)
    (u : Unit {0})
    → unbind_credential d t actor id client now s ≡ ok (u, s')
    → Step t s.repo s'.repo
unfolding unbind_credential
unbind_credential-Step d t actor id client now s s' u h =
    let (a, f, h1) = some_or_ok (find_by_id t id s.repo) "agent not found" _ h in
    unbound id client (
      finish_unbinding-repo (or_clock d.clock now) t actor id client s s' u
        (remove_binding t id client s.repo) h1)
