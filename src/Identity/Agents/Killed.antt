-- ===== src/Identity/Agents/Killed.antt =====
-- A killed agent stays killed.
use regenerative_architectur.Base.{
  ◌≡◌, refl, sym, ap, String, true, false, some, [], ◌∷◌, find, put, find-put_self,
}
use regenerative_architectur.Spec.{Time, or_clock}
use regenerative_architectur.Oauth2.Records.{ok}
use regenerative_architectur.Stores.Tenant.{tenant_key}
use regenerative_architectur.Stores.Agents.{Agent, Agents, own_key, save, is_killed, may_get_tokens}
use regenerative_architectur.Identity.Results.{bind_ok}
use regenerative_architectur.Identity.Agents.{AdminAgentDeps, AgentState}
use regenerative_architectur.Identity.Agents.Lifecycle.{kill_agent, killed_from}
use regenerative_architectur.Identity.Agents.Operations.{Requests, handle, handle_all, AllDrawNew}
use regenerative_architectur.Identity.Agents.Steps.{
  WellKeyed, Step-WellKeyed, Step-killed, put-WellKeyed,
}
use regenerative_architectur.Identity.Agents.Effects.{ok_inj, find_modifiable_ok}
use regenerative_architectur.Identity.Agents.Handled.{handle-Step}

-- After any requests whose drawn identifiers are new when their turn comes, every agent is still
-- stored under the key of its tenant and its identifier.
pub handle_all-WellKeyed :
    (rs : Requests) (s : AgentState)
    → WellKeyed s.repo.agents
    → AllDrawNew rs s
    → WellKeyed (handle_all rs s).repo.agents
unfolding handle_all
handle_all-WellKeyed [] s w new = w
handle_all-WellKeyed ((d, t, r) ∷ rs) s w (new, later) =
    handle_all-WellKeyed rs (handle d t r s)
      (Step-WellKeyed t s.repo (handle d t r s).repo w (handle-Step d t r s new)) later

pub handle_all-killed :
    (rs : Requests) (s : AgentState) (k : String) (a : Agent)
    → WellKeyed s.repo.agents
    → AllDrawNew rs s
    → find k s.repo.agents ≡ some a
    → is_killed a.status ≡ true
    → find k (handle_all rs s).repo.agents ≡ some a
unfolding handle_all
handle_all-killed [] s k a w new f dead = f
handle_all-killed ((d, t, r) ∷ rs) s k a w (new, later) f dead =
    let step = handle-Step d t r s new in
    let n = (handle d t r s).repo in
    handle_all-killed rs (handle d t r s) k a (Step-WellKeyed t s.repo n w step) later
      (Step-killed t s.repo n k a w step f dead) dead

-- What a kill leaves under the agent's key.
abbrev pub IsLeftKilled : String → Agent → AgentState → Type 0
IsLeftKilled k a s =
    (find k s.repo.agents ≡ some a)
    × (is_killed a.status ≡ true)
    × (may_get_tokens a ≡ false)
    × WellKeyed s.repo.agents

saved_killed :
    (k : String) (now : Time) (b : Agent) (m : Agents)
    → own_key b ≡ k
    → find k (put (own_key (killed_from now b)) (killed_from now b) m) ≡ some (killed_from now b)
unfolding own_key
saved_killed k now b m e = rw (sym e) (find-put_self (own_key b) (killed_from now b) m)

pub kill_agent-IsLeftKilled :
    (d : AdminAgentDeps) (t actor id : String) (now : Time) (s s' : AgentState) (a : Agent)
    → WellKeyed s.repo.agents
    → kill_agent d t actor id now s ≡ ok (a, s')
    → IsLeftKilled (tenant_key t id) a s'
unfolding kill_agent save may_get_tokens
kill_agent-IsLeftKilled d t actor id now s s' a w h =
    let (b, f, alive, h1) = find_modifiable_ok t id s _ h in
    let at = or_clock d.clock now in
    let (u, v, h2) = bind_ok (d.validate_agent (killed_from at b)) _ h1 in
    let same = ap (λ p. p.0) (ok_inj h2) in
    let left = ap (λ p. p.1.repo.agents) (ok_inj h2) in
    rw (sym same, sym left)
      (
        saved_killed (tenant_key t id) at b s.repo.agents (w (tenant_key t id) b f),
        refl,
        refl,
        put-WellKeyed (killed_from at b) s.repo.agents w,
      )

-- Once an agent was killed, its record stays as the kill returned it, and is not one that may get
-- tokens, whatever requests of administrators follow. Agents are stored under their own keys, and
-- the identifiers drawn for new agents are not in use when they are drawn.
pub handle_all-kill_agent :
    (d : AdminAgentDeps) (t actor id : String) (now : Time) (s s' : AgentState) (a : Agent)
    (rs : Requests)
    → WellKeyed s.repo.agents
    → kill_agent d t actor id now s ≡ ok (a, s')
    → AllDrawNew rs s'
    → (find (tenant_key t id) (handle_all rs s').repo.agents ≡ some a) × (may_get_tokens a ≡ false)
handle_all-kill_agent d t actor id now s s' a rs w h new =
    let (f, dead, none_left, w') = kill_agent-IsLeftKilled d t actor id now s s' a w h in
    (handle_all-killed rs s' (tenant_key t id) a w' new f dead, none_left)
