-- ===== src/Identity/Agents/Invariant.antt =====
-- Every request keeps the invariant of the repository, with each client bound to one agent at most.
use regenerative_architectur.Base.{◌≡◌, sym, ◌∙◌, inl, inr, String, true, false, [], ◌∷◌}
use regenerative_architectur.Stores.Tenant.{tenant_key}
use regenerative_architectur.Stores.Agents.{
  Agent, AgentRepository, AgentCredentialBinding, bound_to, is_bound,
}
use regenerative_architectur.Identity.Agents.{AgentState}
use regenerative_architectur.Identity.Agents.Operations.{Requests, handle, handle_all, AllDrawNew}
use regenerative_architectur.Identity.Agents.Steps.{
  Step, unchanged, entered, replaced, dropped, bound, unbound, Step-WellKeyed,
}
use regenerative_architectur.Identity.Agents.Handled.{handle-Step}
use regenerative_architectur.Identity.Agents.Tenants.{IsPlain}
use regenerative_architectur.Identity.Agents.Exclusive.{
  IsBoundTo, IsExclusive, BindsNoMore-IsExclusive, bound_to-none,
}
use regenerative_architectur.Identity.Agents.Sound.{
  Sound, bound_more, add_binding-cases, remove_binding-cases, tenant_at, Step-HasPlainTenants,
}
use regenerative_architectur.Identity.Agents.Clients.{
  Step-IsRooted, entered-BindsNoMore, replaced-BindsNoMore, dropped-BindsNoMore,
  bound_less-BindsNoMore, has_client-more,
}

-- A client that no agent of the tenant has is bound to none after all but one.
not_elsewhere :
    (c : AgentCredentialBinding) (client k : String) (a b : Agent) (m : AgentRepository)
    → is_bound (bound_to c.tenant_id c.client_id m.agents m.bindings) ≡ false
    → c.client_id ≡ client
    → b.tenant_id ≡ c.tenant_id
    → a.tenant_id ≡ b.tenant_id
    → IsBoundTo m client k a
    → true ≡ false
not_elsewhere c client k a b m free is at same (f, h) =
    sym h
    ∙ rw (sym is) (bound_to-none c.tenant_id c.client_id m.agents m.bindings k a free f (same ∙ at))

bound_more-IsExclusive :
    (c : AgentCredentialBinding) (m : AgentRepository)
    → Sound m
    → IsPlain c.tenant_id
    → is_bound (bound_to c.tenant_id c.client_id m.agents m.bindings) ≡ false
    → IsExclusive (bound_more c m)
bound_more-IsExclusive c m s p free client j k a b (f, h) (g, i) same =
    elim (has_client-more c client j m h) [
      | inl old ↦ elim (has_client-more c client k m i) [
        | inl old' ↦ s.exclusive client j k a b (f, old) (g, old') same
        | inr (at, is) ↦
            let here = tenant_at m c.tenant_id c.agent_id b s p (rw (sym at) g) in
            let absurd = not_elsewhere c client j a b m free is here same (f, old) in cc
      ]
      | inr (at, is) ↦ elim (has_client-more c client k m i) [
        | inl old' ↦
            let here = tenant_at m c.tenant_id c.agent_id a s p (rw (sym at) f) in
            let absurd = not_elsewhere c client k b a m free is here (sym same) (g, old') in cc
        | inr (at', is') ↦ at ∙ sym at'
      ]
    ]

Step-IsExclusive :
    (t : String) (m n : AgentRepository) → Sound m → IsPlain t → Step t m n → IsExclusive n
Step-IsExclusive t m n s p (unchanged e) = rw e s.exclusive
Step-IsExclusive t m n s p (entered a here f e) =
    rw e (BindsNoMore-IsExclusive m _ (entered-BindsNoMore a m s.rooted f) s.exclusive)
Step-IsExclusive t m n s p (replaced k b a f alive same e) =
    rw e (BindsNoMore-IsExclusive m _ (replaced-BindsNoMore k b a m s f same) s.exclusive)
Step-IsExclusive t m n s p (dropped id b f alive e) =
    rw e (BindsNoMore-IsExclusive m _ (dropped-BindsNoMore t id m) s.exclusive)
Step-IsExclusive t m n s p (bound c a here f e) = elim (add_binding-cases c m) [
  | inl same ↦ rw (e, same) s.exclusive
  | inr (free, more) ↦ rw (e, more) (bound_more-IsExclusive c m s (rw here p) free)
]
Step-IsExclusive t m n s p (unbound id client e) = elim (remove_binding-cases t id client m) [
  | inl same ↦ rw (e, same) s.exclusive
  | inr (has, less) ↦
      rw (e, less)
        (BindsNoMore-IsExclusive m _ (bound_less-BindsNoMore (tenant_key t id) client m)
          s.exclusive)
]

Step-Sound : (t : String) (m n : AgentRepository) → Sound m → IsPlain t → Step t m n → Sound n
Step-Sound t m n s p step = record {
  keyed = Step-WellKeyed t m n s.keyed step;
  plain = Step-HasPlainTenants t m n p s.plain step;
  rooted = Step-IsRooted t m n s.rooted step;
  exclusive = Step-IsExclusive t m n s p step;
}

-- The requests are for tenants with names, without a bar.
abbrev pub ArePlain : Requests → Type 0
ArePlain [] = Unit
ArePlain ((d, t, r) ∷ rs) = IsPlain t × ArePlain rs

-- Any requests keep the invariant of the repository: agents are stored under the keys of their
-- tenants and identifiers, bindings belong to stored agents, and no client is bound to two agents of
-- a tenant. The tenants have names without a bar, and the identifiers drawn for new agents are not in
-- use when they are drawn.
pub handle_all-Sound :
    (rs : Requests) (s : AgentState)
    → Sound s.repo
    → ArePlain rs
    → AllDrawNew rs s
    → Sound (handle_all rs s).repo
unfolding handle_all
handle_all-Sound [] s sound plain new = sound
handle_all-Sound ((d, t, r) ∷ rs) s sound (p, plain) (new, later) =
    handle_all-Sound rs (handle d t r s)
      (Step-Sound t s.repo (handle d t r s).repo sound p (handle-Step d t r s new)) plain later
