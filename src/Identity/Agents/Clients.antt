-- ===== src/Identity/Agents/Clients.antt =====
-- What a request may do to the bindings.
use regenerative_architectur.Base.{
  ◌≡◌, refl, sym, ◌∙◌, ap, ◌⊎◌, inl, inr, arith, String, true, false, none, some, List, [], ◌∷◌,
  ◌++◌, ◌==◌, find, put, remove, find-put, find-remove, eq_iff, some_inj, Bool-cases,
}
use regenerative_architectur.Stores.Tenant.{tenant_key}
use regenerative_architectur.Stores.Agents.{
  Agent, AgentRepository, AgentCredentialBinding, own_key, save, delete, listed, has_client,
  without_client,
}
use regenerative_architectur.Identity.Agents.Steps.{
  Step, unchanged, entered, replaced, dropped, bound, unbound, identity, own_key-identity,
}
use regenerative_architectur.Identity.Agents.Exclusive.{
  BindsNoMore, has_client-append, has_client-without_client,
}
use regenerative_architectur.Identity.Agents.Sound.{
  Sound, IsRooted, bound_more, bound_less, add_binding-cases, remove_binding-cases, save-IsRooted,
  delete-IsRooted, bound_more-IsRooted, bound_less-IsRooted, find-remove_found,
}

pub Step-IsRooted : (t : String) (m n : AgentRepository) → IsRooted m → Step t m n → IsRooted n
Step-IsRooted t m n w (unchanged e) = rw e w
Step-IsRooted t m n w (entered a here f e) = rw e (save-IsRooted a m w)
Step-IsRooted t m n w (replaced k b a f alive same e) = rw e (save-IsRooted a m w)
Step-IsRooted t m n w (dropped id b f alive e) = rw e (delete-IsRooted t id m w)
Step-IsRooted t m n w (bound c a here f e) = elim (add_binding-cases c m) [
  | inl same ↦ rw (e, same) w
  | inr (free, more) ↦ rw (e, more) (bound_more-IsRooted c a m (rw here f) w)
]
Step-IsRooted t m n w (unbound id client e) = elim (remove_binding-cases t id client m) [
  | inl same ↦ rw (e, same) w
  | inr (has, less) ↦ rw (e, less) (bound_less-IsRooted (tenant_key t id) client m has w)
]

find-put_other :
    {V : Type 0} (j k : String) (v w : V) (m : List (String × V))
    → (j == k) ≡ false
    → find j (put k v m) ≡ some w
    → find j m ≡ some w
find-put_other j k v w m e h = ground (arith, find-put j k v m)

find-put_same :
    {V : Type 0} (j k : String) (v w : V) (m : List (String × V))
    → (j == k) ≡ true
    → find j (put k v m) ≡ some w
    → v ≡ w
find-put_same j k v w m e h = let g = rw (find-put j k v m, e) at h in some_inj g

pub entered-BindsNoMore :
    (a : Agent) (m : AgentRepository)
    → IsRooted m
    → find (own_key a) m.agents ≡ none
    → BindsNoMore m (save a m)
unfolding save has_client
entered-BindsNoMore a m w f client k b (g, h) = elim (Bool-cases (k == own_key a)) [
  | inl e ↦
      let no_agent : find k m.agents ≡ none = rw ((eq_iff k (own_key a)).0 e) f in
      let h1 = rw (w k no_agent) at h in cc
  | inr e ↦ (b, (find-put_other k (own_key a) a b m.agents e g, h), refl)
]

pub replaced-BindsNoMore :
    (j : String) (b a : Agent) (m : AgentRepository)
    → Sound m
    → find j m.agents ≡ some b
    → identity a ≡ identity b
    → BindsNoMore m (save a m)
unfolding save
replaced-BindsNoMore j b a m s f same client k c (g, h) = elim (Bool-cases (k == own_key a)) [
  | inl e ↦
      let at_j : k ≡ j = (eq_iff k (own_key a)).0 e ∙ own_key-identity a b same ∙ s.keyed j b f in
      (
        b,
        (rw at_j f, h),
        sym (ap (λ i. i.0) same)
            ∙ ap (λ x. x.tenant_id) (find-put_same k (own_key a) a c m.agents e g),
      )
  | inr e ↦ (c, (find-put_other k (own_key a) a c m.agents e g, h), refl)
]

has_client-remove :
    (client j k : String) (b : Agent) (m : AgentRepository)
    → find j (remove k m.agents) ≡ some b
    → has_client client (listed (find j (remove k m.bindings))) ≡ true
    → has_client client (listed (find j m.bindings)) ≡ true
unfolding has_client
has_client-remove client j k b m g h =
    ground (arith, find-remove j k m.agents, find-remove j k m.bindings)

pub dropped-BindsNoMore : (t id : String) (m : AgentRepository) → BindsNoMore m (delete t id m)
unfolding delete
dropped-BindsNoMore t id m client k b (g, h) = (
  b,
  (
    find-remove_found k (tenant_key t id) b m.agents g,
    has_client-remove client k (tenant_key t id) b m g h,
  ),
  refl,
)

has_client-less :
    (client gone key k : String) (m : AgentRepository)
    → has_client client (listed (find k (bound_less key gone m).bindings)) ≡ true
    → has_client client (listed (find k m.bindings)) ≡ true
has_client-less client gone key k m h =
    let left = without_client gone (listed (find key m.bindings)) in
    elim (Bool-cases (k == key)) [
      | inl e ↦
          let h1 = rw (find-put k key left m.bindings, e) at h in
          rw ((eq_iff k key).0 e)
            (has_client-without_client client gone (listed (find key m.bindings)) h1)
      | inr e ↦ let h1 = rw (find-put k key left m.bindings, e) at h in h1
    ]

pub bound_less-BindsNoMore :
    (key gone : String) (m : AgentRepository) → BindsNoMore m (bound_less key gone m)
bound_less-BindsNoMore key gone m client k b (g, h) =
    (b, (g, has_client-less client gone key k m h), refl)

-- Under a key with a new binding, a client was bound before or is the new one.
pub has_client-more :
    (c : AgentCredentialBinding) (client k : String) (m : AgentRepository)
    → has_client client (listed (find k (bound_more c m).bindings)) ≡ true
    → (has_client client (listed (find k m.bindings)) ≡ true)
      ⊎ ((k ≡ tenant_key c.tenant_id c.agent_id) × (c.client_id ≡ client))
has_client-more c client k m h =
    let key = tenant_key c.tenant_id c.agent_id in
    let bs = listed (find key m.bindings) in
    elim (Bool-cases (k == key)) [
      | inl e ↦
          let at_key = (eq_iff k key).0 e in
          let h1 = rw (find-put k key (bs ++ c ∷ []) m.bindings, e) at h in
          elim (Bool-cases (has_client client bs)) [
            | inl old ↦ inl (rw at_key old)
            | inr new ↦
                let h2 = rw (has_client-append client bs c, new) at h1 in
                inr (at_key, (eq_iff c.client_id client).0 h2)
          ]
      | inr e ↦ let h1 = rw (find-put k key (bs ++ c ∷ []) m.bindings, e) at h in inl h1
    ]
