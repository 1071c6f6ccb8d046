-- ===== src/Identity/Agents/Exclusive.antt =====
-- A client is bound to at most one agent of its tenant.
use regenerative_architectur.Base.{
  ◌≡◌, refl, sym, ◌∙◌, arith, String, true, false, ◌||◌, some, List, [], ◌∷◌, ◌++◌, ◌==◌, find,
  eq_iff,
}
use regenerative_architectur.Stores.Agents.{
  Agent, Agents, Bindings, AgentRepository, AgentCredentialBinding, listed, has_client,
  without_client, bound_to, is_bound,
}

-- The agent under a key has a client.
abbrev pub IsBoundTo : AgentRepository → String → String → Agent → Type 0
IsBoundTo r client k a =
    (find k r.agents ≡ some a) × (has_client client (listed (find k r.bindings)) ≡ true)

abbrev pub IsExclusive : AgentRepository → Type 0
IsExclusive r =
    (client j k : String) (a b : Agent)
    → IsBoundTo r client j a
    → IsBoundTo r client k b
    → a.tenant_id ≡ b.tenant_id
    → j ≡ k

-- What is bound in `n` was bound in `m`, to an agent of the same tenant.
abbrev pub BindsNoMore : AgentRepository → AgentRepository → Type 0
BindsNoMore m n =
    (client k : String) (b : Agent)
    → IsBoundTo n client k b
    → (a : Agent) × IsBoundTo m client k a × (a.tenant_id ≡ b.tenant_id)

pub BindsNoMore-IsExclusive :
    (m n : AgentRepository) → BindsNoMore m n → IsExclusive m → IsExclusive n
BindsNoMore-IsExclusive m n back x client j k a b p q same =
    let (a', p', e) = back client j a p in
    let (b', q', e') = back client k b q in x client j k a' b' p' q' (e ∙ same ∙ sym e')

-- No agent of the tenant has the client, if the walk over the bindings finds none.
pub bound_to-none :
    (t client : String) (agents : Agents) (m : Bindings) (k : String) (a : Agent)
    → is_bound (bound_to t client agents m) ≡ false
    → find k agents ≡ some a
    → a.tenant_id ≡ t
    → has_client client (listed (find k m)) ≡ false
unfolding bound_to find has_client
bound_to-none t client agents [] k a h f e = refl
bound_to-none t client agents ((j, bs) ∷ m) k a h f e =
    ground (arith, eq_iff k j, eq_iff a.tenant_id t, bound_to-none t client agents m k a)

pub has_client-append :
    (client : String) (bs : List AgentCredentialBinding) (b : AgentCredentialBinding)
    → has_client client (bs ++ b ∷ []) ≡ (has_client client bs || b.client_id == client)
unfolding has_client
has_client-append client [] b = ground arith
has_client-append client (x ∷ bs) b = ground (arith, has_client-append client bs b)

pub has_client-without_client :
    (client gone : String) (bs : List AgentCredentialBinding)
    → has_client client (without_client gone bs) ≡ true
    → has_client client bs ≡ true
unfolding has_client without_client
has_client-without_client client gone [] h = h
has_client-without_client client gone (x ∷ bs) h =
    ground (arith, has_client-without_client client gone bs)
