-- ===== src/Identity/Agents/Drafts.antt =====
-- What an update does to the stored agents.
use regenerative_architectur.Base.{
  ◌≡◌, refl, sym, ◌∙◌, ap, arith, String, false, not, Option, none, some, List, [], ◌∷◌, ◌==◌, find,
  Bool-cases, inl, inr,
}
use regenerative_architectur.Base.Texts.{trim_space}
use regenerative_architectur.Spec.{Time, or_clock}
use regenerative_architectur.Oauth2.Records.{ok}
use regenerative_architectur.Stores.Tenant.{tenant_key}
use regenerative_architectur.Stores.Agents.{Agent, save, is_killed}
use regenerative_architectur.Identity.Results.{bind_ok, guard_ok}
use regenerative_architectur.Identity.Agents.{
  AdminAgentDeps, AgentState, ensure_agent_name_available, ensure_agent_owner, normalize_roles,
}
use regenerative_architectur.Identity.Agents.Update.{
  Draft, UpdateAgentInput, draft_of, update_name, update_description, update_kind, update_owner,
  update_roles, draft_update, update_agent, save_draft,
}
use regenerative_architectur.Identity.Agents.Steps.{identity, Step, unchanged, replaced}
use regenerative_architectur.Identity.Agents.Effects.{ok_inj, returned, find_modifiable_ok}

-- The record of a draft is that of the same agent.
abbrev pub Keeps : Draft → Draft → Type 0
Keeps before_ after_ = identity after_.agent ≡ identity before_.agent

update_name-Keeps :
    (d : AdminAgentDeps) (t : String) (s : AgentState) (a : Agent) (name : Option String)
    (draft draft' : Draft)
    → update_name d t s a name draft ≡ ok draft'
    → Keeps draft draft'
unfolding update_name
update_name-Keeps d t s a none draft draft' h = ap (λ x. identity x.agent) (sym (ok_inj h))
update_name-Keeps d t s a (some text) draft draft' h =
    let (named, h1) = guard_ok (not (trim_space text == "")) "agent name is required" _ h in
    elim (Bool-cases (trim_space text == a.name)) [
      | inl same ↦ let e = rw same at h1 in ap (λ x. identity x.agent) (sym (ok_inj e))
      | inr other ↦
          let e = rw other at h1 in
          let (u, v, h2) = bind_ok (ensure_agent_name_available d t (trim_space text) a.id s) _ e in
          ap (λ x. identity x.agent) (sym (ok_inj h2))
    ]

update_description-Keeps :
    (a : Agent) (text : Option String) (draft : Draft)
    → Keeps draft (update_description a text draft)
unfolding update_description
update_description-Keeps a none draft = refl
update_description-Keeps a (some text) draft = ground arith

update_kind-Keeps :
    (a : Agent) (text : Option String) (draft : Draft) → Keeps draft (update_kind a text draft)
unfolding update_kind
update_kind-Keeps a none draft = refl
update_kind-Keeps a (some text) draft = ground arith

update_owner-Keeps :
    (d : AdminAgentDeps) (t : String) (a : Agent) (owner : Option String) (draft draft' : Draft)
    → update_owner d t a owner draft ≡ ok draft'
    → Keeps draft draft'
unfolding update_owner
update_owner-Keeps d t a none draft draft' h = ap (λ x. identity x.agent) (sym (ok_inj h))
update_owner-Keeps d t a (some text) draft draft' h =
    let (named, h1) = guard_ok (not (trim_space text == "")) "agent owner is required" _ h in
    elim (Bool-cases (trim_space text == a.owner_sub)) [
      | inl same ↦ let e = rw same at h1 in ap (λ x. identity x.agent) (sym (ok_inj e))
      | inr other ↦
          let e = rw other at h1 in
          let (u, v, h2) = bind_ok (ensure_agent_owner d t (trim_space text)) _ e in
          ap (λ x. identity x.agent) (sym (ok_inj h2))
    ]

update_roles-Keeps :
    (a : Agent) (texts : Option (List String)) (draft draft' : Draft)
    → update_roles a texts draft ≡ ok draft'
    → Keeps draft draft'
unfolding update_roles
update_roles-Keeps a none draft draft' h = ap (λ x. identity x.agent) (sym (ok_inj h))
update_roles-Keeps a (some texts) draft draft' h =
    let (roles, collected, h1) = bind_ok (normalize_roles texts) _ h in
    ap (λ x. identity x.agent) (sym (ok_inj h1)) ∙ ground arith

draft_update-Keeps :
    (d : AdminAgentDeps) (t : String) (in_ : UpdateAgentInput) (s : AgentState) (a : Agent)
    (draft : Draft)
    → draft_update d t in_ s a ≡ ok draft
    → Keeps (draft_of a) draft
unfolding draft_update
draft_update-Keeps d t in_ s a draft h =
    let (named, h1, h2) = bind_ok (update_name d t s a in_.name (draft_of a)) _ h in
    let described = update_description a in_.description named in
    let kinded = update_kind a in_.kind described in
    let (owned, h3, h4) = bind_ok (update_owner d t a in_.owner_sub kinded) _ h2 in
    update_roles-Keeps a in_.roles owned draft h4
    ∙ update_owner-Keeps d t a in_.owner_sub kinded owned h3
    ∙ update_kind-Keeps a in_.kind described
    ∙ update_description-Keeps a in_.description named
    ∙ update_name-Keeps d t s a in_.name (draft_of a) named h1

identity_stamped :
    (a : Agent) (now : Time) → identity (record a { updated_at = some now }) ≡ identity a
identity_stamped a now = refl

save_draft-Step :
    (d : AdminAgentDeps) (t : String) (in_ : UpdateAgentInput) (a b : Agent) (s s' : AgentState)
    (draft : Draft) (changed : List String)
    → find (tenant_key t in_.id) s.repo.agents ≡ some a
    → is_killed a.status ≡ false
    → Keeps (draft_of a) draft
    → draft.changed ≡ changed
    → save_draft d t in_ a s draft ≡ ok (b, s')
    → Step t s.repo s'.repo
unfolding save
save_draft-Step d t in_ a b s s' draft [] f alive same e h =
    let h1 = rw e at h in returned t s.repo s' s h1 (unchanged refl)
save_draft-Step d t in_ a b s s' draft (c ∷ cs) f alive same e h =
    let h1 = rw e at h in
    let (u, v, h2) = bind_ok (d.validate_agent _) _ h1 in
    returned t s.repo s' _ h2 (
      replaced (tenant_key t in_.id) a _ f alive
        (identity_stamped draft.agent (or_clock d.clock in_.now) ∙ same) refl)

pub update_agent-Step :
    (d : AdminAgentDeps) (t : String) (in_ : UpdateAgentInput) (s s' : AgentState) (b : Agent)
    → update_agent d t in_ s ≡ ok (b, s')
    → Step t s.repo s'.repo
unfolding update_agent
update_agent-Step d t in_ s s' b h =
    let (a, f, alive, h1) = find_modifiable_ok t in_.id s _ h in
    let (draft, h2, h3) = bind_ok (draft_update d t in_ s a) _ h1 in
    save_draft-Step d t in_ a b s s' draft draft.changed f alive
      (draft_update-Keeps d t in_ s a draft h2) refl h3
