-- ===== src/Identity/Agents/Update.antt =====
-- UpdateAgent: one stage per field, on a draft of the updated record.
use regenerative_architectur.Base.{
  String, Bool, true, false, not, Option, none, some, List, [], ◌∷◌, ◌++◌, ◌==◌, if◌then◌else◌,
}
use regenerative_architectur.Base.Texts.{trim_space}
use regenerative_architectur.Spec.{Time, or_clock}
use regenerative_architectur.Oauth2.Records.{Result, ok}
use regenerative_architectur.Stores.Agents.{AgentKind, autonomous, supervised, Agent, save}
use regenerative_architectur.Identity.Results.{◌>>=◌, ◌>>◌, return, guard}
use regenerative_architectur.Identity.Agents.{
  AdminAgentDeps, AgentState, Outcome, emit, updated, owner_changed, normalize_agent_kind,
  normalize_description, normalize_roles, ensure_agent_name_available, ensure_agent_owner,
  find_modifiable,
}

pub record UpdateAgentInput : Type 0 where
  pub actor_sub : String
  pub id : String
  pub name : Option String
  pub description : Option String
  pub kind : Option String
  pub owner_sub : Option String
  pub roles : Option (List String)
  pub now : Time

-- The updated record and the changed fields.
pub record Draft : Type 0 where
  pub agent : Agent
  pub changed : List String

abbrev pub draft_of : Agent → Draft
draft_of a = record { agent = a; changed = [] }

-- Changes a field of the draft, and notes its name.
abbrev pub note : String → Agent → Draft → Draft
note field a draft = record { agent = a; changed = draft.changed ++ field ∷ [] }

unfoldable pub equal_optional_string : Option String → Option String → Bool
equal_optional_string none none = true
equal_optional_string (some x) (some y) = x == y
equal_optional_string _ _ = false

abbrev kind_eq : AgentKind → AgentKind → Bool
kind_eq autonomous autonomous = true
kind_eq supervised supervised = true
kind_eq _ _ = false

unfoldable pub equal_texts : List String → List String → Bool
equal_texts [] [] = true
equal_texts (x ∷ xs) (y ∷ ys) = let rest = equal_texts xs ys in if x == y then rest else false
equal_texts _ _ = false

unfoldable pub update_name :
    AdminAgentDeps → String → AgentState → Agent → Option String → Draft → Result Draft
unfolding trim_space ensure_agent_name_available
update_name d tenant_id s a none draft = ok draft
update_name d tenant_id s a (some text) draft = do
  let name = trim_space text
  guard (not (name == "")) "agent name is required"
  if name == a.name then ok draft else do
    ensure_agent_name_available d tenant_id name a.id s
    return (note "name" (record draft.agent { name = name }) draft)

unfoldable pub update_description : Agent → Option String → Draft → Draft
unfolding normalize_description equal_optional_string
update_description a none draft = draft
update_description a (some text) draft =
    let description = normalize_description (some text) in
    if equal_optional_string a.description description
    then draft
    else note "description" (record draft.agent { description = description }) draft

unfoldable pub update_kind : Agent → Option String → Draft → Draft
unfolding normalize_agent_kind
update_kind a none draft = draft
update_kind a (some text) draft =
    let kind = normalize_agent_kind (some text) in
    if kind_eq kind a.kind then draft else note "kind" (record draft.agent { kind = kind }) draft

unfoldable pub update_owner : AdminAgentDeps → String → Agent → Option String → Draft → Result Draft
unfolding trim_space ensure_agent_owner
update_owner d tenant_id a none draft = ok draft
update_owner d tenant_id a (some text) draft = do
  let owner = trim_space text
  guard (not (owner == "")) "agent owner is required"
  if owner == a.owner_sub then ok draft else do
    ensure_agent_owner d tenant_id owner
    return (note "owner_sub" (record draft.agent { owner_sub = owner }) draft)

unfoldable pub update_roles : Agent → Option (List String) → Draft → Result Draft
unfolding normalize_roles equal_texts
update_roles a none draft = ok draft
update_roles a (some texts) draft = do
  roles ← normalize_roles texts
  return (
      if equal_texts roles a.roles
      then draft
      else note "roles" (record draft.agent { roles = roles }) draft)

-- The owner of the draft differs from the agent's exactly if the stage of the owner changed it.
abbrev update_events : String → UpdateAgentInput → Time → Agent → Draft → AgentState → AgentState
update_events tenant_id in_ now a draft s =
    let noted = emit (updated now a.tenant_id in_.actor_sub a.id draft.changed) s.events in
    record s {
      events =
          if draft.agent.owner_sub == a.owner_sub
          then noted
          else emit
              (owner_changed now a.tenant_id in_.actor_sub a.id a.owner_sub draft.agent.owner_sub)
              noted;
    }

abbrev pub save_draft :
    AdminAgentDeps → String → UpdateAgentInput → Agent → AgentState → Draft → Outcome Agent
save_draft d tenant_id in_ a s draft = elim draft.changed [
  | [] ↦ ok (draft.agent, s)
  | field ∷ fields ↦ (do
    let now = or_clock d.clock in_.now
    let saved = record draft.agent { updated_at = some now }
    d.validate_agent saved
    return (saved, update_events tenant_id in_ now a draft (record s { repo = save saved s.repo })))
]

-- The stages in the order of the source.
unfoldable pub draft_update :
    AdminAgentDeps → String → UpdateAgentInput → AgentState → Agent → Result Draft
unfolding update_name update_description update_kind update_owner update_roles
draft_update d tenant_id in_ s a = do
  named ← update_name d tenant_id s a in_.name (draft_of a)
  owned ←
      update_owner d tenant_id a in_.owner_sub
        (update_kind a in_.kind (update_description a in_.description named))
  update_roles a in_.roles owned

unfoldable pub update_agent :
    AdminAgentDeps → String → UpdateAgentInput → AgentState → Outcome Agent
unfolding draft_update save
update_agent d tenant_id in_ s = do
  a ← find_modifiable tenant_id in_.id s
  draft ← draft_update d tenant_id in_ s a
  save_draft d tenant_id in_ a s draft
