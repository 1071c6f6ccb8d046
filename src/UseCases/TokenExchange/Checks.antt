-- ===== src/UseCases/TokenExchange/Checks.antt =====
-- What the checks of a token exchange that go through have found.
use regenerative_architectur.Base.{
  ◌≡◌, refl, sym, ap, ◌∙◌, String, true, not, ◌⊎◌, inl, inr, some_inj, Option, none, some, List, [],
  ◌∷◌, arith, ◌==◌, eq_iff, all_in, all_in_refl, Bool-cases,
}
use regenerative_architectur.Spec.{Time}
use regenerative_architectur.Oauth2.Details.{
  AuthorizationDetail, AuthorizationDetailType, details_subset_of,
}
use regenerative_architectur.Oauth2.Records.{ok}
use regenerative_architectur.UseCases.Monad.{World}
use regenerative_architectur.UseCases.Inversion.{lift_ok, some_ok, guard_else_ok, return_ok}
use regenerative_architectur.UseCases.Ports.{Ports}
use regenerative_architectur.UseCases.Details.{
  DetailTypes, validate_authorization_details, load_authorization_detail_types,
}
use regenerative_architectur.UseCases.Tokens.{IntrospectionResult}
use regenerative_architectur.UseCases.TokenExchange.{
  ExchangeTokenInput, Introspector, non_empty, single, is_served_type, active_token, may_act_allows,
  narrow_scopes, is_ok, find_subject, find_actor, narrow_details,
}

active_token-some :
    (o : Option IntrospectionResult) (r : IntrospectionResult)
    → active_token o ≡ some r
    → (o ≡ some r) × (r.active ≡ true)
active_token-some none r h = absurd (cc)
active_token-some (some s) r h = elim (Bool-cases s.active) [
  | inl active ↦
      let same : s ≡ r = ground (arith, active) in
      (ap some same, ap (λ x. x.active) (sym same) ∙ active)
  | inr inactive ↦ absurd (ground (arith, inactive))
]

single-some : (vs : List String) (v : String) → single vs ≡ some v → vs ≡ v ∷ []
single-some [] v h = absurd (cc)
single-some (x ∷ []) v h = cc
single-some (x ∷ y ∷ vs) v h = absurd (cc)

pub narrow_scopes-within :
    (subject requested granted : List String)
    → narrow_scopes subject requested ≡ some granted
    → all_in granted subject ≡ true
unfolding narrow_scopes
narrow_scopes-within subject [] granted h =
    ap (λ g. all_in g subject) (sym (some_inj h)) ∙ all_in_refl subject
narrow_scopes-within subject (s ∷ requested) granted h =
    elim (Bool-cases (all_in (s ∷ requested) subject)) [
      | inl within ↦
          let same : s ∷ requested ≡ granted = some_inj (rw (within, narrow_scopes) at h) in
          ap (λ g. all_in g subject) (sym same) ∙ within
      | inr beyond ↦ absurd (cc (rw (beyond, narrow_scopes) at h))
    ]

pub may_act_allows-actor :
    (m : Option String) (actor : String)
    → may_act_allows m actor ≡ true
    → (m ≡ none) ⊎ (m ≡ some actor)
may_act_allows-actor none actor h = inl refl
may_act_allows-actor (some s) actor h = inr (ap some (ground (arith, eq_iff s actor)))

module _ (d : Ports) (introspector : Introspector) (types : DetailTypes) (tenant_id : String)
    (input : ExchangeTokenInput) (now : Time) where
  -- The resource that was asked for, and a subject token that is active.
  pub record SubjectFound (resource : String) (subject : IntrospectionResult) : Type 0 where
    pub one_resource : non_empty input.resource ≡ resource ∷ []
    pub known : introspector input.subject_token ≡ ok (some subject)
    pub is_active : subject.active ≡ true

  pub find_subject-SubjectFound :
      {resource : String} {subject : IntrospectionResult} (w : World) {w' : World}
      → find_subject d introspector types tenant_id input now w ≡ (ok (resource, subject), w')
      → (w ≡ w') × SubjectFound resource subject
  unfolding find_subject
  find_subject-SubjectFound {resource} {subject} w h0 =
      let (res, is_res, h1) = some_ok (single (non_empty input.resource)) _ w _ refl h0 in
      let (_, h2) = guard_else_ok (is_served_type input.requested_token_type) _ w _ refl h1 in
      let (_, h3) = guard_else_ok (not (input.subject_token == "")) _ w _ refl h2 in
      let (_, h4) = guard_else_ok (is_served_type input.subject_token_type) _ w _ refl h3 in
      let (found, is_found, h5) = lift_ok (introspector input.subject_token) w _ h4 in
      let (s, is_s, h6) = some_ok (active_token found) _ w _ refl h5 in
      let (pair, same) = return_ok h6 in
      let (is_some, active) = active_token-some found s is_s in
      (
        same,
        record {
          one_resource = single-some _ _ (is_res ∙ ap (λ p. some p.0) pair);
          known = is_found ∙ ap ok is_some ∙ ap (λ p. ok (some p.1)) pair;
          is_active = ap (λ p. p.1.active) (sym pair) ∙ active;
        },
      )

  -- The actor is the client, or the subject of an actor token that is active.
  abbrev pub ActorFound : String → Type 0
  ActorFound actor =
      ((input.actor_token ≡ "") × (actor ≡ input.client_id))
      ⊎ ((r : IntrospectionResult) × (introspector input.actor_token ≡ ok (some r))
          × (r.active ≡ true)
          × (actor ≡ r.sub))

  pub find_actor-ActorFound :
      {actor : String} (w : World) {w' : World}
      → find_actor d introspector types tenant_id input now w ≡ (ok actor, w')
      → (w ≡ w') × ActorFound actor
  unfolding find_actor
  find_actor-ActorFound {actor} w {w'} h0 = elim (Bool-cases (input.actor_token == "")) [
    | inl absent ↦
        let (is_client, same) = return_ok (rw (absent, find_actor) at h0) in
        (same, inl ((eq_iff input.actor_token "").0 absent, sym is_client))
    | inr given ↦
        let (_, h1) =
          guard_else_ok (is_served_type input.actor_token_type) _ w _ refl
            (rw (given, find_actor) at h0) in
        let (found, is_found, h2) = lift_ok (introspector input.actor_token) w _ h1 in
        let (r, is_r, h3) = some_ok (active_token found) _ w _ refl h2 in
        let (is_actor, same) = return_ok h3 in
        let (is_some, active) = active_token-some found r is_r in
        (same, inr (r, is_found ∙ ap ok is_some, active, sym is_actor))
  ]

  -- The details are the subject's, or within them by the types that are registered.
  abbrev pub DetailsNarrowed : List AuthorizationDetail → List AuthorizationDetail → Type 0
  DetailsNarrowed granted details =
      (details ≡ granted)
      ⊎ ((loaded : List (String × AuthorizationDetailType)) × (load_authorization_detail_types types
              tenant_id details
            ≡ ok loaded)
          × (details_subset_of details granted loaded ≡ true))

  pub narrow_details-DetailsNarrowed :
      (actor : String) (granted requested : List AuthorizationDetail)
      {details : List AuthorizationDetail} (w : World) {w' : World}
      → narrow_details d introspector types tenant_id input now actor granted requested w
        ≡ (ok details, w')
      → (w ≡ w') × DetailsNarrowed granted details
  unfolding narrow_details
  narrow_details-DetailsNarrowed actor granted [] w h0 =
      let (same, w_same) = return_ok h0 in (w_same, inl (sym same))
  narrow_details-DetailsNarrowed actor granted (r ∷ requested) {details} w h0 =
      let asked = r ∷ requested in
      let (_, h1) =
        guard_else_ok (is_ok (validate_authorization_details types tenant_id asked)) _ w _ refl
          h0 in
      let (loaded, is_loaded, h2) =
        lift_ok (load_authorization_detail_types types tenant_id asked) w _ h1 in
      let (within, h3) = guard_else_ok (details_subset_of asked granted loaded) _ w _ refl h2 in
      let (same, w_same) = return_ok h3 in
      (
        w_same,
        inr (
          loaded,
          ap (load_authorization_detail_types types tenant_id) (sym same) ∙ is_loaded,
          ap (λ x. details_subset_of x granted loaded) (sym same) ∙ within,
        ),
      )
