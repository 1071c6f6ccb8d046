-- ===== src/UseCases/TokenExchange/Exchanged.antt =====
-- What a token exchange that succeeds has checked and issues.
use mathlib.Core.Path.{subst}
use regenerative_architectur.Base.{
  ◌≤◌, ◌≡◌, refl, sym, ap, ◌∙◌, String, true, not, ◌⊎◌, none, some, List, ◌∷◌, ◌==◌, leb, leb→le,
  all_in,
}
use regenerative_architectur.Base.Words.{fields, join}
use regenerative_architectur.Spec.{Time, or_clock}
use regenerative_architectur.Policy.{AuthzResponse}
use regenerative_architectur.Oauth2.Details.{AuthorizationDetail}
use regenerative_architectur.Oauth2.Records.{Oauth2Client, ok}
use regenerative_architectur.Oauth2.Events.{access_token_issued, token_exchanged}
use regenerative_architectur.UseCases.Monad.{World}
use regenerative_architectur.UseCases.Inversion.{
  step_ok, lift_ok, some_ok, guard_else_ok, return_ok,
}
use regenerative_architectur.UseCases.Ports.{Ports}
use regenerative_architectur.UseCases.Senders.{sender_constraint_of, tag_of}
use regenerative_architectur.UseCases.Refresh.{authorize}
use regenerative_architectur.UseCases.Details.{DetailTypes}
use regenerative_architectur.UseCases.Tokens.{IntrospectionResult}
use regenerative_architectur.UseCases.TokenExchange.{
  ExchangeTokenInput, ExchangeTokenResult, Introspector, act_depth, delegate, may_act_allows,
  narrow_scopes, exchange_request, max_delegation_depth, find_subject, find_actor, narrow_details,
  exchanged_token, issue_exchanged, exchange_at, exchange_token,
}
use regenerative_architectur.UseCases.TokenExchange.Checks.{
  narrow_scopes-within, may_act_allows-actor, SubjectFound, find_subject-SubjectFound, ActorFound,
  find_actor-ActorFound, DetailsNarrowed, narrow_details-DetailsNarrowed,
}

module _ (d : Ports) (introspector : Introspector) (types : DetailTypes) (tenant_id : String)
    (input : ExchangeTokenInput) (now : Time) where
  -- The client was permitted, a token was signed for it with these contents, and both events are logged.
  pub record Issued (resource : String) (subject : IntrospectionResult) (actor : String)
      (scopes : List String) (details : List AuthorizationDetail) (r : ExchangeTokenResult)
      (w w' : World) : Type 0 where
    pub c : Oauth2Client
    pub jti : String
    pub decision : AuthzResponse
    pub client : d.find_client tenant_id input.client_id ≡ ok (some c)
    pub asked : authorize d (exchange_request c resource scopes now) ≡ ok decision
    pub permitted : decision.permit ≡ true
    pub signed :
        d.sign_access_token (
          exchanged_token d introspector types tenant_id input now c resource subject actor scopes
            details)
        ≡ ok (r.access_token, jti)
    pub scope : r.scope ≡ join scopes
    pub logged : w' ≡ record w {
      events =
          token_exchanged now tenant_id actor subject.sub resource
            (act_depth (delegate actor subject.act))
          ∷ access_token_issued now tenant_id jti c.client_id subject.sub scopes
              (tag_of (sender_constraint_of input.proof_jkt input.proof_x5t_s256))
          ∷ w.events;
    }

  issue_exchanged-Issued :
      (resource : String) (subject : IntrospectionResult) (actor : String) (scopes : List String)
      (details : List AuthorizationDetail) {r : ExchangeTokenResult} (w : World) {w' : World}
      → issue_exchanged d introspector types tenant_id input now resource subject actor scopes
          details w
        ≡ (ok r, w')
      → Issued resource subject actor scopes details r w w'
  unfolding issue_exchanged
  issue_exchanged-Issued resource subject actor scopes details {r} w {w'} h0 =
      let (found, is_found, h1) = lift_ok (d.find_client tenant_id input.client_id) w _ h0 in
      let (c, is_c, h2) = some_ok found _ w _ refl h1 in
      let (decision, is_decision, h3) =
        lift_ok (authorize d (exchange_request c resource scopes now)) w _ h2 in
      let (permitted, h4) = guard_else_ok decision.permit _ w _ refl h3 in
      let (signed, is_signed, h5) = lift_ok (d.sign_access_token _) w _ h4 in
      let (result, same) = return_ok h5 in
      record {
        c = c;
        jti = signed.1;
        decision = decision;
        client = is_found ∙ ap ok is_c;
        asked = is_decision;
        permitted = permitted;
        signed = is_signed ∙ ap (λ x. ok (x.access_token, signed.1)) result;
        scope = ap (λ x. x.scope) (sym result);
        logged = sym same;
      }

  -- An exchange that succeeds.
  pub record Exchanged (r : ExchangeTokenResult) (w w' : World) : Type 0 where
    pub resource : String
    pub subject : IntrospectionResult
    pub actor : String
    pub scopes : List String
    pub details : List AuthorizationDetail
    pub presented : SubjectFound d introspector types tenant_id input now resource subject
    pub acting : ActorFound d introspector types tenant_id input now actor
    pub may_act : (subject.may_act ≡ none) ⊎ (subject.may_act ≡ some actor)
    pub shallow : act_depth (delegate actor subject.act) ≤ max_delegation_depth
    pub scopes_within : all_in scopes (fields subject.scope) ≡ true
    pub details_within :
        DetailsNarrowed d introspector types tenant_id input now subject.authorization_details
          details
    pub issued : Issued resource subject actor scopes details r w w'

  exchange_at-Exchanged :
      {r : ExchangeTokenResult} (w : World) {w' : World}
      → exchange_at d introspector types tenant_id input now w ≡ (ok r, w')
      → Exchanged r w w'
  unfolding exchange_at
  exchange_at-Exchanged {r} w {w'} h0 =
      let (found, v, is_found, h1) =
        step_ok (find_subject d introspector types tenant_id input now w) _ h0 in
      let (v_same, presented) =
        find_subject-SubjectFound d introspector types tenant_id input now w is_found in
      let (actor, u, is_actor, h2) =
        step_ok (find_actor d introspector types tenant_id input now v) _ h1 in
      let (u_same, acting) =
        find_actor-ActorFound d introspector types tenant_id input now v is_actor in
      let subject = found.1 in
      let (_, h3) = guard_else_ok (not (actor == "")) _ u _ refl h2 in
      let (allowed, h4) = guard_else_ok (may_act_allows subject.may_act actor) _ u _ refl h3 in
      let (shallow, h5) =
        guard_else_ok (leb (act_depth (delegate actor subject.act)) max_delegation_depth) _ u _ refl
          h4 in
      let (scopes, is_scopes, h6) =
        some_ok (narrow_scopes (fields subject.scope) (fields input.scope)) _ u _ refl h5 in
      let (details, t, is_details, h7) =
        step_ok
          (narrow_details d introspector types tenant_id input now actor
            subject.authorization_details input.authorization_details u)
          _ h6 in
      let (t_same, narrowed) =
        narrow_details-DetailsNarrowed d introspector types tenant_id input now actor
          subject.authorization_details input.authorization_details u is_details in
      let unchanged : t ≡ w = sym (v_same ∙ u_same ∙ t_same) in
      record {
        resource = found.0;
        subject = subject;
        actor = actor;
        scopes = scopes;
        details = details;
        presented = presented;
        acting = acting;
        may_act = may_act_allows-actor subject.may_act actor allowed;
        shallow = leb→le _ _ shallow;
        scopes_within = narrow_scopes-within _ _ scopes is_scopes;
        details_within = narrowed;
        issued =
            subst (λ x. Issued found.0 subject actor scopes details r x w') unchanged
              (issue_exchanged-Issued found.0 subject actor scopes details t h7);
      }

-- A token exchange returns a token only for one resource and an active subject token, to the client or to
-- the subject of an active actor token, which must be the one that the subject token's may_act names if
-- it names any, with at most three actors in a chain. The token that is signed is for the subject, for
-- that resource, with the chain of actors, with scopes of the subject token only, and with the subject
-- token's authorization details or details within them; the client was permitted, and both events are
-- logged and nothing else changes.
pub exchange_token-Exchanged :
    (d : Ports) (introspector : Introspector) (types : DetailTypes) (tenant_id : String)
    (input : ExchangeTokenInput) (now : Time) (w w' : World) (r : ExchangeTokenResult)
    → exchange_token d introspector types tenant_id input now w ≡ (ok r, w')
    → Exchanged d introspector types tenant_id input (or_clock d.clock now) r w w'
unfolding exchange_token
exchange_token-Exchanged d introspector types tenant_id input now w w' r h =
    exchange_at-Exchanged d introspector types tenant_id input (or_clock d.clock now) w h
