-- ===== src/UseCases/Code/Flow.antt =====
-- What authorizing leaves in the store.
use mathlib.Core.Path.{subst}
use regenerative_architectur.Base.{
  ◌+◌, none, ◌≡◌, refl, ap, ◌∙◌, String, Bool, true, not, ◌&&◌, some, arith, ◌==◌, eq_iff,
  find-put_self, contains, all_in, inl, inr, Bool-cases, ◌≢◌,
}
use regenerative_architectur.Base.Words.{fields, join}
use regenerative_architectur.Spec.{authorization_code, contains_grant}
use regenerative_architectur.Machines.CodeFlow.{received}
use regenerative_architectur.Stores.AuthorizationRequests.{find_request, save, stored}
use regenerative_architectur.Stores.Tenant.{default_tenant}
use regenerative_architectur.Oauth2.Records.{
  Oauth2Client, AuthorizationRequest, Result, ok, invalid_request,
}
use regenerative_architectur.UseCases.Monad.{World, guard}
use regenerative_architectur.UseCases.Inversion.{step_ok, lift_ok, some_ok, guard_ok, return_ok}
use regenerative_architectur.UseCases.Ports.{Ports, Entropy}
use regenerative_architectur.UseCases.Code.Authorize.{
  AuthorizeRequestInput, AuthorizeRequestOutput, default_scope, optional, known_prompt,
  as_invalid_request, check_authorize_input, check_authorize_client, new_request, authorize,
}

-- What the client's registration says of a request that was let in.
pub record Allowed (d : Ports) (tenant_id : String) (input : AuthorizeRequestInput)
    (c : Oauth2Client) : Type 0 where
  pub client : d.find_client tenant_id input.client_id ≡ ok (some c)
  pub redirect : contains c.redirect_uris input.redirect_uri ≡ true
  pub grant : contains_grant c.grant_types authorization_code ≡ true
  pub scopes : all_in (fields (default_scope input.scope)) (fields c.scope) ≡ true
  pub pushed : c.require_pushed_authorization_requests ≡ true → input.par_used ≡ true

pushed_when_required : (a b : Bool) → not (a && not b) ≡ true → a ≡ true → b ≡ true
pushed_when_required a b h k = ground arith

pub check_authorize_client-Allowed :
    (d : Ports) (tenant_id : String) (input : AuthorizeRequestInput) (w w' : World)
    (c : Oauth2Client)
    → check_authorize_client d tenant_id input w ≡ (ok c, w')
    → (w ≡ w') × Allowed d tenant_id input c
unfolding check_authorize_client
check_authorize_client-Allowed d tenant_id input w w' c h0 =
    let (found, is_found, h1) = lift_ok (d.find_client tenant_id input.client_id) _ _ h0 in
    let (c1, is_client, h2) = some_ok found _ _ _ refl h1 in
    let (redirect, h3) = guard_ok (contains c1.redirect_uris input.redirect_uri) _ _ _ h2 in
    let (grant, h4) = guard_ok (contains_grant c1.grant_types authorization_code) _ _ _ h3 in
    let (scopes, h5) =
      guard_ok (all_in (fields (default_scope input.scope)) (fields c1.scope)) _ _ _ h4 in
    let (pushed, h6) =
      guard_ok (not (c1.require_pushed_authorization_requests && not input.par_used)) _ _ _ h5 in
    let (_, h7) = guard_ok (known_prompt input.prompt) _ _ _ h6 in
    let (same, same_world) = return_ok h7 in
    (
      same_world,
      subst (λ x. Allowed d tenant_id input x) same
          (record {
            client = is_found ∙ ap (λ o. ok o) is_client;
            redirect = redirect;
            grant = grant;
            scopes = scopes;
            pushed = pushed_when_required _ _ pushed;
          }),
    )

given : (s : String) → not (s == "") ≡ true → s ≢ ""
given s h = ground (arith, eq_iff s "")

-- The request that stands for an input: under a drawn identifier, for the tenant, with the input's client,
-- redirect URI, scopes, challenge and parameters, without a user, and good for ten minutes.
pub record RequestOf (d : Ports) (e : Entropy) (tenant_id : String) (input : AuthorizeRequestInput)
    (req : AuthorizationRequest) : Type 0 where
  pub drawn : e.id ≡ ok req.id
  pub tenant : req.tenant_id ≡ default_tenant tenant_id
  pub client : req.client_id ≡ input.client_id
  pub redirect : req.redirect_uri ≡ input.redirect_uri
  pub scope : req.scope ≡ join (fields (default_scope input.scope))
  pub challenge : req.code_challenge ≡ input.code_challenge
  pub state_param : req.state_param ≡ optional input.state_param
  pub nonce : req.nonce ≡ optional input.nonce
  pub prompt : req.prompt ≡ optional input.prompt
  pub max_age : req.max_age ≡ input.max_age
  pub acr_values : req.acr_values ≡ optional input.acr_values
  pub par_request : req.par_request_uri ≡ optional input.par_request_uri
  pub state : req.state ≡ received
  pub user : req.sub ≡ none
  pub until : req.expires_at ≡ d.clock + 600000000000

-- An authorization request that is let in carries an S256 code challenge, and the client's registration
-- has its redirect URI, the authorization code grant and all its scopes, and a pushed request where the
-- client requires one; the request that is stored is the input's.
pub record Accepted (d : Ports) (e : Entropy) (tenant_id : String) (input : AuthorizeRequestInput)
    (out : AuthorizeRequestOutput) (w' : World) : Type 0 where
  pub challenge : input.code_challenge ≢ ""
  pub method : input.code_challenge_method ≡ "S256"
  pub allowed : Allowed d tenant_id input out.client
  pub request_of : RequestOf d e tenant_id input out.request
  pub saved : find_request w'.requests out.request.id ≡ some out.request

new_request-RequestOf :
    (d : Ports) (e : Entropy) (tenant_id : String) (input : AuthorizeRequestInput) (id : String)
    → e.id ≡ ok id
    → RequestOf d e tenant_id input (stored (new_request tenant_id id input d.clock))
unfolding new_request
new_request-RequestOf d e tenant_id input id drawn = record {
  drawn = drawn;
  tenant = refl;
  client = refl;
  redirect = refl;
  scope = refl;
  challenge = refl;
  state_param = refl;
  nonce = refl;
  prompt = refl;
  max_age = refl;
  acr_values = refl;
  par_request = refl;
  state = refl;
  user = refl;
  until = refl;
}

check_authorize_input-ok :
    (input : AuthorizeRequestInput) (w w' : World)
    → check_authorize_input input w ≡ (ok tt, w')
    → (w ≡ w') × (input.code_challenge ≢ "") × (input.code_challenge_method ≡ "S256")
unfolding check_authorize_input
check_authorize_input-ok input w w' h0 =
    let (_, h1) = guard_ok (not (input.client_id == "")) _ _ _ h0 in
    let (_, h2) = guard_ok (not (input.redirect_uri == "")) _ _ _ h1 in
    let (_, h3) = guard_ok (input.response_type == "code") _ _ _ h2 in
    let (challenge, h4) = guard_ok (not (input.code_challenge == "")) _ _ _ h3 in last challenge h4
  where
    last :
        not (input.code_challenge == "") ≡ true
        → guard (input.code_challenge_method == "S256") invalid_request w ≡ (ok tt, w')
        → (w ≡ w') × (input.code_challenge ≢ "") × (input.code_challenge_method ≡ "S256")
    last challenge h = elim (Bool-cases (input.code_challenge_method == "S256")) [
      | inl is ↦ (ap (λ p. p.1) (rw is at h), given _ challenge, (eq_iff _ _).0 is)
      | inr other ↦ absurd (ground (arith, rw other at h))
    ]

-- An authorization request that is let in carries an S256 challenge; the client's registration has
-- its redirect URI, the authorization code grant and all its scopes, and it was pushed where the
-- client requires that. It is stored in the state received under the identifier that was drawn, without
-- a user and good for ten minutes, for the tenant and with the client, redirect URI, scopes, challenge,
-- state, nonce, prompt, age, ACR values and pushed request of the input.
pub authorize-Accepted :
    (d : Ports) (e : Entropy) (details : Result (Unit {0})) (tenant_id : String)
    (input : AuthorizeRequestInput) (w w' : World) (out : AuthorizeRequestOutput)
    → authorize d e details tenant_id input w ≡ (ok out, w')
    → Accepted d e tenant_id input out w'
unfolding authorize save find_request new_request
authorize-Accepted d e details tenant_id input w w' out h0 =
    let (_, v, shaped, h1) = step_ok (check_authorize_input input w) _ h0 in
    let (_, challenge, method) = check_authorize_input-ok input w v shaped in
    let (c, v1, checked, h2) = step_ok (check_authorize_client d tenant_id input v) _ h1 in
    let (_, allowed) = check_authorize_client-Allowed d tenant_id input v v1 c checked in
    let (_, _, h3) = lift_ok details _ _ h2 in
    let (id, drawn, h4) = lift_ok e.id _ _ h3 in
    let req = new_request tenant_id id input d.clock in
    let (_, _, h5) = lift_ok (as_invalid_request (d.validate_request req)) _ _ h4 in
    let (same, same_world) = return_ok h5 in
    record {
      challenge = challenge;
      method = method;
      allowed = subst (λ o. Allowed d tenant_id input o.client) same allowed;
      request_of =
          subst (λ o. RequestOf d e tenant_id input o.request) same
            (new_request-RequestOf d e tenant_id input id drawn);
      saved =
          subst (λ x. find_request x.requests out.request.id ≡ some out.request) same_world
            (subst (λ o. find_request (save req v1.requests) o.request.id ≡ some o.request) same
              (find-put_self req.id (stored req) v1.requests));
    }
