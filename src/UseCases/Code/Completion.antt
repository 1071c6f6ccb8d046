-- ===== src/UseCases/Code/Completion.antt =====
-- What completing a log-in leaves in the stores.
use mathlib.Core.Path.{subst}
use regenerative_architectur.Base.Words.{fields}
use regenerative_architectur.Base.{
  ◌+◌, ◌≤◌, none, some_inj, ◌≡◌, refl, sym, ap, ◌∙◌, String, true, false, not, some, List, arith,
  ◌==◌, eq_iff, find-put_self, inl, inr, Bool-cases,
}
use regenerative_architectur.Base.Int.{ℤ}
use regenerative_architectur.Spec.{Time, before, unix}
use regenerative_architectur.Machines.CodeFlow.{
  AuthorizationCodeFlowState, received, authentication_pending, authenticated, code_issued,
}
use regenerative_architectur.Stores.AuthorizationRequests.{
  AuthorizationRequestStore, find_request, update_state, attach_authentication,
}
use regenerative_architectur.Stores.AuthorizationRequests.Laws.{update_state-find}
use regenerative_architectur.Machines.CodeRecord.{issued}
use regenerative_architectur.Stores.Tenant.{default_tenant}
use regenerative_architectur.Stores.AuthorizationCodes.{AuthorizationCodeStore, find_code, save}
use regenerative_architectur.Oauth2.Records.{
  AuthorizationRequest, AuthorizationCodeRecord, Error, Result, ok, err, oauth, invalid_request,
}
use regenerative_architectur.UseCases.Monad.{World, M, continue, put_requests}
use regenerative_architectur.UseCases.Inversion.{
  step_ok, lift_ok, some_ok, guard_ok, guard_else_ok, return_ok, try_requests_ok,
}
use regenerative_architectur.UseCases.Ports.{Ports, Entropy}
use regenerative_architectur.UseCases.Code.Authorize.{optional}
use regenerative_architectur.UseCases.Code.Login.{
  CompleteLoginInput, CompleteLoginOutput, is_received, check_request, run_flow, login_code,
  complete_login,
}

attach-find :
    (id sub : String) (time : ℤ) (amr : List String) (acr : String) (s : AuthorizationRequestStore)
    {t : AuthorizationRequestStore} (req : AuthorizationRequest)
    → find_request s id ≡ some req
    → attach_authentication id sub time amr acr s ≡ (ok tt, t)
    → find_request t id
      ≡ some (record req { sub = some sub; auth_time = some time; amr = amr; acr = some acr })
unfolding attach_authentication find_request
attach-find id sub time amr acr s {t} req found h = ground (
  arith,
  found,
  h,
  find-put_self id (record req { sub = some sub; auth_time = some time; amr = amr; acr = some acr })
      s,
)

-- The code of a completed log-in: of the request's client, redirect URI, challenge, nonce and scopes, for
-- the user who logged in, not used, with the text that was drawn, and good for a minute.
pub record CodeOf (d : Ports) (e : Entropy) (input : CompleteLoginInput)
    (req : AuthorizationRequest) (code : AuthorizationCodeRecord) : Type 0 where
  pub drawn : e.token ≡ ok code.code
  pub tenant : code.tenant_id ≡ req.tenant_id
  pub request : code.authorization_request_id ≡ req.id
  pub client : code.client_id ≡ req.client_id
  pub redirect : code.redirect_uri ≡ req.redirect_uri
  pub challenge : code.code_challenge ≡ req.code_challenge
  pub nonce : code.nonce ≡ req.nonce
  pub scopes : code.scopes ≡ fields req.scope
  pub user : code.sub ≡ input.sub
  pub auth_time : code.auth_time ≡ unix input.auth_time
  pub amr : code.amr ≡ input.amr
  pub acr : code.acr ≡ optional input.acr
  pub unused : code.state ≡ issued
  pub unlinked : code.issued_family_id ≡ none
  pub until : code.expires_at ≡ d.clock + 60000000000

-- A log-in that was completed: its request was received by the tenant and its time had not passed, and it
-- is now at code_issued with the user and the time of the log-in attached; the code is the request's, and
-- it is found in the store.
pub record Completed (d : Ports) (e : Entropy) (tenant_id : String) (input : CompleteLoginInput)
    (w w' : World) (out : CompleteLoginOutput) : Type 0 where
  pub req : AuthorizationRequest
  pub known : find_request w.requests input.request_id ≡ some req
  pub tenant : req.tenant_id ≡ tenant_id
  pub in_time : d.clock ≤ req.expires_at
  pub fresh : req.state ≡ received
  pub code_of : CodeOf d e input req out.code
  pub saved :
      find_code w'.codes out.code.code
      ≡ some (record (out.code) { tenant_id = default_tenant tenant_id })
  pub after : AuthorizationRequest
  pub now_known : find_request w'.requests input.request_id ≡ some after
  pub advanced : after.state ≡ code_issued
  pub user : after.sub ≡ some input.sub
  pub time : after.auth_time ≡ some (unix input.auth_time)
  pub same_tenant : after.tenant_id ≡ tenant_id

still_in_time : (until clock : Time) → not (before until clock) ≡ true → clock ≤ until
still_in_time until clock h = ground arith

received_state : (s : AuthorizationCodeFlowState) → is_received s ≡ true → s ≡ received
received_state received h = refl
received_state _ h = absurd (ground arith)

check_request-ok :
    (d : Ports) (tenant_id id : String) (w w' : World) (req : AuthorizationRequest)
    → check_request d tenant_id id w ≡ (ok req, w')
    → (w ≡ w')
      × (find_request w.requests id ≡ some req)
      × (req.tenant_id ≡ tenant_id)
      × (d.clock ≤ req.expires_at)
      × (req.state ≡ received)
unfolding check_request
check_request-ok d tenant_id id w w' req h0 =
    let (r1, known, h1) = some_ok (find_request w.requests id) _ _ _ refl h0 in
    let (tenant, h2) = guard_ok (r1.tenant_id == tenant_id) _ _ _ h1 in
    let (in_time, h3) = guard_else_ok (not (before r1.expires_at d.clock)) _ w _ refl h2 in
    let (fresh, h4) = guard_ok (is_received r1.state) _ _ _ h3 in
    let (same, same_world) = return_ok h4 in
    (
      same_world,
      known ∙ ap (λ r. some r) same,
      ap (λ r. r.tenant_id) (sym same) ∙ (eq_iff _ _).0 tenant,
      subst (λ r. d.clock ≤ r.expires_at) same (still_in_time _ _ in_time),
      ap (λ r. r.state) (sym same) ∙ received_state _ fresh,
    )

last_update :
    (r : Result (Unit {0}) × AuthorizationRequestStore) (w w' : World)
    → put_requests r w ≡ (ok tt, w')
    → r ≡ (ok tt, w'.requests)
last_update (ok u, s) w w' h = ap (λ x. (ok tt, x.1.requests)) h
last_update (err e, s) w w' h = cc

-- The request under an identifier, after the flow was run over it.
run_flow-find :
    (req : AuthorizationRequest) (input : CompleteLoginInput) (w w' : World)
    → find_request w.requests req.id ≡ some req
    → run_flow req input w ≡ (ok tt, w')
    → (r : AuthorizationRequest) × (find_request w'.requests req.id ≡ some r)
      × (r.state ≡ code_issued)
      × (r.sub ≡ some input.sub)
      × (r.auth_time ≡ some (unix input.auth_time))
      × (r.tenant_id ≡ req.tenant_id)
unfolding run_flow
run_flow-find req input w w' known h0 =
    let (_, s1, e1, h1) =
      try_requests_ok (update_state req.id authentication_pending w.requests) w _ h0 in
    let (r1, was1, is1, _) = update_state-find req.id authentication_pending w.requests e1 in
    let (_, s2, e2, h2) =
      try_requests_ok (update_state req.id authenticated s1) (record w { requests = s1 }) _ h1 in
    let (r2, was2, is2, _) = update_state-find req.id authenticated s1 e2 in
    let (_, s3, e3, h3) =
      try_requests_ok
        (attach_authentication req.id input.sub (unix input.auth_time) input.amr input.acr s2)
        (record w { requests = s2 }) _ h2 in
    let is3 = attach-find req.id input.sub (unix input.auth_time) input.amr input.acr s2 _ is2 e3 in
    let e4 = last_update (update_state req.id code_issued s3) (record w { requests = s3 }) w' h3 in
    let (r4, was4, is4, _) = update_state-find req.id code_issued s3 e4 in
    let back4 = some_inj (sym was4 ∙ is3) in
    let back2 = some_inj (sym was2 ∙ is1) in
    let back1 = some_inj (sym was1 ∙ known) in
    (
      record r4 { state = code_issued },
      is4,
      refl,
      ap (λ r. r.sub) back4,
      ap (λ r. r.auth_time) back4,
      ap (λ r. r.tenant_id) back4 ∙ ap (λ r. r.tenant_id) back2 ∙ ap (λ r. r.tenant_id) back1,
    )

login_code-CodeOf :
    (d : Ports) (e : Entropy) (req : AuthorizationRequest) (input : CompleteLoginInput)
    (value : String)
    → e.token ≡ ok value
    → CodeOf d e input req (login_code req input value d.clock)
unfolding login_code
login_code-CodeOf d e req input value drawn = record {
  drawn = drawn;
  tenant = refl;
  request = refl;
  client = refl;
  redirect = refl;
  challenge = refl;
  nonce = refl;
  scopes = refl;
  user = refl;
  auth_time = refl;
  amr = refl;
  acr = refl;
  unused = refl;
  unlinked = refl;
  until = refl;
}

find_code-save :
    (code : AuthorizationCodeRecord) (tenant_id : String) (s : AuthorizationCodeStore)
    → code.tenant_id ≡ tenant_id
    → find_code (save code s) code.code
      ≡ some (record code { tenant_id = default_tenant tenant_id })
unfolding find_code save
find_code-save code tenant_id s e =
    find-put_self code.code (record code { tenant_id = default_tenant code.tenant_id }) s
    ∙ ap (λ t. some (record code { tenant_id = default_tenant t })) e

-- A log-in that is completed: the request was received by the tenant, not used before and its time had
-- not passed; it is left at code_issued with the user and the time of the log-in attached. The code that
-- is returned is found in the store; it was drawn, is not used and good for a minute, and carries the
-- user and the request's client, redirect URI, challenge, nonce and scopes. The request is stored under
-- its own identifier.
pub complete_login-Completed :
    (d : Ports) (e : Entropy) (tenant_id : String) (input : CompleteLoginInput) (w w' : World)
    (out : CompleteLoginOutput) (req : AuthorizationRequest)
    → complete_login d e tenant_id input w ≡ (ok out, w')
    → find_request w.requests input.request_id ≡ some req
    → req.id ≡ input.request_id
    → Completed d e tenant_id input w w' out
unfolding complete_login login_code
complete_login-Completed d e tenant_id input w w' out req h0 known key =
    let (r, v, checked, h1) = step_ok (check_request d tenant_id input.request_id w) _ h0 in
    let (same_w, known_r, tenant, in_time, fresh) =
      check_request-ok d tenant_id input.request_id w v r checked in
    let same_r : r ≡ req = some_inj (sym known_r ∙ known) in
    let key_r : r.id ≡ input.request_id = ap (λ x. x.id) same_r ∙ key in
    let (_, v1, ran, h2) = step_ok (run_flow r input v) _ h1 in
    let there : find_request v.requests r.id ≡ some r =
      ap (λ k. find_request v.requests k) key_r
      ∙ ap (λ x. find_request x.requests input.request_id) (sym same_w)
      ∙ known_r in
    let (after, now_known, advanced, user, time, kept) = run_flow-find r input v v1 there ran in
    let (value, drawn, h3) = lift_ok e.token _ _ h2 in
    let code = login_code r input value d.clock in
    let (_, _, h4) = lift_ok (d.validate_code code) v1 _ h3 in
    let (same_out, same_w') = return_ok h4 in
    record {
      req = r;
      known = known_r;
      tenant = tenant;
      fresh = fresh;
      in_time = in_time;
      code_of =
          subst (λ o. CodeOf d e input r o.code) same_out
            (login_code-CodeOf d e r input value drawn);
      saved =
          subst
            (λ x.
              find_code x.codes out.code.code
              ≡ some (record (out.code) { tenant_id = default_tenant tenant_id }))
            same_w'
            (subst
              (λ o.
                find_code (save code v1.codes) o.code.code
                ≡ some (record (o.code) { tenant_id = default_tenant tenant_id }))
              same_out (find_code-save code tenant_id v1.codes tenant));
      after = after;
      now_known =
          ap (λ x. find_request x.requests input.request_id) (sym same_w')
          ∙ ap (λ k. find_request v1.requests k) (sym key_r)
          ∙ now_known;
      advanced = advanced;
      user = user;
      time = time;
      same_tenant = kept ∙ tenant;
    }

check_request-used :
    (d : Ports) (tenant_id id : String) (w : World) (req : AuthorizationRequest)
    → find_request w.requests id ≡ some req
    → req.tenant_id ≡ tenant_id
    → is_received req.state ≡ false
    → (check_request d tenant_id id w).0 ≡ err (oauth invalid_request)
unfolding check_request
check_request-used d tenant_id id w req known tenant used =
    elim (Bool-cases (before req.expires_at d.clock)) [
      | inl late ↦ rw known (rw ((eq_iff _ _).1 tenant) (rw late refl))
      | inr in_time ↦ rw known (rw ((eq_iff _ _).1 tenant) (rw in_time (rw used refl)))
    ]

step-err :
    {A B : Type 0} (r : Result A × World) (f : A → M B) {x : Error}
    → r.0 ≡ err x
    → (continue r f).0 ≡ err x
step-err (ok a, w) f h = cc
step-err (err e, w) f h = cc

-- An authorization request gives at most one code: once a log-in over it was completed, completing
-- another one over it, for any user and at any time, is refused with invalid_request. The request is
-- stored under its own identifier.
pub complete_login-once :
    (d d' : Ports) (e e' : Entropy) (tenant_id : String) (input input' : CompleteLoginInput)
    (w w' : World) (out : CompleteLoginOutput) (req : AuthorizationRequest)
    → complete_login d e tenant_id input w ≡ (ok out, w')
    → find_request w.requests input.request_id ≡ some req
    → req.id ≡ input.request_id
    → input'.request_id ≡ input.request_id
    → (complete_login d' e' tenant_id input' w').0 ≡ err (oauth invalid_request)
unfolding complete_login
complete_login-once d d' e e' tenant_id input input' w w' out req h known key same =
    let done = complete_login-Completed d e tenant_id input w w' out req h known key in
    step-err (check_request d' tenant_id input'.request_id w') _ (
      check_request-used d' tenant_id input'.request_id w' done.after
        (ap (λ i. find_request w'.requests i) same ∙ done.now_known) done.same_tenant
        (ap (λ s. is_received s) done.advanced))
