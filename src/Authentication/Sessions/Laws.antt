-- ===== src/Authentication/Sessions/Laws.antt =====
-- How long a session is resolved, and what a step-up and a mass revocation leave.
use regenerative_architectur.Base.{
  ◌+◌, ◌≡◌, ◌≢◌, refl, sym, ap, ◌∙◌, String, Bool, true, false, inl, inr, some_inj, Option, none,
  some, List, arith, ◌==◌, eq_iff, find, find-put_self, Bool-cases, if◌then◌else◌,
}
use regenerative_architectur.Base.Int.{pos, ◌-ℤ◌, ◌≤ℤ◌}
use regenerative_architectur.Spec.{Time, before, or_clock, unix}
use regenerative_architectur.Oauth2.Records.{ok}
use regenerative_architectur.Stores.Tenant.{default_tenant}
use regenerative_architectur.Stores.Sessions.{
  LoginSession, SessionStore, stored, save, find_session, unless_expired,
}
use regenerative_architectur.Authentication.StepUp.{
  AuthenticationContext, step_up_satisfied, step_up_satisfied_iff,
}
use regenerative_architectur.Authentication.Sessions.{
  session_ttl, context_of, new_session, create_with_pending, stepped_up, with_session,
  record_step_up, resolve,
}

-- A stored session is resolved for its tenant until its expiry has passed.
resolve-save :
    (clock : Time) (tenant_id : String) (sess : LoginSession) (s : SessionStore)
    → tenant_id ≢ ""
    → sess.id ≢ ""
    → sess.tenant_id ≡ tenant_id
    → (resolve clock tenant_id sess.id (save sess s)).0
      ≡ (if before sess.expires_at clock then none else some (context_of sess))
unfolding resolve save find_session default_tenant
resolve-save clock tenant_id sess s named given same = rw (find-put_self sess.id (stored sess) s) (
    ground (
      arith,
      eq_iff sess.id "",
      eq_iff sess.tenant_id "",
      eq_iff sess.tenant_id tenant_id,
      eq_iff (stored sess).tenant_id tenant_id,
    ))

-- A session that was created is resolved by its identifier, for its tenant, to the context that the
-- creation returned, until an hour after its creation has passed, and not afterwards.
pub create_with_pending-resolve :
    (clock clock' : Time) (tenant_id id sub : String) (amr : List String) (now : Time)
    (pending : Bool) (s s' : SessionStore) (ctx : AuthenticationContext)
    → tenant_id ≢ ""
    → id ≢ ""
    → create_with_pending clock (ok id) tenant_id sub amr now pending s ≡ (ok ctx, s')
    → (resolve clock' tenant_id id s').0
      ≡ (if before (or_clock clock now + session_ttl) clock' then none else some ctx)
unfolding create_with_pending
create_with_pending-resolve clock clock' tenant_id id sub amr now pending s s' ctx named given h =
    let sess = new_session tenant_id id sub amr (or_clock clock now) pending in
    let same : context_of sess ≡ ctx = cc in
    let saved : save sess s ≡ s' = cc in
    ap (λ t. (resolve clock' tenant_id id t).0) (sym saved)
    ∙ resolve-save clock' tenant_id sess s named given refl
    ∙ ap (λ c. if before (or_clock clock now + session_ttl) clock' then none else some c) same

with_session-some :
    (tenant_id : String)
    (f : LoginSession → SessionStore → Option AuthenticationContext × SessionStore)
    (r : Option LoginSession × SessionStore) {ctx : AuthenticationContext} {s' : SessionStore}
    → with_session tenant_id f r ≡ (some ctx, s')
    → (sess : LoginSession) × (t : SessionStore) × (r ≡ (some sess, t))
      × (sess.tenant_id ≡ tenant_id)
      × (f sess t ≡ (some ctx, s'))
with_session-some tenant_id f (none, t) h = absurd (cc)
with_session-some tenant_id f (some sess, t) h = elim (Bool-cases (sess.tenant_id == tenant_id)) [
  | inl same ↦ (sess, t, refl, (eq_iff sess.tenant_id tenant_id).0 same, rw same at h)
  | inr other ↦ absurd (cc (rw other at h))
]

unless_expired-some :
    (clock : Time) (id : String) (o : Option LoginSession) (s t : SessionStore)
    (sess : LoginSession)
    → unless_expired clock id o s ≡ (some sess, t)
    → (o ≡ some sess) × (t ≡ s)
unless_expired-some clock id none s t sess h = absurd (cc)
unless_expired-some clock id (some x) s t sess h = elim (Bool-cases (before x.expires_at clock)) [
  | inl late ↦ absurd (cc (rw late at h))
  | inr in_time ↦ let same = rw in_time at h in (cc, cc)
]

-- What a step-up that is recorded has found, and what it leaves.
record_step_up-stepped :
    (clock : Time) (tenant_id id : String) (now : Time) (s s' : SessionStore)
    (ctx : AuthenticationContext)
    → record_step_up clock tenant_id id now s ≡ (some ctx, s')
    → (sess : LoginSession) × (find id s ≡ some sess)
      × (sess.tenant_id ≡ tenant_id)
      × (sess.authentication_pending ≡ false)
      × (ctx ≡ context_of (stepped_up (or_clock clock now) sess))
      × (s' ≡ save (stepped_up (or_clock clock now) sess) s)
unfolding record_step_up find_session
record_step_up-stepped clock tenant_id id now s s' ctx h =
    let (sess, t, found, tenant, done) =
      with_session-some tenant_id _ (unless_expired clock id (find id s) s) h in
    let (known, same) = unless_expired-some clock id (find id s) s t sess found in
    elim (Bool-cases sess.authentication_pending) [
      | inl pending ↦ absurd (cc (rw pending at done))
      | inr complete ↦
          let e = rw complete at done in (sess, known, tenant, complete, cc, cc (same, e))
    ]

-- A recorded step-up opens the gate for 300 seconds: a session of the tenant whose step-up was recorded
-- is resolved by its identifier, while it has not expired, to the context that the step-up returned, and
-- with it the operations that need a recent authentication are allowed at every time that is at most 300
-- seconds later. The step-up lies after 1970.
pub record_step_up-opens_gate :
    (clock clock' clock'' : Time) (tenant_id id : String) (now now' : Time) (s s' : SessionStore)
    (sess : LoginSession) (ctx : AuthenticationContext)
    → tenant_id ≢ ""
    → id ≢ ""
    → find id s ≡ some sess
    → sess.id ≡ id
    → before sess.expires_at clock' ≡ false
    → record_step_up clock tenant_id id now s ≡ (some ctx, s')
    → pos 1 ≤ℤ unix (or_clock clock now)
    → unix (or_clock clock'' now') -ℤ unix (or_clock clock now) ≤ℤ pos 300
    → ((resolve clock' tenant_id id s').0 ≡ some ctx)
      × (step_up_satisfied clock'' (some ctx) now' ≡ true)
record_step_up-opens_gate clock clock' clock'' tenant_id id now now' s s' sess ctx named given known
      key live h after recent =
    let (x, is_x, tenant, complete, is_ctx, saved) =
      record_step_up-stepped clock tenant_id id now s s' ctx h in
    let same : x ≡ sess = some_inj (sym is_x ∙ known) in
    let done = stepped_up (or_clock clock now) sess in
    let ctx_of : ctx ≡ context_of done =
      is_ctx ∙ ap (λ y. context_of (stepped_up (or_clock clock now) y)) same in
    let s'_of : s' ≡ save done s =
      saved ∙ ap (λ y. save (stepped_up (or_clock clock now) y) s) same in
    let found : (resolve clock' tenant_id id s').0 ≡ some (context_of done) =
      ap (λ t. (resolve clock' tenant_id id t).0) s'_of
      ∙ ap (λ k. (resolve clock' tenant_id k (save done s)).0) (sym key)
      ∙ resolve-save clock' tenant_id done s named (λ e. given (sym key ∙ e))
          (ap (λ y. y.tenant_id) (sym same) ∙ tenant)
      ∙ ap (λ b. if b then none else some (context_of done)) live in
    let finished : ctx.authentication_pending ≡ false =
      ap (λ c. c.authentication_pending) is_ctx ∙ complete in
    let stamp : unix (or_clock clock now) ≡ ctx.step_up_at = sym (ap (λ c. c.step_up_at) ctx_of) in
    (
      found ∙ ap some (sym ctx_of),
      (step_up_satisfied_iff clock'' ctx now').1 (finished, inr (rw (sym stamp) (after, recent))),
    )
