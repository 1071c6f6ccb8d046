-- ===== src/Authentication/Sessions.antt =====
-- authentication/usecases/session_manager.go and sessions.go, over memory/sessions.go. The cookie's value
-- is given: its parsing is left out, and so is the sorting of the list that ListSessions returns.
pub mod Laws
pub mod Others
use regenerative_architectur.Base.{
  ◌+◌, String, Bool, true, false, not, ◌||◌, Option, none, some, List, [], ◌∷◌, ◌++◌, ◌==◌,
  contains, if◌then◌else◌,
}
use regenerative_architectur.Base.Int.{ℤ}
use regenerative_architectur.Spec.{Time, seconds, or_clock, unix}
use regenerative_architectur.Oauth2.Records.{Result, ok, err, internal}
use regenerative_architectur.Stores.Sessions.{
  LoginSession, SessionStore, save, find_session, delete, list_by_sub,
}
use regenerative_architectur.Authentication.Acr.{derive_acr}
use regenerative_architectur.Authentication.StepUp.{AuthenticationContext}

-- SessionTTLSeconds
abbrev pub session_ttl : Time
session_ttl = seconds 3600

abbrev pub context_of : LoginSession → AuthenticationContext
context_of sess = record {
  sub = sess.sub;
  auth_time = sess.auth_time;
  amr = sess.amr;
  acr = sess.acr;
  session_id = sess.id;
  authentication_pending = sess.authentication_pending;
  step_up_at = sess.step_up_at;
}

abbrev pub new_session : String → String → String → List String → Time → Bool → LoginSession
new_session tenant_id id sub amr now pending = record {
  id = id;
  tenant_id = tenant_id;
  sub = sub;
  auth_time = unix now;
  amr = amr;
  acr = derive_acr amr;
  authentication_pending = pending;
  expires_at = now + session_ttl;
  step_up_at = ℤ.pos 0;
}

-- CreateWithPending; `id` is a draw of NewUUIDv4.
unfoldable pub create_with_pending :
    Time
    → Result String
    → String
    → String
    → List String
    → Time
    → Bool
    → SessionStore
    → Result AuthenticationContext × SessionStore
unfolding save
create_with_pending clock (err e) tenant_id sub amr now pending s = (err e, s)
create_with_pending clock (ok id) tenant_id sub amr now pending s =
    let sess = new_session tenant_id id sub amr (or_clock clock now) pending in
    (ok (context_of sess), save sess s)

-- The session of the tenant, or a nil context.
abbrev pub with_session :
    String
    → (LoginSession → SessionStore → Option AuthenticationContext × SessionStore)
    → Option LoginSession × SessionStore
    → Option AuthenticationContext × SessionStore
with_session tenant_id f (none, s) = (none, s)
with_session tenant_id f (some sess, s) =
    if sess.tenant_id == tenant_id then f sess s else (none, s)

-- The loop of CompleteFactor.
unfoldable pub merge_methods : List String → List String → List String
merge_methods merged [] = merged
merge_methods merged (method ∷ additional) =
    merge_methods (if contains merged method then merged else merged ++ method ∷ []) additional

abbrev pub completed : List String → LoginSession → LoginSession
completed merged sess = record sess {
  amr = merged;
  acr = derive_acr merged;
  authentication_pending = false;
}

unfoldable pub complete_factor :
    Time
    → String
    → String
    → List String
    → SessionStore
    → Option AuthenticationContext × SessionStore
unfolding find_session save merge_methods
complete_factor clock tenant_id id additional s =
    with_session tenant_id
      (λ sess t.
        let done = completed (merge_methods sess.amr additional) sess in
        (some (context_of done), save done t))
      (find_session clock id s)

abbrev pub stepped_up : Time → LoginSession → LoginSession
stepped_up now sess = record sess { step_up_at = unix now }

unfoldable pub record_step_up :
    Time → String → String → Time → SessionStore → Option AuthenticationContext × SessionStore
unfolding find_session save
record_step_up clock tenant_id id now s =
    with_session tenant_id
      (λ sess t. if sess.authentication_pending then (none, t) else (
        some (context_of (stepped_up (or_clock clock now) sess)),
        save (stepped_up (or_clock clock now) sess) t,
      ))
      (find_session clock id s)

-- Resolve, from the value of the session cookie.
unfoldable pub resolve :
    Time → String → String → SessionStore → Option AuthenticationContext × SessionStore
unfolding find_session
resolve clock tenant_id sid s =
    if sid == ""
    then (none, s)
    else with_session tenant_id (λ sess t. (some (context_of sess), t)) (find_session clock sid s)

-- Revoke, from the value of the session cookie.
unfoldable pub revoke : String → SessionStore → SessionStore
unfolding delete
revoke sid s = if sid == "" then s else delete sid s

-- The sessions that end, with the time, in the order of their events.
abbrev pub Ended : Type 0
Ended = List (Time × LoginSession)

abbrev end_own :
    String
    → String
    → Time
    → Option LoginSession × SessionStore
    → (Result (Unit {0}) × Ended) × SessionStore
end_own sub id now (none, s) = ((err (internal "session not found"), []), s)
end_own sub id now (some sess, s) =
    if sess.sub == sub
    then ((ok tt, (now, sess) ∷ []), delete id s)
    else ((err (internal "session not found"), []), s)

unfoldable pub revoke_own_session :
    Time → String → String → Time → SessionStore → (Result (Unit {0}) × Ended) × SessionStore
unfolding find_session delete
revoke_own_session clock sub id now s =
    end_own sub id (or_clock clock now) (find_session clock id s)

-- The loop of RevokeOtherSessions.
unfoldable pub end_others : String → Time → List LoginSession → SessionStore → Ended × SessionStore
unfolding delete
end_others keep now [] s = ([], s)
end_others keep now (sess ∷ sessions) s =
    if sess.id == keep
    then end_others keep now sessions s
    else (let (ended, t) = end_others keep now sessions (delete sess.id s) in
        ((now, sess) ∷ ended, t))

abbrev end_listed : String → Time → List LoginSession × SessionStore → Ended × SessionStore
end_listed keep now (sessions, s) = end_others keep now sessions s

unfoldable pub revoke_other_sessions :
    Time → String → String → Time → SessionStore → Ended × SessionStore
unfolding list_by_sub end_others
revoke_other_sessions clock sub keep now s =
    end_listed keep (or_clock clock now) (list_by_sub clock sub s)
