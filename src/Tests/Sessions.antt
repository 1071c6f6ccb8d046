-- ===== src/Tests/Sessions.antt =====
-- Sessions, event buckets and retention on small contents.
use regenerative_architectur.Base.{
  ◌+◌, ◌≤◌, ◌-◌, ◌*◌, ◌≡◌, ◌≢◌, refl, arith, String, true, false, none, some, List, [], ◌∷◌, find,
  put, remove, length, All, if◌then◌else◌,
}
use regenerative_architectur.Base.Int.{pos}
use regenerative_architectur.Spec.{Time, before}
use regenerative_architectur.Oauth2.Records.{ok}
use regenerative_architectur.Stores.Tenant.{default_tenant}
use regenerative_architectur.Stores.Sessions.{LoginSession, SessionStore, save}
use regenerative_architectur.Stores.AuditEvents.{AuditEventRecord}
use regenerative_architectur.Stores.Buckets.{failed_login, auth_event_bucket_max_buckets}
use regenerative_architectur.Stores.Buckets.Bounds.{Attempt, record_all, length-record_all-le}
use regenerative_architectur.Authentication.StepUp.{step_up_satisfied}
use regenerative_architectur.Authentication.Sessions.{
  session_ttl, context_of, new_session, stepped_up, create_with_pending, record_step_up, resolve,
  revoke_other_sessions,
}
use regenerative_architectur.Authentication.Sessions.Laws.{
  create_with_pending-resolve, record_step_up-opens_gate,
}
use regenerative_architectur.Authentication.Sessions.Others.{Keyed, revoke_other_sessions-left}
use regenerative_architectur.Authentication.Retention.{
  RetentionPolicy, default_retention_policy, day, run_retention_sweep,
}
use regenerative_architectur.Authentication.Retention.Bounds.{run_retention_sweep-young}

-- A time in 2025, in nanoseconds since Go's zero time.
abbrev today : Time
today = 63900000000000000000

acme_named : ◌≢◌ {A = String} "acme" ""
acme_named e = cc

s1_named : ◌≢◌ {A = String} "s1" ""
s1_named e = cc

abbrev session : LoginSession
session = new_session "acme" "s1" "alice" ("pwd" ∷ []) today false

abbrev sessions : SessionStore
sessions = ("s1", session) ∷ []

created :
    create_with_pending today (ok "s1") "acme" "alice" ("pwd" ∷ []) 0 false []
    ≡ (ok (context_of session), sessions)
unfolding create_with_pending put default_tenant remove
created = refl

-- The session of "alice", looked up a second later.
create_with_pending-resolve_example : (resolve (today + 1000000000) "acme" "s1" sessions).0 ≡ (
    if before (today + session_ttl) (today + 1000000000) then none else some (context_of session))
create_with_pending-resolve_example =
    create_with_pending-resolve today (today + 1000000000) "acme" "s1" "alice" ("pwd" ∷ []) 0 false
      [] sessions (context_of session) acme_named s1_named created

abbrev stepped : LoginSession
stepped = stepped_up today session

step_up :
    record_step_up today "acme" "s1" 0 sessions ≡ (some (context_of stepped), save stepped sessions)
unfolding record_step_up find
step_up = refl

session_known : find "s1" sessions ≡ some session
unfolding find
session_known = refl

-- A step-up of the session of "alice".
record_step_up-opens_gate_example :
    ((resolve today "acme" "s1" (save stepped sessions)).0 ≡ some (context_of stepped))
    × (step_up_satisfied today (some (context_of stepped)) 0 ≡ true)
record_step_up-opens_gate_example =
    record_step_up-opens_gate today today today "acme" "s1" 0 0 sessions (save stepped sessions)
      session (context_of stepped) acme_named s1_named session_known refl refl step_up (omega arith)
      (omega arith)

abbrev second_session : LoginSession
second_session = record session { id = "s2" }

abbrev two_sessions : SessionStore
two_sessions = ("s1", session) ∷ ("s2", second_session) ∷ []

keyed : Keyed two_sessions
unfolding find
keyed = (refl, refl, (refl, refl, tt))

-- "alice" ends her other sessions.
revoke_other_sessions-left_example :
    find "s1" (revoke_other_sessions today "alice" "s2" 0 two_sessions).1 ≡ none
unfolding find
revoke_other_sessions-left_example =
    revoke_other_sessions-left today "alice" "s2" "s1" 0 two_sessions keyed

abbrev attempts : List Attempt
attempts = (record { kind = failed_login; tenant = "acme"; hash = "h"; now = today }) ∷ []

-- One failed log-in.
length-record_all-le_example : length (record_all attempts []) ≤ auth_event_bucket_max_buckets
length-record_all-le_example = length-record_all-le attempts [] (omega arith)

abbrev capped : RetentionPolicy
capped = record default_retention_policy { max_days = pos 180 }

abbrev events : List AuditEventRecord
events =
    (record { id = "e1"; type = "UserCreated"; tenant_id = "acme"; occurred_at = 1 })
    ∷ (record { id = "e2"; type = "UserCreated"; tenant_id = "acme"; occurred_at = today })
    ∷ []

-- A sweep under a cap of 180 days.
run_retention_sweep-young_example :
    All
      (λ rec. today - 180 * day ≤ rec.occurred_at)
      (run_retention_sweep capped today events []).1.0
run_retention_sweep-young_example =
    run_retention_sweep-young capped today 180 events [] refl (omega arith) (omega arith)
      (omega arith)
