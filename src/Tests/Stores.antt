-- ===== src/Tests/Stores.antt =====
-- The stores on small contents.
use regenerative_architectur.Base.{
  ◌≡◌, refl, arith, ◌+◌, String, true, false, some, List, [], ◌∷◌, find, put, remove,
}
use regenerative_architectur.Spec.{seconds}
use regenerative_architectur.Machines.CodeFlow.{authentication_pending}
use regenerative_architectur.Oauth2.Records.{RefreshTokenRecord, ok}
use regenerative_architectur.Stores.Tenant.{default_tenant}
use regenerative_architectur.Stores.RefreshTokens.{
  RefreshTokenStore, new_refresh_token_store, find_by_hash, rotate,
}
use regenerative_architectur.Stores.RefreshTokens.Invariant.{Linked, IsNew, new-Linked, save-Linked}
use regenerative_architectur.Stores.RefreshTokens.Abstract.{
  Command, save_token, rotate_token, revoke_tokens, perform_all, promise_all, promise, no_tokens,
  IsUnused,
}
use regenerative_architectur.Stores.RefreshTokens.Refinement.{
  Refines, new-Refines, perform_all-Refines,
}
use regenerative_architectur.Stores.AuthorizationCodes.{AuthorizationCodeStore, redeem_code}
use regenerative_architectur.Stores.AuthorizationCodes.Laws.{redeemed_at}
use regenerative_architectur.Stores.AuthorizationRequests.{
  AuthorizationRequestStore, next_state, update_state,
}
use regenerative_architectur.Stores.Replay.{new_replay_store, record_if_new}
use regenerative_architectur.Stores.Replay.Laws.{Call, record_all, record_if_new-once}
use regenerative_architectur.Stores.Par.{ParRecord, ParStore, consume}
use regenerative_architectur.Stores.Throttle.{
  LoginThrottleConfig, LoginAttemptThrottle, account, throttle_key, config_of, record_failure,
}
use regenerative_architectur.Stores.Throttle.Laws.{AtTime, record_failure-locks}
use regenerative_architectur.Tests.Fixtures.{code_record, request_record, token_record, token_store}

linked : Linked token_store
unfolding token_store find
linked =
    save-Linked token_record new_refresh_token_store (record { hash = refl; id = refl }) new-Linked

abbrev next_token : RefreshTokenRecord
next_token = record token_record { id = "id2"; hash = "t2"; parent_id = some "id1" }

next_token-IsNew : IsNew next_token token_store
unfolding token_store find put remove
next_token-IsNew = record { hash = refl; id = refl }

token_known : find_by_hash token_store "t1" ≡ some token_record
unfolding token_store find_by_hash find default_tenant put
token_known = refl

abbrev rotated_store : RefreshTokenStore
rotated_store = (rotate "id1" next_token token_store).1

rotation : rotate "id1" next_token token_store ≡ (ok (some next_token), rotated_store)
unfolding rotate token_store find put default_tenant
rotation = refl

abbrev code_store : AuthorizationCodeStore
code_store = ("c1", code_record) ∷ []

abbrev redeemed_store : AuthorizationCodeStore
redeemed_store = (redeem_code "c1" 1000 code_store).1

redeemed_first :
    redeem_code "c1" 1000 code_store ≡ (ok (some (redeemed_at code_record 1000)), redeemed_store)
unfolding redeem_code find
redeemed_first = refl

abbrev request_store : AuthorizationRequestStore
request_store = ("r1", request_record) ∷ []

abbrev moved_store : AuthorizationRequestStore
moved_store = (update_state "r1" authentication_pending request_store).1

moved : update_state "r1" authentication_pending request_store ≡ (ok tt, moved_store)
unfolding update_state find next_state
moved = refl

abbrev calls : List Call
calls = ("other", 5, 1500) ∷ []

jti_new : (record_if_new 1000 "jti" 5 1000 new_replay_store).0 ≡ true
unfolding record_if_new new_replay_store find
jti_new = refl

-- The jti "jti", seen again after another one was recorded.
record_if_new-once_example :
    (record_if_new 1000 "jti" 5 2000
      (record_all 1000 calls (record_if_new 1000 "jti" 5 1000 new_replay_store).1)).0
    ≡ false
record_if_new-once_example =
    record_if_new-once 1000 "jti" 5 1000 new_replay_store calls 5 2000 jti_new (omega arith, tt)
      (omega arith)

abbrev pushed : ParRecord String
pushed = record {
  request_uri = "urn:1";
  tenant_id = "acme";
  client_id = "web";
  request = "scope=openid";
  expires_at = 2000;
  used = false;
}

abbrev par_store : ParStore String
par_store = ("urn:1", pushed) ∷ []

abbrev consumed_store : ParStore String
consumed_store = (consume 1000 "urn:1" par_store).1

abbrev consumed : ParRecord String
consumed = record pushed { used = true }

consumed_first : consume 1000 "urn:1" par_store ≡ (some consumed, consumed_store)
unfolding consume find
consumed_first = refl

abbrev three_failures : LoginThrottleConfig
three_failures = record { max_failures = 3; window_seconds = 60; lockout_seconds = 300 }

abbrev throttle : LoginAttemptThrottle
throttle = record {
  configs = record { account = three_failures; ip = three_failures };
  counters =
      ("account:alice", record { failures = 1; expires_at = 60000000000 })
      ∷ ("account:bob", record { failures = 2; expires_at = 60000000000 })
      ∷ [];
  locks = [];
}

counted :
    find (throttle_key account "alice") throttle.counters
    ≡ some (record { failures = 1; expires_at = 60000000000 })
unfolding find throttle_key
counted = refl

limits : config_of throttle.configs account ≡ three_failures
unfolding config_of
limits = refl

bob_locked : (record_failure account "bob" 5 throttle).0.allowed ≡ false
unfolding record_failure throttle_key find
bob_locked = refl

-- One more failure of "bob".
record_failure-locks_example :
    AtTime account "bob" 7
      (5 + seconds (config_of throttle.configs account).lockout_seconds)
      (record_failure account "bob" 5 throttle).1
record_failure-locks_example = record_failure-locks account "bob" 5 7 throttle bob_locked

abbrev commands : List Command
commands = save_token token_record ∷ rotate_token "id1" next_token ∷ revoke_tokens "family1" ∷ []

fresh_rotation : IsUnused next_token (promise (save_token token_record) no_tokens).1
unfolding promise
fresh_rotation = (refl, refl)

-- A token is saved, rotated and revoked, from the empty store.
perform_all-Refines_example :
    ((perform_all commands new_refresh_token_store).0 ≡ (promise_all commands no_tokens).0)
    × Refines (perform_all commands new_refresh_token_store).1 (promise_all commands no_tokens).1
perform_all-Refines_example =
    perform_all-Refines commands new_refresh_token_store no_tokens new-Refines
      ((refl, refl), (fresh_rotation, (tt, tt)))
