-- ===== src/Tests/Code.antt =====
-- The authorization code grant on the deployment of the fixtures.
use mathlib.Core.Path.{subst}
use regenerative_architectur.Base.{
  ◌≡◌, ◌≢◌, refl, String, false, none, some, [], find, put, remove, true, contains, all_in,
}
use regenerative_architectur.Machines.CodeFlow.{code_issued}
use regenerative_architectur.Spec.{unix}
use regenerative_architectur.Base.Words.{join, fields, scan, extend, is_space}
use regenerative_architectur.Spec.{contains_grant}
use regenerative_architectur.Oauth2.Records.{
  AuthorizationCodeRecord, RefreshTokenRecord, Result, ok, err, oauth, invalid_grant,
  invalid_request, is_active,
}
use regenerative_architectur.Stores.AuthorizationCodes.{find_code, redeem_code, link_family}
use regenerative_architectur.Stores.AuthorizationRequests.{
  stored, find_request, update_state, attach_authentication, next_state,
}
use regenerative_architectur.Stores.RefreshTokens.{find_by_hash, new_refresh_token_store}
use regenerative_architectur.Stores.RefreshTokens.Invariant.{Linked, new-Linked, save-Linked}
use regenerative_architectur.UseCases.Refresh.Rotation.{IsFresh}
use regenerative_architectur.UseCases.Monad.{World}
use regenerative_architectur.UseCases.Refresh.{generate_initial_refresh_token}
use regenerative_architectur.UseCases.Code.{
  AuthorizeRequestInput, AuthorizeRequestOutput, authorize, new_request, CompleteLoginInput,
  CompleteLoginOutput, complete_login, login_code, ExchangeCodeInput, ExchangeCodeOutput,
  verify_pkce_s256, exchange_code_for_token,
}
use regenerative_architectur.UseCases.Code.Checks.{revoke_linked}
use regenerative_architectur.UseCases.Code.Once.{
  Exchanged, exchange_code_for_token-Exchanged, exchange_code_for_token-once,
}
use regenerative_architectur.UseCases.Code.Replay.{exchange_code_for_token-replay_revokes}
use regenerative_architectur.UseCases.Code.Flow.{Accepted, authorize-Accepted}
use regenerative_architectur.UseCases.Code.Completion.{
  Completed, complete_login-Completed, complete_login-once,
}
use regenerative_architectur.Tests.Fixtures.{
  ports, draws, web, code_record, request_record, token_record, token_store, world,
}

abbrev input : ExchangeCodeInput
input = record {
  client_id = "web";
  code = "c1";
  code_verifier = "v1";
  redirect_uri = "https://app";
  dpop_jkt = "";
  mtls_x5t_s256 = "";
}

abbrev output : ExchangeCodeOutput
output = record {
  access_token = "access";
  id_token = "id";
  refresh_token = "t2";
  token_type = "Bearer";
  expires_in = 600;
  scope = "openid offline_access";
}

abbrev after : World
after = (exchange_code_for_token ports draws "acme" input world).1

exchanged : exchange_code_for_token ports draws "acme" input world ≡ (ok output, after)
unfolding exchange_code_for_token world find_code find put is_active redeem_code contains join
    verify_pkce_s256 generate_initial_refresh_token link_family update_state
exchanged = refl

-- The code "c1" was exchanged.
exchange_code_for_token-Exchanged_example : Exchanged ports "acme" input world after
exchange_code_for_token-Exchanged_example =
    exchange_code_for_token-Exchanged ports draws "acme" input world after output exchanged

code_given : ◌≢◌ {A = String} "c1" ""
code_given e = cc

verifier_given : ◌≢◌ {A = String} "v1" ""
verifier_given e = cc

uri_given : ◌≢◌ {A = String} "https://app" ""
uri_given e = cc

-- The code "c1", exchanged a second time.
exchange_code_for_token-once_example :
    (r : AuthorizationCodeRecord) × (find_code after.codes "c1" ≡ some r)
    × (exchange_code_for_token ports draws "acme" input after
        ≡ (err (oauth invalid_grant), revoke_linked r.issued_family_id after))
exchange_code_for_token-once_example =
    exchange_code_for_token-once ports ports draws draws "acme" input input world after output
      exchanged refl code_given verifier_given uri_given

code_known : find_code world.codes "c1" ≡ some code_record
unfolding world find_code find
code_known = refl

linked : Linked world.refresh
unfolding world token_store find
linked =
    save-Linked token_record new_refresh_token_store (record { hash = refl; id = refl }) new-Linked

text_of : (s t u : String) → ◌≡◌ {A = Result String} (ok s) (ok t) → s ≡ t
text_of s t u e = cc

fresh : IsFresh ports draws world.refresh
unfolding world token_store find put remove
fresh = record {
  hash = λ t e. subst (λ x. find x world.refresh.by_hash ≡ none) (text_of "t2" t "" e) refl;
  id = λ i e. subst (λ x. find x world.refresh.by_id ≡ none) (text_of "id2" i "" e) refl;
}

offline : contains code_record.scopes "offline_access" ≡ true
unfolding contains
offline = refl

-- The code "c1", presented again, takes the refresh token "t2" back.
exchange_code_for_token-replay_revokes_example :
    ((exchange_code_for_token ports draws "acme" input after).0 ≡ err (oauth invalid_grant))
    × (t : RefreshTokenRecord) × (find_by_hash
          (exchange_code_for_token ports draws "acme" input after).1.refresh
          "t2"
        ≡ some t)
    × (t.revoked ≡ true)
exchange_code_for_token-replay_revokes_example =
    exchange_code_for_token-replay_revokes ports ports draws draws "acme" input input world after
      output code_record exchanged code_known refl offline linked fresh refl code_given
      verifier_given uri_given

abbrev login : CompleteLoginInput
login = record { request_id = "r1"; sub = "alice"; auth_time = 1000; amr = []; acr = "" }

abbrev logged_in : CompleteLoginOutput
logged_in = record {
  request = record request_record {
    state = code_issued;
    sub = some "alice";
    auth_time = some (unix 1000);
    acr = some "";
  };
  code = login_code request_record login "t2" 1000;
}

abbrev after_login : World
after_login = (complete_login ports draws "acme" login world).1

login_done : complete_login ports draws "acme" login world ≡ (ok logged_in, after_login)
unfolding complete_login world find_request find put update_state next_state attach_authentication
login_done = refl

request_known : find_request world.requests "r1" ≡ some request_record
unfolding world find_request find
request_known = refl

-- The request "r1", completed.
complete_login-Completed_example : Completed ports draws "acme" login world after_login logged_in
complete_login-Completed_example =
    complete_login-Completed ports draws "acme" login world after_login logged_in request_record
      login_done request_known refl

-- The request "r1", completed a second time.
complete_login-once_example :
    (complete_login ports draws "acme" login after_login).0 ≡ err (oauth invalid_request)
complete_login-once_example =
    complete_login-once ports ports draws draws "acme" login login world after_login logged_in
      request_record login_done request_known refl refl

abbrev asked : AuthorizeRequestInput
asked = record {
  client_id = "web";
  redirect_uri = "https://app";
  response_type = "code";
  scope = "openid";
  state_param = "";
  nonce = "";
  code_challenge = "v1";
  code_challenge_method = "S256";
  prompt = "";
  max_age = none;
  acr_values = "";
  par_used = false;
  par_request_uri = "";
}

abbrev let_in : AuthorizeRequestOutput
let_in = record { request = stored (new_request "acme" "id2" asked 1000); client = web }

abbrev after_request : World
after_request = (authorize ports draws (ok tt) "acme" asked world).1

request_done : authorize ports draws (ok tt) "acme" asked world ≡ (ok let_in, after_request)
unfolding authorize world contains contains_grant all_in fields scan extend is_space new_request
    join
request_done = refl

-- A request of the client "web".
authorize-Accepted_example : Accepted ports draws "acme" asked let_in after_request
authorize-Accepted_example =
    authorize-Accepted ports draws (ok tt) "acme" asked world after_request let_in request_done
