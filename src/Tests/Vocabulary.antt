-- ===== src/Tests/Vocabulary.antt =====
-- The state machines, the policy and the strength of an authentication on concrete inputs.
use mathlib.Core.List.{Memᴰ}
use regenerative_architectur.Base.{
  ◌≡◌, ◌≢◌, ◌≤◌, ◌+◌, ◌↔◌, ◌⊎◌, refl, String, true, false, none, some, List, [], ◌∷◌, length,
  contains,
}
use regenerative_architectur.Base.Int.{ℤ}
use regenerative_architectur.Base.Words.{fields, scan, extend, is_space}
use regenerative_architectur.Spec.{unix}
use regenerative_architectur.Machines.Table.{run}
use regenerative_architectur.Machines.CodeFlow.{
  AuthorizationCodeFlowEvent, received, exchanged, start_authentication, authenticate_user,
  issue_code, redeem_code, transition,
}
use regenerative_architectur.Machines.CodeFlow.Runs.{
  rank, length-run-le, exchanged_needs_authentication,
}
use regenerative_architectur.Machines.DeviceFlow
use regenerative_architectur.Policy.{
  AuthzRequest, user, Action, token_grant_refresh, admin_tenants_manage, admin_clients_manage,
  action_rules, rule_holds, failed_rules, evaluate,
}
use regenerative_architectur.Policy.Safety.{
  IsAdministrator, MayRefresh, evaluate-IsAdministrator, evaluate-same_tenant,
  evaluate-MayRefresh_iff,
}
use regenerative_architectur.Authentication.Acr.{derive_acr, any_meets, acr_satisfies}
use regenerative_architectur.Authentication.StepUp.{
  AuthenticationContext, step_up_satisfied, IsRecent, step_up_satisfied_iff,
}

abbrev shortest : List AuthorizationCodeFlowEvent
shortest = start_authentication ∷ authenticate_user ∷ issue_code ∷ redeem_code ∷ []

run-shortest : run transition received shortest ≡ some exchanged
unfolding run transition
run-shortest = refl

-- The shortest run to the exchange.
length-run-le_example : length shortest + rank exchanged ≤ rank received
length-run-le_example = length-run-le received shortest run-shortest

-- The shortest run to the exchange has its events.
exchanged_needs_authentication_example :
    Memᴰ authenticate_user shortest
    × Memᴰ issue_code shortest
    × Memᴰ redeem_code shortest
    × (length shortest ≤ 6)
exchanged_needs_authentication_example = exchanged_needs_authentication shortest run-shortest

abbrev approval : List DeviceFlow.DeviceCodeFlowEvent
approval = DeviceFlow.enter_user_code ∷ DeviceFlow.approve ∷ DeviceFlow.exchange ∷ []

abbrev administration : Action → AuthzRequest
administration action = record {
  subject = record {
    type = user;
    id = "root";
    client_type = none;
    grant_types = [];
    scopes = [];
    redirect_uris = [];
    require_par = false;
    authenticated = true;
    roles = "system_admin" ∷ "admin" ∷ [];
    tenant_id = "default";
    disabled_at = none;
  };
  action = action;
  resource = record {
    id = "";
    issued_to_client_id = "";
    redirect_uri = "";
    code_challenge = "";
    expires_at = 0;
    redeemed = false;
    revoked = false;
    rotated = false;
    absolute_expires_at = 0;
    sender_constraint = none;
    scopes = [];
    approved = false;
    tenant_id = "default";
  };
  context = record {
    code_verifier = "";
    redirect_uri = "";
    proof_of_possession = none;
    par_used = false;
    authenticated = true;
    now = 1000;
    audience = "";
  };
}

clients_permitted : (evaluate 1000 (administration admin_clients_manage)).permit ≡ true
unfolding evaluate action_rules failed_rules rule_holds contains
clients_permitted = refl

tenants_permitted : (evaluate 1000 (administration admin_tenants_manage)).permit ≡ true
unfolding evaluate action_rules failed_rules rule_holds contains
tenants_permitted = refl

-- Managing clients.
evaluate-IsAdministrator_example : IsAdministrator (administration admin_clients_manage)
evaluate-IsAdministrator_example =
    evaluate-IsAdministrator 1000 (administration admin_clients_manage) refl clients_permitted

-- Managing clients of the tenant "default".
evaluate-same_tenant_example :
    (◌≡◌ {A = String} "default" "default") × (◌≢◌ {A = String} "default" "")
evaluate-same_tenant_example =
    evaluate-same_tenant 1000 (administration admin_clients_manage) refl clients_permitted

-- A refresh with the token "t1".
evaluate-MayRefresh_iff_example :
    ((evaluate 1000 (administration token_grant_refresh)).permit ≡ true)
    ↔ MayRefresh 1000 (administration token_grant_refresh)
evaluate-MayRefresh_iff_example =
    evaluate-MayRefresh_iff 1000 (administration token_grant_refresh) refl

password_satisfies : acr_satisfies (derive_acr ("pwd" ∷ [])) "urn:ra-idp:acr:pwd" ≡ true
unfolding acr_satisfies derive_acr contains any_meets fields scan extend is_space
password_satisfies = refl

abbrev session : AuthenticationContext
session = record {
  sub = "alice";
  amr = [];
  acr = "";
  session_id = "s1";
  auth_time = ℤ.pos 10;
  authentication_pending = false;
  step_up_at = ℤ.pos 0;
}

-- A log-in long ago.
step_up_satisfied_iff_example : (step_up_satisfied 1000 (some session) 1000 ≡ true) ↔ (
    (session.authentication_pending ≡ false)
    × (IsRecent (unix 1000) session.auth_time ⊎ IsRecent (unix 1000) session.step_up_at))
step_up_satisfied_iff_example = step_up_satisfied_iff 1000 session 1000
