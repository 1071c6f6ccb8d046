-- ===== src/UseCases/Code/Exchange.antt =====
-- oauth2/usecases/exchange_code.go and oauth2/domain/pkce.go. The refresh store and the request store
-- are the ones of the world: the source also runs without them.
use regenerative_architectur.Base.{
  ℕ, String, Bool, true, false, not, ◌&&◌, Option, none, some, [], ◌==◌, contains, if◌then◌else◌,
}
use regenerative_architectur.Base.Words.{join}
use regenerative_architectur.Spec.{Time, before}
use regenerative_architectur.Machines.CodeFlow
use regenerative_architectur.Machines.CodeRecord.{AuthorizationCodeRecordState, issued}
use regenerative_architectur.Stores.AuthorizationCodes.{find_code, redeem_code, link_family}
use regenerative_architectur.Stores.AuthorizationRequests.{update_state}
use regenerative_architectur.Stores.RefreshTokens.{save, revoke_family}
use regenerative_architectur.Oauth2.Records.{
  Oauth2Client, User, is_active, SenderConstraint, AuthorizationCodeRecord, invalid_request,
  invalid_grant, invalid_client,
}
use regenerative_architectur.Oauth2.Events.{
  access_token_issued, authorization_code_redeemed, refresh_token_issued,
}
use regenerative_architectur.UseCases.Monad.{
  M, ◌>>=◌, ◌>>◌, return, fail, guard, guard_else, lift, some_or, read, emit, on_refresh, try_codes,
  try_requests, ignore_error,
}
use regenerative_architectur.UseCases.Ports.{Ports, Entropy, AccessTokenInput}
use regenerative_architectur.UseCases.Refresh.{generate_initial_refresh_token}
use regenerative_architectur.UseCases.Senders.{sender_constraint_of, token_type_of, tag_of}

pub record ExchangeCodeInput : Type 0 where
  pub client_id : String
  pub code : String
  pub code_verifier : String
  pub redirect_uri : String
  pub dpop_jkt : String
  pub mtls_x5t_s256 : String

pub record ExchangeCodeOutput : Type 0 where
  pub access_token : String
  pub id_token : String
  pub refresh_token : String
  pub token_type : String
  pub expires_in : ℕ
  pub scope : String

-- VerifyPKCES256
unfoldable pub verify_pkce_s256 : Ports → String → String → Bool
verify_pkce_s256 d verifier challenge = d.sha256_base64 verifier == challenge

abbrev pub is_issued : AuthorizationCodeRecordState → Bool
is_issued issued = true
is_issued _ = false

-- A code that was used before: revoke the family that it had issued, if any, and refuse.
unfoldable pub refuse_used : {A : Type 0} → AuthorizationCodeRecord → M A
refuse_used rec = elim rec.issued_family_id [
  | none ↦ fail invalid_grant
  | some family ↦ on_refresh (revoke_family family) >> fail invalid_grant
]

-- The checks on the code itself.
unfoldable pub check_code : Ports → String → ExchangeCodeInput → M AuthorizationCodeRecord
unfolding find_code refuse_used verify_pkce_s256
check_code d tenant_id input = do
  guard (not (input.code == "")) invalid_request
  guard (not (input.code_verifier == "")) invalid_request
  guard (not (input.redirect_uri == "")) invalid_request
  stored ← read (λ w. find_code w.codes input.code)
  rec ← some_or stored (fail invalid_grant)
  guard (rec.tenant_id == tenant_id) invalid_grant
  guard_else (is_issued rec.state && before d.clock rec.expires_at) (refuse_used rec)
  guard (rec.client_id == input.client_id) invalid_grant
  guard (rec.redirect_uri == input.redirect_uri) invalid_grant
  guard (verify_pkce_s256 d input.code_verifier rec.code_challenge) invalid_grant
  return rec

-- The client and the user that the code was issued to.
unfoldable pub code_parties :
    Ports → String → String → AuthorizationCodeRecord → M (Oauth2Client × User)
code_parties d tenant_id client_id rec = do
  found ← lift (d.find_client tenant_id client_id)
  c ← some_or found (fail invalid_client)
  owner ← lift (d.find_user rec.sub)
  u ← some_or owner (fail invalid_grant)
  guard (u.tenant_id == tenant_id) invalid_grant
  guard (is_active u) invalid_grant
  return (c, u)

abbrev pub optional_value : Option String → String
optional_value none = ""
optional_value (some value) = value

unfoldable pub sign_id_token_for :
    Ports → Oauth2Client → User → AuthorizationCodeRecord → String → M String
sign_id_token_for d c u rec access =
    if contains rec.scopes "openid"
    then lift (
        d.sign_id_token (record {
          client = c;
          user = u;
          scopes = rec.scopes;
          nonce = rec.nonce;
          auth_time = rec.auth_time;
          amr = rec.amr;
          acr = optional_value rec.acr;
          at_hash_for = access;
        }))
    else return ""

-- A refresh token, when offline access was granted; its family is noted at the code.
unfoldable pub refresh_token_for :
    Ports
    → Entropy
    → String
    → Oauth2Client
    → User
    → AuthorizationCodeRecord
    → Option SenderConstraint
    → Time
    → M String
unfolding generate_initial_refresh_token
refresh_token_for d e tenant_id c u rec sc now =
    if contains rec.scopes "offline_access"
    then (do
      gen ← generate_initial_refresh_token d e c.client_id u.sub rec.scopes sc now
      let refresh_rec = record (gen.rec) { tenant_id = tenant_id }
      on_refresh (save refresh_rec)
      emit (
          refresh_token_issued now tenant_id refresh_rec.id refresh_rec.family_id c.client_id u.sub)
      try_codes (link_family rec.code refresh_rec.family_id)
      return gen.token)
    else return ""

abbrev pub code_access_token :
    Oauth2Client → User → AuthorizationCodeRecord → Option SenderConstraint → AccessTokenInput
code_access_token c u rec sc = record {
  client = c;
  sub = u.sub;
  scopes = rec.scopes;
  sender_constraint = sc;
  auth_time = rec.auth_time;
  amr = rec.amr;
  acr = optional_value rec.acr;
  audiences = [];
  act = none;
  authorization_details = [];
}

unfoldable pub issue_for_code :
    Ports
    → Entropy
    → String
    → Oauth2Client
    → User
    → AuthorizationCodeRecord
    → Option SenderConstraint
    → M ExchangeCodeOutput
unfolding sign_id_token_for refresh_token_for
issue_for_code d e tenant_id c u rec sc = do
  let now = d.clock
  signed ← lift (d.sign_access_token (code_access_token c u rec sc))
  emit (access_token_issued now tenant_id signed.1 c.client_id u.sub rec.scopes (tag_of sc))
  emit (authorization_code_redeemed now tenant_id c.client_id u.sub)
  id_token ← sign_id_token_for d c u rec signed.0
  refresh ← refresh_token_for d e tenant_id c u rec sc now
  ignore_error (try_requests (update_state rec.authorization_request_id CodeFlow.exchanged))
  return (record {
    access_token = signed.0;
    id_token = id_token;
    refresh_token = refresh;
    token_type = token_type_of sc;
    expires_in = d.access_token_ttl_seconds;
    scope = join rec.scopes;
  })

unfoldable pub exchange_code_for_token :
    Ports → Entropy → String → ExchangeCodeInput → M ExchangeCodeOutput
unfolding check_code code_parties redeem_code refuse_used issue_for_code sender_constraint_of
exchange_code_for_token d e tenant_id input = do
  rec ← check_code d tenant_id input
  parties ← code_parties d tenant_id input.client_id rec
  answer ← try_codes (redeem_code input.code d.clock)
  redeemed ← some_or answer (refuse_used rec)
  issue_for_code d e tenant_id parties.0 parties.1 redeemed
      (sender_constraint_of input.dpop_jkt input.mtls_x5t_s256)
