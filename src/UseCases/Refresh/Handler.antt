-- ===== src/UseCases/Refresh/Handler.antt =====
-- oauth2/usecases/refresh_tokens.go: RefreshTokens.
use mathlib.Core.Option
use regenerative_architectur.Base.{ℕ, String, Bool, false, not, none, some, [], ◌==◌}
use regenerative_architectur.Base.Words.{join}
use regenerative_architectur.Spec.{Time, or_clock, unix, SenderConstraintType, dpop, mtls}
use regenerative_architectur.Policy.{
  AuthzRequest, AuthzResponse, client, token_grant_refresh, evaluate,
}
use regenerative_architectur.Stores.RefreshTokens.{find_by_hash, rotate, revoke_family}
use regenerative_architectur.Oauth2.Records.{
  Oauth2Client, is_active, SenderConstraint, RefreshTokenRecord, invalid_client, invalid_grant,
  Result, ok,
}
use regenerative_architectur.Oauth2.Events.{
  refresh_token_reuse_detected, refresh_token_rotated, access_token_issued,
}
use regenerative_architectur.UseCases.Monad.{
  M, ◌>>=◌, ◌>>◌, return, fail, guard, guard_else, lift, some_or, read, emit, on_refresh,
  try_refresh,
}
use regenerative_architectur.UseCases.Ports.{Ports, Entropy, AccessTokenInput}
use regenerative_architectur.UseCases.Senders.{token_type_of, tag_of}
use regenerative_architectur.UseCases.Refresh.Domain.{
  rotate_refresh_token, is_refresh_token_replay, is_refresh_token_absolute_expired,
}

pub record RefreshInput : Type 0 where
  pub client_id : String
  pub refresh_token : String
  pub proof_jkt : String
  pub proof_x5t_s256 : String

pub record RefreshResult : Type 0 where
  pub access_token : String
  pub refresh_token : String
  pub token_type : String
  pub expires_in : ℕ
  pub scope : String

abbrev pub proof_of : SenderConstraintType → SenderConstraint → RefreshInput → Bool
proof_of dpop sc input = sc.jkt == input.proof_jkt
proof_of mtls sc input = sc.x5t_s256 == input.proof_x5t_s256

-- The request that evaluateRefreshPolicy asks the policy about.
unfoldable pub refresh_request :
    Oauth2Client → RefreshTokenRecord → RefreshInput → Time → AuthzRequest
refresh_request c rec input now = record {
  subject = record {
    type = client;
    id = c.client_id;
    client_type = none;
    grant_types = c.grant_types;
    scopes = [];
    redirect_uris = [];
    require_par = false;
    authenticated = false;
    roles = [];
    tenant_id = "";
    disabled_at = none;
  };
  action = token_grant_refresh;
  resource = record {
    id = "";
    issued_to_client_id = "";
    redirect_uri = "";
    code_challenge = "";
    expires_at = 0;
    redeemed = false;
    revoked = rec.revoked;
    rotated = rec.rotated;
    absolute_expires_at = rec.absolute_expires_at;
    sender_constraint = Option.map (λ sc. sc.type) rec.sender_constraint;
    scopes = [];
    approved = false;
    tenant_id = "";
  };
  context = record {
    code_verifier = "";
    redirect_uri = "";
    proof_of_possession = Option.map (λ sc. proof_of sc.type sc input) rec.sender_constraint;
    par_used = false;
    authenticated = false;
    now = now;
    audience = "";
  };
}

-- A nil authorizer falls back on the policy's own `Evaluate`.
unfoldable pub authorize : Ports → AuthzRequest → Result AuthzResponse
authorize d r = elim d.authorizer [ none ↦ ok (evaluate d.clock r) | some call ↦ call r ]

-- A token that should not have been presented: revoke its family, log it, refuse.
abbrev reuse_detected : String → String → RefreshTokenRecord → Time → M (Unit {0})
reuse_detected tenant_id client_id rec now = do
  on_refresh (revoke_family rec.family_id)
  emit (refresh_token_reuse_detected now tenant_id rec.family_id rec.id client_id)
  fail invalid_grant

-- Revoke a family and refuse.
abbrev revoke_and_fail : {A : Type 0} → String → M A
revoke_and_fail family_id = do on_refresh (revoke_family family_id); fail invalid_grant

-- The first half of RefreshTokens: everything that is checked before a token is made.
unfoldable pub check_refresh :
    Ports → String → RefreshInput → Time → M (Oauth2Client × RefreshTokenRecord)
unfolding is_refresh_token_replay is_refresh_token_absolute_expired authorize
check_refresh d tenant_id input now = do
  found ← lift (d.find_client tenant_id input.client_id)
  c ← some_or found (fail invalid_client)
  stored ← read (λ w. find_by_hash w.refresh (d.sha256_hex input.refresh_token))
  rec ← some_or stored (fail invalid_grant)
  guard (rec.tenant_id == tenant_id) invalid_grant
  guard_else (rec.client_id == c.client_id) (reuse_detected tenant_id c.client_id rec now)
  guard_else (not (is_refresh_token_replay rec)) (reuse_detected tenant_id c.client_id rec now)
  guard (not (is_refresh_token_absolute_expired d.clock rec now)) invalid_grant
  owner ← lift (d.find_user rec.sub)
  u ← some_or owner (revoke_and_fail rec.family_id)
  guard (u.tenant_id == tenant_id) invalid_grant
  guard_else (is_active u) (revoke_and_fail rec.family_id)
  decision ← lift (authorize d (refresh_request c rec input now))
  guard decision.permit invalid_grant
  return (c, rec)

abbrev pub access_token_input : Oauth2Client → RefreshTokenRecord → Time → AccessTokenInput
access_token_input c rec now = record {
  client = c;
  sub = rec.sub;
  scopes = rec.scopes;
  sender_constraint = rec.sender_constraint;
  auth_time = unix now;
  amr = [];
  acr = "";
  audiences = [];
  act = none;
  authorization_details = [];
}

-- The second half: rotate the token, sign an access token.
unfoldable pub issue_refreshed :
    Ports → Entropy → String → Time → Oauth2Client → RefreshTokenRecord → M RefreshResult
unfolding rotate_refresh_token
issue_refreshed d e tenant_id now c rec = do
  generated ← rotate_refresh_token d e rec now
  rotated ← try_refresh (rotate rec.id generated.rec)
  _ ← some_or rotated (revoke_and_fail rec.family_id)
  emit (refresh_token_rotated now tenant_id rec.id generated.rec.id rec.family_id)
  signed ← lift (d.sign_access_token (access_token_input c rec now))
  emit (
      access_token_issued now tenant_id signed.1 c.client_id rec.sub rec.scopes
        (tag_of rec.sender_constraint))
  return (record {
    access_token = signed.0;
    refresh_token = generated.token;
    token_type = token_type_of rec.sender_constraint;
    expires_in = d.access_token_ttl_seconds;
    scope = join rec.scopes;
  })

unfoldable pub refresh_tokens : Ports → Entropy → String → RefreshInput → Time → M RefreshResult
unfolding check_refresh issue_refreshed
refresh_tokens d e tenant_id input now0 = do
  let now = or_clock d.clock now0
  checked ← check_refresh d tenant_id input now
  issue_refreshed d e tenant_id now checked.0 checked.1
