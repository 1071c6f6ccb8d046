-- ===== src/Tests/Fixtures.antt =====
-- A deployment with one client and one user, whose hashes are the identity.
use regenerative_architectur.Base.{false, none, some, [], ◌∷◌}
use regenerative_architectur.Base.Int.{ℤ}
use regenerative_architectur.Spec.{public, authorization_code, refresh_token, device_code}
use regenerative_architectur.Oauth2.Records.{
  Oauth2Client, User, RefreshTokenRecord, AuthorizationCodeRecord, AuthorizationRequest,
  DeviceAuthorization, ok,
}
use regenerative_architectur.Machines.CodeFlow
use regenerative_architectur.Machines.CodeRecord
use regenerative_architectur.Machines.DeviceFlow
use regenerative_architectur.Stores.RefreshTokens.{RefreshTokenStore, new_refresh_token_store, save}
use regenerative_architectur.Stores.DeviceCodes
use regenerative_architectur.UseCases.Monad.{World}
use regenerative_architectur.UseCases.Ports.{Ports, Entropy}

abbrev pub web : Oauth2Client
web = record {
  tenant_id = "acme";
  client_id = "web";
  client_type = public;
  redirect_uris = "https://app" ∷ [];
  grant_types = authorization_code ∷ refresh_token ∷ device_code ∷ [];
  scope = "openid offline_access";
  require_pushed_authorization_requests = false;
}

abbrev pub alice : User
alice = record { sub = "alice"; tenant_id = "acme"; status = none }

abbrev pub ports : Ports
ports = record {
  clock = 1000;
  find_client = λ t i. ok (some web);
  find_user = λ s. ok (some alice);
  authorizer = none;
  sign_access_token = λ i. ok ("access", "jti");
  sign_id_token = λ i. ok "id";
  access_token_ttl_seconds = 600;
  sha256_hex = λ s. s;
  sha256_base64 = λ s. s;
  to_upper = λ s. s;
  validate_refresh_token = λ r. ok tt;
  validate_code = λ r. ok tt;
  validate_device = λ r. ok tt;
  validate_request = λ r. ok tt;
}

abbrev pub draws : Entropy
draws = record {
  token = ok "t2";
  id = ok "id2";
  family_id = ok "family2";
  device_code = ok "device2";
  user_code = ok "BCDF-GHJK";
}

abbrev pub token_record : RefreshTokenRecord
token_record = record {
  id = "id1";
  tenant_id = "acme";
  hash = "t1";
  family_id = "family1";
  parent_id = none;
  client_id = "web";
  sub = "alice";
  scopes = "openid" ∷ [];
  issued_at = 500;
  expires_at = 600;
  absolute_expires_at = 5000;
  revoked = false;
  rotated = false;
  sender_constraint = none;
}

unfoldable pub token_store : RefreshTokenStore
unfolding save new_refresh_token_store
token_store = save token_record new_refresh_token_store

abbrev pub code_record : AuthorizationCodeRecord
code_record = record {
  code = "c1";
  tenant_id = "acme";
  authorization_request_id = "r1";
  client_id = "web";
  sub = "alice";
  scopes = "openid" ∷ "offline_access" ∷ [];
  redirect_uri = "https://app";
  code_challenge = "v1";
  nonce = none;
  auth_time = ℤ.pos 1;
  amr = [];
  acr = none;
  state = CodeRecord.issued;
  issued_at = 900;
  expires_at = 2000;
  redeemed_at = none;
  issued_family_id = none;
}

abbrev pub request_record : AuthorizationRequest
request_record = record {
  id = "r1";
  tenant_id = "acme";
  state = CodeFlow.received;
  client_id = "web";
  redirect_uri = "https://app";
  scope = "openid";
  state_param = none;
  nonce = none;
  code_challenge = "v1";
  prompt = none;
  max_age = none;
  par_request_uri = none;
  sub = none;
  auth_time = none;
  amr = [];
  acr = none;
  acr_values = none;
  created_at = 900;
  expires_at = 2000;
}

abbrev pub device_record : DeviceAuthorization
device_record = record {
  device_code_hash = "d1";
  tenant_id = "acme";
  user_code = "BCDF";
  client_id = "web";
  scopes = "openid" ∷ [];
  state = DeviceFlow.issued;
  sub = none;
  auth_time = none;
  interval_seconds = 5;
  last_polled_at = none;
  issued_family_id = none;
  issued_at = 900;
  expires_at = 2000;
}

unfoldable pub world : World
unfolding token_store DeviceCodes.save DeviceCodes.new_device_code_store
world = record {
  refresh = token_store;
  codes = ("c1", code_record) ∷ [];
  requests = ("r1", request_record) ∷ [];
  devices = DeviceCodes.save device_record DeviceCodes.new_device_code_store;
  denylist = [];
  events = [];
}
