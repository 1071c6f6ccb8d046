-- ===== src/UseCases/Device/Request.antt =====
-- oauth2/usecases/device_flow.go: RequestDeviceAuthorization.
use regenerative_architectur.Base.{ℕ, ◌+◌, String, ◌&&◌, none, List, [], ◌∷◌, all_in}
use regenerative_architectur.Base.Words.{fields}
use regenerative_architectur.Spec.{
  Time, or_clock, device_code, grant_allows_client_type, contains_grant,
}
use regenerative_architectur.Machines.DeviceFlow.{issued}
use regenerative_architectur.Stores.DeviceCodes.{save}
use regenerative_architectur.Oauth2.Records.{
  Oauth2Client, DeviceAuthorization, invalid_client, unauthorized_client, invalid_scope,
}
use regenerative_architectur.Oauth2.Events.{device_authorization_requested}
use regenerative_architectur.UseCases.Monad.{
  M, ◌>>=◌, ◌>>◌, return, fail, guard, lift, some_or, emit, on_devices,
}
use regenerative_architectur.UseCases.Ports.{Ports, Entropy}
use regenerative_architectur.UseCases.Device.Domain.{
  device_code_ttl, device_code_ttl_seconds, normalize_user_code,
}

pub record DeviceAuthorizationInput : Type 0 where
  pub client_id : String
  pub scope : String

-- The fields that are not copies of the deployment's base URL.
pub record DeviceAuthorizationResponse : Type 0 where
  pub device_code : String
  pub user_code : String
  pub expires_in : ℕ
  pub interval : ℕ

unfoldable pub requested_scopes : String → List String
unfolding fields
requested_scopes scope = elim (fields scope) [ [] ↦ "openid" ∷ [] | s ∷ ss ↦ s ∷ ss ]

unfoldable pub new_device_authorization :
    Ports → String → Oauth2Client → String → String → List String → Time → DeviceAuthorization
unfolding normalize_user_code
new_device_authorization d tenant_id c secret user_code scopes now = record {
  device_code_hash = d.sha256_hex secret;
  tenant_id = tenant_id;
  user_code = normalize_user_code d user_code;
  client_id = c.client_id;
  scopes = scopes;
  state = issued;
  sub = none;
  auth_time = none;
  interval_seconds = 5;
  last_polled_at = none;
  issued_family_id = none;
  issued_at = now;
  expires_at = now + device_code_ttl;
}

unfoldable pub request_device_authorization :
    Ports → Entropy → String → DeviceAuthorizationInput → Time → M DeviceAuthorizationResponse
unfolding requested_scopes new_device_authorization grant_allows_client_type contains_grant
request_device_authorization d e tenant_id input now0 = do
  let now = or_clock d.clock now0
  found ← lift (d.find_client tenant_id input.client_id)
  c ← some_or found (fail invalid_client)
  guard
      (grant_allows_client_type device_code c.client_type
        && contains_grant c.grant_types device_code)
      unauthorized_client
  secret ← lift e.device_code
  user_code ← lift e.user_code
  let scopes = requested_scopes input.scope
  guard (all_in scopes (fields c.scope)) invalid_scope
  let rec = new_device_authorization d tenant_id c secret user_code scopes now
  lift (d.validate_device rec)
  on_devices (save rec)
  emit (device_authorization_requested now tenant_id c.client_id scopes)
  return (record {
    device_code = secret;
    user_code = user_code;
    expires_in = device_code_ttl_seconds;
    interval = 5;
  })
