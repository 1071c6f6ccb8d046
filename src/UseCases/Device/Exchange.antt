-- ===== src/UseCases/Device/Exchange.antt =====
-- oauth2/usecases/device_flow.go: ExchangeDeviceCode.
use regenerative_architectur.Base.{
  ℕ, ◌+◌, String, Bool, false, not, Option, none, some, [], ◌==◌, ltb, if◌then◌else◌,
}
use regenerative_architectur.Base.Words.{join}
use regenerative_architectur.Spec.{Time, seconds, or_clock}
use regenerative_architectur.Machines.DeviceFlow.{
  DeviceCodeFlowState, issued, user_code_entered, approved, denied, exchanged, expired,
  default_device_code_polling,
}
use regenerative_architectur.Stores.DeviceCodes.{save, find_by_device_code_hash, exchange_code}
use regenerative_architectur.Stores.RefreshTokens
use regenerative_architectur.Oauth2.Records.{
  Oauth2Client, User, is_active, SenderConstraint, DeviceAuthorization, err, internal,
  invalid_grant, expired_token, slow_down, authorization_pending, access_denied, server_error,
}
use regenerative_architectur.Oauth2.Events.{access_token_issued, refresh_token_issued}
use regenerative_architectur.UseCases.Monad.{
  M, ◌>>=◌, ◌>>◌, return, fail, guard, lift, some_or, read, emit, on_devices, on_refresh,
  try_devices,
}
use regenerative_architectur.UseCases.Ports.{Ports, Entropy}
use regenerative_architectur.UseCases.Refresh.{generate_initial_refresh_token}
use regenerative_architectur.UseCases.Senders.{sender_constraint_of, token_type_of, tag_of}
use regenerative_architectur.UseCases.Device.Domain.{is_device_expired}

pub record ExchangeDeviceCodeInput : Type 0 where
  pub client_id : String
  pub device_code : String
  pub proof_jkt : String
  pub proof_x5t_s256 : String

pub record ExchangeDeviceCodeResult : Type 0 where
  pub access_token : String
  pub refresh_token : String
  pub id_token : String
  pub token_type : String
  pub expires_in : ℕ
  pub scope : String

-- The last poll is less than the interval ago.
unfoldable pub is_too_soon : DeviceAuthorization → Time → Bool
is_too_soon rec now = elim rec.last_polled_at [
  | none ↦ false
  | some last ↦ ltb now (last + seconds rec.interval_seconds)
]

-- The record after a poll that came too soon.
unfoldable pub slowed : DeviceAuthorization → Time → DeviceAuthorization
unfolding default_device_code_polling
slowed rec now = record rec {
  interval_seconds = rec.interval_seconds + default_device_code_polling.slow_down_increment_seconds;
  last_polled_at = some now;
}

unfoldable pub poll : DeviceAuthorization → Time → M (Unit {0})
unfolding is_too_soon slowed
poll rec now =
    if is_too_soon rec now
    then (on_devices (save (slowed rec now)) >> fail slow_down)
    else (on_devices (save (record rec { last_polled_at = some now }))
        >> fail authorization_pending)

-- Only an approved record goes on.
unfoldable pub gate_by : DeviceCodeFlowState → DeviceAuthorization → Time → M (Unit {0})
unfolding poll
gate_by issued rec now = poll rec now
gate_by user_code_entered rec now = poll rec now
gate_by approved rec now = return tt
gate_by denied rec now = fail access_denied
gate_by exchanged rec now = fail invalid_grant
gate_by expired rec now = fail invalid_grant

unfoldable pub state_gate : DeviceAuthorization → Time → M (Unit {0})
unfolding gate_by
state_gate rec now = gate_by rec.state rec now

-- From the device code to the record, which is exchanged.
unfoldable pub redeem_device_code :
    Ports → String → ExchangeDeviceCodeInput → Time → M DeviceAuthorization
unfolding is_device_expired state_gate find_by_device_code_hash exchange_code
redeem_device_code d tenant_id input now = do
  stored ← read (λ w. find_by_device_code_hash w.devices (d.sha256_hex input.device_code))
  rec ← some_or stored (fail invalid_grant)
  guard (rec.tenant_id == tenant_id) invalid_grant
  guard (rec.client_id == input.client_id) invalid_grant
  guard (not (is_device_expired d.clock rec now)) expired_token
  state_gate rec now
  redeemed ← try_devices (exchange_code (d.sha256_hex input.device_code))
  some_or redeemed (fail invalid_grant)

-- The client and the user that the tokens are for.
unfoldable pub device_parties :
    Ports → String → String → DeviceAuthorization → M (Oauth2Client × User)
device_parties d tenant_id client_id rec = do
  found ← lift (d.find_client tenant_id client_id)
  c ← some_or found (fail server_error)
  sub ← some_or rec.sub (fail server_error)
  owner ← lift (d.find_user sub)
  u ← some_or owner (fail invalid_grant)
  guard (u.tenant_id == tenant_id) invalid_grant
  guard (is_active u) invalid_grant
  return (c, u)

unfoldable pub issue_for_device :
    Ports
    → Entropy
    → String
    → Oauth2Client
    → User
    → DeviceAuthorization
    → Option SenderConstraint
    → Time
    → M ExchangeDeviceCodeResult
unfolding generate_initial_refresh_token
issue_for_device d e tenant_id c u rec sc now = do
  -- The source dereferences the pointer, and panics when it is nil.
  auth_time ← some_or rec.auth_time (lift (err (internal "nil pointer dereference")))
  signed ← lift (
      d.sign_access_token (record {
        client = c;
        sub = u.sub;
        scopes = rec.scopes;
        sender_constraint = sc;
        auth_time = auth_time;
        amr = [];
        acr = "";
        audiences = [];
        act = none;
        authorization_details = [];
      }))
  emit (access_token_issued now tenant_id signed.1 c.client_id u.sub rec.scopes (tag_of sc))
  id_token ← lift (
      d.sign_id_token (record {
        client = c;
        user = u;
        scopes = rec.scopes;
        nonce = none;
        auth_time = auth_time;
        amr = [];
        acr = "";
        at_hash_for = signed.0;
      }))
  refresh ← generate_initial_refresh_token d e c.client_id u.sub rec.scopes sc now
  let refresh_rec = record (refresh.rec) { tenant_id = tenant_id }
  on_refresh (RefreshTokens.save refresh_rec)
  emit (refresh_token_issued now tenant_id refresh_rec.id refresh_rec.family_id c.client_id u.sub)
  on_devices (save (record rec { issued_family_id = some refresh_rec.family_id }))
  return (record {
    access_token = signed.0;
    refresh_token = refresh.token;
    id_token = id_token;
    token_type = token_type_of sc;
    expires_in = d.access_token_ttl_seconds;
    scope = join rec.scopes;
  })

unfoldable pub exchange_device_code :
    Ports → Entropy → String → ExchangeDeviceCodeInput → Time → M ExchangeDeviceCodeResult
unfolding redeem_device_code device_parties issue_for_device sender_constraint_of
exchange_device_code d e tenant_id input now0 = do
  let now = or_clock d.clock now0
  rec ← redeem_device_code d tenant_id input now
  parties ← device_parties d tenant_id input.client_id rec
  issue_for_device d e tenant_id parties.0 parties.1 rec
      (sender_constraint_of input.proof_jkt input.proof_x5t_s256) now
