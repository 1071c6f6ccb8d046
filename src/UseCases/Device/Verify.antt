-- ===== src/UseCases/Device/Verify.antt =====
-- oauth2/usecases/device_flow.go: ApproveUserCode and DenyUserCode.
use regenerative_architectur.Base.{String, not, Option, none, some, ◌==◌}
use regenerative_architectur.Spec.{Time, or_clock, unix}
use regenerative_architectur.Machines.DeviceFlow.{
  DeviceCodeFlowState, issued, enter_user_code, approve, deny, transition,
}
use regenerative_architectur.Stores.DeviceCodes.{save, find_by_user_code}
use regenerative_architectur.Stores.Tenant.{default_tenant}
use regenerative_architectur.Oauth2.Records.{
  DeviceAuthorization, err, internal, invalid_request, expired_token,
}
use regenerative_architectur.Oauth2.Events.{
  device_authorization_approved, device_authorization_denied,
}
use regenerative_architectur.UseCases.Monad.{
  M, ◌>>=◌, ◌>>◌, return, fail, guard, lift, some_or, read, emit, on_devices,
}
use regenerative_architectur.UseCases.Ports.{Ports}
use regenerative_architectur.UseCases.Device.Domain.{normalize_user_code, is_device_expired}

-- An issued record is taken through user_code_entered; the others keep their state.
unfoldable pub enter_state : DeviceCodeFlowState → Option DeviceCodeFlowState
unfolding transition
enter_state issued = transition issued enter_user_code
enter_state s = some s

-- The record that Approve and Deny act on.
unfoldable pub find_for_user : Ports → String → String → M DeviceAuthorization
unfolding normalize_user_code find_by_user_code
find_for_user d tenant_id user_code = do
  stored ← read (λ w. find_by_user_code w.devices (normalize_user_code d user_code))
  rec ← some_or stored (fail invalid_request)
  guard (rec.tenant_id == tenant_id) invalid_request
  return rec

unfoldable pub approve_user_code : Ports → String → String → String → Time → M (Unit {0})
unfolding find_for_user is_device_expired enter_state transition default_tenant
approve_user_code d tenant_id user_code sub now0 = do
  let now = or_clock d.clock now0
  rec ← find_for_user d tenant_id user_code
  guard (not (is_device_expired d.clock rec now)) expired_token
  entered ← some_or (enter_state rec.state) (lift (err (internal "no transition")))
  approved ← some_or (transition entered approve) (fail invalid_request)
  on_devices (save (record rec { state = approved; sub = some sub; auth_time = some (unix now) }))
  emit (device_authorization_approved now (default_tenant rec.tenant_id) rec.client_id sub)

abbrev pub or_same : DeviceCodeFlowState → Option DeviceCodeFlowState → DeviceCodeFlowState
or_same s none = s
or_same s (some next) = next

unfoldable pub deny_user_code : Ports → String → String → String → Time → M (Unit {0})
unfolding find_for_user enter_state transition default_tenant
deny_user_code d tenant_id user_code sub now0 = do
  let now = or_clock d.clock now0
  rec ← find_for_user d tenant_id user_code
  let entered = or_same rec.state (enter_state rec.state)
  denied ← some_or (transition entered deny) (fail invalid_request)
  on_devices (save (record rec { state = denied }))
  emit (device_authorization_denied now (default_tenant rec.tenant_id) rec.client_id sub)
