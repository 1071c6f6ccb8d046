-- ===== src/UseCases/Device/Decision.antt =====
-- What the user's decision leaves for the device.
use regenerative_architectur.Base.{
  some_inj, ◌≡◌, ◌≢◌, refl, sym, ap, ◌∙◌, String, Bool, true, false, not, some, arith, ◌==◌, eq_iff,
}
use regenerative_architectur.Spec.{Time, before, or_clock, unix}
use regenerative_architectur.Machines.DeviceFlow.{
  DeviceCodeFlowState, issued, user_code_entered, approved, denied, approve, deny, transition,
}
use regenerative_architectur.Stores.Tenant.{default_tenant}
use regenerative_architectur.Stores.DeviceCodes.{
  stored, save, find_by_device_code_hash, find_by_user_code,
}
use regenerative_architectur.Oauth2.Records.{DeviceAuthorization, oauth, ok, err, access_denied}
use regenerative_architectur.UseCases.Monad.{World}
use regenerative_architectur.UseCases.Inversion.{step_ok, some_ok, guard_ok, return_ok}
use regenerative_architectur.UseCases.Ports.{Ports, Entropy}
use regenerative_architectur.UseCases.Device.Domain.{normalize_user_code, is_device_expired}
use regenerative_architectur.UseCases.Device.Verify.{
  enter_state, find_for_user, approve_user_code, deny_user_code,
}
use regenerative_architectur.UseCases.Device.Exchange.{
  ExchangeDeviceCodeInput, exchange_device_code,
}
use regenerative_architectur.UseCases.Device.Verify.{or_same}
use regenerative_architectur.UseCases.Device.Polling.{
  is_waiting, Presented, gate-denied, exchange-gate_err, find-save,
}

denied_state :
    (s next : DeviceCodeFlowState)
    → transition (or_same s (enter_state s)) deny ≡ some next
    → (is_waiting s ≡ true) × (next ≡ denied)
unfolding enter_state transition
denied_state issued next h = (refl, ground arith)
denied_state user_code_entered next h = (refl, ground arith)
denied_state _ next h = absurd (ground arith)

approved_state :
    (s entered next : DeviceCodeFlowState)
    → enter_state s ≡ some entered
    → transition entered approve ≡ some next
    → (is_waiting s ≡ true) × (next ≡ approved)
unfolding enter_state transition
approved_state issued entered next h k = (refl, ground arith)
approved_state user_code_entered entered next h k = (refl, ground arith)
approved_state _ entered next h k = absurd (ground arith)

-- A refusal by the user that succeeds: the record under the user code belonged to the tenant, and the
-- user had not decided; it is saved as denied.
pub record DeniedRecord (d : Ports) (tenant_id user_code : String) (w w' : World) : Type 0 where
  pub rec : DeviceAuthorization
  pub known : find_by_user_code w.devices (normalize_user_code d user_code) ≡ some rec
  pub tenant : rec.tenant_id ≡ tenant_id
  pub undecided : is_waiting rec.state ≡ true
  pub saved : w'.devices ≡ save (record rec { state = denied }) w.devices

find_for_user-ok :
    (d : Ports) (tenant_id user_code : String) {w w' : World} {rec : DeviceAuthorization}
    → find_for_user d tenant_id user_code w ≡ (ok rec, w')
    → (w ≡ w')
      × (find_by_user_code w.devices (normalize_user_code d user_code) ≡ some rec)
      × (rec.tenant_id ≡ tenant_id)
unfolding find_for_user
find_for_user-ok d tenant_id user_code {w} {w'} {rec} h0 =
    let (r1, known, h1) =
      some_ok (find_by_user_code w.devices (normalize_user_code d user_code)) _ _ _ refl h0 in
    let (tenant, h2) = guard_ok (r1.tenant_id == tenant_id) _ _ _ h1 in
    let (same, same_world) = return_ok h2 in
    (
      same_world,
      known ∙ ap (λ r. some r) same,
      ap (λ r. r.tenant_id) (sym same) ∙ (eq_iff _ _).0 tenant,
    )

pub deny_user_code-DeniedRecord :
    (d : Ports) (tenant_id user_code sub : String) (now : Time) (w w' : World)
    → deny_user_code d tenant_id user_code sub now w ≡ (ok tt, w')
    → DeniedRecord d tenant_id user_code w w'
unfolding deny_user_code
deny_user_code-DeniedRecord d tenant_id user_code sub now w w' h0 =
    let (rec, v, found, h1) = step_ok (find_for_user d tenant_id user_code w) _ h0 in
    let (same, known, tenant) = find_for_user-ok d tenant_id user_code found in
    let (next, is_next, h2) =
      some_ok (transition (or_same rec.state (enter_state rec.state)) deny) _ v _ refl h1 in
    let (undecided, is_denied) = denied_state rec.state next is_next in
    record {
      rec = rec;
      known = known;
      tenant = tenant;
      undecided = undecided;
      saved =
          ap (λ x. x.devices) (sym (return_ok h2).1)
          ∙ ap (λ s. save (record rec { state = s }) v.devices) is_denied
          ∙ ap (λ x. save (record rec { state = denied }) x.devices) (sym same);
    }

-- An approval that succeeds: the record under the user code belonged to the tenant, its time had not
-- passed and the user had not decided; it is saved as approved, with the user and the time.
pub record ApprovedRecord (d : Ports) (tenant_id user_code sub : String) (now : Time) (w w' : World)
    : Type 0 where
  pub rec : DeviceAuthorization
  pub known : find_by_user_code w.devices (normalize_user_code d user_code) ≡ some rec
  pub tenant : rec.tenant_id ≡ tenant_id
  pub in_time : is_device_expired d.clock rec (or_clock d.clock now) ≡ false
  pub undecided : is_waiting rec.state ≡ true
  pub saved :
      w'.devices
      ≡ save
          (record rec {
            state = approved;
            sub = some sub;
            auth_time = some (unix (or_clock d.clock now));
          })
          w.devices

negated : (b : Bool) → not b ≡ true → b ≡ false
negated b h = ground arith

-- A user code is approved only for the tenant it belongs to, before it runs out and before the user has
-- decided, and the approval saves the record as approved with the user and the time of the approval.
pub approve_user_code-ApprovedRecord :
    (d : Ports) (tenant_id user_code sub : String) (now : Time) (w w' : World)
    → approve_user_code d tenant_id user_code sub now w ≡ (ok tt, w')
    → ApprovedRecord d tenant_id user_code sub now w w'
unfolding approve_user_code
approve_user_code-ApprovedRecord d tenant_id user_code sub now w w' h0 =
    let at = or_clock d.clock now in
    let (rec, v, found, h1) = step_ok (find_for_user d tenant_id user_code w) _ h0 in
    let (same, known, tenant) = find_for_user-ok d tenant_id user_code found in
    let (in_time, h2) = guard_ok (not (is_device_expired d.clock rec at)) _ v _ h1 in
    let (entered, is_entered, h3) = some_ok (enter_state rec.state) _ v _ refl h2 in
    let (next, is_next, h4) = some_ok (transition entered approve) _ v _ refl h3 in
    let (undecided, is_approved) = approved_state rec.state entered next is_entered is_next in
    record {
      rec = rec;
      known = known;
      tenant = tenant;
      in_time = negated _ in_time;
      undecided = undecided;
      saved =
          ap (λ x. x.devices) (sym (return_ok h4).1)
          ∙ ap
              (λ s.
                save (record rec { state = s; sub = some sub; auth_time = some (unix at) })
                  v.devices)
              is_approved
          ∙ ap
              (λ x.
                save (record rec { state = approved; sub = some sub; auth_time = some (unix at) })
                  x.devices)
              (sym same);
    }

-- Once a user has refused, the device is told access_denied: the exchange of a device code whose hash is
-- the refused record's, for the same tenant, by the record's client and before it runs out, in the state
-- that the refusal left, answers that and changes nothing. The tenant has a name, and the time is not
-- Go's zero time.
pub deny_user_code-access_denied :
    (d : Ports) (e : Entropy) (tenant_id user_code sub : String) (now : Time) (w w' : World)
    (rec : DeviceAuthorization) (input : ExchangeDeviceCodeInput) (now' : Time)
    → deny_user_code d tenant_id user_code sub now w ≡ (ok tt, w')
    → find_by_user_code w.devices (normalize_user_code d user_code) ≡ some rec
    → tenant_id ≢ ""
    → d.sha256_hex input.device_code ≡ rec.device_code_hash
    → input.client_id ≡ rec.client_id
    → before (or_clock d.clock now') rec.expires_at ≡ true
    → or_clock d.clock now' ≢ 0
    → exchange_device_code d e tenant_id input now' w' ≡ (err (oauth access_denied), w')
unfolding is_device_expired default_tenant
deny_user_code-access_denied d e tenant_id user_code sub now w w' rec input now' h known named hash
      client in_time nonzero =
    let r = deny_user_code-DeniedRecord d tenant_id user_code sub now w w' h in
    let same : r.rec ≡ rec = some_inj (sym r.known ∙ known) in
    let refused = stored (record rec { state = denied }) in
    let saved : w'.devices ≡ save (record rec { state = denied }) w.devices =
      r.saved ∙ ap (λ x. save (record x { state = denied }) w.devices) same in
    let p : Presented d tenant_id input now' w' refused = record {
      known =
          ap (λ s. find_by_device_code_hash s (d.sha256_hex input.device_code)) saved
          ∙ ap (λ k. find_by_device_code_hash (save (record rec { state = denied }) w.devices) k)
              hash
          ∙ find-save (record rec { state = denied }) w.devices;
      key = sym hash;
      tenant = ground (arith, eq_iff rec.tenant_id "", ap (λ x. x.tenant_id) (sym same) ∙ r.tenant);
      client = sym client;
      in_time = ground arith;
    } in
    exchange-gate_err d e tenant_id input now' w' w' refused access_denied p
      (gate-denied refused _ w' refl)
