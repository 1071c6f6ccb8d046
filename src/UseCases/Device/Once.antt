-- ===== src/UseCases/Device/Once.antt =====
-- A device code gives tokens once.
use regenerative_architectur.Base.{
  some_inj, ◌≡◌, ◌≢◌, refl, sym, ap, ◌∙◌, String, not, Option, some, ◌==◌,
}
use regenerative_architectur.Spec.{Time, or_clock}
use regenerative_architectur.Machines.DeviceFlow.{
  DeviceCodeFlowState, issued, user_code_entered, approved, denied, exchanged, expired,
}
use regenerative_architectur.Stores.DeviceCodes.{
  DeviceCodeStore, stored, save, find_by_device_code_hash, exchange_code,
}
use regenerative_architectur.Stores.DeviceCodes.Laws.{exchange_code-approved}
use regenerative_architectur.Oauth2.Records.{
  Oauth2Client, User, is_active, SenderConstraint, DeviceAuthorization, ok,
}
use regenerative_architectur.UseCases.Monad.{World}
use regenerative_architectur.UseCases.Inversion.{
  step_ok, lift_ok, some_ok, guard_ok, return_ok, try_devices_ok, some_or_ok,
}
use regenerative_architectur.UseCases.Ports.{Ports, Entropy}
use regenerative_architectur.UseCases.Refresh.{generate_initial_refresh_token}
use regenerative_architectur.UseCases.Device.Domain.{is_device_expired}
use regenerative_architectur.UseCases.Device.Exchange.{
  ExchangeDeviceCodeInput, ExchangeDeviceCodeResult, gate_by, state_gate, redeem_device_code,
  device_parties, issue_for_device, exchange_device_code,
}
use regenerative_architectur.UseCases.Device.Polling.{find-save, poll-polled}

-- Only an approved record passes the gate, which leaves the world as it is.
gate_by-ok :
    (s : DeviceCodeFlowState) (rec : DeviceAuthorization) (now : Time) {w w' : World}
    → gate_by s rec now w ≡ (ok tt, w')
    → (s ≡ approved) × (w ≡ w')
unfolding gate_by
gate_by-ok approved rec now h = (refl, cc)
gate_by-ok issued rec now h = absurd (cc (poll-polled rec now _, h))
gate_by-ok user_code_entered rec now h = absurd (cc (poll-polled rec now _, h))
gate_by-ok denied rec now h = absurd (cc)
gate_by-ok exchanged rec now h = absurd (cc)
gate_by-ok expired rec now h = absurd (cc)

state_gate-ok :
    (rec : DeviceAuthorization) (now : Time) {w w' : World}
    → state_gate rec now w ≡ (ok tt, w')
    → (rec.state ≡ approved) × (w ≡ w')
unfolding state_gate
state_gate-ok rec now h = gate_by-ok rec.state rec now h

-- What an exchange that goes through found, and what it hands on.
record Redeemed (hash : String) (w w' : World) (rec : DeviceAuthorization) : Type 0 where
  before : DeviceAuthorization
  known : find_by_device_code_hash w.devices hash ≡ some before
  was_approved : before.state ≡ approved
  handed : rec ≡ record before { state = exchanged }

redeem-Redeemed :
    (d : Ports) (tenant_id : String) (input : ExchangeDeviceCodeInput) (now : Time) {w w' : World}
    {rec : DeviceAuthorization}
    → redeem_device_code d tenant_id input now w ≡ (ok rec, w')
    → Redeemed (d.sha256_hex input.device_code) w w' rec
unfolding redeem_device_code
redeem-Redeemed d tenant_id input now {w} {w'} {rec} h0 =
    let hash = d.sha256_hex input.device_code in
    let (found, known, h1) = some_ok (find_by_device_code_hash w.devices hash) _ w _ refl h0 in
    let (tenant, h2) = guard_ok (found.tenant_id == tenant_id) _ w _ h1 in
    let (client, h3) = guard_ok (found.client_id == input.client_id) _ w _ h2 in
    let (in_time, h4) = guard_ok (not (is_device_expired d.clock found now)) _ w _ h3 in
    let (u, v, gate, h5) = step_ok (state_gate found now w) _ h4 in
    let (state, same) = state_gate-ok found now gate in
    let (redeemed, s, exchanged_to, h6) = try_devices_ok (exchange_code hash v.devices) v _ h5 in
    let (is_some, last) = some_or_ok redeemed _ (record v { devices = s }) h6 in
    let (before, there, was_approved, handed) =
      exchange_code-approved hash v.devices s rec (exchanged_to ∙ ap (λ o. (ok o, s)) is_some) in
    record {
      before = before;
      known = ap (λ x. find_by_device_code_hash x.devices hash) same ∙ there;
      was_approved = was_approved;
      handed = handed;
    }

device_parties-same :
    (d : Ports) (tenant_id client_id : String) (rec : DeviceAuthorization) {w w' : World}
    {parties : Oauth2Client × User}
    → device_parties d tenant_id client_id rec w ≡ (ok parties, w')
    → w ≡ w'
unfolding device_parties
device_parties-same d tenant_id client_id rec {w} h0 =
    let (found, is_found, h1) = lift_ok (d.find_client tenant_id client_id) w _ h0 in
    let (c, is_c, h2) = some_ok found _ w _ refl h1 in
    let (sub, is_sub, h3) = some_ok rec.sub _ w _ refl h2 in
    let (owner, is_owner, h4) = lift_ok (d.find_user sub) w _ h3 in
    let (u, is_u, h5) = some_ok owner _ w _ refl h4 in
    let (tenant, h6) = guard_ok (u.tenant_id == tenant_id) _ w _ h5 in
    let (active, h7) = guard_ok (is_active u) _ w _ h6 in (return_ok h7).1

-- The tokens of a device code are stored with the record, which keeps its state.
issue_for_device-saved :
    (d : Ports) (e : Entropy) (tenant_id : String) (c : Oauth2Client) (u : User)
    (rec : DeviceAuthorization) (sc : Option SenderConstraint) (now : Time) (w : World) {w' : World}
    {r : ExchangeDeviceCodeResult}
    → issue_for_device d e tenant_id c u rec sc now w ≡ (ok r, w')
    → (family : String) × (s : DeviceCodeStore) × (w'.devices
        ≡ save (record rec { issued_family_id = some family }) s)
unfolding issue_for_device
issue_for_device-saved d e tenant_id c u rec sc now w {w'} h0 =
    let (auth_time, is_time, h1) = some_ok rec.auth_time _ w _ refl h0 in
    let (signed, is_signed, h2) = lift_ok (d.sign_access_token _) w _ h1 in
    let (id_token, is_id, h3) = lift_ok (d.sign_id_token _) _ _ h2 in
    let (gen, v, made, h4) =
      step_ok (generate_initial_refresh_token d e c.client_id u.sub rec.scopes sc now _) _ h3 in
    (_, _, ap (λ x. x.devices) (sym (return_ok h4).1))

-- A device code gives tokens at most once: after an exchange that returned tokens, no exchange of the
-- same device code returns tokens in the state that it left, whatever the tenant, the client, the proof
-- and the time. The record that the device code leads to has its hash.
pub exchange_device_code-once :
    (d : Ports) (e e' : Entropy) (tenant_id tenant_id' : String)
    (input input' : ExchangeDeviceCodeInput) (now now' : Time) (w w' w'' : World)
    (r r' : ExchangeDeviceCodeResult)
    → ((rec : DeviceAuthorization)
        → find_by_device_code_hash w.devices (d.sha256_hex input.device_code) ≡ some rec
        → rec.device_code_hash ≡ d.sha256_hex input.device_code)
    → exchange_device_code d e tenant_id input now w ≡ (ok r, w')
    → input'.device_code ≡ input.device_code
    → exchange_device_code d e' tenant_id' input' now' w' ≢ (ok r', w'')
unfolding exchange_device_code
exchange_device_code-once d e e' tenant_id tenant_id' input input' now now' w w' w'' r r' keyed h0
      same_code k0 =
    let hash = d.sha256_hex input.device_code in
    let (rec, v, redeemed, h1) =
      step_ok (redeem_device_code d tenant_id input (or_clock d.clock now) w) _ h0 in
    let x = redeem-Redeemed d tenant_id input (or_clock d.clock now) redeemed in
    let (parties, u, found, h2) = step_ok (device_parties d tenant_id input.client_id rec v) _ h1 in
    let (family, s, saved) =
      issue_for_device-saved d e tenant_id parties.0 parties.1 rec _ _ u h2 in
    let key : rec.device_code_hash ≡ hash =
      ap (λ y. y.device_code_hash) x.handed ∙ keyed x.before x.known in
    let left : find_by_device_code_hash w'.devices hash
        ≡ some (stored (record rec { issued_family_id = some family })) =
      ap (λ y. find_by_device_code_hash y hash) saved
      ∙ ap
          (λ y. find_by_device_code_hash (save (record rec { issued_family_id = some family }) s) y)
          (sym key)
      ∙ find-save (record rec { issued_family_id = some family }) s in
    let (rec', v', redeemed', k1) =
      step_ok (redeem_device_code d tenant_id' input' (or_clock d.clock now') w') _ k0 in
    let y = redeem-Redeemed d tenant_id' input' (or_clock d.clock now') redeemed' in
    let again : y.before ≡ stored (record rec { issued_family_id = some family }) = some_inj (
      sym y.known
      ∙ ap (λ z. find_by_device_code_hash w'.devices (d.sha256_hex z)) same_code
      ∙ left) in
    let clash : approved ≡ exchanged =
      sym y.was_approved ∙ ap (λ z. z.state) again ∙ ap (λ z. z.state) x.handed in
    absurd (cc clash)
