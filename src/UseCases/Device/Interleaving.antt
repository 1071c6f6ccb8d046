-- ===== src/UseCases/Device/Interleaving.antt =====
-- A poll of oauth2/usecases/device_flow.go whose read and write stand around a decision of the user.
use regenerative_architectur.Base.{
  some_inj, ◌≡◌, refl, sym, ap, ◌∙◌, String, true, inl, inr, some, Bool-cases,
}
use regenerative_architectur.Spec.{Time, or_clock, unix}
use regenerative_architectur.Machines.DeviceFlow.{approved}
use regenerative_architectur.Stores.DeviceCodes.{
  stored, save, find_by_device_code_hash, find_by_user_code,
}
use regenerative_architectur.Oauth2.Records.{DeviceAuthorization, ok}
use regenerative_architectur.UseCases.Monad.{World}
use regenerative_architectur.UseCases.Ports.{Ports}
use regenerative_architectur.UseCases.Device.Domain.{normalize_user_code}
use regenerative_architectur.UseCases.Device.Verify.{approve_user_code}
use regenerative_architectur.UseCases.Device.Exchange.{is_too_soon, slowed, state_gate}
use regenerative_architectur.UseCases.Device.Polling.{
  is_waiting, polled, polled-key, state_gate-polled, find-save,
}
use regenerative_architectur.UseCases.Device.Decision.{approve_user_code-ApprovedRecord}

polled-state : (rec : DeviceAuthorization) (now : Time) → (polled rec now).state ≡ rec.state
unfolding slowed
polled-state rec now = elim (Bool-cases (is_too_soon rec now)) [
  | inl early ↦ rw early refl
  | inr late ↦ rw late refl
]

-- Whatever happened since the record was read, the write of a poll makes it the stored one again.
gate-writes :
    (rec : DeviceAuthorization) (now : Time) (w : World)
    → is_waiting rec.state ≡ true
    → find_by_device_code_hash (state_gate rec now w).1.devices rec.device_code_hash
      ≡ some (stored (polled rec now))
gate-writes rec now w waits =
    ap (λ x. find_by_device_code_hash x.1.devices rec.device_code_hash)
      (state_gate-polled rec now w waits)
    ∙ ap (λ k. find_by_device_code_hash (save (polled rec now) w.devices) k)
        (sym (polled-key rec now))
    ∙ find-save (polled rec now) w.devices

-- A poll and an approval overlap: the poll's exchange read the record of a device code before the user
-- decided, the user's approval succeeds, and then the poll goes on with what it had read. The approval
-- had made the device code lead to an approved record, and after the poll it leads to one that waits for
-- the user again.
pub approve_user_code-overwritten :
    (d : Ports) (tenant_id user_code sub : String) (now now' : Time) (w w' : World)
    (rec : DeviceAuthorization)
    → find_by_user_code w.devices (normalize_user_code d user_code) ≡ some rec
    → is_waiting rec.state ≡ true
    → approve_user_code d tenant_id user_code sub now w ≡ (ok tt, w')
    → ((a : DeviceAuthorization) × (find_by_device_code_hash w'.devices rec.device_code_hash
          ≡ some a)
        × (a.state ≡ approved))
      × ((b : DeviceAuthorization) × (find_by_device_code_hash
              (state_gate rec now' w').1.devices
              rec.device_code_hash
            ≡ some b)
          × (is_waiting b.state ≡ true))
approve_user_code-overwritten d tenant_id user_code sub now now' w w' rec known waits h =
    let a = approve_user_code-ApprovedRecord d tenant_id user_code sub now w w' h in
    let same : a.rec ≡ rec = some_inj (sym a.known ∙ known) in
    let decide = λ (r : DeviceAuthorization). record r {
      state = approved;
      sub = some sub;
      auth_time = some (unix (or_clock d.clock now));
    } in
    let saved = a.saved ∙ ap (λ r. save (decide r) w.devices) same in
    (
      (
        stored (decide rec),
        ap (λ s. find_by_device_code_hash s rec.device_code_hash) saved
            ∙ find-save (decide rec) w.devices,
        refl,
      ),
      (
        stored (polled rec now'),
        gate-writes rec now' w' waits,
        ap is_waiting (polled-state rec now') ∙ waits,
      ),
    )
