-- ===== src/Tests/Device.antt =====
-- The device grant on the deployment of the fixtures.
use regenerative_architectur.Base.{
  false, ◌≡◌, ◌≢◌, refl, sym, ap, some_inj, ℕ, arith, String, true, some, [], ◌∷◌, find, put,
}
use regenerative_architectur.Base.Words.{join}
use regenerative_architectur.Oauth2.Records.{
  DeviceAuthorization, is_active, ok, err, oauth, access_denied,
}
use regenerative_architectur.Stores.Tenant.{default_tenant}
use regenerative_architectur.Stores.DeviceCodes.{find_by_device_code_hash, find_by_user_code}
use regenerative_architectur.UseCases.Monad.{World}
use regenerative_architectur.UseCases.Device.{
  ExchangeDeviceCodeInput, ExchangeDeviceCodeResult, state_gate, is_device_expired,
  normalize_user_code, keep_index_chars, deny_user_code, approve_user_code, exchange_device_code,
}
use regenerative_architectur.Machines.DeviceFlow.{approved}
use regenerative_architectur.UseCases.Device.UserCode.{
  raw_user_code, generate_user_code, normalize-generate,
}
use regenerative_architectur.UseCases.Device.Interleaving.{approve_user_code-overwritten}
use regenerative_architectur.UseCases.Device.Once.{exchange_device_code-once}
use regenerative_architectur.UseCases.Device.Polling.{
  Presented, Polled, is_waiting, exchange_device_code-Polled,
}
use regenerative_architectur.UseCases.Device.Decision.{
  ApprovedRecord, approve_user_code-ApprovedRecord, deny_user_code-access_denied,
}
use regenerative_architectur.Tests.Fixtures.{ports, draws, device_record, world}

abbrev input : ExchangeDeviceCodeInput
input = record { client_id = "web"; device_code = "d1"; proof_jkt = ""; proof_x5t_s256 = "" }

presented : Presented ports "acme" input 0 world device_record
unfolding world find_by_device_code_hash find put default_tenant is_device_expired
presented = record { known = refl; key = refl; tenant = refl; client = refl; in_time = refl }

acme_given : ◌≢◌ {A = String} "acme" ""
acme_given e = cc

in_time : is_device_expired 1000 device_record 1500 ≡ false
unfolding is_device_expired
in_time = refl

-- Two polls of the device code "d1", the second of them too soon.
exchange_device_code-Polled_example :
    Polled "d1" device_record 1000 1500 world
      (exchange_device_code ports draws "acme" input 0 world)
      (exchange_device_code ports draws "acme" input 1500
        (exchange_device_code ports draws "acme" input 0 world).1)
exchange_device_code-Polled_example =
    exchange_device_code-Polled ports draws draws "acme" input 0 1500 world device_record presented
      refl acme_given in_time

abbrev after_denial : World
after_denial = (deny_user_code ports "acme" "BCDF" "alice" 0 world).1

denied_once : deny_user_code ports "acme" "BCDF" "alice" 0 world ≡ (ok tt, after_denial)
unfolding deny_user_code world find_by_user_code find put default_tenant normalize_user_code
    keep_index_chars
denied_once = refl

code_known : find_by_user_code world.devices (normalize_user_code ports "BCDF") ≡ some device_record
unfolding world find_by_user_code find put default_tenant normalize_user_code keep_index_chars
code_known = refl

later : ◌≢◌ {A = ℕ} 1000 0
later e = omega arith

-- The device code "d1", after the user refused.
deny_user_code-access_denied_example :
    exchange_device_code ports draws "acme" input 0 after_denial
    ≡ (err (oauth access_denied), after_denial)
deny_user_code-access_denied_example =
    deny_user_code-access_denied ports draws "acme" "BCDF" "alice" 0 world after_denial
      device_record input 0 denied_once code_known acme_given refl refl refl later

abbrev after_approval : World
after_approval = (approve_user_code ports "acme" "BCDF" "alice" 0 world).1

approved_once : approve_user_code ports "acme" "BCDF" "alice" 0 world ≡ (ok tt, after_approval)
unfolding approve_user_code world find_by_user_code find put default_tenant normalize_user_code
    keep_index_chars
approved_once = refl

-- The user code "BCDF", approved.
approve_user_code-ApprovedRecord_example :
    ApprovedRecord ports "acme" "BCDF" "alice" 0 world after_approval
approve_user_code-ApprovedRecord_example =
    approve_user_code-ApprovedRecord ports "acme" "BCDF" "alice" 0 world after_approval
      approved_once

-- A poll of the device code "d1" around its approval.
approve_user_code-overwritten_example :
    ((a : DeviceAuthorization) × (find_by_device_code_hash after_approval.devices "d1" ≡ some a)
      × (a.state ≡ approved))
    × ((b : DeviceAuthorization) × (find_by_device_code_hash
            (state_gate device_record 1000 after_approval).1.devices
            "d1"
          ≡ some b)
        × (is_waiting b.state ≡ true))
approve_user_code-overwritten_example =
    approve_user_code-overwritten ports "acme" "BCDF" "alice" 0 1000 world after_approval
      device_record code_known refl approved_once

abbrev after_exchange : World
after_exchange = (exchange_device_code ports draws "acme" input 0 after_approval).1

abbrev result : ExchangeDeviceCodeResult
result = record {
  access_token = "access";
  refresh_token = "t2";
  id_token = "id";
  token_type = "Bearer";
  expires_in = 600;
  scope = "openid";
}

exchanged_once :
    exchange_device_code ports draws "acme" input 0 after_approval ≡ (ok result, after_exchange)
unfolding exchange_device_code find approve_user_code world put is_active join
exchanged_once = refl

keyed :
    (rec : DeviceAuthorization)
    → find_by_device_code_hash after_approval.devices "d1" ≡ some rec
    → rec.device_code_hash ≡ "d1"
unfolding find_by_device_code_hash find approve_user_code world put
keyed rec e = ap (λ r. r.device_code_hash) (sym (some_inj e))

-- The device code "d1", exchanged a second time.
exchange_device_code-once_example :
    exchange_device_code ports draws "acme" input 0 after_exchange ≢ (ok result, after_exchange)
exchange_device_code-once_example =
    exchange_device_code-once ports draws draws "acme" "acme" input input 0 0 after_approval
      after_exchange after_exchange result result keyed exchanged_once refl

-- The draws of "CDFGHJKL".
normalize-generate_example :
    (raw : String) × (shown : String) × (raw_user_code (1 ∷ 2 ∷ 3 ∷ 4 ∷ 5 ∷ 6 ∷ 7 ∷ 8 ∷ [])
      ≡ some raw)
    × (generate_user_code (1 ∷ 2 ∷ 3 ∷ 4 ∷ 5 ∷ 6 ∷ 7 ∷ 8 ∷ []) ≡ some shown)
    × (normalize_user_code ports shown ≡ raw)
normalize-generate_example =
    normalize-generate ports (1 ∷ 2 ∷ 3 ∷ 4 ∷ 5 ∷ 6 ∷ 7 ∷ 8 ∷ [])
      (
        omega arith,
        (
          omega arith,
          (
            omega arith,
            (omega arith, (omega arith, (omega arith, (omega arith, (omega arith, tt))))),
          ),
        ),
      )
      (omega arith) (λ s e. refl)
