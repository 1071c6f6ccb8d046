-- ===== src/UseCases/Device/Polling.antt =====
-- What a device that polls is told, before and after the user has decided.
use regenerative_architectur.Stores.Tenant.{default_tenant}
use regenerative_architectur.Base.{
  ◌≢◌, ℕ, ◌+◌, ◌*◌, ltb, Option, none, Option-cases, ◌≡◌, refl, sym, ap, ◌∙◌, String, Bool, true,
  false, inl, inr, some, arith, eq_iff, find-put_self, Bool-cases, if◌then◌else◌,
}
use regenerative_architectur.Spec.{Time, or_clock}
use regenerative_architectur.Machines.DeviceFlow.{
  DeviceCodeFlowState, issued, user_code_entered, denied,
}
use regenerative_architectur.Stores.DeviceCodes.{
  DeviceCodeStore, stored, save, find_by_device_code_hash,
}
use regenerative_architectur.Oauth2.Records.{
  DeviceAuthorization, OauthError, oauth, Result, err, slow_down, authorization_pending,
  access_denied,
}
use regenerative_architectur.UseCases.Monad.{World}
use regenerative_architectur.UseCases.Ports.{Ports, Entropy}
use regenerative_architectur.UseCases.Device.Domain.{is_device_expired}
use regenerative_architectur.UseCases.Device.Exchange.{
  ExchangeDeviceCodeInput, is_too_soon, slowed, poll, gate_by, state_gate, redeem_device_code,
  exchange_device_code,
}

pub find-save :
    (rec : DeviceAuthorization) (s : DeviceCodeStore)
    → find_by_device_code_hash (save rec s) rec.device_code_hash ≡ some (stored rec)
unfolding find_by_device_code_hash save
find-save rec s = rw (find-put_self rec.device_code_hash s.heap.next s.by_hash) (ground arith)

-- The checks of the exchange that come before the record's state hold for a record.
pub record Presented (d : Ports) (tenant_id : String) (input : ExchangeDeviceCodeInput) (now : Time)
    (w : World) (rec : DeviceAuthorization) : Type 0 where
  pub known : find_by_device_code_hash w.devices (d.sha256_hex input.device_code) ≡ some rec
  pub key : rec.device_code_hash ≡ d.sha256_hex input.device_code
  pub tenant : rec.tenant_id ≡ tenant_id
  pub client : rec.client_id ≡ input.client_id
  pub in_time : is_device_expired d.clock rec (or_clock d.clock now) ≡ false

pub exchange-gate_err :
    (d : Ports) (e : Entropy) (tenant_id : String) (input : ExchangeDeviceCodeInput) (now : Time)
    (w v : World) (rec : DeviceAuthorization) (x : OauthError)
    → Presented d tenant_id input now w rec
    → state_gate rec (or_clock d.clock now) w ≡ (err (oauth x), v)
    → exchange_device_code d e tenant_id input now w ≡ (err (oauth x), v)
unfolding exchange_device_code redeem_device_code
exchange-gate_err d e tenant_id input now w v rec x p h =
    rw p.known
      (rw ((eq_iff _ _).1 p.tenant) (rw ((eq_iff _ _).1 p.client) (rw p.in_time (rw h refl))))

-- The user has not decided.
abbrev pub is_waiting : DeviceCodeFlowState → Bool
is_waiting issued = true
is_waiting user_code_entered = true
is_waiting _ = false

gate-waiting :
    (s : DeviceCodeFlowState) (rec : DeviceAuthorization) (now : Time) (w : World)
    → is_waiting s ≡ true
    → gate_by s rec now w ≡ poll rec now w
unfolding gate_by
gate-waiting issued rec now w h = refl
gate-waiting user_code_entered rec now w h = refl
gate-waiting _ rec now w h = absurd (ground arith)

state_gate-by :
    (rec : DeviceAuthorization) (now : Time) (w : World)
    → state_gate rec now w ≡ gate_by rec.state rec now w
unfolding state_gate
state_gate-by rec now w = refl

pub gate-denied :
    (rec : DeviceAuthorization) (now : Time) (w : World)
    → rec.state ≡ denied
    → state_gate rec now w ≡ (err (oauth access_denied), w)
unfolding state_gate gate_by
gate-denied rec now w h = ap (λ s. gate_by s rec now w) h

-- The record that a poll leaves.
abbrev pub polled : DeviceAuthorization → Time → DeviceAuthorization
polled rec now =
    if is_too_soon rec now then slowed rec now else record rec { last_polled_at = some now }

abbrev pub poll_answer : DeviceAuthorization → Time → OauthError
poll_answer rec now = if is_too_soon rec now then slow_down else authorization_pending

pub poll-polled :
    (rec : DeviceAuthorization) (now : Time) (w : World)
    → poll rec now w
      ≡ (err (oauth (poll_answer rec now)), record w { devices = save (polled rec now) w.devices })
unfolding poll
poll-polled rec now w = elim (Bool-cases (is_too_soon rec now)) [
  | inl early ↦ rw early refl
  | inr late ↦ rw late refl
]

pub polled-key :
    (rec : DeviceAuthorization) (now : Time)
    → (polled rec now).device_code_hash ≡ rec.device_code_hash
unfolding slowed
polled-key rec now = elim (Bool-cases (is_too_soon rec now)) [
  | inl early ↦ rw early refl
  | inr late ↦ rw late refl
]

pub state_gate-polled :
    (rec : DeviceAuthorization) (now : Time) (w : World)
    → is_waiting rec.state ≡ true
    → state_gate rec now w
      ≡ (err (oauth (poll_answer rec now)), record w { devices = save (polled rec now) w.devices })
state_gate-polled rec now w waits =
    state_gate-by rec now w ∙ gate-waiting rec.state rec now w waits ∙ poll-polled rec now w

-- A poll at a time comes less than a number of seconds after the last one.
abbrev pub comes_early : Option Time → ℕ → Time → Bool
comes_early none interval at = false
comes_early (some last) interval at = ltb at (last + interval * 1000000000)

-- What a device is told that polls early or not, and its interval from then on.
abbrev pub told : Bool → OauthError
told early = if early then slow_down else authorization_pending

abbrev pub next_interval : Bool → ℕ → ℕ
next_interval early interval = if early then interval + 5 else interval

abbrev pub is_early : DeviceAuthorization → Time → Bool
is_early rec at = comes_early rec.last_polled_at rec.interval_seconds at

-- The record after a poll.
abbrev pub after_poll : DeviceAuthorization → Time → DeviceAuthorization
after_poll rec at = record rec {
  tenant_id = default_tenant rec.tenant_id;
  interval_seconds = next_interval (is_early rec at) rec.interval_seconds;
  last_polled_at = some at;
}

is_too_soon-early : (rec : DeviceAuthorization) (at : Time) → is_too_soon rec at ≡ is_early rec at
unfolding is_too_soon
is_too_soon-early rec at = elim (Option-cases rec.last_polled_at) [
  | inl never ↦ rw never refl
  | inr (last, is) ↦ rw is refl
]

polled-after_poll :
    (rec : DeviceAuthorization) (at : Time) → stored (polled rec at) ≡ after_poll rec at
unfolding slowed
polled-after_poll rec at = elim (Bool-cases (is_too_soon rec at)) [
  | inl early ↦ rw (early, sym (is_too_soon-early rec at) ∙ early) refl
  | inr late ↦ rw (late, sym (is_too_soon-early rec at) ∙ late) refl
]

exchange_device_code-answer :
    (d : Ports) (e : Entropy) (tenant_id : String) (input : ExchangeDeviceCodeInput) (now : Time)
    (w : World) (rec : DeviceAuthorization)
    → Presented d tenant_id input now w rec
    → is_waiting rec.state ≡ true
    → (v : DeviceCodeStore) × (exchange_device_code d e tenant_id input now w
        ≡ (err (oauth (told (is_early rec (or_clock d.clock now)))), record w { devices = v }))
      × (find_by_device_code_hash v (d.sha256_hex input.device_code)
          ≡ some (after_poll rec (or_clock d.clock now)))
exchange_device_code-answer d e tenant_id input now w rec p waits =
    let at = or_clock d.clock now in
    (
      save (polled rec at) w.devices,
      exchange-gate_err d e tenant_id input now w _ rec _ p (state_gate-polled rec at w waits)
          ∙ ap (λ b. (err (oauth (told b)), record w { devices = save (polled rec at) w.devices }))
              (is_too_soon-early rec at),
      ap (λ k. find_by_device_code_hash (save (polled rec at) w.devices) k)
            (sym (polled-key rec at ∙ p.key))
          ∙ find-save (polled rec at) w.devices
          ∙ ap (λ r. some r) (polled-after_poll rec at),
    )

still_presented :
    (d : Ports) (tenant_id : String) (input : ExchangeDeviceCodeInput) (now now' : Time)
    (w v : World) (rec : DeviceAuthorization)
    → Presented d tenant_id input now w rec
    → tenant_id ≢ ""
    → is_device_expired d.clock rec (or_clock d.clock now') ≡ false
    → find_by_device_code_hash v.devices (d.sha256_hex input.device_code)
      ≡ some (after_poll rec (or_clock d.clock now))
    → Presented d tenant_id input now' v (after_poll rec (or_clock d.clock now))
unfolding is_device_expired default_tenant
still_presented d tenant_id input now now' w v rec p named in_time known = record {
  known = known;
  key = p.key;
  tenant = ground (arith, p.tenant, eq_iff rec.tenant_id "", named);
  client = p.client;
  in_time = in_time;
}

-- The interval after the first of two polls, and whether the second comes within it.
abbrev pub interval_after : DeviceAuthorization → Time → ℕ
interval_after rec at = next_interval (is_early rec at) rec.interval_seconds

abbrev pub again_early : DeviceAuthorization → Time → Time → Bool
again_early rec at at' = comes_early (some at) (interval_after rec at) at'

-- The answers to two polls and what they leave.
pub record Polled {R : Type 0} (hash : String) (rec : DeviceAuthorization) (at at' : Time)
    (w : World) (one two : Result R × World) : Type 0 where
  pub first : one.0 ≡ err (oauth (told (is_early rec at)))
  pub second : two.0 ≡ err (oauth (told (again_early rec at at')))
  pub devices : DeviceCodeStore
  pub left : two.1 ≡ record w { devices = devices }
  pub kept : DeviceAuthorization
  pub found : find_by_device_code_hash devices hash ≡ some kept
  pub interval :
      kept.interval_seconds ≡ next_interval (again_early rec at at') (interval_after rec at)
  pub last : kept.last_polled_at ≡ some at'
  pub state : kept.state ≡ rec.state

-- Two polls in a row before the user has decided give no token. Each is answered slow_down if it comes
-- within the interval after the poll before it, and authorization_pending otherwise; for the second one
-- that interval runs from the first, and is five seconds longer if that one came early. The record keeps
-- the time of the last poll and the interval that follows from both, and no other store and no event
-- changes. The record belongs to the tenant, which has a name, and to the client, and its time has not
-- passed at either poll.
pub exchange_device_code-Polled :
    (d : Ports) (e e' : Entropy) (tenant_id : String) (input : ExchangeDeviceCodeInput)
    (now now' : Time) (w : World) (rec : DeviceAuthorization)
    → Presented d tenant_id input now w rec
    → is_waiting rec.state ≡ true
    → tenant_id ≢ ""
    → is_device_expired d.clock rec (or_clock d.clock now') ≡ false
    → Polled
        (d.sha256_hex input.device_code)
        rec
        (or_clock d.clock now)
        (or_clock d.clock now')
        w
        (exchange_device_code d e tenant_id input now w)
        (exchange_device_code d e' tenant_id input now'
          (exchange_device_code d e tenant_id input now w).1)
exchange_device_code-Polled d e e' tenant_id input now now' w rec p waits named in_time =
    let (v, first, known) = exchange_device_code-answer d e tenant_id input now w rec p waits in
    let w1 = record w { devices = v } in
    let p' = still_presented d tenant_id input now now' w w1 rec p named in_time known in
    let (v', second, known') =
      exchange_device_code-answer d e' tenant_id input now' w1
        (after_poll rec (or_clock d.clock now)) p' waits in
    let there = ap (λ r. exchange_device_code d e' tenant_id input now' r.1) first ∙ second in
    record {
      first = ap (λ r. r.0) first;
      second = ap (λ r. r.0) there;
      devices = v';
      left = ap (λ r. r.1) there;
      kept = after_poll (after_poll rec (or_clock d.clock now)) (or_clock d.clock now');
      found = known';
      interval = refl;
      last = refl;
      state = refl;
    }
