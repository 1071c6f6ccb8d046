-- ===== src/Stores/DeviceCodes/Laws.antt =====
-- What Exchange of memory/device_codes.go hands out.
use regenerative_architectur.Base.{
  ℕ, String, ◌≡◌, refl, sym, ap, ◌∙◌, inl, inr, some, arith, find, Option-cases,
}
use regenerative_architectur.Machines.DeviceFlow.{
  DeviceCodeFlowState, approved, exchanged, exchange, transition,
}
use regenerative_architectur.Oauth2.Records.{DeviceAuthorization, ok}
use regenerative_architectur.Stores.DeviceCodes.{
  DeviceCodeStore, find_by_device_code_hash, exchange_code, exchange_state, exchange_transition,
}

exchange_state-approved :
    (p : ℕ) (before rec : DeviceAuthorization) (st : DeviceCodeFlowState) (s t : DeviceCodeStore)
    → before.state ≡ st
    → exchange_state p before st s ≡ (ok (some rec), t)
    → (before.state ≡ approved) × (rec ≡ record before { state = exchanged })
unfolding transition
exchange_state-approved p before rec approved s t same e =
    let next : transition before.state exchange ≡ some exchanged =
      ap (λ x. transition x exchange) same in
    let handed : exchange_transition p before (some exchanged) s ≡ (ok (some rec), t) =
      ap (λ o. exchange_transition p before o s) (sym next) ∙ e in
    (same, cc)
exchange_state-approved p before rec _ s t same e = absurd (cc)

-- A record that Exchange hands out was found under the hash and approved, and is exchanged now.
pub exchange_code-approved :
    (hash : String) (s t : DeviceCodeStore) (rec : DeviceAuthorization)
    → exchange_code hash s ≡ (ok (some rec), t)
    → (before : DeviceAuthorization) × (find_by_device_code_hash s hash ≡ some before)
      × (before.state ≡ approved)
      × (rec ≡ record before { state = exchanged })
unfolding exchange_code find_by_device_code_hash
exchange_code-approved hash s t rec e = elim (Option-cases (find hash s.by_hash)) [
  | inl missing ↦ absurd (ground (arith, missing))
  | inr (p, found) ↦ elim (Option-cases (s.heap.cell p)) [
    | inl dangling ↦ absurd (ground (arith, found, dangling))
    | inr (before, at) ↦
        let handed : exchange_state p before before.state s ≡ (ok (some rec), t) =
          ground (arith, found, at, e) in
        let (was, now_is) = exchange_state-approved p before rec before.state s t refl handed in
        (before, rw found at, was, now_is)
  ]
]
