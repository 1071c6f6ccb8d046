-- ===== src/Stores/Par.antt =====
-- memory/par.go: PARStore, with the clock as an argument. The map holds the caller's pointer; the
-- records are not written to by anything but Consume.
pub mod Laws
use regenerative_architectur.Base.{
  String, Bool, true, false, ◌||◌, Option, none, some, List, find, put, if◌then◌else◌,
}
use regenerative_architectur.Spec.{Time, before}
use regenerative_architectur.Stores.Tenant.{default_tenant}

-- spec.PARRecord; `request` stands for the pushed parameters.
pub record ParRecord {ℓ} (R : Type ℓ) : Type ℓ where
  pub request_uri : String
  pub tenant_id : String
  pub client_id : String
  pub request : R
  pub expires_at : Time
  pub used : Bool

abbrev pub ParStore {ℓ} : Type ℓ → Type ℓ
ParStore R = List (String × ParRecord R)

module _ {ℓ} {R : Type ℓ} where
  unfoldable pub save : ParRecord R → ParStore R → ParStore R
  unfolding default_tenant
  save rec s = put rec.request_uri (record rec { tenant_id = default_tenant rec.tenant_id }) s

  unfoldable pub find_par : ParStore R → String → Option (ParRecord R)
  find_par s uri = find uri s

  unfoldable pub consume : Time → String → ParStore R → Option (ParRecord R) × ParStore R
  consume clock uri s = elim (find uri s) [
    | none ↦ (none, s)
    | some rec ↦
        if rec.used || before rec.expires_at clock
        then (none, s)
        else (some (record rec { used = true }), put uri (record rec { used = true }) s)
  ]
