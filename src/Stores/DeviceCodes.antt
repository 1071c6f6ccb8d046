-- ===== src/Stores/DeviceCodes.antt =====
-- memory/device_codes.go: DeviceCodeStore. `byHash` and `byUserCode` hold the same pointer for a record.
pub mod Laws
use regenerative_architectur.Base.{
  ℕ, String, Bool, false, Option, none, some, List, [], ◌∷◌, ◌==◌, find, put, remove, if◌then◌else◌,
}
use regenerative_architectur.Base.Heap.{Heap, empty, alloc, read, modify}
use regenerative_architectur.Machines.DeviceFlow.{
  DeviceCodeFlowState, approved, exchange, transition,
}
use regenerative_architectur.Oauth2.Records.{DeviceAuthorization, Result, ok, err, internal}
use regenerative_architectur.Stores.Tenant.{default_tenant}

pub record DeviceCodeStore : Type 0 where
  pub heap : Heap DeviceAuthorization
  pub by_hash : List (String × ℕ)
  pub by_user_code : List (String × ℕ)

unfoldable pub new_device_code_store : DeviceCodeStore
new_device_code_store = record { heap = empty; by_hash = []; by_user_code = [] }

abbrev pub stored : DeviceAuthorization → DeviceAuthorization
stored rec = record rec { tenant_id = default_tenant rec.tenant_id }

-- Save and Update have the same body.
unfoldable pub save : DeviceAuthorization → DeviceCodeStore → DeviceCodeStore
save rec s = record {
  heap = alloc (stored rec) s.heap;
  by_hash = put rec.device_code_hash s.heap.next s.by_hash;
  by_user_code = put rec.user_code s.heap.next s.by_user_code;
}

unfoldable pub find_by_device_code_hash : DeviceCodeStore → String → Option DeviceAuthorization
find_by_device_code_hash s hash = read s.heap (find hash s.by_hash)

unfoldable pub find_by_user_code : DeviceCodeStore → String → Option DeviceAuthorization
find_by_user_code s code = read s.heap (find code s.by_user_code)

abbrev set_state : ℕ → DeviceCodeFlowState → DeviceCodeStore → DeviceCodeStore
set_state p next s = record s { heap = modify p (λ r. record r { state = next }) s.heap }

abbrev exchange_transition :
    ℕ
    → DeviceAuthorization
    → Option DeviceCodeFlowState
    → DeviceCodeStore
    → Result (Option DeviceAuthorization) × DeviceCodeStore
exchange_transition p rec none s = (err (internal "no transition"), s)
exchange_transition p rec (some next) s =
    (ok (some (record rec { state = next })), set_state p next s)

abbrev exchange_state :
    ℕ
    → DeviceAuthorization
    → DeviceCodeFlowState
    → DeviceCodeStore
    → Result (Option DeviceAuthorization) × DeviceCodeStore
exchange_state p rec approved s = exchange_transition p rec (transition rec.state exchange) s
exchange_state p rec _ s = (ok none, s)

abbrev exchange_at :
    ℕ
    → Option DeviceAuthorization
    → DeviceCodeStore
    → Result (Option DeviceAuthorization) × DeviceCodeStore
exchange_at p none s = (ok none, s)
exchange_at p (some rec) s = exchange_state p rec rec.state s

-- `ok none` when there is no approved record under the hash.
unfoldable pub exchange_code :
    String → DeviceCodeStore → Result (Option DeviceAuthorization) × DeviceCodeStore
unfolding transition
exchange_code hash s = elim (find hash s.by_hash) [
  | none ↦ (ok none, s)
  | some p ↦ exchange_at p (s.heap.cell p) s
]

abbrev is_sub : String → Option String → Bool
is_sub sub none = false
is_sub sub (some s) = s == sub

abbrev delete_if : String → String → Option DeviceAuthorization → DeviceCodeStore → DeviceCodeStore
delete_if sub hash none s = s
delete_if sub hash (some r) s =
    if is_sub sub r.sub
    then record s {
      by_hash = remove hash s.by_hash;
      by_user_code = remove r.user_code s.by_user_code;
    }
    else s

-- The loop of DeleteAllForSub over `byHash`.
unfoldable pub delete_loop : String → List (String × ℕ) → DeviceCodeStore → DeviceCodeStore
delete_loop sub [] s = s
delete_loop sub ((hash, p) ∷ m) s = delete_loop sub m (delete_if sub hash (s.heap.cell p) s)

unfoldable pub delete_all_for_sub : String → DeviceCodeStore → DeviceCodeStore
unfolding delete_loop
delete_all_for_sub sub s = delete_loop sub s.by_hash s
