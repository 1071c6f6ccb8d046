-- ===== src/Stores/RefreshTokens.antt =====
-- memory/refresh_tokens.go: RefreshTokenStore. `byHash` and `byID` hold the same pointer for a record,
-- so a change made through one is seen through the other.
pub mod Abstract
pub mod Invariant
pub mod Laws
pub mod Refinement
use mathlib.Core.Option
use regenerative_architectur.Base.{
  ℕ, String, Bool, true, false, ◌||◌, Option, none, some, List, [], ◌∷◌, ◌==◌, find, put, remove,
  if◌then◌else◌,
}
use regenerative_architectur.Base.Heap.{Heap, empty, alloc, read, modify, modify_all}
use regenerative_architectur.Oauth2.Records.{RefreshTokenRecord, Result, ok, err, internal}
use regenerative_architectur.Stores.Tenant.{default_tenant}

pub record RefreshTokenStore : Type 0 where
  pub heap : Heap RefreshTokenRecord
  pub by_hash : List (String × ℕ)
  pub by_id : List (String × ℕ)

unfoldable pub new_refresh_token_store : RefreshTokenStore
new_refresh_token_store = record { heap = empty; by_hash = []; by_id = [] }

unfoldable pub find_by_hash : RefreshTokenStore → String → Option RefreshTokenRecord
find_by_hash s hash = read s.heap (find hash s.by_hash)

-- The record as it is stored.
abbrev pub stored : RefreshTokenRecord → RefreshTokenRecord
stored rec = record rec { tenant_id = default_tenant rec.tenant_id }

-- What Save and Rotate do with a record: default its tenant, store it, enter its pointer in the maps.
unfoldable pub save : RefreshTokenRecord → RefreshTokenStore → RefreshTokenStore
save rec s = record {
  heap = alloc (stored rec) s.heap;
  by_hash = put rec.hash s.heap.next s.by_hash;
  by_id = put rec.id s.heap.next s.by_id;
}

abbrev pub mark_rotated : RefreshTokenRecord → RefreshTokenRecord
mark_rotated r = record r { rotated = true }

-- Marks the parent rotated and stores its successor; `ok none` when the parent was used before.
abbrev rotate_at :
    RefreshTokenRecord
    → ℕ
    → Option RefreshTokenRecord
    → RefreshTokenStore
    → Result (Option RefreshTokenRecord) × RefreshTokenStore
rotate_at new_rec p none s = (err (internal "parent refresh token not found"), s)
rotate_at new_rec p (some parent) s = if parent.rotated || parent.revoked then (ok none, s) else (
  ok (some (stored new_rec)),
  save new_rec (record s { heap = modify p mark_rotated s.heap }),
)

unfoldable pub rotate :
    String
    → RefreshTokenRecord
    → RefreshTokenStore
    → Result (Option RefreshTokenRecord) × RefreshTokenStore
rotate parent_id new_rec s = elim (find parent_id s.by_id) [
  | none ↦ (err (internal "parent refresh token not found"), s)
  | some p ↦ rotate_at new_rec p (s.heap.cell p) s
]

abbrev pub revoke_in : String → RefreshTokenRecord → RefreshTokenRecord
revoke_in family r = if r.family_id == family then record r { revoked = true } else r

abbrev pub pointers : List (String × ℕ) → List ℕ
pointers [] = []
pointers ((k, p) ∷ m) = p ∷ pointers m

unfoldable pub revoke_family : String → RefreshTokenStore → RefreshTokenStore
revoke_family family s = record s { heap = modify_all (pointers s.by_id) (revoke_in family) s.heap }

abbrev delete_if :
    String → String → Option RefreshTokenRecord → RefreshTokenStore → RefreshTokenStore
delete_if sub id none s = s
delete_if sub id (some r) s =
    if r.sub == sub
    then record s { by_id = remove id s.by_id; by_hash = remove r.hash s.by_hash }
    else s

-- The loop of DeleteAllForSub over `byID`.
unfoldable pub delete_loop : String → List (String × ℕ) → RefreshTokenStore → RefreshTokenStore
delete_loop sub [] s = s
delete_loop sub ((id, p) ∷ m) s = delete_loop sub m (delete_if sub id (s.heap.cell p) s)

unfoldable pub delete_all_for_sub : String → RefreshTokenStore → RefreshTokenStore
unfolding delete_loop
delete_all_for_sub sub s = delete_loop sub s.by_id s
