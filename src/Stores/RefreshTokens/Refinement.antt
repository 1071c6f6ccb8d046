-- ===== src/Stores/RefreshTokens/Refinement.antt =====
-- The refresh token store, with its heap and its two indexes, does what its abstract maps promise.
use mathlib.Core.Option
use regenerative_architectur.Base.{
  ℕ, ◌≡◌, refl, ap, inl, inr, String, ◌||◌, Option, none, some, List, [], ◌∷◌, arith, ◌==◌, eq_iff,
  find, find-put, Bool-cases, Option-cases, if◌then◌else◌,
}
use regenerative_architectur.Base.Heap.{read, modify, cell-modify_all}
use regenerative_architectur.Oauth2.Records.{RefreshTokenRecord}
use regenerative_architectur.Stores.RefreshTokens.{
  RefreshTokenStore, stored, new_refresh_token_store, find_by_hash, save, rotate, mark_rotated,
  revoke_family, revoke_in, pointers,
}
use regenerative_architectur.Stores.RefreshTokens.Invariant.{
  Linked, IsNew, with_heap, new-Linked, save-Linked, revoke_family-Linked, modify-Linked,
  mark_rotated-KeepsKeys,
}
use regenerative_architectur.Stores.RefreshTokens.Laws.{
  find_by_hash-save, find_by_hash-revoke_family, has-pointers, revoke_in_idem,
}
use regenerative_architectur.Stores.RefreshTokens.Abstract.{
  TokenMaps, no_tokens, enter, change, at_id, succession, Command, save_token, rotate_token,
  revoke_tokens, perform, promise, perform_all, promise_all, IsUnused, IsFresh, AllFresh,
}

-- The record that an identifier leads to.
abbrev pub find_by_id : RefreshTokenStore → String → Option RefreshTokenRecord
find_by_id s id = read s.heap (find id s.by_id)

-- A store holds what the abstract maps hold, and its indexes agree.
pub record Refines (s : RefreshTokenStore) (a : TokenMaps) : Type 0 where
  pub linked : Linked s
  pub by_hash : (h : String) → find_by_hash s h ≡ a.by_hash h
  pub by_id : (i : String) → find_by_id s i ≡ a.by_id i

pub new-Refines : Refines new_refresh_token_store no_tokens
unfolding new_refresh_token_store find_by_hash find
new-Refines = record { linked = new-Linked; by_hash = λ h. refl; by_id = λ i. refl }

find_by_id-save :
    (rec : RefreshTokenRecord) (s : RefreshTokenStore) (i : String)
    → Linked s
    → find_by_id (save rec s) i ≡ (if i == rec.id then some (stored rec) else find_by_id s i)
unfolding save
find_by_id-save rec s i l = elim (Bool-cases (i == rec.id)) [
  | inl same ↦ ground (arith, same, find-put i rec.id s.heap.next s.by_id)
  | inr differs ↦ elim (Option-cases (find i s.by_id)) [
    | inl missing ↦ ground (arith, differs, missing, find-put i rec.id s.heap.next s.by_id)
    | inr (p, found) ↦
        let (r, at, _, _) = l.by_id i p found in
        ground (arith, differs, found, at, l.unused p, find-put i rec.id s.heap.next s.by_id)
  ]
]

find_by_id-revoke_family :
    (family : String) (s : RefreshTokenStore) (i : String)
    → Linked s
    → find_by_id (revoke_family family s) i ≡ Option.map (revoke_in family) (find_by_id s i)
unfolding revoke_family
find_by_id-revoke_family family s i l = elim (Option-cases (find i s.by_id)) [
  | inl missing ↦ rw missing refl
  | inr (p, found) ↦ rw found (
      ground (
        arith,
        has-pointers i p s.by_id found,
        cell-modify_all (pointers s.by_id) (revoke_in family) s.heap p (revoke_in_idem family),
      ))
]

-- A change through the pointer of an identifier changes the record with that identifier.
module _ (s : RefreshTokenStore) (l : Linked s) (id : String) (p : ℕ)
    (found : find id s.by_id ≡ some p) where
  cell-marked :
      (q : ℕ) (r : RefreshTokenRecord)
      → s.heap.cell q ≡ some r
      → find r.id s.by_id ≡ some q
      → (modify p mark_rotated s.heap).cell q ≡ Option.map (at_id id mark_rotated) (s.heap.cell q)
  cell-marked q r at back =
      let (r', at', same, _) = l.by_id id p found in
      ground (arith, at, at', same, back, found, eq_iff r.id id)

  find_by_hash-marked :
      (h : String)
      → find_by_hash (with_heap s (modify p mark_rotated s.heap)) h
        ≡ Option.map (at_id id mark_rotated) (find_by_hash s h)
  unfolding find_by_hash
  find_by_hash-marked h = elim (Option-cases (find h s.by_hash)) [
    | inl missing ↦ rw missing refl
    | inr (q, there) ↦
        let (r, at, _, back) = l.by_hash h q there in rw there (cell-marked q r at back)
  ]

  find_by_id-marked :
      (i : String)
      → find_by_id (with_heap s (modify p mark_rotated s.heap)) i
        ≡ Option.map (at_id id mark_rotated) (find_by_id s i)
  find_by_id-marked i = elim (Option-cases (find i s.by_id)) [
    | inl missing ↦ rw missing refl
    | inr (q, there) ↦
        let (r, at, same, _) = l.by_id i q there in rw there (cell-marked q r at (rw same there))
  ]

module _ (s : RefreshTokenStore) (a : TokenMaps) (r : Refines s a) where
  unused-IsNew : (rec : RefreshTokenRecord) → IsUnused rec a → IsNew rec s
  unfolding find_by_hash
  unused-IsNew rec (hash, id) = record {
    hash = elim (Option-cases (find rec.hash s.by_hash)) [
      | inl missing ↦ missing
      | inr (p, found) ↦
          let (r', at, _, _) = r.linked.by_hash rec.hash p found in
          absurd (ground (arith, found, at, hash, r.by_hash rec.hash))
    ];
    id = elim (Option-cases (find rec.id s.by_id)) [
      | inl missing ↦ missing
      | inr (p, found) ↦
          let (r', at, _, _) = r.linked.by_id rec.id p found in
          absurd (ground (arith, found, at, id, r.by_id rec.id))
    ];
  }

  save-Refines : (rec : RefreshTokenRecord) → IsUnused rec a → Refines (save rec s) (enter rec a)
  save-Refines rec new = record {
    linked = save-Linked rec s (unused-IsNew rec new) r.linked;
    by_hash = λ h. rw (find_by_hash-save rec s h r.linked, r.by_hash h) refl;
    by_id = λ i. rw (find_by_id-save rec s i r.linked, r.by_id i) refl;
  }

  revoke_family-Refines :
      (family : String) → Refines (revoke_family family s) (change (revoke_in family) a)
  revoke_family-Refines family = record {
    linked = revoke_family-Linked family s r.linked;
    by_hash = λ h. rw (find_by_hash-revoke_family family s h r.linked, r.by_hash h) refl;
    by_id = λ i. rw (find_by_id-revoke_family family s i r.linked, r.by_id i) refl;
  }

  marked-Refines :
      (id : String) (p : ℕ)
      → find id s.by_id ≡ some p
      → Refines (with_heap s (modify p mark_rotated s.heap)) (change (at_id id mark_rotated) a)
  marked-Refines id p found = record {
    linked = modify-Linked mark_rotated mark_rotated-KeepsKeys p s r.linked;
    by_hash = λ h. rw (find_by_hash-marked s r.linked id p found h, r.by_hash h) refl;
    by_id = λ i. rw (find_by_id-marked s r.linked id p found i, r.by_id i) refl;
  }

module _ (s : RefreshTokenStore) (a : TokenMaps) (r : Refines s a) (id : String)
    (rec : RefreshTokenRecord) (new : IsUnused rec a) where
  rotate-live_Refines :
      (p : ℕ)
      → find id s.by_id ≡ some p
      → Refines
          (save rec (with_heap s (modify p mark_rotated s.heap)))
          (enter rec (change (at_id id mark_rotated) a))
  rotate-live_Refines p found =
      let (hash, id_free) = new in
      save-Refines (with_heap s (modify p mark_rotated s.heap)) (change (at_id id mark_rotated) a)
        (marked-Refines s a r id p found) rec (rw hash refl, rw id_free refl)

  -- A rotation answers what the abstract maps answer, and they agree afterwards.
  rotate-Refines :
      ((rotate id rec s).0 ≡ (succession id rec a).0)
      × Refines (rotate id rec s).1 (succession id rec a).1
  unfolding rotate
  rotate-Refines = elim (Option-cases (find id s.by_id)) [
    | inl missing ↦
        let nothing : a.by_id id ≡ none = ground (arith, missing, r.by_id id) in
        rw (missing, rotate, nothing) (refl, r)
    | inr (p, found) ↦
        let (parent, at, _, _) = r.linked.by_id id p found in
        let known : a.by_id id ≡ some parent = ground (arith, found, at, r.by_id id) in
        elim (Bool-cases (parent.rotated || parent.revoked)) [
          | inl used ↦ rw (found, rotate, known) (rw at (rw used (refl, r)))
          | inr live ↦
              rw (found, rotate, known) (rw at (rw live (refl, rotate-live_Refines p found)))
        ]
  ]

-- A command answers what the abstract maps answer, and they agree afterwards.
perform-Refines :
    (c : Command) (s : RefreshTokenStore) (a : TokenMaps)
    → Refines s a
    → IsFresh c a
    → ((perform c s).0 ≡ (promise c a).0) × Refines (perform c s).1 (promise c a).1
unfolding perform promise
perform-Refines (save_token rec) s a r new = (refl, save-Refines s a r rec new)
perform-Refines (rotate_token id rec) s a r new =
    let (answers, after) = rotate-Refines s a r id rec new in (ap some answers, after)
perform-Refines (revoke_tokens family) s a r new = (refl, revoke_family-Refines s a r family)

-- Any sequence of saves, rotations and family revocations, whose stored records are new when their
-- turn comes, answers on the store of two indexes over shared records what it answers on two plain
-- maps of values, and leaves the store with what the maps hold under each hash and each identifier.
pub perform_all-Refines :
    (cs : List Command) (s : RefreshTokenStore) (a : TokenMaps)
    → Refines s a
    → AllFresh cs a
    → ((perform_all cs s).0 ≡ (promise_all cs a).0)
      × Refines (perform_all cs s).1 (promise_all cs a).1
unfolding perform_all promise_all
perform_all-Refines [] s a r new = (refl, r)
perform_all-Refines (c ∷ cs) s a r (new, rest) =
    let (answer, after) = perform-Refines c s a r new in
    let (answers, last) = perform_all-Refines cs (perform c s).1 (promise c a).1 after rest in
    (rw (answer, answers) refl, last)
