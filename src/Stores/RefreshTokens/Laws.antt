-- ===== src/Stores/RefreshTokens/Laws.antt =====
-- What each operation of the refresh token store does to what `find_by_hash` returns.
use mathlib.Core.Option
use regenerative_architectur.Base.{
  ℕ, ◌≡◌, refl, inl, inr, String, true, false, ◌||◌, some, List, [], ◌∷◌, arith, ◌==◌, eq_iff, find,
  find-put, Bool-cases, Option-cases, if◌then◌else◌,
}
use regenerative_architectur.Base.Heap.{modify, has, cell-modify_all}
use regenerative_architectur.Oauth2.Records.{RefreshTokenRecord, ok}
use regenerative_architectur.Stores.RefreshTokens.{
  RefreshTokenStore, stored, find_by_hash, save, rotate, mark_rotated, revoke_family, revoke_in,
  pointers,
}
use regenerative_architectur.Stores.RefreshTokens.Invariant.{
  Linked, IsNew, with_heap, modify-Linked, mark_rotated-KeepsKeys,
}

pub has-pointers :
    (k : String) (p : ℕ) (m : List (String × ℕ)) → find k m ≡ some p → has p (pointers m) ≡ true
unfolding find
has-pointers k p [] e = cc
has-pointers k p ((j, q) ∷ m) e = ground (arith, has-pointers k p m)

pub revoke_in_idem :
    (family : String) (r : RefreshTokenRecord)
    → revoke_in family (revoke_in family r) ≡ revoke_in family r
revoke_in_idem family r = ground arith

pub revoke_in-revoked :
    (family : String) (r : RefreshTokenRecord)
    → r.family_id ≡ family
    → (revoke_in family r).revoked ≡ true
revoke_in-revoked family r h = ground (arith, eq_iff r.family_id family)

-- Revoking a family is seen through the hash of each of its tokens, and changes no other token, in a
-- store whose indexes agree.
pub find_by_hash-revoke_family :
    (family : String) (s : RefreshTokenStore) (h : String)
    → Linked s
    → find_by_hash (revoke_family family s) h ≡ Option.map (revoke_in family) (find_by_hash s h)
unfolding find_by_hash revoke_family
find_by_hash-revoke_family family s h l = elim (Option-cases (find h s.by_hash)) [
  | inl missing ↦ rw missing refl
  | inr (p, found) ↦
      let (r, at, _, indexed) = l.by_hash h p found in
      rw found (
        ground (
          arith,
          has-pointers r.id p s.by_id indexed,
          cell-modify_all (pointers s.by_id) (revoke_in family) s.heap p (revoke_in_idem family),
        ))
]

-- A saved record is found under its hash, and the other hashes are as before.
pub find_by_hash-save :
    (rec : RefreshTokenRecord) (s : RefreshTokenStore) (h : String)
    → Linked s
    → find_by_hash (save rec s) h ≡ (if h == rec.hash then some (stored rec) else find_by_hash s h)
unfolding find_by_hash save
find_by_hash-save rec s h l = elim (Bool-cases (h == rec.hash)) [
  | inl same ↦ ground (arith, same, find-put h rec.hash s.heap.next s.by_hash)
  | inr differs ↦ elim (Option-cases (find h s.by_hash)) [
    | inl missing ↦ ground (arith, differs, missing, find-put h rec.hash s.heap.next s.by_hash)
    | inr (p, found) ↦
        let (r, at, _, _) = l.by_hash h p found in
        ground (arith, differs, found, at, l.unused p, find-put h rec.hash s.heap.next s.by_hash)
  ]
]

-- A rotation that succeeds: the parent was live, it is marked rotated under its hash, the successor is
-- found under its own, and the other hashes are as before.
pub record Rotated (hash : String) (parent rec : RefreshTokenRecord) (s t : RefreshTokenStore)
    : Type 0 where
  pub was_live : (parent.rotated ≡ false) × (parent.revoked ≡ false)
  pub old : find_by_hash t hash ≡ some (mark_rotated parent)
  pub successor : find_by_hash t rec.hash ≡ some (stored rec)
  pub others :
      (h : String)
      → (h == hash) ≡ false
      → (h == rec.hash) ≡ false
      → find_by_hash t h ≡ find_by_hash s h

module _ (hash : String) (parent rec : RefreshTokenRecord) (s : RefreshTokenStore)
    (found : find_by_hash s hash ≡ some parent) (new : IsNew rec s) (l : Linked s) where
  -- The pointer of the parent, which both indexes hold.
  parent_pointer :
      (p : ℕ) × (find hash s.by_hash ≡ some p)
      × (s.heap.cell p ≡ some parent)
      × (parent.hash ≡ hash)
      × (find parent.id s.by_id ≡ some p)
  unfolding find_by_hash
  parent_pointer = elim (Option-cases (find hash s.by_hash)) [
    | inl missing ↦ absurd (ground (arith, missing))
    | inr (p, at) ↦
        let (r, cell, key, id) = l.by_hash hash p at in
        let same : r ≡ parent = ground (arith, cell, at) in
        (p, at, ground (arith, cell, same), ground (arith, key, same), ground (arith, id, same))
  ]

  new_hash-ne : (rec.hash == hash) ≡ false
  new_hash-ne = ground (arith, new.hash, parent_pointer.1, eq_iff rec.hash hash)

  marked_others :
      (p : ℕ) (h : String)
      → s.heap.cell p ≡ some parent
      → parent.hash ≡ hash
      → (h == hash) ≡ false
      → find_by_hash (with_heap s (modify p mark_rotated s.heap)) h ≡ find_by_hash s h
  unfolding find_by_hash
  marked_others p h at key differs = elim (Option-cases (find h s.by_hash)) [
    | inl missing ↦ ground (arith, missing)
    | inr (q, there) ↦
        let (r, cell, key', _) = l.by_hash h q there in
        ground (arith, there, cell, at, key, key', eq_iff h hash)
  ]

  -- A rotation that succeeds, of the record that a hash leads to, found it live: it is marked
  -- rotated under its hash, the successor is found under its own, and the other hashes lead to what
  -- they led to. The successor is new to the store, and the store's indexes agree.
  pub rotate-Rotated :
      {r : RefreshTokenRecord} {t : RefreshTokenStore}
      → rotate parent.id rec s ≡ (ok (some r), t)
      → Rotated hash parent rec s t
  unfolding rotate find_by_hash
  rotate-Rotated {r} {t} e = elim (Bool-cases (parent.rotated || parent.revoked)) [
    | inl used ↦
        let (p, at, cell, key, id) = parent_pointer in absurd (ground (arith, id, cell, used))
    | inr live ↦
        let (p, at, cell, key, id) = parent_pointer in
        let marked = with_heap s (modify p mark_rotated s.heap) in
        let linked = modify-Linked mark_rotated mark_rotated-KeepsKeys p s l in
        let after : t ≡ save rec marked = ground (arith, id, cell, live) in
        rw after (record {
          was_live = (ground arith, ground arith);
          old = ground (
            arith,
            at,
            cell,
            new_hash-ne,
            eq_iff rec.hash hash,
            eq_iff hash rec.hash,
            find_by_hash-save rec marked hash linked,
          );
          successor =
              ground
                (arith, eq_iff rec.hash rec.hash, find_by_hash-save rec marked rec.hash linked);
          others = λ h other other'. ground (
            arith,
            other',
            find_by_hash-save rec marked h linked,
            marked_others p h cell key other,
          );
        })
  ]

  -- A live record is rotated.
  pub rotate-live :
      parent.rotated ≡ false
      → parent.revoked ≡ false
      → (t : RefreshTokenStore) × (rotate parent.id rec s ≡ (ok (some (stored rec)), t))
  unfolding rotate
  rotate-live unrotated unrevoked =
      let (p, at, cell, key, id) = parent_pointer in
      (
        save rec (with_heap s (modify p mark_rotated s.heap)),
        rw (id, rotate) (rw cell (rw unrotated (rw unrevoked refl))),
      )
