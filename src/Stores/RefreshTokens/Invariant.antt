-- ===== src/Stores/RefreshTokens/Invariant.antt =====
-- The two indexes of the refresh token store agree, and the operations keep that.
use regenerative_architectur.Base.{
  ℕ, ◌≤◌, ◌≡◌, refl, inl, inr, String, ◌||◌, none, some, List, [], ◌∷◌, arith, ◌==◌, eq_iff, find,
  find-put, find-put_self, Bool-cases, Option-cases, nat_eq, if◌then◌else◌,
}
use regenerative_architectur.Base.Heap.{Heap, modify, modify_all}
use regenerative_architectur.Oauth2.Records.{RefreshTokenRecord}
use regenerative_architectur.Stores.RefreshTokens.{
  RefreshTokenStore, stored, new_refresh_token_store, save, rotate, mark_rotated, revoke_family,
  revoke_in, pointers,
}

-- A hash leads to a record with that hash, which its identifier leads to as well, and the other way
-- round; nothing lies beyond the last pointer.
pub record Linked (s : RefreshTokenStore) : Type 0 where
  pub by_hash :
      (h : String) (p : ℕ)
      → find h s.by_hash ≡ some p
      → (r : RefreshTokenRecord) × (s.heap.cell p ≡ some r)
        × (r.hash ≡ h)
        × (find r.id s.by_id ≡ some p)
  pub by_id :
      (i : String) (p : ℕ)
      → find i s.by_id ≡ some p
      → (r : RefreshTokenRecord) × (s.heap.cell p ≡ some r)
        × (r.id ≡ i)
        × (find r.hash s.by_hash ≡ some p)
  pub unused : (p : ℕ) → s.heap.next ≤ p → s.heap.cell p ≡ none

-- A record that is new to the store: random identifiers and hashes do not repeat.
pub record IsNew (rec : RefreshTokenRecord) (s : RefreshTokenStore) : Type 0 where
  pub hash : find rec.hash s.by_hash ≡ none
  pub id : find rec.id s.by_id ≡ none

pub new-Linked : Linked new_refresh_token_store
unfolding new_refresh_token_store find
new-Linked = record {
  by_hash = λ h p e. absurd (cc);
  by_id = λ i p e. absurd (cc);
  unused = λ p h. refl;
}

module _ (rec : RefreshTokenRecord) (s : RefreshTokenStore) (new : IsNew rec s) (l : Linked s) where
  save-by_hash :
      (h : String) (p : ℕ)
      → find h (save rec s).by_hash ≡ some p
      → (r : RefreshTokenRecord) × ((save rec s).heap.cell p ≡ some r)
        × (r.hash ≡ h)
        × (find r.id (save rec s).by_id ≡ some p)
  unfolding save
  save-by_hash h p e = elim (Bool-cases (h == rec.hash)) [
    | inl same ↦
        let at_next : p ≡ s.heap.next =
          ground (arith, e, same, find-put h rec.hash s.heap.next s.by_hash) in
        (
          stored rec,
          ground (arith, at_next),
          ground (arith, eq_iff h rec.hash, same),
          ground (arith, at_next, find-put_self rec.id s.heap.next s.by_id),
        )
    | inr differs ↦
        let old : find h s.by_hash ≡ some p =
          ground (arith, e, differs, find-put h rec.hash s.heap.next s.by_hash) in
        let (r, at, hash, id) = l.by_hash h p old in
        (
          r,
          ground (arith, at, l.unused p),
          hash,
          ground (arith, id, new.id, eq_iff r.id rec.id, find-put r.id rec.id s.heap.next s.by_id),
        )
  ]

  save-by_id :
      (i : String) (p : ℕ)
      → find i (save rec s).by_id ≡ some p
      → (r : RefreshTokenRecord) × ((save rec s).heap.cell p ≡ some r)
        × (r.id ≡ i)
        × (find r.hash (save rec s).by_hash ≡ some p)
  unfolding save
  save-by_id i p e = elim (Bool-cases (i == rec.id)) [
    | inl same ↦
        let at_next : p ≡ s.heap.next =
          ground (arith, e, same, find-put i rec.id s.heap.next s.by_id) in
        (
          stored rec,
          ground (arith, at_next),
          ground (arith, eq_iff i rec.id, same),
          ground (arith, at_next, find-put_self rec.hash s.heap.next s.by_hash),
        )
    | inr differs ↦
        let old : find i s.by_id ≡ some p =
          ground (arith, e, differs, find-put i rec.id s.heap.next s.by_id) in
        let (r, at, id, hash) = l.by_id i p old in
        (
          r,
          ground (arith, at, l.unused p),
          id,
          ground (
            arith,
            hash,
            new.hash,
            eq_iff r.hash rec.hash,
            find-put r.hash rec.hash s.heap.next s.by_hash,
          ),
        )
  ]

  -- Saving a new record keeps the indexes in agreement.
  pub save-Linked : Linked (save rec s)
  unfolding save
  save-Linked = record {
    by_hash = save-by_hash;
    by_id = save-by_id;
    unused = λ p h. ground (arith, l.unused p);
  }

-- A change of a record that keeps its hash and its identifier.
pub record KeepsKeys (f : RefreshTokenRecord → RefreshTokenRecord) : Type 0 where
  pub hash : (r : RefreshTokenRecord) → (f r).hash ≡ r.hash
  pub id : (r : RefreshTokenRecord) → (f r).id ≡ r.id

abbrev pub with_heap : RefreshTokenStore → Heap RefreshTokenRecord → RefreshTokenStore
with_heap s h = record s { heap = h }

module _ (f : RefreshTokenRecord → RefreshTokenRecord) (k : KeepsKeys f) where
  pub modify-Linked :
      (q : ℕ) (s : RefreshTokenStore) → Linked s → Linked (with_heap s (modify q f s.heap))
  modify-Linked q s l = record {
    by_hash = λ h p e.
        let (r, at, hash, id) = l.by_hash h p e in
        (
          if nat_eq p q then f r else r,
          ground (arith, at),
          ground (arith, hash, k.hash r),
          ground (arith, id, k.id r),
        );
    by_id = λ i p e.
        let (r, at, id, hash) = l.by_id i p e in
        (
          if nat_eq p q then f r else r,
          ground (arith, at),
          ground (arith, id, k.id r),
          ground (arith, hash, k.hash r),
        );
    unused = λ p h. ground (arith, l.unused p);
  }

  pub modify_all-Linked :
      (ps : List ℕ) (s : RefreshTokenStore)
      → Linked s
      → Linked (with_heap s (modify_all ps f s.heap))
  unfolding modify_all
  modify_all-Linked [] s l = l
  modify_all-Linked (p ∷ ps) s l =
      modify_all-Linked ps (with_heap s (modify p f s.heap)) (modify-Linked p s l)

pub mark_rotated-KeepsKeys : KeepsKeys mark_rotated
mark_rotated-KeepsKeys = record { hash = λ r. refl; id = λ r. refl }

pub revoke_in-KeepsKeys : (family : String) → KeepsKeys (revoke_in family)
revoke_in-KeepsKeys family = record { hash = λ r. ground arith; id = λ r. ground arith }

-- Revoking a family keeps the indexes in agreement.
pub revoke_family-Linked :
    (family : String) (s : RefreshTokenStore) → Linked s → Linked (revoke_family family s)
unfolding revoke_family
revoke_family-Linked family s l =
    modify_all-Linked (revoke_in family) (revoke_in-KeepsKeys family) (pointers s.by_id) s l

-- Rotating to a record that is new to the store keeps the indexes in agreement, whatever it answers.
pub rotate-Linked :
    (parent : String) (rec : RefreshTokenRecord) (s : RefreshTokenStore)
    → IsNew rec s
    → Linked s
    → Linked (rotate parent rec s).1
unfolding rotate
rotate-Linked parent rec s new l = elim (Option-cases (find parent s.by_id)) [
  | inl missing ↦ rw (missing, rotate) l
  | inr (p, found) ↦
      let marked = with_heap s (modify p mark_rotated s.heap) in
      let saved : Linked (save rec marked) =
        save-Linked rec marked (record { hash = new.hash; id = new.id })
          (modify-Linked mark_rotated mark_rotated-KeepsKeys p s l) in
      elim (Option-cases (s.heap.cell p)) [
        | inl dangling ↦ rw (found, rotate) (rw dangling l)
        | inr (r, at) ↦ elim (Bool-cases (r.rotated || r.revoked)) [
          | inl used ↦ rw (found, rotate) (rw at (rw used l))
          | inr live ↦ rw (found, rotate) (rw at (rw live saved))
        ]
      ]
]
