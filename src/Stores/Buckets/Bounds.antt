-- ===== src/Stores/Buckets/Bounds.antt =====
-- How large the store of event buckets grows, and what its counts say.
use regenerative_architectur.Base.{
  ℕ, suc, ◌≤◌, ◌≡◌, refl, String, true, inl, inr, List, [], ◌∷◌, arith, length, eq_iff, leb, ltb,
  leb→le, ap, Bool-cases, Option-cases,
}
use regenerative_architectur.Spec.{Time}
use regenerative_architectur.Stores.Buckets.{
  AuthEventBucketKind, failed_login, throttled, mfa_failed, AuthEventBucket, AuthEventBucketStore,
  auth_event_bucket_max_buckets, has_key, kind_eq, truncate, lookup, count_in, oldest, drop_key,
  evict_oldest, new_bucket, record_within, record_event,
}

length-count_in :
    (tenant : String) (kind : AuthEventBucketKind) (hash : String) (start now : Time)
    (s : AuthEventBucketStore)
    → length (count_in tenant kind hash start now s) ≡ length s
unfolding count_in
length-count_in tenant kind hash start now [] = refl
length-count_in tenant kind hash start now (b ∷ s) =
    ground (arith, length-count_in tenant kind hash start now s)

kind_eq_refl : (k : AuthEventBucketKind) → kind_eq k k ≡ true
kind_eq_refl failed_login = refl
kind_eq_refl throttled = refl
kind_eq_refl mfa_failed = refl

-- A key finds the bucket it is the key of.
has_key_self : (b : AuthEventBucket) → has_key b.tenant_id b.kind b.key_hash b.window_start b ≡ true
has_key_self b =
    ground
      (arith, eq_iff b.tenant_id b.tenant_id, eq_iff b.key_hash b.key_hash, kind_eq_refl b.kind)

data In (b : AuthEventBucket) : AuthEventBucketStore → Type 0 where
  here : (s : AuthEventBucketStore) → In b (b ∷ s)
  there : (c : AuthEventBucket) (s : AuthEventBucketStore) → In b s → In b (c ∷ s)

length-drop_key :
    (b : AuthEventBucket) (s : AuthEventBucketStore)
    → In b s
    → suc (length (drop_key b s)) ≡ length s
unfolding drop_key
length-drop_key b _ (here s) = rw (has_key_self b) refl
length-drop_key b _ (there c s m) =
    elim (Bool-cases (has_key b.tenant_id b.kind b.key_hash b.window_start c)) [
      | inl same ↦ rw same refl
      | inr differs ↦ rw differs (ap suc (length-drop_key b s m))
    ]

skip_second :
    (b c : AuthEventBucket) (s : AuthEventBucketStore) (x : AuthEventBucket)
    → In x (b ∷ s)
    → In x (b ∷ c ∷ s)
skip_second b c s _ (here _) = here (c ∷ s)
skip_second b c s x (there _ _ m) = there b (c ∷ s) (there c s m)

oldest-In : (b : AuthEventBucket) (s : AuthEventBucketStore) → In (oldest b s) (b ∷ s)
unfolding oldest
oldest-In b [] = here []
oldest-In b (c ∷ s) = elim (Bool-cases (ltb c.window_start b.window_start)) [
  | inl older ↦ rw older (there b (c ∷ s) (oldest-In c s))
  | inr newer ↦ rw newer (skip_second b c s (oldest b s) (oldest-In b s))
]

length-evict_oldest :
    (limit : ℕ) (b : AuthEventBucket) (s : AuthEventBucketStore)
    → length s ≤ limit
    → length (evict_oldest limit (b ∷ s)) ≤ limit
unfolding evict_oldest
length-evict_oldest limit b s h = elim (Bool-cases (leb (length (b ∷ s)) limit)) [
  | inl fits ↦ rw fits (leb→le _ _ fits)
  | inr full ↦ rw full (ground (arith, h, length-drop_key (oldest b s) (b ∷ s) (oldest-In b s)))
]

length-record_within :
    (limit : ℕ) (kind : AuthEventBucketKind) (tenant hash : String) (now : Time)
    (s : AuthEventBucketStore)
    → length s ≤ limit
    → length (record_within limit kind tenant hash now s).1 ≤ limit
unfolding record_within
length-record_within limit kind tenant hash now s h =
    elim (Option-cases (lookup tenant kind hash (truncate now) s)) [
      | inl missing ↦
          rw (missing, record_within)
            (rw (length-count_in _ _ _ _ _ _)
              (length-evict_oldest limit (new_bucket tenant kind hash now) s h))
      | inr (b, found) ↦ rw (found, record_within) (rw (length-count_in _ _ _ _ _ _) h)
    ]

-- A failed attempt that is recorded.
pub record Attempt : Type 0 where
  pub kind : AuthEventBucketKind
  pub tenant : String
  pub hash : String
  pub now : Time

unfoldable pub record_all : List Attempt → AuthEventBucketStore → AuthEventBucketStore
unfolding record_event
record_all [] s = s
record_all (a ∷ attempts) s = record_all attempts (record_event a.kind a.tenant a.hash a.now s).1

-- The store of event buckets never holds more than 10000 buckets, however many attempts are recorded and
-- whatever their tenants, hashes and times are, if it did not hold more before.
pub length-record_all-le :
    (attempts : List Attempt) (s : AuthEventBucketStore)
    → length s ≤ auth_event_bucket_max_buckets
    → length (record_all attempts s) ≤ auth_event_bucket_max_buckets
unfolding record_all record_event
length-record_all-le [] s h = h
length-record_all-le (a ∷ attempts) s h =
    length-record_all-le attempts _
      (length-record_within auth_event_bucket_max_buckets a.kind a.tenant a.hash a.now s h)
