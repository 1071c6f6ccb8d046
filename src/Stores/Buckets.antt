-- ===== src/Stores/Buckets.antt =====
-- memory/auth_event_bucket_store.go: AuthEventBucketStore, with AuthEventBucket and AuthEventBucketWindow
-- of authentication/ports. A key is a tenant, a kind, a hash and the start of a window.
pub mod Bounds
use regenerative_architectur.Base.{
  ℕ, suc, ◌+◌, ◌*◌, ◌/◌, String, Bool, true, false, ◌&&◌, ◌||◌, not, Option, none, some, List, [],
  ◌∷◌, ◌==◌, length, ltb, leb, nat_eq, if◌then◌else◌,
}
use regenerative_architectur.Spec.{Time, seconds, before}

abbrev pub auth_event_bucket_max_buckets : ℕ
auth_event_bucket_max_buckets = 10000

abbrev pub auth_event_bucket_window : ℕ
auth_event_bucket_window = seconds 300

pub data AuthEventBucketKind : Type 0 where
  failed_login throttled mfa_failed : AuthEventBucketKind

abbrev pub kind_eq : AuthEventBucketKind → AuthEventBucketKind → Bool
kind_eq failed_login failed_login = true
kind_eq throttled throttled = true
kind_eq mfa_failed mfa_failed = true
kind_eq _ _ = false

pub record AuthEventBucket : Type 0 where
  pub tenant_id : String
  pub kind : AuthEventBucketKind
  pub key_hash : String
  pub window_start : Time
  pub count : ℕ
  pub first_seen : Time
  pub last_seen : Time

-- The map, whose keys are the first four fields of its buckets.
abbrev pub AuthEventBucketStore : Type 0
AuthEventBucketStore = List AuthEventBucket

-- `now.Truncate(window)`, from Go's zero time.
abbrev pub truncate : Time → Time
truncate now = now / auth_event_bucket_window * auth_event_bucket_window

abbrev pub has_key : String → AuthEventBucketKind → String → Time → AuthEventBucket → Bool
has_key tenant kind hash start b =
    b.tenant_id == tenant
    && kind_eq b.kind kind
    && b.key_hash == hash
    && nat_eq b.window_start start

unfoldable pub lookup :
    String → AuthEventBucketKind → String → Time → AuthEventBucketStore → Option AuthEventBucket
lookup tenant kind hash start [] = none
lookup tenant kind hash start (b ∷ s) =
    if has_key tenant kind hash start b then some b else lookup tenant kind hash start s

-- `bucket.Count++` and its time, on the bucket of a key.
abbrev pub counted : Time → AuthEventBucket → AuthEventBucket
counted now b = record b { count = suc b.count; last_seen = now }

unfoldable pub count_in :
    String
    → AuthEventBucketKind
    → String
    → Time
    → Time
    → AuthEventBucketStore
    → AuthEventBucketStore
count_in tenant kind hash start now [] = []
count_in tenant kind hash start now (b ∷ s) =
    let rest = count_in tenant kind hash start now s in
    (if has_key tenant kind hash start b then counted now b else b) ∷ rest

-- The earliest window: the loop of evictOldestLocked.
unfoldable pub oldest : AuthEventBucket → AuthEventBucketStore → AuthEventBucket
oldest b [] = b
oldest b (c ∷ s) = if ltb c.window_start b.window_start then oldest c s else oldest b s

-- `delete(s.buckets, key)`: a key is in the map once.
unfoldable pub drop_key : AuthEventBucket → AuthEventBucketStore → AuthEventBucketStore
drop_key b [] = []
drop_key b (c ∷ s) =
    let rest = drop_key b s in
    if has_key b.tenant_id b.kind b.key_hash b.window_start c then s else c ∷ rest

-- The bound is an argument, so that it can be tried on small stores; the source has the constant.
unfoldable pub evict_oldest : ℕ → AuthEventBucketStore → AuthEventBucketStore
unfolding oldest drop_key
evict_oldest limit [] = []
evict_oldest limit (b ∷ s) =
    if leb (length (b ∷ s)) limit then b ∷ s else drop_key (oldest b s) (b ∷ s)

abbrev pub new_bucket : String → AuthEventBucketKind → String → Time → AuthEventBucket
new_bucket tenant kind hash now = record {
  tenant_id = tenant;
  kind = kind;
  key_hash = hash;
  window_start = truncate now;
  count = 0;
  first_seen = now;
  last_seen = 0;
}

-- The bucket as it is after the call, whether it is the window's first, and the store.
unfoldable pub record_within :
    ℕ
    → AuthEventBucketKind
    → String
    → String
    → Time
    → AuthEventBucketStore
    → (AuthEventBucket × Bool) × AuthEventBucketStore
unfolding lookup count_in evict_oldest
record_within limit kind tenant hash now s = elim (lookup tenant kind hash (truncate now) s) [
  | some b ↦ ((counted now b, false), count_in tenant kind hash (truncate now) now s)
  | none ↦
      let b = new_bucket tenant kind hash now in
      (
        (counted now b, true),
        count_in tenant kind hash (truncate now) now (evict_oldest limit (b ∷ s)),
      )
]

-- AuthEventBucketStore.Record
unfoldable pub record_event :
    AuthEventBucketKind
    → String
    → String
    → Time
    → AuthEventBucketStore
    → (AuthEventBucket × Bool) × AuthEventBucketStore
unfolding record_within
record_event kind tenant hash now s =
    record_within auth_event_bucket_max_buckets kind tenant hash now s

-- The store and the number of buckets deleted.
unfoldable pub delete_older_than : Time → AuthEventBucketStore → ℕ × AuthEventBucketStore
delete_older_than until [] = (0, [])
delete_older_than until (b ∷ s) =
    let (deleted, rest) = delete_older_than until s in
    if before b.window_start until then (suc deleted, rest) else (deleted, b ∷ rest)
