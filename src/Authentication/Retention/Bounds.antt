-- ===== src/Authentication/Retention/Bounds.antt =====
-- How old what a sweep leaves can be, and how young what it deletes.
use regenerative_architectur.Base.{
  ℕ, ◌-◌, ◌*◌, ◌≤◌, ◌<◌, ◌≡◌, refl, String, true, false, inl, inr, some, List, [], ◌∷◌, arith, ◌==◌,
  find, find-put, put, All, contains, Bool-cases, Option-cases,
}
use regenerative_architectur.Base.Int.{ℤ, pos, pos_part}
use regenerative_architectur.Spec.{Time}
use regenerative_architectur.Stores.AuditEvents.{
  AuditEventRecord, or_default, is_outdated, delete_older_than,
}
use regenerative_architectur.Stores.Buckets.{AuthEventBucketStore}
use regenerative_architectur.Authentication.Retention.{
  RetentionPolicy, is_positive, cap_days, day, days_before, set_all, assign, assigned, cutoff_of,
  audit_cutoff, run_retention_sweep, retention_impersonation_types, retention_session_types,
  retention_mfa_types, retention_aggregated_types, retention_fail_types,
}

-- Up to 106751 days a duration does not wrap around.
days_before-exact :
    (now : Time) (days : ℕ) → days ≤ 106751 → days_before now days ≡ now - days * day
unfolding days_before
days_before-exact now days h = ground arith

cap_days-capped :
    (p : RetentionPolicy) (m : ℕ) (days : ℤ)
    → p.max_days ≡ pos m
    → 1 ≤ m
    → (is_positive (cap_days p days) ≡ true) × (pos_part (cap_days p days) ≤ m)
unfolding cap_days
cap_days-capped p m days cap h = ground (arith, cap)

-- Under a cap of m days, no cutoff lies further back than these.
module _ (p : RetentionPolicy) (now : Time) (m : ℕ) (cap : p.max_days ≡ pos m) (some_days : 1 ≤ m)
    (small : m ≤ 106751) where
  days_before-late : (days : ℕ) → days ≤ m → now - m * day ≤ days_before now days
  days_before-late days h = ground (arith, days_before-exact now days (omega arith))

  capped-late : (days : ℤ) → now - m * day ≤ days_before now (pos_part (cap_days p days))
  capped-late days =
      days_before-late (pos_part (cap_days p days)) (cap_days-capped p m days cap some_days).1

  abbrev EveryLate : List (String × Time) → Type 0
  EveryLate types = (t : String) (v : Time) → find t types ≡ some v → now - m * day ≤ v

  put-late :
      (k : String) (until : Time) (types : List (String × Time))
      → now - m * day ≤ until
      → EveryLate types
      → EveryLate (put k until types)
  put-late k until types h late t v e = elim (Bool-cases (t == k)) [
    | inl same ↦ ground (arith, e, same, h, find-put t k until types)
    | inr differs ↦ late t v (ground (arith, e, differs, find-put t k until types))
  ]

  set_all-late :
      (until : Time) (names : List String) (types : List (String × Time))
      → now - m * day ≤ until
      → EveryLate types
      → EveryLate (set_all until names types)
  set_all-late until [] types h late = late
  set_all-late until (n ∷ names) types h late =
      set_all-late until names (put n until types) h (put-late n until types h late)

  assign-late :
      (names : List String) (days : ℤ) (types : List (String × Time))
      → EveryLate types
      → EveryLate (assign p now names days types)
  assign-late names days types late = elim (Bool-cases (is_positive (cap_days p days))) [
    | inl keeps ↦ rw keeps (set_all-late _ names types (capped-late days) late)
    | inr drops ↦ rw drops late
  ]

  nothing-late : EveryLate []
  unfolding find
  nothing-late t v e = absurd (cc)

  assigned-late : EveryLate (assigned p now)
  unfolding assigned
  assigned-late = assign-late retention_session_types p.session_days _ (
      assign-late retention_mfa_types p.mfa_days _ (
        assign-late retention_aggregated_types p.aggregated_days _
          (assign-late retention_fail_types p.fail_days [] nothing-late)))

  positive_cap : is_positive p.max_days ≡ true
  positive_cap = ground (arith, cap, some_days)

  by_type-late : EveryLate (audit_cutoff p now).by_type
  unfolding audit_cutoff
  by_type-late = rw positive_cap (
      set_all-late (days_before now (pos_part p.max_days)) retention_impersonation_types
        (assigned p now) (days_before-late (pos_part p.max_days) (ground (arith, cap)))
        assigned-late)

  default-late : now - m * day ≤ (audit_cutoff p now).default
  unfolding audit_cutoff cutoff_of
  default-late =
      rw (cap_days-capped p m p.success_days cap some_days).0 (capped-late p.success_days)

  keep-nothing : (audit_cutoff p now).keep ≡ []
  unfolding audit_cutoff
  keep-nothing = rw positive_cap refl

  until-late :
      (rec : AuditEventRecord)
      → now - m * day
        ≤ or_default (audit_cutoff p now).default (find rec.type (audit_cutoff p now).by_type)
  until-late rec = elim (Option-cases (find rec.type (audit_cutoff p now).by_type)) [
    | inl missing ↦ rw missing default-late
    | inr (v, found) ↦ rw found (by_type-late rec.type v found)
  ]

  young-kept :
      (rec : AuditEventRecord)
      → m * day < now
      → is_outdated (audit_cutoff p now) rec ≡ false
      → now - m * day ≤ rec.occurred_at
  unfolding is_outdated contains
  young-kept rec since kept = ground (arith, until-late rec, rw keep-nothing at kept)

  kept-young :
      (events : List AuditEventRecord)
      → m * day < now
      → All
          (λ rec. now - m * day ≤ rec.occurred_at)
          (delete_older_than (audit_cutoff p now) events).1
  unfolding delete_older_than
  kept-young [] since = tt
  kept-young (rec ∷ events) since = elim (Bool-cases (is_outdated (audit_cutoff p now) rec)) [
    | inl old ↦ rw (old, delete_older_than) (kept-young events since)
    | inr young ↦
        rw (young, delete_older_than) (young-kept rec since young, kept-young events since)
  ]

-- Under a global cap of m days, up to 106751 days, no audit event that a retention sweep leaves is older
-- than m days, whatever its type and whatever the periods of the types are, those that are kept for ever
-- included. The time lies more than m days after Go's zero time.
pub run_retention_sweep-young :
    (p : RetentionPolicy) (now : Time) (m : ℕ) (events : List AuditEventRecord)
    (buckets : AuthEventBucketStore)
    → p.max_days ≡ pos m
    → 1 ≤ m
    → m ≤ 106751
    → m * day < now
    → All (λ rec. now - m * day ≤ rec.occurred_at) (run_retention_sweep p now events buckets).1.0
unfolding run_retention_sweep
run_retention_sweep-young p now m events buckets cap some_days small since =
    kept-young p now m cap some_days small events since
