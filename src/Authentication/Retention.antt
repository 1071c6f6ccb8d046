-- ===== src/Authentication/Retention.antt =====
-- authentication/usecases/retention.go: how long events are kept. A duration is Go's int64 of nanoseconds,
-- which wraps around.
pub mod Bounds
use regenerative_architectur.Base.{
  ℕ, ◌+◌, ◌-◌, ◌*◌, ◌/◌, ◌%◌, String, Bool, not, ◌&&◌, ◌||◌, List, [], ◌∷◌, put, leb, nat_eq,
  if◌then◌else◌,
}
use regenerative_architectur.Base.Int.{ℤ, pos, leb_ℤ, pos_part}
use regenerative_architectur.Spec.{Time}
use regenerative_architectur.Stores.AuditEvents
use regenerative_architectur.Stores.AuditEvents.{AuditEventRecord, RetentionCutoff}
use regenerative_architectur.Stores.Buckets
use regenerative_architectur.Stores.Buckets.{AuthEventBucketStore}

pub record RetentionPolicy : Type 0 where
  pub success_days : ℤ
  pub fail_days : ℤ
  pub aggregated_days : ℤ
  pub mfa_days : ℤ
  pub session_days : ℤ
  pub max_days : ℤ

abbrev pub default_retention_policy : RetentionPolicy
default_retention_policy = record {
  success_days = pos 365;
  fail_days = pos 30;
  aggregated_days = pos 90;
  mfa_days = pos 90;
  session_days = pos 90;
  max_days = pos 0;
}

abbrev pub is_positive : ℤ → Bool
is_positive a = leb_ℤ (pos 1) a

-- capDays
unfoldable pub cap_days : RetentionPolicy → ℤ → ℤ
cap_days p days =
    if is_positive p.max_days && (not (is_positive days) || not (leb_ℤ days p.max_days))
    then p.max_days
    else days

-- The nanoseconds of a day, and 2 ^ 64.
abbrev pub day : ℕ
day = 86400000000000

abbrev pub word : ℕ
word = 18446744073709551616

-- `now.Add(-time.Duration(days) * 24 * time.Hour)`. A time before Go's zero time is not represented.
unfoldable pub days_before : Time → ℕ → Time
days_before now days =
    let product = days * day % word in
    if leb product (word / 2) then now - product else now + (word - product)

abbrev pub retention_fail_types : List String
retention_fail_types = "AuthenticationFailed" ∷ "AuthenticationStepFailed" ∷ []

abbrev pub retention_aggregated_types : List String
retention_aggregated_types = "AuthenticationEventAggregated" ∷ []

abbrev pub retention_mfa_types : List String
retention_mfa_types =
    "MfaChallengeIssued" ∷ "MfaChallengeSucceeded" ∷ "MfaChallengeFailed" ∷ "BackupCodeConsumed"
    ∷ []

abbrev pub retention_session_types : List String
retention_session_types = "SessionStarted" ∷ "SessionRefreshed" ∷ "SessionEnded" ∷ []

abbrev pub retention_impersonation_types : List String
retention_impersonation_types = "SessionImpersonationStarted" ∷ "SessionImpersonationEnded" ∷ []

abbrev pub set_all : Time → List String → List (String × Time) → List (String × Time)
set_all until [] m = m
set_all until (t ∷ types) m = set_all until types (put t until m)

-- The closure `assign` of AuditCutoff.
abbrev pub assign :
    RetentionPolicy → Time → List String → ℤ → List (String × Time) → List (String × Time)
assign p now types days m =
    if is_positive (cap_days p days)
    then set_all (days_before now (pos_part (cap_days p days))) types m
    else m

-- The types whose cutoff does not depend on the cap being set.
unfoldable pub assigned : RetentionPolicy → Time → List (String × Time)
assigned p now = assign p now retention_session_types p.session_days (
    assign p now retention_mfa_types p.mfa_days (
      assign p now retention_aggregated_types p.aggregated_days
        (assign p now retention_fail_types p.fail_days [])))

-- The cutoff of a number of days, where it is positive; the zero time otherwise.
unfoldable pub cutoff_of : Time → ℤ → Time
unfolding days_before
cutoff_of now days = if is_positive days then days_before now (pos_part days) else 0

unfoldable pub audit_cutoff : RetentionPolicy → Time → RetentionCutoff
audit_cutoff p now = record {
  default = cutoff_of now (cap_days p p.success_days);
  by_type =
      if is_positive p.max_days
      then set_all (days_before now (pos_part p.max_days)) retention_impersonation_types
          (assigned p now)
      else assigned p now;
  keep = if is_positive p.max_days then [] else retention_impersonation_types;
}

unfoldable pub bucket_cutoff : RetentionPolicy → Time → Time
unfolding cap_days cutoff_of
bucket_cutoff p now = cutoff_of now (cap_days p p.aggregated_days)

pub record RetentionSweepResult : Type 0 where
  pub audit_events : ℕ
  pub buckets : ℕ

abbrev pub swept_buckets : Time → AuthEventBucketStore → ℕ × AuthEventBucketStore
swept_buckets until b = if nat_eq until 0 then (0, b) else Buckets.delete_older_than until b

-- RunRetentionSweep, with both stores.
unfoldable pub run_retention_sweep :
    RetentionPolicy
    → Time
    → List AuditEventRecord
    → AuthEventBucketStore
    → RetentionSweepResult × (List AuditEventRecord × AuthEventBucketStore)
unfolding audit_cutoff bucket_cutoff AuditEvents.delete_older_than Buckets.delete_older_than
run_retention_sweep p now events buckets =
    let (deleted, kept) = AuditEvents.delete_older_than (audit_cutoff p now) events in
    let (dropped, left) = swept_buckets (bucket_cutoff p now) buckets in
    (record { audit_events = deleted; buckets = dropped }, (kept, left))
