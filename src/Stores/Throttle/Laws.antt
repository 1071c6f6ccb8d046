-- ===== src/Stores/Throttle/Laws.antt =====
-- When the throttle locks, and for how long.
use regenerative_architectur.Base.{
  ℕ, suc, ◌+◌, ◌-◌, ◌≤◌, ◌<◌, ◌≡◌, refl, ap, ◌∙◌, inl, inr, String, true, false, some, List, [],
  ◌∷◌, arith, find, find-put_self, Bool-cases, ltb, leb, le→ltb, lt→ltb, length,
}
use regenerative_architectur.Spec.{Time, seconds}
use regenerative_architectur.Stores.Throttle.{
  LoginThrottleKind, LoginThrottleConfig, LoginAttemptThrottle, LoginThrottleResult, granted,
  locked_for, ceil_seconds, throttle_key, config_of, count_failure, try_acquire, record_failure,
}

not_yet : (now until : Time) → now < until → leb until now ≡ false
not_yet now until h = ground arith

try_acquire-locked :
    (kind : LoginThrottleKind) (key : String) (now until : Time) (t : LoginAttemptThrottle)
    → find (throttle_key kind key) t.locks ≡ some until
    → now < until
    → try_acquire kind key now t ≡ (locked_for (ceil_seconds (until - now)), t)
unfolding try_acquire
try_acquire-locked kind key now until t found h =
    rw (found, try_acquire) (rw (not_yet now until h) refl)

over : (now until : Time) → until ≤ now → leb until now ≡ true
over now until h = ground arith

try_acquire-over :
    (kind : LoginThrottleKind) (key : String) (now until : Time) (t : LoginAttemptThrottle)
    → find (throttle_key kind key) t.locks ≡ some until
    → until ≤ now
    → (try_acquire kind key now t).0 ≡ granted
unfolding try_acquire
try_acquire-over kind key now until t found h = rw (found, try_acquire) (rw (over now until h) refl)

record_failure-lock :
    (kind : LoginThrottleKind) (key : String) (now : Time) (t : LoginAttemptThrottle)
    → (record_failure kind key now t).0.allowed ≡ false
    → find (throttle_key kind key) (record_failure kind key now t).1.locks
      ≡ some (now + seconds (config_of t.configs kind).lockout_seconds)
unfolding record_failure
record_failure-lock kind key now t e =
    let config = config_of t.configs kind in
    elim (Bool-cases (
      ltb (count_failure config (find (throttle_key kind key) t.counters) now).failures
        config.max_failures)) [
          | inl below ↦ absurd (ground (arith, below, e))
          | inr reached ↦
              rw (reached, record_failure)
                (find-put_self (throttle_key kind key) (now + seconds config.lockout_seconds)
                  t.locks)
        ]

-- `int(math.Ceil(_))` rounds up by less than a second.
pub ceil_seconds-bounds :
    (n : ℕ) → (n ≤ seconds (ceil_seconds n)) × (seconds (ceil_seconds n) < n + 1000000000)
ceil_seconds-bounds n = (omega arith, omega arith)

-- A key is locked until a time: what an attempt at another time is answered.
pub data AtTime (kind : LoginThrottleKind) (key : String) (now until : Time)
    (t : LoginAttemptThrottle) : Type 0 where
  refused :
      (n : ℕ)
      → now < until
      → until ≤ now + seconds n
      → now + seconds n < until + 1000000000
      → try_acquire kind key now t ≡ (locked_for n, t)
      → AtTime kind key now until t
  opens : until ≤ now → (try_acquire kind key now t).0 ≡ granted → AtTime kind key now until t

wait_enough : (now until : Time) → now < until → until ≤ now + seconds (ceil_seconds (until - now))
wait_enough now until h = omega arith

wait_short :
    (now until : Time)
    → now < until
    → now + seconds (ceil_seconds (until - now)) < until + 1000000000
wait_short now until h = omega arith

-- After a failure that locks, an attempt under the same kind and key before the lockout is over is
-- refused, changes nothing, and is told a number of seconds after which the lockout is over, by less
-- than a second; an attempt at or after its end is granted.
pub record_failure-locks :
    (kind : LoginThrottleKind) (key : String) (now now' : Time) (t : LoginAttemptThrottle)
    → (record_failure kind key now t).0.allowed ≡ false
    → AtTime kind key now'
        (now + seconds (config_of t.configs kind).lockout_seconds)
        (record_failure kind key now t).1
record_failure-locks kind key now now' t e =
    let until = now + seconds (config_of t.configs kind).lockout_seconds in
    let lock = record_failure-lock kind key now t e in
    elim (Bool-cases (ltb now' until)) [
      | inl early ↦
          let h : now' < until = ground arith in
          refused (ceil_seconds (until - now')) h (wait_enough now' until h)
            (wait_short now' until h) (try_acquire-locked kind key now' until _ lock h)
      | inr late ↦
          let h : until ≤ now' = ground arith in
          opens h (try_acquire-over kind key now' until _ lock h)
    ]

-- Failures under one kind and key, one after the other; the answer to the last one.
unfoldable pub fail_at :
    LoginThrottleKind
    → String
    → Time
    → List Time
    → LoginAttemptThrottle
    → LoginThrottleResult × LoginAttemptThrottle
fail_at kind key now [] t = record_failure kind key now t
fail_at kind key now (next ∷ times) t =
    fail_at kind key next times (record_failure kind key now t).1

abbrev pub AllWithin : Time → List Time → Type 0
AllWithin until [] = Unit
AllWithin until (now ∷ times) = (now < until) × AllWithin until times

-- A failure below the limit is granted and leaves a counter with one failure more.
record_failure-counts :
    (kind : LoginThrottleKind) (key : String) (config : LoginThrottleConfig) (now until : Time)
    (n : ℕ) (t : LoginAttemptThrottle)
    → config_of t.configs kind ≡ config
    → find (throttle_key kind key) t.counters ≡ some (record { failures = n; expires_at = until })
    → now < until
    → suc n < config.max_failures
    → (find (throttle_key kind key) (record_failure kind key now t).1.counters
        ≡ some (record { failures = suc n; expires_at = until }))
      × ((record_failure kind key now t).1.configs ≡ t.configs)
unfolding record_failure count_failure
record_failure-counts kind key config now until n t is found h below =
    rw (found, record_failure)
      (rw is (
        rw (lt→ltb now until h) (
          rw (lt→ltb _ _ below) (
            find-put_self (throttle_key kind key) (record { failures = suc n; expires_at = until })
                t.counters,
            refl,
          ))))

record_failure-reaches :
    (kind : LoginThrottleKind) (key : String) (config : LoginThrottleConfig) (now until : Time)
    (n : ℕ) (t : LoginAttemptThrottle)
    → config_of t.configs kind ≡ config
    → find (throttle_key kind key) t.counters ≡ some (record { failures = n; expires_at = until })
    → now < until
    → config.max_failures ≤ suc n
    → (record_failure kind key now t).0 ≡ locked_for config.lockout_seconds
unfolding record_failure count_failure
record_failure-reaches kind key config now until n t is found h reached =
    rw (found, record_failure) (rw is (rw (lt→ltb now until h) (rw (le→ltb _ _ reached) refl)))

-- With n failures counted in a window, further failures in the window are counted one by one: the one
-- that brings the number to the limit of the kind locks the key for the lockout of the kind.
pub fail_at-locks_at_limit :
    (kind : LoginThrottleKind) (key : String) (config : LoginThrottleConfig) (until : Time) (n : ℕ)
    (now : Time) (times : List Time) (t : LoginAttemptThrottle)
    → config_of t.configs kind ≡ config
    → find (throttle_key kind key) t.counters ≡ some (record { failures = n; expires_at = until })
    → AllWithin until (now ∷ times)
    → n + suc (length times) ≡ config.max_failures
    → (fail_at kind key now times t).0 ≡ locked_for config.lockout_seconds
unfolding fail_at
fail_at-locks_at_limit kind key config until n now [] t is found within total =
    record_failure-reaches kind key config now until n t is found within.0 (ground arith)
fail_at-locks_at_limit kind key config until n now (next ∷ times) t is found within total =
    let (counted, same) =
      record_failure-counts kind key config now until n t is found within.0 (ground arith) in
    fail_at-locks_at_limit kind key config until (suc n) next times
      (record_failure kind key now t).1 (ap (λ c. config_of c kind) same ∙ is) counted within.1
      (ground arith)
