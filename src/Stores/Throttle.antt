-- ===== src/Stores/Throttle.antt =====
-- memory/login_attempt_throttle.go: LoginAttemptThrottle. Settings are natural numbers.
pub mod Laws
use regenerative_architectur.Base.{
  ℕ, suc, ◌+◌, ◌-◌, ◌/◌, ◌≤◌, String, Bool, true, false, Option, none, some, List, find, put,
  remove, ltb, leb, if◌then◌else◌,
}
use Prim.Native.String.{◌++◌}
use regenerative_architectur.Spec.{Time, seconds, before}

pub data LoginThrottleKind : Type 0 where
  account ip : LoginThrottleKind

pub record LoginThrottleConfig : Type 0 where
  pub max_failures : ℕ
  pub window_seconds : ℕ
  pub lockout_seconds : ℕ

pub record LoginThrottleConfigs : Type 0 where
  pub account : LoginThrottleConfig
  pub ip : LoginThrottleConfig

pub record LoginCounter : Type 0 where
  pub failures : ℕ
  pub expires_at : Time

pub record LoginAttemptThrottle : Type 0 where
  pub configs : LoginThrottleConfigs
  pub counters : List (String × LoginCounter)
  pub locks : List (String × Time)

pub record LoginThrottleResult : Type 0 where
  pub allowed : Bool
  pub locked : Bool
  pub retry_after_seconds : ℕ

abbrev pub granted : LoginThrottleResult
granted = record { allowed = true; locked = false; retry_after_seconds = 0 }

abbrev pub locked_for : ℕ → LoginThrottleResult
locked_for n = record { allowed = false; locked = true; retry_after_seconds = n }

abbrev kind_text : LoginThrottleKind → String
kind_text account = "account"
kind_text ip = "ip"

unfoldable pub throttle_key : LoginThrottleKind → String → String
throttle_key kind key = kind_text kind ++ ":" ++ key

unfoldable pub config_of : LoginThrottleConfigs → LoginThrottleKind → LoginThrottleConfig
config_of c account = c.account
config_of c ip = c.ip

-- `int(math.Ceil(d.Seconds()))` of a duration in nanoseconds.
abbrev pub ceil_seconds : ℕ → ℕ
ceil_seconds n = (n + 999999999) / 1000000000

unfoldable pub try_acquire :
    LoginThrottleKind
    → String
    → Time
    → LoginAttemptThrottle
    → LoginThrottleResult × LoginAttemptThrottle
unfolding throttle_key
try_acquire kind key now t = elim (find (throttle_key kind key) t.locks) [
  | none ↦ (granted, t)
  | some expires_at ↦
      if leb expires_at now
      then (granted, record t { locks = remove (throttle_key kind key) t.locks })
      else (locked_for (ceil_seconds (expires_at - now)), t)
]

-- The counter after a failure: a new window, or one more in the running one.
unfoldable pub count_failure : LoginThrottleConfig → Option LoginCounter → Time → LoginCounter
count_failure config none now = record {
  failures = 1;
  expires_at = now + seconds config.window_seconds;
}
count_failure config (some counter) now =
    if before now counter.expires_at
    then record { failures = suc counter.failures; expires_at = counter.expires_at }
    else record { failures = 1; expires_at = now + seconds config.window_seconds }

unfoldable pub record_failure :
    LoginThrottleKind
    → String
    → Time
    → LoginAttemptThrottle
    → LoginThrottleResult × LoginAttemptThrottle
unfolding throttle_key config_of count_failure
record_failure kind key now t =
    let k = throttle_key kind key in
    let config = config_of t.configs kind in
    let counter = count_failure config (find k t.counters) now in
    if ltb counter.failures config.max_failures
    then (granted, record t { counters = put k counter t.counters })
    else (
      locked_for config.lockout_seconds,
      record t {
        counters = remove k (put k counter t.counters);
        locks = put k (now + seconds config.lockout_seconds) t.locks;
      },
    )

unfoldable pub record_success :
    LoginThrottleKind → String → LoginAttemptThrottle → LoginAttemptThrottle
unfolding throttle_key
record_success kind key t = record t {
  counters = remove (throttle_key kind key) t.counters;
  locks = remove (throttle_key kind key) t.locks;
}
