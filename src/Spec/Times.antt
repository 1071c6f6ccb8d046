-- ===== src/Spec/Times.antt =====
-- Go's time.Time and time.Duration as nanoseconds since Go's zero time, so that 0 is the time for
-- which IsZero holds.
use regenerative_architectur.Base.{ℕ, ◌*◌, ◌/◌, Bool, ltb, nat_eq, if◌then◌else◌}
use regenerative_architectur.Base.Int.{ℤ, sub_ℕ}

abbrev pub Time : Type 0
Time = ℕ

abbrev pub seconds : ℕ → ℕ
seconds n = n * 1000000000

-- `t.Before(u)`; `t.After(u)` is `before u t`.
abbrev pub before : Time → Time → Bool
before t u = ltb t u

-- `if now.IsZero() { now = time.Now() }`
abbrev pub or_clock : Time → Time → Time
or_clock clock now = if nat_eq now 0 then clock else now

-- `t.Unix()`: the zero time is 62135596800 seconds before 1970.
abbrev pub unix : Time → ℤ
unix t = sub_ℕ (t / 1000000000) 62135596800
