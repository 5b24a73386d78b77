-- ===== src/Security/TokenBucket.antt =====
-- `TokenBucket` of src/titanbox/security.py. Times are milliseconds of the monotonic clock and the
-- level is counted in 1/60000 of a token, so that `elapsed * rate_per_second` is a whole number:
-- a bucket of `rate` tokens a minute gains exactly `rate` units in a millisecond.
pub mod Laws
use vpsssssskjwjw.Prelude.{ℕ, ◌+◌, ◌-◌, ◌*◌, min, max, Bool, true, false, ltb, if◌then◌else◌}

abbrev pub unit : ℕ
unit = 60000

pub record TokenBucket : Type 0 where
  pub rate_per_minute : ℕ
  pub capacity : ℕ
  pub tokens : ℕ
  pub updated : ℕ

-- `__init__`, at clock `now`.
unfoldable pub make : ℕ → ℕ → ℕ → TokenBucket
make rate_per_minute burst now = record {
  rate_per_minute = max 1 rate_per_minute;
  capacity = max 1 burst * unit;
  tokens = max 1 burst * unit;
  updated = now;
}

-- The level after `elapsed * rate_per_second` has been added, up to the capacity.
unfoldable pub refill : TokenBucket → ℕ → ℕ
refill b now = min b.capacity (b.tokens + (now - b.updated) * b.rate_per_minute)

-- `allow`, at clock `now`; `max(0.0, now - self.updated)` is subtraction on ℕ.
unfoldable pub allow : TokenBucket → ℕ → ℕ → Bool × TokenBucket
unfolding refill
allow b cost now =
    let filled = refill b now in
    if ltb filled cost
    then (false, record b { tokens = filled; updated = now })
    else (true, record b { tokens = filled - cost; updated = now })
