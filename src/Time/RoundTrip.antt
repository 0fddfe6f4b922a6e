-- ===== src/Time/RoundTrip.antt =====
-- What the conversions and the arithmetic of times undo.
use junction.Prelude.{ℕ, ◌≡◌, ap₂, ◌+◌, ◌-◌, ◌*◌, ◌/◌, ◌%◌, ◌^◌, ◌≤◌, ◌<◌, true, arith}
use junction.Time.{
  Timespec, Timeval, timeval_to_us, us_to_timeval, timespec_to_us, us_to_timespec, is_negative,
  plus, minus, since, until, from_unix_time, timespec_unix_time,
}

-- Microseconds survive the way through a timespec and through a timeval.
pub us_round_trip :
    (us : ℕ)
    → us < 2 ^ 64
    → (timespec_to_us (us_to_timespec us) ≡ us) × (timeval_to_us (us_to_timeval us) ≡ us)
unfolding timespec_to_us us_to_timespec timeval_to_us us_to_timeval
us_round_trip us h = (omega arith, omega arith)

-- The difference of two times, added to the earlier one, is the later one, and a duration that is added
-- is the difference; for any two words, whatever wraps around.
pub plus-minus :
    (t u : ℕ) → t < 2 ^ 64 → u < 2 ^ 64 → (plus t (minus u t) ≡ u) × (minus (plus t u) t ≡ u)
unfolding plus minus
plus-minus t u h k = (omega arith, omega arith)

-- For times less than 2 ^ 63 microseconds apart, the time since a time is negative exactly when that time
-- is in the future, and the time until a later time is its distance.
pub since_sign :
    (now t : ℕ)
    → now < 2 ^ 63
    → t < 2 ^ 63
    → (is_negative (since now t) ≡ true → now < t)
      × (now < t → is_negative (since now t) ≡ true)
      × (now ≤ t → until now t ≡ t - now)
unfolding is_negative since until minus
since_sign now t h k = ground arith

-- A Unix time with whole microseconds that fits 64 bits survives the way through Time, whatever the
-- start time, also when it lies before the start.
pub unix_time_round_trip :
    (start : ℕ) (ts : Timespec)
    → start < 2 ^ 64
    → ts.tv_sec * 1000000 + 1000000 ≤ 2 ^ 64
    → ts.tv_nsec < 1000000000
    → ts.tv_nsec % 1000 ≡ 0
    → timespec_unix_time start (from_unix_time start ts) ≡ ts
unfolding timespec_unix_time from_unix_time timespec_to_us us_to_timespec
unix_time_round_trip start ts s h n m = ground arith

-- A timeval with less than a second of microseconds survives the way through microseconds, when these
-- fit 64 bits.
pub timeval_round_trip :
    (tv : Timeval)
    → tv.tv_usec < 1000000
    → tv.tv_sec * 1000000 + tv.tv_usec < 2 ^ 64
    → us_to_timeval (timeval_to_us tv) ≡ tv
unfolding us_to_timeval timeval_to_us
timeval_round_trip tv h small =
    let us = (tv.tv_sec * 1000000 + tv.tv_usec) % 2 ^ 64 in
    let secs : us / 1000000 ≡ tv.tv_sec = omega arith in
    let rest : us % 1000000 ≡ tv.tv_usec = omega arith in
    ap₂ (λ (a b : ℕ). record { tv_sec = a; tv_usec = b }) secs rest

-- The time until a time `d` after `now`, seen at a later time up to then.
pub until-plus :
    (now later d : ℕ)
    → now ≤ later
    → later ≤ now + d
    → now + d < 2 ^ 64
    → until later (plus now d) ≡ d - (later - now)
unfolding until plus minus
until-plus now later d h k bound = omega arith
