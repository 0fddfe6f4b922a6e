-- ===== src/Time.antt =====
-- base/time.h: the conversions of times, in microseconds, to and from Linux's, and the arithmetic of
-- Time and Duration. A Time is a 64-bit word; a Duration is the word that stands for its int64_t, in
-- two's complement, so that both wrap around at 2 ^ 64. The seconds of a timespec are not negative.
pub mod RoundTrip
mod Tests
use junction.Prelude.{
  ℕ, ◌+◌, ◌-◌, ◌*◌, ◌/◌, ◌%◌, ◌^◌, Bool, ◌==◌, ltb, leb, if◌then◌else◌, add64, sub64,
}

abbrev pub milliseconds : ℕ
milliseconds = 1000

abbrev pub seconds : ℕ
seconds = 1000000

pub record Timeval : Type 0 where
  pub tv_sec : ℕ
  pub tv_usec : ℕ

pub record Timespec : Type 0 where
  pub tv_sec : ℕ
  pub tv_nsec : ℕ

unfoldable pub timeval_to_us : Timeval → ℕ
timeval_to_us tv = (tv.tv_sec * seconds + tv.tv_usec) % 2 ^ 64

pub us_to_timeval : ℕ → Timeval
us_to_timeval us = record { tv_sec = us / seconds; tv_usec = us % seconds }

pub timespec_to_us : Timespec → ℕ
timespec_to_us ts = (ts.tv_sec * seconds + ts.tv_nsec / 1000) % 2 ^ 64

pub us_to_timespec : ℕ → Timespec
us_to_timespec us = record { tv_sec = us / seconds; tv_nsec = us % seconds * 1000 }

-- Whether the int64_t of a word is negative.
pub is_negative : ℕ → Bool
is_negative d = leb (2 ^ 63) d

-- Time + Duration and Duration + Duration.
pub plus : ℕ → ℕ → ℕ
plus t d = add64 t d

-- Time - Duration and Time - Time.
pub minus : ℕ → ℕ → ℕ
minus t d = sub64 t d

-- Duration::Since and Duration::Until, at the time `now`.
pub since : ℕ → ℕ → ℕ
since now t = minus now t

pub until : ℕ → ℕ → ℕ
until now t = minus t now

-- Time::FromUnixTime, and Time::TimespecUnixTime and TimevalUnixTime, given start_time_unix.
pub from_unix_time : ℕ → Timespec → ℕ
from_unix_time start ts = sub64 (timespec_to_us ts) start

pub timespec_unix_time : ℕ → ℕ → Timespec
timespec_unix_time start time = us_to_timespec (add64 time start)

pub from_unix_timeval : ℕ → Timeval → ℕ
from_unix_timeval start tv = sub64 (timeval_to_us tv) start

pub timeval_unix_time : ℕ → ℕ → Timeval
timeval_unix_time start time = us_to_timeval (add64 time start)

-- The literals.
pub from_seconds : ℕ → ℕ
from_seconds s = s * seconds % 2 ^ 64

pub from_milliseconds : ℕ → ℕ
from_milliseconds ms = ms * milliseconds % 2 ^ 64

-- Time::operator+= and Time::operator-=.
pub advance : ℕ → ℕ → ℕ
advance t d = plus t d

pub set_back : ℕ → ℕ → ℕ
set_back t d = minus t d

-- Duration::operator+= and Duration::operator+.
pub plus_duration : ℕ → ℕ → ℕ
plus_duration d e = add64 d e

-- Time::Milliseconds
pub to_milliseconds : ℕ → ℕ
to_milliseconds t = t / milliseconds
