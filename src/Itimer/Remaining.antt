-- ===== src/Itimer/Remaining.antt =====
-- What an interval timer shows after it is set.
use junction.Prelude.{ℕ, ◌≡◌, ◌+◌, ◌-◌, ◌*◌, ◌^◌, ◌≤◌, ◌<◌, ap₂, false, ◌==◌, arith}
use junction.Time.{Timeval, seconds, timeval_to_us, us_to_timeval}
use junction.Time.RoundTrip.{timeval_round_trip, until-plus}
use junction.Itimer.{Itimer, Itimerval, get, exchange}

-- A timer that is set to a value shows, until that time is over, its interval and what is left of the
-- value. The microseconds that are given are below a second, and no time reaches 2^64.
pub get-exchange :
    (now later : ℕ) (it : Itimerval) (t : Itimer)
    → it.it_interval.tv_usec < seconds
    → it.it_interval.tv_sec * seconds + it.it_interval.tv_usec < 2 ^ 64
    → 0 < timeval_to_us it.it_value
    → now ≤ later
    → later ≤ now + timeval_to_us it.it_value
    → now + timeval_to_us it.it_value < 2 ^ 64
    → get later (exchange now it t).1 ≡ record {
      it_interval = it.it_interval;
      it_value = us_to_timeval (timeval_to_us it.it_value - (later - now));
    }
unfolding get exchange
get-exchange now later it t h small pos before inside bound =
    let d = timeval_to_us it.it_value in
    let on : (d == 0) ≡ false = ground (arith, pos) in
    rw on (
      ap₂ (λ (a : Timeval) (b : ℕ). record { it_interval = a; it_value = us_to_timeval b })
        (timeval_round_trip it.it_interval h small) (until-plus now later d before inside bound))
