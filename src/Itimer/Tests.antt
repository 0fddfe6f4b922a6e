-- ===== src/Itimer/Tests.antt =====
-- A timer of two seconds, seen half a second after it is set.
use junction.Prelude.{◌≡◌, refl}
use junction.Time.{timeval_to_us}
use junction.Itimer.{Itimerval}

abbrev two_seconds : Itimerval
two_seconds = record {
  it_interval = record { tv_sec = 1; tv_usec = 5 };
  it_value = record { tv_sec = 2; tv_usec = 0 };
}

value_us : timeval_to_us two_seconds.it_value ≡ 2000000
unfolding timeval_to_us
value_us = refl
