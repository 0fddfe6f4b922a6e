-- ===== src/Itimer.antt =====
-- kernel/itimer.h and itimer.cc: the real interval timer of a process. The current time is an argument,
-- and of the runtime's timer entry the time at which it fires is kept.
pub mod Remaining
mod Tests
use junction.Prelude.{
  ℕ, Bool, true, false, ◌==◌, if◌then◌else◌, Option, none, some, Status, ok, err, einval,
}
use junction.Time.{Timeval, timeval_to_us, us_to_timeval, from_seconds, plus, until}

pub record Itimer : Type 0 where
  pub entry : Option ℕ
  pub interval : ℕ
  pub next_fire : Option ℕ

pub record Itimerval : Type 0 where
  pub it_interval : Timeval
  pub it_value : Timeval

pub new_itimer : Itimer
new_itimer = record { entry = none; interval = 0; next_fire = none }

-- The time that is left, 0 when the timer is off.
abbrev pub left : ℕ → Option ℕ → ℕ
left now none = 0
left now (some fire) = until now fire

unfoldable pub get : ℕ → Itimer → Itimerval
get now t = record {
  it_interval = us_to_timeval t.interval;
  it_value = us_to_timeval (left now t.next_fire);
}

-- exchange: what the timer was, and the timer that has been set.
unfoldable pub exchange : ℕ → Itimerval → Itimer → Itimerval × Itimer
exchange now it t =
    let old = get now t in
    let d = timeval_to_us it.it_value in
    let fire = if d == 0 then none else some (plus now d) in
    (old, record { entry = fire; interval = timeval_to_us it.it_interval; next_fire = fire })

-- Run, at the time `now`, after the entry has fired: whether SIGALRM is sent, and the timer after it.
unfoldable pub fire : ℕ → Itimer → Bool × Itimer
fire now t =
    let signaled : Bool = elim t.next_fire [ none ↦ false | some _ ↦ true ] in
    if t.interval == 0 then (signaled, record t { entry = none; next_fire = none }) else (
      signaled,
      record t { entry = some (plus now t.interval); next_fire = some (plus now t.interval) },
    )

abbrev pub null_val : Itimerval
null_val = record {
  it_interval = record { tv_sec = 0; tv_usec = 0 };
  it_value = record { tv_sec = 0; tv_usec = 0 };
}

abbrev pub or_null : Option Itimerval → Itimerval
or_null none = null_val
or_null (some it) = it

-- usys_setitimer; `is_real` tells whether `which` is ITIMER_REAL. The result is the old value.
unfoldable pub setitimer : ℕ → Bool → Option Itimerval → Itimer → Status Itimerval × Itimer
setitimer now is_real new_value t =
    let result = exchange now (or_null new_value) t in
    if is_real then (ok result.0, result.1) else (err einval, t)

unfoldable pub getitimer : ℕ → Bool → Itimer → Status Itimerval
getitimer now is_real t = if is_real then ok (get now t) else err einval

-- usys_alarm. Its result is 0 whatever the timer was.
unfoldable pub alarm : ℕ → ℕ → Itimer → ℕ × Itimer
alarm now secs t =
    let val : Itimerval = record {
      it_interval = record { tv_sec = 0; tv_usec = 0 };
      it_value = record { tv_sec = secs; tv_usec = 0 };
    } in
    (0, (exchange now val t).1)
