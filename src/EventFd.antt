-- ===== src/EventFd.antt =====
-- fs/eventfd.cc: the counter of an event file. Each operation runs under the file's lock. A value is an
-- unsigned 64-bit integer, so sums wrap around at 2 ^ 64. Of the poll source the two bits are kept.
pub mod Counter
mod Tests
use junction.Prelude.{
  ℕ, ◌≡◌, ◌+◌, ◌-◌, ◌<◌, ◌^◌, ◌%◌, Bool, true, false, ◌==◌, if◌then◌else◌, ltb, Option, none, some,
  Status, ok, err, einval, eintr, eagain,
}

pub record EventFd : Type 0 where
  pub val : ℕ
  pub poll_in : Bool
  pub poll_out : Bool

-- The constructor with `initval`: it sets kPollOut only.
pub init : ℕ → EventFd
init initval = record { val = initval; poll_in = false; poll_out = true }

abbrev pub u64_max : ℕ
u64_max = 2 ^ 64 - 1

abbrev pub val_size : ℕ
val_size = 8

-- How a call that cannot proceed goes on: the file is nonblocking, or the wait ends with the state of
-- that moment, or with a signal (`none`).
pub data Blocking : Type 0 where
  nonblocking : Blocking
  waiting : Option EventFd → Blocking

-- The state in which the call goes on, or its error.
pub resume : Blocking → Status EventFd
resume nonblocking = err eagain
resume (waiting none) = err eintr
resume (waiting (some s)) = ok s

-- Read, from where the value is not 0: the value that is given out, and the state after it.
pub take : Bool → EventFd → ℕ × EventFd
take is_semaphore s =
    let out = if is_semaphore then 1 else s.val in
    let val = if is_semaphore then s.val - 1 else 0 in
    (
      out,
      record {
        val = val;
        poll_in = if val == 0 then false else s.poll_in;
        poll_out = if ltb val u64_max then true else s.poll_out;
      },
    )

-- Write, from where the sum does not overflow.
pub give : ℕ → EventFd → EventFd
give val s =
    let sum = (s.val + val) % 2 ^ 64 in
    record { val = sum; poll_in = true; poll_out = if sum == u64_max then false else s.poll_out }

pub overflows : ℕ → EventFd → Bool
overflows val s = ltb ((val + s.val) % 2 ^ 64) val

-- The result is the number of bytes, here with the value that is read.
pub read : ℕ → Bool → Blocking → EventFd → Status (ℕ × ℕ) × EventFd
read size is_semaphore blocking s =
    if ltb size val_size
    then (err einval, s)
    else if s.val == 0
    then elim (resume blocking) [
      | err e ↦ (err e, s)
      | ok then_s ↦ let (out, after) = take is_semaphore then_s in (ok (val_size, out), after)
    ]
    else let (out, after) = take is_semaphore s in (ok (val_size, out), after)

pub write : ℕ → ℕ → Blocking → EventFd → Status ℕ × EventFd
write size val blocking s =
    if ltb size val_size
    then (err einval, s)
    else if val == u64_max
    then (err einval, s)
    else if val == 0
    then (ok val_size, s)
    else if overflows val s
    then elim (resume blocking) [ err e ↦ (err e, s) | ok then_s ↦ (ok val_size, give val then_s) ]
    else (ok val_size, give val s)
