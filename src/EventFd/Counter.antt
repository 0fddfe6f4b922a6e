-- ===== src/EventFd/Counter.antt =====
-- The poll bits agree with the counter, and what is written is what can be read.
use junction.Prelude.{
  ℕ, ◌≡◌, ◌+◌, ◌<◌, ◌^◌, Bool, true, false, not, ◌==◌, ltb, none, some, Status, ok, err, List, [],
  ◌∷◌, arith,
}
use junction.EventFd.{
  EventFd, init, u64_max, Blocking, nonblocking, waiting, resume, take, give, overflows, read,
  write,
}

-- A file is readable when its counter is not 0, and writable when its counter is below the maximum.
unfoldable pub IsPolled : EventFd → Type 0
IsPolled s = (s.val < 2 ^ 64) × (s.poll_in ≡ not (s.val == 0)) × (s.poll_out ≡ ltb s.val u64_max)

-- The poll bits of a new file agree with its counter exactly when it starts at 0: with any other start
-- it can be read, but is not reported as readable.
pub init-IsPolled :
    (initval : ℕ)
    → initval < 2 ^ 32
    → (IsPolled (init initval) → initval ≡ 0) × (initval ≡ 0 → IsPolled (init initval))
unfolding IsPolled init
init-IsPolled initval h = ground arith

-- The state in which a blocked call goes on has the poll bits right and satisfies the condition.
unfoldable pub IsResumed : (EventFd → Bool) → Blocking → Type 0
IsResumed ready nonblocking = Unit
IsResumed ready (waiting none) = Unit
IsResumed ready (waiting (some s)) = IsPolled s × (ready s ≡ true)

take-IsPolled :
    (is_semaphore : Bool) (s : EventFd) → IsPolled s → IsPolled ((take is_semaphore s).1)
unfolding IsPolled take
take-IsPolled is_semaphore s h = ground arith

give-IsPolled :
    (val : ℕ) (s : EventFd)
    → val < 2 ^ 64
    → (val == 0) ≡ false
    → overflows val s ≡ false
    → IsPolled s
    → IsPolled (give val s) × ((give val s).val ≡ s.val + val)
unfolding IsPolled give overflows
give-IsPolled val s h n f p = ground arith

abbrev pub nonzero : EventFd → Bool
nonzero s = not (s.val == 0)

-- A read keeps the poll bits right on every path, when a call that waits is resumed with a counter that
-- is not 0.
pub read-IsPolled :
    (size : ℕ) (is_semaphore : Bool) (blocking : Blocking) (s : EventFd)
    → IsPolled s
    → IsResumed nonzero blocking
    → IsPolled ((read size is_semaphore blocking s).1)
unfolding read resume IsResumed
read-IsPolled size is_semaphore nonblocking s p r = ground (arith, take-IsPolled is_semaphore s p)
read-IsPolled size is_semaphore (waiting none) s p r =
    ground (arith, take-IsPolled is_semaphore s p)
read-IsPolled size is_semaphore (waiting (some t)) s p (q, ready) =
    ground (arith, take-IsPolled is_semaphore s p, take-IsPolled is_semaphore t q)

abbrev pub fits : ℕ → EventFd → Bool
fits val s = not (overflows val s)

give-fits :
    (val : ℕ) (s : EventFd)
    → val < 2 ^ 64
    → (val == 0) ≡ false
    → fits val s ≡ true
    → IsPolled s
    → IsPolled (give val s)
give-fits val s h n f p = (give-IsPolled val s h n (ground arith) p).0

-- A write keeps the poll bits right on every path, when a call that waits is resumed with a counter to
-- which the value can be added.
pub write-IsPolled :
    (size val : ℕ) (blocking : Blocking) (s : EventFd)
    → val < 2 ^ 64
    → IsPolled s
    → IsResumed (fits val) blocking
    → IsPolled ((write size val blocking s).1)
unfolding write resume IsResumed
write-IsPolled size val nonblocking s h p r = ground (arith, give-IsPolled val s h, p)
write-IsPolled size val (waiting none) s h p r = ground (arith, give-IsPolled val s h, p)
write-IsPolled size val (waiting (some t)) s h p (q, ready) =
    ground (arith, give-IsPolled val s h, p, give-fits val t h, ready, q)

-- The calls of a client that does not block.
pub data Call : Type 0 where
  reads : ℕ → Call
  writes : ℕ → ℕ → Call

abbrev amount_read : Status (ℕ × ℕ) → ℕ
amount_read (ok (n, out)) = out
amount_read (err e) = 0

abbrev amount_written : ℕ → Status ℕ → ℕ
amount_written val (ok n) = val
amount_written val (err e) = 0

-- What the calls write and read in all, and the state after them.
pub run : Bool → List Call → EventFd → ℕ × ℕ × EventFd
run is_semaphore [] s = (0, 0, s)
run is_semaphore (reads size ∷ cs) s =
    let (result, after) = read size is_semaphore nonblocking s in
    let (written, taken, final) = run is_semaphore cs after in
    (written, amount_read result + taken, final)
run is_semaphore (writes size val ∷ cs) s =
    let (result, after) = write size val nonblocking s in
    let (written, taken, final) = run is_semaphore cs after in
    (amount_written val result + written, taken, final)

unfoldable pub IsCall : Call → Type 0
IsCall (reads size) = Unit
IsCall (writes size val) = val < 2 ^ 64

unfoldable pub AreCalls : List Call → Type 0
AreCalls [] = Unit
AreCalls (c ∷ cs) = IsCall c × AreCalls cs

read_amount :
    (size : ℕ) (is_semaphore : Bool) (s : EventFd)
    → s.val < 2 ^ 64
    → let (result, after) = read size is_semaphore nonblocking s in
      (s.val ≡ amount_read result + after.val) × (after.val < 2 ^ 64)
unfolding read resume take
read_amount size is_semaphore s p = ground arith

write_amount :
    (size val : ℕ) (s : EventFd)
    → val < 2 ^ 64
    → s.val < 2 ^ 64
    → let (result, after) = write size val nonblocking s in
      (s.val + amount_written val result ≡ after.val) × (after.val < 2 ^ 64)
unfolding write resume give overflows
write_amount size val s h p = ground arith

-- Nothing is lost or made up: after any calls that do not block, what was there at first, whatever 64-bit
-- value it is, and was written is what was read and is still there. The written values are 64-bit, and no
-- write wraps the counter.
pub run-conserves :
    (is_semaphore : Bool) (cs : List Call) (s : EventFd)
    → AreCalls cs
    → s.val < 2 ^ 64
    → let (written, taken, final) = run is_semaphore cs s in
      (s.val + written ≡ taken + final.val) × (final.val < 2 ^ 64)
unfolding run AreCalls IsCall
run-conserves is_semaphore [] s cs-fit p = (omega arith, p)
run-conserves is_semaphore (reads size ∷ cs) s (c, rest) p =
    let (amount, small) = read_amount size is_semaphore s p in
    let after = (read size is_semaphore nonblocking s).1 in
    let (kept, end) = run-conserves is_semaphore cs after rest small in
    (omega (arith, kept, amount), end)
run-conserves is_semaphore (writes size val ∷ cs) s (c, rest) p =
    let (amount, small) = write_amount size val s c p in
    let after = (write size val nonblocking s).1 in
    let (kept, end) = run-conserves is_semaphore cs after rest small in
    (omega (arith, kept, amount), end)
