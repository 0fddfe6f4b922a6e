-- ===== src/Futex.antt =====
-- kernel/futex.h and futex.cc: FutexTable and the system call futex. The addresses of 32-bit words are
-- numbers. The list of a bucket is worked on under the bucket's lock; the threads that interleave with
-- this stand in Threads.
pub mod Wake
pub mod Threads
pub mod Invariant
pub mod Safety
mod Tests
use Prim.Native.Nat.{bit_and}
use junction.Prelude.{
  ℕ, zero, suc, ◌+◌, ◌-◌, ◌%◌, ◌^◌, Bool, true, false, ◌&&◌, ◌||◌, not, ◌==◌, if◌then◌else◌, leb,
  List, [], ◌∷◌, ◌++◌,
}

-- futex_waiter. Its waker is the thread; a waiter whose waker is null stands in no list.
pub record FutexWaiter : Type 0 where
  pub thread : ℕ
  pub key : ℕ
  pub bitset : ℕ

abbrev pub bitset_any : ℕ
bitset_any = 0xFFFFFFFF

abbrev pub num_buckets : ℕ
num_buckets = 16

-- The index of the bucket, given std::hash.
abbrev pub get_bucket : (ℕ → ℕ) → ℕ → ℕ
get_bucket hash key = hash key % num_buckets

pub matches : ℕ → ℕ → FutexWaiter → Bool
matches key bitset w = w.key == key && not (bit_and w.bitset bitset == 0)

-- The loop of Wake over a bucket, after `i` of `n` waiters: the waiters that are woken, and the list.
-- The test `++i >= n` follows each of them.
pub wake_loop : ℕ → ℕ → ℕ → ℕ → List FutexWaiter → List FutexWaiter × List FutexWaiter
wake_loop key n bitset i [] = ([], [])
wake_loop key n bitset i (w ∷ ws) =
    let skip = wake_loop key n bitset i ws in
    let rest = wake_loop key n bitset (i + 1) ws in
    if not (matches key bitset w)
    then (skip.0, w ∷ skip.1)
    else if leb n (i + 1)
    then (w ∷ [], ws)
    else (w ∷ rest.0, rest.1)

-- Wake on a bucket.
pub wake : ℕ → ℕ → ℕ → List FutexWaiter → List FutexWaiter × List FutexWaiter
wake key n bitset ws = if n == 0 then ([], ws) else wake_loop key n bitset 0 ws

-- `bucket.futexes.erase`, at the waiter of a thread.
pub erase : ℕ → List FutexWaiter → List FutexWaiter
erase thread [] = []
erase thread (w ∷ ws) = let rest = erase thread ws in if w.thread == thread then ws else w ∷ rest

-- The argument `n` of Wake as an int, from the uint32_t of the system call: a negative `n` ends the loop
-- after one waiter, as 1 does.
pub wake_count : ℕ → ℕ
wake_count val = if leb (2 ^ 31) val then 1 else val

pub data FutexOp : Type 0 where
  futex_wait futex_wake futex_wait_bitset futex_wake_bitset unsupported : FutexOp

-- What usys_futex calls: Wake with its count and bits, or Wait with its value and bits.
pub data Action : Type 0 where
  do_wake do_wait : ℕ → ℕ → Action
  enosys : Action

pub usys_futex : FutexOp → ℕ → ℕ → Action
usys_futex futex_wake val val3 = do_wake (wake_count val) bitset_any
usys_futex futex_wake_bitset val val3 = do_wake (wake_count val) val3
usys_futex futex_wait val val3 = do_wait val bitset_any
usys_futex futex_wait_bitset val val3 = do_wait val val3
usys_futex unsupported val val3 = enosys
