-- ===== src/Futex/Threads.antt =====
-- Threads that wait on words and wake one another, interleaved in any order. A bucket's lock is a spin
-- lock; WaitInterruptible releases it and puts the thread to sleep in one step, and has it again when it
-- returns. Stores to the words need no lock, and may come between any two steps.
use junction.Prelude.{
  ℕ, ◌≡◌, ◌≢◌, ◌==◌, ◌||◌, Bool, false, if◌then◌else◌, List, [], ◌∷◌, ◌++◌, Option, none, some,
  Errno, eagain, Status, ok, err,
}
use junction.Futex.{FutexWaiter, get_bucket, wake, erase}

-- Where a thread stands in Wait: before the bucket's lock; with the lock, before and after the test of the
-- word; asleep; with its waker taken by Wake; returned.
pub data Pc : Type 0 where
  idle : Pc
  entered holding tested asleep woken : (key val bitset : ℕ) → Pc
  returned : Status (Unit {0}) → Pc

pub record FutexSystem : Type 0 where
  pub word : ℕ → ℕ
  pub lock : ℕ → Option ℕ
  pub bucket : ℕ → List FutexWaiter
  pub pc : ℕ → Pc

abbrev pub update {ℓ} : {A : Type ℓ} → (ℕ → A) → ℕ → A → ℕ → A
update f i a j = if j == i then a else f j

abbrev pub among : ℕ → List FutexWaiter → Bool
among i [] = false
among i (w ∷ ws) = w.thread == i || among i ws

-- `std::exchange(w.waker, nullptr)` for the waiters that Wake takes.
abbrev pub wake_up : Pc → Pc
wake_up (asleep key val bitset) = woken key val bitset
wake_up p = p

abbrev pub wake_threads : List FutexWaiter → (ℕ → Pc) → ℕ → Pc
wake_threads ws pc i = if among i ws then wake_up (pc i) else pc i

module _ (hash : ℕ → ℕ) where
  -- The states after the steps of the thread `i` in Wait, and of Wake.
  abbrev pub locked : FutexSystem → ℕ → ℕ → ℕ → ℕ → FutexSystem
  locked s i key val bitset = record s {
    lock = update s.lock (get_bucket hash key) (some i);
    pc = update s.pc i (holding key val bitset);
  }

  abbrev pub refused : FutexSystem → ℕ → ℕ → FutexSystem
  refused s i key = record s {
    lock = update s.lock (get_bucket hash key) none;
    pc = update s.pc i (returned (err eagain));
  }

  abbrev pub sleeping : FutexSystem → ℕ → ℕ → ℕ → ℕ → FutexSystem
  sleeping s i key val bitset =
      let b = get_bucket hash key in
      let waiter : FutexWaiter = record { thread = i; key = key; bitset = bitset } in
      record s {
        lock = update s.lock b none;
        bucket = update s.bucket b (s.bucket b ++ waiter ∷ []);
        pc = update s.pc i (asleep key val bitset);
      }

  abbrev pub given_up : FutexSystem → ℕ → ℕ → Errno → FutexSystem
  given_up s i key e =
      let b = get_bucket hash key in
      record s {
        bucket = update s.bucket b (erase i (s.bucket b));
        pc = update s.pc i (returned (err e));
      }

  abbrev pub wake_step : FutexSystem → ℕ → ℕ → ℕ → FutexSystem
  wake_step s key n bitset =
      let b = get_bucket hash key in
      let result = wake key n bitset (s.bucket b) in
      record s { bucket = update s.bucket b result.1; pc = wake_threads result.0 s.pc }

  pub data Step (s : FutexSystem) (t : FutexSystem) : Type 0 where
    store : (key v : ℕ) → t ≡ record s { word = update s.word key v } → Step s t
    -- The first test of Wait, without the lock.
    pass :
        (i key val bitset : ℕ)
        → s.pc i ≡ idle
        → s.word key ≡ val
        → t ≡ record s { pc = update s.pc i (entered key val bitset) }
        → Step s t
    differ :
        (i key val : ℕ)
        → s.pc i ≡ idle
        → s.word key ≢ val
        → t ≡ record s { pc = update s.pc i (returned (err eagain)) }
        → Step s t
    acquire :
        (i key val bitset : ℕ)
        → s.pc i ≡ entered key val bitset
        → s.lock (get_bucket hash key) ≡ none
        → t ≡ locked s i key val bitset
        → Step s t
    test :
        (i key val bitset : ℕ)
        → s.pc i ≡ holding key val bitset
        → s.word key ≡ val
        → t ≡ record s { pc = update s.pc i (tested key val bitset) }
        → Step s t
    refuse :
        (i key val bitset : ℕ)
        → s.pc i ≡ holding key val bitset
        → s.word key ≢ val
        → t ≡ refused s i key
        → Step s t
    sleep :
        (i key val bitset : ℕ)
        → s.pc i ≡ tested key val bitset
        → t ≡ sleeping s i key val bitset
        → Step s t
    -- A signal or the timeout, while no Wake has taken the waker.
    give_up :
        (i key val bitset : ℕ) (e : Errno)
        → s.pc i ≡ asleep key val bitset
        → s.lock (get_bucket hash key) ≡ none
        → t ≡ given_up s i key e
        → Step s t
    resume :
        (i key val bitset : ℕ)
        → s.pc i ≡ woken key val bitset
        → s.lock (get_bucket hash key) ≡ none
        → t ≡ record s { pc = update s.pc i (returned (ok tt)) }
        → Step s t
    call_wake :
        (key n bitset : ℕ)
        → s.lock (get_bucket hash key) ≡ none
        → t ≡ wake_step s key n bitset
        → Step s t
    leave :
        (i : ℕ) (r : Status (Unit {0}))
        → s.pc i ≡ returned r
        → t ≡ record s { pc = update s.pc i idle }
        → Step s t

  abbrev pub start : (ℕ → ℕ) → FutexSystem
  start word = record { word = word; lock = λ b. none; bucket = λ b. []; pc = λ i. idle }

  pub data Reach (s : FutexSystem) : FutexSystem → Type 0 where
    here : Reach s s
    next : {t u : FutexSystem} → Reach s t → Step t u → Reach s u
