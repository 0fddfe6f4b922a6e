-- ===== src/Futex/Invariant.antt =====
-- The reachable states of the threads.

use junction.Prelude.{
  ℕ, ◌≡◌, ◌+◌, refl, ap, Bool, true, false, ◌==◌, ◌&&◌, ◌||◌, List, [], ◌∷◌, ◌++◌, Option, none,
  some, arith,
}
use junction.Futex.{FutexWaiter, get_bucket, wake, wake_loop, erase}
use junction.Futex.Threads.{
  Pc, idle, entered, holding, tested, asleep, woken, returned, FutexSystem, among, wake_up, Step,
  store, pass, differ, acquire, test, refuse, sleep, give_up, resume, call_wake, leave, start,
  Reach, here, next,
}

-- The waiter of a thread stands in a list.
abbrev pub registered : ℕ → ℕ → ℕ → List FutexWaiter → Bool
registered i key bitset [] = false
registered i key bitset (w ∷ ws) =
    w.thread == i && (w.key == key && w.bitset == bitset) || registered i key bitset ws

-- The bucket that a thread has locked.
abbrev pub holds_lock : Pc → Option ℕ
holds_lock (holding key val bitset) = some key
holds_lock (tested key val bitset) = some key
holds_lock _ = none

abbrev pub sleeps_on : Pc → Option (ℕ × ℕ)
sleeps_on (asleep key val bitset) = some (key, bitset)
sleeps_on _ = none

registered-append :
    (i key bitset : ℕ) (ws us : List FutexWaiter)
    → registered i key bitset (ws ++ us)
      ≡ (registered i key bitset ws || registered i key bitset us)
registered-append i key bitset [] us = refl
registered-append i key bitset (w ∷ ws) us = ground (arith, registered-append i key bitset ws us)

registered-erase :
    (i j key bitset : ℕ) (ws : List FutexWaiter)
    → (j == i) ≡ false
    → registered i key bitset (erase j ws) ≡ registered i key bitset ws
unfolding erase
registered-erase i j key bitset [] h = refl
registered-erase i j key bitset (w ∷ ws) h = ground (arith, registered-erase i j key bitset ws h)

-- A waiter that Wake does not take stays.
registered-wake_loop :
    (i key bitset k n b m : ℕ) (ws : List FutexWaiter)
    → registered i key bitset ws ≡ true
    → among i (wake_loop k n b m ws).0 ≡ false
    → registered i key bitset (wake_loop k n b m ws).1 ≡ true
unfolding wake_loop
registered-wake_loop i key bitset k n b m [] r a = r
registered-wake_loop i key bitset k n b m (w ∷ ws) r a = ground (
  arith,
  registered-wake_loop i key bitset k n b m ws,
  registered-wake_loop i key bitset k n b (m + 1) ws,
)

registered-wake :
    (i key bitset k n b : ℕ) (ws : List FutexWaiter)
    → registered i key bitset ws ≡ true
    → among i (wake k n b ws).0 ≡ false
    → registered i key bitset (wake k n b ws).1 ≡ true
unfolding wake
registered-wake i key bitset k n b ws r a =
    ground (arith, registered-wake_loop i key bitset k n b 0 ws)

holds_lock-wake_up : (p : Pc) → holds_lock (wake_up p) ≡ holds_lock p
holds_lock-wake_up (asleep key val bitset) = refl
holds_lock-wake_up idle = refl
holds_lock-wake_up (entered key val bitset) = refl
holds_lock-wake_up (holding key val bitset) = refl
holds_lock-wake_up (tested key val bitset) = refl
holds_lock-wake_up (woken key val bitset) = refl
holds_lock-wake_up (returned r) = refl

sleeps_on-wake_up : (p : Pc) → sleeps_on (wake_up p) ≡ none
sleeps_on-wake_up (asleep key val bitset) = refl
sleeps_on-wake_up idle = refl
sleeps_on-wake_up (entered key val bitset) = refl
sleeps_on-wake_up (holding key val bitset) = refl
sleeps_on-wake_up (tested key val bitset) = refl
sleeps_on-wake_up (woken key val bitset) = refl
sleeps_on-wake_up (returned r) = refl

module _ (hash : ℕ → ℕ) where
  pub record Inv (s : FutexSystem) : Type 0 where
    -- A thread between its lock and its unlock owns the bucket's lock.
    pub owner : (i key : ℕ) → holds_lock (s.pc i) ≡ some key → s.lock (get_bucket hash key) ≡ some i
    -- A thread that sleeps has its waiter in its bucket.
    pub listed :
        (i key bitset : ℕ)
        → sleeps_on (s.pc i) ≡ some (key, bitset)
        → registered i key bitset (s.bucket (get_bucket hash key)) ≡ true

  start-Inv : (word : ℕ → ℕ) → Inv (start hash word)
  start-Inv word = record { owner = λ i key e. cc; listed = λ i key bitset e. cc }

  Step-owner :
      (s t : FutexSystem)
      → Inv s
      → Step hash s t
      → (i key : ℕ) → holds_lock (t.pc i) ≡ some key
      → t.lock (get_bucket hash key) ≡ some i
  Step-owner s t v (store k x e) i key h = ground (
    arith,
    ap (λ (u : FutexSystem). u.pc i) e,
    ap (λ (u : FutexSystem). u.lock (get_bucket hash key)) e,
    v.owner i key,
  )
  Step-owner s t v (pass j k x b p q e) i key h = ground (
    arith,
    ap (λ (u : FutexSystem). u.pc i) e,
    ap (λ (u : FutexSystem). u.lock (get_bucket hash key)) e,
    v.owner i key,
  )
  Step-owner s t v (differ j k x p q e) i key h = ground (
    arith,
    ap (λ (u : FutexSystem). u.pc i) e,
    ap (λ (u : FutexSystem). u.lock (get_bucket hash key)) e,
    v.owner i key,
  )
  Step-owner s t v (acquire j k x b p q e) i key h = ground (
    arith,
    ap (λ (u : FutexSystem). u.pc i) e,
    ap (λ (u : FutexSystem). u.lock (get_bucket hash key)) e,
    v.owner i key,
  )
  Step-owner s t v (test j k x b p q e) i key h = ground (
    arith,
    ap (λ (u : FutexSystem). u.pc i) e,
    ap (λ (u : FutexSystem). u.lock (get_bucket hash key)) e,
    v.owner i key,
    v.owner j k,
  )
  Step-owner s t v (refuse j k x b p q e) i key h = ground (
    arith,
    ap (λ (u : FutexSystem). u.pc i) e,
    ap (λ (u : FutexSystem). u.lock (get_bucket hash key)) e,
    v.owner i key,
    v.owner j k,
  )
  Step-owner s t v (sleep j k x b p e) i key h = ground (
    arith,
    ap (λ (u : FutexSystem). u.pc i) e,
    ap (λ (u : FutexSystem). u.lock (get_bucket hash key)) e,
    v.owner i key,
    v.owner j k,
  )
  Step-owner s t v (give_up j k x b r p q e) i key h = ground (
    arith,
    ap (λ (u : FutexSystem). u.pc i) e,
    ap (λ (u : FutexSystem). u.lock (get_bucket hash key)) e,
    v.owner i key,
  )
  Step-owner s t v (resume j k x b p q e) i key h = ground (
    arith,
    ap (λ (u : FutexSystem). u.pc i) e,
    ap (λ (u : FutexSystem). u.lock (get_bucket hash key)) e,
    v.owner i key,
  )
  Step-owner s t v (call_wake k n b q e) i key h = ground (
    arith,
    ap (λ (u : FutexSystem). u.pc i) e,
    ap (λ (u : FutexSystem). u.lock (get_bucket hash key)) e,
    v.owner i key,
    holds_lock-wake_up (s.pc i),
  )
  Step-owner s t v (leave j r p e) i key h = ground (
    arith,
    ap (λ (u : FutexSystem). u.pc i) e,
    ap (λ (u : FutexSystem). u.lock (get_bucket hash key)) e,
    v.owner i key,
  )

  Step-listed :
      (s t : FutexSystem)
      → Inv s
      → Step hash s t
      → (i key bitset : ℕ) → sleeps_on (t.pc i) ≡ some (key, bitset)
      → registered i key bitset (t.bucket (get_bucket hash key)) ≡ true
  Step-listed s t v (store k x e) i key bitset h = ground (
    arith,
    ap (λ (u : FutexSystem). u.pc i) e,
    ap (λ (u : FutexSystem). u.bucket (get_bucket hash key)) e,
    v.listed i key bitset,
  )
  Step-listed s t v (pass j k x b p q e) i key bitset h = ground (
    arith,
    ap (λ (u : FutexSystem). u.pc i) e,
    ap (λ (u : FutexSystem). u.bucket (get_bucket hash key)) e,
    v.listed i key bitset,
  )
  Step-listed s t v (differ j k x p q e) i key bitset h = ground (
    arith,
    ap (λ (u : FutexSystem). u.pc i) e,
    ap (λ (u : FutexSystem). u.bucket (get_bucket hash key)) e,
    v.listed i key bitset,
  )
  Step-listed s t v (acquire j k x b p q e) i key bitset h = ground (
    arith,
    ap (λ (u : FutexSystem). u.pc i) e,
    ap (λ (u : FutexSystem). u.bucket (get_bucket hash key)) e,
    v.listed i key bitset,
  )
  Step-listed s t v (test j k x b p q e) i key bitset h = ground (
    arith,
    ap (λ (u : FutexSystem). u.pc i) e,
    ap (λ (u : FutexSystem). u.bucket (get_bucket hash key)) e,
    v.listed i key bitset,
  )
  Step-listed s t v (refuse j k x b p q e) i key bitset h = ground (
    arith,
    ap (λ (u : FutexSystem). u.pc i) e,
    ap (λ (u : FutexSystem). u.bucket (get_bucket hash key)) e,
    v.listed i key bitset,
  )
  Step-listed s t v (sleep j k x b p e) i key bitset h = ground (
    arith,
    ap (λ (u : FutexSystem). u.pc i) e,
    ap (λ (u : FutexSystem). u.bucket (get_bucket hash key)) e,
    v.listed i key bitset,
    registered-append i key bitset (s.bucket (get_bucket hash key))
        (record { thread = j; key = k; bitset = b } ∷ []),
  )
  Step-listed s t v (give_up j k x b r p q e) i key bitset h = ground (
    arith,
    ap (λ (u : FutexSystem). u.pc i) e,
    ap (λ (u : FutexSystem). u.bucket (get_bucket hash key)) e,
    v.listed i key bitset,
    registered-erase i j key bitset (s.bucket (get_bucket hash key)),
  )
  Step-listed s t v (resume j k x b p q e) i key bitset h = ground (
    arith,
    ap (λ (u : FutexSystem). u.pc i) e,
    ap (λ (u : FutexSystem). u.bucket (get_bucket hash key)) e,
    v.listed i key bitset,
  )
  Step-listed s t v (call_wake k n b q e) i key bitset h = ground (
    arith,
    ap (λ (u : FutexSystem). u.pc i) e,
    ap (λ (u : FutexSystem). u.bucket (get_bucket hash key)) e,
    v.listed i key bitset,
    sleeps_on-wake_up (s.pc i),
    registered-wake i key bitset k n b (s.bucket (get_bucket hash key)),
  )
  Step-listed s t v (leave j r p e) i key bitset h = ground (
    arith,
    ap (λ (u : FutexSystem). u.pc i) e,
    ap (λ (u : FutexSystem). u.bucket (get_bucket hash key)) e,
    v.listed i key bitset,
  )

  -- Every step of the threads keeps the locks with their owners and the sleepers in their buckets.
  pub Step-Inv : (s t : FutexSystem) → Step hash s t → Inv s → Inv t
  Step-Inv s t st v = record { owner = Step-owner s t v st; listed = Step-listed s t v st }

  pub Reach-Inv : (word : ℕ → ℕ) (s : FutexSystem) → Reach hash (start hash word) s → Inv s
  Reach-Inv word s here = start-Inv word
  Reach-Inv word s (next r st) = Step-Inv _ s st (Reach-Inv word _ r)
