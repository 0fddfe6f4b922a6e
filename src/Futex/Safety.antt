-- ===== src/Futex/Safety.antt =====
-- The states that follow a Wake that takes every waiter.
use Prim.Native.Nat.{bit_and}
use junction.Prelude.{
  ℕ, zero, suc, ◌≡◌, ◌≢◌, ◌≤◌, refl, ◌∙◌, ap, Bool, true, false, ◌==◌, ◌&&◌, not, List, [], ◌∷◌,
  none, some, take, length, arith,
}
use junction.Futex.{FutexWaiter, get_bucket, matches, wake}
use junction.Futex.Wake.{matching, wake_lem}
use junction.Futex.Threads.{
  Pc, idle, entered, holding, tested, asleep, woken, returned, FutexSystem, among, wake_up,
  wake_step, Step, store, pass, differ, acquire, test, refuse, sleep, give_up, resume, call_wake,
  leave, start, Reach,
}
use junction.Futex.Invariant.{registered, holds_lock, sleeps_on, Inv, Reach-Inv}

-- A thread that sleeps, or is about to, for the word to change from `val`, and for one of the bits.
abbrev pub awaits : ℕ → ℕ → ℕ → Pc → Bool
awaits key val bitset (tested k v b) = k == key && v == val && not (bit_and b bitset == 0)
awaits key val bitset (asleep k v b) = k == key && v == val && not (bit_and b bitset == 0)
awaits key val bitset _ = false

awaits-wake_up :
    (key val bitset : ℕ) (p : Pc)
    → awaits key val bitset p ≡ false
    → awaits key val bitset (wake_up p) ≡ false
awaits-wake_up key val bitset (asleep k v b) h = refl
awaits-wake_up key val bitset idle h = h
awaits-wake_up key val bitset (entered k v b) h = h
awaits-wake_up key val bitset (holding k v b) h = h
awaits-wake_up key val bitset (tested k v b) h = h
awaits-wake_up key val bitset (woken k v b) h = h
awaits-wake_up key val bitset (returned r) h = h

take_all : (n : ℕ) (ws : List FutexWaiter) → length ws ≤ n → take n ws ≡ ws
take_all zero [] h = refl
take_all zero (w ∷ ws) h = absurd (omega arith)
take_all (suc n) [] h = refl
take_all (suc n) (w ∷ ws) h = ap (λ (l : List FutexWaiter). w ∷ l) (take_all n ws (omega arith))

length-matching :
    (key bitset : ℕ) (ws : List FutexWaiter) → length (matching key bitset ws) ≤ length ws
length-matching key bitset [] = omega arith
length-matching key bitset (w ∷ ws) = ground (arith, length-matching key bitset ws)

among-matching :
    (i key b bitset : ℕ) (ws : List FutexWaiter)
    → registered i key b ws ≡ true
    → (bit_and b bitset == 0) ≡ false
    → among i (matching key bitset ws) ≡ true
unfolding matches
among-matching i key b bitset [] r h = r
among-matching i key b bitset (w ∷ ws) r h =
    let same : (w.bitset == b) ≡ true → bit_and w.bitset bitset ≡ bit_and b bitset =
      λ e. ap (λ (x : ℕ). bit_and x bitset) (ground (arith, e)) in
    ground (arith, among-matching i key b bitset ws, same)

module _ (hash : ℕ → ℕ) where
  -- Runs of which each step is made while the word is not `val`.
  pub data Away (key val : ℕ) (s : FutexSystem) : FutexSystem → Type 0 where
    stay : Away key val s s
    go :
        {t u : FutexSystem} → Away key val s t → t.word key ≢ val → Step hash t u → Away key val s u

  taken_by_wake :
      (s : FutexSystem) (key n bitset i b : ℕ)
      → Inv hash s
      → sleeps_on (s.pc i) ≡ some (key, b)
      → (bit_and b bitset == 0) ≡ false
      → length (s.bucket (get_bucket hash key)) ≤ n
      → among i (wake key n bitset (s.bucket (get_bucket hash key))).0 ≡ true
  taken_by_wake s key n bitset i b v e bits all =
      let ws = s.bucket (get_bucket hash key) in
      let (front, _, _) = wake_lem key n bitset ws in
      ap (among i)
        (front ∙ take_all n (matching key bitset ws) (omega (arith, length-matching key bitset ws)))
      ∙ among-matching i key b bitset ws (v.listed i key b e) bits

  after_wake :
      (s : FutexSystem) (key val n bitset i : ℕ)
      → Inv hash s
      → s.lock (get_bucket hash key) ≡ none
      → length (s.bucket (get_bucket hash key)) ≤ n
      → awaits key val bitset ((wake_step hash s key n bitset).pc i) ≡ false
  after_wake s key val n bitset i v free all = by_pc (s.pc i) refl
    where
      by_pc :
          (p : Pc)
          → s.pc i ≡ p
          → awaits key val bitset ((wake_step hash s key n bitset).pc i) ≡ false
      by_pc (asleep k x b) e =
          let taken : k ≡ key
              → (bit_and b bitset == 0) ≡ false
              → among i (wake key n bitset (s.bucket (get_bucket hash key))).0 ≡ true =
            λ same bits.
              taken_by_wake s key n bitset i b v (ap sleeps_on e ∙ ap (λ (y : ℕ). some (y, b)) same)
                bits all in
          ground (arith, e, taken)
      by_pc (tested k x b) e = ground (arith, e, v.owner i k (ap holds_lock e))
      by_pc idle e = ground (arith, e)
      by_pc (entered k x b) e = ground (arith, e)
      by_pc (holding k x b) e = ground (arith, e)
      by_pc (woken k x b) e = ground (arith, e)
      by_pc (returned r) e = ground (arith, e)

  Step-quiet :
      (s t : FutexSystem) (key val bitset : ℕ)
      → s.word key ≢ val
      → ((i : ℕ) → awaits key val bitset (s.pc i) ≡ false)
      → Step hash s t
      → (i : ℕ) → awaits key val bitset (t.pc i) ≡ false
  Step-quiet s t key val bitset away quiet (store k x e) i =
      ground (arith, ap (λ (u : FutexSystem). u.pc i) e, quiet i)
  Step-quiet s t key val bitset away quiet (pass j k x b p q e) i =
      ground (arith, ap (λ (u : FutexSystem). u.pc i) e, quiet i)
  Step-quiet s t key val bitset away quiet (differ j k x p q e) i =
      ground (arith, ap (λ (u : FutexSystem). u.pc i) e, quiet i)
  Step-quiet s t key val bitset away quiet (acquire j k x b p q e) i =
      ground (arith, ap (λ (u : FutexSystem). u.pc i) e, quiet i)
  Step-quiet s t key val bitset away quiet (test j k x b p q e) i =
      ground (arith, ap (λ (u : FutexSystem). u.pc i) e, quiet i, away)
  Step-quiet s t key val bitset away quiet (refuse j k x b p q e) i =
      ground (arith, ap (λ (u : FutexSystem). u.pc i) e, quiet i)
  Step-quiet s t key val bitset away quiet (sleep j k x b p e) i =
      ground (arith, ap (λ (u : FutexSystem). u.pc i) e, quiet i, quiet j)
  Step-quiet s t key val bitset away quiet (give_up j k x b r p q e) i =
      ground (arith, ap (λ (u : FutexSystem). u.pc i) e, quiet i)
  Step-quiet s t key val bitset away quiet (resume j k x b p q e) i =
      ground (arith, ap (λ (u : FutexSystem). u.pc i) e, quiet i)
  Step-quiet s t key val bitset away quiet (call_wake k n b q e) i =
      ground
        (arith, ap (λ (u : FutexSystem). u.pc i) e, quiet i, awaits-wake_up key val bitset (s.pc i))
  Step-quiet s t key val bitset away quiet (leave j r p e) i =
      ground (arith, ap (λ (u : FutexSystem). u.pc i) e, quiet i)

  -- When Wake is called on an address, with its bucket unlocked, for at least as many threads as the
  -- bucket has waiters, no thread is left asleep that waits for the word to change from `val` and for one
  -- of the bits, nor is one on its way to sleep past its test. This holds in every later state, whatever
  -- the threads do, as long as the word stays different from `val`.
  pub no_lost_wakeup :
      (word : ℕ → ℕ) (s : FutexSystem) (key val n bitset : ℕ)
      → Reach hash (start hash word) s
      → s.lock (get_bucket hash key) ≡ none
      → length (s.bucket (get_bucket hash key)) ≤ n
      → (t : FutexSystem) → Away key val (wake_step hash s key n bitset) t
      → (i : ℕ) → awaits key val bitset (t.pc i) ≡ false
  no_lost_wakeup word s key val n bitset r free all t stay i =
      after_wake s key val n bitset i (Reach-Inv hash word s r) free all
  no_lost_wakeup word s key val n bitset r free all t (go run away st) i =
      Step-quiet _ t key val bitset away (no_lost_wakeup word s key val n bitset r free all _ run)
        st i
