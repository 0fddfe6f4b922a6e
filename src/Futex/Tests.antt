-- ===== src/Futex/Tests.antt =====
-- One thread sleeps on the word at 7 until it changes from 0; another wakes it.
use junction.Prelude.{ℕ, ◌≡◌, refl, List, [], ◌∷◌, false, arith, ok}
use junction.Futex.{FutexWaiter, matches, wake_loop, wake}
use junction.Futex.Wake.{matching, others, wake_lem}
use junction.Futex.Threads.{
  idle, entered, tested, returned, FutexSystem, update, locked, sleeping, wake_step, store, pass,
  acquire, test, sleep, resume, start, Reach, here, next,
}
use junction.Futex.Safety.{awaits, Away, stay, go, no_lost_wakeup}

abbrev hash : ℕ → ℕ
hash key = key

abbrev word0 : ℕ → ℕ
word0 key = 0

abbrev s1 : FutexSystem
s1 = record (start hash word0) { pc = update (λ i. idle) 1 (entered 7 0 5) }

abbrev s2 : FutexSystem
s2 = locked hash s1 1 7 0 5

abbrev s3 : FutexSystem
s3 = record s2 { pc = update s2.pc 1 (tested 7 0 5) }

abbrev s4 : FutexSystem
s4 = sleeping hash s3 1 7 0 5

abbrev s5 : FutexSystem
s5 = record s4 { word = update s4.word 7 1 }

abbrev s6 : FutexSystem
s6 = wake_step hash s5 7 1 4

abbrev s7 : FutexSystem
s7 = record s6 { pc = update s6.pc 1 (returned (ok tt)) }

run5 : Reach hash (start hash word0) s5
run5 =
    next
      (next
        (next (next (next here (pass 1 7 0 5 refl refl refl)) (acquire 1 7 0 5 refl refl refl))
          (test 1 7 0 5 refl refl refl))
        (sleep 1 7 0 5 refl refl))
      (store 7 1 refl)

after : Away hash 7 0 s6 s7
unfolding wake wake_loop matches
after = go stay (ground arith) (resume 1 7 0 5 refl refl refl)

no_lost_wakeup_example : awaits 7 0 4 (s7.pc 1) ≡ false
no_lost_wakeup_example = no_lost_wakeup hash word0 s5 7 0 1 4 run5 refl (omega arith) s7 after 1

abbrev waiters : List FutexWaiter
waiters =
    record { thread = 1; key = 7; bitset = 5 }
    ∷ record { thread = 2; key = 23; bitset = 5 }
    ∷ record { thread = 3; key = 7; bitset = 2 }
    ∷ record { thread = 4; key = 7; bitset = 4 }
    ∷ []

wake_lem_example :
    let (front, left) = wake 7 2 4 waiters in
    (front
      ≡ record { thread = 1; key = 7; bitset = 5 }
        ∷ record { thread = 4; key = 7; bitset = 4 }
        ∷ [])
    × (matching 7 4 left ≡ [])
    × (others 7 4 left
        ≡ record { thread = 2; key = 23; bitset = 5 }
          ∷ record { thread = 3; key = 7; bitset = 2 }
          ∷ [])
unfolding matches
wake_lem_example = wake_lem 7 2 4 waiters
