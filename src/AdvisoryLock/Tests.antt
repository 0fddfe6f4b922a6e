-- ===== src/AdvisoryLock/Tests.antt =====
-- Runs of advisory_lock.cc on the locks of two processes.
use junction.Prelude.{List, [], ◌∷◌, arith}
use junction.AdvisoryLock.{read, write, AdvisoryLock, wait_until, set_lock}
use junction.AdvisoryLock.Exclusion.{IsExclusive, AreWakes, IsWait, set_lock-IsExclusive}

-- Process 1 writes 0 to 9, process 2 reads 20 to 29.
abbrev locks : List AdvisoryLock
locks =
    record { type = write; start = 0; end = 9; pid = 1 }
    ∷ record { type = read; start = 20; end = 29; pid = 2 }
    ∷ []

abbrev wanted : AdvisoryLock
wanted = record { type = read; start = 15; end = 25; pid = 3 }

locks-IsExclusive : IsExclusive locks
unfolding IsExclusive
locks-IsExclusive p q type a f g = ground arith

set_lock-IsExclusive_example :
    IsExclusive ((set_lock wanted (wait_until (locks ∷ [] ∷ [])) locks).1)
unfolding IsWait AreWakes IsExclusive
set_lock-IsExclusive_example =
    set_lock-IsExclusive wanted (wait_until (locks ∷ [] ∷ [])) locks (omega arith)
      (locks-IsExclusive, ((λ p q type a f g. ground arith), tt)) locks-IsExclusive
