-- ===== src/EventFd/Tests.antt =====
-- Runs of eventfd.cc.
use junction.Prelude.{◌≡◌, ◌+◌, ◌<◌, ◌^◌, false, List, [], ◌∷◌, arith}
use junction.EventFd.{EventFd, init}
use junction.EventFd.Counter.{AreCalls, IsCall, Call, reads, writes, run, run-conserves}

-- A new file that starts at 5 and has no poll bit for reading.
abbrev five : EventFd
five = init 5

abbrev calls : List Call
calls = writes 8 4 ∷ reads 8 ∷ reads 8 ∷ []

run-conserves_example :
    let (written, taken, final) = run false calls five in
    (5 + written ≡ taken + final.val) × (final.val < 2 ^ 64)
unfolding AreCalls IsCall init
run-conserves_example = run-conserves false calls five (omega arith, (tt, (tt, tt))) (omega arith)
