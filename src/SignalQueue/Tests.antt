-- ===== src/SignalQueue/Tests.antt =====
-- Runs of SignalQueue on a queue with one signal.
use junction.Prelude.{◌==◌, true, false, [], ◌∷◌, arith}
use junction.SignalQueue.{SigInfo, SignalQueue, pop}
use junction.SignalQueue.Pending.{IsValid, IsPopped, pop_lem}

abbrev sigusr1 : SigInfo
sigusr1 = record { si_signo = 10; si_value = 1 }

abbrev one_signal : SignalQueue
one_signal = record { pending_q = sigusr1 ∷ []; pending = λ k. k == 10 }

one_signal-IsValid : IsValid one_signal
unfolding IsValid
one_signal-IsValid k = ground arith

pop_lem_example : IsPopped (λ k. false) true one_signal (pop (λ k. false) true one_signal)
pop_lem_example = pop_lem (λ k. false) true one_signal one_signal-IsValid
