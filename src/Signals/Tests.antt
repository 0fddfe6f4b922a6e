-- ===== src/Signals/Tests.antt =====
-- Runs of the signals of a thread with one pending signal.
use junction.Prelude.{◌≡◌, refl, true, false, ◌==◌, [], ◌∷◌, none, arith}
use junction.SignalQueue.{SigInfo}
use junction.SignalQueue.Pending.{IsValid}
use junction.Signals.{
  KSigaction, user_handler, SignalTable, Stack, ThreadSignals, prepare, enqueue_signal,
}
use junction.Signals.Calls.{Waited, sigreturn, rt_sigtimedwait}
use junction.Signals.Masks.{Unblockable}
use junction.Signals.Open.{Restored, Reach-Unblockable, sigreturn-prepare, handler_unblocks}
use junction.Signals.Notify.{Heard}
use junction.Signals.Wakes.{Reach-Heard}
use junction.Signals.Lost.{IsLost, rt_sigtimedwait-IsLost}
use junction.Signals.Steps.{fresh, Reach, begin, after, sends}

abbrev sigusr1 : SigInfo
sigusr1 = record { si_signo = 10; si_value = 1 }

abbrev no_stack : Stack
no_stack = record { ss_sp = 0; ss_disable = true; ss_autodisarm = false; ss_size = 0 }

abbrev handled : KSigaction
handled = record {
  handler = user_handler 4096;
  sa_flags = λ b. false;
  restorer = 0;
  sa_mask = λ k. k == 10;
}

abbrev table : SignalTable
table k = handled

abbrev sent : ThreadSignals
sent = (enqueue_signal 128 sigusr1 (fresh table no_stack)).1

abbrev sent-Reach : Reach 128 table no_stack sent
sent-Reach = after begin (sends sigusr1 refl)

Reach-Unblockable_example : Unblockable sent
Reach-Unblockable_example = Reach-Unblockable 128 table no_stack sent sent-Reach

Reach-Heard_example : Heard sent
Reach-Heard_example = Reach-Heard 128 table no_stack sent sent-Reach (tt, tt)

-- The thread blocks SIGUSR2 (12) when SIGUSR1 comes.
abbrev blocking : ThreadSignals
blocking = record (fresh table no_stack) { blocked = λ k. k == 12 }

blocking-Unblockable : Unblockable blocking
blocking-Unblockable = ((λ k h. ground (arith, h)), refl)

sigreturn-prepare_example :
    Restored blocking (sigreturn ((prepare sigusr1 handled blocking).0) (fresh table no_stack))
sigreturn-prepare_example =
    sigreturn-prepare sigusr1 handled blocking (fresh table no_stack) blocking-Unblockable

handler_unblocks_example : ((prepare sigusr1 handled blocking).1).blocked 12 ≡ false
handler_unblocks_example =
    handler_unblocks sigusr1 handled blocking 12 (omega arith) (omega arith) refl refl

abbrev notified_thread : ThreadSignals
notified_thread = record (fresh table no_stack) {
  sig_q = record { pending_q = sigusr1 ∷ []; pending = λ k. k == 10 };
  notified = true;
  interrupted = true;
}

one_signal-IsValid : IsValid notified_thread.sig_q
unfolding IsValid
one_signal-IsValid k = ground arith

empty-IsValid : IsValid notified_thread.shared_q
unfolding IsValid
empty-IsValid k = (refl, λ h. omega arith)

abbrev not_waited : Waited
not_waited = record { later = notified_thread; timed_out = false }

rt_sigtimedwait-IsLost_example :
    IsLost 10 (rt_sigtimedwait (λ k. k == 12) none not_waited notified_thread)
rt_sigtimedwait-IsLost_example =
    rt_sigtimedwait-IsLost (λ k. k == 12) none not_waited notified_thread 10 one_signal-IsValid
      empty-IsValid refl refl (λ k h. refl) (λ j. refl) (λ j. ground arith) (omega arith)
      (omega arith) refl
