-- ===== src/Signals/Steps.antt =====
-- Histories of the signals of a thread.
use junction.Prelude.{ℕ, ◌≡◌, Bool, true, false, ◌&&◌, not, Option, none, some, []}
use junction.SignalQueue.{SigInfo, SigSet, SignalQueue}
use junction.Signals.{
  KSigaction, SignalTable, Stack, ThreadSignals, DeliveredSignal, replace_and_save_blocked,
  replace_mask, restore_blocked, enqueue_signal, shared_signal_notify_check, get_next_signal,
}
use junction.Signals.Calls.{
  How, sig_proc_mask, sig_alt_stack, thread_on_exec, sigreturn, rt_sigaction, timedwait_pop,
}

-- A thread of a new process.
abbrev pub fresh : SignalTable → Stack → ThreadSignals
fresh table ss = record {
  sig_q = record { pending_q = []; pending = λ k. false };
  shared_q = record { pending_q = []; pending = λ k. false };
  blocked = λ k. false;
  saved_blocked = none;
  sigaltstack = ss;
  notified = false;
  interrupted = false;
  table = table;
  stopped = false;
}

-- A signal is sent to the thread, the shared queue changes, a call changes the masks, the stack or an
-- action, the thread is interrupted or stopped and continued, and the next signal is chosen, whose handler
-- returns with any frame. rt_sigtimedwait is two steps, `waits_for` before it may wait and `takes` after,
-- between which anything can happen.
pub data Step (max_queued_rt : ℕ) (t : ThreadSignals) : ThreadSignals → Type 0 where
  sends :
      {u : ThreadSignals} (info : SigInfo)
      → u ≡ (enqueue_signal max_queued_rt info t).1
      → Step max_queued_rt t u
  shares :
      {u : ThreadSignals} (q : SignalQueue) → u ≡ record t { shared_q = q } → Step max_queued_rt t u
  checks :
      {u : ThreadSignals} (signo : ℕ)
      → u ≡ (shared_signal_notify_check signo t).1
      → Step max_queued_rt t u
  masks :
      {u : ThreadSignals} (how : How) (nset : Option SigSet)
      → u ≡ (sig_proc_mask how nset t).1
      → Step max_queued_rt t u
  saves :
      {u : ThreadSignals} (mask : SigSet)
      → u ≡ replace_and_save_blocked mask t
      → Step max_queued_rt t u
  restores : {u : ThreadSignals} → u ≡ restore_blocked t → Step max_queued_rt t u
  acts :
      {u : ThreadSignals} (sig : ℕ) (iact : Option KSigaction)
      → u ≡ (rt_sigaction sig iact t).1
      → Step max_queued_rt t u
  stacks :
      {u : ThreadSignals} (ss : Option Stack) → u ≡ (sig_alt_stack ss t).1 → Step max_queued_rt t u
  interrupts : {u : ThreadSignals} → u ≡ record t { interrupted = true } → Step max_queued_rt t u
  stops :
      {u : ThreadSignals} (stopped : Bool)
      → u ≡ record t { stopped = stopped }
      → Step max_queued_rt t u
  delivers :
      {u : ThreadSignals} (d : Option DeliveredSignal)
      → get_next_signal t ≡ some (d, u)
      → Step max_queued_rt t u
  returns : {u : ThreadSignals} (d : DeliveredSignal) → u ≡ sigreturn d t → Step max_queued_rt t u
  waits_for :
      {u : ThreadSignals} (mask : SigSet)
      → u ≡ replace_mask (λ k. t.blocked k && not (mask k)) t
      → Step max_queued_rt t u
  takes :
      {u : ThreadSignals} (mask oset : SigSet) (again : Bool)
      → u ≡ (timedwait_pop mask oset again t).1
      → Step max_queued_rt t u
  execs : {u : ThreadSignals} → u ≡ thread_on_exec t → Step max_queued_rt t u

pub data Reach (max_queued_rt : ℕ) (table : SignalTable) (ss : Stack) : ThreadSignals → Type 0 where
  begin : Reach max_queued_rt table ss (fresh table ss)
  after :
      {t u : ThreadSignals}
      → Reach max_queued_rt table ss t
      → Step max_queued_rt t u
      → Reach max_queued_rt table ss u
