-- ===== src/Signals/Calls.antt =====
-- kernel/signal.h and signal.cc: the system calls on masks, actions and stacks of signals, called with the
-- right size of a mask.
use junction.Prelude.{
  ℕ, Bool, true, false, ◌&&◌, ◌||◌, not, ◌==◌, if◌then◌else◌, Option, none, some, Status, ok, err,
  eagain, eintr, einval, ◌+◌,
}
use junction.SignalQueue.{SigInfo, SigSet}
use junction.Signals.{
  KSigaction, Stack, ThreadSignals, DeliveredSignal, onstack_bit, kernel_only, any_pending,
  any_sig_ready, get_action, exchange_action, replace_mask, pop_sig_info,
}
use junction.SignalQueue

pub data How : Type 0 where
  sig_block sig_unblock sig_setmask how_unknown : How

-- SIG_BLOCK, SIG_UNBLOCK and SIG_SETMASK; none for another value.
unfoldable pub new_mask : How → SigSet → SigSet → Option SigSet
new_mask sig_block blocked nset = some (λ k. blocked k || nset k)
new_mask sig_unblock blocked nset = some (λ k. blocked k && not (nset k))
new_mask sig_setmask blocked nset = some nset
new_mask how_unknown blocked nset = none

abbrev pub sig_result : Option SigSet → SigSet → ThreadSignals → Status SigSet × ThreadSignals
sig_result none old t = (err einval, t)
sig_result (some mask) old t = (ok old, replace_mask mask t)

-- SigProcMask gives back the old mask.
unfoldable pub sig_proc_mask : How → Option SigSet → ThreadSignals → Status SigSet × ThreadSignals
unfolding new_mask replace_mask
sig_proc_mask how none t = (ok t.blocked, t)
sig_proc_mask how (some nset) t = sig_result (new_mask how t.blocked nset) t.blocked t

unfoldable pub sig_alt_stack : Option Stack → ThreadSignals → Stack × ThreadSignals
sig_alt_stack none t = (t.sigaltstack, t)
sig_alt_stack (some ss) t = (t.sigaltstack, record t { sigaltstack = ss })

unfoldable pub thread_on_exec : ThreadSignals → ThreadSignals
thread_on_exec t = record t {
  sig_q = SignalQueue.on_exec t.sig_q;
  shared_q = SignalQueue.on_exec t.shared_q;
  sigaltstack = record { ss_sp = 0; ss_disable = true; ss_autodisarm = false; ss_size = 0 };
}

-- rt_sigreturn: the mask and the stack of the frame.
unfoldable pub sigreturn : DeliveredSignal → ThreadSignals → ThreadSignals
unfolding replace_mask sig_alt_stack
sigreturn d t = (sig_alt_stack (some d.ss) (replace_mask d.prev_blocked t)).1

-- The code does not check that the number is one of a signal.
unfoldable pub rt_sigaction :
    ℕ → Option KSigaction → ThreadSignals → Status KSigaction × ThreadSignals
unfolding get_action exchange_action
rt_sigaction sig iact t = if kernel_only sig then (err einval, t) else elim iact [
  | none ↦ (ok (get_action t.table sig false).0, t)
  | some act ↦
      let (old, table) = exchange_action t.table sig act in (ok old, record t { table = table })
]

abbrev pub rt_sigpending : ThreadSignals → SigSet
rt_sigpending t k = any_pending t k && t.blocked k

-- What comes of the wait of rt_sigtimedwait: the state when the thread runs again, and whether the time is
-- over.
pub record Waited : Type 0 where
  pub later : ThreadSignals
  pub timed_out : Bool

abbrev pub is_zero : Option ℕ → Bool
is_zero none = false
is_zero (some d) = d == 0

-- rt_sigtimedwait from the pop on; the Boolean is `again`.
unfoldable pub timed_result :
    SigSet → Bool → Option SigInfo × ThreadSignals → Status SigInfo × ThreadSignals
unfolding replace_mask
timed_result oset again (none, t) = (err (if again then eagain else eintr), replace_mask oset t)
timed_result oset again (some info, t) = (ok info, replace_mask oset t)

unfoldable pub timedwait_pop :
    SigSet → SigSet → Bool → ThreadSignals → Status SigInfo × ThreadSignals
unfolding pop_sig_info timed_result
timedwait_pop mask oset again t = timed_result oset again (pop_sig_info (λ k. not (mask k)) true t)

unfoldable pub rt_sigtimedwait :
    SigSet → Option ℕ → Waited → ThreadSignals → Status SigInfo × ThreadSignals
unfolding replace_mask any_sig_ready timedwait_pop
rt_sigtimedwait mask timeout wait t =
    let unblocked = replace_mask (λ k. t.blocked k && not (mask k)) t in
    if any_sig_ready unblocked || is_zero timeout
    then timedwait_pop mask t.blocked true unblocked
    else timedwait_pop mask t.blocked wait.timed_out wait.later

-- DeliveredSignal::FixRspAltstack, with IsOnStack as its first argument.
unfoldable pub fix_rsp_altstack : (ℕ → Stack → Bool) → DeliveredSignal → ℕ → ℕ
fix_rsp_altstack is_on_stack d rsp =
    if not (d.act.sa_flags onstack_bit) || d.ss.ss_disable || is_on_stack rsp d.ss
    then rsp
    else d.ss.ss_sp + d.ss.ss_size

-- What is done about an interrupted call once a handler has been chosen.
pub data Rax : Type 0 where
  erestartnohand erestartsys other_rax : Rax

pub data Restart : Type 0 where
  restarts returns_eintr unchanged : Restart

unfoldable pub check_restart_post_handler : Rax → Bool → Restart
check_restart_post_handler erestartnohand is_restartsys = returns_eintr
check_restart_post_handler erestartsys is_restartsys =
    if is_restartsys then restarts else returns_eintr
check_restart_post_handler other_rax is_restartsys = unchanged
