-- ===== src/Signals/Open.antt =====
-- SIGKILL and SIGSTOP in every history, and the mask that a handler gives back.
use junction.Prelude.{
  ℕ, ◌≡◌, ◌≤◌, refl, subst, ◌∙◌, Bool, true, false, ◌&&◌, not, ◌==◌, if◌then◌else◌, Option, none,
  some, arith, Bool-cases, inl, inr,
}
use junction.SignalQueue.{SigInfo, SigSet, num_signals, enqueue}
use junction.Signals.{
  KSigaction, SignalTable, Stack, ThreadSignals, DeliveredSignal, kernel_only, same_mask,
  replace_mask, replace_and_save_blocked, restore_blocked, test_and_set_notify, enqueue_signal,
  shared_signal_notify_check, prepare, sigframe_restore_mask, restore_mask, disable_altstack,
  to_block, pop_sig_info,
}
use junction.Signals.Calls.{
  How, new_mask, sig_result, sig_proc_mask, sig_alt_stack, thread_on_exec, sigreturn, rt_sigaction,
  timed_result, timedwait_pop,
}
use junction.Signals.Rule.{Holds}
use junction.Signals.Masks.{
  IsOpen, IsOpenOr, Unblockable, replace_mask_blocked, replace_mask-Unblockable, restore_case,
  get_next_signal-Unblockable, pop_any-Unblockable, if_rule,
}
use junction.Signals.Steps.{
  Step, sends, shares, checks, masks, saves, restores, acts, stacks, interrupts, stops, delivers,
  returns, waits_for, takes, execs, Reach, begin, after,
}

mask_case :
    (m : Option SigSet) (old : SigSet) (t : ThreadSignals)
    → Unblockable t
    → Unblockable ((sig_result m old t).1)
mask_case none old t v = v
mask_case (some mask) old t (b, o) = replace_mask-Unblockable mask t o

sig_proc_mask-Unblockable :
    (how : How) (nset : Option SigSet) (t : ThreadSignals)
    → Unblockable t
    → Unblockable ((sig_proc_mask how nset t).1)
unfolding sig_proc_mask
sig_proc_mask-Unblockable how none t v = v
sig_proc_mask-Unblockable how (some nset) t v =
    mask_case (new_mask how t.blocked nset) t.blocked t v

save-Unblockable :
    (mask : SigSet) (t : ThreadSignals)
    → Unblockable t
    → Unblockable (replace_and_save_blocked mask t)
unfolding replace_and_save_blocked
save-Unblockable mask t v =
    let saved = record t { saved_blocked = some t.blocked } in
    if_rule Unblockable (same_mask t.blocked mask) t (replace_mask mask saved) v
      (replace_mask-Unblockable mask saved (v.0))

notify-Unblockable : (t : ThreadSignals) → Unblockable t → Unblockable ((test_and_set_notify t).1)
unfolding test_and_set_notify
notify-Unblockable t v =
    if_rule (λ (x : Bool × ThreadSignals). Unblockable (x.1)) t.notified (false, t)
      (true, record t { notified = true }) v v

check-Unblockable :
    (signo : ℕ) (t : ThreadSignals)
    → Unblockable t
    → Unblockable ((shared_signal_notify_check signo t).1)
unfolding shared_signal_notify_check
check-Unblockable signo t v =
    if_rule (λ (x : Bool × ThreadSignals). Unblockable (x.1)) (t.blocked signo) (false, t)
      (test_and_set_notify t) v (notify-Unblockable t v)

enqueue_signal-Unblockable :
    (n : ℕ) (info : SigInfo) (t : ThreadSignals)
    → Unblockable t
    → Unblockable ((enqueue_signal n info t).1)
unfolding enqueue_signal
enqueue_signal-Unblockable n info t v =
    let r = enqueue n info t.sig_q in
    let next = record t { sig_q = r.1 } in
    let P = λ (x : Bool × ThreadSignals). Unblockable (x.1) in
    if_rule P (not (r.0)) (false, next)
      (if t.blocked info.si_signo then (false, next) else test_and_set_notify next) v
      (if_rule P (t.blocked info.si_signo) (false, next) (test_and_set_notify next) v
        (notify-Unblockable next v))

stack-Unblockable :
    (ss : Option Stack) (t : ThreadSignals) → Unblockable t → Unblockable ((sig_alt_stack ss t).1)
unfolding sig_alt_stack
stack-Unblockable none t v = v
stack-Unblockable (some ss) t v = v

sigreturn-Unblockable :
    (d : DeliveredSignal) (t : ThreadSignals) → Unblockable t → Unblockable (sigreturn d t)
unfolding sigreturn
sigreturn-Unblockable d t v =
    stack-Unblockable (some d.ss) (replace_mask d.prev_blocked t)
      (replace_mask-Unblockable d.prev_blocked t (v.1))

action-Unblockable :
    (sig : ℕ) (iact : Option KSigaction) (t : ThreadSignals)
    → Unblockable t
    → Unblockable ((rt_sigaction sig iact t).1)
unfolding rt_sigaction
action-Unblockable sig none t v = elim (Bool-cases (kernel_only sig)) [
  | inl e ↦ rw e v
  | inr e ↦ rw e v
]
action-Unblockable sig (some act) t v = elim (Bool-cases (kernel_only sig)) [
  | inl e ↦ rw e v
  | inr e ↦ rw e v
]

restore-Unblockable : (t : ThreadSignals) → Unblockable t → Unblockable (restore_blocked t)
unfolding restore_blocked
restore-Unblockable t v = restore_case t.saved_blocked t (v.1) v

timed_result-Unblockable :
    (oset : SigSet) (again : Bool) (tmp : Option SigInfo) (t : ThreadSignals)
    → Unblockable t
    → Unblockable ((timed_result oset again (tmp, t)).1)
unfolding timed_result
timed_result-Unblockable oset again none t v = replace_mask-Unblockable oset t (v.1)
timed_result-Unblockable oset again (some info) t v = replace_mask-Unblockable oset t (v.1)

timedwait_pop-Unblockable :
    (mask oset : SigSet) (again : Bool) (t : ThreadSignals)
    → Unblockable t
    → Unblockable ((timedwait_pop mask oset again t).1)
unfolding timedwait_pop
timedwait_pop-Unblockable mask oset again t v =
    let r = pop_sig_info (λ k. not (mask k)) true t in
    timed_result-Unblockable oset again (r.0) (r.1) (pop_any-Unblockable (λ k. not (mask k)) t v)

Step-Unblockable : (n : ℕ) (t u : ThreadSignals) → Step n t u → Unblockable t → Unblockable u
unfolding thread_on_exec
Step-Unblockable n t u (sends info e) v = rw e (enqueue_signal-Unblockable n info t v)
Step-Unblockable n t u (shares q e) v = rw e v
Step-Unblockable n t u (checks signo e) v = rw e (check-Unblockable signo t v)
Step-Unblockable n t u (masks how nset e) v = rw e (sig_proc_mask-Unblockable how nset t v)
Step-Unblockable n t u (saves mask e) v = rw e (save-Unblockable mask t v)
Step-Unblockable n t u (restores e) v = rw e (restore-Unblockable t v)
Step-Unblockable n t u (acts sig iact e) v = rw e (action-Unblockable sig iact t v)
Step-Unblockable n t u (stacks ss e) v = rw e (stack-Unblockable ss t v)
Step-Unblockable n t u (interrupts e) v = rw e v
Step-Unblockable n t u (stops stopped e) v = rw e v
Step-Unblockable n t u (delivers d e) v =
    subst (Holds Unblockable) e (get_next_signal-Unblockable t v)
Step-Unblockable n t u (returns d e) v = rw e (sigreturn-Unblockable d t v)
Step-Unblockable n t u (waits_for mask e) v =
    rw e (replace_mask-Unblockable (λ k. t.blocked k && not (mask k)) t (v.1))
Step-Unblockable n t u (takes mask oset again e) v =
    rw e (timedwait_pop-Unblockable mask oset again t v)
Step-Unblockable n t u (execs e) v = rw e v

-- In every history of a thread, handlers that return with any frame and rt_sigtimedwait included, SIGKILL and SIGSTOP are not
-- in its mask of blocked signals, nor in the mask that is to be restored.
pub Reach-Unblockable :
    (n : ℕ) (table : SignalTable) (ss : Stack) (t : ThreadSignals)
    → Reach n table ss t
    → Unblockable t
Reach-Unblockable n table ss t begin = ((λ k h. refl), refl)
Reach-Unblockable n table ss t (after {t = s} r step) =
    Step-Unblockable n s t step (Reach-Unblockable n table ss s r)

-- A handler that returns from the frame it was given restores the alternate stack and, on the numbers of
-- signals, the mask from before it, or the one that a call had saved.
abbrev pub Restored : ThreadSignals → ThreadSignals → Type 0
Restored t u =
    (u.sigaltstack ≡ t.sigaltstack)
    × ((k : ℕ) → 1 ≤ k → k ≤ num_signals → u.blocked k ≡ (restore_mask t.saved_blocked t.blocked) k)

prev-IsOpen :
    (s : Option SigSet) (blocked : SigSet)
    → IsOpenOr s
    → IsOpen blocked
    → IsOpen (restore_mask s blocked)
prev-IsOpen none blocked o b = b
prev-IsOpen (some saved) blocked o b = o

open_kept : (mask : SigSet) (k : ℕ) → IsOpen mask → (mask k && not (kernel_only k)) ≡ mask k
open_kept mask k h = elim (Bool-cases (kernel_only k)) [
  | inl e ↦ ground (arith, e, h k e)
  | inr e ↦ ground (arith, e)
]

prev_kept :
    (disarm : Bool) (k : ℕ) (t : ThreadSignals)
    → IsOpen t.blocked
    → IsOpenOr t.saved_blocked
    → (restore_mask
          (if disarm then disable_altstack t else t).saved_blocked
          (if disarm then disable_altstack t else t).blocked
          k
        && not (kernel_only k))
      ≡ restore_mask t.saved_blocked t.blocked k
prev_kept true k t b o =
    open_kept (restore_mask t.saved_blocked t.blocked) k (prev-IsOpen t.saved_blocked t.blocked o b)
prev_kept false k t b o =
    open_kept (restore_mask t.saved_blocked t.blocked) k (prev-IsOpen t.saved_blocked t.blocked o b)

-- A handler that returns with the frame that it was given gives back, in whatever state it returns, the
-- alternate stack, and on the numbers of signals the mask that was blocked or, after a call that had
-- replaced it, the mask that this call had saved.
pub sigreturn-prepare :
    (info : SigInfo) (act : KSigaction) (t u : ThreadSignals)
    → Unblockable t
    → Restored t (sigreturn ((prepare info act t).0) u)
unfolding sigreturn prepare sigframe_restore_mask sig_alt_stack
sigreturn-prepare info act t u (b, o) =
    let disarmed = if t.sigaltstack.ss_autodisarm then disable_altstack t else t in
    let prev = restore_mask disarmed.saved_blocked disarmed.blocked in
    (
      refl,
      λ k l h. replace_mask_blocked prev u k l h ∙ prev_kept t.sigaltstack.ss_autodisarm k t b o,
    )

-- While a handler runs, a signal that is neither in the mask of its action nor the one it handles is not
-- blocked, also where the thread had blocked it.
pub handler_unblocks :
    (info : SigInfo) (act : KSigaction) (t : ThreadSignals) (k : ℕ)
    → 1 ≤ k
    → k ≤ num_signals
    → act.sa_mask k ≡ false
    → (k == info.si_signo) ≡ false
    → ((prepare info act t).1).blocked k ≡ false
unfolding prepare
handler_unblocks info act t k l u m n =
    let disarmed = if t.sigaltstack.ss_autodisarm then disable_altstack t else t in
    replace_mask_blocked (to_block act info.si_signo) ((sigframe_restore_mask disarmed).1) k l u
    ∙ ground (arith, m, n)
