-- ===== src/Signals/Wakes.antt =====
-- No signal waits unnoticed, except after an rt_sigtimedwait that returns without a signal.
use junction.Prelude.{
  ℕ, ◌≡◌, refl, sym, subst, Bool, true, false, ◌&&◌, ◌||◌, not, ◌==◌, if◌then◌else◌, Option, none,
  some, arith, Bool-cases, inl, inr,
}
use junction.SignalQueue.{SigInfo, SigSet, SignalQueue, enqueue, pop}
use junction.SignalQueue.Pending.{
  IsValid, IsPopped, pop_lem, Fewer, pop-Fewer, enqueue-IsValid, pending-enqueue, on_exec-IsValid,
  on_exec_pending,
}
use junction.Signals.{
  KSigaction, SignalTable, Stack, ThreadSignals, kernel_only, same_mask, replace_mask,
  replace_and_save_blocked, restore_blocked, test_and_set_notify, enqueue_signal,
  shared_signal_notify_check, from_shared, pop_shared, from_thread, pop_sig_info,
}
use junction.Signals.Calls.{
  How, new_mask, sig_result, sig_proc_mask, sig_alt_stack, thread_on_exec, sigreturn, rt_sigaction,
  timed_result, timedwait_pop,
}
use junction.Signals.Rule.{Holds, get_next_signal_rule}
use junction.Signals.Masks.{if_rule}
use junction.Signals.Notify.{
  Heard, replace_mask-Heard, restore_case, pop_sig_info-Heard, thread_get_action-Heard,
  prepare-Heard,
}
use junction.Signals.Steps.{
  Step, sends, shares, checks, masks, saves, restores, acts, stacks, interrupts, stops, delivers,
  returns, waits_for, takes, execs, Reach, begin, after,
}

mask_case :
    (m : Option SigSet) (old : SigSet) (t : ThreadSignals)
    → Heard t
    → Heard ((sig_result m old t).1)
mask_case none old t v = v
mask_case (some mask) old t v = replace_mask-Heard mask t v

sig_proc_mask-Heard :
    (how : How) (nset : Option SigSet) (t : ThreadSignals)
    → Heard t
    → Heard ((sig_proc_mask how nset t).1)
unfolding sig_proc_mask
sig_proc_mask-Heard how none t v = v
sig_proc_mask-Heard how (some nset) t v = mask_case (new_mask how t.blocked nset) t.blocked t v

save-Heard : (mask : SigSet) (t : ThreadSignals) → Heard t → Heard (replace_and_save_blocked mask t)
unfolding replace_and_save_blocked
save-Heard mask t v =
    let saved = record t { saved_blocked = some t.blocked } in
    if_rule Heard (same_mask t.blocked mask) t (replace_mask mask saved) v
      (replace_mask-Heard mask saved v)

abbrev HeardAfter : Bool × ThreadSignals → Type 0
HeardAfter r = Heard (r.1)

notify_case :
    (b : Bool) (t : ThreadSignals)
    → t.notified ≡ b
    → IsValid t.sig_q
    → HeardAfter (if b then (false, t) else (true, record t { notified = true }))
notify_case true t e v = (v, λ k l u h. e)
notify_case false t e v = (v, λ k l u h. refl)

notify-Heard : (t : ThreadSignals) → IsValid t.sig_q → Heard ((test_and_set_notify t).1)
unfolding test_and_set_notify
notify-Heard t v = notify_case t.notified t refl v

check-Heard :
    (signo : ℕ) (t : ThreadSignals) → Heard t → Heard ((shared_signal_notify_check signo t).1)
unfolding shared_signal_notify_check
check-Heard signo t v =
    if_rule (λ (x : Bool × ThreadSignals). Heard (x.1)) (t.blocked signo) (false, t)
      (test_and_set_notify t) v (notify-Heard t (v.0))

sent_case :
    (accepted masked : Bool) (signo : ℕ) (q : SignalQueue) (t : ThreadSignals)
    → IsValid q
    → ((k : ℕ) → q.pending k ≡ (t.sig_q.pending k || accepted && k == signo))
    → t.blocked signo ≡ masked
    → Heard t
    → Heard
        (if not accepted
          then (false, record t { sig_q = q })
          else if masked
          then (false, record t { sig_q = q })
          else test_and_set_notify (record t { sig_q = q })).1
sent_case false masked signo q t w p b v = (w, λ k l u h. v.1 k l u (ground (arith, p k, h)))
sent_case true true signo q t w p b v = (w, λ k l u h. v.1 k l u (ground (arith, p k, h, b)))
sent_case true false signo q t w p b v = notify-Heard (record t { sig_q = q }) w

enqueue_signal-Heard :
    (n : ℕ) (info : SigInfo) (t : ThreadSignals) → Heard t → Heard ((enqueue_signal n info t).1)
unfolding enqueue_signal
enqueue_signal-Heard n info t v =
    let r = enqueue n info t.sig_q in
    sent_case (r.0) (t.blocked info.si_signo) info.si_signo (r.1) t
      (enqueue-IsValid n info t.sig_q (v.0)) (pending-enqueue n info t.sig_q) refl v

stack-Heard : (ss : Option Stack) (t : ThreadSignals) → Heard t → Heard ((sig_alt_stack ss t).1)
unfolding sig_alt_stack
stack-Heard none t v = v
stack-Heard (some ss) t v = v

action-Heard :
    (sig : ℕ) (iact : Option KSigaction) (t : ThreadSignals)
    → Heard t
    → Heard ((rt_sigaction sig iact t).1)
unfolding rt_sigaction
action-Heard sig none t v = elim (Bool-cases (kernel_only sig)) [ inl e ↦ rw e v | inr e ↦ rw e v ]
action-Heard sig (some act) t v = elim (Bool-cases (kernel_only sig)) [
  | inl e ↦ rw e v
  | inr e ↦ rw e v
]

exec-Heard : (t : ThreadSignals) → Heard (thread_on_exec t)
unfolding thread_on_exec
exec-Heard t = (on_exec-IsValid t.sig_q, λ k l u h. ground (arith, on_exec_pending t.sig_q k, h))

abbrev pub is_found : Option SigInfo × ThreadSignals → Bool
is_found (none, t) = false
is_found (some info, t) = true

abbrev HeardFound : Option SigInfo × ThreadSignals → Type 0
HeardFound r = is_found r ≡ true → Heard (r.1)

shared_found :
    (tmp : Option SigInfo) (t : ThreadSignals) → Heard t → HeardFound (from_shared true tmp t)
unfolding from_shared
shared_found none t v h = absurd (cc h)
shared_found (some info) t v h = v

pop_shared_found :
    (mask : SigSet) (t : ThreadSignals) → Heard t → HeardFound (pop_shared mask true t)
unfolding pop_shared
pop_shared_found mask t v =
    let r = pop mask true t.shared_q in
    if_rule HeardFound t.stopped (none, t) (from_shared true (r.0) (record t { shared_q = r.1 }))
      (λ h. v) (shared_found (r.0) (record t { shared_q = r.1 }) v)

thread_found :
    (mask : SigSet) (tmp : Option SigInfo) (q : SignalQueue) (t : ThreadSignals)
    → IsPopped mask true t.sig_q (tmp, q)
    → Fewer t.sig_q (tmp, q)
    → Heard t
    → HeardFound (from_thread mask true tmp (record t { sig_q = q }))
unfolding from_thread IsPopped
thread_found mask none q t (same, empty) f v h =
    pop_shared_found mask (record t { sig_q = q })
      (subst IsValid (sym same) (v.0), λ k l u g. v.1 k l u (ground (arith, f k, g))) h
thread_found mask (some info) q t (a, b, c, d) f v h =
    (d, λ k l u g. v.1 k l u (ground (arith, f k, g)))

pop_found-Heard :
    (mask : SigSet) (t : ThreadSignals) → Heard t → HeardFound (pop_sig_info mask true t)
unfolding pop_sig_info
pop_found-Heard mask t v =
    let r = pop mask true t.sig_q in
    thread_found mask (r.0) (r.1) t (pop_lem mask true t.sig_q (v.0)) (pop-Fewer mask true t.sig_q)
      v

timed_result-Heard :
    (oset : SigSet) (again : Bool) (tmp : Option SigInfo) (t : ThreadSignals)
    → Heard t
    → Heard ((timed_result oset again (tmp, t)).1)
unfolding timed_result
timed_result-Heard oset again none t v = replace_mask-Heard oset t v
timed_result-Heard oset again (some info) t v = replace_mask-Heard oset t v

timedwait_pop-Heard :
    (mask oset : SigSet) (again : Bool) (t : ThreadSignals)
    → is_found (pop_sig_info (λ k. not (mask k)) true t) ≡ true
    → Heard t
    → Heard ((timedwait_pop mask oset again t).1)
unfolding timedwait_pop
timedwait_pop-Heard mask oset again t found v =
    let r = pop_sig_info (λ k. not (mask k)) true t in
    timed_result-Heard oset again (r.0) (r.1) (pop_found-Heard (λ k. not (mask k)) t v found)

-- A step that is not an rt_sigtimedwait which returns without a signal.
abbrev pub IsSuccess : {n : ℕ} {t u : ThreadSignals} → Step n t u → Type 0
IsSuccess {t = t} (takes mask oset again e) =
    is_found (pop_sig_info (λ k. not (mask k)) true t) ≡ true
IsSuccess (sends info e) = Unit
IsSuccess (shares q e) = Unit
IsSuccess (checks signo e) = Unit
IsSuccess (masks how nset e) = Unit
IsSuccess (saves mask e) = Unit
IsSuccess (restores e) = Unit
IsSuccess (acts sig iact e) = Unit
IsSuccess (stacks ss e) = Unit
IsSuccess (interrupts e) = Unit
IsSuccess (stops stopped e) = Unit
IsSuccess (delivers d e) = Unit
IsSuccess (returns d e) = Unit
IsSuccess (waits_for mask e) = Unit
IsSuccess (execs e) = Unit

-- A history in which each rt_sigtimedwait that returns has a signal.
abbrev pub AreSuccesses :
    {n : ℕ} {table : SignalTable} {ss : Stack} {t : ThreadSignals} → Reach n table ss t → Type 0
AreSuccesses begin = Unit
AreSuccesses (after r step) = AreSuccesses r × IsSuccess step

Step-Heard : (n : ℕ) (t u : ThreadSignals) (step : Step n t u) → IsSuccess step → Heard t → Heard u
unfolding restore_blocked sigreturn
Step-Heard n t u (sends info e) w v = rw e (enqueue_signal-Heard n info t v)
Step-Heard n t u (shares q e) w v = rw e v
Step-Heard n t u (checks signo e) w v = rw e (check-Heard signo t v)
Step-Heard n t u (masks how nset e) w v = rw e (sig_proc_mask-Heard how nset t v)
Step-Heard n t u (saves mask e) w v = rw e (save-Heard mask t v)
Step-Heard n t u (restores e) w v = rw e (restore_case t.saved_blocked t v)
Step-Heard n t u (acts sig iact e) w v = rw e (action-Heard sig iact t v)
Step-Heard n t u (stacks ss e) w v = rw e (stack-Heard ss t v)
Step-Heard n t u (interrupts e) w v = rw e v
Step-Heard n t u (stops stopped e) w v = rw e v
Step-Heard n t u (delivers d e) w v =
    subst (Holds Heard) e
      (get_next_signal_rule Heard pop_sig_info-Heard thread_get_action-Heard prepare-Heard t v)
Step-Heard n t u (returns d e) w v = rw e (
    stack-Heard (some d.ss) (replace_mask d.prev_blocked t) (replace_mask-Heard d.prev_blocked t v))
Step-Heard n t u (waits_for mask e) w v =
    rw e (replace_mask-Heard (λ k. t.blocked k && not (mask k)) t v)
Step-Heard n t u (takes mask oset again e) w v = rw e (timedwait_pop-Heard mask oset again t w v)
Step-Heard n t u (execs e) w v = rw e (exec-Heard t)

-- In every history of a thread in which no rt_sigtimedwait returns without a signal, while a signal of its
-- own queue is not blocked the thread is marked as notified, and its queue's mask of pending signals agrees
-- with the entries.
pub Reach-Heard :
    (n : ℕ) (table : SignalTable) (ss : Stack) (t : ThreadSignals) (r : Reach n table ss t)
    → AreSuccesses r
    → Heard t
unfolding IsValid
Reach-Heard n table ss t begin c = ((λ k. (refl, λ l. omega arith)), λ k l u h. cc h)
Reach-Heard n table ss t (after {t = s} r step) (c, d) =
    Step-Heard n s t step d (Reach-Heard n table ss s r c)
