-- ===== src/Signals/Notify.antt =====
-- A thread is notified while a signal of its own queue can be delivered.
use junction.Prelude.{
  ℕ, ◌≡◌, ◌≤◌, refl, sym, subst, Bool, true, false, ◌&&◌, not, if◌then◌else◌, Option, none, some,
  arith,
}
use junction.SignalQueue.{SigInfo, SigSet, SignalQueue, num_signals, pop}
use junction.SignalQueue.Pending.{IsValid, IsPopped, pop_lem, Fewer, pop-Fewer}
use junction.Signals.{
  KSigaction, SignalAction, k_stop, k_coredump, k_terminate, k_ignore, k_normal, ThreadSignals,
  kernel_only, nonzero, same_mask, any_pending, any_sig_ready, set_interrupt_flag_if_needed,
  replace_mask, restore_to, restore_blocked_locked, no_signal, from_shared, pop_shared, from_thread,
  pop_sig_info, act_on, get_action, parse_action, thread_get_action, sigframe_restore_mask,
  disable_altstack, to_block, prepare,
}
use junction.Signals.Masks.{any_set-false, if_rule}

-- A signal of the thread's own queue that is not blocked.
abbrev pub own_ready : ThreadSignals → ℕ → Bool
own_ready t k = t.sig_q.pending k && not (t.blocked k)

abbrev pub Heard : ThreadSignals → Type 0
Heard t =
    IsValid t.sig_q × ((k : ℕ) → 1 ≤ k → k ≤ num_signals → own_ready t k ≡ true → t.notified ≡ true)

abbrev pub Quiet : ThreadSignals → Type 0
Quiet t = (k : ℕ) → 1 ≤ k → k ≤ num_signals → own_ready t k ≡ false

pub Quiet-Heard : (t : ThreadSignals) → IsValid t.sig_q → Quiet t → Heard t
Quiet-Heard t v q = (v, λ k l u h. cc (q k l u, h))

interrupt_case :
    (ready : Bool) (t : ThreadSignals)
    → IsValid t.sig_q
    → (ready ≡ false → Quiet t)
    → Heard (if not ready then t else record t { notified = true; interrupted = true })
interrupt_case true t v q = (v, λ k l u h. refl)
interrupt_case false t v q = Quiet-Heard t v (q refl)

set_interrupt-Heard : (t : ThreadSignals) → IsValid t.sig_q → Heard (set_interrupt_flag_if_needed t)
unfolding set_interrupt_flag_if_needed any_sig_ready nonzero
set_interrupt-Heard t v = interrupt_case (any_sig_ready t) t v (λ e k l u.
    let none_ready =
      any_set-false num_signals (λ j. any_pending t j && not (t.blocked j)) k e l u in
    ground (arith, none_ready))

pub replace_mask-Heard : (mask : SigSet) (t : ThreadSignals) → Heard t → Heard (replace_mask mask t)
unfolding replace_mask
replace_mask-Heard mask t v =
    let new : SigSet = λ k. mask k && not (kernel_only k) in
    if_rule Heard (same_mask new t.blocked) t
      (set_interrupt_flag_if_needed (record t { blocked = new })) v
      (set_interrupt-Heard (record t { blocked = new }) (v.0))

restore_to-Heard : (saved : SigSet) (t : ThreadSignals) → Heard t → Heard (restore_to saved t)
unfolding restore_to
restore_to-Heard saved t v =
    let u = set_interrupt_flag_if_needed (record t { blocked = saved }) in
    let changed = record u { saved_blocked = none } in
    let kept = record t { saved_blocked = none } in
    if_rule Heard t.interrupted t (if not (same_mask saved t.blocked) then changed else kept) v (
      if_rule Heard (not (same_mask saved t.blocked)) changed kept
        (set_interrupt-Heard (record t { blocked = saved }) (v.0)) v)

pub restore_case :
    (s : Option SigSet) (t : ThreadSignals)
    → Heard t
    → Heard (elim s [ none ↦ t | some saved ↦ restore_to saved t ])
restore_case none t v = v
restore_case (some saved) t v = restore_to-Heard saved t v

locked_case :
    (s : Option SigSet) (t : ThreadSignals)
    → Heard t
    → Heard (elim s [
      | none ↦ t
      | some saved ↦
          set_interrupt_flag_if_needed (record t { blocked = saved; saved_blocked = none })
    ])
locked_case none t v = v
locked_case (some saved) t v =
    set_interrupt-Heard (record t { blocked = saved; saved_blocked = none }) (v.0)

from_shared-Heard :
    (tmp : Option SigInfo) (t : ThreadSignals)
    → IsValid t.sig_q
    → Quiet t
    → Heard ((from_shared true tmp t).1)
unfolding from_shared no_signal restore_blocked_locked
from_shared-Heard none t v q =
    let reset = record t { notified = false; interrupted = false } in
    locked_case t.saved_blocked reset (Quiet-Heard reset v q)
from_shared-Heard (some info) t v q = Quiet-Heard t v q

pop_shared-Heard :
    (mask : SigSet) (t : ThreadSignals)
    → IsValid t.sig_q
    → Quiet t
    → Heard ((pop_shared mask true t).1)
unfolding pop_shared
pop_shared-Heard mask t v q =
    let r = pop mask true t.shared_q in
    if_rule (λ (x : Option SigInfo × ThreadSignals). Heard (x.1)) t.stopped (none, t)
      (from_shared true (r.0) (record t { shared_q = r.1 })) (Quiet-Heard t v q)
      (from_shared-Heard (r.0) (record t { shared_q = r.1 }) v q)

from_thread-Heard :
    (tmp : Option SigInfo) (q : SignalQueue) (t : ThreadSignals)
    → IsPopped t.blocked true t.sig_q (tmp, q)
    → Fewer t.sig_q (tmp, q)
    → Heard t
    → Heard ((from_thread t.blocked true tmp (record t { sig_q = q })).1)
unfolding from_thread IsPopped
from_thread-Heard none q t (same, empty) f v =
    pop_shared-Heard t.blocked (record t { sig_q = q }) (subst IsValid (sym same) (v.0))
      (λ k l u. ground (arith, empty k l u, f k))
from_thread-Heard (some info) q t (a, b, c, d) f v =
    (d, λ k l u h. v.1 k l u (ground (arith, f k, h)))

pub pop_sig_info-Heard : (t : ThreadSignals) → Heard t → Heard ((pop_sig_info t.blocked true t).1)
unfolding pop_sig_info
pop_sig_info-Heard t v =
    let r = pop t.blocked true t.sig_q in
    from_thread-Heard (r.0) (r.1) t (pop_lem t.blocked true t.sig_q (v.0))
      (pop-Fewer t.blocked true t.sig_q) v

act_on-Heard :
    (a : SignalAction) (act : KSigaction) (t : ThreadSignals) → Heard t → Heard ((act_on a act t).1)
unfolding act_on
act_on-Heard k_stop act t v = v
act_on-Heard k_coredump act t v = v
act_on-Heard k_terminate act t v = v
act_on-Heard k_ignore act t v = v
act_on-Heard k_normal act t v = v

pub thread_get_action-Heard :
    (sig : ℕ) (t : ThreadSignals) → Heard t → Heard ((thread_get_action sig t).1)
unfolding thread_get_action
thread_get_action-Heard sig t v =
    let r = get_action t.table sig true in
    act_on-Heard (parse_action (r.0) sig) (r.0) (record t { table = r.1 }) v

prepare_kept :
    (disarm : Bool) (t : ThreadSignals)
    → Heard t
    → Heard (record (if disarm then disable_altstack t else t) { saved_blocked = none })
prepare_kept true t v = v
prepare_kept false t v = v

pub prepare-Heard :
    (info : SigInfo) (act : KSigaction) (t : ThreadSignals)
    → Heard t
    → Heard ((prepare info act t).1)
unfolding prepare sigframe_restore_mask
prepare-Heard info act t v =
    let disarmed = if t.sigaltstack.ss_autodisarm then disable_altstack t else t in
    replace_mask-Heard (to_block act info.si_signo) (record disarmed { saved_blocked = none })
      (prepare_kept t.sigaltstack.ss_autodisarm t v)
