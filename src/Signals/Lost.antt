-- ===== src/Signals/Lost.antt =====
-- rt_sigtimedwait takes back a notification that is not about the signals it waits for.
use junction.Prelude.{
  ℕ, zero, suc, ◌≡◌, ◌≤◌, refl, ap, sym, subst, ◌∙◌, Bool, true, false, ◌&&◌, not, ◌==◌,
  if◌then◌else◌, Option, none, some, arith, Bool-cases, inl, inr, Status, err, eagain,
}
use junction.SignalQueue.{SigInfo, SigSet, SignalQueue, num_signals, pop}
use junction.SignalQueue.Pending.{IsValid, IsPopped, pop_lem}
use junction.Signals.{
  ThreadSignals, kernel_only, any_set, nonzero, same_mask, any_pending, any_sig_ready,
  set_interrupt_flag_if_needed, replace_mask, restore_blocked_locked, reset_interrupt_state,
  no_signal, from_shared, pop_shared, from_thread, pop_sig_info,
}
use junction.Signals.Calls.{Waited, timed_result, timedwait_pop, rt_sigtimedwait}
use junction.Signals.Masks.{IsOpen}
use junction.Signals.Notify.{own_ready}

any_set_none : (n : ℕ) (m : SigSet) → ((k : ℕ) → m k ≡ false) → any_set n m ≡ false
unfolding any_set
any_set_none zero m h = refl
any_set_none (suc n) m h = ground (arith, h (suc n), any_set_none n m h)

any_set_one : (n : ℕ) (m : SigSet) (k : ℕ) → m k ≡ true → 1 ≤ k → k ≤ n → any_set n m ≡ true
unfolding any_set
any_set_one zero m k h l u = absurd (omega arith)
any_set_one (suc n) m k h l u = elim (Bool-cases (k == suc n)) [
  | inl e ↦ ground (arith, e, h)
  | inr e ↦ ground (arith, any_set_one n m k h l (ground (arith, e, u)))
]

differ : (x y : Bool) → x ≡ y → (if x then not y else y) ≡ false
differ true true e = refl
differ false false e = refl
differ true false e = cc e
differ false true e = cc e

-- ReplaceMask with a mask that is there already does nothing.
replace_mask_same :
    (mask : SigSet) (t : ThreadSignals)
    → ((k : ℕ) → (mask k && not (kernel_only k)) ≡ t.blocked k)
    → replace_mask mask t ≡ t
unfolding replace_mask same_mask
replace_mask_same mask t h =
    let new : SigSet = λ k. mask k && not (kernel_only k) in
    let none_set =
      any_set_none num_signals (λ k. if new k then not (t.blocked k) else t.blocked k)
        (λ k. differ (new k) (t.blocked k) (h k)) in
    ap
      (λ (b : Bool). if not b then t else set_interrupt_flag_if_needed (record t { blocked = new }))
      none_set

popped_none :
    (mask : SigSet) (s : SignalQueue) (r : Option SigInfo × SignalQueue)
    → IsPopped mask true s r
    → ((k : ℕ) → (s.pending k && not (mask k)) ≡ false)
    → Path (Option SigInfo × SignalQueue) r (none, s)
unfolding IsPopped
popped_none mask s (none, q) (e, f) h = λ i. (none, e i)
popped_none mask s (some si, q) (a, b, c, d) h = absurd (cc (a, h si.si_signo))

locked_none :
    (s : Option SigSet) (t : ThreadSignals)
    → s ≡ none
    → Path ThreadSignals
        (elim s [
          | none ↦ t
          | some saved ↦
              set_interrupt_flag_if_needed (record t { blocked = saved; saved_blocked = none })
        ])
        t
locked_none none t e = refl
locked_none (some saved) t e = absurd (cc e)

shared_none :
    (mask : SigSet) (t : ThreadSignals)
    → IsValid t.shared_q
    → t.saved_blocked ≡ none
    → t.stopped ≡ false
    → ((k : ℕ) → (t.shared_q.pending k && not (mask k)) ≡ false)
    → Path (Option SigInfo × ThreadSignals) (pop_shared mask true t) (none, reset_interrupt_state t)
unfolding pop_shared from_shared no_signal restore_blocked_locked
shared_none mask t v saved running h =
    let found =
      popped_none mask t.shared_q (pop mask true t.shared_q) (pop_lem mask true t.shared_q v) h in
    let to_shared =
      λ (r : Option SigInfo × SignalQueue). from_shared true (r.0) (record t { shared_q = r.1 }) in
    let chosen : Path (Option SigInfo × ThreadSignals) (pop_shared mask true t)
        (to_shared (pop mask true t.shared_q)) =
      λ i. if running i then (none, t) else to_shared (pop mask true t.shared_q) in
    let reset : Path ThreadSignals (restore_blocked_locked (reset_interrupt_state t))
        (reset_interrupt_state t) =
      locked_none t.saved_blocked (reset_interrupt_state t) saved in
    chosen ∙ ap to_shared found ∙ (λ i. (none, reset i))

popped_reset :
    (mask : SigSet) (t : ThreadSignals)
    → IsValid t.sig_q
    → IsValid t.shared_q
    → t.saved_blocked ≡ none
    → t.stopped ≡ false
    → ((k : ℕ) → (any_pending t k && not (mask k)) ≡ false)
    → Path
        (Option SigInfo × ThreadSignals)
        (pop_sig_info mask true t)
        (none, reset_interrupt_state t)
unfolding pop_sig_info from_thread
popped_reset mask t v w saved running h =
    let found =
      popped_none mask t.sig_q (pop mask true t.sig_q) (pop_lem mask true t.sig_q v)
        (λ k. ground (arith, h k)) in
    ap
      (λ (r : Option SigInfo × SignalQueue). from_thread mask true (r.0) (record t { sig_q = r.1 }))
      found
    ∙ shared_none mask t w saved running (λ k. ground (arith, h k))

-- The call fails and the signal k can still be delivered, but the thread is not notified any more.
abbrev pub IsLost : ℕ → Status SigInfo × ThreadSignals → Type 0
IsLost k r = (r.0 ≡ err eagain) × (r.1.notified ≡ false) × (own_ready (r.1) k ≡ true)

timedwait_pop-IsLost :
    (mask : SigSet) (t : ThreadSignals) (k : ℕ)
    → IsValid t.sig_q
    → IsValid t.shared_q
    → t.saved_blocked ≡ none
    → t.stopped ≡ false
    → IsOpen t.blocked
    → ((j : ℕ) → (any_pending t j && mask j) ≡ false)
    → own_ready t k ≡ true
    → IsLost k (timedwait_pop mask t.blocked true t)
unfolding timedwait_pop timed_result
timedwait_pop-IsLost mask t k v w saved running unblockable absent ready =
    let others : SigSet = λ j. not (mask j) in
    let popped = popped_reset others t v w saved running (λ j. ground (arith, absent j)) in
    let same = replace_mask_same t.blocked (reset_interrupt_state t) (λ j.
      elim (Bool-cases (kernel_only j)) [
        | inl e ↦ ground (arith, e, unblockable j e)
        | inr e ↦ ground (arith, e)
      ]) in
    subst (λ r. IsLost k (timed_result t.blocked true r)) (sym popped)
      (subst (λ u. IsLost k (err eagain, u)) (sym same) (refl, refl, ready))

-- A thread that waits with rt_sigtimedwait for signals that it does not block and that are not pending,
-- while the signal k is pending in its queue and not blocked, gets EAGAIN at once; k is still pending and
-- not blocked, but the thread is no longer marked as notified.
pub rt_sigtimedwait-IsLost :
    (mask : SigSet) (timeout : Option ℕ) (wait : Waited) (t : ThreadSignals) (k : ℕ)
    → IsValid t.sig_q
    → IsValid t.shared_q
    → t.saved_blocked ≡ none
    → t.stopped ≡ false
    → IsOpen t.blocked
    → ((j : ℕ) → (t.blocked j && mask j) ≡ false)
    → ((j : ℕ) → (any_pending t j && mask j) ≡ false)
    → 1 ≤ k
    → k ≤ num_signals
    → own_ready t k ≡ true
    → IsLost k (rt_sigtimedwait mask timeout wait t)
unfolding rt_sigtimedwait any_sig_ready nonzero
rt_sigtimedwait-IsLost mask timeout wait t k v w saved running unblockable unmasked absent l u
      ready =
    let same =
      replace_mask_same (λ j. t.blocked j && not (mask j)) t
        (λ j. elim (Bool-cases (kernel_only j)) [
          | inl e ↦ ground (arith, e, unblockable j e)
          | inr e ↦ ground (arith, e, unmasked j)
        ]) in
    let any =
      any_set_one num_signals (λ j. any_pending t j && not (t.blocked j)) k (ground (arith, ready))
        l u in
    rw (same, any) (timedwait_pop-IsLost mask t k v w saved running unblockable absent ready)
