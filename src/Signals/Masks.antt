-- ===== src/Signals/Masks.antt =====
-- SIGKILL and SIGSTOP are never blocked, and a handler gives the mask back.
use junction.Prelude.{
  ℕ, zero, suc, ◌≡◌, ◌≤◌, refl, sym, Bool, true, false, ◌&&◌, not, if◌then◌else◌, Option, none,
  some, arith, Bool-cases, inl, inr,
}
use junction.SignalQueue.{SigInfo, SigSet, num_signals, pop}
use junction.Signals.{
  KSigaction, ThreadSignals, kernel_only, any_set, same_mask, set_interrupt_flag_if_needed,
  replace_mask, restore_to, restore_blocked_locked, no_signal, pop_shared, pop_sig_info, act_on,
  SignalAction, k_stop, k_coredump, k_terminate, k_ignore, k_normal, get_action, parse_action,
  from_shared, from_thread, thread_get_action, sigframe_restore_mask, disable_altstack, to_block,
  prepare, get_next_signal,
}
use junction.Signals.Rule.{Holds, get_next_signal_rule}

pub any_set-false : (n : ℕ) (m : SigSet) (k : ℕ) → any_set n m ≡ false → 1 ≤ k → k ≤ n → m k ≡ false
unfolding any_set
any_set-false zero m k h l u = absurd (omega arith)
any_set-false (suc n) m k h l u = ground (arith, h, any_set-false n m k (ground (arith, h)), l, u)

agree : (x y : Bool) → (if x then not y else y) ≡ false → x ≡ y
agree true true h = refl
agree true false h = cc h
agree false true h = cc h
agree false false h = refl

-- Two masks that the code finds equal agree on every signal.
pub same_mask_eq :
    (a b : SigSet) (k : ℕ) → same_mask a b ≡ true → 1 ≤ k → k ≤ num_signals → a k ≡ b k
unfolding same_mask
same_mask_eq a b k h l u =
    agree (a k) (b k)
      (any_set-false num_signals (λ j. if a j then not (b j) else b j) k (ground (arith, h)) l u)

-- A mask without SIGKILL and SIGSTOP.
abbrev pub IsOpen : SigSet → Type 0
IsOpen mask = (k : ℕ) → kernel_only k ≡ true → mask k ≡ false

abbrev pub IsOpenOr : Option SigSet → Type 0
IsOpenOr none = false ≡ false
IsOpenOr (some mask) = IsOpen mask

abbrev pub Unblockable : ThreadSignals → Type 0
Unblockable t = IsOpen t.blocked × IsOpenOr t.saved_blocked

set_interrupt_blocked : (t : ThreadSignals) → (set_interrupt_flag_if_needed t).blocked ≡ t.blocked
unfolding set_interrupt_flag_if_needed
set_interrupt_blocked t = ground arith

set_interrupt_saved :
    (t : ThreadSignals) → (set_interrupt_flag_if_needed t).saved_blocked ≡ t.saved_blocked
unfolding set_interrupt_flag_if_needed
set_interrupt_saved t = ground arith

-- The mask that ReplaceMask leaves.
pub replace_mask_blocked :
    (mask : SigSet) (t : ThreadSignals) (k : ℕ)
    → 1 ≤ k
    → k ≤ num_signals
    → (replace_mask mask t).blocked k ≡ (mask k && not (kernel_only k))
unfolding replace_mask
replace_mask_blocked mask t k l u =
    let new_mask : SigSet = λ j. mask j && not (kernel_only j) in
    elim (Bool-cases (same_mask new_mask t.blocked)) [
      | inl e ↦ rw e (sym (same_mask_eq new_mask t.blocked k e l u))
      | inr e ↦ rw (e, set_interrupt_blocked (record t { blocked = new_mask })) refl
    ]

replace_mask_saved :
    (mask : SigSet) (t : ThreadSignals) → (replace_mask mask t).saved_blocked ≡ t.saved_blocked
unfolding replace_mask
replace_mask_saved mask t =
    let new_mask : SigSet = λ j. mask j && not (kernel_only j) in
    elim (Bool-cases (same_mask new_mask t.blocked)) [
      | inl e ↦ rw e refl
      | inr e ↦ rw (e, set_interrupt_saved (record t { blocked = new_mask })) refl
    ]

-- A number of a signal that only the kernel handles is one of a signal.
kernel_only_range : (k : ℕ) → kernel_only k ≡ true → (1 ≤ k) × (k ≤ num_signals)
kernel_only_range k h = (ground (arith, h), ground (arith, h))

replace_mask-IsOpen : (mask : SigSet) (t : ThreadSignals) → IsOpen ((replace_mask mask t).blocked)
replace_mask-IsOpen mask t k h =
    let (l, u) = kernel_only_range k h in ground (arith, replace_mask_blocked mask t k l u, h)

pub replace_mask-Unblockable :
    (mask : SigSet) (t : ThreadSignals)
    → IsOpenOr t.saved_blocked
    → Unblockable (replace_mask mask t)
replace_mask-Unblockable mask t o = (replace_mask-IsOpen mask t, rw (replace_mask_saved mask t) o)

set_interrupt-Unblockable :
    (t : ThreadSignals) → Unblockable t → Unblockable (set_interrupt_flag_if_needed t)
set_interrupt-Unblockable t (b, o) = (rw (set_interrupt_blocked t) b, rw (set_interrupt_saved t) o)

restored_saved :
    (i e : Bool) (t u : ThreadSignals)
    → IsOpenOr t.saved_blocked
    → IsOpenOr
        (if i
          then t
          else if not e
          then record u { saved_blocked = none }
          else record t { saved_blocked = none }).saved_blocked
restored_saved true e t u o = o
restored_saved false true t u o = refl
restored_saved false false t u o = refl

restore_to-Unblockable :
    (saved : SigSet) (t : ThreadSignals)
    → IsOpen saved
    → Unblockable t
    → Unblockable (restore_to saved t)
unfolding restore_to
restore_to-Unblockable saved t h (b, o) =
    let u = record t { blocked = saved } in
    let v = set_interrupt_flag_if_needed u in
    (
      λ k q. ground (arith, b k q, h k q, set_interrupt_blocked u),
      restored_saved t.interrupted (same_mask saved t.blocked) t v o,
    )

pub restore_case :
    (s : Option SigSet) (t : ThreadSignals)
    → IsOpenOr s
    → Unblockable t
    → Unblockable (elim s [ none ↦ t | some saved ↦ restore_to saved t ])
restore_case none t h v = v
restore_case (some saved) t h v = restore_to-Unblockable saved t h v

locked_case :
    (s : Option SigSet) (t : ThreadSignals)
    → IsOpenOr s
    → Unblockable t
    → Unblockable (elim s [
      | none ↦ t
      | some saved ↦
          set_interrupt_flag_if_needed (record t { blocked = saved; saved_blocked = none })
    ])
locked_case none t h v = v
locked_case (some saved) t h v =
    set_interrupt-Unblockable (record t { blocked = saved; saved_blocked = none }) (h, refl)

no_signal-Unblockable :
    (flag : Bool) (t : ThreadSignals) → Unblockable t → Unblockable (no_signal flag t)
unfolding no_signal restore_blocked_locked
no_signal-Unblockable true t (b, o) =
    locked_case t.saved_blocked (record t { notified = false; interrupted = false }) o (b, o)
no_signal-Unblockable false t v = v

pub if_rule :
    {A : Type 0} (P : A → Type 0) (b : Bool) (x y : A) → P x → P y → P (if b then x else y)
if_rule P true x y p q = p
if_rule P false x y p q = q

from_shared-Unblockable :
    (tmp : Option SigInfo) (t : ThreadSignals)
    → Unblockable t
    → Unblockable ((from_shared true tmp t).1)
unfolding from_shared
from_shared-Unblockable none t v = no_signal-Unblockable true t v
from_shared-Unblockable (some info) t v = v

pop_shared-Unblockable :
    (mask : SigSet) (t : ThreadSignals) → Unblockable t → Unblockable ((pop_shared mask true t).1)
unfolding pop_shared
pop_shared-Unblockable mask t v =
    let r = pop mask true t.shared_q in
    if_rule (λ (x : Option SigInfo × ThreadSignals). Unblockable (x.1)) t.stopped (none, t)
      (from_shared true (r.0) (record t { shared_q = r.1 })) v
      (from_shared-Unblockable (r.0) (record t { shared_q = r.1 }) v)

from_thread-Unblockable :
    (mask : SigSet) (tmp : Option SigInfo) (t : ThreadSignals)
    → Unblockable t
    → Unblockable ((from_thread mask true tmp t).1)
unfolding from_thread
from_thread-Unblockable mask none t v = pop_shared-Unblockable mask t v
from_thread-Unblockable mask (some info) t v = v

pub pop_any-Unblockable :
    (mask : SigSet) (t : ThreadSignals) → Unblockable t → Unblockable ((pop_sig_info mask true t).1)
unfolding pop_sig_info
pop_any-Unblockable mask t v =
    let r = pop mask true t.sig_q in from_thread-Unblockable mask (r.0) (record t { sig_q = r.1 }) v

pop_sig_info-Unblockable :
    (t : ThreadSignals) → Unblockable t → Unblockable ((pop_sig_info t.blocked true t).1)
pop_sig_info-Unblockable t v = pop_any-Unblockable t.blocked t v

act_on-Unblockable :
    (a : SignalAction) (act : KSigaction) (t : ThreadSignals)
    → Unblockable t
    → Unblockable ((act_on a act t).1)
unfolding act_on
act_on-Unblockable k_stop act t v = v
act_on-Unblockable k_coredump act t v = v
act_on-Unblockable k_terminate act t v = v
act_on-Unblockable k_ignore act t v = v
act_on-Unblockable k_normal act t v = v

thread_get_action-Unblockable :
    (sig : ℕ) (t : ThreadSignals) → Unblockable t → Unblockable ((thread_get_action sig t).1)
unfolding thread_get_action
thread_get_action-Unblockable sig t v =
    let r = get_action t.table sig true in
    act_on-Unblockable (parse_action (r.0) sig) (r.0) (record t { table = r.1 }) v

prepare-Unblockable :
    (info : SigInfo) (act : KSigaction) (t : ThreadSignals)
    → Unblockable t
    → Unblockable ((prepare info act t).1)
unfolding prepare sigframe_restore_mask
prepare-Unblockable info act t v =
    let disarmed = if t.sigaltstack.ss_autodisarm then disable_altstack t else t in
    replace_mask-Unblockable (to_block act info.si_signo) (record disarmed { saved_blocked = none })
      refl

pub get_next_signal-Unblockable :
    (t : ThreadSignals) → Unblockable t → Holds Unblockable (get_next_signal t)
get_next_signal-Unblockable =
    get_next_signal_rule Unblockable pop_sig_info-Unblockable thread_get_action-Unblockable
      prepare-Unblockable
