-- ===== src/Signals.antt =====
-- kernel/signal.h and signal.cc: the actions of a process (SignalTable), and ThreadSignalHandler with its
-- masks, its notification and the choice of the next signal. Each operation runs under the lock of the
-- thread's queue. A mask has the bits 1 to 64; flags are functions on bit numbers.
pub mod Calls
pub mod Rule
pub mod Steps
pub mod Masks
pub mod Open
pub mod Notify
pub mod Deliver
pub mod Wakes
pub mod Lost
mod Tests
use junction.Prelude.{
  ℕ, zero, suc, ◌+◌, ◌-◌, ◌*◌, Bool, true, false, ◌&&◌, ◌||◌, not, ◌==◌, if◌then◌else◌, ltb, leb,
  List, [], ◌∷◌, Option, none, some, Status, ok, err, einval,
}
use junction.SignalQueue.{SigInfo, SigSet, SignalQueue, num_signals, enqueue, pop, on_exec, size}

-- A handler is SIG_DFL, SIG_IGN, the function of the library that ends the process, or one of the program.
pub data Handler : Type 0 where
  default_handler ignore_handler sig_kill_handler : Handler
  user_handler : ℕ → Handler

abbrev pub Flags : Type 0
Flags = ℕ → Bool

pub record KSigaction : Type 0 where
  pub handler : Handler
  pub sa_flags : Flags
  pub restorer : ℕ
  pub sa_mask : SigSet

-- The bits of SA_ONSTACK, SA_RESTART, SA_NODEFER and SA_RESETHAND.
abbrev pub onstack_bit : ℕ
onstack_bit = 27

abbrev pub restart_bit : ℕ
restart_bit = 28

abbrev pub nodefer_bit : ℕ
nodefer_bit = 30

abbrev pub resethand_bit : ℕ
resethand_bit = 31

abbrev pub sigkill : ℕ
sigkill = 9

abbrev pub sigstop : ℕ
sigstop = 19

abbrev pub kernel_only : SigSet
kernel_only k = k == sigkill || k == sigstop

abbrev pub stop_mask : SigSet
stop_mask k = k == 19 || k == 20 || k == 21 || k == 22

abbrev pub coredump_mask : SigSet
coredump_mask k =
    k == 3
    || k == 4
    || k == 5
    || k == 6
    || k == 8
    || k == 11
    || k == 7
    || k == 31
    || k == 24
    || k == 25

abbrev pub ignore_mask : SigSet
ignore_mask k = k == 18 || k == 17 || k == 28 || k == 23

unfoldable pub any_set : ℕ → SigSet → Bool
any_set zero m = false
any_set (suc n) m = m (suc n) || any_set n m

-- m != 0 and a == b
unfoldable pub nonzero : SigSet → Bool
nonzero m = any_set num_signals m

unfoldable pub same_mask : SigSet → SigSet → Bool
same_mask a b = not (any_set num_signals (λ k. if a k then not (b k) else b k))

pub data SignalAction : Type 0 where
  k_stop k_coredump k_terminate k_ignore k_normal : SignalAction

unfoldable pub default_action : ℕ → SignalAction
default_action sig =
    if stop_mask sig
    then k_stop
    else if coredump_mask sig
    then k_coredump
    else if ignore_mask sig
    then k_ignore
    else k_terminate

unfoldable pub parse_action : KSigaction → ℕ → SignalAction
unfolding default_action
parse_action act sig = elim act.handler [
  | ignore_handler ↦ k_ignore
  | sig_kill_handler ↦ k_normal
  | user_handler h ↦ k_normal
  | default_handler ↦ default_action sig
]

abbrev pub SignalTable : Type 0
SignalTable = ℕ → KSigaction

abbrev pub reset_action : KSigaction → KSigaction
reset_action act = record act { handler = default_handler; sa_flags = λ b. false }

-- The first argument is the table, of which a signal's action is reset when it is for one use.
unfoldable pub get_action : SignalTable → ℕ → Bool → KSigaction × SignalTable
get_action table sig reset =
    let sa = table sig in
    (
      sa,
      if reset && sa.sa_flags resethand_bit
          then (λ k. if k == sig then reset_action sa else table k)
          else table,
    )

unfoldable pub exchange_action : SignalTable → ℕ → KSigaction → KSigaction × SignalTable
exchange_action table sig sa = (table sig, λ k. if k == sig then sa else table k)

pub record Stack : Type 0 where
  pub ss_sp : ℕ
  pub ss_disable : Bool
  pub ss_autodisarm : Bool
  pub ss_size : ℕ

-- The state of one thread and what it shares with its process: the shared queue, the table and whether the
-- process is stopped. `interrupted` is the state that the scheduler looks at.
pub record ThreadSignals : Type 0 where
  pub sig_q : SignalQueue
  pub shared_q : SignalQueue
  pub blocked : SigSet
  pub saved_blocked : Option SigSet
  pub sigaltstack : Stack
  pub notified : Bool
  pub interrupted : Bool
  pub table : SignalTable
  pub stopped : Bool

abbrev pub any_pending : ThreadSignals → SigSet
any_pending t k = t.sig_q.pending k || t.shared_q.pending k

unfoldable pub any_sig_ready : ThreadSignals → Bool
unfolding nonzero
any_sig_ready t = nonzero (λ k. any_pending t k && not (t.blocked k))

unfoldable pub set_interrupt_flag_if_needed : ThreadSignals → ThreadSignals
unfolding any_sig_ready
set_interrupt_flag_if_needed t =
    if not (any_sig_ready t) then t else record t { notified = true; interrupted = true }

unfoldable pub replace_mask : SigSet → ThreadSignals → ThreadSignals
unfolding same_mask set_interrupt_flag_if_needed
replace_mask mask t =
    let new_mask : SigSet = λ k. mask k && not (kernel_only k) in
    if same_mask new_mask t.blocked
    then t
    else set_interrupt_flag_if_needed (record t { blocked = new_mask })

unfoldable pub replace_and_save_blocked : SigSet → ThreadSignals → ThreadSignals
unfolding same_mask replace_mask
replace_and_save_blocked mask t =
    if same_mask t.blocked mask
    then t
    else replace_mask mask (record t { saved_blocked = some t.blocked })

unfoldable pub restore_to : SigSet → ThreadSignals → ThreadSignals
unfolding same_mask set_interrupt_flag_if_needed
restore_to saved t =
    if t.interrupted
    then t
    else if not (same_mask saved t.blocked)
    then record (set_interrupt_flag_if_needed (record t { blocked = saved })) {
      saved_blocked = none;
    }
    else record t { saved_blocked = none }

-- The code asserts that there is a saved mask.
unfoldable pub restore_blocked : ThreadSignals → ThreadSignals
unfolding restore_to
restore_blocked t = elim t.saved_blocked [ none ↦ t | some saved ↦ restore_to saved t ]

unfoldable pub restore_blocked_locked : ThreadSignals → ThreadSignals
unfolding set_interrupt_flag_if_needed
restore_blocked_locked t = elim t.saved_blocked [
  | none ↦ t
  | some saved ↦ set_interrupt_flag_if_needed (record t { blocked = saved; saved_blocked = none })
]

unfoldable pub test_and_set_notify : ThreadSignals → Bool × ThreadSignals
test_and_set_notify t = if t.notified then (false, t) else (true, record t { notified = true })

-- EnqueueSignal, with kMaxQueuedRT as its first argument.
unfoldable pub enqueue_signal : ℕ → SigInfo → ThreadSignals → Bool × ThreadSignals
unfolding test_and_set_notify
enqueue_signal max_queued_rt info t =
    let (accepted, q) = enqueue max_queued_rt info t.sig_q in
    let next = record t { sig_q = q } in
    if not accepted
    then (false, next)
    else if t.blocked info.si_signo
    then (false, next)
    else test_and_set_notify next

unfoldable pub shared_signal_notify_check : ℕ → ThreadSignals → Bool × ThreadSignals
unfolding test_and_set_notify
shared_signal_notify_check signo t = if t.blocked signo then (false, t) else test_and_set_notify t

abbrev pub reset_interrupt_state : ThreadSignals → ThreadSignals
reset_interrupt_state t = record t { notified = false; interrupted = false }

unfoldable pub no_signal : Bool → ThreadSignals → ThreadSignals
unfolding restore_blocked_locked
no_signal reset_flag t = if reset_flag then restore_blocked_locked (reset_interrupt_state t) else t

unfoldable pub from_shared : Bool → Option SigInfo → ThreadSignals → Option SigInfo × ThreadSignals
unfolding no_signal
from_shared reset_flag none t = (none, no_signal reset_flag t)
from_shared reset_flag (some info) t = (some info, t)

unfoldable pub pop_shared : SigSet → Bool → ThreadSignals → Option SigInfo × ThreadSignals
unfolding from_shared
pop_shared blocked reset_flag t =
    let (tmp, q) = pop blocked true t.shared_q in
    if t.stopped then (none, t) else from_shared reset_flag tmp (record t { shared_q = q })

unfoldable pub from_thread :
    SigSet → Bool → Option SigInfo → ThreadSignals → Option SigInfo × ThreadSignals
unfolding pop_shared
from_thread blocked reset_flag none t = pop_shared blocked reset_flag t
from_thread blocked reset_flag (some info) t = (some info, t)

unfoldable pub pop_sig_info : SigSet → Bool → ThreadSignals → Option SigInfo × ThreadSignals
unfolding from_thread
pop_sig_info blocked reset_flag t =
    let (tmp, q) = pop blocked true t.sig_q in
    from_thread blocked reset_flag tmp (record t { sig_q = q })

abbrev pub sig_kill_action : KSigaction
sig_kill_action = record {
  handler = sig_kill_handler;
  sa_flags = λ b. b == onstack_bit || b == restart_bit || b == nodefer_bit;
  restorer = 0;
  sa_mask = λ k. true;
}

-- What becomes of a signal, by the way it is acted on; JobControlStop marks the process as stopped.
unfoldable pub act_on :
    SignalAction → KSigaction → ThreadSignals → Option KSigaction × ThreadSignals
act_on k_normal act t = (some act, t)
act_on k_ignore act t = (none, t)
act_on k_stop act t = (none, record t { stopped = true })
act_on k_terminate act t = (some sig_kill_action, t)
act_on k_coredump act t = (some sig_kill_action, t)

unfoldable pub thread_get_action : ℕ → ThreadSignals → Option KSigaction × ThreadSignals
unfolding act_on parse_action get_action
thread_get_action sig t =
    let (act, table) = get_action t.table sig true in
    act_on (parse_action act sig) act (record t { table = table })

pub record DeliveredSignal : Type 0 where
  pub act : KSigaction
  pub info : SigInfo
  pub ss : Stack
  pub prev_blocked : SigSet

-- GetSigframeRestoreMask: the mask, and the state without a saved one.
abbrev pub restore_mask : Option SigSet → SigSet → SigSet
restore_mask none blocked = blocked
restore_mask (some saved) blocked = saved

unfoldable pub sigframe_restore_mask : ThreadSignals → SigSet × ThreadSignals
sigframe_restore_mask t =
    (restore_mask t.saved_blocked t.blocked, record t { saved_blocked = none })

abbrev pub disable_altstack : ThreadSignals → ThreadSignals
disable_altstack t = record t {
  sigaltstack = record (t.sigaltstack) { ss_disable = true; ss_autodisarm = false };
}

abbrev pub to_block : KSigaction → ℕ → SigSet
to_block act signo k = act.sa_mask k || not (act.sa_flags nodefer_bit) && k == signo

-- GetNextSignal from the signal and its action on.
unfoldable pub prepare : SigInfo → KSigaction → ThreadSignals → DeliveredSignal × ThreadSignals
unfolding sigframe_restore_mask replace_mask
prepare info act t =
    let ss = t.sigaltstack in
    let disarmed = if ss.ss_autodisarm then disable_altstack t else t in
    let (prev, kept) = sigframe_restore_mask disarmed in
    (
      record { act = act; info = info; ss = ss; prev_blocked = prev },
      replace_mask (to_block act info.si_signo) kept,
    )

-- The loop of GetNextSignal; none where the fuel does not last.
unfoldable pub next_signal_loop :
    ℕ → ThreadSignals → Option (Option DeliveredSignal × ThreadSignals)
unfolding pop_sig_info thread_get_action prepare
next_signal_loop zero t = none
next_signal_loop (suc fuel) t =
    let (tmp, popped) = pop_sig_info t.blocked true t in
    elim tmp [
      | none ↦ some (none, popped)
      | some info ↦
          let (action, next) = thread_get_action info.si_signo popped in
          elim action [
            | none ↦ next_signal_loop fuel next
            | some act ↦ let (d, after) = prepare info act next in some (some d, after)
          ]
    ]

-- A round takes an entry from one of the queues.
unfoldable pub get_next_signal : ThreadSignals → Option (Option DeliveredSignal × ThreadSignals)
unfolding next_signal_loop
get_next_signal t = next_signal_loop (suc (size t.sig_q.pending_q + size t.shared_q.pending_q)) t
