-- ===== src/Signals/Deliver.antt =====
-- The choice of the next signal ends.
use junction.Prelude.{
  ℕ, zero, suc, ◌≡◌, ◌<◌, ◌+◌, refl, ◌∙◌, Bool, true, false, if◌then◌else◌, Option, none, some,
  arith,
}
use junction.SignalQueue.{SigInfo, SigSet, SignalQueue, pop, size}
use junction.SignalQueue.Pending.{Smaller, pop-Smaller}
use junction.Signals.{
  KSigaction, SignalAction, k_stop, k_coredump, k_terminate, k_ignore, k_normal, ThreadSignals,
  DeliveredSignal, from_shared, pop_shared, from_thread, pop_sig_info, get_action, parse_action,
  act_on, thread_get_action, prepare, next_signal_loop, get_next_signal,
}

-- The entries of both queues.
abbrev entries_left : ThreadSignals → ℕ
entries_left t = size t.sig_q.pending_q + size t.shared_q.pending_q

-- Where a signal is taken, an entry is.
abbrev Taken : ThreadSignals → Option SigInfo × ThreadSignals → Type 0
Taken t (none, u) = false ≡ false
Taken t (some info, u) = suc (entries_left u) ≡ entries_left t

shared-Taken :
    (tmp : Option SigInfo) (q : SignalQueue) (t : ThreadSignals)
    → Smaller t.shared_q (tmp, q)
    → Taken t (from_shared true tmp (record t { shared_q = q }))
unfolding from_shared
shared-Taken none q t s = refl
shared-Taken (some info) q t s = omega (arith, s)

stop_case :
    (b : Bool) (t : ThreadSignals) (r : Option SigInfo × ThreadSignals)
    → Taken t r
    → Taken t (if b then (none, t) else r)
stop_case true t r h = refl
stop_case false t r h = h

same_left :
    (r : Option SigInfo × ThreadSignals) (t u : ThreadSignals)
    → entries_left u ≡ entries_left t
    → Taken u r
    → Taken t r
same_left (none, w) t u e h = refl
same_left (some info, w) t u e h = h ∙ e

pop_shared-Taken : (mask : SigSet) (t : ThreadSignals) → Taken t (pop_shared mask true t)
unfolding pop_shared
pop_shared-Taken mask t =
    let r = pop mask true t.shared_q in
    stop_case t.stopped t (from_shared true (r.0) (record t { shared_q = r.1 }))
      (shared-Taken (r.0) (r.1) t (pop-Smaller mask t.shared_q))

thread-Taken :
    (mask : SigSet) (tmp : Option SigInfo) (q : SignalQueue) (t : ThreadSignals)
    → Smaller t.sig_q (tmp, q)
    → Taken t (from_thread mask true tmp (record t { sig_q = q }))
unfolding from_thread
thread-Taken mask none q t s =
    same_left (pop_shared mask true (record t { sig_q = q })) t (record t { sig_q = q })
      (omega (arith, s)) (pop_shared-Taken mask (record t { sig_q = q }))
thread-Taken mask (some info) q t s = omega (arith, s)

pop-Taken : (mask : SigSet) (t : ThreadSignals) → Taken t (pop_sig_info mask true t)
unfolding pop_sig_info
pop-Taken mask t =
    let r = pop mask true t.sig_q in thread-Taken mask (r.0) (r.1) t (pop-Smaller mask t.sig_q)

act_on_left :
    (a : SignalAction) (act : KSigaction) (t : ThreadSignals)
    → entries_left ((act_on a act t).1) ≡ entries_left t
unfolding act_on
act_on_left k_stop act t = refl
act_on_left k_coredump act t = refl
act_on_left k_terminate act t = refl
act_on_left k_ignore act t = refl
act_on_left k_normal act t = refl

thread_get_action_left :
    (sig : ℕ) (t : ThreadSignals) → entries_left ((thread_get_action sig t).1) ≡ entries_left t
unfolding thread_get_action
thread_get_action_left sig t =
    let r = get_action t.table sig true in
    act_on_left (parse_action (r.0) sig) (r.0) (record t { table = r.1 })

abbrev pub is_some {ℓ} : {A : Type ℓ} → Option A → Bool
is_some none = false
is_some (some a) = true

abbrev Ends : Option (Option DeliveredSignal × ThreadSignals) → Type 0
Ends r = is_some r ≡ true

act-Ends :
    (a : Option KSigaction) (info : SigInfo) (t : ThreadSignals)
    (rest : Option (Option DeliveredSignal × ThreadSignals))
    → is_some rest ≡ true
    → Ends (elim a [
      | none ↦ rest
      | some act ↦ let (d, after) = prepare info act t in some (some d, after)
    ])
act-Ends none info t rest h = h
act-Ends (some act) info t rest h = refl

info-Ends :
    (r : Option SigInfo × ThreadSignals) (t : ThreadSignals) (fuel : ℕ)
    (rest : SigInfo → Option (Option DeliveredSignal × ThreadSignals))
    → Taken t r
    → entries_left t < suc fuel
    → ((info : SigInfo) → entries_left (r.1) < fuel → Ends (rest info))
    → Ends (elim (r.0) [ none ↦ some (none, r.1) | some info ↦ rest info ])
info-Ends (none, u) t fuel rest s h k = refl
info-Ends (some info, u) t fuel rest s h k = k info (omega (arith, s, h))

loop-Ends : (fuel : ℕ) (t : ThreadSignals) → entries_left t < fuel → Ends (next_signal_loop fuel t)
unfolding next_signal_loop
loop-Ends zero t h = absurd (omega arith)
loop-Ends (suc fuel) t h =
    let r = pop_sig_info t.blocked true t in
    info-Ends r t fuel
      (λ info.
        let s = thread_get_action info.si_signo (r.1) in
        elim (s.0) [
          | none ↦ next_signal_loop fuel (s.1)
          | some act ↦ let (d, after) = prepare info act (s.1) in some (some d, after)
        ])
      (pop-Taken t.blocked t) h
      (λ info k.
        let s = thread_get_action info.si_signo (r.1) in
        act-Ends (s.0) info (s.1) (next_signal_loop fuel (s.1))
          (loop-Ends fuel (s.1) (omega (arith, k, thread_get_action_left info.si_signo (r.1)))))

-- GetNextSignal returns: each round takes an entry from one of the two queues, so its loop, which goes on
-- while signals are ignored or stop the process, ends within one round more than they have entries.
pub get_next_signal_returns : (t : ThreadSignals) → is_some (get_next_signal t) ≡ true
unfolding get_next_signal
get_next_signal_returns t = loop-Ends (suc (entries_left t)) t (omega arith)
