-- ===== src/Signals/Rule.antt =====
-- What every way through GetNextSignal keeps.
use junction.Prelude.{ℕ, zero, suc, ◌+◌, ◌≡◌, refl, true, false, Option, none, some}
use junction.SignalQueue.{SigInfo, size}
use junction.Signals.{
  KSigaction, ThreadSignals, DeliveredSignal, pop_sig_info, thread_get_action, prepare,
  next_signal_loop, get_next_signal,
}

-- Where a loop ends, its state satisfies a predicate.
abbrev pub Holds :
    (ThreadSignals → Type 0) → Option (Option DeliveredSignal × ThreadSignals) → Type 0
Holds P none = false ≡ false
Holds P (some r) = P (r.1)

module _ (P : ThreadSignals → Type 0)
    (popped : (t : ThreadSignals) → P t → P ((pop_sig_info t.blocked true t).1))
    (acted : (sig : ℕ) (t : ThreadSignals) → P t → P ((thread_get_action sig t).1))
    (prepared : (info : SigInfo) (act : KSigaction) (t : ThreadSignals)
      → P t
      → P ((prepare info act t).1)) where
  act_case :
      (a : Option KSigaction) (info : SigInfo) (t : ThreadSignals)
      (rest : Option (Option DeliveredSignal × ThreadSignals))
      → P t
      → Holds P rest
      → Holds P (elim a [
        | none ↦ rest
        | some act ↦ let (d, after) = prepare info act t in some (some d, after)
      ])
  act_case none info t rest p q = q
  act_case (some act) info t rest p q = prepared info act t p

  info_case :
      (tmp : Option SigInfo) (t : ThreadSignals)
      (rest : SigInfo → Option (Option DeliveredSignal × ThreadSignals))
      → P t
      → ((info : SigInfo) → Holds P (rest info))
      → Holds P (elim tmp [ none ↦ some (none, t) | some info ↦ rest info ])
  info_case none t rest p q = p
  info_case (some info) t rest p q = q info

  loop_rule : (fuel : ℕ) (t : ThreadSignals) → P t → Holds P (next_signal_loop fuel t)
  unfolding next_signal_loop
  loop_rule zero t p = refl
  loop_rule (suc fuel) t p =
      let r = pop_sig_info t.blocked true t in
      info_case (r.0) (r.1)
        (λ info.
          let s = thread_get_action info.si_signo (r.1) in
          elim (s.0) [
            | none ↦ next_signal_loop fuel (s.1)
            | some act ↦ let (d, after) = prepare info act (s.1) in some (some d, after)
          ])
        (popped t p)
        (λ info.
          let s = thread_get_action info.si_signo (r.1) in
          let q = acted info.si_signo (r.1) (popped t p) in
          act_case (s.0) info (s.1) (next_signal_loop fuel (s.1)) q (loop_rule fuel (s.1) q))

  pub get_next_signal_rule : (t : ThreadSignals) → P t → Holds P (get_next_signal t)
  unfolding get_next_signal
  get_next_signal_rule t p =
      loop_rule (suc (size t.sig_q.pending_q + size t.shared_q.pending_q)) t p
