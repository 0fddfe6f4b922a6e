-- ===== src/SignalQueue.antt =====
-- kernel/signal.h and signal.cc: SignalQueue, the pending signals of a thread or a process. Each
-- operation runs under the queue's lock. A mask is a function on signal numbers; the mask of the code
-- has a bit for each of the numbers 1 to 64.
pub mod Pending
mod Tests
use junction.Prelude.{
  ℕ, zero, suc, ◌+◌, ◌-◌, Bool, true, false, ◌&&◌, ◌||◌, not, ◌==◌, if◌then◌else◌, ltb, leb, List,
  [], ◌∷◌, ◌++◌, Option, none, some,
}
use junction.Lowest.{lowest}

pub record SigInfo : Type 0 where
  pub si_signo : ℕ
  pub si_value : ℕ

abbrev pub SigSet : Type 0
SigSet = ℕ → Bool

pub record SignalQueue : Type 0 where
  pub pending_q : List SigInfo
  pub pending : SigSet

abbrev pub num_signals : ℕ
num_signals = 64

abbrev pub num_standard_signals : ℕ
num_standard_signals = 32

abbrev pub set_sig_pending : ℕ → SigSet → SigSet
set_sig_pending signo pending k = k == signo || pending k

abbrev pub clear_sig_pending : ℕ → SigSet → SigSet
clear_sig_pending signo pending k = not (k == signo) && pending k

pub size : List SigInfo → ℕ
size [] = 0
size (p ∷ q) = suc (size q)

-- Enqueue, with kMaxQueuedRT as its first argument.
pub enqueue : ℕ → SigInfo → SignalQueue → Bool × SignalQueue
enqueue max_queued_rt info s =
    let next : SignalQueue = record {
      pending_q = s.pending_q ++ info ∷ [];
      pending = set_sig_pending info.si_signo s.pending;
    } in
    if ltb info.si_signo num_standard_signals
    then if s.pending info.si_signo then (false, s) else (true, next)
    else if leb max_queued_rt (size s.pending_q)
    then (false, s)
    else (true, next)

pub occurs : ℕ → List SigInfo → Bool
occurs signo [] = false
occurs signo (p ∷ q) = p.si_signo == signo || occurs signo q

-- The loop of Pop: the first entry for the signal, the list without it, and whether another follows.
pub search : ℕ → List SigInfo → Option (SigInfo × List SigInfo × Bool)
search signo [] = none
search signo (p ∷ q) =
    let rest = search signo q in
    if not (p.si_signo == signo)
    then elim rest [ none ↦ none | some (si, left, again) ↦ some (si, p ∷ left, again) ]
    else some (p, q, occurs signo q)

pub erased : ℕ → List SigInfo → Bool → SignalQueue → SignalQueue
erased signo left again s = record {
  pending_q = left;
  pending =
      if ltb signo num_standard_signals || not again
      then clear_sig_pending signo s.pending
      else s.pending;
}

pub pop : SigSet → Bool → SignalQueue → Option SigInfo × SignalQueue
pop blocked remove s = elim (lowest num_signals 1 (λ k. s.pending k && not (blocked k))) [
  | none ↦ (none, s)
  | some signo ↦ elim (search signo s.pending_q) [
    | none ↦ (none, s)
    | some (si, left, again) ↦ (some si, if remove then erased signo left again s else s)
  ]
]

pub on_exec : SignalQueue → SignalQueue
on_exec s = record { pending_q = []; pending = λ k. false }
