-- ===== src/SignalQueue/Pending.antt =====
-- The mask of pending signals agrees with the queue, and Pop delivers the lowest signal in order.
use junction.Prelude.{
  ℕ, suc, ap, ◌≡◌, subst, sym, ◌+◌, ◌<◌, ◌≤◌, refl, Bool, true, false, ◌&&◌, ◌||◌, not, ◌==◌,
  if◌then◌else◌, List, [], ◌∷◌, ◌++◌, arith, Option, none, some, Bool-cases, inl, inr,
}
use junction.SignalQueue.{
  SigInfo, SigSet, SignalQueue, num_signals, num_standard_signals, enqueue, occurs, search, erased,
  pop, on_exec, size,
}
use junction.Lowest.{lowest, Lowest, lowest_lem}

-- How many entries a signal has.
abbrev pub count : ℕ → List SigInfo → ℕ
count signo [] = 0
count signo (p ∷ q) = (if p.si_signo == signo then 1 else 0) + count signo q

-- A signal's bit is set exactly when it has an entry, and a standard signal has at most one.
unfoldable pub IsValid : SignalQueue → Type 0
IsValid s =
    (k : ℕ)
    → (s.pending k ≡ not (count k s.pending_q == 0))
      × (k < num_standard_signals → count k s.pending_q ≤ 1)

count-append :
    (k : ℕ) (q : List SigInfo) (info : SigInfo)
    → count k (q ++ info ∷ []) ≡ count k q + (if info.si_signo == k then 1 else 0)
count-append k [] info = ground arith
count-append k (p ∷ q) info = ground (arith, count-append k q info)

occurs-count : (k : ℕ) (q : List SigInfo) → occurs k q ≡ not (count k q == 0)
unfolding occurs
occurs-count k [] = refl
occurs-count k (p ∷ q) = ground (arith, occurs-count k q)

-- Enqueue keeps the mask in agreement with the queue, whether it accepts the signal or drops it.
pub enqueue-IsValid :
    (max_queued_rt : ℕ) (info : SigInfo) (s : SignalQueue)
    → IsValid s
    → IsValid ((enqueue max_queued_rt info s).1)
unfolding IsValid enqueue
enqueue-IsValid max_queued_rt info s v k =
    ground (arith, v k, v info.si_signo, count-append k s.pending_q info)

-- The entries of a signal, the oldest first.
abbrev pub entries : ℕ → List SigInfo → List SigInfo
entries signo [] = []
entries signo (p ∷ q) = let rest = entries signo q in if p.si_signo == signo then p ∷ rest else rest

-- What the search finds: an entry of the signal, of which the others keep their number.
abbrev Found : ℕ → List SigInfo → Option (SigInfo × List SigInfo × Bool) → Type 0
Found signo q none = count signo q ≡ 0
Found signo q (some (si, left, again)) =
    (si.si_signo ≡ signo)
    × ((k : ℕ) → count k q ≡ count k left + (if k == signo then 1 else 0))
    × (again ≡ not (count signo left == 0))
    × ((k : ℕ) → entries k q ≡ (if k == signo then si ∷ entries k left else entries k left))

search_step :
    (signo : ℕ) (p : SigInfo) (q : List SigInfo) (r : Option (SigInfo × List SigInfo × Bool))
    → (p.si_signo == signo) ≡ false
    → Found signo q r
    → Found signo
        (p ∷ q)
        (elim r [ none ↦ none | some (si, left, again) ↦ some (si, p ∷ left, again) ])
search_step signo p q none miss f = ground (arith, f)
search_step signo p q (some (si, left, again)) miss (e, c, a, o) =
    (e, (λ k. ground (arith, c k)), ground (arith, a, miss), (λ k. ground (arith, o k, miss)))

search_lem : (signo : ℕ) (q : List SigInfo) → Found signo q (search signo q)
unfolding search
search_lem signo [] = refl
search_lem signo (p ∷ q) = elim (Bool-cases (p.si_signo == signo)) [
  | inl hit ↦
      rw hit
        (ground arith, (λ k. ground (arith, hit)), occurs-count signo q, (λ k. ground (arith, hit)))
  | inr miss ↦ rw miss (search_step signo p q (search signo q) miss (search_lem signo q))
]

erased-IsValid :
    (signo : ℕ) (left : List SigInfo) (again : Bool) (s : SignalQueue)
    → IsValid s
    → ((k : ℕ) → count k s.pending_q ≡ count k left + (if k == signo then 1 else 0))
    → again ≡ not (count signo left == 0)
    → IsValid (erased signo left again s)
unfolding IsValid erased
erased-IsValid signo left again s v c a k = ground (arith, v k, c k)

-- Which signals Pop may deliver.
abbrev pub deliverable : SigSet → SignalQueue → SigSet
deliverable blocked s k = s.pending k && not (blocked k)

-- What Pop promises: it gives the oldest entry of the lowest signal that is pending and not blocked, and
-- takes this entry alone from the queue, if it is to remove it; with nothing to give it changes nothing.
unfoldable pub IsPopped : SigSet → Bool → SignalQueue → Option SigInfo × SignalQueue → Type 0
IsPopped blocked remove s (none, t) =
    (t ≡ s) × ((k : ℕ) → 1 ≤ k → k ≤ num_signals → deliverable blocked s k ≡ false)
IsPopped blocked remove s (some si, t) =
    (deliverable blocked s si.si_signo ≡ true)
    × ((k : ℕ) → 1 ≤ k → k < si.si_signo → deliverable blocked s k ≡ false)
    × ((k : ℕ)
        → entries k s.pending_q ≡ (
            if remove && k == si.si_signo
            then si ∷ entries k t.pending_q
            else entries k t.pending_q))
    × IsValid t

delivers :
    (blocked : SigSet) (remove : Bool) (s : SignalQueue) (signo : ℕ)
    (r : Option (SigInfo × List SigInfo × Bool))
    → IsValid s
    → Lowest 1 65 (deliverable blocked s) (some signo)
    → Found signo s.pending_q r
    → IsPopped blocked remove s (elim r [
      | none ↦ (none, s)
      | some (si, left, again) ↦ (some si, if remove then erased signo left again s else s)
    ])
unfolding IsPopped IsValid erased
delivers blocked remove s signo none v (t, f, g, below) empty = ground (arith, v signo, t, empty)
delivers blocked remove s signo (some (si, left, again)) v (t, f, g, below) (e, c, a, o) =
    let there : deliverable blocked s si.si_signo ≡ true =
      subst (λ n. deliverable blocked s n ≡ true) (sym e) t in
    let first : (k : ℕ) → 1 ≤ k → k < si.si_signo → deliverable blocked s k ≡ false =
      λ k l u. below k l (omega (arith, e, u)) in
    let order : (k : ℕ)
        → entries k s.pending_q
          ≡ (if k == si.si_signo then si ∷ entries k left else entries k left) =
      subst
        (λ n.
          (k : ℕ)
          → entries k s.pending_q ≡ (if k == n then si ∷ entries k left else entries k left))
        (sym e) o in
    elim (Bool-cases remove) [
      | inl r ↦ rw r (there, first, order, erased-IsValid signo left again s v c a)
      | inr r ↦ rw r (there, first, (λ k. refl), v)
    ]

answers :
    (blocked : SigSet) (remove : Bool) (s : SignalQueue) (r : Option ℕ)
    → IsValid s
    → Lowest 1 65 (deliverable blocked s) r
    → IsPopped blocked remove s (elim r [
      | none ↦ (none, s)
      | some signo ↦ elim (search signo s.pending_q) [
        | none ↦ (none, s)
        | some (si, left, again) ↦ (some si, if remove then erased signo left again s else s)
      ]
    ])
unfolding IsPopped
answers blocked remove s none v f = (refl, (λ k l u. f k l (omega arith)))
answers blocked remove s (some signo) v f =
    delivers blocked remove s signo (search signo s.pending_q) v f (search_lem signo s.pending_q)

-- Pop, from a queue whose mask agrees with its entries, gives the oldest entry of the lowest signal
-- that is pending and not blocked, takes this entry alone if it is to remove it, and leaves the mask
-- in agreement; it gives nothing exactly when no such signal is pending.
pub pop_lem :
    (blocked : SigSet) (remove : Bool) (s : SignalQueue)
    → IsValid s
    → IsPopped blocked remove s (pop blocked remove s)
unfolding pop
pop_lem blocked remove s v =
    answers blocked remove s (lowest num_signals 1 (deliverable blocked s)) v
      (lowest_lem num_signals 1 (deliverable blocked s))

-- Enqueue adds the bit of the signal that it accepts, and changes no other.
pub pending-enqueue :
    (max_queued_rt : ℕ) (info : SigInfo) (s : SignalQueue) (k : ℕ)
    → (enqueue max_queued_rt info s).1.pending k
      ≡ (s.pending k || (enqueue max_queued_rt info s).0 && k == info.si_signo)
unfolding enqueue
pending-enqueue max_queued_rt info s k = ground arith

-- No bit is set that was not.
abbrev pub Fewer : SignalQueue → Option SigInfo × SignalQueue → Type 0
Fewer s r = (k : ℕ) → r.1.pending k ≡ true → s.pending k ≡ true

pop_found :
    (remove : Bool) (s : SignalQueue) (signo : ℕ) (r : Option (SigInfo × List SigInfo × Bool))
    → Fewer s (elim r [
      | none ↦ (none, s)
      | some (si, left, again) ↦ (some si, if remove then erased signo left again s else s)
    ])
unfolding erased
pop_found remove s signo none k h = h
pop_found remove s signo (some (si, left, again)) k h = ground (arith, h)

pop_lowest :
    (remove : Bool) (s : SignalQueue) (r : Option ℕ)
    → Fewer s (elim r [
      | none ↦ (none, s)
      | some signo ↦ elim (search signo s.pending_q) [
        | none ↦ (none, s)
        | some (si, left, again) ↦ (some si, if remove then erased signo left again s else s)
      ]
    ])
pop_lowest remove s none k h = h
pop_lowest remove s (some signo) k h = pop_found remove s signo (search signo s.pending_q) k h

pub pop-Fewer :
    (blocked : SigSet) (remove : Bool) (s : SignalQueue) → Fewer s (pop blocked remove s)
unfolding pop
pop-Fewer blocked remove s = pop_lowest remove s (lowest num_signals 1 (deliverable blocked s))

pub on_exec-IsValid : (s : SignalQueue) → IsValid (on_exec s)
unfolding IsValid on_exec
on_exec-IsValid s k = (refl, λ l. omega arith)

pub on_exec_pending : (s : SignalQueue) (k : ℕ) → (on_exec s).pending k ≡ false
unfolding on_exec
on_exec_pending s k = refl

abbrev Shorter : List SigInfo → Option (SigInfo × List SigInfo × Bool) → Type 0
Shorter q none = false ≡ false
Shorter q (some (si, left, again)) = size q ≡ suc (size left)

-- Pop takes one entry where it gives one, and otherwise none.
abbrev pub Smaller : SignalQueue → Option SigInfo × SignalQueue → Type 0
Smaller s (none, t) = size s.pending_q ≡ size t.pending_q
Smaller s (some si, t) = size s.pending_q ≡ suc (size t.pending_q)

-- The search takes one entry.
search_size_step :
    (p : SigInfo) (q : List SigInfo) (r : Option (SigInfo × List SigInfo × Bool))
    → Shorter q r
    → Shorter (p ∷ q) (elim r [ none ↦ none | some (si, left, again) ↦ some (si, p ∷ left, again) ])
unfolding size
search_size_step p q none h = h
search_size_step p q (some (si, left, again)) h = ap suc h

search_size : (signo : ℕ) (q : List SigInfo) → Shorter q (search signo q)
unfolding search size
search_size signo [] = refl
search_size signo (p ∷ q) = elim (Bool-cases (p.si_signo == signo)) [
  | inl hit ↦ rw hit refl
  | inr miss ↦ rw miss (search_size_step p q (search signo q) (search_size signo q))
]

popped_size :
    (s : SignalQueue) (signo : ℕ) (r : Option (SigInfo × List SigInfo × Bool))
    → Shorter s.pending_q r
    → Smaller s (elim r [
      | none ↦ (none, s)
      | some (si, left, again) ↦ (some si, erased signo left again s)
    ])
unfolding erased
popped_size s signo none h = refl
popped_size s signo (some (si, left, again)) h = h

lowest-Smaller :
    (s : SignalQueue) (r : Option ℕ)
    → Smaller s (elim r [
      | none ↦ (none, s)
      | some signo ↦ elim (search signo s.pending_q) [
        | none ↦ (none, s)
        | some (si, left, again) ↦ (some si, erased signo left again s)
      ]
    ])
lowest-Smaller s none = refl
lowest-Smaller s (some signo) =
    popped_size s signo (search signo s.pending_q) (search_size signo s.pending_q)

pub pop-Smaller : (blocked : SigSet) (s : SignalQueue) → Smaller s (pop blocked true s)
unfolding pop
pop-Smaller blocked s = lowest-Smaller s (lowest num_signals 1 (deliverable blocked s))
