-- ===== src/Futex/Wake.antt =====
-- Which waiters Wake takes from a bucket.
use junction.Prelude.{
  ℕ, zero, suc, ◌≡◌, ◌+◌, ◌-◌, ◌<◌, refl, ap, false, ◌==◌, if◌then◌else◌, leb, List, [], ◌∷◌, take,
  drop, arith, Bool-cases, inl, inr,
}
use junction.Futex.{FutexWaiter, matches, wake_loop, wake}

-- The waiters that a call is meant for, the longest waiting first, and the others.
abbrev pub matching : ℕ → ℕ → List FutexWaiter → List FutexWaiter
matching key bitset [] = []
matching key bitset (w ∷ ws) =
    let rest = matching key bitset ws in if matches key bitset w then w ∷ rest else rest

abbrev pub others : ℕ → ℕ → List FutexWaiter → List FutexWaiter
others key bitset [] = []
others key bitset (w ∷ ws) =
    let rest = others key bitset ws in if matches key bitset w then rest else w ∷ rest

wake_loop_lem :
    (key n bitset i : ℕ) (ws : List FutexWaiter)
    → i < n
    → let (woken, left) = wake_loop key n bitset i ws in
      (woken ≡ take (n - i) (matching key bitset ws))
      × (matching key bitset left ≡ drop (n - i) (matching key bitset ws))
      × (others key bitset left ≡ others key bitset ws)
unfolding wake_loop
wake_loop_lem key n bitset i [] h =
    let e : n - i ≡ suc (n - i - 1) = omega arith in rw e (refl, refl, refl)
wake_loop_lem key n bitset i (w ∷ ws) h = elim (Bool-cases (matches key bitset w)) [
  | inl hit ↦ elim (Bool-cases (leb n (i + 1))) [
    | inl last ↦ let e : n - i ≡ 1 = ground (arith, last) in rw (hit, last, e) (refl, refl, refl)
    | inr more ↦
        let (a, b, c) = wake_loop_lem key n bitset (i + 1) ws (ground (arith, more)) in
        let e : n - i ≡ suc (n - (i + 1)) = omega arith in
        rw (hit, more, e) (ap (λ (l : List FutexWaiter). w ∷ l) a, b, c)
  ]
  | inr miss ↦
      let (a, b, c) = wake_loop_lem key n bitset i ws h in
      rw (miss, miss) (a, b, ap (λ (l : List FutexWaiter). w ∷ l) c)
]

-- Wake takes from its bucket the waiters on its address and bits, at most `n` and the longest waiting
-- first; it leaves the others of these, and all that wait for something else, in their order.
pub wake_lem :
    (key n bitset : ℕ) (ws : List FutexWaiter)
    → let (woken, left) = wake key n bitset ws in
      (woken ≡ take n (matching key bitset ws))
      × (matching key bitset left ≡ drop n (matching key bitset ws))
      × (others key bitset left ≡ others key bitset ws)
unfolding wake
wake_lem key zero bitset ws = (refl, refl, refl)
wake_lem key (suc n) bitset ws =
    let positive : (suc n == 0) ≡ false = ground arith in
    let whole : suc n - 0 ≡ suc n = omega arith in
    rw positive (rw whole at (wake_loop_lem key (suc n) bitset 0 ws (omega arith)))
