-- ===== src/Lowest.antt =====
-- __builtin_ffsl, as kernel/signal.cc and base/bitmap.h use it: the lowest number in a mask.
use junction.Prelude.{
  ℕ, zero, suc, ◌≡◌, subst, ◌+◌, ◌≤◌, ◌<◌, Bool, true, false, ◌==◌, if◌then◌else◌, arith, Option,
  none, some, Bool-cases, inl, inr,
}

-- The lowest number in a mask, from `k` on and below `k + n` (__builtin_ffsl, less one).
unfoldable pub lowest : ℕ → ℕ → (ℕ → Bool) → Option ℕ
lowest zero k mask = none
lowest (suc n) k mask = let rest = lowest n (k + 1) mask in if mask k then some k else rest

-- The lowest number of a mask from `k` on and below `m`.
abbrev pub Lowest : ℕ → ℕ → (ℕ → Bool) → Option ℕ → Type 0
Lowest k m mask none = (i : ℕ) → k ≤ i → i < m → mask i ≡ false
Lowest k m mask (some j) =
    (mask j ≡ true) × (k ≤ j) × (j < m) × ((i : ℕ) → k ≤ i → i < j → mask i ≡ false)

below_step :
    (k m : ℕ) (mask : ℕ → Bool)
    → mask k ≡ false
    → ((i : ℕ) → k + 1 ≤ i → i < m → mask i ≡ false)
    → (i : ℕ) → k ≤ i
    → i < m
    → mask i ≡ false
below_step k m mask miss f i g h = elim (Bool-cases (i == k)) [
  | inl e ↦ let same : i ≡ k = ground (arith, e) in ground (arith, same, miss)
  | inr e ↦ f i (ground (arith, e)) h
]

pub Lowest-step :
    (k m : ℕ) (mask : ℕ → Bool) (r : Option ℕ)
    → mask k ≡ false
    → Lowest (k + 1) m mask r
    → Lowest k m mask r
Lowest-step k m mask none miss f = below_step k m mask miss f
Lowest-step k m mask (some j) miss (t, g, h, f) = (t, omega arith, h, below_step k j mask miss f)

pub lowest_lem : (n k : ℕ) (mask : ℕ → Bool) → Lowest k (k + n) mask (lowest n k mask)
unfolding lowest
lowest_lem zero k mask = λ i f g. ground arith
lowest_lem (suc n) k mask = elim (Bool-cases (mask k)) [
  | inl hit ↦ rw hit (hit, omega arith, omega arith, (λ i f g. ground arith))
  | inr miss ↦
      let shift : k + 1 + n ≡ k + suc n = omega arith in
      rw miss (
        Lowest-step k (k + suc n) mask (lowest n (k + 1) mask) miss (
          subst (λ m. Lowest (k + 1) m mask (lowest n (k + 1) mask)) shift
            (lowest_lem n (k + 1) mask)))
]
