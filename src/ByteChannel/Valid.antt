-- ===== src/ByteChannel/Valid.antt =====
-- What holds of a channel at all times, and the bytes that it holds.
use Prim.Native.Nat.{◌∣◌}
use native.Mathlib.Nat.{
  pow-suc, dvd-mul_right, mod-mod_of_dvd, mod-add-mod, mod-eq_of_lt, mod-eq-sub-mod,
}
use junction.Prelude.{
  ℕ, zero, suc, ◌+◌, ◌-◌, ◌*◌, ◌%◌, ◌^◌, ◌≤◌, ◌<◌, max, ◌≡◌, refl, List, [], length, get_or, sub64,
  arith, ap, ◌∙◌, sym, subst, length-replicate, leb, Bool-cases, inl, inr,
}
use junction.Prelude.Tabulate.{tabulate}
use junction.ByteChannel.{ByteChannel, bit_ceil, init}

pub record IsValid (c : ByteChannel) : Type 0 where
  pub divides : c.size ∣ 2 ^ 64
  pub room : 0 < c.size
  pub small : c.size < 2 ^ 64
  pub storage : length c.buf ≡ c.size
  pub in_small : c.in_ < 2 ^ 64
  pub out_small : c.out_ < 2 ^ 64
  pub within : sub64 c.in_ c.out_ ≤ c.size

-- The number of bytes in the channel, and the bytes, oldest first.
abbrev pub used : ByteChannel → ℕ
used c = sub64 c.in_ c.out_

abbrev pub contents : ByteChannel → List ℕ
contents c = tabulate (λ i. get_or c.buf ((c.out_ + i) % c.size) 0) (used c)

bit_ceil-dvd :
    (fuel p n : ℕ)
    → 0 < p
    → p * 2 ^ fuel ≡ 2 ^ 64
    → (bit_ceil fuel p n ∣ 2 ^ 64) × (0 < bit_ceil fuel p n)
unfolding bit_ceil
bit_ceil-dvd zero p n pos e = (subst (λ (k : ℕ). p ∣ k) e (dvd-mul_right p (2 ^ zero)), pos)
bit_ceil-dvd (suc fuel) p n pos e = elim (Bool-cases (leb n p)) [
  | inl stop ↦ rw stop (subst (λ (k : ℕ). p ∣ k) e (dvd-mul_right p (2 ^ suc fuel)), pos)
  | inr more ↦ rw more (
      bit_ceil-dvd fuel (2 * p) n (omega arith)
        (omega (arith, ap (λ (t : ℕ). p * t) (pow-suc 2 fuel), e)))
]

-- The result is the first power that serves, and not twice too large.
bit_ceil_bounds :
    (fuel p n : ℕ)
    → 0 < n
    → n ≤ p * 2 ^ fuel
    → (n ≤ bit_ceil fuel p n) × (bit_ceil fuel p n ≤ max p (2 * n - 1))
unfolding bit_ceil
bit_ceil_bounds zero p n pos h = (omega arith, omega arith)
bit_ceil_bounds (suc fuel) p n pos h = ground (
  arith,
  bit_ceil_bounds fuel (2 * p) n pos (omega (arith, ap (λ (t : ℕ). p * t) (pow-suc 2 fuel))),
)

-- A new channel for up to 2^63 bytes is valid and empty and holds at least as many as asked for.
pub init-IsValid :
    (n : ℕ) → n ≤ 2 ^ 63 → IsValid (init n) × (contents (init n) ≡ []) × (n ≤ (init n).size)
unfolding init
init-IsValid n h =
    let (d, pos) = bit_ceil-dvd 64 1 (max n 1) (omega arith) (omega arith) in
    let (enough, close) = bit_ceil_bounds 64 1 (max n 1) (omega arith) (omega arith) in
    (
      record {
        divides = d;
        room = pos;
        small = omega arith;
        storage = length-replicate (bit_ceil 64 1 (max n 1)) 0;
        in_small = omega arith;
        out_small = omega arith;
        within = omega arith;
      },
      refl,
      omega arith,
    )

-- A counter that wraps at 2^64 keeps its place in the buffer.
pub place_wrapped : (s x i : ℕ) → s ∣ 2 ^ 64 → (x % 2 ^ 64 + i) % s ≡ (x + i) % s
place_wrapped s x i d =
    sym (mod-add-mod (x % 2 ^ 64) s i)
    ∙ (ap (λ (k : ℕ). (k + i) % s) (mod-mod_of_dvd s x d) ∙ mod-add-mod x s i)

-- The place `i` behind a counter, before and behind the end of the buffer.
pub place_before_end : (s x i : ℕ) → i < s - x % s → (x + i) % s ≡ x % s + i
place_before_end s x i h = sym (mod-add-mod x s i) ∙ mod-eq_of_lt (omega arith)

pub place_behind_end : (s x j i : ℕ) → i < s → x % s + j ≡ s + i → (x + j) % s ≡ i
place_behind_end s x j i h e =
    sym (mod-add-mod x s j)
    ∙ (ap (λ (k : ℕ). k % s) e
        ∙ (mod-eq-sub-mod {n = s + i} {m = s} (omega arith)
            ∙ (let back : s + i - s ≡ i = omega arith in
                ap (λ (k : ℕ). k % s) back ∙ mod-eq_of_lt h)))
