-- ===== src/Bitmap/Fixed.antt =====
-- base/bitmap.h, the template bitmap<N>: as dynamic_bitmap, with the size fixed and its own find_next.
use junction.Prelude.{
  ℕ, zero, suc, ◌≡◌, ◌+◌, ◌*◌, ◌/◌, ◌%◌, refl, Bool, true, false, ◌&&◌, not, ◌==◌, if◌then◌else◌,
  leb, Option, none, some, arith, Bool-cases, inl, inr,
}
use junction.Lowest.{lowest, Lowest, lowest_lem}
use junction.Bitmap.{
  Bitmap, Word, bits_per_long, get_idx, get_shift, invert_if, find_loop, find_next,
}

-- The array of bitmap<N> has no size of its own.
abbrev pub sized : ℕ → (ℕ → Word) → Bitmap
sized n bits = record { size = n; bits = bits }

module _ (n : ℕ) where
  -- The loop of find_next: the position that is found is compared with N only where N is not a
  -- multiple of the word size.
  pub fixed_loop : ℕ → Bool → (ℕ → Word) → ℕ → Word → Option ℕ
  fixed_loop zero invert bits i mask = none
  fixed_loop (suc fuel) invert bits i mask =
      let rest = fixed_loop fuel invert bits (i + bits_per_long) (λ j. true) in
      if leb n i
      then none
      else elim (lowest bits_per_long 0 (λ j. invert_if invert (bits (get_idx i) j) && mask j)) [
        | none ↦ rest
        | some v ↦ if not (n % bits_per_long == 0) && leb n (i + v) then none else some (i + v)
      ]

  pub fixed_find_next : Bool → ℕ → (ℕ → Word) → Option ℕ
  fixed_find_next invert pos bits =
      fixed_loop (n / bits_per_long + 1) invert bits (get_idx pos * bits_per_long)
        (λ j. leb (get_shift pos) j)

  fixed_found :
      (i : ℕ) (m : Word) (r rest rest' : Option ℕ)
      → i % 64 ≡ 0
      → leb n i ≡ false
      → Lowest 0 64 m r
      → rest ≡ rest'
      → ◌≡◌ {A = Option ℕ}
          (elim r [
            | none ↦ rest
            | some v ↦ if not (n % 64 == 0) && leb n (i + v) then none else some (i + v)
          ])
          (elim r [ none ↦ rest' | some v ↦ if leb n (i + v) then none else some (i + v) ])
  fixed_found i m none rest rest' z h f e = e
  fixed_found i m (some v) rest rest' z h (t, l, u, f) e = ground arith

  fixed_loop_lem :
      (fuel : ℕ) (invert : Bool) (bits : ℕ → Word) (i : ℕ) (mask : Word)
      → i % 64 ≡ 0
      → fixed_loop fuel invert bits i mask ≡ find_loop fuel invert (sized n bits) i mask
  unfolding find_loop fixed_loop
  fixed_loop_lem zero invert bits i mask z = refl
  fixed_loop_lem (suc fuel) invert bits i mask z = elim (Bool-cases (leb n i)) [
    | inl out ↦ rw out refl
    | inr within ↦ rw within (
        fixed_found i (λ j. invert_if invert (bits (i / 64) j) && mask j)
          (lowest 64 0 (λ j. invert_if invert (bits (i / 64) j) && mask j))
          (fixed_loop fuel invert bits (i + 64) (λ j. true))
          (find_loop fuel invert (sized n bits) (i + 64) (λ j. true)) z within
          (lowest_lem 64 0 (λ j. invert_if invert (bits (i / 64) j) && mask j))
          (fixed_loop_lem fuel invert bits (i + 64) (λ j. true) (omega arith)))
  ]

  -- The find_next of bitmap<N>, which skips the last comparison where N is a multiple of the word size,
  -- finds what the one of dynamic_bitmap finds in a bitmap of that size with the same words.
  pub fixed_find_next-eq :
      (invert : Bool) (pos : ℕ) (bits : ℕ → Word)
      → fixed_find_next invert pos bits ≡ find_next invert pos (sized n bits)
  unfolding fixed_find_next find_next
  fixed_find_next-eq invert pos bits =
      fixed_loop_lem (n / 64 + 1) invert bits (pos / 64 * 64) (λ j. leb (pos % 64) j) (omega arith)
