-- ===== src/IntervalSet/FreeRange/Exhausted.antt =====
-- FindFreeRange where no range is left.
use mathlib.Core.List.{reverse}
use junction.Prelude.{
  ℕ, ◌+◌, ◌-◌, ◌≤◌, ◌<◌, ◌^◌, ◌≡◌, List, [], ◌∷◌, arith, Bool-cases, inl, inr, ltb, sub64,
  sub64-eq-sub, ltb_false→le, refl, dec_lt,
}
use junction.IntervalSet.{IntervalData}
use junction.IntervalSet.Valid.{Valid, last_end}
use junction.IntervalSet.FreeRange.{
  scan_back, scan, find_free_range, at, ValidBack, reverse-ValidBack, view-reverse,
  view_back_behind, Free,
}

module _ {T V : Type 0} (d : IntervalData T) (value : T → ℕ → V) where
  open d use {get_start, get_end}

  -- Where the walk stops with room enough, the range below is free.
  scan_back_sound :
      (hi len : ℕ) (r : List T)
      → ValidBack d hi r
      → hi < 2 ^ 64
      → let q = scan_back d len hi r in (q ≤ hi) × (len ≤ q → Free d value r (q - len) len)
  unfolding scan_back
  scan_back_sound hi len [] v w = (omega arith, λ _ a p q. refl)
  scan_back_sound hi len (t ∷ r) v w =
      let plain : sub64 hi (get_end t) ≡ hi - get_end t = sub64-eq-sub hi (get_end t) w v.0 in
      elim (Bool-cases (ltb (sub64 hi (get_end t)) len)) [
        | inl small ↦
            let (le, rest) = scan_back_sound (get_start t) len r v.2 (omega arith) in
            rw small (omega arith, λ fits a p q. ground (arith, rest fits a p q))
        | inr big ↦
            let wide : len ≤ hi - get_end t =
              rw plain at (ltb_false→le (sub64 hi (get_end t)) len big) in
            rw big (
              omega arith,
              λ fits a p q. ground (arith, view_back_behind d value (get_start t) a r v.2),
            )
      ]

  -- Where no range of the length is free below the upper limit, and the lower limit is 0 (as for
  -- AllocateMMRegion), FindFreeRange without a hint does not fail with ENOMEM: it returns an address
  -- from which the range reaches past the upper limit.
  pub find_free_range_exhausted :
      (lo len upper_lim : ℕ) (m : List T)
      → Valid d lo m
      → last_end d lo m ≤ upper_lim
      → upper_lim < 2 ^ 64
      → len < 2 ^ 64
      → ((g : ℕ) → g + len ≤ upper_lim → ¬ Free d value m g len)
      → (addr : ℕ) × (find_free_range d 0 len upper_lim 0 m ≡ at addr) × (upper_lim < addr + len)
  unfolding find_free_range scan
  find_free_range_exhausted lo len upper_lim m v e w small none_free =
      let q = scan_back d len upper_lim (reverse m) in
      let (le, gap) =
        scan_back_sound upper_lim len (reverse m) (reverse-ValidBack d lo upper_lim m v e).0 w in
      elim (dec_lt q len) [
        | yes short ↦ (sub64 q len, ground arith, omega arith)
        | no fits ↦ absurd (
            none_free (q - len) (omega arith)
              (λ a p r. rw (← view-reverse d value lo a m v) (gap (omega arith) a p r)))
      ]
