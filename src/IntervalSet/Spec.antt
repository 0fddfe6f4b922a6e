-- ===== src/IntervalSet/Spec.antt =====
-- Clear, Find and has_overlap against the partial function that a map stands for.
use junction.Prelude.{
  ℕ, ◌≤◌, ◌<◌, ◌≡◌, ◌≢◌, ◌↔◌, refl, ltb, leb, ◌&&◌, if◌then◌else◌, List, [], ◌∷◌, none, arith,
  Bool-cases, inl, inr, true, max,
}
use mathlib.Core.Option
use junction.IntervalSet.{IntervalData, cleared, from, find, has_overlap}
use junction.IntervalSet.Valid.{
  IntervalLaws, Valid, Valid-append, last_end, view, Valid-mono, view_below, view-append,
}
use junction.IntervalSet.Clear.{
  left_of, right_of, cleared-eq, left_of-Valid, right_of-Valid, last_end-left_of, view-left_of,
  view-right_of,
}

module _ {T V : Type 0} (d : IntervalData T) {value : T → ℕ → V} (laws : IntervalLaws d value) where
  open d use {get_start, get_end}

  -- Clear, on a range whose start is not above its end, keeps the intervals disjoint, not empty and
  -- in order.
  pub cleared-Valid :
      (start end lo : ℕ) (m : List T)
      → start ≤ end
      → Valid d lo m
      → Valid d lo (cleared d start end m)
  cleared-Valid s e lo m h v = rw (cleared-eq d laws s e lo m v h) (
      Valid-append d lo (left_of d s m) (right_of d e m) (left_of-Valid d laws s lo m v) (
        Valid-mono d (max lo e) (last_end d lo (left_of d s m)) (right_of d e m)
          (omega (arith, last_end-left_of d laws s lo m v)) (right_of-Valid d laws e lo m v)))

  -- After Clear no interval holds an address of the range, and every other address has the
  -- attribute that it had, for a range whose start is not above its end.
  pub view-cleared :
      (start end lo a : ℕ) (m : List T)
      → start ≤ end
      → Valid d lo m
      → view d value (cleared d start end m) a
        ≡ (if leb start a && ltb a end then none else view d value m a)
  view-cleared s e lo a m h v =
      rw (cleared-eq d laws s e lo m v h, view-append)
        (ground (arith, view-left_of d laws s lo a m v, view-right_of d laws e lo a m v))

  view-from :
      (k lo a : ℕ) (m : List T)
      → Valid d lo m
      → k ≤ a
      → view d value (from d k m) a ≡ view d value m a
  unfolding from
  view-from k lo a [] v h = refl
  view-from k lo a (t ∷ m) v h = ground (arith, view-from k (get_end t) a m v.2)

  -- Find returns the interval that holds the address, and fails where there is none.
  pub view-find :
      (lo a : ℕ) (m : List T)
      → Valid d lo m
      → Option.map (λ t. value t a) (find d a m) ≡ view d value m a
  unfolding find from
  view-find lo a [] v = refl
  view-find lo a (t ∷ m) v =
      ground (arith, view-find (get_end t) a m v.2, view_below d value (get_end t) a m v.2)

  has_overlap_sound :
      (start end lo : ℕ) (m : List T)
      → start < end
      → Valid d lo m
      → has_overlap d start end m ≡ true
      → (a : ℕ) × (start ≤ a) × (a < end) × (view d value m a ≢ none)
  unfolding has_overlap from
  has_overlap_sound s e lo [] h v o = cc
  has_overlap_sound s e lo (t ∷ m) h v o = elim (Bool-cases (ltb s (get_end t))) [
    | inl hit ↦ (max s (get_start t), ground arith, ground arith, ground arith)
    | inr miss ↦
        let (a, p, q, held) = has_overlap_sound s e (get_end t) m h v.2 (ground arith) in
        (a, p, q, ground (arith, view_below d value (get_end t) a m v.2))
  ]

  has_overlap_complete :
      (start end lo a : ℕ) (m : List T)
      → Valid d lo m
      → start ≤ a
      → a < end
      → view d value m a ≢ none
      → has_overlap d start end m ≡ true
  unfolding has_overlap from
  has_overlap_complete s e lo a [] v p q held = absurd (held refl)
  has_overlap_complete s e lo a (t ∷ m) v p q held = ground (
    arith,
    has_overlap_complete s e (get_end t) a m v.2 p q,
    view_below d value (get_end t) a m v.2,
  )

  -- has_overlap answers true exactly when some interval holds an address of the range, for a range
  -- that is not empty.
  pub has_overlap_iff :
      (start end lo : ℕ) (m : List T)
      → start < end
      → Valid d lo m
      → (has_overlap d start end m ≡ true)
        ↔ ((a : ℕ) × (start ≤ a) × (a < end) × (view d value m a ≢ none))
  has_overlap_iff s e lo m h v = (
    has_overlap_sound s e lo m h v,
    λ (a, p, q, held). has_overlap_complete s e lo a m v p q held,
  )
