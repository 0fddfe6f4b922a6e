-- ===== src/IntervalSet/FreeRange.antt =====
-- FindFreeRange: the search for a range that no interval holds.
pub mod Exhausted
use mathlib.Core.List.{reverse, reverse-cons}
use junction.Prelude.{
  ℕ, ◌+◌, ◌-◌, ◌≤◌, ◌<◌, ◌^◌, ◌≡◌, ◌≢◌, ◌↔◌, refl, ltb, leb, ◌==◌, ◌&&◌, if◌then◌else◌, List, [],
  ◌∷◌, ◌++◌, Option, none, some, arith, append-nil, append_assoc, Bool, Bool-cases, Option-cases,
  inl, inr, sym, ◌∙◌, ap, true, false, max, sub64, add64, sub64-eq-sub, ltb→lt, ltb_false→le,
}
use junction.IntervalSet.{IntervalData, before, from}
use junction.IntervalSet.Valid.{Valid, last_end, le-last_end, view, view_below, view-append}

-- `undefined` is std::prev of the first iterator, which the code computes where no item lies
-- before the hinted address.
pub data Placement : Type 0 where
  at : ℕ → Placement
  enomem : Placement
  undefined : Placement

module _ {T : Type 0} (d : IntervalData T) where
  open d use {get_start, get_end}

  -- The walk back from the last item: `prev_start` where it stops.
  pub scan_back : ℕ → ℕ → List T → ℕ
  scan_back len prev_start [] = prev_start
  scan_back len prev_start (t ∷ r) =
      let rest = scan_back len (get_start t) r in
      if ltb (sub64 prev_start (get_end t)) len then rest else prev_start

  pub scan : ℕ → ℕ → ℕ → List T → Placement
  scan len upper_lim lower_lim m =
      let addr = sub64 (scan_back len upper_lim (reverse m)) len in
      if ltb addr lower_lim then enomem else at addr

  -- The end of std::prev(it): the lower limit if that is the first item.
  abbrev prev_end : ℕ → List T → Option ℕ
  prev_end lower_lim [] = none
  prev_end lower_lim (t ∷ []) = some lower_lim
  prev_end lower_lim (t ∷ u ∷ []) = some (get_end u)
  prev_end lower_lim (t ∷ u ∷ v ∷ m) = prev_end lower_lim (u ∷ v ∷ m)

  abbrev next_start : ℕ → List T → ℕ
  next_start upper_lim [] = upper_lim
  next_start upper_lim (t ∷ m) = get_start t

  -- The placement near a hint, given the items before and from the first that ends behind it.
  pub near_hint : ℕ → ℕ → ℕ → ℕ → List T → List T → Placement → Placement
  near_hint start len upper_lim lower_lim b [] otherwise = at start
  near_hint start len upper_lim lower_lim b (it ∷ r) otherwise =
      if leb (add64 start len) (get_start it) then at start else elim (prev_end lower_lim b) [
        | none ↦ undefined
        | some e ↦
            if leb e (sub64 (get_start it) len)
            then at (sub64 (get_start it) len)
            else if leb (add64 (get_end it) len) (next_start upper_lim r)
            then at (get_end it)
            else otherwise
      ]

  pub find_free_range : ℕ → ℕ → ℕ → ℕ → List T → Placement
  find_free_range hint len upper_lim lower_lim m =
      if hint == 0
      then scan len upper_lim lower_lim m
      else near_hint hint len upper_lim lower_lim (before d hint m) (from d hint m)
          (scan len upper_lim lower_lim m)

  -- The items of a valid map from the last one back, all below `hi`.
  abbrev pub ValidBack : ℕ → List T → Type 0
  ValidBack hi [] = Unit {0}
  ValidBack hi (t ∷ r) = (get_end t ≤ hi) × (get_start t < get_end t) × ValidBack (get_start t) r

  -- Where the first item of the map starts.
  abbrev pub low : ℕ → List T → ℕ
  low hi [] = hi
  low hi (t ∷ r) = low (get_start t) r

  abbrev FitsBelow : ℕ → List T → T → Type 0
  FitsBelow hi r t = (get_end t ≤ low hi r) × (get_start t < get_end t)

  ValidBack-snoc :
      (hi : ℕ) (r : List T) (t : T)
      → ValidBack hi r
      → FitsBelow hi r t
      → ValidBack hi (r ++ t ∷ []) × (low hi (r ++ t ∷ []) ≡ get_start t)
  ValidBack-snoc hi [] t v h = ((h.0, h.1, tt), refl)
  ValidBack-snoc hi (u ∷ r) t v h =
      let w = ValidBack-snoc (get_start u) r t v.2 h in ((v.0, v.1, w.0), w.1)

  pub reverse-ValidBack :
      (lo hi : ℕ) (m : List T)
      → Valid d lo m
      → last_end d lo m ≤ hi
      → ValidBack hi (reverse m) × (lo ≤ low hi (reverse m))
  reverse-ValidBack lo hi [] v h = (tt, h)
  reverse-ValidBack lo hi (t ∷ m) v h =
      let w = reverse-ValidBack (get_end t) hi m v.2 h in
      let x = ValidBack-snoc hi (reverse m) t w.0 (w.1, v.1) in
      rw (reverse-cons t m) (x.0, omega (arith, x.1))

module _ {T V : Type 0} (d : IntervalData T) (value : T → ℕ → V) where
  open d use {get_start, get_end}

  pub view-reverse :
      (lo a : ℕ) (m : List T) → Valid d lo m → view d value (reverse m) a ≡ view d value m a
  view-reverse lo a [] v = refl
  view-reverse lo a (t ∷ m) v =
      rw (reverse-cons t m, view-append d value (reverse m) (t ∷ []) a)
        (ground (arith, view-reverse (get_end t) a m v.2, view_below d value (get_end t) a m v.2))

  pub view_back_behind :
      (hi a : ℕ) (r : List T) → ValidBack d hi r → hi ≤ a → view d value r a ≡ none
  view_back_behind hi a [] v h = refl
  view_back_behind hi a (t ∷ r) v h = ground (arith, view_back_behind (get_start t) a r v.2)

  -- No interval holds an address of [g, g + len).
  abbrev pub Free : List T → ℕ → ℕ → Type 0
  Free m g len = (a : ℕ) → g ≤ a → a < g + len → view d value m a ≡ none

  -- A free range below `hi` that does not fit between the item and `hi` lies below the item.
  gap_below :
      (hi len g : ℕ) (t : T) (r : List T)
      → ValidBack d hi (t ∷ r)
      → 0 < len
      → hi - get_end t < len
      → g + len ≤ hi
      → Free (t ∷ r) g len
      → g + len ≤ get_start t
  gap_below hi len g t r v pos small h free = ground (arith, free (max g (get_start t)))

  Free-tail :
      (hi len g : ℕ) (t : T) (r : List T)
      → ValidBack d hi (t ∷ r)
      → g + len ≤ get_start t
      → Free (t ∷ r) g len
      → Free r g len
  Free-tail hi len g t r v h free a p q = ground (arith, free a p q)

  scan_back_lem :
      (hi len g : ℕ) (r : List T)
      → ValidBack d hi r
      → hi < 2 ^ 64
      → 0 < len
      → g + len ≤ hi
      → Free r g len
      → let q = scan_back d len hi r in (q ≤ hi) × (g + len ≤ q) × Free r (q - len) len
  unfolding scan_back
  scan_back_lem hi len g [] v w pos h free = (omega arith, h, λ a p q. refl)
  scan_back_lem hi len g (t ∷ r) v w pos h free =
      let plain : sub64 hi (get_end t) ≡ hi - get_end t = sub64-eq-sub hi (get_end t) w v.0 in
      elim (Bool-cases (ltb (sub64 hi (get_end t)) len)) [
        | inl small ↦
            let short : hi - get_end t < len =
              rw plain at (ltb→lt (sub64 hi (get_end t)) len small) in
            let below : g + len ≤ get_start t = gap_below hi len g t r v pos short h free in
            let (le, room, rest) =
              scan_back_lem (get_start t) len g r v.2 (omega arith) pos below
                (Free-tail hi len g t r v below free) in
            rw small (omega arith, room, λ a p q. ground (arith, rest a p q))
        | inr big ↦
            let wide : len ≤ hi - get_end t =
              rw plain at (ltb_false→le (sub64 hi (get_end t)) len big) in
            rw big (omega arith, h, λ a p q. ground (arith, view_back_behind (get_start t) a r v.2))
      ]

  -- Without a hint FindFreeRange finds a range within the limits that no interval holds, if there
  -- is one: the length is not 0, and the intervals and the limits lie below 2^64.
  pub find_free_range-Free :
      (lo g len upper_lim lower_lim : ℕ) (m : List T)
      → Valid d lo m
      → last_end d lo m ≤ upper_lim
      → upper_lim < 2 ^ 64
      → 0 < len
      → lower_lim ≤ g
      → g + len ≤ upper_lim
      → Free m g len
      → (addr : ℕ) × (find_free_range d 0 len upper_lim lower_lim m ≡ at addr)
        × (lower_lim ≤ addr)
        × (addr + len ≤ upper_lim)
        × Free m addr len
  unfolding find_free_range scan
  find_free_range-Free lo g len upper_lim lower_lim m v e w pos low_g room free =
      let q = scan_back d len upper_lim (reverse m) in
      let (le, fits, gap) =
        scan_back_lem upper_lim len g (reverse m) (reverse-ValidBack d lo upper_lim m v e).0 w pos
          room (λ a p q. rw (view-reverse lo a m v) (free a p q)) in
      let plain : sub64 q len ≡ q - len = sub64-eq-sub q len (omega arith) (omega arith) in
      (
        q - len,
        ground (arith, plain),
        omega arith,
        omega arith,
        λ a p r. rw (view-reverse lo a m v) at (gap a p r),
      )
