-- ===== src/IntervalSet/Insert.antt =====
-- Insert: what merging adjacent items keeps, and the map after an insertion.
use junction.Prelude.{
  ℕ, ◌≤◌, ◌<◌, ◌≡◌, refl, ltb, leb, ◌&&◌, if◌then◌else◌, List, [], ◌∷◌, ◌++◌, some, arith,
  Option-cases, inl, inr, ◌∙◌, max,
}
use junction.IntervalSet.{IntervalData, merge_prev, merge_next, merge_around, insert}
use junction.IntervalSet.Valid.{
  IntervalLaws, Valid, Valid-append, last_end, view, Valid-mono, view-append, view-append_cong,
  emplace_between, Valid-prefix, Valid-suffix,
}
use junction.IntervalSet.Clear.{
  left_of, right_of, cleared-eq, left_of-Valid, right_of-Valid, last_end-left_of, view-left_of,
  view-right_of,
}

module _ {T V : Type 0} (d : IntervalData T) {value : T → ℕ → V} (laws : IntervalLaws d value) where
  open d use {get_start, get_end, try_merge_right}

  -- An item that absorbs the one before it.
  merge_two-Valid :
      (lo : ℕ) (p x y : T) (r : List T)
      → Valid d lo (p ∷ x ∷ r)
      → try_merge_right x p ≡ some y
      → Valid d lo (y ∷ r)
  merge_two-Valid lo p x y r v e =
      let s = laws.start-merge x p y e in
      let f = laws.end-merge x p y e in (omega (arith, s), omega (arith, s, f), rw f v.2.2)

  view-merge_two :
      (lo a : ℕ) (p x y : T) (r : List T)
      → Valid d lo (p ∷ x ∷ r)
      → try_merge_right x p ≡ some y
      → view d value (y ∷ r) a ≡ view d value (p ∷ x ∷ r) a
  view-merge_two lo a p x y r v e = ground (
    arith,
    laws.start-merge x p y e,
    laws.end-merge x p y e,
    laws.merge_adjacent x p y e,
    laws.value-merge_left x p y a e,
    laws.value-merge_right x p y a e,
  )

  merge_next-Valid :
      (lo : ℕ) (x : T) (r : List T) → Valid d lo (x ∷ r) → Valid d lo (merge_next d x r)
  unfolding merge_next
  merge_next-Valid lo x [] v = v
  merge_next-Valid lo x (n ∷ r) v = elim (Option-cases (try_merge_right n x)) [
    | inl e ↦ ground (arith, v)
    | inr (y, e) ↦ ground (arith, merge_two-Valid lo x n y r v e)
  ]

  view-merge_next :
      (lo a : ℕ) (x : T) (r : List T)
      → Valid d lo (x ∷ r)
      → view d value (merge_next d x r) a ≡ view d value (x ∷ r) a
  unfolding merge_next
  view-merge_next lo a x [] v = refl
  view-merge_next lo a x (n ∷ r) v = elim (Option-cases (try_merge_right n x)) [
    | inl e ↦ ground arith
    | inr (y, e) ↦ ground (arith, view-merge_two lo a x n y r v e)
  ]

  -- merge_prev in front of any rest.
  pub merge_prev-Valid :
      (lo : ℕ) (b : List T) (x : T) (r : List T)
      → Valid d lo (b ++ x ∷ r)
      → let (b', y) = merge_prev d b x in Valid d lo (b' ++ y ∷ r)
  unfolding merge_prev
  merge_prev-Valid lo [] x r v = v
  merge_prev-Valid lo (p ∷ []) x r v = elim (Option-cases (try_merge_right x p)) [
    | inl e ↦ ground (arith, v)
    | inr (y, e) ↦ ground (arith, merge_two-Valid lo p x y r v e)
  ]
  merge_prev-Valid lo (p ∷ q ∷ b) x r v = (v.0, v.1, merge_prev-Valid (get_end p) (q ∷ b) x r v.2)

  pub view-merge_prev :
      (lo a : ℕ) (b : List T) (x : T) (r : List T)
      → Valid d lo (b ++ x ∷ r)
      → let (b', y) = merge_prev d b x in view d value (b' ++ y ∷ r) a ≡ view d value (b ++ x ∷ r) a
  unfolding merge_prev
  view-merge_prev lo a [] x r v = refl
  view-merge_prev lo a (p ∷ []) x r v = elim (Option-cases (try_merge_right x p)) [
    | inl e ↦ ground arith
    | inr (y, e) ↦ ground (arith, view-merge_two lo a p x y r v e)
  ]
  view-merge_prev lo a (p ∷ q ∷ b) x r v =
      ground (arith, view-merge_prev (get_end p) a (q ∷ b) x r v.2)

  pub merge_around-Valid :
      (lo : ℕ) (b : List T) (x : T) (r : List T)
      → Valid d lo (b ++ x ∷ r)
      → Valid d lo (merge_around d b (x ∷ r))
  unfolding merge_around
  merge_around-Valid lo b x r v =
      let (b', y) = merge_prev d b x in
      let w : Valid d lo (b' ++ y ∷ r) = merge_prev-Valid lo b x r v in
      Valid-append d lo b' (merge_next d y r) (Valid-prefix d lo b' (y ∷ r) w)
        (merge_next-Valid (last_end d lo b') y r (Valid-suffix d lo b' (y ∷ r) w))

  pub view-merge_around :
      (lo a : ℕ) (b : List T) (x : T) (r : List T)
      → Valid d lo (b ++ x ∷ r)
      → view d value (merge_around d b (x ∷ r)) a ≡ view d value (b ++ x ∷ r) a
  unfolding merge_around
  view-merge_around lo a b x r v =
      let (b', y) = merge_prev d b x in
      let w : Valid d lo (b' ++ y ∷ r) = merge_prev-Valid lo b x r v in
      let next : view d value (merge_next d y r) a ≡ view d value (y ∷ r) a =
        view-merge_next (last_end d lo b') a y r (Valid-suffix d lo b' (y ∷ r) w) in
      view-append_cong d value b' (merge_next d y r) (y ∷ r) a next ∙ view-merge_prev lo a b x r v

  -- The map before its merges: the item between what Clear leaves on its two sides.
  insert-eq :
      (lo : ℕ) (item : T) (m : List T)
      → Valid d lo m
      → lo ≤ get_start item
      → get_start item < get_end item
      → insert d item m
        ≡ merge_around d (left_of d (get_start item) m) (item ∷ right_of d (get_end item) m)
  unfolding insert
  insert-eq lo item m v h ne =
      rw (cleared-eq d laws (get_start item) (get_end item) lo m v (omega arith)) (
        rw (
          emplace_between d lo (get_end item) item (left_of d (get_start item) m)
            (right_of d (get_end item) m) (left_of-Valid d laws (get_start item) lo m v)
            (omega (arith, last_end-left_of d laws (get_start item) lo m v)) (omega arith)
            (Valid-mono d (max lo (get_end item)) (get_end item) (right_of d (get_end item) m)
              (omega arith) (right_of-Valid d laws (get_end item) lo m v))))

  with_item-Valid :
      (lo : ℕ) (item : T) (m : List T)
      → Valid d lo m
      → lo ≤ get_start item
      → get_start item < get_end item
      → Valid d lo (left_of d (get_start item) m ++ item ∷ right_of d (get_end item) m)
  with_item-Valid lo item m v h ne =
      Valid-append d lo (left_of d (get_start item) m) (item ∷ right_of d (get_end item) m)
        (left_of-Valid d laws (get_start item) lo m v)
        (
          omega (arith, last_end-left_of d laws (get_start item) lo m v),
          ne,
          Valid-mono d (max lo (get_end item)) (get_end item) (right_of d (get_end item) m)
              (omega arith) (right_of-Valid d laws (get_end item) lo m v),
        )

  -- Insert keeps the intervals disjoint, not empty and in order, for an item that is not empty and
  -- does not start below the map.
  pub insert-Valid :
      (lo : ℕ) (item : T) (m : List T)
      → Valid d lo m
      → lo ≤ get_start item
      → get_start item < get_end item
      → Valid d lo (insert d item m)
  insert-Valid lo item m v h ne = rw (insert-eq lo item m v h ne) (
      merge_around-Valid lo (left_of d (get_start item) m) item (right_of d (get_end item) m)
        (with_item-Valid lo item m v h ne))

  -- After Insert each address of the item has the item's attribute, and every other address the
  -- one that it had, for an item that is not empty and does not start below the map.
  pub view-insert :
      (lo a : ℕ) (item : T) (m : List T)
      → Valid d lo m
      → lo ≤ get_start item
      → get_start item < get_end item
      → view d value (insert d item m) a ≡ (
          if leb (get_start item) a && ltb a (get_end item)
          then some (value item a)
          else view d value m a)
  view-insert lo a item m v h ne =
      let merged =
        view-merge_around lo a (left_of d (get_start item) m) item (right_of d (get_end item) m)
          (with_item-Valid lo item m v h ne) in
      rw (insert-eq lo item m v h ne) (
        merged
        ∙ (view-append d value (left_of d (get_start item) m) (item ∷ right_of d (get_end item) m) a
            ∙ ground (
              arith,
              view-left_of d laws (get_start item) lo a m v,
              view-right_of d laws (get_end item) lo a m v,
            )))
