-- ===== src/IntervalSet/Modify/Loop.antt =====
-- The loop of Modify, and the map that it leaves.
use junction.Prelude.{
  ℕ, ◌≤◌, ◌<◌, ◌≡◌, refl, ltb, List, [], ◌∷◌, ◌++◌, Option, none, some, arith, append-nil,
  append_assoc, Bool, Bool-cases, inl, inr, ap, false, ltb→lt, ltb_false→le,
}
use junction.IntervalSet.{IntervalData, merge_prev, modify_item, modify_from, modify, before, from}
use junction.IntervalSet.Valid.{
  IntervalLaws, Valid, Valid-append, last_end, view, view_below, view-append, Valid-prefix,
  Valid-suffix,
}
use junction.IntervalSet.Insert.{merge_prev-Valid, view-merge_prev}
use junction.IntervalSet.Modify.{
  ChangeLaws, changed, pieces, pieces-Valid, view-pieces, modify_item_inside, modify_item_across,
  body_piece, tail_piece,
}

else_cong :
    {V : Type 0} (o : Option V) {x y : Option V}
    → x ≡ y
    → elim o [ none ↦ x | some v ↦ some v ] ≡ elim o [ none ↦ y | some v ↦ some v ]
else_cong none e = e
else_cong (some v) e = refl

module _ {T V : Type 0} (d : IntervalData T) {value : T → ℕ → V} (laws : IntervalLaws d value)
    (start end : ℕ) {check : T → Bool} {change : T → T} {change_value : V → V}
    (c : ChangeLaws d value check change change_value) (nonempty : start < end) where
  open d use {get_start, get_end, try_merge_right, trim_tail, trim_head}

  abbrev round : List T → T → List T
  round b item = modify_item d start end check change b item

  round_skipped :
      (b : List T) (item : T)
      → check item ≡ false
      → round b item ≡ (let (b', y) = merge_prev d b item in b' ++ y ∷ [])
  unfolding modify_item
  round_skipped b item h = ground (arith, h)

  pieces_placed :
      (lo : ℕ) (b : List T) (item : T) (r : List T)
      → Valid d lo (b ++ item ∷ r)
      → start < get_end item
      → get_start item < end
      → Valid d lo (b ++ (pieces d laws start end c nonempty item ++ r))
  pieces_placed lo b item r v hs he =
      Valid-append d lo b (pieces d laws start end c nonempty item ++ r)
        (Valid-prefix d lo b (item ∷ r) v)
        (pieces-Valid d laws start end c nonempty (last_end d lo b) item r
          (Valid-suffix d lo b (item ∷ r) v) hs he)

  placed :
      (lo : ℕ) (b : List T) (item : T) (r : List T)
      → Valid d lo (b ++ item ∷ r)
      → Valid d lo (b ++ item ∷ [])
  placed lo b item r v =
      let w : Valid d (last_end d lo b) (item ∷ r) = Valid-suffix d lo b (item ∷ r) v in
      Valid-append d lo b (item ∷ []) (Valid-prefix d lo b (item ∷ r) v) (w.0, w.1, tt)

  abbrev body : T → T
  body = body_piece d laws start end c nonempty

  abbrev rest_of : T → List T
  rest_of = tail_piece d laws start end c nonempty

  pieces_inside :
      (item : T)
      → start ≤ get_start item
      → pieces d laws start end c nonempty item ≡ body item ∷ rest_of item
  pieces_inside item h = ground arith

  inside_placed :
      (lo : ℕ) (b : List T) (item : T)
      → Valid d lo (b ++ item ∷ [])
      → start < get_end item
      → get_start item < end
      → start ≤ get_start item
      → Valid d lo (b ++ body item ∷ rest_of item)
  inside_placed lo b item v hs he h =
      rw (← append-nil (rest_of item))
        (rw (pieces_inside item h) at (pieces_placed lo b item [] v hs he))

  -- A round keeps the list valid, in front of any rest.
  round-Valid :
      (lo : ℕ) (b : List T) (item : T) (r : List T)
      → Valid d lo (b ++ item ∷ r)
      → start < get_end item
      → get_start item < end
      → Valid d lo (round b item ++ r)
  round-Valid lo b item r v hs he = elim (Bool-cases (check item)) [
    | inl picked ↦ elim (Bool-cases (ltb (get_start item) start)) [
      | inl across ↦
          rw
            (
              modify_item_across d laws start end c nonempty lo b item (placed lo b item r v) hs
                  picked (ltb→lt (get_start item) start across),
              append_assoc b (pieces d laws start end c nonempty item) r,
            )
            (pieces_placed lo b item r v hs he)
      | inr inside ↦
          let (b', y) = merge_prev d b (body item) in
          rw
            (
              modify_item_inside d laws start end c nonempty lo b item (placed lo b item r v) he
                  picked (ltb_false→le (get_start item) start inside),
              append_assoc b' (y ∷ rest_of item) r,
            )
            (merge_prev-Valid d laws lo b (body item) (rest_of item ++ r) (
              rw (pieces_inside item (ltb_false→le (get_start item) start inside)) at
                (pieces_placed lo b item r v hs he)))
    ]
    | inr skip ↦
        let (b', y) = merge_prev d b item in
        rw (round_skipped b item skip, append_assoc b' (y ∷ []) r)
          (merge_prev-Valid d laws lo b item r v)
  ]

  -- A round changes the attributes that the item gives to the range.
  view-round :
      (lo a : ℕ) (b : List T) (item : T)
      → Valid d lo (b ++ item ∷ [])
      → start < get_end item
      → get_start item < end
      → view d value (round b item) a ≡ elim (view d value b a) [
        | none ↦ changed start end change_value a (view d value (item ∷ []) a)
        | some w ↦ some w
      ]
  view-round lo a b item v hs he = elim (Bool-cases (check item)) [
    | inl picked ↦
        let w =
          view-pieces d laws start end c nonempty (last_end d lo b) a item
            (Valid-suffix d lo b (item ∷ []) v) hs he in
        elim (Bool-cases (ltb (get_start item) start)) [
          | inl across ↦
              rw
                (
                  modify_item_across d laws start end c nonempty lo b item v hs picked
                      (ltb→lt (get_start item) start across),
                  view-append d value b (pieces d laws start end c nonempty item) a,
                )
                (else_cong (view d value b a) w)
          | inr inside ↦
              rw
                (
                  modify_item_inside d laws start end c nonempty lo b item v he picked
                      (ltb_false→le (get_start item) start inside),
                  view-merge_prev d laws lo a b (body item) (rest_of item) (
                      inside_placed lo b item v hs he (ltb_false→le (get_start item) start inside)),
                  ← pieces_inside item (ltb_false→le (get_start item) start inside),
                  view-append d value b (pieces d laws start end c nonempty item) a,
                )
                (else_cong (view d value b a) w)
        ]
    | inr skip ↦
        rw
          (
            round_skipped b item skip,
            view-merge_prev d laws lo a b item [] v,
            view-append d value b (item ∷ []) a,
          )
          (ground (arith, c.skipped item a skip))
  ]

  -- The first item behind the iterator reaches past `start`, and so do those behind it.
  abbrev FirstEnds : List T → Type 0
  FirstEnds [] = Unit {0}
  FirstEnds (t ∷ m) = start < get_end t

  FirstEnds-tail :
      (lo : ℕ) (t : T) (m : List T) → Valid d lo (t ∷ m) → start < get_end t → FirstEnds m
  FirstEnds-tail lo t [] v h = tt
  FirstEnds-tail lo t (u ∷ m) v h = omega arith

  FirstEnds-from : (m : List T) → FirstEnds (from d start m)
  unfolding from
  FirstEnds-from [] = tt
  FirstEnds-from (t ∷ m) = ground (arith, FirstEnds-from m)

  loop-Valid :
      (lo : ℕ) (b r : List T)
      → Valid d lo (b ++ r)
      → FirstEnds r
      → Valid d lo (modify_from d start end check change b r)
  unfolding modify_from
  loop-Valid lo b [] v h = rw (append-nil b) at v
  loop-Valid lo b (item ∷ r) v h = elim (Bool-cases (ltb (get_start item) end)) [
    | inl more ↦ rw more (
        loop-Valid lo (round b item) r
          (round-Valid lo b item r v h (ltb→lt (get_start item) end more))
          (FirstEnds-tail (last_end d lo b) item r (Valid-suffix d lo b (item ∷ r) v) h))
    | inr done ↦ rw done (merge_prev-Valid d laws lo b item r v)
  ]

  view-loop :
      (lo a : ℕ) (b r : List T)
      → Valid d lo (b ++ r)
      → FirstEnds r
      → view d value (modify_from d start end check change b r) a ≡ elim (view d value b a) [
        | none ↦ changed start end change_value a (view d value r a)
        | some w ↦ some w
      ]
  unfolding modify_from
  view-loop lo a b [] v h = ground arith
  view-loop lo a b (item ∷ r) v h = elim (Bool-cases (ltb (get_start item) end)) [
    | inl more ↦
        rw
          (
            more,
            view-loop lo a (round b item) r
                (round-Valid lo b item r v h (ltb→lt (get_start item) end more))
                (FirstEnds-tail (last_end d lo b) item r (Valid-suffix d lo b (item ∷ r) v) h),
            view-round lo a b item (placed lo b item r v) h (ltb→lt (get_start item) end more),
          )
          (ground arith)
    | inr done ↦
        rw (done, view-merge_prev d laws lo a b item r v, view-append d value b (item ∷ r) a)
          (ground (
            arith,
            view_below d value end a (item ∷ r),
            ltb_false→le (get_start item) end done,
            Valid-suffix d lo b (item ∷ r) v,
          ))
  ]

  before-append-from : (m : List T) → before d start m ++ from d start m ≡ m
  unfolding before from
  before-append-from [] = refl
  before-append-from (t ∷ m) = ground (arith, before-append-from m)

  view-before : (a : ℕ) (m : List T) → start ≤ a → view d value (before d start m) a ≡ none
  unfolding before
  view-before a [] h = refl
  view-before a (t ∷ m) h = ground (arith, view-before a m h)

  -- Modify keeps the intervals disjoint, not empty and in order, for a range that is not empty.
  pub modify-Valid :
      (lo : ℕ) (m : List T) → Valid d lo m → Valid d lo (modify d start end check change m)
  unfolding modify
  modify-Valid lo m v =
      loop-Valid lo (before d start m) (from d start m) (rw (before-append-from m) v)
        (FirstEnds-from m)

  -- After Modify the addresses of the range have their changed attributes and every other address
  -- the one that it had, for a range that is not empty.
  pub view-modify :
      (lo a : ℕ) (m : List T)
      → Valid d lo m
      → view d value (modify d start end check change m) a
        ≡ changed start end change_value a (view d value m a)
  unfolding modify
  view-modify lo a m v =
      let split : view d value (before d start m ++ from d start m) a ≡ view d value m a =
        ap (λ (l : List T). view d value l a) (before-append-from m) in
      rw
        (
          view-loop lo a (before d start m) (from d start m) (rw (before-append-from m) v)
              (FirstEnds-from m),
          ← split,
          view-append d value (before d start m) (from d start m) a,
        )
        (ground (arith, view-before a m))
