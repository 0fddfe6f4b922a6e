-- ===== src/IntervalSet/Modify.antt =====
-- One round of Modify: splitting, changing and merging an item of the range.
pub mod Loop
use junction.Prelude.{
  ℕ, ◌≤◌, ◌<◌, ◌≡◌, ◌≢◌, ◌↔◌, refl, ltb, leb, ◌&&◌, if◌then◌else◌, List, [], ◌∷◌, ◌++◌, Option,
  none, some, arith, append-nil, append_assoc, Bool, Bool-cases, Option-cases, inl, inr, sym, ◌∙◌,
  ap, true, false, max,
}
use mathlib.Core.Option
use junction.IntervalSet.{
  IntervalData, merge_prev, map_insert, modify_item, modify_from, modify, before, from,
}
use junction.IntervalSet.Valid.{
  IntervalLaws, Valid, Valid-append, last_end, last_end-append, le-last_end, view, Valid-mono,
  view_below, view_behind, view-append, view-append_cong, map_insert_last, Valid-prefix,
  Valid-suffix,
}
use junction.IntervalSet.Insert.{merge_prev-Valid, view-merge_prev}

-- What Modify relies on in its two arguments: a change of an item changes the attributes of its
-- addresses by `change_value` and not its ends, and an item that is skipped has nothing to change.
pub record ChangeLaws {T V : Type 0} (d : IntervalData T) (value : T → ℕ → V) (check : T → Bool)
    (change : T → T) (change_value : V → V) : Type 0 where
  pub start-change : (t : T) → d.get_start (change t) ≡ d.get_start t
  pub end-change : (t : T) → d.get_end (change t) ≡ d.get_end t
  pub value-change : (t : T) (a : ℕ) → value (change t) a ≡ change_value (value t a)
  pub skipped : (t : T) (a : ℕ) → check t ≡ false → change_value (value t a) ≡ value t a

-- The attribute of an address after a change of [start, end).
abbrev pub changed : {V : Type 0} → ℕ → ℕ → (V → V) → ℕ → Option V → Option V
changed start end f a o = if leb start a && ltb a end then Option.map f o else o

module _ {T V : Type 0} (d : IntervalData T) {value : T → ℕ → V} (laws : IntervalLaws d value) where
  open d use {get_start, get_end, try_merge_right, trim_tail, trim_head}

  -- No merge across a gap.
  merge_prev_apart :
      (lo : ℕ) (b : List T) (x : T)
      → Valid d lo b
      → last_end d lo b < get_start x
      → merge_prev d b x ≡ (b, x)
  unfolding merge_prev
  merge_prev_apart lo [] x v h = refl
  merge_prev_apart lo (p ∷ []) x v h = elim (Option-cases (try_merge_right x p)) [
    | inl e ↦ ground arith
    | inr (y, e) ↦ absurd (omega (arith, laws.merge_adjacent x p y e))
  ]
  merge_prev_apart lo (p ∷ q ∷ b) x v h =
      ground (arith, merge_prev_apart (get_end p) (q ∷ b) x v.2 h)

  module _ (start end : ℕ) {check : T → Bool} {change : T → T} {change_value : V → V}
      (c : ChangeLaws d value check change change_value) (nonempty : start < end) where
    abbrev pub tail_piece : T → List T
    tail_piece body = if ltb end (get_end body) then trim_head body end ∷ [] else []

    abbrev pub body_piece : T → T
    body_piece body = if ltb end (get_end body) then change (trim_tail body end) else change body

    -- What becomes of an item in the range, before it merges.
    abbrev pub pieces : T → List T
    pieces item =
        if ltb (get_start item) start
        then trim_tail item start
          ∷ body_piece (trim_head item start)
          ∷ tail_piece (trim_head item start)
        else body_piece item ∷ tail_piece item

    pub body-Valid :
        (lo : ℕ) (x : T) (r : List T)
        → Valid d lo (x ∷ r)
        → get_start x < end
        → Valid d lo (body_piece x ∷ tail_piece x ++ r)
    body-Valid lo x r v he = ground (
      arith,
      laws.start-trim_tail x end,
      laws.end-trim_tail x end,
      laws.start-trim_head x end,
      laws.end-trim_head x end,
      c.start-change x,
      c.end-change x,
      c.start-change (trim_tail x end),
      c.end-change (trim_tail x end),
    )

    view-body :
        (lo a : ℕ) (x : T)
        → Valid d lo (x ∷ [])
        → start ≤ get_start x
        → get_start x < end
        → view d value (body_piece x ∷ tail_piece x) a
          ≡ changed start end change_value a (view d value (x ∷ []) a)
    view-body lo a x v hs he = ground (
      arith,
      laws.start-trim_tail x end,
      laws.end-trim_tail x end,
      laws.start-trim_head x end,
      laws.end-trim_head x end,
      laws.value-trim_tail x end a,
      laws.value-trim_head x end a,
      c.start-change x,
      c.end-change x,
      c.value-change x a,
      c.start-change (trim_tail x end),
      c.end-change (trim_tail x end),
      c.value-change (trim_tail x end) a,
    )

    trimmed-Valid :
        (lo : ℕ) (item : T) (r : List T)
        → Valid d lo (item ∷ r)
        → start < get_end item
        → Valid d start (trim_head item start ∷ r)
    trimmed-Valid lo item r v hs =
        ground (arith, laws.start-trim_head item start, laws.end-trim_head item start)

    pub pieces-Valid :
        (lo : ℕ) (item : T) (r : List T)
        → Valid d lo (item ∷ r)
        → start < get_end item
        → get_start item < end
        → Valid d lo (pieces item ++ r)
    pieces-Valid lo item r v hs he = elim (Bool-cases (ltb (get_start item) start)) [
      | inl across ↦
          let x = trim_head item start in
          let w : Valid d start (body_piece x ∷ tail_piece x ++ r) =
            body-Valid start x r (trimmed-Valid lo item r v hs)
              (omega (arith, laws.start-trim_head item start)) in
          ground (arith, w, laws.start-trim_tail item start, laws.end-trim_tail item start)
      | inr inside ↦
          let w : Valid d lo (body_piece item ∷ tail_piece item ++ r) = body-Valid lo item r v he in
          ground (arith, w)
    ]

    pub view-pieces :
        (lo a : ℕ) (item : T)
        → Valid d lo (item ∷ [])
        → start < get_end item
        → get_start item < end
        → view d value (pieces item) a
          ≡ changed start end change_value a (view d value (item ∷ []) a)
    view-pieces lo a item v hs he = elim (Bool-cases (ltb (get_start item) start)) [
      | inl across ↦
          let x = trim_head item start in
          let w : view d value (body_piece x ∷ tail_piece x) a
              ≡ changed start end change_value a (view d value (x ∷ []) a) =
            view-body start a x (trimmed-Valid lo item [] v hs)
              (omega (arith, laws.start-trim_head item start))
              (omega (arith, laws.start-trim_head item start)) in
          ground (
            arith,
            w,
            laws.start-trim_head item start,
            laws.end-trim_head item start,
            laws.value-trim_head item start a,
            laws.start-trim_tail item start,
            laws.end-trim_tail item start,
            laws.value-trim_tail item start a,
          )
      | inr inside ↦ ground (arith, view-body lo a item v)
    ]

    -- A valid list whose last item is inserted by its key.
    map_insert-Valid :
        (lo : ℕ) (b : List T) (y : T) → Valid d lo (b ++ y ∷ []) → map_insert d y b ≡ b ++ y ∷ []
    map_insert-Valid lo b y v =
        map_insert_last d lo y b (Valid-prefix d lo b (y ∷ []) v)
          (omega (arith, Valid-suffix d lo b (y ∷ []) v))

    pub body_placed :
        (lo : ℕ) (b : List T) (item : T)
        → Valid d lo (b ++ item ∷ [])
        → get_start item < end
        → Valid d lo (b ++ body_piece item ∷ [])
    body_placed lo b item v he =
        let w : Valid d (last_end d lo b) (body_piece item ∷ tail_piece item ++ []) =
          body-Valid (last_end d lo b) item [] (Valid-suffix d lo b (item ∷ []) v) he in
        Valid-append d lo b (body_piece item ∷ []) (Valid-prefix d lo b (item ∷ []) v)
          (w.0, w.1, tt)

    -- An item that does not reach below `start` is cut at `end`, changed and merged.
    pub modify_item_inside :
        (lo : ℕ) (b : List T) (item : T)
        → Valid d lo (b ++ item ∷ [])
        → get_start item < end
        → check item ≡ true
        → start ≤ get_start item
        → modify_item d start end check change b item
          ≡ (let (b', y) = merge_prev d b (body_piece item) in b' ++ y ∷ tail_piece item)
    unfolding modify_item
    modify_item_inside lo b item v he h hs =
        let (b', y) = merge_prev d b (body_piece item) in
        let w : Valid d lo (b' ++ y ∷ []) =
          merge_prev-Valid d laws lo b (body_piece item) [] (body_placed lo b item v he) in
        ground (
          arith,
          map_insert-Valid lo b' y w,
          append-nil b',
          append_assoc b' (y ∷ []) (trim_head item end ∷ []),
        )

    start-body : (x : T) → get_start (body_piece x) ≡ get_start x
    start-body x =
        ground
          (arith, c.start-change x, c.start-change (trim_tail x end), laws.start-trim_tail x end)

    -- The left part and the changed body of such an item, behind `b`.
    split_placed :
        (lo : ℕ) (b : List T) (item : T)
        → Valid d lo (b ++ item ∷ [])
        → start < get_end item
        → get_start item < start
        → Valid d lo ((b ++ trim_tail item start ∷ []) ++ body_piece (trim_head item start) ∷ [])
    split_placed lo b item v he hs =
        let w : Valid d (last_end d lo b) (pieces item ++ []) =
          pieces-Valid (last_end d lo b) item [] (Valid-suffix d lo b (item ∷ []) v) he
            (omega arith) in
        rw (append_assoc b (trim_tail item start ∷ []) (body_piece (trim_head item start) ∷ [])) (
          Valid-append d lo b (trim_tail item start ∷ body_piece (trim_head item start) ∷ [])
            (Valid-prefix d lo b (item ∷ []) v) (ground (arith, w)))

    -- An item that does is split at `start` first, and then merges with nothing before it.
    pub modify_item_across :
        (lo : ℕ) (b : List T) (item : T)
        → Valid d lo (b ++ item ∷ [])
        → start < get_end item
        → check item ≡ true
        → get_start item < start
        → modify_item d start end check change b item ≡ b ++ pieces item
    unfolding modify_item
    modify_item_across lo b item v he h hs =
        let left = trim_tail item start in
        let x = trim_head item start in
        let apart : merge_prev d b (body_piece x) ≡ (b, body_piece x) =
          merge_prev_apart lo b (body_piece x) (Valid-prefix d lo b (item ∷ []) v) (
            omega (
              arith,
              Valid-suffix d lo b (item ∷ []) v,
              start-body x,
              laws.start-trim_head item start,
            )) in
        let placed : map_insert d (body_piece x) (b ++ left ∷ [])
            ≡ (b ++ left ∷ []) ++ body_piece x ∷ [] =
          map_insert-Valid lo (b ++ left ∷ []) (body_piece x) (split_placed lo b item v he hs) in
        ground (
          arith,
          apart,
          placed,
          append_assoc b (left ∷ []) (body_piece x ∷ []),
          append_assoc b (left ∷ body_piece x ∷ []) (trim_head x end ∷ []),
        )
