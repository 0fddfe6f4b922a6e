-- ===== src/IntervalSet.antt =====
-- base/interval_set.h: a set of disjoint intervals kept in a std::map by their ends.
pub mod Valid
pub mod Clear
pub mod Spec
pub mod Insert
pub mod Modify
pub mod FreeRange
pub mod Simple
mod Tests
use junction.Prelude.{
  ℕ, Bool, true, false, ◌&&◌, ltb, leb, ◌==◌, if◌then◌else◌, List, [], ◌∷◌, ◌++◌, Option, none,
  some,
}

-- The concept IntervalData. TrimTail and TrimHead return the new item, and `try_merge_right rhs lhs`
-- is the merged `rhs`, or `none` where the method returns false and leaves `rhs` as it was.
pub record IntervalData (T : Type 0) : Type 0 where
  pub get_start : T → ℕ
  pub get_end : T → ℕ
  pub trim_tail : T → ℕ → T
  pub trim_head : T → ℕ → T
  pub try_merge_right : T → T → Option T

-- The map is the list of its items in the order of the keys. The key of an item is its end: that is
-- what each insertion of the class passes, and no method changes the end of an item in place.
-- An iterator is the pair of the items before it and the items from it on.
module _ {T : Type 0} (d : IntervalData T) where
  open d use {get_start, get_end, trim_tail, trim_head, try_merge_right}

  -- std::map::upper_bound: `from k` starts at the first item with a key above `k`.
  unfoldable pub before : ℕ → List T → List T
  before k [] = []
  before k (t ∷ m) = let rest = before k m in if ltb k (get_end t) then [] else t ∷ rest

  unfoldable pub from : ℕ → List T → List T
  from k [] = []
  from k (t ∷ m) = if ltb k (get_end t) then t ∷ m else from k m

  -- std::map::lower_bound
  unfoldable pub below : ℕ → List T → List T
  below k [] = []
  below k (t ∷ m) = let rest = below k m in if leb k (get_end t) then [] else t ∷ rest

  unfoldable pub at_least : ℕ → List T → List T
  at_least k [] = []
  at_least k (t ∷ m) = if leb k (get_end t) then t ∷ m else at_least k m

  -- std::map::insert: an item whose key is taken is not inserted. The hint changes no result.
  unfoldable pub put : T → List T → List T
  put x [] = x ∷ []
  put x (t ∷ m) = if get_end t == get_end x then t ∷ m else x ∷ t ∷ m

  unfoldable pub emplace : T → List T → List T × List T
  emplace x m = (below (get_end x) m, put x (at_least (get_end x) m))

  unfoldable pub map_insert : T → List T → List T
  map_insert x m = let (b, r) = emplace x m in b ++ r

  -- The loop of Clear, with the iterator between `b` and the last argument.
  unfoldable pub clear_from : ℕ → ℕ → List T → List T → List T × List T
  clear_from start end b [] = (b, [])
  clear_from start end b (item ∷ r) =
      let b' = if ltb (get_start item) start then map_insert (trim_tail item start) b else b in
      let erased = clear_from start end b' r in
      let trimmed = clear_from start end (b' ++ trim_head item end ∷ []) r in
      if ltb (get_start item) end
      then if leb (get_end item) end then erased else trimmed
      else (b, item ∷ r)

  unfoldable pub clear : ℕ → ℕ → List T → List T × List T
  clear start end m = clear_from start end (before start m) (from start m)

  abbrev pub cleared : ℕ → ℕ → List T → List T
  cleared start end m = let (b, r) = clear start end m in b ++ r

  unfoldable pub has_overlap : ℕ → ℕ → List T → Bool
  has_overlap start end m = elim (from start m) [ [] ↦ false | item ∷ _ ↦ ltb (get_start item) end ]

  -- Find and UpperBound; `none` is ENOENT.
  unfoldable pub find : ℕ → List T → Option T
  find start m = elim (from start m) [
    | [] ↦ none
    | item ∷ _ ↦ if ltb start (get_start item) then none else some item
  ]

  unfoldable pub upper_bound : ℕ → List T → Option T
  upper_bound start m = elim (from start m) [ [] ↦ none | item ∷ _ ↦ some item ]

  -- The private TryMergeRight(std::prev(it), *it): the item before is absorbed and erased.
  unfoldable pub merge_prev : List T → T → List T × T
  merge_prev [] x = ([], x)
  merge_prev (p ∷ []) x = elim (try_merge_right x p) [ none ↦ (p ∷ [], x) | some y ↦ ([], y) ]
  merge_prev (p ∷ q ∷ b) x = let (b', y) = merge_prev (q ∷ b) x in (p ∷ b', y)

  -- TryMergeRight(it, *std::next(it)) for the item `x` of the iterator.
  unfoldable pub merge_next : T → List T → List T
  merge_next x [] = x ∷ []
  merge_next x (n ∷ r) = elim (try_merge_right n x) [ none ↦ x ∷ n ∷ r | some y ↦ y ∷ r ]

  unfoldable pub merge_around : List T → List T → List T
  merge_around b [] = b
  merge_around b (x ∷ r) = let (b', y) = merge_prev b x in b' ++ merge_next y r

  unfoldable pub insert : T → List T → List T
  insert item m =
      let (b, f) = emplace item (cleared (get_start item) (get_end item) m) in merge_around b f

  -- One round of Modify at an item, with `b` before it: the list that then stands before the
  -- iterator. `prev_it` is the last of `b` in every merge, also once a left part is split off.
  unfoldable pub modify_item : ℕ → ℕ → (T → Bool) → (T → T) → List T → T → List T
  modify_item start end check change b item =
      if check item
      then (let head = if ltb (get_start item) start then trim_tail item start ∷ [] else [] in
          let body = if ltb (get_start item) start then trim_head item start else item in
          if ltb end (get_end body)
          then (let (b', y) = merge_prev b (change (trim_tail body end)) in
              map_insert y (b' ++ head) ++ trim_head body end ∷ [])
          else (let (b', y) = merge_prev b (change body) in b' ++ head ++ y ∷ []))
      else (let (b', y) = merge_prev b item in b' ++ y ∷ [])

  -- The loop, and the last merge, of the first item behind the range.
  unfoldable pub modify_from : ℕ → ℕ → (T → Bool) → (T → T) → List T → List T → List T
  modify_from start end check change b [] = b
  modify_from start end check change b (item ∷ r) =
      let rest = modify_from start end check change (modify_item start end check change b item) r in
      if ltb (get_start item) end then rest else (let (b', y) = merge_prev b item in b' ++ y ∷ r)

  unfoldable pub modify : ℕ → ℕ → (T → Bool) → (T → T) → List T → List T
  modify start end check change m =
      modify_from start end check change (before start m) (from start m)
