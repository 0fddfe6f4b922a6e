-- ===== src/IntervalSet/Valid.antt =====
-- The maps of disjoint, non-empty intervals, and the partial function from addresses that they
-- stand for: the view through which the methods of ExclusiveIntervalSet are specified.
use junction.Prelude.{
  ℕ, ◌≤◌, ◌<◌, ◌≡◌, refl, ltb, leb, ◌&&◌, if◌then◌else◌, List, [], ◌∷◌, ◌++◌, Option, none, some,
  arith, append-nil,
}
use junction.IntervalSet.{IntervalData, emplace, below, at_least, put, map_insert}

-- What the class relies on in an item type: `value t a` is the attribute that the item `t` gives to
-- the address `a` inside it. Trimming changes one end, and only adjacent items merge.
pub record IntervalLaws {T V : Type 0} (d : IntervalData T) (value : T → ℕ → V) : Type 0 where
  pub start-trim_tail : (t : T) (e : ℕ) → d.get_start (d.trim_tail t e) ≡ d.get_start t
  pub end-trim_tail : (t : T) (e : ℕ) → d.get_end (d.trim_tail t e) ≡ e
  pub start-trim_head : (t : T) (s : ℕ) → d.get_start (d.trim_head t s) ≡ s
  pub end-trim_head : (t : T) (s : ℕ) → d.get_end (d.trim_head t s) ≡ d.get_end t
  pub value-trim_tail : (t : T) (e a : ℕ) → value (d.trim_tail t e) a ≡ value t a
  pub value-trim_head :
      (t : T) (s a : ℕ) → d.get_start t ≤ s → s ≤ a → value (d.trim_head t s) a ≡ value t a
  pub end-merge : (r l m : T) → d.try_merge_right r l ≡ some m → d.get_end m ≡ d.get_end r
  pub start-merge : (r l m : T) → d.try_merge_right r l ≡ some m → d.get_start m ≡ d.get_start l
  pub merge_adjacent : (r l m : T) → d.try_merge_right r l ≡ some m → d.get_end l ≡ d.get_start r
  pub value-merge_left :
      (r l m : T) (a : ℕ)
      → d.try_merge_right r l ≡ some m
      → d.get_start l ≤ a
      → a < d.get_end l
      → value m a ≡ value l a
  pub value-merge_right :
      (r l m : T) (a : ℕ)
      → d.try_merge_right r l ≡ some m
      → d.get_start l < d.get_end l
      → d.get_start r ≤ a
      → a < d.get_end r
      → value m a ≡ value r a

module _ {T : Type 0} (d : IntervalData T) where
  open d use {get_start, get_end}

  -- The items from `lo` on, disjoint, not empty, in the order of their addresses.
  abbrev pub Valid : ℕ → List T → Type 0
  Valid lo [] = Unit {0}
  Valid lo (t ∷ m) = (lo ≤ get_start t) × (get_start t < get_end t) × Valid (get_end t) m

  -- Where the last item ends.
  abbrev pub last_end : ℕ → List T → ℕ
  last_end lo [] = lo
  last_end lo (t ∷ m) = last_end (get_end t) m

  pub Valid-mono : (lo lo' : ℕ) (m : List T) → lo' ≤ lo → Valid lo m → Valid lo' m
  Valid-mono lo lo' [] h v = tt
  Valid-mono lo lo' (t ∷ m) h v = (omega arith, v.1, v.2)

  pub Valid-append :
      (lo : ℕ) (b r : List T) → Valid lo b → Valid (last_end lo b) r → Valid lo (b ++ r)
  Valid-append lo [] r vb vr = vr
  Valid-append lo (t ∷ b) r vb vr = (vb.0, vb.1, Valid-append (get_end t) b r vb.2 vr)

  pub Valid-prefix : (lo : ℕ) (b r : List T) → Valid lo (b ++ r) → Valid lo b
  Valid-prefix lo [] r v = tt
  Valid-prefix lo (t ∷ b) r v = (v.0, v.1, Valid-prefix (get_end t) b r v.2)

  pub Valid-suffix : (lo : ℕ) (b r : List T) → Valid lo (b ++ r) → Valid (last_end lo b) r
  Valid-suffix lo [] r v = v
  Valid-suffix lo (t ∷ b) r v = Valid-suffix (get_end t) b r v.2

  pub last_end-append : (lo : ℕ) (b r : List T) → last_end lo (b ++ r) ≡ last_end (last_end lo b) r
  last_end-append lo [] r = refl
  last_end-append lo (t ∷ b) r = last_end-append (get_end t) b r

  pub le-last_end : (lo : ℕ) (b : List T) → Valid lo b → lo ≤ last_end lo b
  le-last_end lo [] v = omega arith
  le-last_end lo (t ∷ b) v = omega (arith, le-last_end (get_end t) b v.2)

  -- Where the key goes behind `b` and before `r`, so does the item.
  below-append :
      (lo k : ℕ) (b r : List T)
      → Valid lo b
      → last_end lo b < k
      → below d k (b ++ r) ≡ b ++ below d k r
  unfolding below
  below-append lo k [] r v h = refl
  below-append lo k (t ∷ b) r v h =
      ground (arith, below-append (get_end t) k b r v.2, le-last_end (get_end t) b v.2)

  at_least-append :
      (lo k : ℕ) (b r : List T)
      → Valid lo b
      → last_end lo b < k
      → at_least d k (b ++ r) ≡ at_least d k r
  unfolding at_least
  at_least-append lo k [] r v h = refl
  at_least-append lo k (t ∷ b) r v h =
      ground (arith, at_least-append (get_end t) k b r v.2, le-last_end (get_end t) b v.2)

  below_front : (k lo : ℕ) (r : List T) → k ≤ lo → Valid lo r → below d k r ≡ []
  unfolding below
  below_front k lo [] h v = refl
  below_front k lo (t ∷ r) h v = ground arith

  put-at_least :
      (x : T) (lo : ℕ) (r : List T)
      → get_end x ≤ lo
      → Valid lo r
      → put d x (at_least d (get_end x) r) ≡ x ∷ r
  unfolding put at_least
  put-at_least x lo [] h v = refl
  put-at_least x lo (t ∷ r) h v = ground arith

  pub emplace_between :
      (lo hi : ℕ) (x : T) (b r : List T)
      → Valid lo b
      → last_end lo b < get_end x
      → get_end x ≤ hi
      → Valid hi r
      → emplace d x (b ++ r) ≡ (b, x ∷ r)
  unfolding emplace
  emplace_between lo hi x b r vb h h' vr = rw (
    below-append lo (get_end x) b r vb h,
    at_least-append lo (get_end x) b r vb h,
    put-at_least x hi r h' vr,
    below_front (get_end x) hi r h' vr,
    append-nil b,
  )

  pub map_insert_last :
      (lo : ℕ) (x : T) (b : List T)
      → Valid lo b
      → last_end lo b < get_end x
      → map_insert d x b ≡ b ++ x ∷ []
  unfolding map_insert
  map_insert_last lo x b vb h =
      let split : emplace d x (b ++ []) ≡ (b, x ∷ []) =
        emplace_between lo (get_end x) x b [] vb h (omega arith) tt in
      rw (rw (append-nil b) at split)

module _ {T V : Type 0} (d : IntervalData T) (value : T → ℕ → V) where
  open d use {get_start, get_end}

  -- The attribute of an address, if an interval holds it.
  abbrev pub view : List T → ℕ → Option V
  view [] a = none
  view (t ∷ m) a = if leb (get_start t) a && ltb a (get_end t) then some (value t a) else view m a

  pub view-append_none : (b r : List T) (a : ℕ) → view b a ≡ none → view (b ++ r) a ≡ view r a
  view-append_none [] r a h = refl
  view-append_none (t ∷ b) r a h = ground (arith, view-append_none b r a)

  pub view-append :
      (b r : List T) (a : ℕ)
      → view (b ++ r) a ≡ elim (view b a) [ none ↦ view r a | some v ↦ some v ]
  view-append [] r a = refl
  view-append (t ∷ b) r a = ground (arith, view-append b r a)

  pub view-append_cong :
      (b r r' : List T) (a : ℕ) → view r a ≡ view r' a → view (b ++ r) a ≡ view (b ++ r') a
  view-append_cong [] r r' a h = h
  view-append_cong (t ∷ b) r r' a h = ground (arith, view-append_cong b r r' a h)

  -- No interval holds an address below the first or behind the last.
  pub view_below : (lo a : ℕ) (m : List T) → Valid d lo m → a < lo → view m a ≡ none
  view_below lo a [] v h = refl
  view_below lo a (t ∷ m) v h = ground (arith, view_below (get_end t) a m v.2)

  pub view_behind : (lo a : ℕ) (m : List T) → Valid d lo m → last_end d lo m ≤ a → view m a ≡ none
  view_behind lo a [] v h = refl
  view_behind lo a (t ∷ m) v h =
      ground (arith, view_behind (get_end t) a m v.2, le-last_end d (get_end t) m v.2)
