-- ===== src/IntervalSet/Clear.antt =====
-- ExclusiveIntervalSet::Clear against the plain description of what it keeps.
use junction.Prelude.{
  ℕ, ◌≤◌, ◌<◌, ◌≡◌, refl, ltb, leb, if◌then◌else◌, List, [], ◌∷◌, ◌++◌, none, arith, append-nil,
  append_assoc, Bool-cases, inl, inr, max,
}
use junction.IntervalSet.{IntervalData, clear_from, clear, cleared, before, from}
use junction.IntervalSet.Valid.{
  IntervalLaws, Valid, Valid-append, last_end, last_end-append, map_insert_last, view, Valid-mono,
  view_below,
}

module _ {T : Type 0} (d : IntervalData T) where
  open d use {get_start, get_end, trim_tail, trim_head}

  -- The part of a map below `s`, and the part from `e` on.
  abbrev pub left_of : ℕ → List T → List T
  left_of s [] = []
  left_of s (t ∷ m) =
      if leb (get_end t) s
      then t ∷ left_of s m
      else if ltb (get_start t) s
      then trim_tail t s ∷ []
      else []

  abbrev pub right_of : ℕ → List T → List T
  right_of e [] = []
  right_of e (t ∷ m) =
      if leb (get_end t) e
      then right_of e m
      else if ltb (get_start t) e
      then trim_head t e ∷ m
      else t ∷ m

module _ {T V : Type 0} (d : IntervalData T) {value : T → ℕ → V} (laws : IntervalLaws d value) where
  open d use {get_start, get_end, trim_tail, trim_head}

  clear_from_stops :
      (s e lo : ℕ) (b r : List T) → Valid d lo r → e ≤ lo → clear_from d s e b r ≡ (b, r)
  unfolding clear_from
  clear_from_stops s e lo b [] v h = refl
  clear_from_stops s e lo b (t ∷ r) v h = ground arith

  -- Behind `s` the loop only erases and trims heads.
  clear_from_right :
      (s e lo : ℕ) (b r : List T)
      → Valid d lo r
      → s ≤ lo
      → let (b', r') = clear_from d s e b r in b' ++ r' ≡ b ++ right_of d e r
  unfolding clear_from
  clear_from_right s e lo b [] v h = refl
  clear_from_right s e lo b (t ∷ r) v h = ground (
    arith,
    clear_from_right s e (get_end t) b r v.2,
    clear_from_stops s e (get_end t) (b ++ trim_head t e ∷ []) r v.2,
    append_assoc b (trim_head t e ∷ []) r,
  )

  clear_from_first :
      (s e lo : ℕ) (b : List T) (t : T) (r : List T)
      → Valid d 0 b
      → last_end d 0 b ≤ get_start t
      → Valid d lo (t ∷ r)
      → s ≤ e
      → s < get_end t
      → let (b', r') = clear_from d s e b (t ∷ r) in
        b' ++ r' ≡ b ++ (left_of d s (t ∷ r) ++ right_of d e (t ∷ r))
  unfolding clear_from
  clear_from_first s e lo b t r vb hb v h f = ground (
    arith,
    laws.end-trim_tail t s,
    map_insert_last d 0 (trim_tail t s) b vb,
    clear_from_right s e (get_end t) b r v.2,
    clear_from_right s e (get_end t) (b ++ trim_tail t s ∷ []) r v.2,
    clear_from_stops s e (get_end t) (b ++ trim_head t e ∷ []) r v.2,
    clear_from_stops s e (get_end t) (b ++ trim_tail t s ∷ [] ++ trim_head t e ∷ []) r v.2,
    append_assoc b (trim_head t e ∷ []) r,
    append_assoc b (trim_tail t s ∷ []) (right_of d e r),
    append_assoc (b ++ trim_tail t s ∷ []) (trim_head t e ∷ []) r,
    append_assoc b (trim_tail t s ∷ []) (trim_head t e ∷ r),
  )

  clear_from_split :
      (s e lo : ℕ) (b m : List T)
      → Valid d 0 b
      → last_end d 0 b ≤ lo
      → Valid d lo m
      → s ≤ e
      → let (b', r') = clear_from d s e (b ++ before d s m) (from d s m) in
        b' ++ r' ≡ b ++ (left_of d s m ++ right_of d e m)
  unfolding before from
  clear_from_split s e lo b [] vb hb v h =
      ground (arith, clear_from_stops s e e (b ++ []) [] tt (omega arith), append-nil b)
  clear_from_split s e lo b (t ∷ m) vb hb v h = elim (Bool-cases (ltb s (get_end t))) [
    | inl inside ↦ ground (arith, clear_from_first s e lo b t m vb, append-nil b)
    | inr passed ↦ ground (
      arith,
      clear_from_split s e (get_end t) (b ++ t ∷ []) m
          (Valid-append d 0 b (t ∷ []) vb (omega arith, v.1, tt))
          (omega (arith, last_end-append d 0 b (t ∷ []))) v.2 h,
      append_assoc b (t ∷ []) (before d s m),
      append_assoc b (t ∷ []) (left_of d s m ++ right_of d e m),
    )
  ]

  -- Clear keeps what lies below `start` and from `end` on, and trims the two items across them.
  pub cleared-eq :
      (s e lo : ℕ) (m : List T)
      → Valid d lo m
      → s ≤ e
      → cleared d s e m ≡ left_of d s m ++ right_of d e m
  unfolding clear
  cleared-eq s e lo m v h =
      clear_from_split s e 0 [] m tt (omega arith) (Valid-mono d lo 0 m (omega arith) v) h

  pub left_of-Valid : (s lo : ℕ) (m : List T) → Valid d lo m → Valid d lo (left_of d s m)
  left_of-Valid s lo [] v = tt
  left_of-Valid s lo (t ∷ m) v =
      ground
        (arith, left_of-Valid s (get_end t) m v.2, laws.end-trim_tail t s, laws.start-trim_tail t s)

  pub last_end-left_of :
      (s lo : ℕ) (m : List T) → Valid d lo m → last_end d lo (left_of d s m) ≤ max lo s
  last_end-left_of s lo [] v = omega arith
  last_end-left_of s lo (t ∷ m) v =
      ground (arith, last_end-left_of s (get_end t) m v.2, laws.end-trim_tail t s)

  pub right_of-Valid : (e lo : ℕ) (m : List T) → Valid d lo m → Valid d (max lo e) (right_of d e m)
  right_of-Valid e lo [] v = tt
  right_of-Valid e lo (t ∷ m) v = ground (
    arith,
    Valid-mono d (max (get_end t) e) (max lo e) (right_of d e m),
    right_of-Valid e (get_end t) m v.2,
    laws.end-trim_head t e,
    laws.start-trim_head t e,
  )

  pub view-left_of :
      (s lo a : ℕ) (m : List T)
      → Valid d lo m
      → view d value (left_of d s m) a ≡ (if ltb a s then view d value m a else none)
  view-left_of s lo a [] v = ground arith
  view-left_of s lo a (t ∷ m) v = ground (
    arith,
    view-left_of s (get_end t) a m v.2,
    view_below d value (get_end t) a m v.2,
    laws.end-trim_tail t s,
    laws.start-trim_tail t s,
    laws.value-trim_tail t s a,
  )

  pub view-right_of :
      (e lo a : ℕ) (m : List T)
      → Valid d lo m
      → view d value (right_of d e m) a ≡ (if ltb a e then none else view d value m a)
  view-right_of e lo a [] v = ground arith
  view-right_of e lo a (t ∷ m) v = ground (
    arith,
    view-right_of e (get_end t) a m v.2,
    view_below d value (get_end t) a m v.2,
    laws.end-trim_head t e,
    laws.start-trim_head t e,
    laws.value-trim_head t e a,
  )
