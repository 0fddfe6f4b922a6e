-- ===== src/Poll/Select/Sets.antt =====
-- The descriptor sets that select() leaves.
use junction.Prelude.{
  ℕ, zero, suc, ◌≡◌, ◌≤◌, ◌<◌, ◌+◌, refl, ap, ap₂, ◌∙◌, Bool, true, false, ◌&&◌, ◌||◌, not, ◌==◌,
  if◌then◌else◌, ltb, leb, List, [], ◌∷◌, arith, Bool-cases, inl, inr, Option, none, some,
}
use junction.Poll.{Mask, any_below}
use junction.Poll.Select.{
  FdSet, FdSets, SelectFd, select_in, select_out, select_except, fd_isset, fd_clr, select_events,
  decode_loop, covers, meets, encodes, selected,
}

-- The three sets.
pub data Kind : Type 0 where
  reading writing excepting : Kind

abbrev pub pick : Kind → FdSets → Option FdSet
pick reading sets = sets.readfds
pick writing sets = sets.writefds
pick excepting sets = sets.exceptfds

abbrev pub mask_of : Kind → Mask
mask_of reading = select_in
mask_of writing = select_out
mask_of excepting = select_except

abbrev pub is_in : Kind → ℕ → FdSets → Bool
is_in k j sets = fd_isset j (pick k sets)

-- The entry of a descriptor.
abbrev pub entry : ℕ → FdSets → SelectFd
entry i sets = record {
  fd = i;
  events = select_events (is_in reading i sets) (is_in writing i sets) (is_in excepting i sets);
  revents = λ k. false;
}

abbrev pub in_any : ℕ → FdSets → Bool
in_any i sets = is_in reading i sets || is_in writing i sets || is_in excepting i sets

-- The entries of the descriptors from `i` on.
abbrev pub wanted : ℕ → ℕ → FdSets → List SelectFd
wanted zero i sets = []
wanted (suc n) i sets =
    let rest = wanted n (suc i) sets in if in_any i sets then entry i sets ∷ rest else rest

abbrev pub cleared : ℕ → FdSets → FdSets
cleared i sets = record {
  readfds = if is_in reading i sets then fd_clr i sets.readfds else sets.readfds;
  writefds = if is_in writing i sets then fd_clr i sets.writefds else sets.writefds;
  exceptfds = if is_in excepting i sets then fd_clr i sets.exceptfds else sets.exceptfds;
}

clr_isset :
    (i j : ℕ) (fds : Option FdSet)
    → fd_isset j (if fd_isset i fds then fd_clr i fds else fds) ≡ (not (j == i) && fd_isset j fds)
clr_isset i j none = ground arith
clr_isset i j (some f) = ground arith

cleared_isset :
    (k : Kind) (i j : ℕ) (sets : FdSets)
    → is_in k j (cleared i sets) ≡ (not (j == i) && is_in k j sets)
cleared_isset reading i j sets = clr_isset i j sets.readfds
cleared_isset writing i j sets = clr_isset i j sets.writefds
cleared_isset excepting i j sets = clr_isset i j sets.exceptfds

wanted_cong :
    (n i : ℕ) (s t : FdSets)
    → ((k : Kind) (j : ℕ) → i ≤ j → is_in k j s ≡ is_in k j t)
    → wanted n i s ≡ wanted n i t
wanted_cong zero i s t h = refl
wanted_cong (suc n) i s t h =
    let r = h reading i (omega arith) in
    let w = h writing i (omega arith) in
    let x = h excepting i (omega arith) in
    let rest = wanted_cong n (suc i) s t (λ k j l. h k j (omega arith)) in
    λ a.
      let e : SelectFd = record {
        fd = i;
        events = select_events (r a) (w a) (x a);
        revents = λ k. false;
      } in
      if r a || w a || x a then e ∷ rest a else rest a

pub decode_loop_lem : (n i : ℕ) (sets : FdSets) → (decode_loop n i sets).0 ≡ wanted n i sets
unfolding decode_loop
decode_loop_lem zero i sets = refl
decode_loop_lem (suc n) i sets =
    ap (λ (rest : List SelectFd). if in_any i sets then entry i sets ∷ rest else rest)
      (decode_loop_lem n (suc i) (cleared i sets)
        ∙ wanted_cong n (suc i) (cleared i sets) sets
            (λ k j l. ground (arith, cleared_isset k i j sets, l)))

pub decode_loop_sets :
    (k : Kind) (n i j : ℕ) (sets : FdSets)
    → is_in k j ((decode_loop n i sets).1) ≡ (not (leb i j && ltb j (i + n)) && is_in k j sets)
unfolding decode_loop
decode_loop_sets k zero i j sets = ground arith
decode_loop_sets k (suc n) i j sets =
    ground (arith, decode_loop_sets k n (suc i) j (cleared i sets), cleared_isset k i j sets)

covers_events :
    (k : Kind) (r w x : Bool)
    → covers (select_events r w x) (mask_of k)
      ≡ (elim k [ reading ↦ r | writing ↦ w | excepting ↦ x ])
unfolding covers any_below
covers_events reading true w x = ground arith
covers_events reading false w x = ground arith
covers_events writing r true x = ground arith
covers_events writing r false x = ground arith
covers_events excepting r w true = ground arith
covers_events excepting r w false = ground arith

any_below_cong :
    (n : ℕ) (f g : Mask) → ((b : ℕ) → b < n → f b ≡ g b) → any_below n f ≡ any_below n g
unfolding any_below
any_below_cong zero f g h = refl
any_below_cong (suc n) f g h =
    ap₂ ◌||◌ (h n (omega arith)) (any_below_cong n f g (λ b l. h b (omega arith)))

any_below_mono :
    (n : ℕ) (f g : Mask)
    → ((b : ℕ) → f b ≡ true → g b ≡ true)
    → any_below n g ≡ false
    → any_below n f ≡ false
unfolding any_below
any_below_mono zero f g h e = refl
any_below_mono (suc n) f g h e = ground (arith, h n, e, any_below_mono n f g h (ground (arith, e)))

-- What select() finds out about an entry that asks for all events of a set.
module _ (pev events mask : Mask) (asked : (b : ℕ) → mask b ≡ true → events b ≡ true) where
  meets_events : meets (λ b. ltb b 16 && pev b && events b) mask ≡ meets pev mask
  unfolding meets
  meets_events =
      any_below_cong 16 (λ b. (ltb b 16 && pev b && events b) && mask b) (λ b. pev b && mask b)
        (λ b l. ground (arith, asked b, l))

  pub meets_none : meets pev events ≡ false → meets pev mask ≡ false
  unfolding meets
  meets_none e =
      any_below_mono 16 (λ b. pev b && mask b) (λ b. pev b && events b)
        (λ b h. ground (arith, asked b, h)) e

meets_empty : (mask : Mask) → meets (λ b. false) mask ≡ false
unfolding meets any_below
meets_empty mask = refl

pub asks :
    (k : Kind) (i : ℕ) (sets : FdSets) (b : ℕ)
    → is_in k i sets ≡ true
    → mask_of k b ≡ true
    → (entry i sets).events b ≡ true
asks reading i sets b h m = ground (arith, h, m)
asks writing i sets b h m = ground (arith, h, m)
asks excepting i sets b h m = ground (arith, h, m)

entry_covers :
    (k : Kind) (i : ℕ) (sets : FdSets) → covers (entry i sets).events (mask_of k) ≡ is_in k i sets
entry_covers reading i sets =
    covers_events reading (is_in reading i sets) (is_in writing i sets) (is_in excepting i sets)
entry_covers writing i sets =
    covers_events writing (is_in reading i sets) (is_in writing i sets) (is_in excepting i sets)
entry_covers excepting i sets =
    covers_events excepting (is_in reading i sets) (is_in writing i sets) (is_in excepting i sets)

pub entry_encodes :
    (k : Kind) (i : ℕ) (sets : FdSets) (pev : Mask)
    → encodes (selected pev (entry i sets)) (mask_of k) ≡ (is_in k i sets && meets pev (mask_of k))
entry_encodes k i sets pev =
    let events = (entry i sets).events in
    elim (Bool-cases (is_in k i sets)) [
      | inl h ↦ ground (
        arith,
        entry_covers k i sets,
        h,
        meets_events pev events (mask_of k) (λ b m. asks k i sets b h m),
        meets_none pev events (mask_of k) (λ b m. asks k i sets b h m),
        meets_empty (mask_of k),
      )
      | inr h ↦ ground (arith, entry_covers k i sets, h)
    ]
