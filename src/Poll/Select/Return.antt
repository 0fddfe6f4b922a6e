-- ===== src/Poll/Select/Return.antt =====
-- select() from end to end.
use junction.Prelude.{
  ℕ, zero, suc, ◌≡◌, ◌≤◌, ◌<◌, ◌+◌, refl, Bool, true, false, ◌&&◌, ◌||◌, ◌==◌, if◌then◌else◌, List,
  [], ◌∷◌, arith, Bool-cases, inl, inr, Option, none, some,
}
use junction.Poll.{Mask}
use junction.Poll.Select.{
  FdSet, FdSets, SelectFd, fd_isset, fd_set, meets, encodes, encode_loop, selected, select_check,
  select_in, select_out, select_except,
}
use junction.Poll.Select.Sets.{
  Kind, reading, writing, excepting, pick, mask_of, is_in, entry, in_any, wanted, entry_encodes,
  meets_none, asks,
}

-- Whether a descriptor of a set has an event of this set.
abbrev pub answer : (ℕ → Mask) → Kind → ℕ → FdSets → Bool
answer m k j sets = is_in k j sets && meets (m j) (mask_of k)

abbrev pub one : Bool → ℕ
one b = if b then 1 else 0

-- How many bits of the three sets, of the descriptors from `i` on, have an event.
abbrev pub answers : ℕ → ℕ → (ℕ → Mask) → FdSets → ℕ
answers zero i m sets = 0
answers (suc n) i m sets =
    answers n (suc i) m sets
    + one (answer m reading i sets)
    + one (answer m writing i sets)
    + one (answer m excepting i sets)

abbrev pub chosen : ℕ → ℕ → (ℕ → Mask) → FdSets → List SelectFd
chosen zero i m sets = []
chosen (suc n) i m sets =
    let rest = chosen n (suc i) m sets in
    if in_any i sets then selected (m i) (entry i sets) ∷ rest else rest

-- How many entries have an event.
abbrev pub ready : ℕ → ℕ → (ℕ → Mask) → FdSets → ℕ
ready zero i m sets = 0
ready (suc n) i m sets =
    let rest = ready n (suc i) m sets in
    if in_any i sets && meets (m i) (entry i sets).events then suc rest else rest

pub select_check_lem :
    (files : ℕ → Option Mask) (m : ℕ → Mask) (n i : ℕ) (sets : FdSets)
    → ((j : ℕ) → j < i + n → in_any j sets ≡ true → files j ≡ some (m j))
    → select_check files (wanted n i sets) ≡ some (ready n i m sets, chosen n i m sets)
unfolding select_check
select_check_lem files m zero i sets h = refl
select_check_lem files m (suc n) i sets h =
    let rest = select_check_lem files m n (suc i) sets (λ j b. h j (omega (arith, b))) in
    elim (Bool-cases (in_any i sets)) [
      | inl e ↦ rw (e, select_check, h i (omega arith) e, rest) refl
      | inr e ↦ rw e rest
    ]

any_asked : (k : Kind) (i : ℕ) (sets : FdSets) → is_in k i sets ≡ true → in_any i sets ≡ true
any_asked reading i sets h = ground (arith, h)
any_asked writing i sets h = ground (arith, h)
any_asked excepting i sets h = ground (arith, h)

none_ready :
    (m : ℕ → Mask) (k : Kind) (i : ℕ) (sets : FdSets)
    → (in_any i sets && meets (m i) (entry i sets).events) ≡ false
    → answer m k i sets ≡ false
none_ready m k i sets e = elim (Bool-cases (is_in k i sets)) [
  | inr h ↦ ground (arith, h)
  | inl h ↦ ground (
    arith,
    e,
    any_asked k i sets h,
    meets_none (m i) (entry i sets).events (mask_of k) (λ b p. asks k i sets b h p),
  )
]

pub ready_zero :
    (m : ℕ → Mask) (n i : ℕ) (sets : FdSets)
    → ready n i m sets ≡ 0
    → (answers n i m sets ≡ 0)
      × ((k : Kind) (j : ℕ) → i ≤ j → j < i + n → answer m k j sets ≡ false)
ready_zero m zero i sets h = (refl, λ k j l u. absurd (omega arith))
ready_zero m (suc n) i sets h =
    elim (Bool-cases (in_any i sets && meets (m i) (entry i sets).events)) [
      | inl e ↦ absurd (ground (arith, h, e))
      | inr e ↦
          let (z, f) = ready_zero m n (suc i) sets (ground (arith, h, e)) in
          (
            ground (
              arith,
              z,
              none_ready m reading i sets e,
              none_ready m writing i sets e,
              none_ready m excepting i sets e,
            ),
            λ k j l u. elim (Bool-cases (j == i)) [
              | inl q ↦ ground (arith, q, none_ready m k i sets e)
              | inr q ↦ f k j (ground (arith, q, l)) (omega arith)
            ],
          )
    ]

-- The sets after one entry was encoded.
abbrev pub stored : SelectFd → FdSets → FdSets
stored sfd sets = record {
  readfds = if encodes sfd select_in then fd_set sfd.fd sets.readfds else sets.readfds;
  writefds = if encodes sfd select_out then fd_set sfd.fd sets.writefds else sets.writefds;
  exceptfds = if encodes sfd select_except then fd_set sfd.fd sets.exceptfds else sets.exceptfds;
}

abbrev pub present : Option FdSet → Bool
present none = false
present (some fds) = true

set_isset :
    (b : Bool) (i j : ℕ) (fds : Option FdSet)
    → fd_isset j (if b then fd_set i fds else fds) ≡ (fd_isset j fds || present fds && b && j == i)
set_isset true i j none = refl
set_isset false i j none = refl
set_isset true i j (some f) = ground arith
set_isset false i j (some f) = ground arith

pub stored_isset :
    (k : Kind) (j : ℕ) (sfd : SelectFd) (sets : FdSets)
    → is_in k j (stored sfd sets)
      ≡ (is_in k j sets || present (pick k sets) && encodes sfd (mask_of k) && j == sfd.fd)
stored_isset reading j sfd sets = set_isset (encodes sfd select_in) sfd.fd j sets.readfds
stored_isset writing j sfd sets = set_isset (encodes sfd select_out) sfd.fd j sets.writefds
stored_isset excepting j sfd sets = set_isset (encodes sfd select_except) sfd.fd j sets.exceptfds

set_present :
    (b : Bool) (i : ℕ) (fds : Option FdSet)
    → present (if b then fd_set i fds else fds) ≡ present fds
set_present true i none = refl
set_present false i none = refl
set_present true i (some f) = refl
set_present false i (some f) = refl

pub present-stored :
    (k : Kind) (sfd : SelectFd) (sets : FdSets)
    → present (pick k (stored sfd sets)) ≡ present (pick k sets)
present-stored reading sfd sets = set_present (encodes sfd select_in) sfd.fd sets.readfds
present-stored writing sfd sets = set_present (encodes sfd select_out) sfd.fd sets.writefds
present-stored excepting sfd sets = set_present (encodes sfd select_except) sfd.fd sets.exceptfds

pub isset_present : (i : ℕ) (fds : Option FdSet) → fd_isset i fds ≡ true → present fds ≡ true
isset_present i none h = h
isset_present i (some f) h = refl

pub encode_count :
    (n i : ℕ) (m : ℕ → Mask) (sets acc : FdSets)
    → (encode_loop (chosen n i m sets) acc).0 ≡ answers n i m sets
unfolding encode_loop
encode_count zero i m sets acc = refl
encode_count (suc n) i m sets acc = elim (Bool-cases (in_any i sets)) [
  | inl e ↦ rw e (
      let sfd = selected (m i) (entry i sets) in
      let r = entry_encodes reading i sets (m i) in
      let w = entry_encodes writing i sets (m i) in
      let x = entry_encodes excepting i sets (m i) in
      let ih = encode_count n (suc i) m sets (stored sfd acc) in
      λ a. ih a + one (r a) + one (w a) + one (x a))
  | inr e ↦ rw e (ground (arith, encode_count n (suc i) m sets acc, e))
]
