-- ===== src/Poll/Select/Whole.antt =====
-- The sets and the number that select() gives back.
use junction.Prelude.{
  ℕ, zero, suc, ◌≡◌, ◌≤◌, ◌<◌, ◌+◌, refl, ap, sym, ◌∙◌, subst, Bool, true, false, ◌&&◌, ◌||◌, not,
  ◌==◌, if◌then◌else◌, ltb, leb, arith, Bool-cases, inl, inr, Option, none, some, Status, ok,
}
use junction.Poll.{Mask}
use junction.Poll.Request.{Blocked, is_zero}
use junction.Poll.Select.{
  FdSet, FdSets, SelectFd, fd_setsize, fd_isset, fd_clr, decode_loop, encodes, meets, encode_loop,
  selected, select_return, select_checked, do_select,
}
use junction.Poll.Select.Sets.{
  Kind, reading, writing, excepting, pick, mask_of, is_in, entry, in_any, cleared, entry_encodes,
  decode_loop_lem, decode_loop_sets,
}
use junction.Poll.Select.Return.{
  answer, answers, chosen, ready, select_check_lem, ready_zero, stored, present, stored_isset,
  present-stored, isset_present, encode_count,
}

selected_fd : (pev : Mask) (sfd : SelectFd) → (selected pev sfd).fd ≡ sfd.fd
selected_fd pev sfd = ground arith

answer_in :
    (k : Kind) (i : ℕ) (m : ℕ → Mask) (sets : FdSets)
    → answer m k i sets ≡ true
    → is_in k i sets ≡ true
answer_in k i m sets h = ground (arith, h)

same_answer :
    (k : Kind) (i j : ℕ) (m : ℕ → Mask) (sets : FdSets)
    → (j == i) ≡ true
    → encodes (selected (m i) (entry i sets)) (mask_of k) ≡ answer m k j sets
same_answer k i j m sets q =
    let same : i ≡ j = ground (arith, q) in
    entry_encodes k i sets (m i) ∙ ap (λ (x : ℕ). answer m k x sets) same

none_in : (k : Kind) (i : ℕ) (sets : FdSets) → in_any i sets ≡ false → is_in k i sets ≡ false
none_in reading i sets h = ground (arith, h)
none_in writing i sets h = ground (arith, h)
none_in excepting i sets h = ground (arith, h)

none_answer :
    (k : Kind) (i j : ℕ) (m : ℕ → Mask) (sets : FdSets)
    → in_any i sets ≡ false
    → (j == i) ≡ true
    → answer m k j sets ≡ false
none_answer k i j m sets e q =
    let same : i ≡ j = ground (arith, q) in
    subst (λ x. answer m k x sets ≡ false) same (ground (arith, none_in k i sets e))

merge :
    (here later pres enc ans : Bool) (i j n : ℕ)
    → later ≡ (here || pres && enc && j == i)
    → ((j == i) ≡ true → enc ≡ ans)
    → (enc ≡ true → pres ≡ true)
    → (later || leb (suc i) j && ltb j (suc i + n) && ans)
      ≡ (here || leb i j && ltb j (i + suc n) && ans)
merge here later pres enc ans i j n a b c = ground (arith, a, b, c)

skip :
    (here ans : Bool) (i j n : ℕ)
    → ((j == i) ≡ true → ans ≡ false)
    → (here || leb (suc i) j && ltb j (suc i + n) && ans)
      ≡ (here || leb i j && ltb j (i + suc n) && ans)
skip here ans i j n h = ground (arith, h)

encode_sets :
    (k : Kind) (n i j : ℕ) (m : ℕ → Mask) (sets acc : FdSets)
    → present (pick k acc) ≡ present (pick k sets)
    → is_in k j ((encode_loop (chosen n i m sets) acc).1)
      ≡ (is_in k j acc || leb i j && ltb j (i + n) && answer m k j sets)
unfolding encode_loop
encode_sets k zero i j m sets acc h = ground arith
encode_sets k (suc n) i j m sets acc h = elim (Bool-cases (in_any i sets)) [
  | inl e ↦ rw e (
      let sfd = selected (m i) (entry i sets) in
      encode_sets k n (suc i) j m sets (stored sfd acc) (present-stored k sfd acc ∙ h)
      ∙ merge (is_in k j acc) (is_in k j (stored sfd acc)) (present (pick k acc))
          (encodes sfd (mask_of k)) (answer m k j sets) i j n
          (stored_isset k j sfd acc
            ∙ ap
                (λ (f : ℕ).
                  is_in k j acc || present (pick k acc) && encodes sfd (mask_of k) && j == f)
                (selected_fd (m i) (entry i sets)))
          (same_answer k i j m sets)
          (λ a.
            h
            ∙ isset_present i (pick k sets)
                (answer_in k i m sets (sym (entry_encodes k i sets (m i)) ∙ a))))
  | inr e ↦ rw e (
      encode_sets k n (suc i) j m sets acc h
      ∙ skip (is_in k j acc) (answer m k j sets) i j n (none_answer k i j m sets e))
]

clr_present :
    (i : ℕ) (fds : Option FdSet)
    → present (if fd_isset i fds then fd_clr i fds else fds) ≡ present fds
clr_present i none = refl
clr_present i (some f) = ground arith

present-cleared :
    (k : Kind) (i : ℕ) (sets : FdSets) → present (pick k (cleared i sets)) ≡ present (pick k sets)
present-cleared reading i sets = clr_present i sets.readfds
present-cleared writing i sets = clr_present i sets.writefds
present-cleared excepting i sets = clr_present i sets.exceptfds

decode_present :
    (k : Kind) (n i : ℕ) (sets : FdSets)
    → present (pick k ((decode_loop n i sets).1)) ≡ present (pick k sets)
unfolding decode_loop
decode_present k zero i sets = refl
decode_present k (suc n) i sets =
    decode_present k n (suc i) (cleared i sets) ∙ present-cleared k i sets

-- What select() gives back: how many bits of the sets have an event, and of the descriptors below nfds
-- those that have one; the others keep their bits.
abbrev pub IsSelected : ℕ → (ℕ → Mask) → FdSets → Status ℕ × FdSets → Type 0
IsSelected nfds m sets r =
    (r.0 ≡ ok (answers nfds 0 m sets))
    × ((k : Kind) (j : ℕ)
        → fd_isset j (pick k (r.1))
          ≡ (fd_isset j (pick k sets) && (not (ltb j nfds) || meets (m j) (mask_of k))))

cleared_bits :
    (k : Kind) (nfds j : ℕ) (sets : FdSets)
    → is_in k j ((decode_loop nfds 0 sets).1) ≡ (not (ltb j nfds) && is_in k j sets)
cleared_bits k nfds j sets = ground (arith, decode_loop_sets k nfds 0 j sets)

result_bit :
    (clear here meet : Bool) (nfds j : ℕ)
    → clear ≡ (not (ltb j nfds) && here)
    → (clear || leb 0 j && ltb j (0 + nfds) && (here && meet))
      ≡ (here && (not (ltb j nfds) || meet))
result_bit clear here meet nfds j h = ground (arith, h)

returned :
    (nfds : ℕ) (m : ℕ → Mask) (sets : FdSets)
    → IsSelected nfds m sets (select_return (chosen nfds 0 m sets) ((decode_loop nfds 0 sets).1))
unfolding select_return
returned nfds m sets =
    let clear = (decode_loop nfds 0 sets).1 in
    (
      ap ok (encode_count nfds 0 m sets clear),
      λ k j.
          encode_sets k nfds 0 j m sets clear (decode_present k nfds 0 sets)
          ∙ result_bit (is_in k j clear) (is_in k j sets) (meets (m j) (mask_of k)) nfds j
              (cleared_bits k nfds j sets),
    )

nothing :
    (nfds : ℕ) (m : ℕ → Mask) (sets : FdSets)
    → ready nfds 0 m sets ≡ 0
    → IsSelected nfds m sets (ok 0, (decode_loop nfds 0 sets).1)
nothing nfds m sets z =
    let (a, f) = ready_zero m nfds 0 sets z in
    (ap ok (sym a), λ k j. ground (arith, cleared_bits k nfds j sets, f k j (omega arith)))

checked_selected :
    (nfds : ℕ) (m : ℕ → Mask) (sets : FdSets) (timeout : Option ℕ) (run : Blocked)
    → (is_zero timeout ≡ false → 1 ≤ answers nfds 0 m sets)
    → IsSelected nfds m sets (
        select_checked
          (some (ready nfds 0 m sets, chosen nfds 0 m sets))
          ((decode_loop nfds 0 sets).1)
          timeout
          run)
unfolding select_checked
checked_selected nfds m sets timeout run h = elim (Bool-cases (ready nfds 0 m sets == 0)) [
  | inl e ↦ elim (Bool-cases (is_zero timeout)) [
    | inl z ↦ rw (e, z) (nothing nfds m sets (ground (arith, e)))
    | inr z ↦
        let (a, f) = ready_zero m nfds 0 sets (ground (arith, e)) in absurd (omega (arith, a, h z))
  ]
  | inr e ↦ rw e (returned nfds m sets)
]

-- A select() on at most FD_SETSIZE descriptors, of which those in a set are open, and which finds an event
-- or has the timeout 0, gives back how many bits of the three sets have an event; of the descriptors below
-- nfds a set keeps exactly those that have one of its events, and the bits from nfds on, whether their
-- descriptors are open or not, are as they were.
pub do_select-IsSelected :
    (nfds : ℕ) (sets : FdSets) (files : ℕ → Option Mask) (m : ℕ → Mask) (timeout : Option ℕ)
    (run : Blocked)
    → nfds ≤ fd_setsize
    → ((j : ℕ) → j < nfds → in_any j sets ≡ true → files j ≡ some (m j))
    → (is_zero timeout ≡ false → 1 ≤ answers nfds 0 m sets)
    → IsSelected nfds m sets (do_select nfds sets files timeout run)
unfolding do_select
do_select-IsSelected nfds sets files m timeout run bound open_files immediate =
    let small : ltb fd_setsize nfds ≡ false = ground (arith, bound) in
    rw
      (
        small,
        decode_loop_lem nfds 0 sets,
        select_check_lem files m nfds 0 sets (λ j b. open_files j (omega (arith, b))),
      )
      (checked_selected nfds m sets timeout run immediate)
