-- ===== src/Poll/Select.antt =====
-- fs/poll.cc: DecodeSelectFDs, EncodeSelectFDs and DoSelect. An fd_set is a function on descriptors, and
-- none is a null pointer. The number of descriptors is not negative.
pub mod Sets
pub mod Return
pub mod Whole
use junction.Prelude.{
  ℕ, zero, suc, ◌+◌, ◌-◌, Bool, true, false, not, ◌==◌, ◌&&◌, ◌||◌, if◌then◌else◌, ltb, List, [],
  ◌∷◌, Option, none, some, get_elem?, set, Status, ok, err, ebadf, einval,
}
use junction.Poll.{Mask, any_below}
use junction.Poll.Request.{is_set, is_positive, Blocked, is_zero, poll_error}

abbrev pub FdSet : Type 0
FdSet = ℕ → Bool

pub record FdSets : Type 0 where
  pub readfds : Option FdSet
  pub writefds : Option FdSet
  pub exceptfds : Option FdSet

pub record SelectFd : Type 0 where
  pub fd : ℕ
  pub events : Mask
  pub revents : Mask

-- kPollIn | kPollHUp | kPollErr, kPollOut | kPollErr and kPollPrio
abbrev pub select_in : Mask
select_in k = k == 0 || k == 4 || k == 3

abbrev pub select_out : Mask
select_out k = k == 2 || k == 3

abbrev pub select_except : Mask
select_except k = k == 1

abbrev pub fd_setsize : ℕ
fd_setsize = 1024

-- readfds && FD_ISSET(i, readfds)
abbrev pub fd_isset : ℕ → Option FdSet → Bool
fd_isset i none = false
fd_isset i (some fds) = fds i

abbrev pub fd_clr : ℕ → Option FdSet → Option FdSet
fd_clr i none = none
fd_clr i (some fds) = some (λ j. not (j == i) && fds j)

abbrev pub fd_set : ℕ → Option FdSet → Option FdSet
fd_set i none = none
fd_set i (some fds) = some (λ j. j == i || fds j)

-- The events that an entry asks for.
abbrev pub select_events : Bool → Bool → Bool → Mask
select_events r w x k = r && select_in k || w && select_out k || x && select_except k

-- The loop of DecodeSelectFDs from the descriptor `i` on; a descriptor leaves the sets that it is in.
unfoldable pub decode_loop : ℕ → ℕ → FdSets → List SelectFd × FdSets
decode_loop zero i sets = ([], sets)
decode_loop (suc n) i sets =
    let r = fd_isset i sets.readfds in
    let w = fd_isset i sets.writefds in
    let x = fd_isset i sets.exceptfds in
    let (rest, final) = decode_loop n (suc i) (record {
      readfds = if r then fd_clr i sets.readfds else sets.readfds;
      writefds = if w then fd_clr i sets.writefds else sets.writefds;
      exceptfds = if x then fd_clr i sets.exceptfds else sets.exceptfds;
    }) in
    let sfd : SelectFd = record { fd = i; events = select_events r w x; revents = λ k. false } in
    ((if r || w || x then sfd ∷ rest else rest), final)

-- (a & mask) == mask and (a & mask) != 0 on 16 bits
unfoldable pub covers : Mask → Mask → Bool
unfolding any_below
covers a mask = not (any_below 16 (λ k. mask k && not (a k)))

unfoldable pub meets : Mask → Mask → Bool
unfolding any_below
meets a mask = any_below 16 (λ k. a k && mask k)

abbrev pub encodes : SelectFd → Mask → Bool
encodes sfd mask = covers sfd.events mask && meets sfd.revents mask

unfoldable pub encode_loop : List SelectFd → FdSets → ℕ × FdSets
unfolding covers meets
encode_loop [] sets = (0, sets)
encode_loop (sfd ∷ sfds) sets =
    let r = encodes sfd select_in in
    let w = encodes sfd select_out in
    let x = encodes sfd select_except in
    let (count, final) = encode_loop sfds (record {
      readfds = if r then fd_set sfd.fd sets.readfds else sets.readfds;
      writefds = if w then fd_set sfd.fd sets.writefds else sets.writefds;
      exceptfds = if x then fd_set sfd.fd sets.exceptfds else sets.exceptfds;
    }) in
    (count + (if r then 1 else 0) + (if w then 1 else 0) + (if x then 1 else 0), final)

abbrev pub selected : Mask → SelectFd → SelectFd
selected pev sfd =
    if meets pev sfd.events
    then record sfd { revents = λ k. ltb k 16 && pev k && sfd.events k }
    else sfd

-- The check of each file; none where a descriptor has no file.
unfoldable pub select_check : (ℕ → Option Mask) → List SelectFd → Option (ℕ × List SelectFd)
unfolding meets
select_check files [] = some (0, [])
select_check files (sfd ∷ sfds) =
    let rest = select_check files sfds in
    elim (files sfd.fd) [
      | none ↦ none
      | some pev ↦ elim rest [
        | none ↦ none
        | some (nevents, checked) ↦
            some
              ((if meets pev sfd.events then suc nevents else nevents), selected pev sfd ∷ checked)
      ]
    ]

unfoldable pub select_trigger : ℕ → Mask → ℕ × List SelectFd → ℕ × List SelectFd
unfolding is_positive
select_trigger i pev (nevents, sfds) = elim (get_elem? sfds i) [
  | none ↦ (nevents, sfds)
  | some entry ↦
      let revents : Mask = λ k. ltb k 16 && pev k && entry.events k in
      (
        nevents
            + (if is_positive revents then 1 else 0)
            - (if is_positive entry.revents then 1 else 0),
        set sfds i (record entry { revents = revents }),
      )
]

unfoldable pub select_triggers : List (ℕ × Mask) → ℕ × List SelectFd → ℕ × List SelectFd
unfolding select_trigger
select_triggers [] s = s
select_triggers ((i, pev) ∷ fired) s = select_triggers fired (select_trigger i pev s)

unfoldable pub select_return : List SelectFd → FdSets → Status ℕ × FdSets
unfolding encode_loop
select_return sfds sets = let (ret, final) = encode_loop sfds sets in (ok ret, final)

unfoldable pub select_blocked : Option ℕ → Blocked → ℕ × List SelectFd → FdSets → Status ℕ × FdSets
unfolding select_triggers select_return poll_error
select_blocked timeout run s sets =
    let (nevents, sfds) = select_triggers run.fired s in
    if nevents == 0 && run.signaled then (poll_error timeout, sets) else select_return sfds sets

-- The time that is left is not in the result.
unfoldable pub select_checked :
    Option (ℕ × List SelectFd) → FdSets → Option ℕ → Blocked → Status ℕ × FdSets
unfolding select_return select_blocked is_zero
select_checked none sets timeout run = (err ebadf, sets)
select_checked (some (nevents, sfds)) sets timeout run =
    if not (nevents == 0)
    then select_return sfds sets
    else if is_zero timeout
    then (ok 0, sets)
    else select_blocked timeout run (nevents, sfds) sets

unfoldable pub do_select : ℕ → FdSets → (ℕ → Option Mask) → Option ℕ → Blocked → Status ℕ × FdSets
unfolding decode_loop select_check select_checked
do_select nfds sets files timeout run =
    let (sfds, cleared) = decode_loop nfds 0 sets in
    if ltb fd_setsize nfds
    then (err einval, sets)
    else select_checked (select_check files sfds) cleared timeout run
