-- ===== src/AdvisoryLock.antt =====
-- fs/advisory_lock.h and advisory_lock.cc: POSIX record locks of one inode. Ends are inclusive.
-- Each operation runs under the context's spin lock.
pub mod Ranges
pub mod Exclusion
pub mod Contexts
mod Tests
use junction.Prelude.{
  ℕ, zero, suc, ◌+◌, ◌-◌, ◌^◌, Bool, true, false, ◌&&◌, ◌||◌, not, ◌==◌, if◌then◌else◌, ltb, leb,
  List, [], ◌∷◌, ◌++◌, Option, none, some, Status, ok, err, einval, eintr, eagain,
}
use junction.Prelude.Int.{ℤ, pos, negsuc, ◌+ℤ◌, ◌-ℤ◌, ltb_ℤ}

pub data LockType : Type 0 where
  read write unlock : LockType

-- A validated lock: its range starts at 0 or later.
pub record AdvisoryLock : Type 0 where
  pub type : LockType
  pub start : ℕ
  pub end : ℕ
  pub pid : ℕ

pub overlaps : AdvisoryLock → ℕ → ℕ → Bool
overlaps l o_start o_end = leb o_start l.end && leb l.start o_end

abbrev pub is_read : LockType → Bool
is_read read = true
is_read _ = false

pub conflicts : AdvisoryLock → AdvisoryLock → Bool
conflicts l o =
    if not (overlaps l o.start o.end)
    then false
    else if o.pid == l.pid
    then false
    else not (is_read o.type) || not (is_read l.type)

pub any_conflicts : List AdvisoryLock → AdvisoryLock → Bool
any_conflicts [] al = false
any_conflicts (lck ∷ ls) al =
    let rest = any_conflicts ls al in if conflicts lck al then true else rest

pub get_conflict : List AdvisoryLock → AdvisoryLock → Option AdvisoryLock
get_conflict [] al = none
get_conflict (lck ∷ ls) al =
    let rest = get_conflict ls al in if conflicts lck al then some lck else rest

pub data Whence : Type 0 where
  seek_set seek_cur seek_end invalid : Whence

pub record Flock : Type 0 where
  pub l_type : LockType
  pub l_whence : Whence
  pub l_start : ℤ
  pub l_len : ℤ
  pub l_pid : ℕ

-- fromFlock and ValidateAdvisoryLock: the lock, if its range is valid. `offset` and `size` are those
-- of the file, `pid` is the caller's, and the sums do not overflow.
abbrev pub base : Whence → ℕ → ℕ → ℤ → ℤ
base seek_set offset size l_start = l_start
base seek_cur offset size l_start = l_start +ℤ pos offset
base seek_end offset size l_start = l_start +ℤ pos size
base invalid offset size l_start = negsuc 0

abbrev pub off_max : ℕ
off_max = 2 ^ 63 - 1

abbrev pub range_end : ℤ → ℤ → ℤ
range_end start (pos zero) = pos off_max
range_end start l_len = start +ℤ l_len -ℤ pos 1

abbrev validated : LockType → ℕ → ℤ → ℤ → Option AdvisoryLock
validated type pid (pos start) (pos end) =
    if leb start end
    then some (record { type = type; start = start; end = end; pid = pid })
    else none
validated _ _ _ _ = none

pub from_flock : Flock → ℕ → ℕ → ℕ → Option AdvisoryLock
from_flock fl offset size pid =
    let start = base fl.l_whence offset size fl.l_start in
    validated fl.l_type pid start (range_end start fl.l_len)

-- What ClearRange makes of a lock that overlaps the range: the part behind it and the part before.
pub truncated : ℕ → AdvisoryLock → List AdvisoryLock
truncated end cur = if ltb end cur.end then record cur { start = end + 1 } ∷ [] else []

pub fragment : ℕ → AdvisoryLock → List AdvisoryLock
fragment start cur = if ltb cur.start start then record cur { end = start - 1 } ∷ [] else []

pub touched : ℕ → ℕ → ℕ → AdvisoryLock → Bool
touched start end pid cur = not (not (cur.pid == pid) || not (overlaps cur start end))

-- The loop of ClearRange: what stays of the list, the left fragments, and whether a lock was met.
pub clear_loop : ℕ → ℕ → ℕ → List AdvisoryLock → List AdvisoryLock × List AdvisoryLock × Bool
clear_loop start end pid [] = ([], [], false)
clear_loop start end pid (cur ∷ ls) =
    let (kept, new_locks, done) = clear_loop start end pid ls in
    if touched start end pid cur
    then (truncated end cur ++ kept, fragment start cur ++ new_locks, true)
    else (cur ∷ kept, new_locks, done)

pub clear_range : ℕ → ℕ → ℕ → List AdvisoryLock → List AdvisoryLock
clear_range start end pid holders =
    let (kept, new_locks, done) = clear_loop start end pid holders in kept ++ new_locks

-- Whether ClearRange met a lock, after which the waiters are woken.
pub clears : ℕ → ℕ → ℕ → List AdvisoryLock → Bool
clears start end pid holders =
    let (kept, new_locks, done) = clear_loop start end pid holders in done

-- How a call waits: not at all, or until the lock that it wants has no conflict. The list has the holders
-- of each moment at which the waiter is woken; at the wait after the last of them a signal comes.
pub data Wait : Type 0 where
  no_wait : Wait
  wait_until : List (List AdvisoryLock) → Wait

pub take_lock : AdvisoryLock → List AdvisoryLock → List AdvisoryLock
take_lock al holders = clear_range al.start al.end al.pid holders ++ al ∷ []

abbrev pub is_unlock : LockType → Bool
is_unlock unlock = true
is_unlock _ = false

-- The wait of DoSet for holders without a conflict: whether it ends with them, and the holders at its end.
pub wait_free :
    AdvisoryLock → List AdvisoryLock → List (List AdvisoryLock) → Bool × List AdvisoryLock
wait_free al held [] = (not (any_conflicts held al), held)
wait_free al held (woken ∷ later) =
    let rest = wait_free al woken later in
    if not (any_conflicts held al) then (true, held) else rest

pub set_lock : AdvisoryLock → Wait → List AdvisoryLock → Status (Unit {0}) × List AdvisoryLock
set_lock al no_wait holders =
    if is_unlock al.type
    then (ok tt, clear_range al.start al.end al.pid holders)
    else if any_conflicts holders al
    then (err eagain, holders)
    else (ok tt, take_lock al holders)
set_lock al (wait_until wakes) holders =
    let (free, held) = wait_free al holders wakes in
    if is_unlock al.type
    then (ok tt, clear_range al.start al.end al.pid holders)
    else if free
    then (ok tt, take_lock al held)
    else (err eintr, held)

pub do_set : Flock → ℕ → ℕ → ℕ → Wait → List AdvisoryLock → Status (Unit {0}) × List AdvisoryLock
do_set fl offset size pid wait holders = elim (from_flock fl offset size pid) [
  | none ↦ (err einval, holders)
  | some al ↦ set_lock al wait holders
]

pub do_get : Flock → ℕ → ℕ → ℕ → List AdvisoryLock → Status Flock
do_get fl offset size pid holders = elim (from_flock fl offset size pid) [
  | none ↦ err einval
  | some al ↦ elim (get_conflict holders al) [
    | none ↦ ok (record fl { l_type = unlock })
    | some c ↦ ok (record {
      l_type = c.type;
      l_whence = seek_set;
      l_start = pos c.start;
      l_len = pos c.end -ℤ pos c.start +ℤ pos 1;
      l_pid = c.pid;
    })
  ]
]

pub drop_locks_for_pid : ℕ → List AdvisoryLock → List AdvisoryLock
drop_locks_for_pid pid [] = []
drop_locks_for_pid pid (al ∷ ls) =
    let rest = drop_locks_for_pid pid ls in if al.pid == pid then rest else al ∷ rest
