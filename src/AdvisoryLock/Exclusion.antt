-- ===== src/AdvisoryLock/Exclusion.antt =====
-- What the operations guarantee: a write lock excludes the other processes, and errors change nothing.
use junction.Prelude.{
  ℕ, ◌≡◌, ◌≤◌, refl, Bool, true, false, ◌==◌, List, [], ◌∷◌, arith, Option, none, some, Bool-cases,
  inl, inr,
}
use junction.AdvisoryLock.{
  LockType, read, write, unlock, AdvisoryLock, is_read, is_unlock, overlaps, conflicts,
  any_conflicts, get_conflict, clear_range, take_lock, drop_locks_for_pid, Wait, no_wait,
  wait_until, wait_free, set_lock,
}
use junction.AdvisoryLock.Ranges.{
  type_code, holds, within, holds-clear_range, holds-take_lock, holds-drop_locks,
}

-- Where a process holds a write lock, no other process holds a lock.
unfoldable pub IsExclusive : List AdvisoryLock → Type 0
IsExclusive ls =
    (p q : ℕ) (type : LockType) (a : ℕ)
    → holds ls p write a ≡ true
    → holds ls q type a ≡ true
    → p ≡ q

is_read_code : (t : LockType) → is_read t ≡ (type_code t == 0)
is_read_code read = refl
is_read_code write = refl
is_read_code unlock = refl

-- Without a conflict, another process that holds a lock on a byte of the wanted range holds a read lock, and a
-- read lock is wanted.
any_conflicts-false :
    (ls : List AdvisoryLock) (al : AdvisoryLock) (q : ℕ) (type : LockType) (a : ℕ)
    → any_conflicts ls al ≡ false
    → within al.start al.end a ≡ true
    → (q == al.pid) ≡ false
    → holds ls q type a ≡ true
    → (type_code type ≡ 0) × (type_code al.type ≡ 0)
unfolding any_conflicts conflicts overlaps
any_conflicts-false [] al q type a free inside other held = ground arith
any_conflicts-false (l ∷ ls) al q type a free inside other held =
    ground (arith, is_read_code al.type, is_read_code l.type, any_conflicts-false ls al q type a)

take_lock-IsExclusive :
    (al : AdvisoryLock) (ls : List AdvisoryLock)
    → al.start ≤ al.end
    → any_conflicts ls al ≡ false
    → IsExclusive ls
    → IsExclusive (take_lock al ls)
unfolding IsExclusive
take_lock-IsExclusive al ls h free exclusive p q type a f g = ground (
  arith,
  holds-take_lock al ls p write a h,
  holds-take_lock al ls q type a h,
  any_conflicts-false ls al q type a free,
  any_conflicts-false ls al p write a free,
  exclusive p q type a,
)

clear_range-IsExclusive :
    (al : AdvisoryLock) (ls : List AdvisoryLock)
    → al.start ≤ al.end
    → IsExclusive ls
    → IsExclusive (clear_range al.start al.end al.pid ls)
unfolding IsExclusive
clear_range-IsExclusive al ls h exclusive p q type a f g = ground (
  arith,
  holds-clear_range al.start al.end al.pid ls p write a h,
  holds-clear_range al.start al.end al.pid ls q type a h,
  exclusive p q type a,
)

-- The holders that a call which waits finds when it is woken.
unfoldable pub AreWakes : List (List AdvisoryLock) → Type 0
AreWakes [] = Unit
AreWakes (held ∷ later) = IsExclusive held × AreWakes later

unfoldable pub IsWait : Wait → Type 0
IsWait no_wait = Unit
IsWait (wait_until wakes) = AreWakes wakes

-- The wait ends with holders that have the exclusion, and with no conflict unless it is interrupted.
wait_free-IsExclusive :
    (al : AdvisoryLock) (ls : List AdvisoryLock) (wakes : List (List AdvisoryLock))
    → AreWakes wakes
    → IsExclusive ls
    → let (free, held) = wait_free al ls wakes in
      (free ≡ true → any_conflicts held al ≡ false) × IsExclusive held
unfolding wait_free AreWakes
wait_free-IsExclusive al ls [] woken exclusive = ((λ e. ground (arith, e)), exclusive)
wait_free-IsExclusive al ls (held ∷ later) (v, woken) exclusive =
    elim (Bool-cases (any_conflicts ls al)) [
      | inl c ↦ rw c (wait_free-IsExclusive al held later woken v)
      | inr c ↦ rw c ((λ e. c), exclusive)
    ]

-- Setting, changing or removing a lock keeps the exclusion: no process holds a lock on a byte on which
-- another process holds a write lock. A call that waits may be woken any number of times, each time to
-- holders that have the exclusion, and may be interrupted; the lock's range is not empty.
pub set_lock-IsExclusive :
    (al : AdvisoryLock) (wait : Wait) (ls : List AdvisoryLock)
    → al.start ≤ al.end
    → IsWait wait
    → IsExclusive ls
    → IsExclusive ((set_lock al wait ls).1)
unfolding set_lock IsWait
set_lock-IsExclusive al no_wait ls h woken exclusive = elim (Bool-cases (is_unlock al.type)) [
  | inl u ↦ rw u (clear_range-IsExclusive al ls h exclusive)
  | inr u ↦ elim (Bool-cases (any_conflicts ls al)) [
    | inl c ↦ rw (u, c) exclusive
    | inr c ↦ rw (u, c) (take_lock-IsExclusive al ls h c exclusive)
  ]
]
set_lock-IsExclusive al (wait_until wakes) ls h woken exclusive =
    let (no_conflict, kept) = wait_free-IsExclusive al ls wakes woken exclusive in
    elim (Bool-cases (is_unlock al.type)) [
      | inl u ↦ rw u (clear_range-IsExclusive al ls h exclusive)
      | inr u ↦ elim (Bool-cases ((wait_free al ls wakes).0)) [
        | inl f ↦
            rw (u, f) (take_lock-IsExclusive al ((wait_free al ls wakes).1) h (no_conflict f) kept)
        | inr f ↦ rw (u, f) kept
      ]
    ]

-- When a process ends, dropping its locks keeps the exclusion.
pub drop_locks-IsExclusive :
    (pid : ℕ) (ls : List AdvisoryLock) → IsExclusive ls → IsExclusive (drop_locks_for_pid pid ls)
unfolding IsExclusive
drop_locks-IsExclusive pid ls exclusive p q type a f g = ground (
  arith,
  holds-drop_locks pid ls p write a,
  holds-drop_locks pid ls q type a,
  exclusive p q type a,
)

abbrev pub is_found : Option AdvisoryLock → Bool
is_found none = false
is_found (some _) = true

-- F_GETLK reports a lock exactly when F_SETLK would be refused.
pub get_conflict_any :
    (ls : List AdvisoryLock) (al : AdvisoryLock)
    → is_found (get_conflict ls al) ≡ any_conflicts ls al
unfolding get_conflict any_conflicts
get_conflict_any [] al = refl
get_conflict_any (l ∷ ls) al = elim (Bool-cases (conflicts l al)) [
  | inl c ↦ rw c refl
  | inr c ↦ rw c (get_conflict_any ls al)
]
