-- ===== src/AdvisoryLock/Ranges.antt =====
-- Which process holds which type of lock on which byte.
use junction.Prelude.{
  ℕ, ◌+◌, ◌-◌, ◌≡◌, ◌≤◌, refl, Bool, true, false, ◌&&◌, ◌||◌, not, ◌==◌, if◌then◌else◌, ltb, leb,
  List, [], ◌∷◌, ◌++◌, arith, ◌∙◌, Bool-cases, inl, inr,
}
use junction.AdvisoryLock.{
  LockType, read, write, unlock, AdvisoryLock, overlaps, clear_loop, touched, truncated, fragment,
  clear_range, take_lock, drop_locks_for_pid,
}

abbrev pub type_code : LockType → ℕ
type_code read = 0
type_code write = 1
type_code unlock = 2

-- The process `p` holds a lock of the type on the byte `a`.
abbrev pub gives : AdvisoryLock → ℕ → LockType → ℕ → Bool
gives l p type a =
    l.pid == p && type_code l.type == type_code type && (leb l.start a && leb a l.end)

abbrev pub holds : List AdvisoryLock → ℕ → LockType → ℕ → Bool
holds [] p type a = false
holds (l ∷ ls) p type a = gives l p type a || holds ls p type a

abbrev pub within : ℕ → ℕ → ℕ → Bool
within start end a = leb start a && leb a end

pub holds-append :
    (ls ms : List AdvisoryLock) (p : ℕ) (type : LockType) (a : ℕ)
    → holds (ls ++ ms) p type a ≡ (holds ls p type a || holds ms p type a)
holds-append [] ms p type a = refl
holds-append (l ∷ ls) ms p type a = ground (arith, holds-append ls ms p type a)

pieces_within :
    (s e start end a : ℕ)
    → start ≤ end
    → start ≤ e
    → s ≤ end
    → ((if ltb end e then leb (end + 1) a && leb a e else false)
        || (if ltb s start then leb s a && leb a (start - 1) else false))
      ≡ (leb s a && leb a e && not (within start end a))
pieces_within s e start end a h f g = ground arith

pieces_hold :
    (start end pid : ℕ) (l : AdvisoryLock) (p : ℕ) (type : LockType) (a : ℕ)
    → start ≤ end
    → touched start end pid l ≡ true
    → (holds (truncated end l) p type a || holds (fragment start l) p type a)
      ≡ (gives l p type a && not (p == pid && within start end a))
unfolding truncated fragment touched overlaps
pieces_hold start end pid l p type a h t = ground (arith, pieces_within l.start l.end start end a h)

untouched_hold :
    (start end pid : ℕ) (l : AdvisoryLock) (p : ℕ) (type : LockType) (a : ℕ)
    → touched start end pid l ≡ false
    → gives l p type a ≡ (gives l p type a && not (p == pid && within start end a))
unfolding touched overlaps
untouched_hold start end pid l p type a t = ground arith

-- The bookkeeping of one round.
round :
    (x y kept new_locks rest g out : Bool)
    → (x || y) ≡ (g && out)
    → (kept || new_locks) ≡ (rest && out)
    → (x || kept || (y || new_locks)) ≡ ((g || rest) && out)
round x y kept new_locks rest g out e f = ground arith

clear_loop_lem :
    (start end pid : ℕ) (ls : List AdvisoryLock) (p : ℕ) (type : LockType) (a : ℕ)
    → start ≤ end
    → let (kept, new_locks, done) = clear_loop start end pid ls in
      (holds kept p type a || holds new_locks p type a)
      ≡ (holds ls p type a && not (p == pid && within start end a))
unfolding clear_loop
clear_loop_lem start end pid [] p type a h = refl
clear_loop_lem start end pid (l ∷ ls) p type a h = elim (Bool-cases (touched start end pid l)) [
  | inl hit ↦
      let (kept, new_locks, done) = clear_loop start end pid ls in
      rw
        (
          hit,
          holds-append (truncated end l) kept p type a,
          holds-append (fragment start l) new_locks p type a,
        )
        (round (holds (truncated end l) p type a) (holds (fragment start l) p type a)
          (holds kept p type a) (holds new_locks p type a) (holds ls p type a) (gives l p type a)
          (not (p == pid && within start end a)) (pieces_hold start end pid l p type a h hit)
          (clear_loop_lem start end pid ls p type a h))
  | inr miss ↦
      let (kept, new_locks, done) = clear_loop start end pid ls in
      rw miss (
        round (gives l p type a) false (holds kept p type a) (holds new_locks p type a)
          (holds ls p type a) (gives l p type a) (not (p == pid && within start end a))
          (ground (arith, untouched_hold start end pid l p type a miss))
          (clear_loop_lem start end pid ls p type a h))
]

-- ClearRange takes from the process its locks on the bytes of the range, and changes no other lock
-- of it or of any other process, for a range that is not empty.
pub holds-clear_range :
    (start end pid : ℕ) (ls : List AdvisoryLock) (p : ℕ) (type : LockType) (a : ℕ)
    → start ≤ end
    → holds (clear_range start end pid ls) p type a
      ≡ (holds ls p type a && not (p == pid && within start end a))
unfolding clear_range
holds-clear_range start end pid ls p type a h =
    let (kept, new_locks, done) = clear_loop start end pid ls in
    holds-append kept new_locks p type a ∙ clear_loop_lem start end pid ls p type a h

-- A lock that is taken is the only one of its process on its bytes; the rest is as it was.
pub holds-take_lock :
    (al : AdvisoryLock) (ls : List AdvisoryLock) (p : ℕ) (type : LockType) (a : ℕ)
    → al.start ≤ al.end
    → holds (take_lock al ls) p type a ≡ (
        if p == al.pid && within al.start al.end a
        then type_code al.type == type_code type
        else holds ls p type a)
unfolding take_lock
holds-take_lock al ls p type a h =
    holds-append (clear_range al.start al.end al.pid ls) (al ∷ []) p type a
    ∙ ground (arith, holds-clear_range al.start al.end al.pid ls p type a h)

-- A process that ends holds nothing, and the others hold what they held.
pub holds-drop_locks :
    (pid : ℕ) (ls : List AdvisoryLock) (p : ℕ) (type : LockType) (a : ℕ)
    → holds (drop_locks_for_pid pid ls) p type a ≡ (holds ls p type a && not (p == pid))
unfolding drop_locks_for_pid
holds-drop_locks pid [] p type a = refl
holds-drop_locks pid (l ∷ ls) p type a = ground (arith, holds-drop_locks pid ls p type a)
