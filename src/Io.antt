-- ===== src/Io.antt =====
-- base/io.h and io.cc: copying between vectors of buffers, and transfers of whole buffers over readers
-- and writers that may move less than they are asked to. A span is the list of its bytes; buffers do not
-- overlap.
pub mod Copy
pub mod Transfer
pub mod Vectored
pub mod Buffered
pub mod Flush
pub mod Channel
mod Tests
use junction.Prelude.{
  ℕ, zero, suc, ◌≡◌, ◌+◌, ◌-◌, ◌≤◌, ◌<◌, min, Bool, true, false, ◌==◌, ◌&&◌, if◌then◌else◌, ltb,
  leb, List, [], ◌∷◌, ◌++◌, length, take, drop, Option, none, some, Errno, other, Status, ok, err,
}

-- SumIOV, where the sum does not reach 2^64.
abbrev pub sum_iov : List (List ℕ) → ℕ
sum_iov [] = 0
sum_iov (v ∷ vs) = length v + sum_iov vs

-- GenericCopyv: what is left of the current span, or else the next one.
abbrev pub next_span : List ℕ → List (List ℕ) → Option (List ℕ × List (List ℕ))
next_span [] [] = none
next_span [] (v ∷ vs) = some (v, vs)
next_span (b ∷ bs) vs = some (b ∷ bs, vs)

abbrev pub concat : List (List ℕ) → List ℕ
concat [] = []
concat (v ∷ vs) = v ++ concat vs

-- The rest of the current target and the targets behind it, after the loop has gone on from `d`.
abbrev pub put_back : List ℕ → List ℕ × List (List ℕ) → List ℕ × List (List ℕ)
put_back [] (d, ds) = ([], d ∷ ds)
put_back (b ∷ bs) (d, ds) = (d, ds)

-- The new bytes of `dst` and of the buffers behind it, and the number of bytes that are copied.
abbrev pub Copy : Type 0
Copy = (List ℕ × List (List ℕ)) × ℕ

-- A round of the loop, which writes the bytes `bs` to a target, before the others.
abbrev pub after_round : List ℕ → List ℕ → ℕ → Option Copy → Option Copy
after_round dst bs n none = none
after_round dst bs n (some rest) = some (put_back dst (bs ++ rest.0.0, rest.0.1), n + rest.1)

-- `none` when the loop does not come to its end within the fuel.
pub copy_loop : ℕ → List ℕ → List (List ℕ) → List ℕ → List (List ℕ) → Option Copy
copy_loop zero src srcv dst dstv = none
copy_loop (suc fuel) src srcv dst dstv = elim (next_span src srcv) [
  | none ↦ some ((dst, dstv), 0)
  | some (s, ss) ↦ elim (next_span dst dstv) [
    | none ↦ some ((dst, dstv), 0)
    | some (d, ds) ↦
        let to_copy = min (length s) (length d) in
        after_round dst (take to_copy s) to_copy
          (copy_loop fuel (drop to_copy s) ss (drop to_copy d) ds)
  ]
]

-- Every round but the first takes a buffer off one of the two vectors. A loop that does not come to its
-- end has no result; the value is then one that no call returns.
abbrev pub finished : Option Copy → Copy
finished none = (([], []), 0)
finished (some r) = r

pub generic_copyv : List (List ℕ) → List (List ℕ) → List (List ℕ) × ℕ
generic_copyv srcv dstv =
    let result = finished (copy_loop (suc (length srcv + length dstv)) [] srcv [] dstv) in
    (result.0.1, result.1)

pub generic_writev : List (List ℕ) → List ℕ → List ℕ × ℕ
generic_writev srcv dst =
    let result = finished (copy_loop (suc (length srcv + 1)) [] srcv [] (dst ∷ [])) in
    (concat result.0.1, result.1)

pub generic_readv : List ℕ → List (List ℕ) → List (List ℕ) × ℕ
generic_readv src dstv = generic_copyv (src ∷ []) dstv

-- PullIOV, with `n` not above the sum.
pub pull_iov : List (List ℕ) → ℕ → List (List ℕ)
pull_iov [] n = []
pull_iov (v ∷ vs) n =
    let rest = pull_iov vs (n - length v) in if ltb n (length v) then drop n v ∷ vs else rest

abbrev pub unexpected_eof : Errno
unexpected_eof = other 515

-- `none` when the fuel does not suffice.
abbrev pub Outcome : Type 0 → Type 0
Outcome A = Option (Status A)

abbrev pub prepend : List ℕ → Outcome (List ℕ) → Outcome (List ℕ)
prepend bs (some (ok more)) = some (ok (bs ++ more))
prepend bs o = o

-- A reader gives up to `len` bytes, a writer takes some of the bytes that it is given.
module _ {R : Type 0} (read : R → ℕ → Status (List ℕ) × R) where
  pub read_full : ℕ → R → ℕ → Outcome (List ℕ) × R
  read_full zero r len = if len == 0 then (some (ok []), r) else (none, r)
  read_full (suc fuel) r len = if len == 0 then (some (ok []), r) else elim (read r len).0 [
    | err e ↦ (some (err e), (read r len).1)
    | ok [] ↦ (some (err unexpected_eof), (read r len).1)
    | ok (b ∷ bs) ↦
        let rest = read_full fuel (read r len).1 (len - length (b ∷ bs)) in
        (prepend (b ∷ bs) rest.0, rest.1)
  ]

  -- BufferedReader, with the capacity of its buffer; `pos` holds the bytes that are buffered.
  pub record BufferedReader : Type 0 where
    pub source : R
    pub len : ℕ
    pub pos : List ℕ

  pub read_from_buffer : BufferedReader → ℕ → List ℕ × BufferedReader
  read_from_buffer b n = (take n b.pos, record b { pos = drop n b.pos })

  pub refill : BufferedReader → Status (Unit {0}) × BufferedReader
  refill b = elim (read b.source b.len).0 [
    | err e ↦ (err e, record b { source = (read b.source b.len).1 })
    | ok bs ↦ (ok tt, record b { source = (read b.source b.len).1; pos = bs })
  ]

  pub buffered_read : BufferedReader → ℕ → Status (List ℕ) × BufferedReader
  buffered_read b dst =
      let (front, b1) = read_from_buffer b dst in
      let rest = dst - length front in
      if length front == dst
      then (ok front, b1)
      else if leb b1.len rest
      then elim (read b1.source b1.len).0 [
        | err e ↦ (err e, record b1 { source = (read b1.source b1.len).1 })
        | ok bs ↦ (ok (front ++ bs), record b1 { source = (read b1.source b1.len).1 })
      ]
      else elim (refill b1).0 [
        | err e ↦ (err e, (refill b1).1)
        | ok _ ↦ let (more, b2) = read_from_buffer (refill b1).1 rest in (ok (front ++ more), b2)
      ]

module _ {W : Type 0} (write : W → List ℕ → Status ℕ × W) where
  pub write_full : ℕ → W → List ℕ → Outcome (Unit {0}) × W
  write_full fuel w [] = (some (ok tt), w)
  write_full zero w (b ∷ bs) = (none, w)
  write_full (suc fuel) w (b ∷ bs) = elim (write w (b ∷ bs)).0 [
    | err e ↦ (some (err e), (write w (b ∷ bs)).1)
    | ok n ↦ write_full fuel (write w (b ∷ bs)).1 (drop n (b ∷ bs))
  ]

  pub record BufferedWriter : Type 0 where
    pub out : W
    pub capacity : ℕ
    pub buf : List ℕ

  pub flush : BufferedWriter → Outcome (Unit {0}) × BufferedWriter
  flush b =
      let result = write_full (length b.buf) b.out b.buf in
      (result.0, record b { out = result.1; buf = [] })

  -- The buffer after `src` is copied to it as far as it fits, flushed when it is full.
  pub fill : BufferedWriter → List ℕ → Outcome (Unit {0}) × BufferedWriter
  fill b src =
      let copy_size = min (length src) (b.capacity - length b.buf) in
      let b1 = record b { buf = b.buf ++ take copy_size src } in
      if length b1.buf == b.capacity then flush b1 else (some (ok tt), b1)

  pub buffered_write : ℕ → BufferedWriter → List ℕ → Outcome (Unit {0}) × BufferedWriter
  buffered_write fuel b [] = (some (ok tt), b)
  buffered_write zero b (x ∷ xs) = (none, b)
  buffered_write (suc fuel) b (x ∷ xs) =
      let src = x ∷ xs in
      if length b.buf == 0 && leb b.capacity (length src)
      then elim (write b.out src).0 [
        | err e ↦ (some (err e), record b { out = (write b.out src).1 })
        | ok n ↦ buffered_write fuel (record b { out = (write b.out src).1 }) (drop n src)
      ]
      else elim (fill b src).0 [
        | some (ok _) ↦
            buffered_write fuel (fill b src).1
              (drop (min (length src) (b.capacity - length b.buf)) src)
        | o ↦ (o, (fill b src).1)
      ]

-- DoFull for a VectoredWriter.
module _ {W : Type 0} (writev : W → List (List ℕ) → Status ℕ × W) where
  pub writev_loop : ℕ → W → List (List ℕ) → ℕ → Outcome (Unit {0}) × W
  writev_loop zero w s n = (none, w)
  writev_loop (suc fuel) w s n = elim (pull_iov s n) [
    | [] ↦ (some (ok tt), w)
    | v ∷ vs ↦ elim (writev w (v ∷ vs)).0 [
      | err e ↦ (some (err e), (writev w (v ∷ vs)).1)
      | ok m ↦ writev_loop fuel (writev w (v ∷ vs)).1 (v ∷ vs) m
    ]
  ]

  pub writev_full : ℕ → W → List (List ℕ) → Outcome (Unit {0}) × W
  writev_full fuel w iov = elim (writev w iov).0 [
    | err e ↦ (some (err e), (writev w iov).1)
    | ok n ↦
        if n == sum_iov iov
        then (some (ok tt), (writev w iov).1)
        else writev_loop fuel (writev w iov).1 iov n
  ]
