-- ===== src/ByteChannel.antt =====
-- base/byte_channel.h: a FIFO of bytes for one reader and one writer. The counters are size_t and
-- wrap; each method is one step of the thread that owns its counter, and takes the other counter as
-- it was loaded.
pub mod Valid
pub mod Read
pub mod Write
pub mod Vectored
pub mod Spread
pub mod Gather
pub mod Snapshot
mod Tests
use junction.Prelude.{
  ℕ, zero, suc, ◌+◌, ◌-◌, ◌*◌, ◌%◌, ◌≤◌, min, max, Bool, true, false, ◌==◌, if◌then◌else◌, ltb, leb,
  List, [], ◌∷◌, ◌++◌, length, take, drop, replicate, add64, sub64, Status, ok, err, eagain,
}

pub record ByteChannel : Type 0 where
  pub in_ : ℕ
  pub out_ : ℕ
  pub size : ℕ
  pub buf : List ℕ

-- std::bit_ceil: the least power of two from `p` on that is not below `n`, in at most `fuel`
-- doublings. For 64-bit words, `bit_ceil 64 1 n` is defined up to 2^63 in C++.
unfoldable pub bit_ceil : ℕ → ℕ → ℕ → ℕ
bit_ceil zero p n = p
bit_ceil (suc fuel) p n = let rest = bit_ceil fuel (2 * p) n in if leb n p then p else rest

unfoldable pub init : ℕ → ByteChannel
unfolding bit_ceil
init n = record {
  in_ = 0;
  out_ = 0;
  size = bit_ceil 64 1 (max n 1);
  buf = replicate (bit_ceil 64 1 (max n 1)) 0;
}

-- `x & mask_` for `mask_ = size_ - 1` and a power of two.
abbrev pub masked : ByteChannel → ℕ → ℕ
masked c x = x % c.size

unfoldable pub is_empty : ByteChannel → Bool
is_empty c = c.in_ == c.out_

unfoldable pub is_full : ByteChannel → Bool
is_full c = leb c.size (sub64 c.in_ c.out_)

unfoldable pub get_readable_bytes : ByteChannel → ℕ
get_readable_bytes c = sub64 c.in_ c.out_

-- std::copy_n out of a vector, and into it.
abbrev pub copy_out : List ℕ → ℕ → ℕ → List ℕ
copy_out buf from n = take n (drop from buf)

abbrev pub copy_in : List ℕ → List ℕ → ℕ → List ℕ
copy_in src buf to = take to buf ++ (src ++ drop (to + length src) buf)

-- The bytes that Read copies to its buffer, from the two pieces of a range that wraps around.
unfoldable pub read_bytes : ByteChannel → ℕ → List ℕ
read_bytes c n =
    let n_to_end = c.size - masked c c.out_ in
    if ltb n_to_end n
    then copy_out c.buf (masked c c.out_) n_to_end ++ copy_out c.buf 0 (n - n_to_end)
    else copy_out c.buf (masked c c.out_) n

-- `len` is the length of the caller's buffer.
unfoldable pub read : ByteChannel → ℕ → Bool → Status (List ℕ) × ByteChannel
read c len peek =
    let n = min (sub64 c.in_ c.out_) len in
    if n == 0
    then (err eagain, c)
    else (ok (read_bytes c n), if peek then c else record c { out_ = add64 c.out_ n })

-- The buffer after the first `n` bytes of `src` are written at `in_`.
unfoldable pub write_bytes : ByteChannel → List ℕ → ℕ → List ℕ
write_bytes c src n =
    let n_to_end = c.size - masked c c.in_ in
    if ltb n_to_end n
    then copy_in (copy_out src n_to_end (n - n_to_end))
        (copy_in (copy_out src 0 n_to_end) c.buf (masked c c.in_)) 0
    else copy_in (copy_out src 0 n) c.buf (masked c c.in_)

unfoldable pub write : ByteChannel → List ℕ → Status ℕ × ByteChannel
write c src =
    let n = min (sub64 c.size (sub64 c.in_ c.out_)) (length src) in
    if n == 0
    then (err eagain, c)
    else (ok n, record c { in_ = add64 c.in_ n; buf = write_bytes c src n })
