-- ===== src/MemFile.antt =====
-- fs/memfs/memfs.h and memfs.cc: MemInode, a file in memory. The buffer is a function on offsets. The
-- advice to the host kernel that drops pages is an argument: what it makes of a buffer from an offset on,
-- for a length.
pub mod Contents
mod Tests
use junction.Prelude.{
  ℕ, ◌+◌, ◌-◌, ◌^◌, ◌≤◌, ◌<◌, ◌≡◌, Bool, ◌&&◌, if◌then◌else◌, ltb, leb, min, max, sub64, List,
  length, take, get_or, Status, ok, err, einval, other,
}
use junction.Prelude.Tabulate.{tabulate}
use junction.Bits.{page_align}

abbrev pub Buffer : Type 0
Buffer = ℕ → ℕ

pub record MemInode : Type 0 where
  pub buf : Buffer
  pub size : ℕ

-- kMaxSizeBytes, 2 ^ 28
abbrev pub max_size_bytes : ℕ
max_size_bytes = 268435456

abbrev pub enospc : ℕ
enospc = 28

-- Read gives the bytes and the next offset; size_ - *off is taken on words of 64 bits.
unfoldable pub read : ℕ → ℕ → MemInode → Status (List ℕ) × ℕ
read len off m =
    let n = min len (sub64 m.size off) in (ok (tabulate (λ i. m.buf (off + i)) n), off + n)

-- The buffer with bytes copied to an offset.
abbrev pub copied : List ℕ → ℕ → Buffer → Buffer
copied src off buf a =
    if leb off a && ltb a (off + length src) then get_or src (a - off) 0 else buf a

-- Write gives the number of bytes and the next offset.
unfoldable pub write : List ℕ → ℕ → MemInode → Status ℕ × ℕ × MemInode
write src off m =
    let kept = take (max_size_bytes - off) src in
    let end = off + length kept in
    if leb max_size_bytes off then (err (other enospc), off, m) else (
      ok (length kept),
      end,
      record { buf = copied kept off m.buf; size = if ltb m.size end then end else m.size },
    )

unfoldable pub set_size : (ℕ → ℕ → Buffer → Buffer) → ℕ → MemInode → Status ℕ × MemInode
set_size madvise newlen m =
    let newlen_p = page_align newlen in
    let oldlen_p = page_align m.size in
    if ltb max_size_bytes newlen then (err einval, m) else (
      ok 0,
      record {
        buf = if ltb newlen_p oldlen_p then madvise newlen_p (oldlen_p - newlen_p) m.buf else m.buf;
        size = newlen;
      },
    )
