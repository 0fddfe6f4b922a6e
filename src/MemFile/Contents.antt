-- ===== src/MemFile/Contents.antt =====
-- Reads and writes against the contents of the file.
use junction.Prelude.{
  ℕ, zero, suc, ◌+◌, ◌-◌, ◌^◌, ◌≤◌, ◌<◌, ◌≡◌, refl, ap, sym, ◌∙◌, true, false, ◌&&◌, if◌then◌else◌,
  ltb, leb, min, max, sub64, List, [], ◌∷◌, length, take, drop, get_or, Status, ok, arith,
}
use junction.Prelude.Tabulate.{
  tabulate, tabulate_cong, take-tabulate, drop-tabulate, tabulate-get_or,
}
use junction.Bits.{page_align}
use junction.MemFile.{Buffer, MemInode, max_size_bytes, read, copied, write, set_size}

abbrev pub contents : MemInode → List ℕ
contents m = tabulate m.buf m.size

-- A read that begins inside the file or at its end gives the bytes of the contents from there on, as many as
-- there are and are asked for, and goes on behind them.
pub read-contents :
    (len off : ℕ) (m : MemInode)
    → m.size < 2 ^ 64
    → off ≤ m.size
    → read len off m
      ≡ (ok (take (min len (m.size - off)) (drop off (contents m))), off + min len (m.size - off))
unfolding read
read-contents len off m h l =
    let left : sub64 m.size off ≡ m.size - off = omega arith in
    let n = min len (m.size - off) in
    let slice =
      ap (take n) (drop-tabulate m.buf off m.size)
      ∙ take-tabulate (λ i. m.buf (off + i)) n (m.size - off) (omega arith) in
    (λ i. (ok (tabulate (λ j. m.buf (off + j)) (min len (left i))), off + min len (left i)))
    ∙ (λ i. (ok (sym slice i), off + n))

-- A read that begins behind the end of the file gives as many bytes as are asked for, from the buffer behind
-- the end, where nothing is left to read.
pub read_behind_end :
    (len off : ℕ) (m : MemInode)
    → m.size < off
    → off < 2 ^ 63
    → len ≤ 2 ^ 63
    → read len off m ≡ (ok (tabulate (λ i. m.buf (off + i)) len), off + len)
unfolding read
read_behind_end len off m h l k =
    let all : min len (sub64 m.size off) ≡ len = omega arith in
    λ i. (ok (tabulate (λ j. m.buf (off + j)) (all i)), off + all i)

-- What a write of all its bytes leaves: they are read back, and the other bytes of the buffer are as before.
abbrev pub IsWritten : List ℕ → ℕ → MemInode → Status ℕ × ℕ × MemInode → Type 0
IsWritten src off m r =
    (r.0 ≡ ok (length src))
    × (r.1 ≡ off + length src)
    × (r.2.size ≡ max m.size (off + length src))
    × (read (length src) off (r.2) ≡ (ok src, off + length src))
    × ((a : ℕ) → (leb off a && ltb a (off + length src)) ≡ false → r.2.buf a ≡ m.buf a)

take_all : (n : ℕ) (xs : List ℕ) → length xs ≤ n → take n xs ≡ xs
take_all zero [] h = refl
take_all zero (x ∷ xs) h = absurd (omega arith)
take_all (suc n) [] h = refl
take_all (suc n) (x ∷ xs) h = ap (◌∷◌ x) (take_all n xs (omega arith))

copied_at :
    (src : List ℕ) (off i : ℕ) (buf : Buffer)
    → i < length src
    → copied src off buf (off + i) ≡ get_or src i 0
copied_at src off i buf h =
    let back : off + i - off ≡ i = omega arith in
    let inside : (leb off (off + i) && ltb (off + i) (off + length src)) ≡ true =
      ground (arith, h) in
    rw (inside, back) refl

read_back :
    (src : List ℕ) (off size : ℕ) (buf : Buffer)
    → size ≤ max_size_bytes
    → off + length src ≤ max_size_bytes
    → read (length src) off (record {
      buf = copied src off buf;
      size = if ltb size (off + length src) then off + length src else size;
    })
      ≡ (ok src, off + length src)
unfolding read
read_back src off size buf h l =
    let end = if ltb size (off + length src) then off + length src else size in
    let below : end < 2 ^ 64 = ground (arith, h, l) in
    let above : off + length src ≤ end = ground arith in
    let all : min (length src) (sub64 end off) ≡ length src = omega (arith, below, above) in
    let bytes =
      tabulate_cong (λ i. copied src off buf (off + i)) (λ i. get_or src i 0) (length src)
        (λ i p. copied_at src off i buf p)
      ∙ tabulate-get_or 0 src in
    (λ i. (ok (tabulate (λ j. copied src off buf (off + j)) (all i)), off + all i))
    ∙ (λ i. (ok (bytes i), off + length src))

-- A write within the largest size of a file takes all its bytes: a read at the same offset gives them back,
-- the file ends behind them or where it did, and the other bytes are as before.
pub write-IsWritten :
    (src : List ℕ) (off : ℕ) (m : MemInode)
    → m.size ≤ max_size_bytes
    → off < max_size_bytes
    → off + length src ≤ max_size_bytes
    → IsWritten src off m (write src off m)
unfolding write
write-IsWritten src off m h l k =
    let room : leb max_size_bytes off ≡ false = ground (arith, l) in
    let whole : take (max_size_bytes - off) src ≡ src =
      take_all (max_size_bytes - off) src (omega arith) in
    rw (room, whole)
      (refl, refl, ground arith, read_back src off m.size m.buf h k, λ a out. rw out refl)

set_size_in_page :
    (madvise : ℕ → ℕ → Buffer → Buffer) (newlen : ℕ) (m : MemInode)
    → newlen ≤ max_size_bytes
    → page_align newlen ≡ page_align m.size
    → (set_size madvise newlen m).1 ≡ record m { size = newlen }
unfolding set_size
set_size_in_page madvise newlen m h same =
    let fits : ltb max_size_bytes newlen ≡ false = ground (arith, h) in
    let equal : ltb (page_align newlen) (page_align m.size) ≡ false = ground (arith, same) in
    rw (fits, equal) refl

-- A file that is cut inside its last page and made as long as it was has its old bytes, also those that were
-- cut off.
pub set_size_restores :
    (madvise : ℕ → ℕ → Buffer → Buffer) (newlen : ℕ) (m : MemInode)
    → newlen ≤ m.size
    → m.size ≤ max_size_bytes
    → page_align newlen ≡ page_align m.size
    → (set_size madvise m.size ((set_size madvise newlen m).1)).1 ≡ m
set_size_restores madvise newlen m h l same =
    let cut = set_size_in_page madvise newlen m (omega arith) same in
    ap (λ (u : MemInode). (set_size madvise m.size u).1) cut
    ∙ set_size_in_page madvise m.size (record m { size = newlen }) l (sym same)
