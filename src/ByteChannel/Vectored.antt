-- ===== src/ByteChannel/Vectored.antt =====
-- Readv and Writev, over the vector copy of base/io.cc, and save and load.
use junction.Prelude.{
  ℕ, ◌+◌, ◌-◌, min, Bool, ◌==◌, if◌then◌else◌, ltb, List, [], ◌∷◌, length, add64, sub64, Status, ok,
  err, eagain,
}
use junction.ByteChannel.{ByteChannel, masked, copy_out, copy_in}
use junction.Io.{generic_copyv}

-- `n` places from `from` on, as one or two buffers.
unfoldable pub pieces : ByteChannel → ℕ → ℕ → List (List ℕ)
pieces c from n =
    let n_to_end = c.size - masked c from in
    if ltb n_to_end n
    then copy_out c.buf (masked c from) n_to_end ∷ copy_out c.buf 0 (n - n_to_end) ∷ []
    else copy_out c.buf (masked c from) n ∷ []

-- The result are the caller's buffers and the number of bytes.
unfoldable pub readv : ByteChannel → List (List ℕ) → Bool → Status (List (List ℕ) × ℕ) × ByteChannel
readv c iov peek =
    let n = sub64 c.in_ c.out_ in
    let result = generic_copyv (pieces c c.out_ n) iov in
    if n == 0
    then (err eagain, c)
    else (ok result, if peek then c else record c { out_ = add64 c.out_ result.1 })

-- The buffer of the channel after the places have their new bytes.
unfoldable pub put_pieces : ByteChannel → ℕ → List (List ℕ) → List ℕ
put_pieces c from [] = c.buf
put_pieces c from (p ∷ []) = copy_in p c.buf (masked c from)
put_pieces c from (p ∷ q ∷ rest) = copy_in q (copy_in p c.buf (masked c from)) 0

unfoldable pub writev : ByteChannel → List (List ℕ) → Status ℕ × ByteChannel
writev c iov =
    let n = sub64 c.size (sub64 c.in_ c.out_) in
    let result = generic_copyv iov (pieces c c.in_ n) in
    if n == 0
    then (err eagain, c)
    else (ok result.1, record c { in_ = add64 c.in_ result.1; buf = put_pieces c c.in_ result.0 })

-- save gives the two segments; load takes them into a channel as it was constructed.
unfoldable pub save : ByteChannel → List ℕ × List ℕ
save c =
    let sz = sub64 c.in_ c.out_ in
    let seg_1 = min (c.size - masked c c.out_) sz in
    (copy_out c.buf (masked c c.out_) seg_1, copy_out c.buf 0 (sz - seg_1))

unfoldable pub load : ByteChannel → List ℕ × List ℕ → ByteChannel
load c (seg_1, seg_2) =
    let b = copy_in seg_1 c.buf 0 in
    let b' = copy_in seg_2 b (length seg_1) in
    record c { in_ = length seg_1 + length seg_2; buf = b' }
