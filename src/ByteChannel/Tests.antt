-- ===== src/ByteChannel/Tests.antt =====
-- Runs of byte_channel.h on a channel for five bytes.
use junction.Prelude.{
  ℕ, ◌-◌, ◌≡◌, ◌==◌, if◌then◌else◌, false, List, [], ◌∷◌, ◌++◌, min, take, drop, length, arith, ok,
  err, eagain,
}
use junction.ByteChannel.{ByteChannel, init, read, write}
use junction.ByteChannel.Valid.{IsValid, used, contents, init-IsValid}
use junction.ByteChannel.Read.{read_lem}
use junction.ByteChannel.Write.{write_lem}
use junction.ByteChannel.Vectored.{writev}
use junction.ByteChannel.Gather.{writev_lem}

abbrev bytes : List ℕ
bytes = 7 ∷ 8 ∷ 9 ∷ []

write_lem_example :
    let n = min ((init 5).size - used (init 5)) (length bytes) in
    let (r, c) = write (init 5) bytes in
    IsValid c
    × (r ≡ (if n == 0 then err eagain else ok n))
    × (contents c ≡ contents (init 5) ++ take n bytes)
write_lem_example = write_lem (init 5) bytes (init-IsValid 5 (omega arith)).0

abbrev written : ByteChannel
written = (write (init 5) bytes).1

written-IsValid : IsValid written
written-IsValid = (write_lem (init 5) bytes (init-IsValid 5 (omega arith)).0).0

read_lem_example :
    let n = min (used written) 2 in
    let (r, c) = read written 2 false in
    IsValid c
    × (r ≡ (if n == 0 then err eagain else ok (take n (contents written))))
    × (contents c ≡ drop n (contents written))
read_lem_example = read_lem written 2 false written-IsValid

writev_lem_example :
    let n = min (written.size - used written) 6 in
    let (r, c) = writev written ((1 ∷ 2 ∷ 3 ∷ 4 ∷ []) ∷ [] ∷ (5 ∷ 6 ∷ []) ∷ []) in
    IsValid c
    × (r ≡ (if written.size - used written == 0 then err eagain else ok n))
    × (contents c ≡ contents written ++ take n (1 ∷ 2 ∷ 3 ∷ 4 ∷ 5 ∷ 6 ∷ []))
writev_lem_example =
    writev_lem written ((1 ∷ 2 ∷ 3 ∷ 4 ∷ []) ∷ [] ∷ (5 ∷ 6 ∷ []) ∷ []) written-IsValid
