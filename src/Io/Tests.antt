-- ===== src/Io/Tests.antt =====
-- Transfers over a channel of four bytes, and over a writer that takes two bytes at a time.
use junction.Prelude.{
  ℕ, ◌≡◌, refl, ap, min, List, [], ◌∷◌, ◌++◌, length, take, drop, map, some, Status, ok, arith,
}
use junction.ByteChannel.{init, read, write, bit_ceil, read_bytes, write_bytes}
use junction.ByteChannel.Valid.{init-IsValid}
use junction.Io.{
  sum_iov, concat, generic_copyv, copy_loop, BufferedReader, buffered_read, read_from_buffer,
  refill, buffered_write, writev_full,
}
use junction.Io.Copy.{generic_copyv_lem}
use junction.Io.Transfer.{Transferred, VectoredLaws}
use junction.Io.Vectored.{writev_full_lem}
use junction.Io.Flush.{Buffered, buffered_write_lem}
use junction.Io.Channel.{Channel, channel_bytes, channel_read, channel_write, channel-WriterLaws}

abbrev empty : Channel
empty = (init 4, (init-IsValid 4 (omega arith)).0)

abbrev three : Channel
three = (channel_write empty (1 ∷ 2 ∷ 3 ∷ [])).1

generic_copyv_lem_example :
    let (out, count) =
      generic_copyv
        ((1 ∷ 2 ∷ 3 ∷ []) ∷ [] ∷ (4 ∷ []) ∷ [])
        ((0 ∷ []) ∷ (0 ∷ 0 ∷ 0 ∷ 0 ∷ []) ∷ []) in
    (copy_loop 6 []
        ((1 ∷ 2 ∷ 3 ∷ []) ∷ [] ∷ (4 ∷ []) ∷ [])
        []
        ((0 ∷ []) ∷ (0 ∷ 0 ∷ 0 ∷ 0 ∷ []) ∷ [])
      ≡ some (([], out), count))
    × (count ≡ 4)
    × (concat out ≡ take count (1 ∷ 2 ∷ 3 ∷ 4 ∷ []) ++ drop count (0 ∷ 0 ∷ 0 ∷ 0 ∷ 0 ∷ []))
    × (map length out ≡ 1 ∷ 4 ∷ [])
generic_copyv_lem_example =
    generic_copyv_lem ((1 ∷ 2 ∷ 3 ∷ []) ∷ [] ∷ (4 ∷ []) ∷ []) ((0 ∷ []) ∷ (0 ∷ 0 ∷ 0 ∷ 0 ∷ []) ∷ [])

-- The bytes cross from one buffer to the next.
copied :
    generic_copyv ((1 ∷ 2 ∷ 3 ∷ []) ∷ [] ∷ (4 ∷ []) ∷ []) ((0 ∷ []) ∷ (0 ∷ 0 ∷ 0 ∷ 0 ∷ []) ∷ [])
    ≡ ((1 ∷ []) ∷ (2 ∷ 3 ∷ 4 ∷ 0 ∷ []) ∷ [], 4)
unfolding generic_copyv copy_loop
copied = refl

buffered_write_lem_example :
    Buffered channel_write channel_bytes channel-WriterLaws
      (record { out = empty; capacity = 2; buf = 7 ∷ [] })
      (1 ∷ 2 ∷ 3 ∷ [])
      (buffered_write channel_write 3
        (record { out = empty; capacity = 2; buf = 7 ∷ [] })
        (1 ∷ 2 ∷ 3 ∷ []))
buffered_write_lem_example =
    buffered_write_lem channel_write channel_bytes channel-WriterLaws 3
      (record { out = empty; capacity = 2; buf = 7 ∷ [] }) (1 ∷ 2 ∷ 3 ∷ []) (omega arith)
      (omega arith)

abbrev reader : BufferedReader channel_read
reader = record { source = three; len = 8; pos = 9 ∷ [] }

four_bytes : (buffered_read channel_read reader 3).0 ≡ ok (9 ∷ 1 ∷ 2 ∷ [])
unfolding buffered_read read_from_buffer refill read write init bit_ceil read_bytes write_bytes
four_bytes = refl

abbrev two_at_a_time : List ℕ → List (List ℕ) → Status ℕ × List ℕ
two_at_a_time w vs = (ok (min 2 (sum_iov vs)), w ++ take (min 2 (sum_iov vs)) (concat vs))

two_at_a_time-laws : VectoredLaws two_at_a_time (λ w. w)
two_at_a_time-laws = record {
  takes = λ w vs n e.
      let same : min 2 (sum_iov vs) ≡ n = ground (arith, e) in
      (omega (arith, same), ap (λ (k : ℕ). w ++ take k (concat vs)) same);
  moves = λ w vs n e pos. ground (arith, e, pos);
  fails = λ w vs x e. absurd (ground (arith, e));
}

writev_full_lem_example :
    let (o, w) = writev_full two_at_a_time 6 [] ((1 ∷ 2 ∷ 3 ∷ []) ∷ [] ∷ (4 ∷ 5 ∷ []) ∷ []) in
    Transferred [] (1 ∷ 2 ∷ 3 ∷ 4 ∷ 5 ∷ []) w o
writev_full_lem_example =
    writev_full_lem two_at_a_time (λ w. w) two_at_a_time-laws 6 []
      ((1 ∷ 2 ∷ 3 ∷ []) ∷ [] ∷ (4 ∷ 5 ∷ []) ∷ []) (omega arith) (omega arith)
