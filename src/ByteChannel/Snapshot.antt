-- ===== src/ByteChannel/Snapshot.antt =====
-- save and load.
use native.Mathlib.Nat.{mod-eq_of_lt}
use junction.Prelude.{
  ℕ, ◌≡◌, ◌+◌, ◌-◌, ◌%◌, ◌≤◌, ◌<◌, sym, ap, ◌∙◌, min, ltb, List, ◌++◌, length, append-nil, get_or,
  arith, Bool-cases, inl, inr, length-append, ltb→lt, ltb_false→le,
}
use junction.Prelude.Tabulate.{
  tabulate, tabulate_cong, length-tabulate, tabulate-get_or, get_or-append,
}
use junction.ByteChannel.{ByteChannel, copy_out, copy_in}
use junction.ByteChannel.Valid.{IsValid, used, contents}
use junction.ByteChannel.Write.{length-copy_in, get_or-copy_in}
use junction.ByteChannel.Spread.{all_contents}
use junction.ByteChannel.Vectored.{pieces, save, load}
use junction.Io.{concat}

-- The two segments hold the bytes of the channel.
saved_bytes : (c : ByteChannel) → IsValid c → (save c).0 ++ (save c).1 ≡ contents c
unfolding save pieces
saved_bytes c v =
    let n_to_end = c.size - c.out_ % c.size in
    let segments = λ (k : ℕ). copy_out c.buf (c.out_ % c.size) k ++ copy_out c.buf 0 (used c - k) in
    elim (Bool-cases (ltb n_to_end (used c))) [
      | inl wraps ↦
          let first : min n_to_end (used c) ≡ n_to_end =
            omega (arith, ltb→lt n_to_end (used c) wraps) in
          let joined : concat (pieces c c.out_ (used c)) ≡ segments n_to_end =
            rw wraps (
              ap (λ (l : List ℕ). copy_out c.buf (c.out_ % c.size) n_to_end ++ l) (append-nil _)) in
          ap segments first ∙ (sym joined ∙ all_contents c v)
      | inr fits ↦
          let first : min n_to_end (used c) ≡ used c =
            omega (arith, ltb_false→le n_to_end (used c) fits) in
          let nothing : used c - used c ≡ 0 = omega arith in
          let joined : concat (pieces c c.out_ (used c))
              ≡ copy_out c.buf (c.out_ % c.size) (used c) =
            rw fits (append-nil _) in
          ap segments first
          ∙ (ap (λ (k : ℕ). copy_out c.buf (c.out_ % c.size) (used c) ++ copy_out c.buf 0 k) nothing
              ∙ (append-nil _ ∙ (sym joined ∙ all_contents c v)))
    ]

-- A channel that is loaded into a new one holds the two segments, one after the other.
contents-load :
    (new : ByteChannel) (s t : List ℕ)
    → IsValid new
    → new.out_ ≡ 0
    → length s + length t ≤ new.size
    → IsValid (load new (s, t)) × (contents (load new (s, t)) ≡ s ++ t)
unfolding load
contents-load new s t w start room =
    let b = copy_in s new.buf 0 in
    let len_b : length b ≡ length new.buf = length-copy_in s new.buf 0 (omega (arith, w.storage)) in
    let loaded = copy_in t b (length s) in
    let c' = load new (s, t) in
    let count : used c' ≡ length (s ++ t) = ground (arith, start, length-append s t, w.small) in
    (
      record {
        divides = w.divides;
        room = w.room;
        small = w.small;
        storage =
            length-copy_in t b (length s) (omega (arith, len_b, w.storage)) ∙ (len_b ∙ w.storage);
        in_small = omega (arith, w.small);
        out_small = w.out_small;
        within = omega (arith, count, length-append s t);
      },
      ap (tabulate (λ i. get_or loaded ((new.out_ + i) % new.size) 0)) count
          ∙ (tabulate_cong (λ i. get_or loaded ((new.out_ + i) % new.size) 0)
                (λ i. get_or (s ++ t) i 0) (length (s ++ t))
                (λ i p.
                  let small_i : i < new.size = omega (arith, length-append s t) in
                  let plain : new.out_ + i ≡ i = omega (arith, start) in
                  ap (λ (k : ℕ). get_or loaded k 0)
                    (ap (λ (k : ℕ). k % new.size) plain ∙ mod-eq_of_lt small_i)
                  ∙ ground (
                    arith,
                    get_or-copy_in t b (length s) i (omega (arith, len_b, w.storage)),
                    get_or-copy_in s new.buf 0 i (omega (arith, w.storage)),
                    get_or-append 0 s t i,
                    length-append s t,
                  ))
              ∙ tabulate-get_or 0 (s ++ t)),
    )

-- A channel that is saved and loaded into a new one of its size has the same bytes, in their order.
pub contents-load-save :
    (c new : ByteChannel)
    → IsValid c
    → IsValid new
    → new.size ≡ c.size
    → new.out_ ≡ 0
    → IsValid (load new (save c)) × (contents (load new (save c)) ≡ contents c)
contents-load-save c new v w size start =
    let all = saved_bytes c v in
    let (s, t) = save c in
    let room : length s + length t ≤ new.size = omega (
      arith,
      length-append s t,
      ap length all,
      length-tabulate (λ i. get_or c.buf ((c.out_ + i) % c.size) 0) (used c),
      v.within,
      size,
    ) in
    let (valid, bytes) = contents-load new s t w start room in (valid, bytes ∙ all)
