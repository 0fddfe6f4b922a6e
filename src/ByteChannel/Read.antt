-- ===== src/ByteChannel/Read.antt =====
-- Read takes the oldest bytes.
use native.Mathlib.Nat.{mod-lt}
use junction.Prelude.{
  ℕ, ◌+◌, ◌-◌, ◌%◌, ◌≤◌, ◌<◌, min, ◌≡◌, refl, ◌++◌, take, drop, get_or, add64, arith, ap, ap₂, ◌∙◌,
  sym, Bool, true, false, Bool-cases, inl, inr, ltb, ltb→lt, ltb_false→le, if◌then◌else◌, ◌==◌, ok,
  err, eagain, dec_lt, ne_zero_test,
}
use junction.Prelude.Tabulate.{
  tabulate, tabulate_cong, tabulate-add, take-tabulate, drop-tabulate, take-drop,
}
use junction.ByteChannel.{ByteChannel, copy_out, read_bytes, read}
use junction.ByteChannel.Valid.{
  IsValid, used, contents, place_wrapped, place_before_end, place_behind_end,
}

pub read_bytes-eq :
    (c : ByteChannel) (n : ℕ) → IsValid c → n ≤ used c → read_bytes c n ≡ take n (contents c)
unfolding read_bytes
read_bytes-eq c n v h =
    let s = c.size in
    let o = c.out_ in
    let to_end = s - o % s in
    let at_o = mod-lt o v.room in
    let byte = λ (i : ℕ). get_or c.buf ((o + i) % s) 0 in
    elim (Bool-cases (ltb to_end n)) [
      | inl wraps ↦
          let more : to_end < n = ltb→lt to_end n wraps in
          let first : copy_out c.buf (o % s) to_end ≡ tabulate byte to_end =
            take-drop 0 (o % s) to_end c.buf (omega (arith, v.storage, at_o))
            ∙ tabulate_cong (λ i. get_or c.buf (o % s + i) 0) byte to_end
                (λ i p. ap (λ (k : ℕ). get_or c.buf k 0) (sym (place_before_end s o i p))) in
          let second : copy_out c.buf 0 (n - to_end)
              ≡ tabulate (λ i. byte (to_end + i)) (n - to_end) =
            take-drop 0 0 (n - to_end) c.buf (omega (arith, v.storage, v.within))
            ∙ tabulate_cong (λ i. get_or c.buf (0 + i) 0) (λ i. byte (to_end + i)) (n - to_end)
                (λ i p.
                  ap (λ (k : ℕ). get_or c.buf k 0)
                    (sym (
                      place_behind_end s o (to_end + i) (0 + i) (omega (arith, v.within))
                        (omega (arith, at_o))))) in
          let whole : to_end + (n - to_end) ≡ n = omega arith in
          rw wraps (
            ap₂ ◌++◌ first second
            ∙ (sym (tabulate-add byte to_end (n - to_end))
                ∙ (ap (tabulate byte) whole ∙ sym (take-tabulate byte n (used c) h))))
      | inr fits ↦
          let room : n ≤ to_end = ltb_false→le to_end n fits in
          rw fits (
            take-drop 0 (o % s) n c.buf (omega (arith, v.storage, at_o))
            ∙ (tabulate_cong (λ i. get_or c.buf (o % s + i) 0) byte n
                  (λ i p.
                    ap (λ (k : ℕ). get_or c.buf k 0) (sym (place_before_end s o i (omega arith))))
                ∙ sym (take-tabulate byte n (used c) h)))
    ]

-- The channel after `n` bytes are taken.
unfoldable pub advanced : ByteChannel → ℕ → ByteChannel
advanced c n = record c { out_ = add64 c.out_ n }

used-advanced :
    (c : ByteChannel) (n : ℕ) → IsValid c → n ≤ used c → used (advanced c n) ≡ used c - n
unfolding advanced
used-advanced c n v h = omega (arith, v.in_small, v.out_small)

pub advanced-IsValid : (c : ByteChannel) (n : ℕ) → IsValid c → n ≤ used c → IsValid (advanced c n)
unfolding advanced
advanced-IsValid c n v h = record {
  divides = v.divides;
  room = v.room;
  small = v.small;
  storage = v.storage;
  in_small = v.in_small;
  out_small = omega arith;
  within = omega (arith, used-advanced c n v h, v.within);
}

pub contents-advanced :
    (c : ByteChannel) (n : ℕ)
    → IsValid c
    → n ≤ used c
    → contents (advanced c n) ≡ drop n (contents c)
unfolding advanced
contents-advanced c n v h =
    ap (tabulate (λ i. get_or c.buf ((add64 c.out_ n + i) % c.size) 0)) (used-advanced c n v h)
    ∙ (tabulate_cong (λ i. get_or c.buf ((add64 c.out_ n + i) % c.size) 0)
          (λ i. get_or c.buf ((c.out_ + (n + i)) % c.size) 0) (used c - n)
          (λ i p.
            let e : c.out_ + n + i ≡ c.out_ + (n + i) = omega arith in
            ap (λ (k : ℕ). get_or c.buf k 0)
              (place_wrapped c.size (c.out_ + n) i v.divides ∙ ap (λ (k : ℕ). k % c.size) e))
        ∙ sym (drop-tabulate (λ i. get_or c.buf ((c.out_ + i) % c.size) 0) n (used c)))

read_empty :
    (c : ByteChannel) (len : ℕ) (peek : Bool)
    → min (used c) len ≡ 0
    → read c len peek ≡ (err eagain, c)
unfolding read
read_empty c len peek e = ground (arith, e)

read_some :
    (c : ByteChannel) (len : ℕ) (peek : Bool)
    → 0 < min (used c) len
    → read c len peek
      ≡ (ok (read_bytes c (min (used c) len)), if peek then c else advanced c (min (used c) len))
unfolding read advanced
read_some c len peek e = ground (arith, e)

-- Read on a valid channel fails with EAGAIN exactly when the channel is empty or no byte is asked
-- for; else it returns the oldest bytes, as many as there are up to `len`. Without `peek` these
-- leave the channel, with it nothing changes. The channel stays valid.
pub read_lem :
    (c : ByteChannel) (len : ℕ) (peek : Bool)
    → IsValid c
    → let n = min (used c) len in
      let (r, c') = read c len peek in
      IsValid c'
      × (r ≡ (if n == 0 then err eagain else ok (take n (contents c))))
      × (contents c' ≡ (if peek then contents c else drop n (contents c)))
read_lem c len peek v = elim (dec_lt 0 (min (used c) len)) [
  | yes some_bytes ↦
      let le : min (used c) len ≤ used c = omega arith in
      rw
        (
          read_some c len peek some_bytes,
          ne_zero_test (min (used c) len) some_bytes,
          read_bytes-eq c (min (used c) len) v le,
        )
        (after peek le)
  | no nothing ↦
      let zero_bytes : min (used c) len ≡ 0 = omega arith in
      rw (read_empty c len peek zero_bytes, zero_bytes) (v, refl, same peek)
]
  where
    after :
        (peek : Bool)
        → min (used c) len ≤ used c
        → let c' = if peek then c else advanced c (min (used c) len) in
          IsValid c'
          × (ok (take (min (used c) len) (contents c)) ≡ ok (take (min (used c) len) (contents c)))
          × (contents c' ≡ (if peek then contents c else drop (min (used c) len) (contents c)))
    after true le = (v, refl, refl)
    after false le = (
      advanced-IsValid c (min (used c) len) v le,
      refl,
      contents-advanced c (min (used c) len) v le,
    )

    same : (peek : Bool) → contents c ≡ (if peek then contents c else contents c)
    same true = refl
    same false = refl
