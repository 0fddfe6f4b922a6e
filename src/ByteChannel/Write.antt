-- ===== src/ByteChannel/Write.antt =====
-- Write appends bytes.
use native.Mathlib.Nat.{mod-lt, add-mod_right}
use junction.Prelude.{
  ℕ, ◌+◌, ◌-◌, ◌%◌, ◌^◌, ◌≤◌, ◌<◌, min, ◌≡◌, refl, List, ◌++◌, take, drop, length, get_or, add64,
  sub64, sub64-eq-sub, append-nil, ne_zero_test, lt→ltb, le→ltb_false, arith, ap, ap₂, ◌∙◌, sym,
  Bool-cases, inl, inr, ltb, ltb→lt, ltb_false→le, if◌then◌else◌, ◌==◌, ok, err, eagain, dec_lt,
  length-take, length-drop, length-append,
}
use junction.Prelude.Tabulate.{
  tabulate, tabulate_cong, tabulate-add, take-drop, get_or-append, get_or-take, get_or-drop,
}
use junction.ByteChannel.{ByteChannel, copy_out, copy_in, write_bytes, write}
use junction.ByteChannel.Valid.{
  IsValid, used, contents, place_wrapped, place_before_end, place_behind_end,
}

pub length-copy_in :
    (src buf : List ℕ) (to : ℕ)
    → to + length src ≤ length buf
    → length (copy_in src buf to) ≡ length buf
length-copy_in src buf to h = omega (
  arith,
  length-append (take to buf) (src ++ drop (to + length src) buf),
  length-append src (drop (to + length src) buf),
  length-take to buf,
  length-drop (to + length src) buf,
)

pub get_or-copy_in :
    (src buf : List ℕ) (to i : ℕ)
    → to + length src ≤ length buf
    → get_or (copy_in src buf to) i 0 ≡ (
        if ltb i to
        then get_or buf i 0
        else if ltb i (to + length src)
        then get_or src (i - to) 0
        else get_or buf i 0)
get_or-copy_in src buf to i h = ground (
  arith,
  get_or-append 0 (take to buf) (src ++ drop (to + length src) buf) i,
  get_or-append 0 src (drop (to + length src) buf) (i - to),
  get_or-take 0 to i buf,
  get_or-drop 0 (to + length src) (i - to - length src) buf,
  length-take to buf,
)

pub length-copy_out :
    (buf : List ℕ) (from n : ℕ) → from + n ≤ length buf → length (copy_out buf from n) ≡ n
length-copy_out buf from n h = omega (arith, length-take n (drop from buf), length-drop from buf)

get_or-copy_out :
    (buf : List ℕ) (from n i : ℕ)
    → i < n
    → get_or (copy_out buf from n) i 0 ≡ get_or buf (from + i) 0
get_or-copy_out buf from n i h = get_or-take 0 n i (drop from buf) h ∙ get_or-drop 0 from i buf

-- The place that lies `k` places behind the writer.
place :
    (c : ByteChannel) (k : ℕ)
    → IsValid c
    → k < c.size
    → (c.in_ + k) % c.size ≡ (
        if ltb k (c.size - c.in_ % c.size)
        then c.in_ % c.size + k
        else k - (c.size - c.in_ % c.size))
place c k v h = elim (Bool-cases (ltb k (c.size - c.in_ % c.size))) [
  | inl before ↦ rw before (place_before_end c.size c.in_ k (ltb→lt _ _ before))
  | inr behind ↦
      let at_in = mod-lt c.in_ v.room in
      let past : c.size - c.in_ % c.size ≤ k = ltb_false→le k (c.size - c.in_ % c.size) behind in
      rw behind (
        place_behind_end c.size c.in_ k (k - (c.size - c.in_ % c.size)) (omega arith)
          (omega (arith, at_in)))
]

-- A write that wraps around, at the place `p` that lies `k` behind the writer.
get_or_two_pieces :
    (src buf : List ℕ) (t e n k p : ℕ)
    → t + e ≡ length buf
    → e < n
    → n ≤ length src
    → n ≤ length buf
    → k < length buf
    → p ≡ (if ltb k e then t + k else k - e)
    → get_or (copy_in (copy_out src e (n - e)) (copy_in (copy_out src 0 e) buf t) 0) p 0
      ≡ (if ltb k n then get_or src k 0 else get_or buf p 0)
get_or_two_pieces src buf t e n k p whole more hs hb hk at_p =
    let head = copy_out src 0 e in
    let tail = copy_out src e (n - e) in
    let len_head : length head ≡ e = length-copy_out src 0 e (omega arith) in
    let len_tail : length tail ≡ n - e = length-copy_out src e (n - e) (omega arith) in
    let len_in : length (copy_in head buf t) ≡ length buf =
      length-copy_in head buf t (omega (arith, len_head)) in
    let outer = get_or-copy_in tail (copy_in head buf t) 0 p (omega (arith, len_tail, len_in)) in
    let inner = get_or-copy_in head buf t p (omega (arith, len_head)) in
    outer
    ∙ ground (
      arith,
      inner,
      len_head,
      len_tail,
      get_or-copy_out src e (n - e) (p - 0),
      get_or-copy_out src 0 e (p - t),
    )

-- A write that does not.
get_or_one_piece :
    (src buf : List ℕ) (t e n k p : ℕ)
    → t + e ≡ length buf
    → n ≤ e
    → n ≤ length src
    → k < length buf
    → p ≡ (if ltb k e then t + k else k - e)
    → get_or (copy_in (copy_out src 0 n) buf t) p 0
      ≡ (if ltb k n then get_or src k 0 else get_or buf p 0)
get_or_one_piece src buf t e n k p whole fits hs hk at_p =
    let len : length (copy_out src 0 n) ≡ n = length-copy_out src 0 n (omega arith) in
    get_or-copy_in (copy_out src 0 n) buf t p (omega (arith, len))
    ∙ ground (arith, len, get_or-copy_out src 0 n (p - t))

-- The first `n` bytes of `src` lie behind the writer, and every other place is as it was.
get_or-write_bytes :
    (c : ByteChannel) (src : List ℕ) (n k : ℕ)
    → IsValid c
    → n ≤ length src
    → n ≤ c.size
    → k < c.size
    → get_or (write_bytes c src n) ((c.in_ + k) % c.size) 0
      ≡ (if ltb k n then get_or src k 0 else get_or c.buf ((c.in_ + k) % c.size) 0)
unfolding write_bytes
get_or-write_bytes c src n k v h room hk =
    let t = c.in_ % c.size in
    let e = c.size - t in
    let whole : t + e ≡ length c.buf = omega (arith, mod-lt c.in_ v.room, v.storage) in
    elim (Bool-cases (ltb e n)) [
      | inl wraps ↦ rw wraps (
          get_or_two_pieces src c.buf t e n k ((c.in_ + k) % c.size) whole (ltb→lt e n wraps) h
            (omega (arith, v.storage)) (omega (arith, v.storage)) (place c k v hk))
      | inr fits ↦ rw fits (
          get_or_one_piece src c.buf t e n k ((c.in_ + k) % c.size) whole (ltb_false→le e n fits) h
            (omega (arith, v.storage)) (place c k v hk))
    ]

length-write_bytes :
    (c : ByteChannel) (src : List ℕ) (n : ℕ)
    → IsValid c
    → n ≤ length src
    → n ≤ c.size
    → length (write_bytes c src n) ≡ c.size
unfolding write_bytes
length-write_bytes c src n v h room =
    let t = c.in_ % c.size in
    let e = c.size - t in
    let at_in = mod-lt c.in_ v.room in
    elim (Bool-cases (ltb e n)) [
      | inl wraps ↦
          let more : e < n = ltb→lt e n wraps in
          let head = copy_out src 0 e in
          let tail = copy_out src e (n - e) in
          let len_head : length head ≡ e = length-copy_out src 0 e (omega arith) in
          let len_tail : length tail ≡ n - e = length-copy_out src e (n - e) (omega arith) in
          let len_in : length (copy_in head c.buf t) ≡ length c.buf =
            length-copy_in head c.buf t (omega (arith, len_head, v.storage, at_in)) in
          rw wraps (
            length-copy_in tail (copy_in head c.buf t) 0
              (omega (arith, len_tail, len_in, v.storage))
            ∙ (len_in ∙ v.storage))
      | inr fits ↦
          let le : n ≤ e = ltb_false→le e n fits in
          let len : length (copy_out src 0 n) ≡ n = length-copy_out src 0 n (omega arith) in
          rw fits (
            length-copy_in (copy_out src 0 n) c.buf t (omega (arith, len, v.storage, at_in))
            ∙ v.storage)
    ]

-- The channel after the first `n` bytes of `src` are written.
unfoldable pub extended : ByteChannel → List ℕ → ℕ → ByteChannel
extended c src n = record c { in_ = add64 c.in_ n; buf = write_bytes c src n }

pub used-extended :
    (c : ByteChannel) (src : List ℕ) (n : ℕ)
    → IsValid c
    → n ≤ c.size - used c
    → used (extended c src n) ≡ used c + n
unfolding extended
used-extended c src n v h = omega (arith, v.in_small, v.out_small, v.within, v.small)

pub extended-IsValid :
    (c : ByteChannel) (src : List ℕ) (n : ℕ)
    → IsValid c
    → n ≤ c.size - used c
    → n ≤ length src
    → IsValid (extended c src n)
unfolding extended
extended-IsValid c src n v h hs = record {
  divides = v.divides;
  room = v.room;
  small = v.small;
  storage = length-write_bytes c src n v hs (omega arith);
  in_small = omega arith;
  out_small = v.out_small;
  within = omega (arith, used-extended c src n v h, v.within);
}

-- The writer stands `used` bytes behind the reader.
writer_place :
    (c : ByteChannel) (k : ℕ) → IsValid c → (c.in_ + k) % c.size ≡ (c.out_ + used c + k) % c.size
writer_place c k v =
    let e : c.in_ ≡ (c.out_ + used c) % 2 ^ 64 = omega (arith, v.in_small, v.out_small) in
    ap (λ (x : ℕ). (x + k) % c.size) e ∙ place_wrapped c.size (c.out_ + used c) k v.divides

old_byte :
    (c : ByteChannel) (src : List ℕ) (n i : ℕ)
    → IsValid c
    → n ≤ c.size - used c
    → n ≤ length src
    → i < used c
    → get_or (write_bytes c src n) ((c.out_ + i) % c.size) 0
      ≡ get_or c.buf ((c.out_ + i) % c.size) 0
old_byte c src n i v h hs hi =
    let k = c.size - used c + i in
    let round : c.out_ + used c + k ≡ c.out_ + i + c.size = omega (arith, v.within) in
    let same : (c.in_ + k) % c.size ≡ (c.out_ + i) % c.size =
      writer_place c k v ∙ (ap (λ (x : ℕ). x % c.size) round ∙ add-mod_right (c.out_ + i) c.size) in
    let kept =
      get_or-write_bytes c src n k v hs (omega (arith, v.within)) (omega (arith, v.within)) in
    rw (← same) (kept ∙ rw (le→ltb_false k n (omega (arith, v.within))))

new_byte :
    (c : ByteChannel) (src : List ℕ) (n i : ℕ)
    → IsValid c
    → n ≤ c.size - used c
    → n ≤ length src
    → i < n
    → get_or (write_bytes c src n) ((c.out_ + (used c + i)) % c.size) 0 ≡ get_or src i 0
new_byte c src n i v h hs hi =
    let e : c.out_ + used c + i ≡ c.out_ + (used c + i) = omega arith in
    let same : (c.in_ + i) % c.size ≡ (c.out_ + (used c + i)) % c.size =
      writer_place c i v ∙ ap (λ (x : ℕ). x % c.size) e in
    let put =
      get_or-write_bytes c src n i v hs (omega (arith, v.within)) (omega (arith, v.within)) in
    rw (← same) (put ∙ rw (lt→ltb i n hi))

pub contents-extended :
    (c : ByteChannel) (src : List ℕ) (n : ℕ)
    → IsValid c
    → n ≤ c.size - used c
    → n ≤ length src
    → contents (extended c src n) ≡ contents c ++ take n src
unfolding extended
contents-extended c src n v h hs =
    let byte = λ (i : ℕ). get_or (write_bytes c src n) ((c.out_ + i) % c.size) 0 in
    let u = used c in
    ap (tabulate byte) (used-extended c src n v h)
    ∙ (tabulate-add byte u n
        ∙ ap₂ ◌++◌
            (tabulate_cong byte (λ i. get_or c.buf ((c.out_ + i) % c.size) 0) u
              (λ i p. old_byte c src n i v h hs p))
            (tabulate_cong (λ i. byte (u + i)) (λ i. get_or src (0 + i) 0) n
                (λ i p.
                  let e : i ≡ 0 + i = omega arith in
                  new_byte c src n i v h hs p ∙ ap (λ (x : ℕ). get_or src x 0) e)
              ∙ sym (take-drop 0 0 n src (omega arith))))

pub plain_room : (c : ByteChannel) → IsValid c → sub64 c.size (used c) ≡ c.size - used c
plain_room c v = sub64-eq-sub c.size (used c) v.small v.within

write_none :
    (c : ByteChannel) (src : List ℕ)
    → IsValid c
    → min (c.size - used c) (length src) ≡ 0
    → write c src ≡ (err eagain, c)
unfolding write
write_none c src v e = ground (arith, e, plain_room c v)

write_some :
    (c : ByteChannel) (src : List ℕ)
    → IsValid c
    → 0 < min (c.size - used c) (length src)
    → write c src ≡ (
      ok (min (c.size - used c) (length src)),
      extended c src (min (c.size - used c) (length src)),
    )
unfolding write extended
write_some c src v e = ground (arith, e, plain_room c v)

-- Write on a valid channel fails with EAGAIN and changes nothing exactly when the channel is full or
-- there is nothing to write; else it appends as many bytes of `src` as there is room for and
-- returns their number. The channel stays valid.
pub write_lem :
    (c : ByteChannel) (src : List ℕ)
    → IsValid c
    → let n = min (c.size - used c) (length src) in
      let (r, c') = write c src in
      IsValid c'
      × (r ≡ (if n == 0 then err eagain else ok n))
      × (contents c' ≡ contents c ++ take n src)
write_lem c src v = elim (dec_lt 0 (min (c.size - used c) (length src))) [
  | yes some_bytes ↦
      let n = min (c.size - used c) (length src) in
      rw (write_some c src v some_bytes, ne_zero_test n some_bytes)
        (
          extended-IsValid c src n v (omega arith) (omega arith),
          refl,
          contents-extended c src n v (omega arith) (omega arith),
        )
  | no nothing ↦
      let zero_bytes : min (c.size - used c) (length src) ≡ 0 = omega arith in
      rw (write_none c src v zero_bytes, zero_bytes) (v, refl, sym (append-nil (contents c)))
]
