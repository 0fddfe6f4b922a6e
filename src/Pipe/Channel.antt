-- ===== src/Pipe/Channel.antt =====
-- What a pipe relies on of its channel.
use junction.Prelude.{
  ℕ, ◌≡◌, ◌<◌, ◌-◌, ◌+◌, sym, ap, ap₂, subst, ◌∙◌, Bool, true, false, if◌then◌else◌, ◌==◌, min,
  List, ◌++◌, take, drop, length, arith, Status, ok, err, eagain, length-append, length-take,
  length-drop, take-append-drop,
}
use junction.Prelude.Tabulate.{length-tabulate}
use junction.ByteChannel.{ByteChannel, read, write, is_empty, is_full}
use junction.ByteChannel.Valid.{IsValid, used, contents}
use junction.ByteChannel.Read.{read_lem}
use junction.ByteChannel.Write.{write_lem}

length-contents : (c : ByteChannel) → length (contents c) ≡ used c
length-contents c = length-tabulate _ (used c)

used-is_empty : (c : ByteChannel) → 0 < used c → is_empty c ≡ false
unfolding is_empty
used-is_empty c h = ground arith

used-is_full : (c : ByteChannel) → used c < c.size → is_full c ≡ false
unfolding is_full
used-is_full c h = ground arith

read_size : (c : ByteChannel) (len : ℕ) (peek : Bool) → (read c len peek).1.size ≡ c.size
unfolding read
read_size c len peek = ground arith

pub read_peeks :
    (c : ByteChannel) (len : ℕ) (bs : List ℕ) (c' : ByteChannel)
    → read c len true ≡ (ok bs, c')
    → (is_empty c ≡ false) × (c' ≡ c)
unfolding read is_empty
read_peeks c len bs c' e = ground (arith, e)

some_read :
    {l bs : List ℕ} (n : ℕ) → ok bs ≡ (if n == 0 then err eagain else ok l) → (0 < n) × (bs ≡ l)
some_read n e = ground arith

some_written : (n k : ℕ) → ok k ≡ (if n == 0 then err eagain else ok n) → (0 < n) × (k ≡ n)
some_written n k e = ground arith

pub read-nonempty :
    (c : ByteChannel) (len : ℕ) (peek : Bool) (bs : List ℕ) (c' : ByteChannel)
    → IsValid c
    → read c len peek ≡ (ok bs, c')
    → 0 < length bs
read-nonempty c len peek bs c' v e =
    let (_, result, _) = read_lem c len peek v in
    let n = min (used c) len in
    let (some_bytes, front) =
      some_read n (sym (ap (λ (p : Status (List ℕ) × ByteChannel). p.0) e) ∙ result) in
    omega (arith, some_bytes, ap length front, length-take n (contents c), length-contents c)

pub not_both : (c : ByteChannel) → IsValid c → is_empty c ≡ true → is_full c ≡ true → ⊥
unfolding is_empty is_full
not_both c v e f = ground (arith, v.room, e, f)

-- A read that moves bytes finds the channel not empty; unless it peeks, it leaves the channel not full,
-- and its bytes are the first ones.
pub read_moves :
    (c : ByteChannel) (len : ℕ) (bs : List ℕ) (c' : ByteChannel)
    → IsValid c
    → read c len false ≡ (ok bs, c')
    → IsValid c' × (is_empty c ≡ false) × (is_full c' ≡ false) × (bs ++ contents c' ≡ contents c)
read_moves c len bs c' v e =
    let (valid, result, left) = read_lem c len false v in
    let same : (read c len false).1 ≡ c' = ap (λ (p : Status (List ℕ) × ByteChannel). p.1) e in
    let (some_bytes, front) =
      some_read (min (used c) len)
        (sym (ap (λ (p : Status (List ℕ) × ByteChannel). p.0) e) ∙ result) in
    let n = min (used c) len in
    let kept : contents c' ≡ drop n (contents c) = ap contents (sym same) ∙ left in
    let fewer : used c' ≡ used c - n =
      sym (length-contents c')
      ∙ (ap length kept
          ∙ (length-drop n (contents c) ∙ ap (λ (k : ℕ). k - n) (length-contents c))) in
    let size : c'.size ≡ c.size =
      ap (λ (d : ByteChannel). d.size) (sym same) ∙ read_size c len false in
    (
      subst IsValid same valid,
      used-is_empty c (omega (arith, some_bytes)),
      used-is_full c' (omega (arith, some_bytes, fewer, size, v.within)),
      ap₂ ◌++◌ front kept ∙ take-append-drop n (contents c),
    )

pub write_moves :
    (c : ByteChannel) (src : List ℕ) (n : ℕ) (c' : ByteChannel)
    → IsValid c
    → write c src ≡ (ok n, c')
    → IsValid c'
      × (is_full c ≡ false)
      × (is_empty c' ≡ false)
      × (contents c' ≡ contents c ++ take n src)
write_moves c src n c' v e =
    let (valid, result, left) = write_lem c src v in
    let same : (write c src).1 ≡ c' = ap (λ (p : Status ℕ × ByteChannel). p.1) e in
    let m = min (c.size - used c) (length src) in
    let (some_bytes, number) =
      some_written m n (sym (ap (λ (p : Status ℕ × ByteChannel). p.0) e) ∙ result) in
    let grown : contents c' ≡ contents c ++ take n src =
      ap contents (sym same) ∙ (left ∙ ap (λ (k : ℕ). contents c ++ take k src) (sym number)) in
    let more : used c' ≡ used c + length (take n src) =
      sym (length-contents c')
      ∙ (ap length grown
          ∙ (length-append (contents c) (take n src)
              ∙ ap (λ (k : ℕ). k + length (take n src)) (length-contents c))) in
    (
      subst IsValid same valid,
      used-is_full c (omega (arith, some_bytes)),
      used-is_empty c' (omega (arith, some_bytes, more, number, length-take n src)),
      grown,
    )
