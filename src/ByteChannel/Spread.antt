-- ===== src/ByteChannel/Spread.antt =====
-- Readv.

use junction.Prelude.{
  ℕ, zero, suc, ◌≡◌, ◌-◌, ◌%◌, ◌≤◌, refl, sym, ap, ◌∙◌, min, Bool, true, false, ◌==◌, if◌then◌else◌,
  ltb, List, [], ◌∷◌, ◌++◌, length, take, drop, map, append-nil, ok, err, eagain, arith, Bool-cases,
  inl, inr,
}
use junction.Prelude.Tabulate.{length-tabulate}
use junction.Io.{generic_copyv, sum_iov, concat}
use junction.Io.Copy.{generic_copyv_lem, length-concat}
use junction.ByteChannel.{ByteChannel, copy_out, read_bytes}
use junction.ByteChannel.Valid.{IsValid, used, contents}
use junction.ByteChannel.Read.{read_bytes-eq, advanced, advanced-IsValid, contents-advanced}
use junction.ByteChannel.Vectored.{pieces, readv}

-- The places of the reader hold the bytes that Read would copy.
concat-pieces : (c : ByteChannel) (n : ℕ) → concat (pieces c c.out_ n) ≡ read_bytes c n
unfolding pieces read_bytes
concat-pieces c n = elim (Bool-cases (ltb (c.size - c.out_ % c.size) n)) [
  | inl wraps ↦ rw wraps (
      ap (λ (l : List ℕ). copy_out c.buf (c.out_ % c.size) (c.size - c.out_ % c.size) ++ l)
        (append-nil _))
  | inr fits ↦ rw fits (append-nil _)
]

pub all_contents : (c : ByteChannel) → IsValid c → concat (pieces c c.out_ (used c)) ≡ contents c
all_contents c v =
    concat-pieces c (used c)
    ∙ (read_bytes-eq c (used c) v (omega arith)
        ∙ take_whole (contents c) (used c) (length-tabulate _ (used c)))
  where
    take_whole : (l : List ℕ) (n : ℕ) → length l ≡ n → take n l ≡ l
    take_whole [] zero h = refl
    take_whole [] (suc n) h = refl
    take_whole (x ∷ l) zero h = absurd (omega (arith, h))
    take_whole (x ∷ l) (suc n) h = ap (λ (m : List ℕ). x ∷ m) (take_whole l n (omega (arith, h)))

-- Readv on a valid channel fails with EAGAIN exactly when the channel is empty. Else it fills the caller's
-- buffers, one after the other, with the oldest bytes, as many as there are and as fit, and leaves the rest
-- of the buffers alone. Without `peek` these bytes leave the channel, with it nothing changes. The channel
-- stays valid.
pub readv_lem :
    (c : ByteChannel) (iov : List (List ℕ)) (peek : Bool)
    → IsValid c
    → let (out, n) = generic_copyv (pieces c c.out_ (used c)) iov in
      let (r, c') = readv c iov peek in
      IsValid c'
      × (r ≡ (if used c == 0 then err eagain else ok (out, n)))
      × (n ≡ min (used c) (sum_iov iov))
      × (concat out ≡ take n (contents c) ++ drop n (concat iov))
      × (map length out ≡ map length iov)
      × (contents c' ≡ (if peek then contents c else drop n (contents c)))
unfolding readv advanced
readv_lem c iov peek v =
    let src = pieces c c.out_ (used c) in
    let n = (generic_copyv src iov).1 in
    let all = all_contents c v in
    let (ends, count, bytes, lengths) = generic_copyv_lem src iov in
    let total : sum_iov src ≡ used c =
      sym (length-concat src) ∙ (ap length all ∙ length-tabulate _ (used c)) in
    let bounded : n ≤ used c = omega (arith, count, total) in
    let filled = bytes ∙ ap (λ (l : List ℕ). take n l ++ drop n (concat iov)) all in
    let number = count ∙ ap (λ (k : ℕ). min k (sum_iov iov)) total in
    elim (Bool-cases (used c == 0)) [
      | inl empty ↦
          let none_read : n ≡ 0 = ground (arith, empty, bounded) in
          let nothing : drop n (contents c) ≡ contents c =
            ap (λ (k : ℕ). drop k (contents c)) none_read in
          rw empty (v, refl, number, filled, lengths, unchanged peek (sym nothing))
      | inr some_bytes ↦
          rw some_bytes
            (after_valid peek bounded, refl, number, filled, lengths, after_contents peek bounded)
    ]
  where
    unchanged : (peek : Bool) {l m : List ℕ} → l ≡ m → l ≡ (if peek then l else m)
    unchanged true e = refl
    unchanged false e = e

    after_valid : (peek : Bool) {n : ℕ} → n ≤ used c → IsValid (if peek then c else advanced c n)
    after_valid true h = v
    after_valid false h = advanced-IsValid c _ v h

    after_contents :
        (peek : Bool) {n : ℕ}
        → n ≤ used c
        → contents (if peek then c else advanced c n)
          ≡ (if peek then contents c else drop n (contents c))
    after_contents true h = refl
    after_contents false h = contents-advanced c _ v h
