-- ===== src/ByteChannel/Gather.antt =====
-- Writev.
use native.Mathlib.Nat.{mod-lt}
use junction.Prelude.{
  ℕ, zero, suc, ◌≡◌, ◌+◌, ◌-◌, ◌%◌, ◌≤◌, refl, sym, ap, ap₂, ◌∙◌, min, true, false, ◌==◌,
  if◌then◌else◌, ltb, List, [], ◌∷◌, ◌++◌, length, take, drop, map, append-nil, get_or, add64, ok,
  err, eagain, arith, Bool-cases, inl, inr, ltb_false→le, length-take,
}
use junction.Prelude.Tabulate.{tabulate, take-tabulate, length-tabulate}
use junction.Io.{generic_copyv, sum_iov, concat}
use junction.Io.Copy.{generic_copyv_lem, length-concat, take_add}
use junction.ByteChannel.{ByteChannel, copy_in, write_bytes}
use junction.ByteChannel.Valid.{IsValid, used, contents}
use junction.ByteChannel.Write.{
  length-copy_out, extended, extended-IsValid, contents-extended, used-extended, plain_room,
}
use junction.ByteChannel.Vectored.{pieces, put_pieces, writev}

take_front : (n : ℕ) (p l : List ℕ) → n ≡ length p → take n (p ++ l) ≡ p
take_front n p l e = ap (λ (k : ℕ). take k (p ++ l)) e ∙ go p
  where
    go : (p : List ℕ) → take (length p) (p ++ l) ≡ p
    go [] = refl
    go (x ∷ p) = ap (λ (m : List ℕ). x ∷ m) (go p)

drop_front : (n : ℕ) (p l : List ℕ) → n ≡ length p → drop n (p ++ l) ≡ l
drop_front n p l e = ap (λ (k : ℕ). drop k (p ++ l)) e ∙ go p
  where
    go : (p : List ℕ) → drop (length p) (p ++ l) ≡ l
    go [] = refl
    go (x ∷ p) = go p

take_all : (n : ℕ) (l : List ℕ) → n ≡ length l → take n l ≡ l
take_all n l e = ap (take n) (sym (append-nil l)) ∙ take_front n l [] e

drop_all : (n : ℕ) (l : List ℕ) → n ≡ length l → drop n l ≡ []
drop_all n l e = ap (drop n) (sym (append-nil l)) ∙ drop_front n l [] e

take-take : (k n : ℕ) (l : List ℕ) → k ≤ n → take k (take n l) ≡ take k l
take-take zero n l h = refl
take-take (suc k) zero l h = absurd (omega arith)
take-take (suc k) (suc n) [] h = refl
take-take (suc k) (suc n) (x ∷ l) h = ap (λ (m : List ℕ). x ∷ m) (take-take k n l (omega arith))

-- The lengths of the one or two pieces.
abbrev piece_lengths : ByteChannel → ℕ → List ℕ
piece_lengths c n =
    let n_to_end = c.size - c.in_ % c.size in
    if ltb n_to_end n then n_to_end ∷ (n - n_to_end) ∷ [] else n ∷ []

lengths-pieces :
    (c : ByteChannel) (n : ℕ)
    → IsValid c
    → n ≤ c.size
    → map length (pieces c c.in_ n) ≡ piece_lengths c n
unfolding pieces
lengths-pieces c n v h =
    let t = c.in_ % c.size in
    let at_in = mod-lt c.in_ v.room in
    elim (Bool-cases (ltb (c.size - t) n)) [
      | inl wraps ↦ rw wraps (
          ap₂ (λ (a b : ℕ). a ∷ b ∷ [])
            (length-copy_out c.buf t (c.size - t) (omega (arith, at_in, v.storage)))
            (length-copy_out c.buf 0 (n - (c.size - t)) (omega (arith, v.storage))))
      | inr fits ↦ rw fits (
          ap (λ (a : ℕ). a ∷ [])
            (length-copy_out c.buf t n
              (omega (arith, at_in, v.storage, ltb_false→le (c.size - t) n fits))))
    ]

abbrev sum : List ℕ → ℕ
sum [] = 0
sum (n ∷ ns) = n + sum ns

sum_iov-sum : (vs : List (List ℕ)) → sum_iov vs ≡ sum (map length vs)
sum_iov-sum [] = refl
sum_iov-sum (v ∷ vs) = ap (λ (n : ℕ). length v + n) (sum_iov-sum vs)

sum-pieces : (c : ByteChannel) (n : ℕ) → sum (piece_lengths c n) ≡ n
sum-pieces c n = ground arith

-- Putting whole pieces back writes their bytes.
put_pieces-eq :
    (c : ByteChannel) (n : ℕ) (out : List (List ℕ))
    → map length out ≡ piece_lengths c n
    → put_pieces c c.in_ out ≡ write_bytes c (concat out) n
unfolding put_pieces write_bytes
put_pieces-eq c n [] e = absurd (ground (arith, ap length e))
put_pieces-eq c n (p ∷ []) e =
    let fits : ltb (c.size - c.in_ % c.size) n ≡ false = ground (arith, ap length e) in
    let len : n ≡ length p = ground (arith, ap (λ (l : List ℕ). get_or l 0 0) e, fits) in
    rw fits (ap (λ (l : List ℕ). copy_in l c.buf (c.in_ % c.size)) (sym (take_front n p [] len)))
put_pieces-eq c n (p ∷ q ∷ []) e =
    let n_to_end = c.size - c.in_ % c.size in
    let wraps : ltb n_to_end n ≡ true = ground (arith, ap length e) in
    let first : n_to_end ≡ length p = ground (arith, ap (λ (l : List ℕ). get_or l 0 0) e, wraps) in
    let second : n - n_to_end ≡ length q =
      ground (arith, ap (λ (l : List ℕ). get_or l 1 0) e, wraps) in
    let tail : take (n - n_to_end) (drop n_to_end (p ++ (q ++ []))) ≡ q =
      ap (take (n - n_to_end)) (drop_front n_to_end p (q ++ []) first)
      ∙ take_front (n - n_to_end) q [] second in
    rw wraps (
      ap₂ (λ (a b : List ℕ). copy_in a (copy_in b c.buf (c.in_ % c.size)) 0) (sym tail)
        (sym (take_front n_to_end p (q ++ []) first)))
put_pieces-eq c n (p ∷ q ∷ r ∷ out) e = absurd (ground (arith, ap length e))

-- The channel with the first `k` of `n` new bytes.
first_bytes :
    (c : ByteChannel) (bytes : List ℕ) (n k : ℕ)
    → IsValid c
    → n ≤ c.size - used c
    → n ≤ length bytes
    → k ≤ n
    → let c' = record c { in_ = add64 c.in_ k; buf = write_bytes c bytes n } in
      IsValid c' × (contents c' ≡ contents c ++ take k bytes)
unfolding extended
first_bytes c bytes n k v room h le =
    let w = extended-IsValid c bytes n v room h in
    let c' : ByteChannel = record c { in_ = add64 c.in_ k; buf = write_bytes c bytes n } in
    let byte = λ (i : ℕ). get_or (write_bytes c bytes n) ((c.out_ + i) % c.size) 0 in
    let more : used c' ≡ used c + k = omega (arith, v.in_small, v.out_small, v.within, v.small) in
    let whole : tabulate byte (used c + n) ≡ contents c ++ take n bytes =
      ap (tabulate byte) (sym (used-extended c bytes n v room))
      ∙ contents-extended c bytes n v room h in
    let count : used c ≡ length (contents c) = sym (length-tabulate _ (used c)) in
    (
      record {
        divides = v.divides;
        room = v.room;
        small = v.small;
        storage = w.storage;
        in_small = omega arith;
        out_small = v.out_small;
        within = omega (arith, more, v.within);
      },
      ap (tabulate byte) more
          ∙ (sym (take-tabulate byte (used c + k) (used c + n) (omega arith))
              ∙ (ap (take (used c + k)) whole
                  ∙ (take_add (used c) k (contents c) (take n bytes) (omega (arith, count))
                      ∙ ap₂ ◌++◌ (take_all (used c) (contents c) count) (
                          ap (λ (l : List ℕ). take k (l ++ take n bytes))
                            (drop_all (used c) (contents c) count)
                          ∙ take-take k n bytes le)))),
    )

-- Writev on a valid channel fails with EAGAIN and changes nothing exactly when the channel is full. Else it
-- appends the bytes of the buffers, one after the other, as many as there is room for, and returns their
-- number. The channel stays valid.
pub writev_lem :
    (c : ByteChannel) (iov : List (List ℕ))
    → IsValid c
    → let n = min (c.size - used c) (sum_iov iov) in
      let (r, c') = writev c iov in
      IsValid c'
      × (r ≡ (if c.size - used c == 0 then err eagain else ok n))
      × (contents c' ≡ contents c ++ take n (concat iov))
unfolding writev
writev_lem c iov v =
    let n = c.size - used c in
    let plain = plain_room c v in
    let dst = pieces c c.in_ n in
    let result = generic_copyv iov dst in
    let (ends, count, bytes, lengths) = generic_copyv_lem iov dst in
    elim (Bool-cases (n == 0)) [
      | inl full ↦
          let zero_bytes : n ≡ 0 = ground (arith, full) in
          let none_fits : min n (sum_iov iov) ≡ 0 = omega (arith, zero_bytes) in
          rw (plain, full)
            (
              v,
              refl,
              sym (
                  ap (λ (k : ℕ). contents c ++ take k (concat iov)) none_fits
                  ∙ append-nil (contents c)),
            )
      | inr room ↦
          let shape = lengths ∙ lengths-pieces c n v (omega arith) in
          let total : length (concat result.0) ≡ n =
            length-concat result.0 ∙ (sum_iov-sum result.0 ∙ (ap sum shape ∙ sum-pieces c n)) in
          let size : sum_iov dst ≡ n =
            sum_iov-sum dst ∙ (ap sum (lengths-pieces c n v (omega arith)) ∙ sum-pieces c n) in
          let number : result.1 ≡ min n (sum_iov iov) = omega (arith, count, size) in
          let (w, grown) =
            first_bytes c (concat result.0) n result.1 v (omega arith) (omega (arith, total))
              (omega (arith, number)) in
          let k = result.1 in
          let front : take k (concat result.0) ≡ take k (concat iov) =
            ap (take k) bytes
            ∙ take_front k (take k (concat iov)) (drop k (concat dst))
                (omega (arith, number, length-take k (concat iov), length-concat iov)) in
          rw (plain, room, put_pieces-eq c n result.0 shape)
            (
              w,
              ap ok number,
              grown
                  ∙ ap (λ (l : List ℕ). contents c ++ l)
                      (front ∙ ap (λ (m : ℕ). take m (concat iov)) number),
            )
    ]
