-- ===== src/Io/Copy.antt =====
-- What GenericCopyv copies.
use junction.Prelude.{
  ℕ, zero, suc, ◌≡◌, ◌+◌, ◌≤◌, ◌<◌, refl, sym, ap, ap₂, ◌∙◌, min, ◌==◌, if◌then◌else◌, List, [],
  ◌∷◌, ◌++◌, length, take, drop, map, append_assoc, arith, length-append, length-take, length-drop,
  append-nil, Option, none, some, replicate, length-replicate,
}
use junction.Io.{
  Copy, after_round, finished, copy_loop, generic_copyv, generic_writev, concat, sum_iov,
}

pub take_add :
    (n k : ℕ) (s t : List ℕ)
    → n ≤ length s
    → take (n + k) (s ++ t) ≡ take n s ++ take k (drop n s ++ t)
take_add zero k s t h = let e : zero + k ≡ k = omega arith in ap (λ (m : ℕ). take m (s ++ t)) e
take_add (suc n) k [] t h = absurd (omega arith)
take_add (suc n) k (x ∷ s) t h =
    let e : suc n + k ≡ suc (n + k) = omega arith in
    rw e (ap (λ (l : List ℕ). x ∷ l) (take_add n k s t (omega arith)))

pub drop_add :
    (n k : ℕ) (s t : List ℕ) → n ≤ length s → drop (n + k) (s ++ t) ≡ drop k (drop n s ++ t)
drop_add zero k s t h = let e : zero + k ≡ k = omega arith in ap (λ (m : ℕ). drop m (s ++ t)) e
drop_add (suc n) k [] t h = absurd (omega arith)
drop_add (suc n) k (x ∷ s) t h =
    let e : suc n + k ≡ suc (n + k) = omega arith in rw e (drop_add n k s t (omega arith))

-- The rounds that are left.
abbrev rounds : List ℕ → List (List ℕ) → List ℕ → List (List ℕ) → ℕ
rounds src srcv dst dstv =
    length srcv + length dstv + (if length src == 0 then 0 else if length dst == 0 then 0 else 1)

-- The bytes that have been copied, before those that stay, and where they lie.
record Copied (dst : List ℕ) (dstv : List (List ℕ)) (a : List ℕ) (r : (List ℕ × List (List ℕ)) × ℕ)
    : Type 0 where
  number : r.1 ≡ min (length a) (length (dst ++ concat dstv))
  bytes : r.0.0 ++ concat r.0.1 ≡ take r.1 a ++ drop r.1 (dst ++ concat dstv)
  head_length : length r.0.0 ≡ length dst
  lengths : map length r.0.1 ≡ map length dstv

next_target :
    {d a : List ℕ} {ds : List (List ℕ)} {r : (List ℕ × List (List ℕ)) × ℕ}
    → Copied d ds a r
    → Copied [] (d ∷ ds) a (([], r.0.0 ∷ r.0.1), r.1)
next_target v = record {
  number = v.number;
  bytes = v.bytes;
  head_length = refl;
  lengths = ap₂ ◌∷◌ v.head_length v.lengths;
}

pub length-concat : (vs : List (List ℕ)) → length (concat vs) ≡ sum_iov vs
length-concat [] = refl
length-concat (v ∷ vs) = omega (arith, length-append v (concat vs), length-concat vs)

pub no_bytes : (l : List ℕ) → length l ≡ 0 → l ≡ []
no_bytes [] h = refl
no_bytes (x ∷ l) h = absurd (omega (arith, h))

-- The loop comes to its end, with what has been copied.
abbrev HasCopied : List ℕ → List (List ℕ) → List ℕ → Option Copy → Type 0
HasCopied dst dstv a none = ⊥
HasCopied dst dstv a (some r) = Copied dst dstv a r

-- One round, with the spans that it works on.
round :
    (s S d : List ℕ) (ds : List (List ℕ)) (r : (List ℕ × List (List ℕ)) × ℕ)
    → let n = min (length s) (length d) in
      Copied (drop n d) ds (drop n s ++ S) r
      → Copied d ds (s ++ S) ((take n s ++ r.0.0, r.0.1), n + r.1)
round s S d ds r v =
    let n = min (length s) (length d) in
    let ls = length-append s S in
    let ld = length-append d (concat ds) in
    let ls' = length-append (drop n s) S in
    let ld' = length-append (drop n d) (concat ds) in
    record {
      number = omega (arith, v.number, ls, ld, ls', ld', length-drop n s, length-drop n d);
      bytes =
          append_assoc (take n s) r.0.0 (concat r.0.1)
          ∙ (ap (λ (l : List ℕ). take n s ++ l) v.bytes
              ∙ (sym (
                    append_assoc (take n s) (take r.1 (drop n s ++ S))
                      (drop r.1 (drop n d ++ concat ds)))
                  ∙ ap₂ ◌++◌ (sym (take_add n r.1 s S (omega arith)))
                      (sym (drop_add n r.1 d (concat ds) (omega arith)))));
      head_length =
          omega (
            arith,
            length-append (take n s) r.0.0,
            length-take n s,
            v.head_length,
            length-drop n d,
          );
      lengths = v.lengths;
    }

rounds_fall :
    (s d : List ℕ) (ss ds : List (List ℕ))
    → let n = min (length s) (length d) in
      rounds (drop n s) ss (drop n d) ds ≡ length ss + length ds
rounds_fall s d ss ds =
    let n = min (length s) (length d) in ground (arith, length-drop n s, length-drop n d)

-- The same of the loop: `dst` is the current target, or else the next one is taken.
round_in :
    (s S y : List ℕ) (ds : List (List ℕ)) (x : ℕ) (o : Option Copy)
    → let d = x ∷ y in
      let n = min (length s) (length d) in
      HasCopied (drop n d) ds (drop n s ++ S) o
      → HasCopied d ds (s ++ S) (after_round d (take n s) n o)
round_in s S y ds x none v = v
round_in s S y ds x (some r) v = round s S (x ∷ y) ds r v

round_next :
    (s S d : List ℕ) (ds : List (List ℕ)) (o : Option Copy)
    → let n = min (length s) (length d) in
      HasCopied (drop n d) ds (drop n s ++ S) o
      → HasCopied [] (d ∷ ds) (s ++ S) (after_round [] (take n s) n o)
round_next s S d ds none v = v
round_next s S d ds (some r) v = next_target (round s S d ds r v)

stopped :
    (a dst : List ℕ) (dstv : List (List ℕ))
    → min (length a) (length (dst ++ concat dstv)) ≡ 0
    → Copied dst dstv a ((dst, dstv), 0)
stopped a dst dstv h = record { number = sym h; bytes = refl; head_length = refl; lengths = refl }

copy_loop_lem :
    (fuel : ℕ) (src : List ℕ) (srcv : List (List ℕ)) (dst : List ℕ) (dstv : List (List ℕ))
    → rounds src srcv dst dstv < fuel
    → HasCopied dst dstv (src ++ concat srcv) (copy_loop fuel src srcv dst dstv)
unfolding copy_loop
copy_loop_lem zero src srcv dst dstv h = absurd (omega arith)
copy_loop_lem (suc fuel) [] [] dst dstv h = stopped [] dst dstv (omega arith)
copy_loop_lem (suc fuel) [] (v ∷ vs) [] [] h = stopped (concat (v ∷ vs)) [] [] (omega arith)
copy_loop_lem (suc fuel) (x ∷ s) srcv [] [] h = stopped (x ∷ s ++ concat srcv) [] [] (omega arith)
copy_loop_lem (suc fuel) [] (v ∷ vs) [] (d ∷ ds) h =
    round_next v (concat vs) d ds _
      (copy_loop_lem fuel _ vs _ ds (ground (arith, rounds_fall v d vs ds)))
copy_loop_lem (suc fuel) [] (v ∷ vs) (y ∷ d) ds h =
    round_in v (concat vs) d ds y _
      (copy_loop_lem fuel _ vs _ ds (ground (arith, rounds_fall v (y ∷ d) vs ds)))
copy_loop_lem (suc fuel) (x ∷ s) vs [] (d ∷ ds) h =
    round_next (x ∷ s) (concat vs) d ds _
      (copy_loop_lem fuel _ vs _ ds (ground (arith, rounds_fall (x ∷ s) d vs ds)))
copy_loop_lem (suc fuel) (x ∷ s) vs (y ∷ d) ds h =
    round_in (x ∷ s) (concat vs) d ds y _
      (copy_loop_lem fuel _ vs _ ds (ground (arith, rounds_fall (x ∷ s) (y ∷ d) vs ds)))

-- What a loop that ends returns.
ended :
    (dst : List ℕ) (dstv : List (List ℕ)) (a : List ℕ) (o : Option Copy)
    → HasCopied dst dstv a o
    → (o ≡ some (finished o)) × Copied dst dstv a (finished o)
ended dst dstv a none v = absurd v
ended dst dstv a (some r) v = (refl, v)

-- GenericCopyv ends within one round more than there are buffers, and copies as many bytes as both vectors
-- have, and returns their number: the targets, one after the other, hold the first bytes of the sources and
-- then their own old bytes, and each target keeps its length.
pub generic_copyv_lem :
    (srcv dstv : List (List ℕ))
    → let (out, read) = generic_copyv srcv dstv in
      (copy_loop (suc (length srcv + length dstv)) [] srcv [] dstv ≡ some (([], out), read))
      × (read ≡ min (sum_iov srcv) (sum_iov dstv))
      × (concat out ≡ take read (concat srcv) ++ drop read (concat dstv))
      × (map length out ≡ map length dstv)
unfolding generic_copyv
generic_copyv_lem srcv dstv =
    let o = copy_loop (suc (length srcv + length dstv)) [] srcv [] dstv in
    let (ends, v) =
      ended [] dstv (concat srcv) o
        (copy_loop_lem (suc (length srcv + length dstv)) [] srcv [] dstv (omega arith)) in
    let none_left = no_bytes _ v.head_length in
    (
      ends ∙ ap (λ (l : List ℕ). some ((l, (finished o).0.1), (finished o).1)) none_left,
      v.number ∙ ap₂ min (length-concat srcv) (length-concat dstv),
      ap (λ (l : List ℕ). l ++ concat (generic_copyv srcv dstv).0) (sym none_left) ∙ v.bytes,
      v.lengths,
    )

-- GenericWritev into a buffer of the whole length.
take_all_bytes : (n : ℕ) (l : List ℕ) → n ≡ length l → take n l ≡ l
take_all_bytes n l e = ap (λ (k : ℕ). take k l) e ∙ whole l
  where
    whole : (l : List ℕ) → take (length l) l ≡ l
    whole [] = refl
    whole (x ∷ l) = ap (λ (m : List ℕ). x ∷ m) (whole l)

pub generic_writev_all :
    (iov : List (List ℕ)) → (generic_writev iov (replicate (sum_iov iov) 0)).0 ≡ concat iov
unfolding generic_writev
generic_writev_all iov =
    let dst = replicate (sum_iov iov) 0 in
    let o = copy_loop (suc (length iov + 1)) [] iov [] (dst ∷ []) in
    let r = finished o in
    let (ends, v) =
      ended [] (dst ∷ []) (concat iov) o
        (copy_loop_lem (suc (length iov + 1)) [] iov [] (dst ∷ []) (omega arith)) in
    let size : length (concat (dst ∷ [])) ≡ sum_iov iov =
      ap length (append-nil dst) ∙ length-replicate (sum_iov iov) 0 in
    let count : r.1 ≡ sum_iov iov = omega (arith, v.number, size, length-concat iov) in
    ap (λ (l : List ℕ). l ++ concat r.0.1) (sym (no_bytes r.0.0 v.head_length))
    ∙ (v.bytes
        ∙ (ap₂ ◌++◌ (take_all_bytes r.1 (concat iov) (count ∙ sym (length-concat iov))) (
              no_bytes (drop r.1 (concat (dst ∷ [])))
                (omega (arith, count, size, length-drop r.1 (concat (dst ∷ [])))))
            ∙ append-nil (concat iov)))
