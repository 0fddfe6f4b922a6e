-- ===== src/Io/Transfer.antt =====
-- WriteFull and PullIOV, and what is relied on of a writer.
use junction.Prelude.{
  ℕ, zero, suc, ◌≡◌, ◌+◌, ◌-◌, ◌≤◌, ◌<◌, refl, sym, ap, ◌∙◌, ltb, List, [], ◌∷◌, ◌++◌, length, take,
  drop, append_assoc, append-nil, take-append-drop, length-drop, some, Errno, Status, ok, err, ◌⊎◌,
  inl, inr, arith, Bool-cases, ltb→lt, ltb_false→le,
}
use junction.Io.Copy.{take_add, drop_add}
use junction.Io.{write_full, pull_iov, concat, sum_iov, Outcome}

pub Status-cases {ℓ} :
    {A : Type ℓ} (s : Status A) → ((a : A) × (s ≡ ok a)) ⊎ ((e : Errno) × (s ≡ err e))
Status-cases (ok a) = inl (a, refl)
Status-cases (err e) = inr (e, refl)

-- What a transfer relies on of a writer. `written w` are the bytes that it has taken so far.
pub record WriterLaws {W : Type 0} (write : W → List ℕ → Status ℕ × W) (written : W → List ℕ)
    : Type 0 where
  pub takes :
      (w : W) (bs : List ℕ) (n : ℕ)
      → (write w bs).0 ≡ ok n
      → (n ≤ length bs) × (written (write w bs).1 ≡ written w ++ take n bs)
  pub moves : (w : W) (bs : List ℕ) (n : ℕ) → (write w bs).0 ≡ ok n → 0 < length bs → 0 < n
  pub fails :
      (w : W) (bs : List ℕ) (e : Errno)
      → (write w bs).0 ≡ err e
      → written (write w bs).1 ≡ written w

-- The whole of `bs` went through, or the call failed after `k` bytes of it.
abbrev pub Transferred : List ℕ → List ℕ → List ℕ → Outcome (Unit {0}) → Type 0
Transferred before bs after o =
    ((o ≡ some (ok tt)) × (after ≡ before ++ bs))
    ⊎ ((e : Errno) × (k : ℕ) × (o ≡ some (err e)) × (k < length bs) × (after ≡ before ++ take k bs))

take-take-drop :
    (n k : ℕ) (bs : List ℕ) → n ≤ length bs → take n bs ++ take k (drop n bs) ≡ take (n + k) bs
take-take-drop n k bs h =
    let plain = append-nil (drop n bs) in
    ap (λ (l : List ℕ). take n bs ++ take k l) (sym plain)
    ∙ (sym (take_add n k bs [] h) ∙ ap (take (n + k)) (append-nil bs))

drop_all : (v : List ℕ) → drop (length v) v ≡ []
drop_all [] = refl
drop_all (x ∷ v) = drop_all v

-- A first part that went through, and the transfer of the rest.
pub continue :
    (before bs between after : List ℕ) (n : ℕ) (o : Outcome (Unit {0}))
    → between ≡ before ++ take n bs
    → n ≤ length bs
    → Transferred between (drop n bs) after o
    → Transferred before bs after o
continue before bs between after n o e h (inl (done, all)) = inl (
  done,
  all
      ∙ (ap (λ (l : List ℕ). l ++ drop n bs) e
          ∙ (append_assoc before (take n bs) (drop n bs)
              ∙ ap (λ (l : List ℕ). before ++ l) (take-append-drop n bs))),
)
continue before bs between after n o e h (inr (x, k, failed, le, some_bytes)) = inr (
  x,
  n + k,
  failed,
  omega (arith, le, length-drop n bs),
  some_bytes
      ∙ (ap (λ (l : List ℕ). l ++ take k (drop n bs)) e
          ∙ (append_assoc before (take n bs) (take k (drop n bs))
              ∙ ap (λ (l : List ℕ). before ++ l) (take-take-drop n k bs h))),
)

module _ {W : Type 0} (write : W → List ℕ → Status ℕ × W) (written : W → List ℕ)
    (laws : WriterLaws write written) where
  -- WriteFull, on fuel for one round per byte, returns: either the writer has taken all bytes, or one of
  -- its calls failed, and it has taken the bytes before that call and no other.
  pub write_full_lem :
      (fuel : ℕ) (w : W) (bs : List ℕ)
      → length bs ≤ fuel
      → let (o, w') = write_full write fuel w bs in Transferred (written w) bs (written w') o
  unfolding write_full
  write_full_lem fuel w [] h = inl (refl, sym (append-nil (written w)))
  write_full_lem zero w (b ∷ bs) h = absurd (omega arith)
  write_full_lem (suc fuel) w (b ∷ bs) h = elim (Status-cases (write w (b ∷ bs)).0) [
    | inr (e, is_err) ↦
        rw (is_err, write_full)
          (inr (
            e,
            0,
            refl,
            omega arith,
            laws.fails w (b ∷ bs) e is_err ∙ sym (append-nil (written w)),
          ))
    | inl (n, is_ok) ↦
        let (le, put) = laws.takes w (b ∷ bs) n is_ok in
        let some_bytes = laws.moves w (b ∷ bs) n is_ok (omega arith) in
        let rest =
          write_full_lem fuel (write w (b ∷ bs)).1 (drop n (b ∷ bs))
            (omega (arith, length-drop n (b ∷ bs))) in
        rw (is_ok, write_full) (continue (written w) (b ∷ bs) _ _ n _ put le rest)
  ]

-- What a vectored transfer relies on.
pub record VectoredLaws {W : Type 0} (writev : W → List (List ℕ) → Status ℕ × W)
    (written : W → List ℕ) : Type 0 where
  pub takes :
      (w : W) (vs : List (List ℕ)) (n : ℕ)
      → (writev w vs).0 ≡ ok n
      → (n ≤ sum_iov vs) × (written (writev w vs).1 ≡ written w ++ take n (concat vs))
  pub moves : (w : W) (vs : List (List ℕ)) (n : ℕ) → (writev w vs).0 ≡ ok n → 0 < sum_iov vs → 0 < n
  pub fails :
      (w : W) (vs : List (List ℕ)) (e : Errno)
      → (writev w vs).0 ≡ err e
      → written (writev w vs).1 ≡ written w

drop_front : (n : ℕ) (v t : List ℕ) → n ≤ length v → drop n (v ++ t) ≡ drop n v ++ t
drop_front n v t h =
    let e : n ≡ n + 0 = omega arith in ap (λ (k : ℕ). drop k (v ++ t)) e ∙ drop_add n 0 v t h

drop_past : (n : ℕ) (v t : List ℕ) → length v ≤ n → drop n (v ++ t) ≡ drop (n - length v) t
drop_past n v t h =
    let e : n ≡ length v + (n - length v) = omega arith in
    ap (λ (k : ℕ). drop k (v ++ t)) e
    ∙ (drop_add (length v) (n - length v) v t (omega arith)
        ∙ ap (λ (l : List ℕ). drop (n - length v) (l ++ t)) (drop_all v))

-- PullIOV takes the first bytes off a vector, and no empty buffer comes first in what it leaves.
pub pull_iov_lem :
    (vs : List (List ℕ)) (n : ℕ) → n ≤ sum_iov vs → concat (pull_iov vs n) ≡ drop n (concat vs)
unfolding pull_iov
pull_iov_lem [] zero h = refl
pull_iov_lem [] (suc n) h = refl
pull_iov_lem (v ∷ vs) n h = elim (Bool-cases (ltb n (length v))) [
  | inl part ↦ rw part (sym (drop_front n v (concat vs) (omega (arith, ltb→lt n (length v) part))))
  | inr whole ↦
      let past : length v ≤ n = ltb_false→le n (length v) whole in
      rw whole (pull_iov_lem vs (n - length v) (omega arith) ∙ sym (drop_past n v (concat vs) past))
]
