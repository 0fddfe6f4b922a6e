-- ===== src/Io/Vectored.antt =====
-- WritevFull.
use junction.Prelude.{
  ℕ, zero, suc, ◌≡◌, ◌-◌, ◌≤◌, ◌<◌, refl, sym, ap, ◌∙◌, ◌==◌, ltb, List, [], ◌∷◌, ◌++◌, length,
  drop, append-nil, length-drop, length-append, Status, ◌⊎◌, inl, inr, arith, Bool-cases, ltb→lt,
}
use junction.Io.Copy.{length-concat, no_bytes}
use junction.Io.{writev_loop, writev_full, pull_iov, concat, sum_iov}
use junction.Io.Transfer.{Status-cases, Transferred, continue, pull_iov_lem, VectoredLaws}

-- The first buffer that PullIOV leaves is not empty.
pull_iov_some :
    (vs : List (List ℕ)) (n : ℕ)
    → (pull_iov vs n ≡ [])
      ⊎ ((v : List ℕ) × (ws : List (List ℕ)) × (pull_iov vs n ≡ v ∷ ws) × (0 < length v))
unfolding pull_iov
pull_iov_some [] n = inl refl
pull_iov_some (v ∷ vs) n = elim (Bool-cases (ltb n (length v))) [
  | inl part ↦
      rw part (inr (drop n v, vs, refl, omega (arith, length-drop n v, ltb→lt n (length v) part)))
  | inr whole ↦ rw whole (pull_iov_some vs (n - length v))
]

drop_sum : (vs : List (List ℕ)) (n : ℕ) → n ≡ sum_iov vs → drop n (concat vs) ≡ []
drop_sum vs n e = no_bytes _ (omega (arith, length-drop n (concat vs), length-concat vs, e))

module _ {W : Type 0} (writev : W → List (List ℕ) → Status ℕ × W) (written : W → List ℕ)
    (laws : VectoredLaws writev written) where
  writev_loop_lem :
      (fuel : ℕ) (w : W) (s : List (List ℕ)) (n : ℕ)
      → n ≤ sum_iov s
      → sum_iov s - n < fuel
      → let (o, w') = writev_loop writev fuel w s n in
        Transferred (written w) (drop n (concat s)) (written w') o
  unfolding writev_loop
  writev_loop_lem zero w s n h k = absurd (omega arith)
  writev_loop_lem (suc fuel) w s n h k = elim (pull_iov_some s n) [
    | inl nothing ↦
        let left : drop n (concat s) ≡ [] = sym (pull_iov_lem s n h) ∙ ap concat nothing in
        rw (nothing, left, writev_loop) (inl (refl, sym (append-nil (written w))))
    | inr (v, vs, some_left, some_bytes) ↦
        let s' = v ∷ vs in
        let left : drop n (concat s) ≡ concat s' = sym (pull_iov_lem s n h) ∙ ap concat some_left in
        let size : sum_iov s' ≡ sum_iov s - n =
          sym (length-concat s')
          ∙ (ap length (sym left)
              ∙ (length-drop n (concat s) ∙ ap (λ (m : ℕ). m - n) (length-concat s))) in
        elim (Status-cases (writev w s').0) [
          | inr (e, is_err) ↦
              rw (some_left, is_err, left, writev_loop)
                (inr (
                  e,
                  0,
                  refl,
                  omega (arith, some_bytes, length-append v (concat vs)),
                  laws.fails w s' e is_err ∙ sym (append-nil (written w)),
                ))
          | inl (m, is_ok) ↦
              let (le, put) = laws.takes w s' m is_ok in
              let moved = laws.moves w s' m is_ok (omega (arith, some_bytes)) in
              rw (some_left, is_ok, left, writev_loop)
                (continue (written w) (concat s') _ _ m _ put (omega (arith, le, length-concat s'))
                  (writev_loop_lem fuel (writev w s').1 s' m le (omega (arith, size, moved))))
        ]
  ]

  -- WritevFull, on fuel for one round more than there are bytes, returns: either the writer has taken all
  -- buffers, one after the other, or one of its calls failed, and it has taken the bytes before that call
  -- and no other. This holds for a vector that is not empty throughout.
  pub writev_full_lem :
      (fuel : ℕ) (w : W) (iov : List (List ℕ))
      → 0 < sum_iov iov
      → sum_iov iov < fuel
      → let (o, w') = writev_full writev fuel w iov in
        Transferred (written w) (concat iov) (written w') o
  unfolding writev_full
  writev_full_lem fuel w iov pos h = elim (Status-cases (writev w iov).0) [
    | inr (e, is_err) ↦
        rw (is_err, writev_full)
          (inr (
            e,
            0,
            refl,
            omega (arith, length-concat iov),
            laws.fails w iov e is_err ∙ sym (append-nil (written w)),
          ))
    | inl (n, is_ok) ↦
        let (le, put) = laws.takes w iov n is_ok in
        elim (Bool-cases (n == sum_iov iov)) [
          | inl all ↦
              rw (is_ok, all, writev_full)
                (continue (written w) (concat iov) _ _ n _ put
                  (omega (arith, le, length-concat iov))
                  (inl (
                    refl,
                    sym (
                        ap (λ (l : List ℕ). written (writev w iov).1 ++ l)
                          (drop_sum iov n (ground (arith, all)))
                        ∙ append-nil _),
                  )))
          | inr part ↦
              rw (is_ok, part, writev_full)
                (continue (written w) (concat iov) _ _ n _ put
                  (omega (arith, le, length-concat iov))
                  (writev_loop_lem fuel (writev w iov).1 iov n le (omega arith)))
        ]
  ]
