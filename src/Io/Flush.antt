-- ===== src/Io/Flush.antt =====
-- BufferedWriter.
use junction.Prelude.{
  ℕ, zero, suc, ◌≡◌, ◌-◌, ◌≤◌, ◌<◌, refl, sym, ap, ap₂, ◌∙◌, min, ◌==◌, ◌&&◌, leb, List, [], ◌∷◌,
  ◌++◌, length, take, drop, append_assoc, append-nil, take-append-drop, length-take, length-drop,
  length-append, some, Errno, Status, ok, err, ◌⊎◌, inl, inr, arith, Bool-cases,
}
use junction.Io.{BufferedWriter, flush, fill, buffered_write, Outcome}
use junction.Io.Copy.{no_bytes}
use junction.Io.Transfer.{Status-cases, WriterLaws, write_full_lem}

module _ {W : Type 0} (write : W → List ℕ → Status ℕ × W) (written : W → List ℕ)
    (laws : WriterLaws write written) where
  -- The bytes that a BufferedWriter has been given.
  abbrev pub all_written : BufferedWriter write → List ℕ
  all_written b = written b.out ++ b.buf

  -- A call that succeeds has taken `src` and leaves room in the buffer, and any other returns an error.
  abbrev pub Buffered :
      BufferedWriter write → List ℕ → Outcome (Unit {0}) × BufferedWriter write → Type 0
  Buffered b src r =
      ((r.0 ≡ some (ok tt))
        × (all_written r.1 ≡ all_written b ++ src)
        × (length r.1.buf < r.1.capacity)
        × (r.1.capacity ≡ b.capacity))
      ⊎ ((e : Errno) × (r.0 ≡ some (err e)))

  chain :
      (b b1 : BufferedWriter write) (s1 s2 s : List ℕ)
      (r : Outcome (Unit {0}) × BufferedWriter write)
      → all_written b1 ≡ all_written b ++ s1
      → b1.capacity ≡ b.capacity
      → s1 ++ s2 ≡ s
      → Buffered b1 s2 r
      → Buffered b s r
  chain b b1 s1 s2 s r front cap whole (inl (done, all, room, same)) = inl (
    done,
    all
        ∙ (ap (λ (l : List ℕ). l ++ s2) front
            ∙ (append_assoc (all_written b) s1 s2 ∙ ap (λ (l : List ℕ). all_written b ++ l) whole)),
    room,
    same ∙ cap,
  )
  chain b b1 s1 s2 s r front cap whole (inr failed) = inr failed

  -- Flush hands the whole buffer to the writer, or fails; the buffer is empty afterwards.
  flush_lem : (b : BufferedWriter write) → 0 < b.capacity → Buffered b [] (flush write b)
  unfolding flush
  flush_lem b pos =
      elim (write_full_lem write written laws (length b.buf) b.out b.buf (omega arith)) [
        | inl (done, all) ↦ inl (done, ap (λ (l : List ℕ). l ++ []) all, pos, refl)
        | inr (e, k, failed, le, part) ↦ inr (e, failed)
      ]

  fill_lem :
      (b : BufferedWriter write) (src : List ℕ)
      → length b.buf < b.capacity
      → Buffered b (take (min (length src) (b.capacity - length b.buf)) src) (fill write b src)
  unfolding fill
  fill_lem b src room =
      let n = min (length src) (b.capacity - length b.buf) in
      let b1 = record b { buf = b.buf ++ take n src } in
      let added : all_written b1 ≡ all_written b ++ take n src =
        sym (append_assoc (written b.out) b.buf (take n src)) in
      elim (Bool-cases (length b1.buf == b.capacity)) [
        | inl full ↦
            rw (full, fill)
              (chain b b1 (take n src) [] (take n src) (flush write b1) added refl
                (append-nil (take n src)) (flush_lem b1 (omega arith)))
        | inr space ↦
            rw (space, fill)
              (inl (
                refl,
                added,
                ground (arith, space, length-append b.buf (take n src), length-take n src),
                refl,
              ))
      ]

  -- Write of a BufferedWriter with room in its buffer, on fuel for one round per byte, returns. When it
  -- succeeds, the bytes that the writer has taken and those in the buffer are the earlier ones and then
  -- `src`, and there is room in the buffer again.
  pub buffered_write_lem :
      (fuel : ℕ) (b : BufferedWriter write) (src : List ℕ)
      → length b.buf < b.capacity
      → length src ≤ fuel
      → Buffered b src (buffered_write write fuel b src)
  unfolding buffered_write
  buffered_write_lem fuel b [] room h = inl (refl, sym (append-nil (all_written b)), room, refl)
  buffered_write_lem zero b (x ∷ xs) room h = absurd (omega arith)
  buffered_write_lem (suc fuel) b (x ∷ xs) room h =
      let src = x ∷ xs in
      elim (Bool-cases (length b.buf == 0 && leb b.capacity (length src))) [
        | inl direct ↦ elim (Status-cases (write b.out src).0) [
          | inr (e, is_err) ↦ rw (direct, is_err, buffered_write) (inr (e, refl))
          | inl (n, is_ok) ↦
              let (le, put) = laws.takes b.out src n is_ok in
              let moved = laws.moves b.out src n is_ok (omega arith) in
              let b1 = record b { out = (write b.out src).1 } in
              let empty : b.buf ≡ [] = no_bytes b.buf (ground (arith, direct)) in
              let added : all_written b1 ≡ all_written b ++ take n src =
                ap₂ ◌++◌ put empty
                ∙ (append-nil _
                    ∙ ap (λ (l : List ℕ). l ++ take n src)
                        (sym (append-nil (written b.out))
                          ∙ ap (λ (l : List ℕ). written b.out ++ l) (sym empty))) in
              rw (direct, is_ok, buffered_write)
                (chain b b1 (take n src) (drop n src) src _ added refl (take-append-drop n src) (
                  buffered_write_lem fuel b1 (drop n src) room
                    (omega (arith, moved, length-drop n src))))
        ]
        | inr buffered ↦
            let n = min (length src) (b.capacity - length b.buf) in
            elim (fill_lem b src room) [
              | inr (e, failed) ↦ rw (buffered, failed, buffered_write) (inr (e, refl))
              | inl (done, all, space, same) ↦
                  rw (buffered, done, buffered_write)
                    (chain b (fill write b src).1 (take n src) (drop n src) src _ all same
                      (take-append-drop n src)
                      (buffered_write_lem fuel (fill write b src).1 (drop n src) space
                        (omega (arith, length-drop n src))))
            ]
      ]
