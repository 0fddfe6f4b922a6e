-- ===== src/Io/Buffered.antt =====
-- ReadFull and BufferedReader, and what is relied on of a reader.
use junction.Prelude.{
  ℕ, zero, suc, ◌≡◌, ◌-◌, ◌≤◌, refl, sym, ap, subst, ap₂, ◌∙◌, false, ◌==◌, leb, List, [], ◌∷◌,
  ◌++◌, length, take, drop, append_assoc, append-nil, take-append-drop, length-take, length-append,
  some, Errno, Status, ok, err, ◌⊎◌, inl, inr, arith, Bool-cases,
}
use junction.Io.{
  read_full, BufferedReader, read_from_buffer, refill, buffered_read, Outcome, prepend,
  unexpected_eof,
}
use junction.Io.Transfer.{Status-cases}

-- What is relied on of a reader. `stream r` are the bytes that it has still to give.
pub record ReaderLaws {R : Type 0} (read : R → ℕ → Status (List ℕ) × R) (stream : R → List ℕ)
    : Type 0 where
  pub gives :
      (r : R) (len : ℕ) (bs : List ℕ)
      → (read r len).0 ≡ ok bs
      → (length bs ≤ len) × (bs ++ stream (read r len).1 ≡ stream r)

-- The buffer had less than was asked for.
drained : (n : ℕ) (l : List ℕ) → (length (take n l) == n) ≡ false → (take n l ≡ l) × (drop n l ≡ [])
drained zero l h = absurd (ground (arith, h))
drained (suc n) [] h = (refl, refl)
drained (suc n) (x ∷ l) h =
    let (a, b) = drained n l (ground (arith, h)) in (ap (λ (m : List ℕ). x ∷ m) a, b)

in_order :
    (kept bs left rest all : List ℕ) (n : ℕ) (pos : List ℕ)
    → (length (take n pos) == n) ≡ false
    → bs ++ left ≡ rest
    → rest ++ kept ≡ all
    → (take n pos ++ bs) ++ (left ++ kept) ≡ pos ++ all
in_order kept bs left rest all n pos short split order =
    let (whole, _) = drained n pos short in
    append_assoc (take n pos) bs (left ++ kept)
    ∙ ap₂ ◌++◌ whole
        (sym (append_assoc bs left kept) ∙ (ap (λ (l : List ℕ). l ++ kept) split ∙ order))

ok_bytes : {l m : List ℕ} → Path (Status (List ℕ)) (ok l) (ok m) → l ≡ m
ok_bytes e = ground (arith, e)

module _ {R : Type 0} (read : R → ℕ → Status (List ℕ) × R) (stream : R → List ℕ)
    (laws : ReaderLaws read stream) where
  -- ReadFull, on fuel for one round per byte, returns: either the next `len` bytes of the reader, or an
  -- error.
  pub read_full_lem :
      (fuel : ℕ) (r : R) (len : ℕ)
      → len ≤ fuel
      → let (o, r') = read_full read fuel r len in
        ((bs : List ℕ) × (o ≡ some (ok bs)) × (length bs ≡ len) × (bs ++ stream r' ≡ stream r))
        ⊎ ((e : Errno) × (o ≡ some (err e)))
  unfolding read_full
  read_full_lem zero r len h = elim (Bool-cases (len == 0)) [
    | inl nothing ↦ rw (nothing, read_full) (inl ([], refl, ground (arith, nothing), refl))
    | inr more ↦ absurd (ground (arith, more, h))
  ]
  read_full_lem (suc fuel) r len h = elim (Bool-cases (len == 0)) [
    | inl nothing ↦ rw (nothing, read_full) (inl ([], refl, ground (arith, nothing), refl))
    | inr more ↦ elim (Status-cases (read r len).0) [
      | inr (e, is_err) ↦ rw (more, is_err, read_full) (inr (e, refl))
      | inl ([], is_ok) ↦ rw (more, is_ok, read_full) (inr (unexpected_eof, refl))
      | inl (b ∷ bs, is_ok) ↦
          let (le, order) = laws.gives r len (b ∷ bs) is_ok in
          let rest =
            read_full_lem fuel (read r len).1 (len - length (b ∷ bs)) (omega (arith, le)) in
          rw (more, is_ok, read_full) (longer b bs len (stream r) _ _ le order rest)
    ]
  ]
    where
      longer :
          (b : ℕ) (bs : List ℕ) (len : ℕ) (all between : List ℕ) (result : Outcome (List ℕ) × R)
          → length (b ∷ bs) ≤ len
          → (b ∷ bs) ++ between ≡ all
          → ((more : List ℕ) × (result.0 ≡ some (ok more))
              × (length more ≡ len - length (b ∷ bs))
              × (more ++ stream result.1 ≡ between))
            ⊎ ((e : Errno) × (result.0 ≡ some (err e)))
          → ((more : List ℕ) × (prepend (b ∷ bs) result.0 ≡ some (ok more))
              × (length more ≡ len)
              × (more ++ stream result.1 ≡ all))
            ⊎ ((e : Errno) × (prepend (b ∷ bs) result.0 ≡ some (err e)))
      longer b bs len all between result le order (inl (more, done, size, rest)) = inl (
        (b ∷ bs) ++ more,
        ap (prepend (b ∷ bs)) done,
        omega (arith, size, le, length-append (b ∷ bs) more),
        append_assoc (b ∷ bs) more (stream result.1)
            ∙ (ap (λ (l : List ℕ). (b ∷ bs) ++ l) rest ∙ order),
      )
      longer b bs len all between result le order (inr (e, failed)) =
          inr (e, ap (prepend (b ∷ bs)) failed)

  -- The bytes that a BufferedReader has still to give.
  abbrev pub buffered_stream : BufferedReader read → List ℕ
  buffered_stream b = b.pos ++ stream b.source

  -- A result whose bytes come next.
  abbrev NextBytes : BufferedReader read → ℕ → Status (List ℕ) × BufferedReader read → Type 0
  NextBytes b dst result =
      (bs : List ℕ)
      → result.0 ≡ ok bs
      → (length bs ≤ dst) × (bs ++ buffered_stream result.1 ≡ buffered_stream b)

  next_bytes :
      (b b' : BufferedReader read) (dst : ℕ) (front : List ℕ)
      → length front ≤ dst
      → front ++ buffered_stream b' ≡ buffered_stream b
      → NextBytes b dst (ok front, b')
  next_bytes b b' dst front le order bs e =
      let same : front ≡ bs = ok_bytes e in
      subst (λ (l : List ℕ). (length l ≤ dst) × (l ++ buffered_stream b' ≡ buffered_stream b)) same
        (le, order)

  no_bytes_given : (b b' : BufferedReader read) (dst : ℕ) (x : Errno) → NextBytes b dst (err x, b')
  no_bytes_given b b' dst x bs e = absurd (ground (arith, e))

  buffered_read_next :
      (b : BufferedReader read) (dst : ℕ) → NextBytes b dst (buffered_read read b dst)
  unfolding buffered_read read_from_buffer refill
  buffered_read_next b dst =
      let front = take dst b.pos in
      let front_len = length-take dst b.pos in
      elim (Bool-cases (length front == dst)) [
        | inl whole ↦
            rw (whole, buffered_read)
              (next_bytes b (record b { pos = drop dst b.pos }) dst front (omega (arith, front_len))
                (sym (append_assoc front (drop dst b.pos) (stream b.source))
                  ∙ ap (λ (l : List ℕ). l ++ stream b.source) (take-append-drop dst b.pos)))
        | inr part ↦ elim (Bool-cases (leb b.len (dst - length front))) [
          | inl large ↦ elim (Status-cases (read b.source b.len).0) [
            | inr (x, is_err) ↦
                rw (part, large, is_err, buffered_read)
                  (no_bytes_given b
                    (record b { source = (read b.source b.len).1; pos = drop dst b.pos }) dst x)
            | inl (bs, is_ok) ↦
                let (le, order) = laws.gives b.source b.len bs is_ok in
                rw (part, large, is_ok, buffered_read)
                  (let gone : drop dst b.pos ≡ [] = (drained dst b.pos part).1 in
                    next_bytes b
                      (record b { source = (read b.source b.len).1; pos = drop dst b.pos }) dst
                      (front ++ bs) (ground (arith, le, large, front_len, length-append front bs))
                      (ap (λ (l : List ℕ). (front ++ bs) ++ (l ++ stream (read b.source b.len).1))
                          gone
                        ∙ in_order (stream (read b.source b.len).1) bs [] bs (stream b.source) dst
                            b.pos part (append-nil bs) order))
          ]
          | inr small ↦ elim (Status-cases (read b.source b.len).0) [
            | inr (x, is_err) ↦
                rw (part, small, is_err, buffered_read, refill, is_err)
                  (no_bytes_given b
                    (record b { source = (read b.source b.len).1; pos = drop dst b.pos }) dst x)
            | inl (bs, is_ok) ↦
                let (le, order) = laws.gives b.source b.len bs is_ok in
                rw (part, small, is_ok, buffered_read, refill, is_ok)
                  (let n = dst - length front in
                    next_bytes b (record b { source = (read b.source b.len).1; pos = drop n bs })
                      dst (front ++ take n bs)
                      (ground (arith, front_len, length-append front (take n bs), length-take n bs))
                      (in_order (stream (read b.source b.len).1) (take n bs) (drop n bs) bs
                        (stream b.source) dst b.pos part (take-append-drop n bs) order))
          ]
        ]
      ]

  -- Read of a BufferedReader, when it succeeds, gives the next bytes, no more than there is room for, and
  -- the reader goes on right behind them, whether the bytes come from the buffer, past it, or both.
  pub buffered_read_lem :
      (b : BufferedReader read) (dst : ℕ) (bs : List ℕ)
      → (buffered_read read b dst).0 ≡ ok bs
      → (length bs ≤ dst) × (bs ++ buffered_stream (buffered_read read b dst).1 ≡ buffered_stream b)
  unfolding buffered_read read_from_buffer refill
  buffered_read_lem b dst bs h = buffered_read_next b dst bs h
