-- ===== src/Bitmap/Find.antt =====
-- find_next finds the lowest bit from a position on.
use junction.Prelude.{
  ℕ, zero, suc, ◌≡◌, ◌+◌, ◌-◌, ◌*◌, ◌/◌, ◌%◌, ◌<◌, ◌≤◌, ap, ap₂, subst, Bool, true, false, ◌&&◌,
  not, if◌then◌else◌, leb, Option, none, some, arith, Bool-cases, inl, inr,
}
use junction.Lowest.{lowest, Lowest, lowest_lem}
use junction.Bitmap.{
  Bitmap, Word, test, invert_if, find_loop, find_next, find_next_set, find_next_clear,
}

-- The bits that are looked for.
abbrev pub target : Bool → Bitmap → ℕ → Bool
target invert b p = invert_if invert (test p b)

-- A bit of the word that starts at the bit `i`.
target_word :
    (invert : Bool) (b : Bitmap) (i j : ℕ)
    → i % 64 ≡ 0
    → j < 64
    → target invert b (i + j) ≡ invert_if invert (b.bits (i / 64) j)
unfolding test
target_word invert b i j z h =
    let idx : (i + j) / 64 ≡ i / 64 = omega arith in
    let shift : (i + j) % 64 ≡ j = omega arith in
    ap (λ x. invert_if invert x) (ap₂ b.bits idx shift)

-- The word at `i`, of which the bits from `s` on are looked at.
abbrev masked : Bool → Bitmap → ℕ → Word → Word
masked invert b i mask j = invert_if invert (b.bits (i / 64) j) && mask j

-- Where the masked word has no bit below `m`, there is none from `s` on below `i + m`.
word_false :
    (invert : Bool) (b : Bitmap) (i s m : ℕ) (mask : Word)
    → i % 64 ≡ 0
    → i ≤ s
    → m ≤ 64
    → ((j : ℕ) → j < 64 → mask j ≡ leb s (i + j))
    → ((j : ℕ) → j < m → masked invert b i mask j ≡ false)
    → (p : ℕ) → s ≤ p
    → p < i + m
    → target invert b p ≡ false
word_false invert b i s m mask z low le masks none_below p h k =
    let back : i + (p - i) ≡ p = omega arith in
    let small : p - i < m = omega arith in
    subst (λ q. target invert b q ≡ false) back
      (ground (
        arith,
        target_word invert b i (p - i) z (omega arith),
        masks (p - i) (omega arith),
        none_below (p - i) small,
        back,
        h,
      ))

-- A bit that the masked word has is one from `s` on.
word_true :
    (invert : Bool) (b : Bitmap) (i s v : ℕ) (mask : Word)
    → i % 64 ≡ 0
    → v < 64
    → mask v ≡ leb s (i + v)
    → masked invert b i mask v ≡ true
    → (target invert b (i + v) ≡ true) × (s ≤ i + v)
word_true invert b i s v mask z h e t =
    (ground (arith, target_word invert b i v z h, t), ground (arith, e, t))

found :
    (invert : Bool) (b : Bitmap) (i s : ℕ) (mask : Word) (r rest : Option ℕ)
    → i % 64 ≡ 0
    → i ≤ s
    → s < i + 64
    → ((j : ℕ) → j < 64 → mask j ≡ leb s (i + j))
    → Lowest 0 64 (masked invert b i mask) r
    → Lowest (i + 64) b.size (target invert b) rest
    → Lowest s b.size
        (target invert b)
        (elim r [ none ↦ rest | some v ↦ if leb b.size (i + v) then none else some (i + v) ])
found invert b i s mask none none z low in_word masks f g = λ p h k.
    elim (Bool-cases (leb (i + 64) p)) [
      | inl far ↦ g p (ground (arith, far)) k
      | inr near ↦
          word_false invert b i s 64 mask z low (omega arith) masks (λ j l. f j (omega arith) l) p h
            (ground (arith, near))
    ]
found invert b i s mask none (some q) z low in_word masks f (t, l, u, g) = (
  t,
  omega arith,
  u,
  λ p h k. elim (Bool-cases (leb (i + 64) p)) [
    | inl far ↦ g p (ground (arith, far)) k
    | inr near ↦
        word_false invert b i s 64 mask z low (omega arith) masks (λ j l. f j (omega arith) l) p h
          (ground (arith, near))
  ],
)
found invert b i s mask (some v) rest z low in_word masks (t, l, u, f) g =
    let (hit, from_s) = word_true invert b i s v mask z u (masks v u) t in
    let before =
      word_false invert b i s v mask z low (omega arith) masks (λ j k. f j (omega arith) k) in
    elim (Bool-cases (leb b.size (i + v))) [
      | inl out ↦ rw out (λ p h k. before p h (ground (arith, out, k)))
      | inr within ↦ rw within (hit, from_s, ground (arith, within), before)
    ]

find_loop_lem :
    (fuel : ℕ) (invert : Bool) (b : Bitmap) (i s : ℕ) (mask : Word)
    → i % 64 ≡ 0
    → i ≤ s
    → s < i + 64
    → ((j : ℕ) → j < 64 → mask j ≡ leb s (i + j))
    → b.size ≤ i + fuel * 64
    → Lowest s b.size (target invert b) (find_loop fuel invert b i mask)
unfolding find_loop
find_loop_lem zero invert b i s mask z low in_word masks enough = λ p h k. ground arith
find_loop_lem (suc fuel) invert b i s mask z low in_word masks enough =
    elim (Bool-cases (leb b.size i)) [
      | inl out ↦ rw out (λ p h k. ground (arith, out, h, k))
      | inr within ↦ rw within (
          found invert b i s mask (lowest 64 0 (masked invert b i mask))
            (find_loop fuel invert b (i + 64) (λ j. true)) z low in_word masks
            (lowest_lem 64 0 (masked invert b i mask))
            (find_loop_lem fuel invert b (i + 64) (i + 64) (λ j. true) (omega arith) (omega arith)
              (omega arith) (λ j h. ground arith) (omega arith)))
    ]

-- find_next_set gives the lowest bit from a position on that is set, and find_next_clear the lowest that
-- is clear, across words; they give nothing exactly when there is none below the size.
pub find_next_lem :
    (pos : ℕ) (b : Bitmap)
    → Lowest pos b.size (λ p. test p b) (find_next_set pos b)
      × Lowest pos b.size (λ p. not (test p b)) (find_next_clear pos b)
unfolding find_next_set find_next_clear find_next
find_next_lem pos b = (at false, at true)
  where
    at : (invert : Bool) → Lowest pos b.size (target invert b) (find_next invert pos b)
    at invert =
        find_loop_lem (b.size / 64 + 1) invert b (pos / 64 * 64) pos (λ j. leb (pos % 64) j)
          (omega arith) (omega arith) (omega arith) (λ j h. ground arith) (omega arith)
